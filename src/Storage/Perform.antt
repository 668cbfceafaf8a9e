-- ===== src/Storage/Perform.antt =====
-- `listen_to_nm`: an operation on the files of a storage server, and what is sent back.
use network_file_system.Prelude.{ℕ, none, some, List, Bytes, get_elem?, set}
use network_file_system.Lock.Defs.{LockStruct, acquire_delete_lock, release_delete_lock}
use network_file_system.Storage.Locks.{request_lock}
use network_file_system.Storage.Listen.{
  Action, on_backup, perform, under_lock, copy_to, write, reindex, copy_same, nothing,
}
use network_file_system.Files.Operations.{Host, Reply, remove_file, run}

-- How an action ends: with undefined behaviour, waiting for the lock of its path, with a reply that
-- is freed (`continue`), or with one that is sent. A copy, a write, an index, and a command that is
-- none of these are `elsewhere`.
pub data ActionEnd : Type 0 where
  undefined : ActionEnd
  waits : List LockStruct → ActionEnd
  kept_back replied : Reply → List LockStruct → ActionEnd
  elsewhere : Action → ActionEnd

-- `rm`, with the lock at an index of the table.
unfoldable pub remove_locked : Host → (path : Bytes) → (ℕ × List LockStruct) → ActionEnd
unfolding acquire_delete_lock release_delete_lock
remove_locked host path (i, ls) = elim (get_elem? ls i) [
  | none ↦ undefined
  | some l ↦ elim (acquire_delete_lock l) [
    | none ↦ waits ls
    | some l' ↦ replied (remove_file host (some path)) (set ls i (release_delete_lock l').0)
  ]
]

unfoldable pub perform_action : Host → Action → List LockStruct → ActionEnd
unfolding remove_locked run
perform_action host (on_backup operation path) ls = kept_back (run operation host (some path)) ls
perform_action host (perform operation path) ls = replied (run operation host (some path)) ls
perform_action host (under_lock path) ls = elim (request_lock path ls) [
  | none ↦ undefined
  | some found ↦ remove_locked host path found
]
perform_action host (copy_to copy ip port) ls = elsewhere (copy_to copy ip port)
perform_action host (write command) ls = elsewhere (write command)
perform_action host reindex ls = elsewhere reindex
perform_action host (copy_same command) ls = elsewhere (copy_same command)
perform_action host nothing ls = elsewhere nothing
