-- ===== src/Storage/Removed.antt =====
-- `rm` from the naming server to the file of a storage server and back.
use network_file_system.Prelude.{
  ℕ, ◌+◌, ◌≤◌, ◌≡◌, ◌⊎◌, refl, ◌∙◌, Bool, Bool-cases, Option-cases, inl, inr, true, false, not,
  ◌||◌, ltb, none, some, arith, List, Bytes, codes, ◌++◌, get_elem?, set, snprintf, take, lt→ltb,
  ltb→lt, length, starts_with, c_string, if◌then◌else◌,
}
use network_file_system.Lock.Defs.{LockStruct, acquire_delete_lock, release_delete_lock}
use network_file_system.Naming.World.{Network, World, return, note, sent, buffer_size, send_good}
use network_file_system.Naming.Commands.Text.{could_not, reply}
use network_file_system.Naming.Commands.Remove.{removed, on_removed}
use network_file_system.Storage.Locks.{
  find_lock, request_lock, IsFree, has_lock_or_room, find_lock-set, get_elem?-set, request_lock_lem,
}
use network_file_system.Storage.Listen.{listen_to_nm, under_lock}
use network_file_system.Storage.Listen
use network_file_system.Storage.Protocol.{no_space, listen_to_nm-command_of}
use network_file_system.Storage.Perform.{replied, waits, remove_locked, perform_action}
use network_file_system.Files.Operations.{Host, path_reply, remove_file}
use network_file_system.Transfer.Pieces.{length-take}
use network_file_system.Transfer.Send.{line_feed}

starts_with-remove_file :
    (host : Host) (path : Bytes)
    → starts_with (c_string (remove_file host (some path)).text) could_not ≡ not (host.remove path)
unfolding remove_file starts_with c_string
starts_with-remove_file host path = elim (Bool-cases (host.remove path)) [
  | inl e ↦ rw e refl
  | inr e ↦ rw e refl
]

-- The path has a lock that a thread holds.
abbrev pub is_held : Bytes → List LockStruct → Bool
is_held path ls = elim (find_lock path ls) [
  | none ↦ false
  | some i ↦ elim (get_elem? ls i) [
    | none ↦ false
    | some l ↦ l.is_writing || l.is_deleting || ltb 0 l.readers
  ]
]

IsFree-is_held : (path : Bytes) (ls : List LockStruct) → is_held path ls ≡ false → IsFree path ls
IsFree-is_held path ls h i l found at =
    let clear : (l.is_writing || l.is_deleting || ltb 0 l.readers) ≡ false =
      rw (is_held, found, at) at h in
    (ground arith, ground arith, ground arith)

-- The file is removed under the delete lock of its path, which nobody holds then.
perform_action-unheld :
    (host : Host) (path : Bytes) (ls : List LockStruct)
    → has_lock_or_room path ls ≡ true
    → is_held path ls ≡ false
    → (ls' : List LockStruct) × (perform_action host (under_lock path) ls
        ≡ replied (remove_file host (some path)) ls')
      × (is_held path ls' ≡ false)
unfolding perform_action remove_locked acquire_delete_lock release_delete_lock
perform_action-unheld host path ls room clear =
    let free = IsFree-is_held path ls clear in
    let (i, locks, l, asked, found, at, (w, d, r)) = request_lock_lem path ls room free in
    let after : LockStruct = record l { is_deleting = false } in
    let found' : find_lock path (set locks i after) ≡ some i =
      find_lock-set path locks i l after at refl ∙ found in
    (
      set locks i after,
      rw (
        perform_action, asked, remove_locked, at, acquire_delete_lock, w, d, r, release_delete_lock,
      ),
      rw (is_held, found', get_elem?-set locks i l after at, w, r) refl,
    )

perform_action-held :
    (host : Host) (path : Bytes) (ls : List LockStruct)
    → is_held path ls ≡ true
    → perform_action host (under_lock path) ls ≡ waits ls
unfolding perform_action remove_locked request_lock acquire_delete_lock
perform_action-held host path ls h = elim (Option-cases (find_lock path ls)) [
  | inl e ↦ let bad : false ≡ true = rw (is_held, e) at h in cc
  | inr (i, e) ↦ elim (Option-cases (get_elem? ls i)) [
    | inl out ↦ let bad : false ≡ true = rw (is_held, e, out) at h in cc
    | inr (l, at) ↦
        let held : (l.is_writing || l.is_deleting || ltb 0 l.readers) ≡ true =
          rw (is_held, e, at) at h in
        rw (perform_action, request_lock, e, remove_locked, at, acquire_delete_lock, held) refl
  ]
]

length-snprintf : (text : Bytes) → ltb (length (snprintf buffer_size text)) buffer_size ≡ true
length-snprintf text = elim (Bool-cases (ltb (length text) 1023)) [
  | inl short ↦
      let size : length (take 1023 text) ≡ length text = length-take 1023 text ∙ rw short refl in
      lt→ltb _ _ (omega (arith, size, ltb→lt _ _ short))
  | inr long ↦
      let size : length (take 1023 text) ≡ 1023 = length-take 1023 text ∙ rw long refl in
      lt→ltb _ _ (omega (arith, size))
]

length-remove_file :
    (host : Host) (path : Bytes)
    → ltb (length (remove_file host (some path)).text) buffer_size ≡ true
unfolding remove_file path_reply
length-remove_file host path = elim (Bool-cases (host.remove path)) [
  | inl e ↦ rw e (length-snprintf (codes "Removed file" ++ codes " @ " ++ path ++ line_feed))
  | inr e ↦
      rw e (length-snprintf (codes "Could not remove file" ++ codes " @ " ++ path ++ line_feed))
]

on_removed-remove_file :
    (host : Host) (net : Network) (path : Bytes) (client i : ℕ) (w : World)
    → on_removed net client i (codes "rm") path (some (remove_file host (some path)).text) w
      ≡ (if host.remove path then removed net i (codes "rm") path else return tt)
          (note (sent client (c_string (remove_file host (some path)).text)) w)
unfolding on_removed reply send_good
on_removed-remove_file host net path client i w = elim (Bool-cases (host.remove path)) [
  | inl e ↦ rw (length-remove_file host path, starts_with-remove_file host path, e) refl
  | inr e ↦ rw (length-remove_file host path, starts_with-remove_file host path, e) refl
]

-- For a path without spaces, of two bytes or more, which fits the naming server's buffer, and has a
-- lock or room for one in the table of the storage server. The command that removes a file, passed
-- on by the naming server, asks for that path under its lock. Where a thread of the storage server
-- reads, writes or deletes the path, it waits. Where none does, it replies, and none holds the lock
-- afterwards. With that reply the naming server, in any state, sends the reply up to its first NUL
-- to the client, and removes the path from its tree and at the backups exactly if the host has
-- removed the file.
pub rm_command_lem :
    (host : Host) (net : Network) (root path : Bytes) (ls : List LockStruct) (client i : ℕ)
    (w : World)
    → 2 ≤ length root
    → 2 ≤ length path
    → length path + 8 ≤ buffer_size
    → no_space path ≡ true
    → has_lock_or_room path ls ≡ true
    → (listen_to_nm root (codes "rm " ++ path) ≡ some (under_lock path))
      × (((is_held path ls ≡ true) × (perform_action host (under_lock path) ls ≡ waits ls))
          ⊎ ((is_held path ls ≡ false)
              × (ls' : List LockStruct) × (perform_action host (under_lock path) ls
                  ≡ replied (remove_file host (some path)) ls')
              × (is_held path ls' ≡ false)))
      × (on_removed net client i (codes "rm") path (some (remove_file host (some path)).text) w
          ≡ (if host.remove path then removed net i (codes "rm") path else return tt)
              (note (sent client (c_string (remove_file host (some path)).text)) w))
rm_command_lem host net root path ls client i w hr hp fits n room = (
  (listen_to_nm-command_of Listen.remove_file root path hr hp fits n).0,
  elim (Bool-cases (is_held path ls)) [
    | inl held ↦ inl (held, perform_action-held host path ls held)
    | inr clear ↦
        let (ls', done, after) = perform_action-unheld host path ls room clear in
        inr (clear, ls', done, after)
  ],
  on_removed-remove_file host net path client i w,
)
