-- ===== src/Tests/Reached.antt =====
-- The theorems on the requests of the naming server at a registration and a command.
use network_file_system.Prelude.{
  ltb→lt, ◌⊎◌, ◌≡◌, ◌++◌, c_string, arith, if◌then◌else◌, ◌≢◌, refl, true, false, none, some, List,
  [], ◌∷◌, codes, set,
}
use network_file_system.Tries.Defs.{create_node}
use network_file_system.Naming.World.{
  World, blocked, sem_wait, sem_post, put_server, return, note, sent,
}
use network_file_system.Naming.Commands.Remove.{removed, on_removed}
use network_file_system.Lock.Defs.{LockStruct}
use network_file_system.Storage.Locks.{find_lock}
use network_file_system.Storage.Listen.{listen_to_nm, under_lock}
use network_file_system.Storage.Perform.{replied, waits, perform_action}
use network_file_system.Storage.Removed.{is_held, rm_command_lem}
use network_file_system.Files.Operations.{Host, remove_file}
use network_file_system.Naming.Cache.Defs.{initialize_cache}
use network_file_system.Naming.Valid.{IsValid}
use network_file_system.Naming.Index.Defs.{index_helper}
use network_file_system.Naming.Register.Defs.{
  find_redundant, put_index, new_server, assign_backups, add_server, enter, register_storage_server,
}
use network_file_system.Naming.Copy.Defs.{process_client, register}
use network_file_system.Naming.Async.Defs.{Sockets, listen_async}
use network_file_system.Naming.System.Reach.{
  start, registration, Reach, at_start, next, Reach-IsValid, Reach-not_blocked,
}
use network_file_system.Tests.States.{net}

abbrev sockets : Sockets
sockets = record { socket = λ e. none; inet_pton = λ ip. true; connect = λ e ip port. false }

-- The start with one server.
abbrev registered : World
registered = record start {
  storage_servers =
      set start.storage_servers 0 (new_server 5 4000 (codes "10.0.0.2") (create_node (codes ".")));
  storage_server_index = 1;
}

registered-Reach : Reach net sockets registered
unfolding register register_storage_server enter add_server assign_backups put_server put_index
    sem_wait sem_post index_helper find_redundant start initialize_cache
registered-Reach =
    next at_start (registration 5 (codes "10.0.0.2") (some 4000) (ltb→lt _ _ refl) refl)

Reach-IsValid_example : IsValid registered
Reach-IsValid_example = Reach-IsValid net sockets registered registered-Reach

Reach-not_blocked_example :
    (process_client net 7 (codes "rm ./a" ∷ codes "ls ~" ∷ []) registered ≢ blocked)
    × (listen_async net sockets 7 registered ≢ blocked)
Reach-not_blocked_example =
    Reach-not_blocked net sockets registered 7 (codes "rm ./a" ∷ codes "ls ~" ∷ []) registered-Reach

-- The file is there.
abbrev host : Host
host = record { mkdir = λ p. false; rmdir = λ p. false; fopen = λ p. false; remove = λ p. true }

rm_command_lem_example :
    (listen_to_nm (codes "./x") (codes "rm " ++ codes "./a") ≡ some (under_lock (codes "./a")))
    × (((is_held (codes "./a") [] ≡ true)
          × (perform_action host (under_lock (codes "./a")) [] ≡ waits []))
        ⊎ ((is_held (codes "./a") [] ≡ false)
            × (ls' : List LockStruct) × (perform_action host (under_lock (codes "./a")) []
                ≡ replied (remove_file host (some (codes "./a"))) ls')
            × (is_held (codes "./a") ls' ≡ false)))
    × (on_removed net 7 0
          (codes "rm")
          (codes "./a")
          (some (remove_file host (some (codes "./a"))).text)
          registered
        ≡ (if host.remove (codes "./a")
              then removed net 0 (codes "rm") (codes "./a")
              else return tt)
            (note (sent 7 (c_string (remove_file host (some (codes "./a"))).text)) registered))
unfolding find_lock
rm_command_lem_example =
    rm_command_lem host net (codes "./x") (codes "./a") [] 7 0 registered (omega arith)
      (omega arith) (omega arith) refl refl
