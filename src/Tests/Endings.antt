-- ===== src/Tests/Endings.antt =====
-- The theorems on the ends of writes, and on the files of a storage server, at concrete inputs.
use network_file_system.Prelude.{
  ◌≡◌, refl, true, false, some, List, [], ◌∷◌, ◌++◌, Bytes, codes, strtok, c_string, drop,
  replicate, ltb→lt,
}
use network_file_system.Lock.Defs.{LockStruct}
use network_file_system.Naming.World.{Network, received, note, ◌>>◌}
use network_file_system.Naming.Async.Defs.{Sockets, listen_async, back_up_path, send_client_ack}
use network_file_system.Naming.Async.Messages.{listen_async-async_message}
use network_file_system.Storage.Locks.{find_lock, IsFree, has_lock_or_room}
use network_file_system.Storage.Async.{zeros, written, async_message, write_file_async}
use network_file_system.Storage.Appended.{write_file_async_lem, write_file_async-garbage}
use network_file_system.Transfer.Same.{flat}
use network_file_system.Files.Operations.{Host}
use network_file_system.Files.Sender.{Log, accept}
use network_file_system.Files.Listing.{
  Entry, list_file, listing, all_short, fit_buffer, list_file-listing,
}
use network_file_system.Tests.States.{world, net}

abbrev command : Bytes
command = codes "WRITE_ASYNC|./a|10.0.0.9|4000|hello"

unlocked : IsFree (codes "./a") []
unfolding find_lock
unlocked i l h at = cc

write_file_async_lem_example :
    (ls' : List LockStruct) × (write_file_async zeros (λ p. true) true command []
      ≡ written
          (codes "./a")
          (codes "hello" ++ 10 ∷ [])
          (async_message (codes "./a") (codes "10.0.0.9") (codes "4000"))
          ls')
    × (has_lock_or_room (codes "./a") ls' ≡ true)
    × IsFree (codes "./a") ls'
unfolding strtok find_lock
write_file_async_lem_example =
    write_file_async_lem (λ p. true) command (codes "WRITE_ASYNC") (codes "./a") (codes "10.0.0.9")
      (codes "4000") (codes "hello") [] [] refl refl unlocked refl refl

-- A buffer of 'x' with a NUL at its end.
abbrev dirty : Bytes
dirty = replicate 32 b'x' ++ 0 ∷ []

write_file_async-garbage_example :
    (ls' : List LockStruct) × (write_file_async dirty (λ p. true) true command []
      ≡ written
          (codes "./a")
          (codes "hello" ++ c_string (drop 5 dirty) ++ 10 ∷ [])
          (async_message (codes "./a") (codes "10.0.0.9") (codes "4000"))
          ls')
    × (has_lock_or_room (codes "./a") ls' ≡ true)
    × IsFree (codes "./a") ls'
unfolding strtok find_lock
write_file_async-garbage_example =
    write_file_async-garbage dirty (λ p. true) command (codes "WRITE_ASYNC") (codes "./a")
      (codes "10.0.0.9") (codes "4000") (codes "hello") [] [] refl refl unlocked refl refl refl
      (ltb→lt _ _ refl) refl

-- A network on which a storage server reports an asynchronous write.
abbrev reporting : Network
reporting = record net {
  receive = λ e s. some (async_message (codes "./a") (codes "10.0.0.9") (codes "4000"));
}

abbrev reachable : Sockets
reachable = record { socket = λ e. some 9; inet_pton = λ i. true; connect = λ e i p. true }

listen_async-async_message_example :
    listen_async reporting reachable 3 world
    ≡ (back_up_path reporting reachable (codes "./a")
          >> send_client_ack reporting reachable
              (codes "./a")
              (codes "10.0.0.9")
              (codes "4000" ++ 10 ∷ []))
        (note (received 3) world)
listen_async-async_message_example =
    listen_async-async_message reporting reachable 3 (codes "./a") (codes "10.0.0.9") (codes "4000")
      world refl (ltb→lt _ _ refl) refl

abbrev host : Host
host = record { mkdir = λ p. false; rmdir = λ p. true; fopen = λ p. true; remove = λ p. true }

abbrev folder_entries : List Entry
folder_entries =
    record { is_directory = true; name = codes "sub" }
    ∷ record { is_directory = false; name = codes "a" }
    ∷ []

list_file-listing_example :
    (sent : Log) × (list_file accept (some (codes "./x")) (λ p. some folder_entries) []
      ≡ some (true, sent))
    × (flat sent ≡ listing folder_entries)
    × (all_short sent ≡ true)
unfolding fit_buffer
list_file-listing_example =
    list_file-listing (codes "./x") (λ p. some folder_entries) folder_entries refl refl
