-- ===== src/Tests/Terminal.antt =====
-- The theorems on the client at concrete terminals.
use network_file_system.Prelude.{
  ltb→lt, ◌≡◌, inl, refl, arith, true, false, some, List, [], ◌∷◌, ◌++◌, Bytes, codes, decimal,
  starts_with, str_eq,
}
use network_file_system.Lock.Defs.{LockStruct}
use network_file_system.Naming.Commands.Lookup.{write_grant, server_address}
use network_file_system.Storage.Locks.{find_lock, IsFree}
use network_file_system.Storage.Write.{written, write_file}
use network_file_system.Storage.Async.{zeros, async_message, write_file_async}
use network_file_system.Storage.Async
use network_file_system.Transfer.Send.{line_feed}
use network_file_system.Transfer.Same.{flat}
use network_file_system.Transfer.Text.{atol}
use network_file_system.Client.World.{Host, World, Receipt, failed, got, next_command}
use network_file_system.Client.Listing.{list_end, list_root}
use network_file_system.Client.Write.{print_answer, write_command}
use network_file_system.Client.Loop.{other_command}
use network_file_system.Client.Shown.{shown, list_root_lem}
use network_file_system.Client.Sent.{delivered, IsConnected}
use network_file_system.Client.Written.{write_command-write_file}
use network_file_system.Client.Acknowledged.{write_command-write_file_async}
use network_file_system.Client.Reached.{announced, other_command_lem}
use network_file_system.Tests.States.{server, net}

-- A host that reaches every server, with the answer of the naming server, and a storage server that
-- sends one piece.
abbrev pub host : Receipt → Host
host answer = record {
  send_ns = λ es m. true;
  recv_ns = λ es. answer;
  list_chunks = λ es. codes "a" ∷ (codes "b" ++ list_end) ∷ [];
  socket = λ es. true;
  inet_pton = λ ip. str_eq ip (codes "10.0.0.2");
  connect = λ es ip port. true;
  send_ss = λ es m. true;
  recv_ss = λ es. failed;
  response_chunks = λ es. codes "piece" ∷ [];
  fresh = 0 ∷ [];
  popen = λ es. true;
  fwrite = λ es m. true;
  stream_failed = λ es. false;
  address = codes "10.0.0.9";
  async_port = codes "4000";
}

pub host-IsConnected : (answer : Receipt) → IsConnected (host answer) (codes "10.0.0.2")
unfolding str_eq
host-IsConnected answer = record {
  made = λ es. refl;
  address_ok = refl;
  opened = λ es port. refl;
  accepted = λ es m. refl;
}

abbrev pub typed : World
typed = record { input = codes "hello" ++ 10 ∷ []; events = [] }

IsFree-empty : IsFree (codes "./a") []
unfolding find_lock
IsFree-empty i l h at = cc

list_root_lem_example :
    (w' : World) × (list_root (host failed) typed ≡ some (next_command, w'))
    × (shown w'.events ≡ [] ++ (flat (codes "a" ∷ []) ++ codes "b"))
    × (w'.input ≡ typed.input)
list_root_lem_example =
    list_root_lem (host failed) (codes "a" ∷ []) (codes "b") [] [] typed refl refl refl
      (ltb→lt _ _ refl)

write_command-write_file_example :
    (message : Bytes) × (w' : World) × (ls' : List LockStruct) × (write_command
        (host (got (write_grant net (codes "-s") server ++ [])))
        (some (codes "./a"))
        typed
      ≡ print_answer (host (got (write_grant net (codes "-s") server ++ []))) w')
    × (delivered w'.events ≡ (some (codes "10.0.0.2", decimal 0), message) ∷ [])
    × (w'.input ≡ [])
    × (write_file (λ p. true) message []
        ≡ written
            (codes "./a")
            (codes "hello" ++ 10 ∷ [])
            (codes "Data written successfully" ++ 10 ∷ [])
            ls')
    × IsFree (codes "./a") ls'
unfolding find_lock
write_command-write_file_example =
    write_command-write_file (host (got (write_grant net (codes "-s") server ++ []))) net server
      (codes "./a") (codes "hello") [] [] typed (λ p. true) []
      (host-IsConnected (got (write_grant net (codes "-s") server ++ []))) refl refl refl
      (omega arith) refl refl (ltb→lt _ _ refl) refl IsFree-empty refl

write_command-write_file_async_example :
    (message : Bytes) × (w' : World) × (ls' : List LockStruct) × (write_command
        (host (got (write_grant net (codes "-a") server ++ [])))
        (some (codes "./a"))
        typed
      ≡ print_answer (host (got (write_grant net (codes "-a") server ++ []))) w')
    × (delivered w'.events ≡ (some (codes "10.0.0.2", decimal 0), message) ∷ [])
    × (w'.input ≡ [])
    × (write_file_async zeros (λ p. true) true message []
        ≡ Async.written
            (codes "./a")
            (codes "hello" ++ 10 ∷ [])
            (async_message (codes "./a") (codes "10.0.0.9") (codes "4000"))
            ls')
    × IsFree (codes "./a") ls'
unfolding find_lock
write_command-write_file_async_example =
    write_command-write_file_async (host (got (write_grant net (codes "-a") server ++ []))) net
      server (codes "./a") (codes "hello") [] [] typed (λ p. true) []
      (host-IsConnected (got (write_grant net (codes "-a") server ++ []))) refl refl refl
      (omega arith) refl refl refl refl (ltb→lt _ _ refl) refl IsFree-empty refl

other_command_lem_example :
    (port : Bytes) × (w' : World) × (other_command
        (host (got (server_address net server)))
        (codes "cat ./a")
        typed
      ≡ some (next_command, w'))
    × (delivered w'.events ≡ (some (codes "10.0.0.2", port), codes "cat ./a") ∷ [])
    × (atol port ≡ 0)
    × (shown w'.events
        ≡ []
          ++ (codes "Got this Other Commands from NM|"
              ++ server_address net server
              ++ codes "|"
              ++ line_feed)
          ++ announced (server_address net server)
          ++ flat (codes "piece" ∷ []))
    × (w'.input ≡ typed.input)
unfolding starts_with
other_command_lem_example =
    other_command_lem (host (got (server_address net server))) net server (codes "cat ./a")
      (server_address net server) (codes "piece" ∷ []) typed
      (host-IsConnected (got (server_address net server))) refl (ltb→lt _ _ refl) refl (inl refl)
      refl (λ es. refl) refl
