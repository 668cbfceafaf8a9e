-- ===== src/Tests/Served.antt =====
-- The theorems on the requests at a storage server at concrete requests.
use network_file_system.Prelude.{
  ltb→lt, ◌≡◌, inl, refl, arith, true, false, none, some, [], ◌∷◌, ◌++◌, Bytes, codes, c_string,
  starts_with, strtok,
}
use network_file_system.Lock.Defs.{init_lock, acquire_read_lock, release_read_lock}
use network_file_system.Naming.World.{note, received, Event}
use network_file_system.Naming.World as Naming_world
use network_file_system.Naming.Commands.Lookup.{server_address}
use network_file_system.Naming.Async.Defs.{listen_async, back_up_path, Sockets}
use network_file_system.Storage.Locks.{find_lock, request_lock, IsFree}
use network_file_system.Storage.Requests.{
  Host, World, closed, process_client, parse_and_serve, serve, cat, read_locked, send,
}
use network_file_system.Storage.Served.{IsServing, process_client-ls}
use network_file_system.Storage.Acknowledged.{process_client-write_sync}
use network_file_system.Files.Listing.{listing, fit_buffer, coloured_line}
use network_file_system.Files.Reading.{read_file, read_with, send_pieces}
use network_file_system.Transfer.Source.{read_chunks, chunks_of}
use network_file_system.Transfer.Same.{flat}
use network_file_system.Transfer.Send.{line_feed}
use network_file_system.Transfer.Text.{atol}
use network_file_system.Client.World.{next_command, got}
use network_file_system.Client.World as Terminal_world
use network_file_system.Client.Loop.{other_command}
use network_file_system.Client.Shown.{shown}
use network_file_system.Client.Sent.{delivered}
use network_file_system.Client.Fetched.{cat_command_lem}
use network_file_system.Tests.States.{server, net, world}
use network_file_system.Client.Reached.{announced}
use network_file_system.Tests.Terminal.{host, host-IsConnected, typed}

-- A storage server with one file and one folder.
abbrev serving : Host
serving = record {
  opens = λ p. true;
  opendir = λ p. some (record { is_directory = true; name = codes "b" } ∷ []);
  contents = λ p. some (codes "piece");
  stat = λ p. none;
  sends = λ log m. true;
  naming_server_reached = true;
  uninitialised = none;
  freed = λ m. [];
}

serving-IsServing : IsServing serving
serving-IsServing = record { delivers = λ log m. refl }

abbrev fresh : World
fresh = record { locks = []; appended = []; sent = []; acknowledged = []; started = [] }

IsFree-none : IsFree (codes "./a") []
unfolding find_lock
IsFree-none i l h at = cc

process_client-ls_example :
    (w' : World) × (process_client serving (some (codes "ls ./a")) fresh ≡ some (closed, w'))
    × (flat w'.sent ≡ listing (record { is_directory = true; name = codes "b" } ∷ []))
    × (w'.locks ≡ [])
unfolding fit_buffer coloured_line
process_client-ls_example =
    process_client-ls serving serving-IsServing (codes "./a")
      (record { is_directory = true; name = codes "b" } ∷ []) fresh (omega arith) refl refl
      (ltb→lt _ _ refl) refl refl refl

abbrev request : Bytes
request = codes "WRITE_SYNC|./a|hello"

-- A network on which this request arrives.
abbrev asking : Naming_world.Network
asking = record net { receive = λ e s. some request }

abbrev unreached : Sockets
unreached = record { socket = λ e. none; inet_pton = λ ip. true; connect = λ e ip port. false }

process_client-write_sync_example :
    (w' : World) × (process_client serving (some request) fresh ≡ some (closed, w'))
    × (w'.appended ≡ [] ++ (codes "./a", codes "hello" ++ 10 ∷ []) ∷ [])
    × (w'.sent ≡ [] ++ (codes "Data written successfully" ++ 10 ∷ []) ∷ [])
    × (w'.acknowledged ≡ [] ++ request ∷ [])
    × IsFree (codes "./a") w'.locks
    × (listen_async asking unreached 7 world
        ≡ back_up_path asking unreached (codes "./a") (note (received 7) world))
unfolding starts_with strtok find_lock
process_client-write_sync_example =
    process_client-write_sync serving asking unreached 7 request (codes "WRITE_SYNC") (codes "./a")
      (codes "hello") [] fresh world refl refl refl refl (ltb→lt _ _ refl) refl IsFree-none refl
      refl

abbrev read : World
read = record fresh {
  locks =
      record { readers = 0; is_writing = false; is_deleting = false; path_to_file = codes "./a" }
      ∷ [];
  sent = codes "piece" ∷ [];
}

cat_command_lem_example :
    (port : Bytes) × (w' : Terminal_world.World) × (other_command
        (host (got (server_address net server)))
        (codes "cat " ++ codes "./a")
        typed
      ≡ some (next_command, w'))
    × (delivered w'.events ≡ (some (codes "10.0.0.2", port), codes "cat " ++ codes "./a") ∷ [])
    × (atol port ≡ 0)
    × (shown w'.events
        ≡ []
          ++ (codes "Got this Other Commands from NM|"
              ++ server_address net server
              ++ codes "|"
              ++ line_feed)
          ++ announced (server_address net server)
          ++ codes "piece")
    × IsFree (codes "./a") read.locks
unfolding process_client parse_and_serve serve cat read_locked read_file read_with send_pieces
    chunks_of read_chunks send acquire_read_lock release_read_lock request_lock find_lock init_lock
    strtok starts_with c_string
cat_command_lem_example =
    cat_command_lem (host (got (server_address net server))) net server (codes "./a")
      (server_address net server) (codes "piece") (codes "piece" ∷ []) typed serving closed fresh
      read (host-IsConnected (got (server_address net server))) refl (ltb→lt _ _ refl) (inl refl)
      refl serving-IsServing (omega arith) refl refl (ltb→lt _ _ refl) refl refl IsFree-none refl
      refl (λ es. refl) refl refl
