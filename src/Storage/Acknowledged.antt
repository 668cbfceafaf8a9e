-- ===== src/Storage/Acknowledged.antt =====
-- A synchronous write from its request to the naming server's backup of the file.
use network_file_system.Prelude.{
  ℕ, ◌<◌, ◌≡◌, refl, true, some, List, [], ◌∷◌, ◌++◌, Bytes, codes, starts_with, lacks, strtok,
  length, ltb, lt→ltb, and-true, ◌==◌, ◌∙◌,
}
use network_file_system.Naming.World.{Network, received, note, recv_good, ◌>>=◌, buffer_size}
use network_file_system.Naming.World as Naming_world
use network_file_system.Naming.Async.Defs.{Sockets, listen_async, back_up_path}
use network_file_system.Storage.Locks.{IsFree, has_lock_or_room}
use network_file_system.Storage.Write.{write_file, write_file_lem, written}
use network_file_system.Storage.Requests.{
  Host, World, closed, after_write, write_sync, send, send_ack_to_nm, process_client,
}
use network_file_system.Lock.Defs.{LockStruct}
use network_file_system.Client.Grant.{c_string-whole}

starts_with-append :
    (message a b : Bytes) → starts_with message (a ++ b) ≡ true → starts_with message a ≡ true
unfolding starts_with
starts_with-append message [] b h = refl
starts_with-append [] (c ∷ cs) b h = cc
starts_with-append (m ∷ ms) (c ∷ cs) b h =
    let (same, rest) = and-true (m == c) (starts_with ms (cs ++ b)) h in
    rw same (starts_with-append ms cs b rest)

process_client-request :
    (host : Host) (message : Bytes) (w : World)
    → starts_with message (codes "WRITE_SYNC|") ≡ true
    → lacks 0 message ≡ true
    → length message < buffer_size
    → process_client host (some message) w ≡ write_sync host message w
unfolding process_client
process_client-request host message w request no_nul short =
    let fits : ltb (length message) buffer_size ≡ true = lt→ltb _ _ short in
    rw (process_client, fits, c_string-whole message no_nul, request) refl

write_sync-written :
    (host : Host) (message path line answer : Bytes) (ls : List LockStruct) (w : World)
    → write_file host.opens message w.locks ≡ written path line answer ls
    → host.naming_server_reached ≡ true
    → write_sync host message w
      ≡ some (
        closed,
        record w {
          locks = ls;
          appended = w.appended ++ (path, line) ∷ [];
          sent = w.sent ++ answer ∷ [];
          acknowledged = w.acknowledged ++ message ∷ [];
        },
      )
unfolding write_sync after_write send send_ack_to_nm
write_sync-written host message path line answer ls w ran reached =
    rw (write_sync, ran, after_write, reached) refl

listen_async-request :
    (net : Network) (sockets : Sockets) (client : ℕ) (message tag path : Bytes) (words : List Bytes)
    (v : Naming_world.World)
    → starts_with message (codes "WRITE_SYNC") ≡ true
    → strtok b'|' message ≡ tag ∷ path ∷ words
    → lacks 0 message ≡ true
    → net.receive v.events client ≡ some message
    → listen_async net sockets client v ≡ back_up_path net sockets path (note (received client) v)
unfolding listen_async recv_good
listen_async-request net sockets client message tag path words v request parts no_nul heard =
    rw (listen_async, recv_good, heard, c_string-whole message no_nul, request, parts) refl

starts_with-shorter :
    (message : Bytes)
    → starts_with message (codes "WRITE_SYNC|") ≡ true
    → starts_with message (codes "WRITE_SYNC") ≡ true
starts_with-shorter message h = starts_with-append message (codes "WRITE_SYNC") (codes "|") h

-- A request "WRITE_SYNC|path|text", without NUL, fits the buffer; the path's lock is free, or it has
-- none and the table has room, the file opens and the naming server is reached.
-- Then the storage server appends the text and a line feed to the file of that path, once, answers
-- that the data is written, passes the request on to the naming server and closes the connection, and
-- the lock is free again; and `listen_async` of the naming server, when it receives this request, backs
-- the same path up.
pub process_client-write_sync :
    (host : Host) (net : Network) (sockets : Sockets) (client : ℕ) (message tag path text : Bytes)
    (words : List Bytes) (w : World) (v : Naming_world.World)
    → host.naming_server_reached ≡ true
    → starts_with message (codes "WRITE_SYNC|") ≡ true
    → strtok b'|' message ≡ tag ∷ path ∷ text ∷ words
    → lacks 0 message ≡ true
    → length message < buffer_size
    → has_lock_or_room path w.locks ≡ true
    → IsFree path w.locks
    → host.opens path ≡ true
    → net.receive v.events client ≡ some message
    → (w' : World) × (process_client host (some message) w ≡ some (closed, w'))
      × (w'.appended ≡ w.appended ++ (path, text ++ 10 ∷ []) ∷ [])
      × (w'.sent ≡ w.sent ++ (codes "Data written successfully" ++ 10 ∷ []) ∷ [])
      × (w'.acknowledged ≡ w.acknowledged ++ message ∷ [])
      × IsFree path w'.locks
      × (listen_async net sockets client v
          ≡ back_up_path net sockets path (note (received client) v))
process_client-write_sync host net sockets client message tag path text words w v reached request
      parts no_nul short room free open_ heard =
    let (ls', ran, _, free') =
      write_file_lem (host.opens) message tag path text words w.locks parts room free open_ in
    (
      record w {
        locks = ls';
        appended = w.appended ++ (path, text ++ 10 ∷ []) ∷ [];
        sent = w.sent ++ (codes "Data written successfully" ++ 10 ∷ []) ∷ [];
        acknowledged = w.acknowledged ++ message ∷ [];
      },
      process_client-request host message w request no_nul short
          ∙ write_sync-written host message path (text ++ 10 ∷ [])
              (codes "Data written successfully" ++ 10 ∷ []) ls' w ran reached,
      refl,
      refl,
      refl,
      free',
      listen_async-request net sockets client message tag path (text ∷ words) v
          (starts_with-shorter message request) parts no_nul heard,
    )
