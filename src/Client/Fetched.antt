-- ===== src/Client/Fetched.antt =====
-- A file at a storage server, as the client prints it.
use network_file_system.Prelude.{
  ◌+◌, ◌^◌, ◌<◌, ◌≤◌, ◌≡◌, ◌⊎◌, refl, sym, ap, ◌∙◌, true, none, some, Option, List, [], ◌∷◌, ◌++◌,
  Bytes, codes, lacks, is_part, length, starts_with,
}
use network_file_system.Naming.World.{StorageServerInfo, Network, buffer_size}
use network_file_system.Naming.Commands.Lookup.{server_address}
use network_file_system.Storage.Locks.{IsFree, has_lock_or_room}
use network_file_system.Storage.Requests.{RequestEnd, process_client}
use network_file_system.Storage.Requests
use network_file_system.Storage.Served.{IsServing, process_client-cat}
use network_file_system.Transfer.Same.{flat}
use network_file_system.Transfer.Send.{line_feed}
use network_file_system.Transfer.Text.{atol}
use network_file_system.Client.World.{Event, got, Host, World, next_command}
use network_file_system.Client.Text.{before_text}
use network_file_system.Client.Loop.{other_command}
use network_file_system.Client.Shown.{shown}
use network_file_system.Client.Sent.{delivered, IsConnected}
use network_file_system.Client.Address.{is_reachable, backup_reply}
use network_file_system.Client.Reached.{all_printable, announced, other_command_lem}

-- Two results of one request are the same.
same_sent :
    (o : Option (RequestEnd × Requests.World)) (e e' : RequestEnd) (a b : Requests.World)
    → o ≡ some (e, a)
    → o ≡ some (e', b)
    → a ≡ b
same_sent o e e' a b h k = cc

-- The host reaches the storage server `s`: `socket` succeeds, `inet_pton` reads its address,
-- `connect` reaches it on every port, and what is sent is delivered. The naming server answers a `cat`
-- with the address of `s`, or with `s` as the backup of another server, in a folder whose name has at
-- most 900 bytes, no NUL and no "not found" in it; the address has 1 to 15 digits and dots, and the
-- port fewer than 11 digits. The path has no blank and no NUL in it, is not empty and fits the buffer
-- with the command. The storage server handles the request on a new connection on which every send
-- succeeds, where the path's lock is free, or it has none and the table has room, where `strtok` finds
-- at most one word in the memory of this command, which is freed then, and where the file opens. What
-- the storage server sends arrives in any pieces of at most 1023 bytes without NUL. Then the client
-- sends the command to the address of `s` and to a port that is read as the port of `s`, prints the
-- reply, behind that of the server itself one fixed line, and then the bytes of the file, and goes on
-- with the next command, and the lock is free again.
pub cat_command_lem :
    (host : Host) (net : Network) (s : StorageServerInfo) (path reply bytes : Bytes)
    (pieces : List Bytes) (w : World) (at_server : Requests.Host) (e : RequestEnd)
    (v v' : Requests.World)
    → IsConnected host s.ip
    → is_reachable s ≡ true
    → s.port_client < 10 ^ 10
    → ((reply ≡ server_address net s)
        ⊎ ((folder : Bytes) × (reply ≡ backup_reply s folder)
            × (length folder ≤ 900)
            × (lacks 0 folder ≡ true)
            × (before_text (codes "not found") folder ≡ none)))
    → host.recv_ns w.events ≡ got reply
    → IsServing at_server
    → length (at_server.freed (codes "cat " ++ path)) ≤ 1
    → is_part b' ' path ≡ true
    → lacks 0 path ≡ true
    → length path + 4 < buffer_size
    → v.sent ≡ []
    → has_lock_or_room path v.locks ≡ true
    → IsFree path v.locks
    → at_server.contents path ≡ some bytes
    → process_client at_server (some (codes "cat " ++ path)) v ≡ some (e, v')
    → ((es : List Event) → host.response_chunks es ≡ pieces)
    → flat pieces ≡ flat v'.sent
    → all_printable pieces ≡ true
    → (port : Bytes) × (w' : World) × (other_command host (codes "cat " ++ path) w
        ≡ some (next_command, w'))
      × (delivered w'.events ≡ (some (s.ip, port), codes "cat " ++ path) ∷ delivered w.events)
      × (atol port ≡ s.port_client)
      × (shown w'.events
          ≡ shown w.events
            ++ (codes "Got this Other Commands from NM|" ++ reply ++ codes "|" ++ line_feed)
            ++ announced reply
            ++ bytes)
      × IsFree path v'.locks
unfolding starts_with
cat_command_lem host net s path reply bytes pieces w at_server e v v' works ok_ small told answer
      serving freed part no_nul short fresh room free opened handled answers arrived printable =
    let (u, ran, text, _, free') =
      process_client-cat at_server serving path bytes v freed part no_nul short fresh room free
        opened in
    let same : u ≡ v' = same_sent _ _ _ u v' ran handled in
    let all : flat pieces ≡ bytes =
      arrived ∙ ap (λ (x : Requests.World). flat x.sent) (sym same) ∙ text in
    let (port, w', run, mail, number, shown_, _) =
      other_command_lem host net s (codes "cat " ++ path) reply pieces w works ok_ small refl told
        answer answers printable in
    let before =
      shown w.events
      ++ (codes "Got this Other Commands from NM|" ++ reply ++ codes "|" ++ line_feed)
      ++ announced reply in
    (port, w', run, mail, number, shown_ ∙ ap (λ t. before ++ t) all, rw same at free')
