-- ===== src/Client/Acknowledged.antt =====
-- An asynchronous `write` from the client's terminal to the file, and to the naming server.
use network_file_system.Prelude.{
  ◌+◌, ◌<◌, ◌≤◌, ◌≡◌, refl, ap, ◌∙◌, Bool, true, ◌&&◌, some, arith, List, [], ◌∷◌, ◌++◌, Bytes,
  codes, starts_with, lacks, lacks-append, is_part, strtok, strtok-part, strtok-last, decimal,
  length, length-append,
}
use mathlib.Core.List.{append_assoc}
use network_file_system.Lock.Defs.{LockStruct}
use network_file_system.Naming.World.{StorageServerInfo, Network, buffer_size}
use network_file_system.Naming.Commands.Lookup.{write_grant}
use network_file_system.Storage.Locks.{IsFree, has_lock_or_room}
use network_file_system.Storage.Async.{zeros, written, async_message, write_file_async}
use network_file_system.Storage.Appended.{write_file_async_lem}
use network_file_system.Client.World.{got, Host, World, in_zeroed}
use network_file_system.Client.Write.{write_head, print_answer, write_command}
use network_file_system.Client.Grant.{grant, has_nul-lacks, write_grant-async}
use network_file_system.Client.Sent.{delivered, IsConnected, write_command-reply}
use network_file_system.Client.Written.{in_zeroed-grant, strtok-grant}

-- The message in its parts.
abbrev message_of : (path address port text : Bytes) → Bytes
message_of path address port text =
    codes "WRITE_ASYNC" ++ b'|' ∷ (path ++ b'|' ∷ (address ++ b'|' ∷ (port ++ b'|' ∷ text)))

strtok-message_of :
    (path address port text : Bytes)
    → is_part b'|' path ≡ true
    → is_part b'|' address ≡ true
    → is_part b'|' port ≡ true
    → is_part b'|' text ≡ true
    → strtok b'|' (message_of path address port text)
      ≡ codes "WRITE_ASYNC" ∷ path ∷ address ∷ port ∷ text ∷ []
strtok-message_of path address port text h k l m =
    strtok-part b'|' (codes "WRITE_ASYNC")
      (path ++ b'|' ∷ (address ++ b'|' ∷ (port ++ b'|' ∷ text))) refl
    ∙ ap (◌∷◌ (codes "WRITE_ASYNC")) (
        strtok-part b'|' path (address ++ b'|' ∷ (port ++ b'|' ∷ text)) h
        ∙ ap (◌∷◌ path) (
            strtok-part b'|' address (port ++ b'|' ∷ text) k
            ∙ ap (◌∷◌ address)
                (strtok-part b'|' port text l ∙ ap (◌∷◌ port) (strtok-last b'|' text m))))

length-message_of :
    (path address port text : Bytes)
    → length (message_of path address port text)
      ≡ length path + length address + length port + length text + 15
length-message_of path address port text = omega (
  arith,
  length-append path (b'|' ∷ (address ++ b'|' ∷ (port ++ b'|' ∷ text))),
  length-append address (b'|' ∷ (port ++ b'|' ∷ text)),
  length-append port (b'|' ∷ text),
)

lacks-message_of :
    (path address port text : Bytes)
    → lacks 0 path ≡ true
    → lacks 0 address ≡ true
    → lacks 0 port ≡ true
    → lacks 0 text ≡ true
    → lacks 0 (message_of path address port text) ≡ true
lacks-message_of path address port text h k l m =
    lacks-append 0 path (b'|' ∷ (address ++ b'|' ∷ (port ++ b'|' ∷ text))) h (
      lacks-append 0 address (b'|' ∷ (port ++ b'|' ∷ text)) k
        (lacks-append 0 port (b'|' ∷ text) l m))

-- The host reaches the storage server `s`: `socket` succeeds, `inet_pton` reads its address, `connect`
-- reaches it on every port, and what is sent is delivered. The naming server grants a `write` with `-a` of a path to the server `s`; what it sends next may
-- arrive in the same receive. The path, the text, the client's address and port, and the address of
-- `s`, of at most 15 bytes, have no '|' and no NUL in them and are not empty, the text has no line
-- feed and is the next line of the terminal, and the message fits the buffer of a storage server. Then
-- the client sends one message, to the address and the port of `s`, and waits for its answer; and
-- `write_file_async` on that message, where the path's lock is free, or the path has none and the
-- table has room, the file opens, the local buffer happens to be zero and the naming server is
-- reached, appends the text that was typed, and a line feed, to the file of that path, tells the
-- naming server the path and the address and port at which the client waits, and leaves the path's
-- lock free.
pub write_command-write_file_async :
    (host : Host) (net : Network) (s : StorageServerInfo) (path text rest extra : Bytes) (w : World)
    (opens : Bytes → Bool) (ls : List LockStruct)
    → IsConnected host s.ip
    → host.recv_ns w.events ≡ got (write_grant net (codes "-a") s ++ extra)
    → w.input ≡ text ++ 10 ∷ rest
    → is_part b'|' s.ip && lacks 0 s.ip ≡ true
    → length s.ip ≤ 15
    → is_part b'|' path && lacks 0 path ≡ true
    → is_part b'|' host.address && lacks 0 host.address ≡ true
    → is_part b'|' host.async_port && lacks 0 host.async_port ≡ true
    → is_part b'|' text && lacks 0 text && lacks 10 text ≡ true
    → length path + length host.address + length host.async_port + length text + 15 < buffer_size
    → has_lock_or_room path ls ≡ true
    → IsFree path ls
    → opens path ≡ true
    → (message : Bytes) × (w' : World) × (ls' : List LockStruct) × (write_command host (some path) w
        ≡ print_answer host w')
      × (delivered w'.events ≡ (some (s.ip, decimal s.port_client), message) ∷ delivered w.events)
      × (w'.input ≡ rest)
      × (write_file_async zeros opens true message ls
          ≡ written path (text ++ 10 ∷ []) (async_message path host.address host.async_port) ls')
      × IsFree path ls'
unfolding write_head starts_with
write_command-write_file_async host net s path text rest extra w opens ls works answer input ip_ok
      ip_size path_ok address_ok port_ok text_ok short room free open_ =
    let address = host.address in
    let port = host.async_port in
    let front =
      codes "WRITE_ASYNC|" ++ path ++ codes "|" ++ address ++ codes "|" ++ port ++ codes "|" in
    let reply = grant (codes "PATH_OK_ASYNC") s in
    let message = front ++ text in
    let form : message ≡ message_of path address port text = simp append_assoc refl in
    let reads : in_zeroed (write_grant net (codes "-a") s ++ extra) ≡ some reply =
      ap (λ t. in_zeroed (t ++ extra)) (write_grant-async net s ip_size)
      ∙ in_zeroed-grant (codes "PATH_OK_ASYNC") extra s ip_size (omega arith) refl (ground arith) in
    let no_nul : lacks 0 (message_of path address port text) ≡ true =
      lacks-message_of path address port text (ground arith) (ground arith) (ground arith)
        (ground arith) in
    let words = strtok-grant b'P' (codes "ATH_OK_ASYNC") s refl (ground arith) in
    let parts : strtok b'|' message ≡ codes "WRITE_ASYNC" ∷ path ∷ address ∷ port ∷ text ∷ [] =
      ap (strtok b'|') form
      ∙ strtok-message_of path address port text (ground arith) (ground arith) (ground arith)
          (ground arith) in
    let (w', run, mail, left_) =
      write_command-reply host s.ip works reply path front text rest (decimal s.port_client)
        (codes "PATH_OK_ASYNC") (write_grant net (codes "-a") s ++ extra) w answer reads refl refl
        words input (ground arith) (ap (lacks 0) form ∙ no_nul)
        (omega (arith, ap length form, length-message_of path address port text, short)) in
    let (ls', file, _, after) =
      write_file_async_lem opens message (codes "WRITE_ASYNC") path address port text [] ls parts
        room free open_ (has_nul-lacks text (ground arith)) in
    (message, w', ls', run, mail, left_, file, after)
