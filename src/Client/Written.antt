-- ===== src/Client/Written.antt =====
-- A `write` from the client's terminal to the file at the storage server.
use network_file_system.Prelude.{
  ℕ, ◌+◌, ◌<◌, ◌≤◌, ◌≡◌, refl, ap, ◌∙◌, Bool, true, ◌&&◌, some, arith, List, [], ◌∷◌, ◌++◌, Bytes,
  codes, starts_with, lacks, lacks-append, is_part, strtok, decimal, length, length-append,
}
use mathlib.Core.List.{append_assoc}
use network_file_system.Lock.Defs.{LockStruct}
use network_file_system.Naming.World.{StorageServerInfo, Network, buffer_size}
use network_file_system.Naming.Commands.Lookup.{write_grant}
use network_file_system.Storage.Locks.{IsFree, has_lock_or_room}
use network_file_system.Storage.Write.{write_file, written, write_file_lem}
use network_file_system.Client.World.{got, Host, World, in_zeroed}
use network_file_system.Client.Write.{max_write, write_head, print_answer, write_command}
use network_file_system.Client.Grant.{
  grant, length-grant, lacks-grant, write_grant-sync, in_zeroed-nul, strtok-three, is_part-decimal,
}
use network_file_system.Client.Sent.{delivered, IsConnected, write_command-reply}

pub in_zeroed-grant :
    (tag extra : Bytes) (s : StorageServerInfo)
    → length s.ip ≤ 15
    → length tag ≤ 20
    → lacks 0 tag ≡ true
    → lacks 0 s.ip ≡ true
    → in_zeroed ((grant tag s ++ 0 ∷ []) ++ extra) ≡ some (grant tag s)
in_zeroed-grant tag extra s h k l m =
    ap in_zeroed (append_assoc (grant tag s) (0 ∷ []) extra)
    ∙ in_zeroed-nul (grant tag s) extra (lacks-grant tag s l m)
        (omega (arith, length-grant tag s h, k))

pub strtok-grant :
    (c : ℕ) (cs : Bytes) (s : StorageServerInfo)
    → is_part b'|' (c ∷ cs) ≡ true
    → is_part b'|' s.ip ≡ true
    → strtok b'|' (grant (c ∷ cs) s) ≡ (c ∷ cs) ∷ s.ip ∷ decimal s.port_client ∷ []
strtok-grant c cs s h k =
    strtok-three b'|' (c ∷ cs) s.ip (decimal s.port_client) h k
      (is_part-decimal b'|' s.port_client refl)

-- The host reaches the storage server `s`: `socket` succeeds, `inet_pton` reads its address, `connect`
-- reaches it on every port, and what is sent is delivered. The naming server grants a `write` with `-s` of a path to the server `s`; what it sends next may
-- arrive in the same receive. The path, the text and the address of at most 15 bytes have no '|' and
-- no NUL in them and are not empty, the text has no line feed and is the next line of the terminal,
-- and the message fits the buffer of a storage server. Then the client sends one message, to the
-- address and the port of `s`, and waits for the answer of the storage server; and `write_file` on
-- that message, where the path's lock is free, or the path has none and the table has room, and the
-- file opens, appends the text that was typed, and a line feed, to the file of that path, and leaves
-- its lock free.
pub write_command-write_file :
    (host : Host) (net : Network) (s : StorageServerInfo) (path text rest extra : Bytes) (w : World)
    (opens : Bytes → Bool) (ls : List LockStruct)
    → IsConnected host s.ip
    → host.recv_ns w.events ≡ got (write_grant net (codes "-s") s ++ extra)
    → w.input ≡ text ++ 10 ∷ rest
    → is_part b'|' s.ip && lacks 0 s.ip ≡ true
    → length s.ip ≤ 15
    → is_part b'|' path && lacks 0 path ≡ true
    → is_part b'|' text && lacks 0 text && lacks 10 text ≡ true
    → length path + length text + 12 < buffer_size
    → has_lock_or_room path ls ≡ true
    → IsFree path ls
    → opens path ≡ true
    → (message : Bytes) × (w' : World) × (ls' : List LockStruct) × (write_command host (some path) w
        ≡ print_answer host w')
      × (delivered w'.events ≡ (some (s.ip, decimal s.port_client), message) ∷ delivered w.events)
      × (w'.input ≡ rest)
      × (write_file opens message ls
          ≡ written path (text ++ 10 ∷ []) (codes "Data written successfully" ++ 10 ∷ []) ls')
      × IsFree path ls'
unfolding write_head starts_with
write_command-write_file host net s path text rest extra w opens ls works answer input ip_ok ip_size
      path_ok text_ok short room free open_ =
    let front = codes "WRITE_SYNC|" ++ path ++ codes "|" in
    let reply = grant (codes "PATH_OK_SYNC") s in
    let message = front ++ text in
    let form : message ≡ codes "WRITE_SYNC" ++ b'|' ∷ (path ++ b'|' ∷ text) =
      simp append_assoc refl in
    let reads : in_zeroed (write_grant net (codes "-s") s ++ extra) ≡ some reply =
      ap (λ t. in_zeroed (t ++ extra)) (write_grant-sync net s ip_size)
      ∙ in_zeroed-grant (codes "PATH_OK_SYNC") extra s ip_size (omega arith) refl (ground arith) in
    let no_nul : lacks 0 (codes "WRITE_SYNC" ++ b'|' ∷ (path ++ b'|' ∷ text)) ≡ true =
      lacks-append 0 path (b'|' ∷ text) (ground arith) (ground arith) in
    let size : length (codes "WRITE_SYNC" ++ b'|' ∷ (path ++ b'|' ∷ text)) < max_write =
      omega (arith, length-append path (b'|' ∷ text), short) in
    let words = strtok-grant b'P' (codes "ATH_OK_SYNC") s refl (ground arith) in
    let parts : strtok b'|' message ≡ codes "WRITE_SYNC" ∷ path ∷ text ∷ [] =
      ap (strtok b'|') form
      ∙ strtok-three b'|' (codes "WRITE_SYNC") path text refl (ground arith) (ground arith) in
    let (w', run, mail, left_) =
      write_command-reply host s.ip works reply path front text rest (decimal s.port_client)
        (codes "PATH_OK_SYNC") (write_grant net (codes "-s") s ++ extra) w answer reads refl refl
        words input (ground arith) (ap (lacks 0) form ∙ no_nul)
        (omega (arith, ap length form, size)) in
    let (ls', file, _, after) =
      write_file_lem opens message (codes "WRITE_SYNC") path text [] ls parts room free open_ in
    (message, w', ls', run, mail, left_, file, after)
