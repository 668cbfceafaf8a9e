-- ===== src/Storage/Served.antt =====
-- What the requests of clients do.
use network_file_system.Prelude.{
  ℕ, ◌+◌, ◌-◌, ◌<◌, ◌≤◌, ◌≡◌, refl, ap, ◌∙◌, Bool, true, false, Option, none, some, Bool-cases, inl,
  inr, arith, List, [], ◌∷◌, ◌++◌, Bytes, codes, starts_with, lacks, is_part, strtok, strtok-part,
  strtok-last, get_elem?, set, length, ltb, lt→ltb,
}
use network_file_system.Lock.Defs.{LockStruct, acquire_read_lock, release_read_lock}
use network_file_system.Naming.World.{buffer_size}
use network_file_system.Storage.Locks.{
  find_lock, find_lock-set, get_elem?-set, request_lock_lem, IsFree, has_lock_or_room,
}
use network_file_system.Storage.Write.{IsFree-at}
use network_file_system.Transfer.Same.{flat}
use network_file_system.Transfer.Source.{chunks_of}
use network_file_system.Transfer.Send.{◌>>=◌, ◌>>◌, return}
use network_file_system.Files.Sender.{Log, accept}
use network_file_system.Files.Listing.{
  Entry, coloured_line, list_entries, send_rest, list_file, listing, fit_buffer, list_file-listing,
}
use network_file_system.Files.Reading.{send_pieces, read_with, read_file, read_file-read_mp3_file}
use network_file_system.Storage.Requests.{
  Host, World, closed, M, parse_into, put_locks, deref, send, read_locked, cat, serve,
  parse_and_serve, process_client,
}
use network_file_system.Client.Grant.{c_string-whole}

-- Every send on the connection succeeds.
pub record IsServing (host : Host) : Type 0 where
  pub delivers : (log : Log) (m : Bytes) → host.sends log m ≡ true

-- What a function does on this connection, if it does this on one that only collects.
abbrev lift : World → Option (Bool × Log) → Option (Bool × World)
lift w none = none
lift w (some (b, log)) = some (b, record w { sent = log })

module _ (host : Host) (works : IsServing host) where
  send_lem :
      (text : Bytes) (w : World)
      → send host text w ≡ some (true, record w { sent = w.sent ++ text ∷ [] })
  unfolding send
  send_lem text w = rw (works.delivers w.sent text) refl

  send_pieces-lift :
      (pieces : List Bytes) (w : World)
      → send_pieces (send host) pieces w ≡ lift w (send_pieces accept pieces w.sent)
  unfolding send_pieces
  send_pieces-lift [] w = refl
  send_pieces-lift (c ∷ cs) w =
      rw (send_pieces, ◌>>=◌, send_lem c w)
        (send_pieces-lift cs (record w { sent = w.sent ++ c ∷ [] }))

  read_file-lift :
      (path bytes : Bytes) (open_ : Bytes → Option Bytes) (w : World)
      → open_ path ≡ some bytes
      → read_file (send host) (some path) open_ w
        ≡ lift w (read_file accept (some path) open_ w.sent)
  unfolding read_file read_with
  read_file-lift path bytes open_ w h =
      rw (read_with, h) (send_pieces-lift (chunks_of buffer_size bytes) w)

  send_rest-lift :
      (buffer : Bytes) (w : World)
      → send_rest (send host) buffer w ≡ lift w (send_rest accept buffer w.sent)
  unfolding send_rest
  send_rest-lift [] w = refl
  send_rest-lift (c ∷ cs) w = send_lem (c ∷ cs) w

  list_entries-lift :
      (buffer : Bytes) (es : List Entry) (w : World)
      → list_entries (send host) buffer es w ≡ lift w (list_entries accept buffer es w.sent)
  unfolding list_entries
  list_entries-lift buffer [] w = send_rest-lift buffer w
  list_entries-lift buffer (e ∷ es) w =
      elim (Bool-cases (ltb (length (coloured_line e)) (buffer_size - length buffer))) [
        | inl fits ↦ rw (list_entries, fits) (list_entries-lift (buffer ++ coloured_line e) es w)
        | inr full ↦ elim (Bool-cases (ltb (length (coloured_line e)) buffer_size)) [
          | inl fits ↦
              rw (list_entries, full, ◌>>=◌, send_lem buffer w, fits)
                (list_entries-lift (coloured_line e) es (record w { sent = w.sent ++ buffer ∷ [] }))
          | inr long ↦ rw (list_entries, full, ◌>>=◌, send_lem buffer w, long) refl
        ]
      ]

  list_file-lift :
      (path : Bytes) (entries : List Entry) (opendir : Bytes → Option (List Entry)) (w : World)
      → opendir path ≡ some entries
      → list_file (send host) (some path) opendir w
        ≡ lift w (list_file accept (some path) opendir w.sent)
  unfolding list_file
  list_file-lift path entries opendir w h = rw (list_file, h) (list_entries-lift [] entries w)

acquire_read_lock-unheld :
    (l : LockStruct)
    → l.is_writing ≡ false
    → l.is_deleting ≡ false
    → acquire_read_lock l ≡ some (record l { readers = l.readers + 1 })
unfolding acquire_read_lock
acquire_read_lock-unheld l wr de = rw (acquire_read_lock, wr, de) refl

then-some :
    {A B : Type 0} (m : M A) (k : M B) (w w' : World) (a : A)
    → m w ≡ some (a, w')
    → (m >> k) w ≡ k w'
then-some m k w w' a h = rw (◌>>◌, ◌>>=◌, h) refl

parse_into-short :
    (old : Option Bytes) (words : List Bytes) (w : World)
    → length words ≤ 1
    → parse_into old words w ≡ some (old, w)
parse_into-short old [] w h = refl
parse_into-short old (a ∷ []) w h = refl
parse_into-short old (a ∷ b ∷ words) w h = absurd (omega arith)

module _ (host : Host) (works : IsServing host) where
  parse_and_serve-words :
      (buffer command path : Bytes) (w : World)
      → length (host.freed buffer) ≤ 1
      → strtok b' ' buffer ≡ command ∷ path ∷ []
      → parse_and_serve host buffer w ≡ serve host buffer path w
  unfolding parse_and_serve
  parse_and_serve-words buffer command path w freed words =
      let again = parse_into-short (some path) (host.freed buffer) w freed in
      rw (parse_and_serve, words, ◌>>=◌, ◌>>◌, parse_into, deref, again) refl

  -- A request of two words that is none of those that write or ping.
  process_client-words :
      (buffer command path : Bytes) (w : World)
      → length (host.freed buffer) ≤ 1
      → strtok b' ' buffer ≡ command ∷ path ∷ []
      → length buffer < buffer_size
      → lacks 0 buffer ≡ true
      → starts_with buffer (codes "WRITE_SYNC|") ≡ false
      → starts_with buffer (codes "ping") ≡ false
      → starts_with buffer (codes "WRITE_ASYNC|") ≡ false
      → process_client host (some buffer) w ≡ serve host buffer path w
  unfolding process_client
  process_client-words buffer command path w freed words short no_nul h k l =
      let room : ltb (length buffer) buffer_size ≡ true = lt→ltb _ _ short in
      rw (process_client, room, c_string-whole buffer no_nul, h, k, l)
        (parse_and_serve-words buffer command path w freed words)

  -- A file whose lock is not taken.
  read_locked-unheld :
      (path : Bytes) (sent : Log) (i : ℕ) (ls : List LockStruct) (l : LockStruct) (w : World)
      → get_elem? ls i ≡ some l
      → l.is_writing ≡ false
      → l.is_deleting ≡ false
      → ((v : World)
          → v.sent ≡ []
          → read_file (send host) (some path) (host.contents) v
            ≡ some (true, record v { sent = sent }))
      → w.sent ≡ []
      → read_locked host path (i, ls) w
        ≡ some (
          closed,
          record w { locks = set ls i (record l { readers = l.readers + 1 - 1 }); sent = sent },
        )
  unfolding read_locked release_read_lock
  read_locked-unheld path sent i ls l w at wr de reads fresh =
      let v : World = record w { locks = set ls i (record l { readers = l.readers + 1 }) } in
      rw (read_locked, at, acquire_read_lock-unheld l wr de)
        (then-some (read_file (send host) (some path) (host.contents))
          (do
            put_locks (set ls i (release_read_lock (record l { readers = l.readers + 1 })).0)
            return closed)
          v (record v { sent = sent }) true (reads v fresh))

  read_locked_lem :
      (path bytes : Bytes) (w : World)
      → w.sent ≡ []
      → has_lock_or_room path w.locks ≡ true
      → IsFree path w.locks
      → host.contents path ≡ some bytes
      → (w' : World) × (cat host path w ≡ some (closed, w'))
        × (flat w'.sent ≡ bytes)
        × (has_lock_or_room path w'.locks ≡ true)
        × IsFree path w'.locks
  unfolding cat
  read_locked_lem path bytes w fresh room free h =
      let (i, locks, l, asked, found, at, (wr, de, re)) = request_lock_lem path w.locks room free in
      let after : LockStruct = record l { readers = l.readers + 1 - 1 } in
      let found' : find_lock path (set locks i after) ≡ some i =
        find_lock-set path locks i l after at refl ∙ found in
      let (sent, heard, ran, _, text, _) = read_file-read_mp3_file path bytes (host.contents) h in
      (
        record w { locks = set locks i after; sent = sent },
        rw (cat, asked)
            (read_locked-unheld path sent i locks l w at wr de
              (λ v e.
                read_file-lift host works path bytes (host.contents) v h
                ∙ ap (λ t. lift v (read_file accept (some path) (host.contents) t)) e
                ∙ ap (lift v) ran)
              fresh),
        text,
        rw (has_lock_or_room, found') refl,
        IsFree-at path (set locks i after) i after found' (get_elem?-set locks i l after at)
            (wr, de, omega (arith, re)),
      )

  -- On a new connection whose sends succeed, where `strtok` finds at most one word in the memory of the
  -- command, which is freed then: `cat`
  -- of a path without blank or NUL, which fits the buffer with it, whose lock is free, or that has none
  -- and the table has room, and whose file opens, sends the bytes of the file, closes the connection,
  -- and leaves the lock free.
  pub process_client-cat :
      (path bytes : Bytes) (w : World)
      → length (host.freed (codes "cat " ++ path)) ≤ 1
      → is_part b' ' path ≡ true
      → lacks 0 path ≡ true
      → length path + 4 < buffer_size
      → w.sent ≡ []
      → has_lock_or_room path w.locks ≡ true
      → IsFree path w.locks
      → host.contents path ≡ some bytes
      → (w' : World) × (process_client host (some (codes "cat " ++ path)) w ≡ some (closed, w'))
        × (flat w'.sent ≡ bytes)
        × (has_lock_or_room path w'.locks ≡ true)
        × IsFree path w'.locks
  unfolding serve starts_with
  process_client-cat path bytes w freed part no_nul short fresh room free h =
      let words : strtok b' ' (codes "cat " ++ path) ≡ codes "cat" ∷ path ∷ [] =
        strtok-part b' ' (codes "cat") path refl
        ∙ ap (◌∷◌ (codes "cat")) (strtok-last b' ' path part) in
      let (w', run, text, room', free') = read_locked_lem path bytes w fresh room free h in
      (
        w',
        process_client-words (codes "cat " ++ path) (codes "cat") path w freed words (omega arith)
              no_nul refl refl refl
            ∙ run,
        text,
        room',
        free',
      )

  -- A storage server handles an `ls` of a path on a new connection on which nothing was sent and every
  -- send succeeds. The path has no blank and no NUL in it, is not empty, and fits the buffer with the
  -- command; in the memory of the command, which is freed and then read again, `strtok` finds at most
  -- one word; the folder opens, and each line of its listing fits the buffer. Then what is sent is the
  -- listing, the lines of the entries in their order, the connection is closed, and no lock changes.
  pub process_client-ls :
      (path : Bytes) (entries : List Entry) (w : World)
      → length (host.freed (codes "ls " ++ path)) ≤ 1
      → is_part b' ' path ≡ true
      → lacks 0 path ≡ true
      → length path + 3 < buffer_size
      → w.sent ≡ []
      → host.opendir path ≡ some entries
      → fit_buffer entries ≡ true
      → (w' : World) × (process_client host (some (codes "ls " ++ path)) w ≡ some (closed, w'))
        × (flat w'.sent ≡ listing entries)
        × (w'.locks ≡ w.locks)
  unfolding serve starts_with
  process_client-ls path entries w freed part no_nul short fresh h fits =
      let words : strtok b' ' (codes "ls " ++ path) ≡ codes "ls" ∷ path ∷ [] =
        strtok-part b' ' (codes "ls") path refl
        ∙ ap (◌∷◌ (codes "ls")) (strtok-last b' ' path part) in
      let (sent, listed, text, _) = list_file-listing path (host.opendir) entries h fits in
      let sends : list_file (send host) (some path) (host.opendir) w
          ≡ some (true, record w { sent = sent }) =
        list_file-lift host works path entries (host.opendir) w h
        ∙ ap (λ t. lift w (list_file accept (some path) (host.opendir) t)) fresh
        ∙ ap (lift w) listed in
      (
        record w { sent = sent },
        process_client-words (codes "ls " ++ path) (codes "ls") path w freed words (omega arith)
              no_nul refl refl refl
            ∙ rw (serve, ◌>>◌, ◌>>=◌, sends) refl,
        text,
        refl,
      )
