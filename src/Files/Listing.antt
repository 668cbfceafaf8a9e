-- ===== src/Files/Listing.antt =====
-- `list_file`.
use network_file_system.Prelude.{
  ◌-◌, ◌<◌, ◌≡◌, refl, sym, ap, ◌∙◌, Bool, true, false, ◌&&◌, Option, none, some, Bool-cases, inl,
  inr, arith, List, [], ◌∷◌, ◌++◌, Bytes, codes, snprintf, length, length-append, ltb,
  if◌then◌else◌,
}
use mathlib.Core.List.{append_assoc, append-nil}
use network_file_system.Naming.World.{buffer_size}
use network_file_system.Transfer.Send.{P, ◌>>=◌, ◌>>◌, return, undefined, line_feed}
use network_file_system.Transfer.Same.{flat}
use network_file_system.Files.Sender.{Log, accept}

-- `d_type` and `d_name` of an entry.
pub record Entry : Type 0 where
  pub is_directory : Bool
  pub name : Bytes

abbrev pub escape : Bytes → Bytes
escape code_ = 27 ∷ code_

-- The name in its colour.
unfoldable pub coloured_line : Entry → Bytes
coloured_line e =
    escape (if e.is_directory then codes "[34m" else codes "[0m")
    ++ e.name
    ++ escape (codes "[0m")
    ++ line_feed

module _ {W : Type 0} (send : Bytes → P W Bool) where
  -- What is left in the buffer behind the loop.
  unfoldable pub send_rest : Bytes → P W Bool
  send_rest [] = return true
  send_rest (c ∷ cs) = send (c ∷ cs)

  -- The loop, with the bytes in front of `offset`. The result is whether 0 is returned. A line that
  -- does not fit an empty buffer moves `offset` behind its end.
  unfoldable pub list_entries : (buffer : Bytes) → List Entry → P W Bool
  unfolding coloured_line send_rest
  list_entries buffer [] = send_rest buffer
  list_entries buffer (e ∷ es) =
      if ltb (length (coloured_line e)) (buffer_size - length buffer)
      then list_entries (buffer ++ coloured_line e) es
      else (do
        sent ← send buffer
        if sent
            then if ltb (length (coloured_line e)) buffer_size
              then list_entries (coloured_line e) es
              else undefined
            else return false)

  -- The folder is none where it does not open.
  unfoldable pub list_file : (path : Option Bytes) → (Bytes → Option (List Entry)) → P W Bool
  unfolding list_entries
  list_file none opendir = do send (codes "Invalid Command Format"); return false
  list_file (some path) opendir = elim (opendir path) [
    | none ↦ do
      send (snprintf buffer_size (codes "Could not list folder @ " ++ path ++ line_feed))
      return false
    | some entries ↦ list_entries [] entries
  ]

unfoldable pub listing : List Entry → Bytes
unfolding coloured_line
listing [] = []
listing (e ∷ es) = coloured_line e ++ listing es

-- The lines fit the buffer, as those of all names of up to 255 bytes do.
unfoldable pub fit_buffer : List Entry → Bool
unfolding coloured_line
fit_buffer [] = true
fit_buffer (e ∷ es) = ltb (length (coloured_line e)) buffer_size && fit_buffer es

abbrev pub all_short : Log → Bool
all_short [] = true
all_short (m ∷ ms) = ltb (length m) buffer_size && all_short ms

-- The messages of the loop from a buffer on.
Listed : (buffer : Bytes) → List Entry → Log → Type 0
Listed buffer es log =
    (sent : Log) × (list_entries accept buffer es log ≡ some (true, log ++ sent))
    × (flat sent ≡ buffer ++ listing es)
    × (all_short sent ≡ true)

list_entries-Listed :
    (buffer : Bytes) (es : List Entry) (log : Log)
    → length buffer < buffer_size
    → fit_buffer es ≡ true
    → Listed buffer es log
unfolding list_entries send_rest Listed listing fit_buffer
list_entries-Listed [] [] log h k =
    ([], ap (λ t. some (true, t)) (sym (append-nil log)), refl, refl)
list_entries-Listed (c ∷ cs) [] log h k = ((c ∷ cs) ∷ [], refl, refl, ground arith)
list_entries-Listed buffer (e ∷ es) log h k =
    elim (Bool-cases (ltb (length (coloured_line e)) (buffer_size - length buffer))) [
      | inl room ↦
          let longer = length-append buffer (coloured_line e) in
          let (sent, listed, text, short) =
            list_entries-Listed (buffer ++ coloured_line e) es log (ground (arith, longer))
              (ground arith) in
          (
            sent,
            rw (list_entries, room) listed,
            text ∙ append_assoc buffer (coloured_line e) (listing es),
            short,
          )
      | inr full ↦
          let fits : ltb (length (coloured_line e)) buffer_size ≡ true = ground arith in
          let (sent, listed, text, short) =
            list_entries-Listed (coloured_line e) es (log ++ buffer ∷ []) (ground arith)
              (ground arith) in
          (
            buffer ∷ sent,
            rw (list_entries, full, ◌>>=◌, fits)
                (listed ∙ ap (λ t. some (true, t)) (append_assoc log (buffer ∷ []) sent)),
            ap (◌++◌ buffer) text,
            ground arith,
          )
    ]

-- Where every line fits the buffer and every send succeeds, the messages of `list_file` for a folder
-- that opens, one behind the other, are the lines of its entries, in their order, and no message
-- is longer than the buffer has room for.
pub list_file-listing :
    (path : Bytes) (opendir : Bytes → Option (List Entry)) (entries : List Entry)
    → opendir path ≡ some entries
    → fit_buffer entries ≡ true
    → (sent : Log) × (list_file accept (some path) opendir [] ≡ some (true, sent))
      × (flat sent ≡ listing entries)
      × (all_short sent ≡ true)
unfolding list_file Listed
list_file-listing path opendir entries h k =
    let (sent, listed, text, short) = list_entries-Listed [] entries [] (omega arith) k in
    (sent, rw (list_file, h) listed, text, short)
