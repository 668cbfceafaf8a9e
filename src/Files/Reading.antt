-- ===== src/Files/Reading.antt =====
-- `read_file` and `read_mp3_file`.
use network_file_system.Prelude.{
  ℕ, ◌<◌, ◌≡◌, sym, ap, ◌∙◌, Bool, true, false, Option, none, some, arith, List, [], ◌∷◌, ◌++◌,
  Bytes, codes, snprintf, length, if◌then◌else◌,
}
use mathlib.Core.List.{append_assoc, append-nil}
use network_file_system.Naming.World.{buffer_size}
use network_file_system.Transfer.Source.{read_chunks, chunks_of}
use network_file_system.Transfer.Send.{P, ◌>>=◌, ◌>>◌, return, line_feed}
use network_file_system.Transfer.Same.{flat, flat-read_chunks}
use network_file_system.Files.Sender.{Log, accept}

abbrev pub buffer_size_for_music : ℕ
buffer_size_for_music = 8192

module _ {W : Type 0} (send : Bytes → P W Bool) where
  -- The loop over the pieces, up to the first that is not sent.
  unfoldable pub send_pieces : List Bytes → P W Bool
  send_pieces [] = return true
  send_pieces (c ∷ cs) = do sent ← send c; if sent then send_pieces cs else return false

  -- The two functions, with the size of their buffers. The bytes are none where the file does not
  -- open; the result is whether 0 is returned.
  unfoldable pub read_with : (size : ℕ) (path : Option Bytes) → (Bytes → Option Bytes) → P W Bool
  unfolding send_pieces chunks_of
  read_with size none open_ = do send (codes "Invalid Command Format"); return false
  read_with size (some path) open_ = elim (open_ path) [
    | none ↦ do
      send (snprintf size (codes "Could not open file: " ++ path ++ line_feed))
      return false
    | some bytes ↦ send_pieces (chunks_of size bytes)
  ]

  unfoldable pub read_file : (path : Option Bytes) → (Bytes → Option Bytes) → P W Bool
  unfolding read_with
  read_file = read_with buffer_size

  unfoldable pub read_mp3_file : (path : Option Bytes) → (Bytes → Option Bytes) → P W Bool
  unfolding read_with
  read_mp3_file = read_with buffer_size_for_music

send_pieces-accept : (pieces log : Log) → send_pieces accept pieces log ≡ some (true, log ++ pieces)
unfolding send_pieces
send_pieces-accept [] log = ap (λ t. some (true, t)) (sym (append-nil log))
send_pieces-accept (c ∷ cs) log =
    send_pieces-accept cs (log ++ c ∷ []) ∙ ap (λ t. some (true, t)) (append_assoc log (c ∷ []) cs)

read_with-flat :
    (size : ℕ) (path bytes : Bytes) (open_ : Bytes → Option Bytes)
    → 0 < size
    → open_ path ≡ some bytes
    → (sent : Log) × (read_with accept size (some path) open_ [] ≡ some (true, sent))
      × (flat sent ≡ bytes)
unfolding read_with chunks_of
read_with-flat size path bytes open_ positive h =
    let pieces = read_chunks size (length bytes) bytes in
    (
      pieces,
      rw (read_with, h) (send_pieces-accept pieces []),
      flat-read_chunks size (length bytes) bytes positive (omega arith),
    )

-- Where every send succeeds, `read_file` and `read_mp3_file` end for every file that opens, with 0,
-- and what they have sent, piece behind piece, is the file.
pub read_file-read_mp3_file :
    (path bytes : Bytes) (open_ : Bytes → Option Bytes)
    → open_ path ≡ some bytes
    → (sent heard : Log) × (read_file accept (some path) open_ [] ≡ some (true, sent))
      × (read_mp3_file accept (some path) open_ [] ≡ some (true, heard))
      × (flat sent ≡ bytes)
      × (flat heard ≡ bytes)
unfolding read_file read_mp3_file
read_file-read_mp3_file path bytes open_ h =
    let (sent, ends, text) = read_with-flat buffer_size path bytes open_ (omega arith) h in
    let (heard, ends', text') =
      read_with-flat buffer_size_for_music path bytes open_ (omega arith) h in
    (sent, heard, ends, ends', text, text')
