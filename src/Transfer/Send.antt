-- ===== src/Transfer/Send.antt =====
-- The side that sends: `send_file_over_network`, `send_directory_over_network`,
-- `copy_different_src` and `copy_different_src_b`.
use network_file_system.Prelude.{
  ℕ, zero, suc, ◌+◌, Bool, true, false, ◌&&◌, Option, none, some, List, [], ◌∷◌, ◌++◌, Bytes, codes,
  starts_with, before_last, snprintf, drop, length, ◌==◌, if◌then◌else◌,
}
use network_file_system.Naming.World.{buffer_size, max_path_size}
use network_file_system.Transfer.Text.{is_digit, scan_word, skip_spaces, after_word, decimal_long}
use network_file_system.Transfer.Source.{
  Directory, closed, opened, Items, end, file, folder, other, Source, missing, directory, regular,
  is_dot, chunks_of,
}

-- `%s/%s` into a path buffer.
unfoldable pub join : (front name : Bytes) → Bytes
join front name = snprintf max_path_size (front ++ codes "/" ++ name)

abbrev pub line_feed : Bytes
line_feed = 10 ∷ []

abbrev pub metadata_size : ℕ
metadata_size = 2098

unfoldable pub file_header : (path : Bytes) (length_to_skip : ℕ) → Bytes
file_header path length_to_skip =
    snprintf metadata_size (codes "FILE " ++ drop length_to_skip path ++ line_feed)

unfoldable pub size_line : Bytes → Bytes
unfolding decimal_long
size_line bytes = snprintf metadata_size (decimal_long (length bytes) ++ line_feed)

unfoldable pub dir_header : (path : Bytes) (length_to_skip : ℕ) → Bytes
dir_header path length_to_skip =
    snprintf max_path_size (codes "DIR " ++ drop length_to_skip path ++ line_feed)

unfoldable pub dest_header : Bytes → Bytes
dest_header dest = snprintf (max_path_size + 10) (codes "DEST " ++ dest ++ line_feed)

abbrev pub end_marker : Bytes
end_marker = codes "END" ++ line_feed

-- The words of `sscanf` with `count` times `%s`, and what is behind them.
unfoldable pub scan_words : (count : ℕ) → Bytes → Option (List Bytes × Bytes)
unfolding scan_word after_word skip_spaces
scan_words zero text = some ([], text)
scan_words (suc n) text = elim (scan_word text) [
  | none ↦ none
  | some word ↦ elim (scan_words n (after_word (skip_spaces text))) [
    | none ↦ none
    | some (words, rest) ↦ some (word ∷ words, rest)
  ]
]

-- Whether `%d` assigns a number.
unfoldable pub scans_number : Bytes → Bool
unfolding skip_spaces
scans_number text = elim (skip_spaces text) [
  | [] ↦ false
  | c ∷ [] ↦ is_digit c
  | c ∷ d ∷ cs ↦ if c == b'-' then is_digit d else if c == b'+' then is_digit d else is_digit c
]

-- The source and the destination of a command with address and port.
unfoldable pub scan_copy : Bytes → Option (Bytes × Bytes)
unfolding scan_words scans_number
scan_copy buffer = elim (scan_words 4 buffer) [
  | some (command ∷ src ∷ dest ∷ ip ∷ [], rest) ↦
      if scans_number rest then some (src, dest) else none
  | _ ↦ none
]

unfoldable pub scan_copy_b : Bytes → Option (Bytes × Bytes)
unfolding scan_words scans_number
scan_copy_b buffer = elim (starts_with buffer (codes "copydifferentb")) [
  | false ↦ none
  | true ↦ elim (scan_words 3 (drop 14 buffer)) [
    | some (src ∷ dest ∷ ip ∷ [], rest) ↦ if scans_number rest then some (src, dest) else none
    | _ ↦ none
  ]
]

-- `strlen(src) - strlen(strrchr(src, '/') + 1)`: none where there is no '/', which is read through
-- NULL.
unfoldable pub skipped : Bytes → Option ℕ
unfolding before_last
skipped src = elim (before_last b'/' src) [ some front ↦ some (length front + 1) | none ↦ none ]

-- A function on the connection, whose state is `W`: none where it waits for ever or its behaviour is
-- undefined.
abbrev pub P : Type 0 → Type 0 → Type 0
P W A = W → Option (A × W)

infixl 5 ◌>>=◌ ◌>>◌
abbrev pub ◌>>=◌ : {W A B : Type 0} → P W A → (A → P W B) → P W B
◌>>=◌ m f w = elim (m w) [ some (a, w') ↦ f a w' | none ↦ none ]

abbrev pub ◌>>◌ : {W A B : Type 0} → P W A → P W B → P W B
m >> k = m >>= λ _. k

-- A step of a loop that a `continue` leaves out.
abbrev pub unless : {W A B : Type 0} → Bool → P W A → P W B → P W B
unless true m k = k
unless false m k = m >> k

abbrev pub return : {W A : Type 0} → A → P W A
return a w = some (a, w)

abbrev pub undefined : {W A : Type 0} → P W A
undefined w = none

-- The bytes to skip for a folder and for a file, from those up to the last '/' of the source. The
-- root of a storage server is sent whole to a backup, and a file of `lcopy` with its whole path.
unfoldable pub skips_to : (dest : Bytes) (lcopy : Bool) → ℕ → ℕ × ℕ
skips_to dest lcopy n =
    let skip = if n == 2 && starts_with dest (codes "./backupfolderforss") then 0 else n in
    (skip, if lcopy then 0 else skip)

unfoldable pub skips_b : ℕ → ℕ × ℕ
skips_b n = let skip = if n == 2 then 0 else n in (skip, skip)

abbrev pub ack_failed : Bytes
ack_failed =
    snprintf buffer_size
      (codes "Failed to receive acknowledgment for destination info" ++ line_feed)

abbrev pub unsent_destination : Bytes
unsent_destination = snprintf buffer_size (codes "Failed to send destination info" ++ line_feed)

abbrev pub finished_copying : Bytes
finished_copying = snprintf buffer_size (codes "Finished Copying" ++ line_feed)

-- `send` says whether it does not fail, and `receive_ack` whether the acknowledgement came.
module _ {W : Type 0} (send : Bytes → P W Bool) (receive_ack : P W Bool) where
  -- `send(...) < 0 || receive_ack(...) < 0`, where neither is so.
  unfoldable pub confirmed : Bytes → P W Bool
  confirmed message = do sent ← send message; if sent then receive_ack else return false

  -- What follows a message, if that is confirmed.
  unfoldable pub if_confirmed : Bytes → P W (Unit {0}) → P W (Unit {0})
  unfolding confirmed
  if_confirmed message next = do good ← confirmed message; if good then next else return tt

  unfoldable pub send_chunks : List Bytes → P W (Unit {0})
  send_chunks [] = return tt
  send_chunks (c ∷ cs) = if_confirmed c (send_chunks cs)

  unfoldable pub send_file_over_network :
      (path : Bytes) (length_to_skip : ℕ) → Option Bytes → P W (Unit {0})
  unfolding if_confirmed send_chunks file_header size_line chunks_of
  send_file_over_network path length_to_skip none = return tt
  send_file_over_network path length_to_skip (some bytes) =
      if_confirmed (file_header path length_to_skip)
        (if_confirmed (size_line bytes) (send_chunks (chunks_of buffer_size bytes)))

  unfoldable mutual
    unfolding send_file_over_network if_confirmed dir_header is_dot join

    pub send_directory_over_network :
        (path : Bytes) (length_to_skip : ℕ) → Directory → P W (Unit {0})
    send_directory_over_network path length_to_skip closed = return tt
    send_directory_over_network path length_to_skip (opened items) =
        if_confirmed (dir_header path length_to_skip) (send_items path length_to_skip items)

    -- The loop over the entries.
    pub send_items : (path : Bytes) (length_to_skip : ℕ) → Items → P W (Unit {0})
    send_items path skip end = return tt
    send_items path skip (file name bytes items) =
        unless (is_dot name) (send_file_over_network (join path name) skip bytes)
          (send_items path skip items)
    send_items path skip (folder name d items) =
        unless (is_dot name) (send_directory_over_network (join path name) skip d)
          (send_items path skip items)
    send_items path skip (other name items) = send_items path skip items

  -- The files of the source, and the marker. A file has a number of its own of bytes to skip.
  unfoldable pub send_source : (src : Bytes) (skip skip_file : ℕ) → Source → P W Bytes
  unfolding send_directory_over_network send_file_over_network
  send_source src skip skip_file (directory d) = do
    send_directory_over_network src skip d
    send end_marker
    return finished_copying
  send_source src skip skip_file (regular bytes) = do
    send_file_over_network src skip_file bytes
    send end_marker
    return finished_copying
  send_source src skip skip_file s =
      return (snprintf buffer_size (codes "Unsupported file type" ++ line_feed))

  unfoldable pub send_named : (src : Bytes) (skips : ℕ → ℕ × ℕ) → Source → P W Bytes
  unfolding skipped send_source
  send_named src skips s = elim (skipped src) [
    | none ↦ undefined
    | some n ↦ let (skip, skip_file) = skips n in send_source src skip skip_file s
  ]

  -- Behind the parsing. `skips` gives the bytes to skip for a folder and for a file.
  unfoldable pub send_to_destination : (src dest : Bytes) (skips : ℕ → ℕ × ℕ) → Source → P W Bytes
  unfolding dest_header send_named
  send_to_destination src dest skips missing =
      return
        (snprintf buffer_size (codes "Source path " ++ src ++ codes " does not exist" ++ line_feed))
  send_to_destination src dest skips s = do
    greeted ← receive_ack
    if greeted
        then (do
          told ← send (dest_header dest)
          if told
              then (do
                agreed ← receive_ack
                if agreed then send_named src skips s else return ack_failed)
              else return unsent_destination)
        else return ack_failed

  -- `copy_different_src`
  unfoldable pub copy_different_src :
      (buffer : Bytes) (stat : Bytes → Source) (lcopy : Bool) → P W Bytes
  unfolding scan_copy skips_to send_to_destination
  copy_different_src buffer stat lcopy = elim (scan_copy buffer) [
    | none ↦ return (
        snprintf buffer_size (
          codes
            "Invalid input format. Expected: copydifferent/lcopy <srcpath> <destpath> <ip> <port>"
          ++ line_feed))
    | some (src, dest) ↦ send_to_destination src dest (skips_to dest lcopy) (stat src)
  ]

  -- `copy_different_src_b`
  unfoldable pub copy_different_src_b : (buffer : Bytes) (stat : Bytes → Source) → P W Bytes
  unfolding scan_copy_b skips_b send_to_destination
  copy_different_src_b buffer stat = elim (scan_copy_b buffer) [
    | none ↦ return (
        snprintf buffer_size (
          codes "Invalid input format. Expected: copydifferent <srcpath> <destpath> <ip> <port>"
          ++ line_feed))
    | some (src, dest) ↦ send_to_destination src dest skips_b (stat src)
  ]
