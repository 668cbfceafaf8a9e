-- ===== src/Transfer/Same.antt =====
-- A copy within a storage server against one to another storage server.
use network_file_system.Prelude.{
  ℕ, zero, suc, ◌+◌, ◌<◌, ◌≤◌, ◌≡◌, refl, sym, ap, ◌∙◌, Bool, true, false, not, ◌&&◌, ◌||◌, Option,
  none, some, Bool-cases, inl, inr, arith, List, [], ◌∷◌, ◌++◌, Bytes, codes, drop, take,
  take_of_length-le, starts_with, length, length-append, ltb, if◌then◌else◌,
}
use mathlib.Core.List.{append_assoc}
use network_file_system.Naming.World.{max_path_size}
use network_file_system.Transfer.Source.{
  Directory, closed, opened, Items, end, file, folder, other, is_dot, read_chunks, chunks_of,
}
use network_file_system.Transfer.Send.{join}
use network_file_system.Transfer.Receive.{Made, made_directory, wrote, Peer, full_path}
use network_file_system.Transfer.Confirm.{willing}
use network_file_system.Transfer.Pieces.{take-drop, length-drop}
use network_file_system.Transfer.Saved.{saved_file, saved_directory, saved_items}
use network_file_system.Transfer.Local.{
  copy_buffer_size, write_chunks, copy_file, copy_directory, copy_items,
}

-- The pieces of a file, one behind the other.
abbrev pub flat : List Bytes → Bytes
flat [] = []
flat (c ∷ cs) = c ++ flat cs

-- The pieces that a file is read in give the file, whatever the size of the buffer is, and nothing
-- is left when the bound on their number is used up.
pub flat-read_chunks :
    (size left : ℕ) (bytes : Bytes)
    → 0 < size
    → length bytes ≤ left
    → flat (read_chunks size left bytes) ≡ bytes
unfolding read_chunks
flat-read_chunks size left [] h k = refl
flat-read_chunks size zero (c ∷ cs) h k = absurd (omega arith)
flat-read_chunks zero (suc n) (c ∷ cs) h k = absurd (omega arith)
flat-read_chunks (suc s) (suc n) (c ∷ cs) h k =
    rw (flat-read_chunks (suc s) n (drop s cs) h (omega (arith, length-drop s cs)))
      (ap (◌∷◌ c) (take-drop s cs))

-- Whether the folders open and no path is cut, where those so far have at most `room` bytes.
unfoldable mutual
  unfolding is_dot

  pub readable_directory : (room : ℕ) → Directory → Bool
  readable_directory room closed = false
  readable_directory room (opened items) = readable_items room items

  pub readable_items : (room : ℕ) → Items → Bool
  readable_items room end = true
  readable_items room (file name bytes items) =
      (is_dot name || ltb (room + 1 + length name) max_path_size) && readable_items room items
  readable_items room (folder name d items) =
      (is_dot name
        || ltb (room + 1 + length name) max_path_size
          && readable_directory (room + 1 + length name) d)
      && readable_items room items
  readable_items room (other name items) = readable_items room items

pub join_lem :
    (front name : Bytes)
    → length front + 1 + length name < max_path_size
    → join front name ≡ front ++ b'/' ∷ name
unfolding join
join_lem front name h =
    let whole : length (front ++ b'/' ∷ name) ≤ 2047 =
      omega (arith, length-append front (b'/' ∷ name)) in
    ap (take 2047) (append_assoc front (b'/' ∷ []) name)
    ∙ take_of_length-le 2047 (front ++ b'/' ∷ name) whole

join-append :
    (front rel name : Bytes)
    → length front + length rel + 1 + length name < max_path_size
    → join (front ++ rel) name ≡ front ++ (rel ++ b'/' ∷ name)
join-append front rel name h =
    join_lem (front ++ rel) name (omega (arith, length-append front rel))
    ∙ append_assoc front rel (b'/' ∷ name)

-- A name below the source whose first component is not ".".
abbrev pub is_plain : Bytes → Bool
is_plain rel = not (starts_with (rel ++ b'/' ∷ []) (codes "./"))

is_plain-append : (rel name : Bytes) → is_plain rel ≡ true → is_plain (rel ++ b'/' ∷ name) ≡ true
unfolding starts_with
is_plain-append [] name h = refl
is_plain-append (a ∷ []) name h = ground arith
is_plain-append (a ∷ b ∷ rel) name h = ground arith

pub drop-append : (front rel : Bytes) → drop (length front) (front ++ rel) ≡ rel
drop-append [] rel = refl
drop-append (x ∷ front) rel = drop-append front rel

starts_with-plain : (rel : Bytes) → is_plain rel ≡ true → starts_with rel (codes "./") ≡ false
unfolding starts_with
starts_with-plain [] h = refl
starts_with-plain (a ∷ []) h = ground arith
starts_with-plain (a ∷ b ∷ rel) h = ground arith

full_path-plain :
    (front rel base : Bytes)
    → is_plain rel ≡ true
    → length base + 1 + length rel < max_path_size
    → full_path false base (drop (length front) (front ++ rel)) ≡ base ++ b'/' ∷ rel
unfolding full_path
full_path-plain front rel base h k =
    rw (drop-append front rel, starts_with-plain rel h) (join_lem base rel k)

same_entry :
    (dot : Bool) (us vs us' vs' : List Made)
    → (dot ≡ false → us ≡ vs)
    → us' ≡ vs'
    → (if dot then [] else us) ++ us' ≡ (if dot then [] else vs) ++ vs'
same_entry true us vs us' vs' h e = e
same_entry false us vs us' vs' h e = ap (λ t. t ++ us') (h refl) ∙ ap (◌++◌ vs) e

module _ (ready : Peer → ℕ) (exists : Bytes → Bool) where
  write_chunks-willing :
      (dest : Bytes) (pieces : List Bytes)
      → write_chunks (willing ready) exists dest pieces ≡ flat pieces
  unfolding write_chunks
  write_chunks-willing dest [] = refl
  write_chunks-willing dest (c ∷ cs) = ap (◌++◌ c) (write_chunks-willing dest cs)

  copy_file-willing :
      (bytes dest : Bytes)
      → copy_file (willing ready) exists (some bytes) dest ≡ wrote dest bytes ∷ []
  unfolding copy_file chunks_of
  copy_file-willing bytes dest =
      ap (λ t. wrote dest t ∷ [])
        (write_chunks-willing dest (read_chunks copy_buffer_size (length bytes) bytes)
          ∙ flat-read_chunks copy_buffer_size (length bytes) bytes (omega arith) (omega arith))

  copy_directory-willing :
      (items : Items) (dest : Bytes)
      → copy_directory (willing ready) exists (opened items) dest
        ≡ made_directory dest ∷ copy_items (willing ready) exists items dest
  unfolding copy_directory
  copy_directory-willing items dest = elim (Bool-cases (exists dest)) [
    | inl there ↦ rw (copy_directory, there) refl
    | inr new ↦ rw (copy_directory, new) refl
  ]

  pub same_file :
      (front rel base : Bytes) (bytes : Option Bytes)
      → is_plain rel ≡ true
      → length base + 1 + length rel < max_path_size
      → saved_file false base (length front) (front ++ rel) bytes
        ≡ copy_file (willing ready) exists bytes (base ++ b'/' ∷ rel)
  unfolding saved_file copy_file
  same_file front rel base none plain h = refl
  same_file front rel base (some bytes) plain h =
      ap (λ t. wrote t bytes ∷ []) (full_path-plain front rel base plain h)
      ∙ sym (copy_file-willing bytes (base ++ b'/' ∷ rel))

  mutual
    unfolding readable_directory saved_directory copy_directory

    pub same_directory :
        (front rel base : Bytes) (room : ℕ) (d : Directory)
        → length front + length rel ≤ room
        → length base + 1 + length rel ≤ room
        → room < max_path_size
        → is_plain rel ≡ true
        → readable_directory room d ≡ true
        → saved_directory false base (length front) (front ++ rel) d
          ≡ copy_directory (willing ready) exists d (base ++ b'/' ∷ rel)
    same_directory front rel base room closed one two three plain h = cc
    same_directory front rel base room (opened items) one two three plain h =
        ap (λ t. made_directory t ∷ saved_items false base (length front) (front ++ rel) items)
          (full_path-plain front rel base plain (omega (arith, two, three)))
        ∙ ap (◌∷◌ (made_directory (base ++ b'/' ∷ rel)))
            (same_items front rel base room items one two plain h)
        ∙ sym (copy_directory-willing items (base ++ b'/' ∷ rel))

    same_items :
        (front rel base : Bytes) (room : ℕ) (items : Items)
        → length front + length rel ≤ room
        → length base + 1 + length rel ≤ room
        → is_plain rel ≡ true
        → readable_items room items ≡ true
        → saved_items false base (length front) (front ++ rel) items
          ≡ copy_items (willing ready) exists items (base ++ b'/' ∷ rel)
    same_items front rel base room end one two plain h = refl
    same_items front rel base room (other name items) one two plain h =
        same_items front rel base room items one two plain h
    same_items front rel base room (file name bytes items) one two plain h =
        let longer = length-append rel (b'/' ∷ name) in
        same_entry (is_dot name)
          (saved_file false base (length front) (join (front ++ rel) name) bytes)
          (copy_file (willing ready) exists bytes (join (base ++ b'/' ∷ rel) name))
          (saved_items false base (length front) (front ++ rel) items)
          (copy_items (willing ready) exists items (base ++ b'/' ∷ rel))
          (λ shown.
            let short : room + 1 + length name < max_path_size = ground arith in
            ap (λ t. saved_file false base (length front) t bytes)
              (join-append front rel name (omega (arith, short)))
            ∙ same_file front (rel ++ b'/' ∷ name) base bytes (is_plain-append rel name plain)
                (omega (arith, longer, short))
            ∙ ap (λ t. copy_file (willing ready) exists bytes t)
                (sym (join-append base (b'/' ∷ rel) name (omega (arith, short)))))
          (same_items front rel base room items one two plain (ground arith))
    same_items front rel base room (folder name d items) one two plain h =
        let longer = length-append rel (b'/' ∷ name) in
        same_entry (is_dot name)
          (saved_directory false base (length front) (join (front ++ rel) name) d)
          (copy_directory (willing ready) exists d (join (base ++ b'/' ∷ rel) name))
          (saved_items false base (length front) (front ++ rel) items)
          (copy_items (willing ready) exists items (base ++ b'/' ∷ rel))
          (λ shown.
            let short : room + 1 + length name < max_path_size = ground arith in
            ap (λ t. saved_directory false base (length front) t d)
              (join-append front rel name (omega (arith, short)))
            ∙ same_directory front (rel ++ b'/' ∷ name) base (room + 1 + length name) d
                (omega (arith, longer)) (omega (arith, longer)) short
                (is_plain-append rel name plain) (ground arith)
            ∙ ap (λ t. copy_directory (willing ready) exists d t)
                (sym (join-append base (b'/' ∷ rel) name (omega (arith, short)))))
          (same_items front rel base room items one two plain (ground arith))
