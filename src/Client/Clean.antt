-- ===== src/Client/Clean.antt =====
-- The buffer of the client between two chunks of a listing.
use network_file_system.Prelude.{
  ℕ, zero, suc, ◌+◌, ◌<◌, ◌≤◌, ◌≡◌, refl, ap, ◌∙◌, Bool, true, false, ◌&&◌, none, some, arith, List,
  [], ◌∷◌, ◌++◌, Bytes, starts_with, c_string, lacks, lacks-append, take, take_of_length-le, drop,
  set, length, length-append, ltb, lt→ltb, ◌==◌,
}
use mathlib.Core.List.{append_assoc, append-nil}
use network_file_system.Naming.World.{buffer_size}
use network_file_system.Storage.Async.{has_nul, print_buffer}
use network_file_system.Storage.Appended.{c_string-front, has_nul-front}
use network_file_system.Client.World.{printed, World}
use network_file_system.Client.Text.{before_text}
use network_file_system.Client.Grant.{has_nul-lacks}
use network_file_system.Client.Listing.{list_end, show_chunks}

-- A text of a listing: without NUL and without the first byte of the marker.
abbrev pub is_markless : Bytes → Bool
is_markless cs = lacks 0 cs && lacks b'@' cs

-- The last byte of a buffer is NUL.
abbrev pub ends_nul : Bytes → Bool
ends_nul [] = false
ends_nul (c ∷ []) = c == 0
ends_nul (c ∷ d ∷ cs) = ends_nul (d ∷ cs)

pub has_nul-ends_nul : (cs : Bytes) → ends_nul cs ≡ true → has_nul cs ≡ true
has_nul-ends_nul [] h = cc
has_nul-ends_nul (c ∷ []) h = ground arith
has_nul-ends_nul (c ∷ d ∷ cs) h = ground (arith, has_nul-ends_nul (d ∷ cs))

pub ends_nul-cons : (c : ℕ) (cs : Bytes) → ends_nul cs ≡ true → ends_nul (c ∷ cs) ≡ true
ends_nul-cons c [] h = cc
ends_nul-cons c (d ∷ cs) h = h

pub ends_nul-append : (a b : Bytes) → ends_nul b ≡ true → ends_nul (a ++ b) ≡ true
ends_nul-append [] b h = h
ends_nul-append (c ∷ cs) b h = ends_nul-cons c (cs ++ b) (ends_nul-append cs b h)

pub ends_nul-drop :
    (n : ℕ) (cs : Bytes) → n < length cs → ends_nul cs ≡ true → ends_nul (drop n cs) ≡ true
ends_nul-drop zero cs h k = k
ends_nul-drop (suc n) [] h k = absurd (omega arith)
ends_nul-drop (suc n) (c ∷ []) h k = absurd (omega arith)
ends_nul-drop (suc n) (c ∷ d ∷ cs) h k = ends_nul-drop n (d ∷ cs) (omega arith) k

pub length-drop : (n : ℕ) (cs : Bytes) → n ≤ length cs → n + length (drop n cs) ≡ length cs
length-drop zero cs h = omega arith
length-drop (suc n) [] h = absurd (omega arith)
length-drop (suc n) (c ∷ cs) h = omega (arith, length-drop n cs (omega arith))

pub lacks-drop : (d n : ℕ) (cs : Bytes) → lacks d cs ≡ true → lacks d (drop n cs) ≡ true
lacks-drop d zero cs h = h
lacks-drop d (suc n) [] h = refl
lacks-drop d (suc n) (c ∷ cs) h = lacks-drop d n cs (ground arith)

pub lacks-c_string : (d : ℕ) (cs : Bytes) → lacks d cs ≡ true → lacks d (c_string cs) ≡ true
unfolding c_string
lacks-c_string d [] h = refl
lacks-c_string d (c ∷ cs) h = ground (arith, lacks-c_string d cs)

-- A NUL is written behind the chunk.
pub set-behind :
    (a : Bytes) (r : ℕ) (rest : Bytes) → set (a ++ r ∷ rest) (length a) 0 ≡ a ++ 0 ∷ rest
set-behind [] r rest = refl
set-behind (c ∷ cs) r rest = ap (◌∷◌ c) (set-behind cs r rest)

pub ends_nul-zero : (r : ℕ) (rest : Bytes) → ends_nul (r ∷ rest) ≡ true → ends_nul (0 ∷ rest) ≡ true
ends_nul-zero r [] h = refl
ends_nul-zero r (d ∷ rest) h = h

-- No marker is in a text without its first byte.
pub before_text-none : (text : Bytes) → lacks b'@' text ≡ true → before_text list_end text ≡ none
unfolding before_text starts_with
before_text-none [] h = refl
before_text-none (c ∷ cs) h =
    let other : (c == b'@') ≡ false = ground arith in
    rw (other, before_text-none cs (ground arith)) refl

-- The marker is found behind such a text.
pub before_text-some :
    (text rest : Bytes)
    → lacks b'@' text ≡ true
    → before_text list_end (text ++ (list_end ++ rest)) ≡ some text
unfolding before_text starts_with
before_text-some [] rest h = refl
before_text-some (c ∷ cs) rest h =
    let other : (c == b'@') ≡ false = ground arith in
    rw (other, before_text-some cs rest (ground arith)) refl

-- A buffer between two receives of the loop: of the size of the source, with a NUL at its end, and
-- without the first byte of the marker.
pub record IsClean (buffer : Bytes) : Type 0 where
  pub whole : length buffer ≡ buffer_size
  pub ended : ends_nul buffer ≡ true
  pub plain : lacks b'@' buffer ≡ true

pub drop-cons :
    (n : ℕ) (cs : Bytes) → n < length cs → (r : ℕ) × (rest : Bytes) × (drop n cs ≡ r ∷ rest)
drop-cons n [] h = absurd (omega arith)
drop-cons zero (c ∷ cs) h = (c, cs, refl)
drop-cons (suc n) (c ∷ cs) h = drop-cons n cs (omega arith)

pub lacks-zero :
    (r : ℕ) (rest : Bytes) → lacks b'@' (r ∷ rest) ≡ true → lacks b'@' (0 ∷ rest) ≡ true
lacks-zero r rest h = ground arith

pub lacks-plain :
    (cs : Bytes) → is_markless cs ≡ true → (lacks 0 cs ≡ true) × (lacks b'@' cs ≡ true)
lacks-plain cs h = (ground arith, ground arith)

-- One chunk in front of the marker, where `r ∷ rest` is what stays in the buffer behind it.
pub show_chunk_at :
    (buffer chunk rest : Bytes) (r : ℕ) (more : List Bytes) (w : World)
    → drop (length chunk) buffer ≡ r ∷ rest
    → length chunk < 1023
    → ends_nul (r ∷ rest) ≡ true
    → lacks b'@' (r ∷ rest) ≡ true
    → lacks 0 chunk ≡ true
    → lacks b'@' chunk ≡ true
    → show_chunks buffer (chunk ∷ more) w
      ≡ show_chunks (chunk ++ 0 ∷ rest) more (record w { events = printed chunk ∷ w.events })
unfolding show_chunks print_buffer c_string
show_chunk_at buffer chunk rest r more w split short tail tail_plain no_nul no_at =
    let fits : take buffer_size chunk ≡ chunk =
      take_of_length-le 1024 chunk (omega (arith, short)) in
    let nul : has_nul (chunk ++ r ∷ rest) ≡ true =
      has_nul-front chunk (r ∷ rest) (has_nul-ends_nul (r ∷ rest) tail) in
    let none_found : before_text list_end (c_string (chunk ++ r ∷ rest)) ≡ none =
      before_text-none (c_string (chunk ++ r ∷ rest)) (
        lacks-c_string b'@' (chunk ++ r ∷ rest)
          (lacks-append b'@' chunk (r ∷ rest) no_at tail_plain)) in
    let size : length (chunk ++ r ∷ rest) ≡ length chunk + suc (length rest) =
      length-append chunk (r ∷ rest) in
    let room : ltb (length chunk) (length (chunk ++ r ∷ rest)) ≡ true =
      lt→ltb (length chunk) (length (chunk ++ r ∷ rest)) (omega (arith, size)) in
    let cut : c_string (chunk ++ 0 ∷ rest) ≡ chunk =
      c_string-front chunk (0 ∷ rest) (has_nul-lacks chunk no_nul) ∙ append-nil chunk in
    rw (fits, split, nul, none_found, fits, split, room, set-behind chunk r rest, cut) refl

-- One chunk in front of the marker.
pub show_chunk :
    (buffer chunk : Bytes) (more : List Bytes) (w : World)
    → IsClean buffer
    → length chunk < 1023
    → is_markless chunk ≡ true
    → (next : Bytes) × IsClean next
      × (show_chunks buffer (chunk ∷ more) w
          ≡ show_chunks next more (record w { events = printed chunk ∷ w.events }))
show_chunk buffer chunk more w clean short plain =
    let inside : length chunk < length buffer = omega (arith, clean.whole, short) in
    let (r, rest, split) = drop-cons (length chunk) buffer inside in
    let (no_nul, no_at) = lacks-plain chunk plain in
    let tail : ends_nul (r ∷ rest) ≡ true =
      rw split at (ends_nul-drop (length chunk) buffer inside clean.ended) in
    let tail_plain : lacks b'@' (r ∷ rest) ≡ true =
      rw split at (lacks-drop b'@' (length chunk) buffer clean.plain) in
    let total : length chunk + length (drop (length chunk) buffer) ≡ 1024 =
      length-drop (length chunk) buffer (omega (arith, inside)) ∙ clean.whole in
    let total' : length chunk + suc (length rest) ≡ 1024 = rw split at total in
    (
      chunk ++ 0 ∷ rest,
      record {
        whole = length-append chunk (0 ∷ rest) ∙ total';
        ended = ends_nul-append chunk (0 ∷ rest) (ends_nul-zero r rest tail);
        plain = lacks-append b'@' chunk (0 ∷ rest) no_at (lacks-zero r rest tail_plain);
      },
      show_chunk_at buffer chunk rest r more w split short tail tail_plain no_nul no_at,
    )

-- A chunk behind which the buffer has a marker.
pub show_found :
    (buffer bytes front : Bytes) (more : List Bytes) (w : World)
    → take buffer_size bytes ≡ bytes
    → has_nul (bytes ++ drop (length bytes) buffer) ≡ true
    → before_text list_end (c_string (bytes ++ drop (length bytes) buffer)) ≡ some front
    → show_chunks buffer (bytes ∷ more) w
      ≡ some (tt, record w { events = printed front ∷ w.events })
unfolding show_chunks print_buffer
show_found buffer bytes front more w fits nul found = rw (fits, nul, found) refl

-- The chunk with the marker.
pub show_last :
    (buffer chunk behind : Bytes) (more : List Bytes) (w : World)
    → IsClean buffer
    → length chunk + 11 + length behind < 1024
    → is_markless chunk ≡ true
    → show_chunks buffer ((chunk ++ (list_end ++ behind)) ∷ more) w
      ≡ some (tt, record w { events = printed chunk ∷ w.events })
show_last buffer chunk behind more w clean short plain =
    let bytes = chunk ++ (list_end ++ behind) in
    let size : length bytes ≡ length chunk + (11 + length behind) =
      omega (arith, length-append chunk (list_end ++ behind), length-append list_end behind) in
    let stale = drop (length bytes) buffer in
    let (no_nul, no_at) = lacks-plain chunk plain in
    let fits : take buffer_size bytes ≡ bytes =
      take_of_length-le 1024 bytes (omega (arith, short, size)) in
    let tail : ends_nul stale ≡ true =
      ends_nul-drop (length bytes) buffer (omega (arith, clean.whole, short, size)) clean.ended in
    let nul : has_nul (bytes ++ stale) ≡ true =
      has_nul-front bytes stale (has_nul-ends_nul stale tail) in
    let split : bytes ++ stale ≡ (chunk ++ list_end) ++ (behind ++ stale) =
      simp append_assoc refl in
    let front_nul : has_nul (chunk ++ list_end) ≡ false =
      has_nul-lacks (chunk ++ list_end) (lacks-append 0 chunk list_end no_nul refl) in
    let text : c_string (bytes ++ stale) ≡ chunk ++ (list_end ++ c_string (behind ++ stale)) =
      ap c_string split
      ∙ c_string-front (chunk ++ list_end) (behind ++ stale) front_nul
      ∙ append_assoc chunk list_end (c_string (behind ++ stale)) in
    let found : before_text list_end (c_string (bytes ++ stale)) ≡ some chunk =
      ap (before_text list_end) text ∙ before_text-some chunk (c_string (behind ++ stale)) no_at in
    show_found buffer bytes chunk more w fits nul found
