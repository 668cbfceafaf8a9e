-- ===== src/Transfer/Confirm.antt =====
-- One message of a copy, and its acknowledgement.
use network_file_system.Prelude.{
  ℕ, zero, suc, ◌+◌, ◌≤◌, ◌≡◌, refl, ap, Bool, true, false, not, ◌&&◌, Option, some, Option-cases,
  inl, inr, arith, List, [], ◌∷◌, ◌++◌, Bytes, starts_with, c_string, take, take_of_length-le, drop,
  length, length-append, leb, ◌==◌,
}
use network_file_system.Naming.World.{buffer_size}
use network_file_system.Transfer.Text.{is_space, word_of, skip_spaces, scan_word}
use network_file_system.Transfer.Send.{file_header, dir_header, confirmed, ◌>>=◌}
use network_file_system.Transfer.Receive.{
  Made, made_directory, Disk, for_command, for_size, for_content, Peer, asked, piece, full_path,
  make_directory, on_command, on_receive, deliver, send_to_peer, ack_from_peer,
}

-- Files that refuse nothing, and bytes of a file that arrive in any pieces.
abbrev pub willing : (Peer → ℕ) → Disk
willing ready = record { makes = λ p. true; opens = λ p. true; writes = λ p. true; ready = ready }

abbrev pub solid : Bytes → Bool
solid [] = true
solid (c ∷ cs) = not (is_space c) && not (c == 0) && solid cs

-- A name that fits a message: not empty, and without blanks and NULs.
abbrev pub is_sendable : Bytes → Bool
is_sendable [] = false
is_sendable (c ∷ cs) = solid (c ∷ cs) && leb (length (c ∷ cs) + 7) buffer_size

pub drop_of_length-le : (n : ℕ) (xs : Bytes) → length xs ≤ n → drop n xs ≡ []
drop_of_length-le zero [] h = refl
drop_of_length-le zero (x ∷ xs) h = absurd (omega arith)
drop_of_length-le (suc n) [] h = refl
drop_of_length-le (suc n) (x ∷ xs) h = drop_of_length-le n xs (omega arith)

pub c_string-solid :
    (cs rest : Bytes) → solid cs ≡ true → c_string (cs ++ rest) ≡ cs ++ c_string rest
unfolding c_string
c_string-solid [] rest h = refl
c_string-solid (c ∷ cs) rest h = ground (arith, c_string-solid cs rest)

word_of-solid : (cs : Bytes) → solid cs ≡ true → word_of (cs ++ 10 ∷ []) ≡ cs
unfolding word_of
word_of-solid [] h = refl
word_of-solid (c ∷ cs) h =
    let other : is_space c ≡ false = ground arith in
    rw other (ap (◌∷◌ c) (word_of-solid cs (ground arith)))

scan_word-sendable : (cs : Bytes) → is_sendable cs ≡ true → scan_word (cs ++ 10 ∷ []) ≡ some cs
unfolding scan_word skip_spaces
scan_word-sendable [] h = cc
scan_word-sendable (c ∷ cs) h =
    let other : is_space c ≡ false = ground arith in
    let word : word_of ((c ∷ cs) ++ 10 ∷ []) ≡ c ∷ cs = word_of-solid (c ∷ cs) (ground arith) in
    rw (scan_word, skip_spaces, other, word) refl

pub sendable_text :
    (cs : Bytes)
    → is_sendable cs ≡ true
    → (length cs + 7 ≤ buffer_size)
      × (c_string (cs ++ 10 ∷ []) ≡ cs ++ 10 ∷ [])
      × (scan_word (cs ++ 10 ∷ []) ≡ some cs)
unfolding c_string
sendable_text [] h = cc
sendable_text (c ∷ cs) h =
    (ground arith, c_string-solid (c ∷ cs) (10 ∷ []) (ground arith), scan_word-sendable (c ∷ cs) h)

-- The receiving side at the head of its loop, or inside of a file.
abbrev pub at_command : (base : Bytes) → List Made → Peer
at_command base made = record { waiting = for_command base; acks = 0; made = made }

abbrev pub at_size : (base path : Bytes) → List Made → Peer
at_size base path made = record { waiting = for_size base path; acks = 0; made = made }

abbrev pub at_content : (base path : Bytes) (file_size : ℕ) (content : Bytes) → List Made → Peer
at_content base path file_size content made = record {
  waiting = for_content base path file_size content [];
  acks = 0;
  made = made;
}

module _ (disk : Disk) (backup : Bool) where
  -- A message that one `recv` takes whole.
  pub deliver_whole :
      (c : ℕ) (cs : Bytes) (p : Peer) (r : Option Peer)
      → length (c ∷ cs) ≤ piece p.waiting (disk.ready p) (asked p.waiting)
      → on_receive disk backup p.waiting (c ∷ cs) p ≡ r
      → deliver disk backup (length (c ∷ cs)) (c ∷ cs) p ≡ r
  unfolding deliver
  deliver_whole c cs p r h e =
      let size = piece p.waiting (disk.ready p) (asked p.waiting) in
      let whole = take_of_length-le size (c ∷ cs) h in
      let nothing = drop_of_length-le size (c ∷ cs) h in
      elim (Option-cases r) [
        | inl z ↦ rw (deliver, whole, e, z) refl
        | inr (p', z) ↦ rw (deliver, whole, e, z, nothing) (rest (length cs) p')
      ]
    where
      rest : (n : ℕ) (p' : Peer) → deliver disk backup n [] p' ≡ some p'
      rest zero p' = refl
      rest (suc n) p' = refl

  -- A message that is answered with one acknowledgement.
  pub confirmed_lem :
      (c : ℕ) (cs : Bytes) (p p' : Peer)
      → length (c ∷ cs) ≤ piece p.waiting (disk.ready p) (asked p.waiting)
      → on_receive disk backup p.waiting (c ∷ cs) p ≡ some p'
      → p'.acks ≡ 1
      → confirmed (send_to_peer disk backup) (ack_from_peer disk backup) (c ∷ cs) p
        ≡ some (true, record p' { acks = 0 })
  unfolding confirmed send_to_peer ack_from_peer
  confirmed_lem c cs p p' h e one =
      let arrives = deliver_whole c cs p (some p') h e in
      rw (confirmed, ◌>>=◌, send_to_peer, arrives, ack_from_peer, one) refl

  pub confirmed-file_header :
      (base path : Bytes) (skip : ℕ) (made : List Made)
      → is_sendable (drop skip path) ≡ true
      → confirmed
          (send_to_peer disk backup)
          (ack_from_peer disk backup)
          (file_header path skip)
          (at_command base made)
        ≡ some (true, at_size base (full_path backup base (drop skip path)) made)
  unfolding file_header on_receive on_command asked starts_with c_string
  confirmed-file_header base path skip made h =
      let name = drop skip path in
      let (short, seen, word) = sendable_text name h in
      let whole : take 2092 (name ++ 10 ∷ []) ≡ name ++ 10 ∷ [] =
        take_of_length-le 2092 (name ++ 10 ∷ []) (omega (arith, length-append name (10 ∷ []))) in
      rw whole (
        confirmed_lem 70 (73 ∷ 76 ∷ 69 ∷ 32 ∷ (name ++ 10 ∷ [])) (at_command base made)
          (record (at_size base (full_path backup base name) made) { acks = 1 })
          (omega (arith, length-append name (10 ∷ [])))
          (rw (on_receive, seen, on_command, word) refl) refl)

module _ (ready : Peer → ℕ) (backup : Bool) where
  pub confirmed-dir_header :
      (base path : Bytes) (skip : ℕ) (made : List Made)
      → is_sendable (drop skip path) ≡ true
      → confirmed
          (send_to_peer (willing ready) backup)
          (ack_from_peer (willing ready) backup)
          (dir_header path skip)
          (at_command base made)
        ≡ some (
          true,
          at_command base (made ++ made_directory (full_path backup base (drop skip path)) ∷ []),
        )
  unfolding dir_header on_receive on_command make_directory asked starts_with c_string
  confirmed-dir_header base path skip made h =
      let name = drop skip path in
      let (short, seen, word) = sendable_text name h in
      let whole : take 2043 (name ++ 10 ∷ []) ≡ name ++ 10 ∷ [] =
        take_of_length-le 2043 (name ++ 10 ∷ []) (omega (arith, length-append name (10 ∷ []))) in
      rw whole (
        confirmed_lem (willing ready) backup 68 (73 ∷ 82 ∷ 32 ∷ (name ++ 10 ∷ []))
          (at_command base made)
          (record (at_command base (made ++ made_directory (full_path backup base name) ∷ [])) {
            acks = 1;
          })
          (omega (arith, length-append name (10 ∷ [])))
          (rw (on_receive, seen, on_command, word) refl) refl)
