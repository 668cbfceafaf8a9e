-- ===== src/Transfer/Content.antt =====
-- A file of a copy: its size, and its bytes in pieces.
use network_file_system.Prelude.{
  ℕ, zero, suc, ◌+◌, ◌%◌, ◌/◌, ◌^◌, ◌<◌, ◌≤◌, ◌≡◌, refl, sym, ap, ◌∙◌, Bool, true, false, some,
  Bool-cases, inl, inr, arith, List, [], ◌∷◌, ◌++◌, Bytes, c_string, decimal_from, take,
  take_of_length-le, drop, length, length-append, ltb, if◌then◌else◌,
}
use mathlib.Core.List.{append_assoc, append-nil}
use network_file_system.Naming.World.{buffer_size}
use network_file_system.Transfer.Text.{atol, decimal_long, atol-decimal_long}
use network_file_system.Transfer.Source.{read_chunks, chunks_of}
use network_file_system.Transfer.Send.{
  file_header, size_line, confirmed, if_confirmed, send_chunks, send_file_over_network, ◌>>=◌, P,
}
use network_file_system.Transfer.Receive.{
  Made, wrote, Peer, chunk_size, asked, full_path, content_loop, on_size, on_receive, send_to_peer,
  ack_from_peer,
}
use network_file_system.Transfer.Confirm.{
  willing, solid, is_sendable, c_string-solid, at_command, at_size, at_content, confirmed_lem,
  confirmed-file_header,
}
use network_file_system.Transfer.Arriving.{confirmed-content}
use network_file_system.Transfer.Pieces.{chunk_size_lem, length-drop, length-take, take-drop}

pub length-decimal_from : (f n : ℕ) → length (decimal_from f n) ≤ f
unfolding decimal_from
length-decimal_from zero n = omega arith
length-decimal_from (suc f) n = elim (Bool-cases (ltb n 10)) [
  | inl small ↦ rw (decimal_from, small) (omega arith)
  | inr large ↦
      rw (decimal_from, large)
        (omega (
          arith,
          length-append (decimal_from f (n / 10)) ((b'0' + n % 10) ∷ []),
          length-decimal_from f (n / 10),
        ))
]

solid-append : (xs ys : Bytes) → solid xs ≡ true → solid ys ≡ true → solid (xs ++ ys) ≡ true
solid-append [] ys h k = k
solid-append (x ∷ xs) ys h k = ground (arith, solid-append xs ys)

pub solid-decimal_from : (f n : ℕ) → solid (decimal_from f n) ≡ true
unfolding decimal_from
solid-decimal_from zero n = refl
solid-decimal_from (suc f) n =
    let digit : solid ((b'0' + n % 10) ∷ []) ≡ true = ground arith in
    elim (Bool-cases (ltb n 10)) [
      | inl small ↦ rw (decimal_from, small) digit
      | inr large ↦
          rw (decimal_from, large)
            (solid-append (decimal_from f (n / 10)) ((b'0' + n % 10) ∷ [])
              (solid-decimal_from f (n / 10)) digit)
    ]

append-cons : (xs : Bytes) → (c : ℕ) × (cs : Bytes) × (xs ++ 10 ∷ [] ≡ c ∷ cs)
append-cons [] = (10, [], refl)
append-cons (x ∷ xs) = (x, xs ++ 10 ∷ [], refl)

-- The line of a size, as it arrives.
pub size_line_lem :
    (bytes : Bytes)
    → length bytes < 10 ^ 19
    → (c : ℕ) × (cs : Bytes) × (size_line bytes ≡ c ∷ cs)
      × (length (c ∷ cs) ≤ 20)
      × (atol (c_string (c ∷ cs)) ≡ length bytes)
unfolding size_line decimal_long c_string
size_line_lem bytes h =
    let n = length bytes in
    let digits = decimal_long n in
    let few : length digits ≤ 19 = length-decimal_from 19 n in
    let total = length-append digits (10 ∷ []) in
    let (c, cs, e) = append-cons digits in
    let whole : take 2097 (digits ++ 10 ∷ []) ≡ digits ++ 10 ∷ [] =
      take_of_length-le 2097 (digits ++ 10 ∷ []) (omega (arith, few, total)) in
    let seen : c_string (digits ++ 10 ∷ []) ≡ digits ++ 10 ∷ [] =
      c_string-solid digits (10 ∷ []) (solid-decimal_from 19 n) in
    (
      c,
      cs,
      whole ∙ e,
      omega (arith, few, total, ap (length {A = ℕ}) e),
      ap (λ t. atol (c_string t)) (sym e) ∙ ap atol seen ∙ atol-decimal_long n h,
    )

module _ (ready : Peer → ℕ) (backup : Bool) where
  -- What is next when `content` is in the file.
  abbrev after_content : (base path : Bytes) (file_size : ℕ) (content : Bytes) → List Made → Peer
  after_content base path file_size content made =
      if ltb (length content) file_size
      then at_content base path file_size content made
      else at_command base (made ++ wrote path content ∷ [])

  confirmed-size_line :
      (base path bytes : Bytes) (made : List Made)
      → length bytes < 10 ^ 19
      → confirmed
          (send_to_peer (willing ready) backup)
          (ack_from_peer (willing ready) backup)
          (size_line bytes)
          (at_size base path made)
        ≡ some (true, after_content base path (length bytes) [] made)
  unfolding asked on_receive on_size content_loop
  confirmed-size_line base path bytes made h =
      let (c, cs, line, few, read) = size_line_lem bytes h in
      let p = at_size base path made in
      elim (Bool-cases (ltb 0 (length bytes))) [
        | inl more ↦
            rw (line, more)
              (confirmed_lem (willing ready) backup c cs p
                (record (at_content base path (length bytes) [] made) { acks = 1 }) (omega arith)
                (rw (on_receive, read, on_size, content_loop, more) refl) refl)
        | inr none_left ↦
            rw (line, none_left)
              (confirmed_lem (willing ready) backup c cs p
                (record (at_command base (made ++ wrote path [] ∷ [])) { acks = 1 }) (omega arith)
                (rw (on_receive, read, on_size, content_loop, none_left) refl) refl)
      ]

  confirmed-chunk :
      (base path : Bytes) (n c : ℕ) (content cs : Bytes) (made : List Made)
      → length (c ∷ cs) ≡ chunk_size n (length content)
      → confirmed
          (send_to_peer (willing ready) backup)
          (ack_from_peer (willing ready) backup)
          (c ∷ cs)
          (at_content base path n content made)
        ≡ some (true, after_content base path n (content ++ c ∷ cs) made)
  confirmed-chunk base path n c content cs made h =
      confirmed-content ready backup base path n content c cs made h

  pub if_confirmed_lem :
      (message : Bytes) (next : P Peer (Unit {0})) (p p' : Peer)
      → confirmed
          (send_to_peer (willing ready) backup)
          (ack_from_peer (willing ready) backup)
          message
          p
        ≡ some (true, p')
      → if_confirmed
          (send_to_peer (willing ready) backup)
          (ack_from_peer (willing ready) backup)
          message
          next
          p
        ≡ next p'
  unfolding if_confirmed
  if_confirmed_lem message next p p' h = rw (if_confirmed, ◌>>=◌, h) refl

  -- The pieces of the bytes that are left arrive behind those that are in the file.
  send_chunks-at_content :
      (base path : Bytes) (left : ℕ) (content bytes : Bytes) (made : List Made)
      → length bytes ≤ left
      → send_chunks
          (send_to_peer (willing ready) backup)
          (ack_from_peer (willing ready) backup)
          (read_chunks buffer_size left bytes)
          (after_content base path (length content + length bytes) content made)
        ≡ some (tt, at_command base (made ++ wrote path (content ++ bytes) ∷ []))
  unfolding send_chunks read_chunks
  send_chunks-at_content base path left content [] made h =
      let done_ : ltb (length content) (length content + 0) ≡ false = ground arith in
      rw (done_, append-nil content) refl
  send_chunks-at_content base path zero content (c ∷ cs) made h = absurd (omega arith)
  send_chunks-at_content base path (suc left) content (c ∷ cs) made h =
      let n = length content + length (c ∷ cs) in
      let more : ltb (length content) n ≡ true = ground arith in
      let front = take 1023 cs in
      let rest = drop 1023 cs in
      let size : length front ≡ (if ltb (length cs) 1023 then length cs else 1023) =
        length-take 1023 cs in
      let parts : length front + length rest ≡ length cs = length-drop 1023 cs in
      let full : length (c ∷ front) ≡ chunk_size n (length content) =
        chunk_size_lem (length front) (length cs) (length content) n size (omega arith) in
      let longer : length (content ++ c ∷ front) ≡ length content + suc (length front) =
        length-append content (c ∷ front) in
      let total : length (content ++ c ∷ front) + length rest ≡ n = omega (arith, longer, parts) in
      let whole : (content ++ c ∷ front) ++ rest ≡ content ++ c ∷ cs =
        append_assoc content (c ∷ front) rest ∙ ap (λ t. content ++ c ∷ t) (take-drop 1023 cs) in
      rw more (
        if_confirmed_lem (c ∷ front)
          (send_chunks (send_to_peer (willing ready) backup) (ack_from_peer (willing ready) backup)
            (read_chunks buffer_size left rest))
          (at_content base path n content made)
          (after_content base path n (content ++ c ∷ front) made)
          (confirmed-chunk base path n c content front made full)
        ∙ ap
            (λ t.
              send_chunks (send_to_peer (willing ready) backup)
                (ack_from_peer (willing ready) backup) (read_chunks buffer_size left rest)
                (after_content base path t (content ++ c ∷ front) made))
            (sym total)
        ∙ send_chunks-at_content base path left (content ++ c ∷ front) rest made
            (omega (arith, parts))
        ∙ ap (λ t. some (tt, at_command base (made ++ wrote path t ∷ []))) whole)

  pub send_file_over_network-at_command :
      (base path : Bytes) (skip : ℕ) (bytes : Bytes) (made : List Made)
      → is_sendable (drop skip path) ≡ true
      → length bytes < 10 ^ 19
      → send_file_over_network
          (send_to_peer (willing ready) backup)
          (ack_from_peer (willing ready) backup)
          path
          skip
          (some bytes)
          (at_command base made)
        ≡ some (
          tt,
          at_command base (made ++ wrote (full_path backup base (drop skip path)) bytes ∷ []),
        )
  unfolding send_file_over_network chunks_of
  send_file_over_network-at_command base path skip bytes made named small =
      let target = full_path backup base (drop skip path) in
      let send = send_to_peer (willing ready) backup in
      let ack = ack_from_peer (willing ready) backup in
      let none_yet : length bytes ≡ 0 + length bytes = omega arith in
      if_confirmed_lem (file_header path skip)
        (if_confirmed send ack (size_line bytes)
          (send_chunks send ack (read_chunks buffer_size (length bytes) bytes)))
        (at_command base made) (at_size base target made)
        (confirmed-file_header (willing ready) backup base path skip made named)
      ∙ if_confirmed_lem (size_line bytes)
          (send_chunks send ack (read_chunks buffer_size (length bytes) bytes))
          (at_size base target made) (after_content base target (length bytes) [] made)
          (confirmed-size_line base target bytes made small)
      ∙ ap
          (λ t.
            send_chunks send ack (read_chunks buffer_size (length bytes) bytes)
              (after_content base target t [] made))
          none_yet
      ∙ send_chunks-at_content base target (length bytes) [] bytes made (omega arith)
