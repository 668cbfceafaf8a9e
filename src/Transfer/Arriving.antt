-- ===== src/Transfer/Arriving.antt =====
-- The bytes of one piece of a file, which arrive in parts.
use network_file_system.Prelude.{
  ℕ, zero, suc, ◌+◌, ◌-◌, lt→ltb, ltb→lt, ◌≤◌, ◌≡◌, refl, ap, ◌∙◌, Bool, Bool-cases, inl, inr, true,
  false, some, arith, List, [], ◌∷◌, ◌++◌, Bytes, take, take_of_length-le, drop, length,
  length-append, ltb, if◌then◌else◌,
}
use mathlib.Core.List.{append_assoc}
use network_file_system.Transfer.Send.{confirmed, ◌>>=◌}
use network_file_system.Transfer.Receive.{
  Made, wrote, for_content, Peer, chunk_size, asked, send_ack, content_loop, on_content, on_receive,
  deliver, send_to_peer, ack_from_peer,
}
use network_file_system.Transfer.Confirm.{willing, drop_of_length-le, at_content, at_command}
use network_file_system.Transfer.Pieces.{length-drop, length-take, take-drop}

-- Inside of a file, with `chunk` in the buffer.
abbrev in_content : (base path : Bytes) (file_size : ℕ) (content chunk : Bytes) → List Made → Peer
in_content base path file_size content chunk made = record {
  waiting = for_content base path file_size content chunk;
  acks = 0;
  made = made;
}

module _ (ready : Peer → ℕ) (backup : Bool) (base path : Bytes) (n : ℕ) where
  -- The buffer is full: it is written, and acknowledged.
  abbrev pub acknowledged : (content : Bytes) → List Made → Peer
  acknowledged content made =
      if ltb (length content) n
      then record (at_content base path n content made) { acks = 1 }
      else record (at_command base (made ++ wrote path content ∷ [])) { acks = 1 }

  content_loop-acknowledged :
      (content content' chunk : Bytes) (made : List Made)
      → send_ack (
          content_loop
            (willing ready)
            backup
            base
            path
            n
            content'
            (in_content base path n content chunk made))
        ≡ acknowledged content' made
  unfolding content_loop
  content_loop-acknowledged content content' chunk made =
      elim (Bool-cases (ltb (length content') n)) [ inl e ↦ rw e refl | inr e ↦ rw e refl ]

  deliver-nothing : (left : ℕ) (p : Peer) → deliver (willing ready) backup left [] p ≡ some p
  unfolding deliver
  deliver-nothing zero p = refl
  deliver-nothing (suc left) p = refl

  deliver-content :
      (left : ℕ) (content chunk bytes : Bytes) (made : List Made)
      → 1 ≤ length bytes
      → length bytes ≤ left
      → length chunk + length bytes ≡ chunk_size n (length content)
      → deliver (willing ready) backup left bytes (in_content base path n content chunk made)
        ≡ some (acknowledged (content ++ (chunk ++ bytes)) made)
  unfolding deliver on_receive on_content asked
  deliver-content left content chunk [] made some_ enough whole = absurd (omega arith)
  deliver-content zero content chunk (c ∷ cs) made some_ enough whole = absurd (omega arith)
  deliver-content (suc left) content chunk (c ∷ cs) made some_ enough whole =
      let r = ready (in_content base path n content chunk made) in
      let gap : chunk_size n (length content) - length chunk ≡ length (c ∷ cs) =
        omega (arith, whole) in
      elim (Bool-cases (ltb (suc r) (length (c ∷ cs)))) [
        | inl part ↦
            let parts : length (take r cs) + length (drop r cs) ≡ length cs = length-drop r cs in
            let size = length-take r cs in
            let longer : length (chunk ++ c ∷ take r cs) ≡ length chunk + suc (length (take r cs)) =
              length-append chunk (c ∷ take r cs) in
            let size' : length (take r cs) ≡ r = ground (arith, size) in
            let short : ltb (length (chunk ++ c ∷ take r cs)) (chunk_size n (length content))
                ≡ true =
              lt→ltb _ _ (omega (arith, whole, longer, size', ltb→lt _ _ part)) in
            let whole' : (chunk ++ c ∷ take r cs) ++ drop r cs ≡ chunk ++ c ∷ cs =
              append_assoc chunk (c ∷ take r cs) (drop r cs)
              ∙ ap (λ t. chunk ++ c ∷ t) (take-drop r cs) in
            rw (deliver, gap, part, on_receive, on_content, short)
              (deliver-content left content (chunk ++ c ∷ take r cs) (drop r cs) made
                (omega (arith, parts, size', ltb→lt _ _ part)) (omega (arith, parts, enough))
                (omega (arith, longer, parts, whole)))
            ∙ ap (λ t. some (acknowledged (content ++ t) made)) whole'
        | inr all ↦
            let fits : take (length cs) cs ≡ cs = take_of_length-le (length cs) cs (omega arith) in
            let nothing : drop (length cs) cs ≡ [] =
              drop_of_length-le (length cs) cs (omega arith) in
            let full : ltb (length (chunk ++ c ∷ cs)) (chunk_size n (length content)) ≡ false =
              ground (arith, length-append chunk (c ∷ cs), whole) in
            rw
              (
                deliver,
                gap,
                all,
                on_receive,
                fits,
                nothing,
                on_content,
                full,
                content_loop-acknowledged content (content ++ (chunk ++ c ∷ cs)) chunk made,
              )
              (deliver-nothing left (acknowledged (content ++ (chunk ++ c ∷ cs)) made))
      ]

  -- A whole piece of the file, in whatever parts it arrives, is written and confirmed.
  pub confirmed-content :
      (content : Bytes) (c : ℕ) (cs : Bytes) (made : List Made)
      → length (c ∷ cs) ≡ chunk_size n (length content)
      → confirmed
          (send_to_peer (willing ready) backup)
          (ack_from_peer (willing ready) backup)
          (c ∷ cs)
          (at_content base path n content made)
        ≡ some (
          true,
          if ltb (length (content ++ c ∷ cs)) n
              then at_content base path n (content ++ c ∷ cs) made
              else at_command base (made ++ wrote path (content ++ c ∷ cs) ∷ []),
        )
  unfolding confirmed send_to_peer ack_from_peer
  confirmed-content content c cs made whole =
      let arrives : deliver (willing ready) backup (length (c ∷ cs)) (c ∷ cs)
            (at_content base path n content made)
          ≡ some (acknowledged (content ++ c ∷ cs) made) =
        deliver-content (length (c ∷ cs)) content [] (c ∷ cs) made (omega arith) (omega arith)
          (omega (arith, whole)) in
      let to_write = content ++ c ∷ cs in
      elim (Bool-cases (ltb (length to_write) n)) [
        | inl more ↦
            let arrives' : deliver (willing ready) backup (length (c ∷ cs)) (c ∷ cs)
                  (at_content base path n content made)
                ≡ some (record (at_content base path n to_write made) { acks = 1 }) =
              arrives ∙ rw (acknowledged, more) refl in
            rw (confirmed, ◌>>=◌, send_to_peer, arrives', ack_from_peer, more) refl
        | inr none_left ↦
            let arrives' : deliver (willing ready) backup (length (c ∷ cs)) (c ∷ cs)
                  (at_content base path n content made)
                ≡ some (record (at_command base (made ++ wrote path to_write ∷ [])) { acks = 1 }) =
              arrives ∙ rw (acknowledged, none_left) refl in
            rw (confirmed, ◌>>=◌, send_to_peer, arrives', ack_from_peer, none_left) refl
      ]
