-- ===== src/Transfer/Refused.antt =====
-- A copy whose destination refuses a file.
use network_file_system.Prelude.{
  ℕ, ◌^◌, ◌<◌, ◌≡◌, refl, ap, ◌∙◌, Bool, true, false, ◌||◌, none, some, arith, List, ◌∷◌, Bytes,
  codes, starts_with, c_string, take, take_of_length-le, drop, length,
}
use network_file_system.Naming.World.{buffer_size}
use network_file_system.Transfer.Source.{read_chunks, chunks_of}
use network_file_system.Transfer.Send.{
  end_marker, file_header, size_line, confirmed, if_confirmed, send_chunks, send_file_over_network,
  ◌>>=◌, P,
}
use network_file_system.Transfer.Receive.{
  Made, Disk, Peer, asked, full_path, on_command, on_size, on_receive, deliver, send_to_peer,
  ack_from_peer,
}
use network_file_system.Transfer.Confirm.{
  is_sendable, at_command, at_size, deliver_whole, confirmed_lem, confirmed-file_header,
}
use network_file_system.Transfer.Content.{size_line_lem}

-- The texts that the receiving side takes for a command.
abbrev pub is_command : Bytes → Bool
is_command text =
    starts_with text end_marker
    || (starts_with text (codes "FILE ") || starts_with text (codes "DIR "))

module _ (disk : Disk) (backup : Bool) where
  confirmed-next :
      (message : Bytes) (next : P Peer (Unit {0})) (p p' : Peer)
      → confirmed (send_to_peer disk backup) (ack_from_peer disk backup) message p ≡ some (true, p')
      → if_confirmed (send_to_peer disk backup) (ack_from_peer disk backup) message next p ≡ next p'
  unfolding if_confirmed
  confirmed-next message next p p' h = rw (if_confirmed, ◌>>=◌, h) refl

  confirmed-refused :
      (base path bytes : Bytes) (made : List Made)
      → disk.opens path ≡ false
      → length bytes < 10 ^ 19
      → confirmed
          (send_to_peer disk backup)
          (ack_from_peer disk backup)
          (size_line bytes)
          (at_size base path made)
        ≡ some (true, at_command base made)
  unfolding asked on_receive on_size
  confirmed-refused base path bytes made shut h =
      let (c, cs, line, few, read) = size_line_lem bytes h in
      ap
        (λ t.
          confirmed (send_to_peer disk backup) (ack_from_peer disk backup) t
            (at_size base path made))
        line
      ∙ confirmed_lem disk backup c cs (at_size base path made)
          (record (at_command base made) { acks = 1 }) (omega arith)
          (rw (on_receive, on_size, shut) refl) refl

  -- Bytes that are no command are dropped, and not acknowledged.
  dropped_lem :
      (base : Bytes) (made : List Made) (c : ℕ) (cs : Bytes)
      → length (c ∷ cs) < buffer_size
      → is_command (c_string (c ∷ cs)) ≡ false
      → send_to_peer disk backup (c ∷ cs) (at_command base made) ≡ some (true, at_command base made)
  unfolding send_to_peer asked on_receive on_command
  dropped_lem base made c cs h text_only =
      let text = c_string (c ∷ cs) in
      let one : starts_with text end_marker ≡ false = ground arith in
      let two : starts_with text (codes "FILE ") ≡ false = ground arith in
      let three : starts_with text (codes "DIR ") ≡ false = ground arith in
      let arrives : deliver disk backup (length (c ∷ cs)) (c ∷ cs) (at_command base made)
          ≡ some (at_command base made) =
        deliver_whole disk backup c cs (at_command base made) (some (at_command base made))
          (omega arith) (rw (on_receive, on_command, one, two, three) refl) in
      rw (send_to_peer, arrives) refl

  chunk-stuck :
      (base : Bytes) (made : List Made) (c : ℕ) (cs : Bytes) (next : P Peer (Unit {0}))
      → length (c ∷ cs) < buffer_size
      → is_command (c_string (c ∷ cs)) ≡ false
      → if_confirmed
          (send_to_peer disk backup)
          (ack_from_peer disk backup)
          (c ∷ cs)
          next
          (at_command base made)
        ≡ none
  unfolding if_confirmed confirmed ack_from_peer
  chunk-stuck base made c cs next h text_only =
      rw (if_confirmed, confirmed, ◌>>=◌, dropped_lem base made c cs h text_only) refl

  -- A file that the receiving side does not open stops both sides for ever. The file has one byte or
  -- more, and fewer than the buffer, its name fits its message, its bytes are no command, and what is
  -- sent arrives whole. Then the name and the size are each confirmed by one acknowledgement, the
  -- second of which leaves the receiving side at its next command; the bytes are sent, and leave it
  -- there, without an acknowledgement; and the sender waits for one. So does
  -- `send_file_over_network`, which goes through these steps, and does not end.
  pub send_file_over_network-not_opened :
      (base path : Bytes) (skip c : ℕ) (cs : Bytes) (made : List Made)
      → is_sendable (drop skip path) ≡ true
      → length (c ∷ cs) < buffer_size
      → is_command (c_string (c ∷ cs)) ≡ false
      → disk.opens (full_path backup base (drop skip path)) ≡ false
      → (confirmed
            (send_to_peer disk backup)
            (ack_from_peer disk backup)
            (file_header path skip)
            (at_command base made)
          ≡ some (true, at_size base (full_path backup base (drop skip path)) made))
        × (confirmed
              (send_to_peer disk backup)
              (ack_from_peer disk backup)
              (size_line (c ∷ cs))
              (at_size base (full_path backup base (drop skip path)) made)
            ≡ some (true, at_command base made))
        × (send_to_peer disk backup (c ∷ cs) (at_command base made)
            ≡ some (true, at_command base made))
        × (ack_from_peer disk backup (at_command base made) ≡ none)
        × (send_file_over_network
              (send_to_peer disk backup)
              (ack_from_peer disk backup)
              path
              skip
              (some (c ∷ cs))
              (at_command base made)
            ≡ none)
  unfolding send_file_over_network chunks_of read_chunks send_chunks ack_from_peer
  send_file_over_network-not_opened base path skip c cs made named short text_only shut =
      let send = send_to_peer disk backup in
      let ack = ack_from_peer disk backup in
      let target = full_path backup base (drop skip path) in
      let rest = send_chunks send ack (read_chunks buffer_size (length cs) (drop 1023 cs)) in
      let whole : take 1023 cs ≡ cs = take_of_length-le 1023 cs (omega arith) in
      let header = confirmed-file_header disk backup base path skip made named in
      let size = confirmed-refused base target (c ∷ cs) made shut (omega arith) in
      (
        header,
        size,
        dropped_lem base made c cs short text_only,
        refl,
        confirmed-next (file_header path skip)
              (if_confirmed send ack (size_line (c ∷ cs))
                (if_confirmed send ack (c ∷ take 1023 cs) rest))
              (at_command base made) (at_size base target made) header
            ∙ confirmed-next (size_line (c ∷ cs)) (if_confirmed send ack (c ∷ take 1023 cs) rest)
                (at_size base target made) (at_command base made) size
            ∙ ap (λ t. if_confirmed send ack (c ∷ t) rest (at_command base made)) whole
            ∙ chunk-stuck base made c cs rest short text_only,
      )
