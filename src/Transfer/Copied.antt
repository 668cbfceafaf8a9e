-- ===== src/Transfer/Copied.antt =====
-- A whole copy, from the greeting to the marker of the end.
use network_file_system.Prelude.{
  ℕ, ◌≡◌, refl, ◌∙◌, Bool, true, false, none, some, Option-cases, inl, inr, arith, List, [], ◌∷◌,
  ◌++◌, Bytes, take, take_of_length-le, starts_with, c_string, length-append, if◌then◌else◌,
}
use network_file_system.Transfer.Source.{Source, missing, directory, regular, unsupported}
use network_file_system.Transfer.Send.{
  dest_header, end_marker, scan_copy, scan_copy_b, skipped, skips_to, skips_b, confirmed,
  finished_copying, ack_failed, unsent_destination, send_source, send_named, send_to_destination,
  copy_different_src, copy_different_src_b, ◌>>=◌, ◌>>◌, return, P,
}
use network_file_system.Transfer.Receive.{
  Made, made_directory, closed, Peer, on_receive, on_destination, on_command, make_directory,
  deliver, send_to_peer, ack_from_peer, greeted, asked,
}
use network_file_system.Transfer.Confirm.{
  willing, is_sendable, sendable_text, at_command, confirmed_lem,
}
use network_file_system.Transfer.Saved.{
  sendable_file, sendable_directory, saved_file, saved_directory, send_file_over_network-saved_file,
  send_directory_over_network-saved_directory,
}

-- Whether the source is a folder or a file whose names and sizes fit the messages.
unfoldable pub sendable_source : (src : Bytes) (skips : ℕ × ℕ) → Source → Bool
unfolding sendable_directory sendable_file
sendable_source src (skip, skip_file) (directory d) = sendable_directory src skip d
sendable_source src (skip, skip_file) (regular bytes) = sendable_file src skip_file bytes
sendable_source src skips s = false

unfoldable pub saved_source :
    (backup : Bool) (dest src : Bytes) (skips : ℕ × ℕ) → Source → List Made
unfolding saved_directory saved_file
saved_source backup dest src (skip, skip_file) (directory d) =
    saved_directory backup dest skip src d
saved_source backup dest src (skip, skip_file) (regular bytes) =
    saved_file backup dest skip_file src bytes
saved_source backup dest src skips s = []

-- The receiving side behind the marker of the end.
abbrev pub at_end : List Made → Peer
at_end made = record { waiting = closed; acks = 0; made = made }

confirmed-split :
    {W A : Type 0} (send : Bytes → P W Bool) (ack : P W Bool) (message : Bytes)
    → (good unanswered unsent : P W A) (p p' : W) → confirmed send ack message p ≡ some (true, p')
    → (do
      told ← send message
      if told then (do agreed ← ack; if agreed then good else unanswered) else unsent)
        p
      ≡ good p'
unfolding confirmed
confirmed-split send ack message good unanswered unsent p p' h =
    elim (Option-cases (send message p)) [
      | inl stuck ↦ (let bad : none ≡ some (true, p') = rw (confirmed, ◌>>=◌, stuck) at h in cc)
      | inr ((true, q), sent) ↦
          let rest : ack q ≡ some (true, p') = rw (confirmed, ◌>>=◌, sent) at h in
          rw (◌>>=◌, sent, rest) refl
      | inr ((false, q), sent) ↦
          (let bad : some (false, q) ≡ some (true, p') = rw (confirmed, ◌>>=◌, sent) at h in cc)
    ]

module _ (ready : Peer → ℕ) (backup : Bool) where
  send-end_marker :
      (base : Bytes) (made : List Made)
      → send_to_peer (willing ready) backup end_marker (at_command base made)
        ≡ some (true, at_end made)
  unfolding send_to_peer deliver on_receive on_command asked c_string starts_with
  send-end_marker base made = refl

  send_source-at_end :
      (src base : Bytes) (skip skip_file : ℕ) (s : Source) (made : List Made)
      → sendable_source src (skip, skip_file) s ≡ true
      → send_source
          (send_to_peer (willing ready) backup)
          (ack_from_peer (willing ready) backup)
          src
          skip
          skip_file
          s
          (at_command base made)
        ≡ some (finished_copying, at_end (made ++ saved_source backup base src (skip, skip_file) s))
  unfolding send_source sendable_source saved_source
  send_source-at_end src base skip skip_file (directory d) made h =
      rw
        (
          send_source,
          ◌>>=◌,
          ◌>>◌,
          send_directory_over_network-saved_directory backup base skip ready src d made h,
          send-end_marker base (made ++ saved_directory backup base skip src d),
        )
        refl
  send_source-at_end src base skip skip_file (regular bytes) made h =
      rw
        (
          send_source,
          ◌>>=◌,
          ◌>>◌,
          send_file_over_network-saved_file backup base skip_file ready src bytes made h,
          send-end_marker base (made ++ saved_file backup base skip_file src bytes),
        )
        refl
  send_source-at_end src base skip skip_file missing made h = cc
  send_source-at_end src base skip skip_file unsupported made h = cc

  confirmed-dest_header :
      (dest : Bytes)
      → is_sendable dest ≡ true
      → confirmed
          (send_to_peer (willing ready) backup)
          (ack_from_peer (willing ready) backup)
          (dest_header dest)
          (record greeted { acks = 0 })
        ≡ some (true, at_command dest (made_directory dest ∷ []))
  unfolding dest_header on_receive on_destination make_directory asked starts_with c_string
  confirmed-dest_header dest h =
      let (short, seen, word) = sendable_text dest h in
      let whole : take 2052 (dest ++ 10 ∷ []) ≡ dest ++ 10 ∷ [] =
        take_of_length-le 2052 (dest ++ 10 ∷ []) (omega (arith, length-append dest (10 ∷ []))) in
      rw whole (
        confirmed_lem (willing ready) backup 68 (69 ∷ 83 ∷ 84 ∷ 32 ∷ (dest ++ 10 ∷ []))
          (record greeted { acks = 0 })
          (record (at_command dest (made_directory dest ∷ [])) { acks = 1 })
          (omega (arith, length-append dest (10 ∷ [])))
          (rw (on_receive, seen, on_destination, word) refl) refl)

  send_named-at_end :
      (src dest : Bytes) (skips : ℕ → ℕ × ℕ) (n : ℕ) (s : Source) (unanswered unsent : P Peer Bytes)
      → skipped src ≡ some n
      → is_sendable dest ≡ true
      → sendable_source src (skips n) s ≡ true
      → (do
        told ← send_to_peer (willing ready) backup (dest_header dest)
        if told
            then (do
              agreed ← ack_from_peer (willing ready) backup
              if agreed
                  then send_named
                      (send_to_peer (willing ready) backup)
                      (ack_from_peer (willing ready) backup)
                      src
                      skips
                      s
                  else unanswered)
            else unsent)
          (record greeted { acks = 0 })
        ≡ some (
          finished_copying,
          at_end (made_directory dest ∷ saved_source backup dest src (skips n) s),
        )
  unfolding send_named
  send_named-at_end src dest skips n s unanswered unsent named fits sendable =
      let send = send_to_peer (willing ready) backup in
      let ack = ack_from_peer (willing ready) backup in
      confirmed-split send ack (dest_header dest) (send_named send ack src skips s) unanswered
        unsent (record greeted { acks = 0 }) (at_command dest (made_directory dest ∷ []))
        (confirmed-dest_header dest fits)
      ∙ rw (send_named, named)
          (send_source-at_end src dest ((skips n).0) ((skips n).1) s (made_directory dest ∷ [])
            sendable)

  -- From the greeting to the end, where the source is named.
  send_to_destination-at_end :
      (src dest : Bytes) (skips : ℕ → ℕ × ℕ) (n : ℕ) (s : Source)
      → skipped src ≡ some n
      → is_sendable dest ≡ true
      → sendable_source src (skips n) s ≡ true
      → send_to_destination
          (send_to_peer (willing ready) backup)
          (ack_from_peer (willing ready) backup)
          src
          dest
          skips
          s
          greeted
        ≡ some (
          finished_copying,
          at_end (made_directory dest ∷ saved_source backup dest src (skips n) s),
        )
  unfolding send_to_destination sendable_source ack_from_peer send_to_peer
  send_to_destination-at_end src dest skips n missing named fits sendable = cc
  send_to_destination-at_end src dest skips n unsupported named fits sendable = cc
  send_to_destination-at_end src dest skips n (directory d) named fits sendable =
      send_named-at_end src dest skips n (directory d) (return ack_failed)
        (return unsent_destination) named fits sendable
  send_to_destination-at_end src dest skips n (regular bytes) named fits sendable =
      send_named-at_end src dest skips n (regular bytes) (return ack_failed)
        (return unsent_destination) named fits sendable

-- A copy to another storage server, where the command is read, the source is a folder or a file below
-- a '/', and every name and size fits its message. Every send succeeds, and so does every `mkdir`,
-- `fopen` and `fwrite` of the receiving side; the bytes of a file arrive in any pieces, and every other
-- message whole. Then `copy_different_src` and `copy_different_dest` both end, the first one with
-- "Finished Copying", and the second one has made the destination and below it all that the source
-- holds, in its order.
pub copy_different_src-at_end :
    (ready : Peer → ℕ) (buffer src dest : Bytes) (stat : Bytes → Source) (lcopy : Bool) (n : ℕ)
    → scan_copy buffer ≡ some (src, dest)
    → skipped src ≡ some n
    → is_sendable dest ≡ true
    → sendable_source src (skips_to dest lcopy n) (stat src) ≡ true
    → copy_different_src
        (send_to_peer (willing ready) false)
        (ack_from_peer (willing ready) false)
        buffer
        stat
        lcopy
        greeted
      ≡ some (
        finished_copying,
        at_end
            (made_directory dest ∷ saved_source false dest src (skips_to dest lcopy n) (stat src)),
      )
unfolding copy_different_src
copy_different_src-at_end ready buffer src dest stat lcopy n read named fits sendable =
    rw (copy_different_src, read)
      (send_to_destination-at_end ready false src dest (skips_to dest lcopy) n (stat src) named fits
        sendable)

-- The same for `copy_different_src_b` and `copy_different_dest_b`, which keep a "./" of the names.
pub copy_different_src_b-at_end :
    (ready : Peer → ℕ) (buffer src dest : Bytes) (stat : Bytes → Source) (n : ℕ)
    → scan_copy_b buffer ≡ some (src, dest)
    → skipped src ≡ some n
    → is_sendable dest ≡ true
    → sendable_source src (skips_b n) (stat src) ≡ true
    → copy_different_src_b
        (send_to_peer (willing ready) true)
        (ack_from_peer (willing ready) true)
        buffer
        stat
        greeted
      ≡ some (
        finished_copying,
        at_end (made_directory dest ∷ saved_source true dest src (skips_b n) (stat src)),
      )
unfolding copy_different_src_b
copy_different_src_b-at_end ready buffer src dest stat n read named fits sendable =
    rw (copy_different_src_b, read)
      (send_to_destination-at_end ready true src dest skips_b n (stat src) named fits sendable)
