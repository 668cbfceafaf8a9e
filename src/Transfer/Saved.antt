-- ===== src/Transfer/Saved.antt =====
-- What a copy leaves at the receiving side.
use network_file_system.Prelude.{
  ℕ, ◌^◌, ◌≡◌, refl, sym, ap, ◌∙◌, Bool, true, false, ◌&&◌, ◌||◌, Option, none, some, arith, List,
  [], ◌∷◌, ◌++◌, Bytes, drop, length, ltb, if◌then◌else◌,
}
use mathlib.Core.List.{append_assoc, append-nil}
use network_file_system.Transfer.Source.{
  Directory, closed, opened, Items, end, file, folder, other, is_dot,
}
use network_file_system.Transfer.Send.{
  join, dir_header, send_file_over_network, send_directory_over_network, send_items, ◌>>=◌, ◌>>◌,
  unless, P,
}
use network_file_system.Transfer.Receive.{
  Made, made_directory, wrote, Peer, full_path, send_to_peer, ack_from_peer,
}
use network_file_system.Transfer.Confirm.{willing, is_sendable, at_command, confirmed-dir_header}
use network_file_system.Transfer.Content.{if_confirmed_lem, send_file_over_network-at_command}

-- Whether the names in a folder fit the messages, and the sizes a `long`.
unfoldable pub sendable_file : (path : Bytes) (skip : ℕ) → Option Bytes → Bool
sendable_file path skip none = true
sendable_file path skip (some bytes) = is_sendable (drop skip path) && ltb (length bytes) (10 ^ 19)

unfoldable mutual
  unfolding sendable_file is_dot join

  pub sendable_directory : (path : Bytes) (skip : ℕ) → Directory → Bool
  sendable_directory path skip closed = true
  sendable_directory path skip (opened items) =
      is_sendable (drop skip path) && sendable_items path skip items

  pub sendable_items : (path : Bytes) (skip : ℕ) → Items → Bool
  sendable_items path skip end = true
  sendable_items path skip (file name bytes items) =
      (is_dot name || sendable_file (join path name) skip bytes) && sendable_items path skip items
  sendable_items path skip (folder name d items) =
      (is_dot name || sendable_directory (join path name) skip d) && sendable_items path skip items
  sendable_items path skip (other name items) = sendable_items path skip items

module _ (backup : Bool) (base : Bytes) (skip : ℕ) where
  unfoldable pub saved_file : (path : Bytes) → Option Bytes → List Made
  unfolding full_path
  saved_file path none = []
  saved_file path (some bytes) = wrote (full_path backup base (drop skip path)) bytes ∷ []

  unfoldable mutual
    unfolding saved_file is_dot join full_path

    pub saved_directory : (path : Bytes) → Directory → List Made
    saved_directory path closed = []
    saved_directory path (opened items) =
        made_directory (full_path backup base (drop skip path)) ∷ saved_items path items

    pub saved_items : (path : Bytes) → Items → List Made
    saved_items path end = []
    saved_items path (file name bytes items) =
        (if is_dot name then [] else saved_file (join path name) bytes) ++ saved_items path items
    saved_items path (folder name d items) =
        (if is_dot name then [] else saved_directory (join path name) d) ++ saved_items path items
    saved_items path (other name items) = saved_items path items

  module _ (ready : Peer → ℕ) where
    pub send_file_over_network-saved_file :
        (path : Bytes) (bytes : Option Bytes) (made : List Made)
        → sendable_file path skip bytes ≡ true
        → send_file_over_network
            (send_to_peer (willing ready) backup)
            (ack_from_peer (willing ready) backup)
            path
            skip
            bytes
            (at_command base made)
          ≡ some (tt, at_command base (made ++ saved_file path bytes))
    unfolding sendable_file saved_file send_file_over_network
    send_file_over_network-saved_file path none made h =
        ap (λ t. some (tt, at_command base t)) (sym (append-nil made))
    send_file_over_network-saved_file path (some bytes) made h =
        send_file_over_network-at_command ready backup base path skip bytes made (ground arith)
          (ground arith)

    then_lem :
        (m k : P Peer (Unit {0})) (made one two : List Made)
        → m (at_command base made) ≡ some (tt, at_command base (made ++ one))
        → k (at_command base (made ++ one)) ≡ some (tt, at_command base ((made ++ one) ++ two))
        → (m >> k) (at_command base made) ≡ some (tt, at_command base (made ++ (one ++ two)))
    then_lem m k made one two h e =
        rw (◌>>◌, ◌>>=◌, h, e) (ap (λ t. some (tt, at_command base t)) (append_assoc made one two))

    entry_lem :
        (dot : Bool) (m k : P Peer (Unit {0})) (made one two : List Made)
        → (dot ≡ false → m (at_command base made) ≡ some (tt, at_command base (made ++ one)))
        → ((made' : List Made)
            → k (at_command base made') ≡ some (tt, at_command base (made' ++ two)))
        → unless dot m k (at_command base made)
          ≡ some (tt, at_command base (made ++ ((if dot then [] else one) ++ two)))
    entry_lem true m k made one two h e = e made
    entry_lem false m k made one two h e = then_lem m k made one two (h refl) (e (made ++ one))

    mutual
      unfolding saved_directory sendable_directory send_directory_over_network

      send_folder :
          (path : Bytes) (d : Directory) (made : List Made)
          → sendable_directory path skip d ≡ true
          → send_directory_over_network
              (send_to_peer (willing ready) backup)
              (ack_from_peer (willing ready) backup)
              path
              skip
              d
              (at_command base made)
            ≡ some (tt, at_command base (made ++ saved_directory path d))
      send_folder path closed made h =
          ap (λ t. some (tt, at_command base t)) (sym (append-nil made))
      send_folder path (opened items) made h =
          let here = made_directory (full_path backup base (drop skip path)) in
          if_confirmed_lem ready backup (dir_header path skip)
            (send_items (send_to_peer (willing ready) backup) (ack_from_peer (willing ready) backup)
              path skip items)
            (at_command base made) (at_command base (made ++ here ∷ []))
            (confirmed-dir_header ready backup base path skip made (ground arith))
          ∙ send_entries path items (made ++ here ∷ []) (ground arith)
          ∙ ap (λ t. some (tt, at_command base t))
              (append_assoc made (here ∷ []) (saved_items path items))

      send_entries :
          (path : Bytes) (items : Items) (made : List Made)
          → sendable_items path skip items ≡ true
          → send_items
              (send_to_peer (willing ready) backup)
              (ack_from_peer (willing ready) backup)
              path
              skip
              items
              (at_command base made)
            ≡ some (tt, at_command base (made ++ saved_items path items))
      send_entries path end made h = ap (λ t. some (tt, at_command base t)) (sym (append-nil made))
      send_entries path (other name items) made h = send_entries path items made h
      send_entries path (file name bytes items) made h =
          let send = send_to_peer (willing ready) backup in
          let ack = ack_from_peer (willing ready) backup in
          entry_lem (is_dot name) (send_file_over_network send ack (join path name) skip bytes)
            (send_items send ack path skip items) made (saved_file (join path name) bytes)
            (saved_items path items)
            (λ shown. send_file_over_network-saved_file (join path name) bytes made (ground arith))
            (λ made'. send_entries path items made' (ground arith))
      send_entries path (folder name d items) made h =
          let send = send_to_peer (willing ready) backup in
          let ack = ack_from_peer (willing ready) backup in
          entry_lem (is_dot name) (send_directory_over_network send ack (join path name) skip d)
            (send_items send ack path skip items) made (saved_directory (join path name) d)
            (saved_items path items) (λ shown. send_folder (join path name) d made (ground arith))
            (λ made'. send_entries path items made' (ground arith))

    -- Where every name and size fits its message, every send succeeds, and so does every `mkdir`,
    -- `fopen` and `fwrite` of the receiving side, and where the bytes of a file arrive in any pieces, of
    -- one byte or more, and every other message whole: sending a folder leaves on the receiving side
    -- this folder with what is in it, in its order, and the receiving side at its next command, with
    -- no acknowledgement on its way.
    pub send_directory_over_network-saved_directory :
        (path : Bytes) (d : Directory) (made : List Made)
        → sendable_directory path skip d ≡ true
        → send_directory_over_network
            (send_to_peer (willing ready) backup)
            (ack_from_peer (willing ready) backup)
            path
            skip
            d
            (at_command base made)
          ≡ some (tt, at_command base (made ++ saved_directory path d))
    send_directory_over_network-saved_directory = send_folder
