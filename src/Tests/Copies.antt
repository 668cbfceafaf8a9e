-- ===== src/Tests/Copies.antt =====
-- The theorems on copies at a small folder.
use network_file_system.Prelude.{
  ℕ, true, drop, c_string, none, ◌≡◌, refl, false, some, [], ◌∷◌, ◌++◌, Bytes, codes, ltb→lt,
  starts_with,
}
use network_file_system.Transfer.Source.{
  Directory, opened, end, file, folder, other, Source, directory, is_dot,
}
use network_file_system.Transfer.Send.{
  confirmed, file_header, size_line, finished_copying, join, scan_copy, skipped, skips_to,
  send_file_over_network, send_directory_over_network, copy_different_src,
}
use network_file_system.Transfer.Receive.{
  Disk, Peer, full_path, made_directory, send_to_peer, ack_from_peer, greeted,
}
use network_file_system.Transfer.Confirm.{willing, at_command, at_size}
use network_file_system.Transfer.Saved.{
  sendable_file, sendable_directory, saved_directory, send_directory_over_network-saved_directory,
}
use network_file_system.Transfer.Copied.{
  sendable_source, saved_source, at_end, copy_different_src-at_end,
}
use network_file_system.Transfer.Refused.{send_file_over_network-not_opened}

abbrev pub notes : Directory
notes = opened (
    folder (codes ".") (opened end) (
      file (codes "a") (some (codes "hello")) (
        folder (codes "sub") (opened (file (codes "b") (some []) end)) (other (codes "pipe") end))))

abbrev pub stat_notes : Bytes → Source
stat_notes path = directory notes

-- Every `recv` of bytes gets one.
abbrev pub one_byte : Peer → ℕ
one_byte p = 0

send_directory_over_network-saved_directory_example :
    send_directory_over_network
      (send_to_peer (willing one_byte) false)
      (ack_from_peer (willing one_byte) false)
      (codes "./x/notes")
      4
      notes
      (at_command (codes "./y") [])
    ≡ some (
      tt,
      at_command
          (codes "./y")
          ([] ++ saved_directory false (codes "./y") 4 (codes "./x/notes") notes),
    )
unfolding sendable_directory sendable_file is_dot join
send_directory_over_network-saved_directory_example =
    send_directory_over_network-saved_directory false (codes "./y") 4 one_byte (codes "./x/notes")
      notes [] refl

copy_different_src-at_end_example :
    copy_different_src
      (send_to_peer (willing one_byte) false)
      (ack_from_peer (willing one_byte) false)
      (codes "copydifferent ./x/notes ./y 127.0.0.1 8080")
      stat_notes
      false
      greeted
    ≡ some (
      finished_copying,
      at_end (
          made_directory (codes "./y")
          ∷ saved_source false
              (codes "./y")
              (codes "./x/notes")
              (skips_to (codes "./y") false 4)
              (directory notes)),
    )
unfolding scan_copy skipped skips_to sendable_source
copy_different_src-at_end_example =
    copy_different_src-at_end one_byte (codes "copydifferent ./x/notes ./y 127.0.0.1 8080")
      (codes "./x/notes") (codes "./y") stat_notes false 4 refl refl refl refl

-- Files of which none opens.
abbrev shut : Disk
shut = record (willing one_byte) { opens = λ p. false }

send_file_over_network-not_opened_example :
    (confirmed
        (send_to_peer shut false)
        (ack_from_peer shut false)
        (file_header (codes "./x/a") 4)
        (at_command (codes "./y") [])
      ≡ some
          (true, at_size (codes "./y") (full_path false (codes "./y") (drop 4 (codes "./x/a"))) []))
    × (confirmed
          (send_to_peer shut false)
          (ack_from_peer shut false)
          (size_line (codes "hello"))
          (at_size (codes "./y") (full_path false (codes "./y") (drop 4 (codes "./x/a"))) [])
        ≡ some (true, at_command (codes "./y") []))
    × (send_to_peer shut false (codes "hello") (at_command (codes "./y") [])
        ≡ some (true, at_command (codes "./y") []))
    × (ack_from_peer shut false (at_command (codes "./y") []) ≡ none)
    × (send_file_over_network
          (send_to_peer shut false)
          (ack_from_peer shut false)
          (codes "./x/a")
          4
          (some (codes "hello"))
          (at_command (codes "./y") [])
        ≡ none)
unfolding c_string starts_with full_path
send_file_over_network-not_opened_example =
    send_file_over_network-not_opened shut false (codes "./y") (codes "./x/a") 4 b'h' (codes "ello")
      [] refl (ltb→lt _ _ refl) refl refl
