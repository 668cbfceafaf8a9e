-- ===== src/Naming/Copy/Read.antt =====
-- What a storage server does on the messages of `handle_copy_request`.
use network_file_system.Prelude.{
  ℕ, ◌+◌, ◌<◌, ◌≤◌, ◌≡◌, refl, sym, ◌∙◌, ap, true, false, none, some, Bool-cases, inl, inr, arith,
  [], ◌∷◌, ◌++◌, Bytes, codes, starts_with, strtok, decimal, snprintf, drop, take_of_length-le,
  length, length-append, ltb, ◌==◌,
}
use mathlib.Core.List.{append_assoc, append-nil}
use network_file_system.Naming.World.{StorageServerInfo, buffer_size}
use network_file_system.Naming.Copy.Defs.{
  copysame_message, copydifferent_message, copied_path, backup_place, backup_message,
}
use network_file_system.Naming.Copy.Messages.{
  copy_command, length-decimal, all_words-append, is_word-decimal, decimal_from-cons,
  words_text-append, copysame_message-words_text, copydifferent_message-words_text,
}
use network_file_system.Naming.Copy.Words.{
  words_text, all_words, scan_words-words_text, strtok-command, scan_words-command,
}
use network_file_system.Storage.Listen.{
  copy_to, copydifferent, copydifferentb, copy_same, listen_to_nm, listen_chain, listen_primary,
  copy_words, parse_command_fits,
}
use network_file_system.Transfer.Text.{is_space, is_digit, skip_spaces}
use network_file_system.Transfer.Send.{scan_words, scans_number, scan_copy, scan_copy_b}
use network_file_system.Transfer.Local.{scan_copy_same}

pub decimal-cons : (n : ℕ) → (c : ℕ) × (cs : Bytes) × (decimal n ≡ c ∷ cs) × (is_digit c ≡ true)
unfolding decimal
decimal-cons n = decimal_from-cons 9 n

scans_number-digit : (c : ℕ) (cs : Bytes) → is_digit c ≡ true → scans_number (b' ' ∷ c ∷ cs) ≡ true
unfolding scans_number skip_spaces
scans_number-digit c cs h =
    let solid_ : is_space c ≡ false = ground arith in
    let minus : (c == b'-') ≡ false = ground arith in
    let plus : (c == b'+') ≡ false = ground arith in go cs solid_ minus plus
  where
    go :
        (cs : Bytes)
        → is_space c ≡ false
        → (c == b'-') ≡ false
        → (c == b'+') ≡ false
        → scans_number (b' ' ∷ c ∷ cs) ≡ true
    go [] a b d = rw (scans_number, skip_spaces, a) h
    go (x ∷ xs) a b d = rw (scans_number, skip_spaces, a, b, d) h

pub scans_number-decimal : (n : ℕ) → scans_number (words_text (decimal n ∷ [])) ≡ true
scans_number-decimal n =
    let (c, cs, e, digit) = decimal-cons n in
    ap (λ t. scans_number (b' ' ∷ (t ++ []))) e ∙ scans_number-digit c (cs ++ []) digit

-- A command with two paths, an address and a port, in words.
pub strtok-address :
    (c : ℕ) (cs a b ip : Bytes) (port : ℕ)
    → all_words ((c ∷ cs) ∷ a ∷ b ∷ ip ∷ []) ≡ true
    → strtok b' ' ((c ∷ cs) ++ words_text (a ∷ b ∷ ip ∷ decimal port ∷ []))
      ≡ (c ∷ cs) ∷ a ∷ b ∷ ip ∷ decimal port ∷ []
strtok-address c cs a b ip port words = strtok-command c cs (a ∷ b ∷ ip ∷ decimal port ∷ []) (
    all_words-append ((c ∷ cs) ∷ a ∷ b ∷ ip ∷ []) (decimal port ∷ []) words
      (rw (is_word-decimal port) refl))

-- What is read of it with `%s %s %s %s %d`.
pub scan_copy-address :
    (c : ℕ) (cs a b ip : Bytes) (port : ℕ)
    → all_words ((c ∷ cs) ∷ a ∷ b ∷ ip ∷ []) ≡ true
    → scan_copy ((c ∷ cs) ++ words_text (a ∷ b ∷ ip ∷ decimal port ∷ [])) ≡ some (a, b)
unfolding scan_copy
scan_copy-address c cs a b ip port words =
    let rest = words_text (decimal port ∷ []) in
    let split : (c ∷ cs) ++ words_text (a ∷ b ∷ ip ∷ decimal port ∷ [])
        ≡ ((c ∷ cs) ++ words_text (a ∷ b ∷ ip ∷ [])) ++ rest =
      ap (◌++◌ (c ∷ cs)) (sym (words_text-append (a ∷ b ∷ ip ∷ []) (decimal port ∷ [])))
      ∙ sym (append_assoc (c ∷ cs) (words_text (a ∷ b ∷ ip ∷ [])) rest) in
    ap scan_copy split
    ∙ rw
        (
          scan_copy,
          scan_words-command c cs (a ∷ b ∷ ip ∷ []) rest words refl,
          scans_number-decimal port,
        )
        refl

-- The message for a copy to another storage server, whose server has an address of at most 15
-- bytes: where the source, the destination and the address are words, the storage server of the
-- source takes this copy, to that address and port, and reads the source and the destination that
-- the client named.
pub read-copydifferent_message :
    (root src dest m : Bytes) (to : StorageServerInfo)
    → all_words (src ∷ dest ∷ to.ip ∷ []) ≡ true
    → length to.ip ≤ 15
    → copydifferent_message (copy_command src dest) to ≡ some m
    → (listen_to_nm root m
        ≡ some (copy_to copydifferent (some to.ip) (some (decimal to.port_client))))
      × (scan_copy m ≡ some (src, dest))
unfolding listen_to_nm listen_chain listen_primary copy_words parse_command_fits starts_with
read-copydifferent_message root src dest m to words short h =
    let whole = copydifferent_message-words_text src dest m to short h in
    let tokens =
      strtok-address 99 (drop 1 (codes "copydifferent")) src dest to.ip to.port_client words in
    (
      rw (whole, tokens) refl,
      ap scan_copy whole
          ∙ scan_copy-address 99 (drop 1 (codes "copydifferent")) src dest to.ip to.port_client
              words,
    )

scan_copy_same-words :
    (t src dest : Bytes)
    → scan_words 2 t ≡ some (src ∷ dest ∷ [], [])
    → scan_copy_same (codes "copysame" ++ t) ≡ some (src, dest)
unfolding scan_copy_same starts_with
scan_copy_same-words t src dest h = rw h refl

-- The message for a copy within a storage server: where the source and the destination are words,
-- the storage server takes this copy, and reads the source and the destination that the client
-- named.
pub read-copysame_message :
    (root src dest m : Bytes)
    → all_words (src ∷ dest ∷ []) ≡ true
    → copysame_message (copy_command src dest) ≡ some m
    → (listen_to_nm root m ≡ some (copy_same m)) × (scan_copy_same m ≡ some (src, dest))
unfolding listen_to_nm listen_chain listen_primary parse_command_fits starts_with scan_copy_same
read-copysame_message root src dest m words h =
    let whole = copysame_message-words_text src dest m h in
    let tokens : strtok b' ' (codes "copysame" ++ words_text (src ∷ dest ∷ []))
        ≡ codes "copysame" ∷ src ∷ dest ∷ [] =
      strtok-command 99 (drop 1 (codes "copysame")) (src ∷ dest ∷ []) words in
    let scanned : scan_words 2 (words_text (src ∷ dest ∷ []) ++ []) ≡ some (src ∷ dest ∷ [], []) =
      scan_words-words_text (src ∷ dest ∷ []) [] words refl in
    let scanned' : scan_words 2 (words_text (src ∷ dest ∷ [])) ≡ some (src ∷ dest ∷ [], []) =
      ap (scan_words 2) (sym (append-nil (words_text (src ∷ dest ∷ [])))) ∙ scanned in
    (
      rw (whole, tokens) refl,
      ap scan_copy_same whole
          ∙ scan_copy_same-words (words_text (src ∷ dest ∷ [])) src dest scanned',
    )

backup-words_text :
    (a b ip port : Bytes)
    → codes "copydifferentb " ++ a ++ codes " " ++ b ++ codes " " ++ ip ++ codes " " ++ port
      ≡ codes "copydifferentb" ++ words_text (a ∷ b ∷ ip ∷ port ∷ [])
backup-words_text a b ip port = simp (append_assoc, append-nil) refl

scan_copy_b-words :
    (a b ip rest : Bytes)
    → scan_words 3 (words_text (a ∷ b ∷ ip ∷ []) ++ rest) ≡ some (a ∷ b ∷ ip ∷ [], rest)
    → scans_number rest ≡ true
    → scan_copy_b (codes "copydifferentb" ++ (words_text (a ∷ b ∷ ip ∷ []) ++ rest)) ≡ some (a, b)
unfolding scan_copy_b starts_with
scan_copy_b-words a b ip rest h k = rw (scan_copy_b, h, k) refl

backup_message-words_text :
    (src dest folder m : Bytes) (bs : StorageServerInfo)
    → length (copied_path src dest) + length (backup_place folder dest) + length bs.ip + 28
      < buffer_size
    → backup_message src dest folder bs ≡ some m
    → m
      ≡ codes "copydifferentb"
        ++ words_text
            (copied_path src dest ∷ backup_place folder dest ∷ bs.ip ∷ decimal bs.port_client ∷ [])
unfolding backup_message
backup_message-words_text src dest folder m bs short h =
    let a = copied_path src dest in
    let b = backup_place folder dest in
    let fit : snprintf buffer_size (
          codes "copydifferentb "
          ++ a
          ++ codes " "
          ++ b
          ++ codes " "
          ++ bs.ip
          ++ codes " "
          ++ decimal bs.port_client)
        ≡ codes "copydifferentb" ++ words_text (a ∷ b ∷ bs.ip ∷ decimal bs.port_client ∷ []) =
      cut a b bs.ip (decimal bs.port_client) short (length-decimal bs.port_client) in
    elim (Bool-cases (ltb (length dest) 2)) [
      | inl one ↦ (let bad : none ≡ some m = rw (backup_message, one) at h in cc)
      | inr two ↦
          (let e : some (
                  snprintf buffer_size (
                    codes "copydifferentb "
                    ++ a
                    ++ codes " "
                    ++ b
                    ++ codes " "
                    ++ bs.ip
                    ++ codes " "
                    ++ decimal bs.port_client))
                ≡ some m =
              rw (backup_message, two) at h in
            cc)
    ]
  where
    cut :
        (a b ip port : Bytes)
        → length a + length b + length ip + 28 < buffer_size
        → length port ≤ 10
        → snprintf buffer_size
            (codes "copydifferentb " ++ a ++ codes " " ++ b ++ codes " " ++ ip ++ codes " " ++ port)
          ≡ codes "copydifferentb" ++ words_text (a ∷ b ∷ ip ∷ port ∷ [])
    cut a b ip port h k =
        ap (snprintf buffer_size) (backup-words_text a b ip port)
        ∙ take_of_length-le 1023 (codes "copydifferentb" ++ words_text (a ∷ b ∷ ip ∷ port ∷ [])) (
            omega (
              arith,
              h,
              k,
              length-append a (b' ' ∷ (b ++ b' ' ∷ (ip ++ b' ' ∷ (port ++ [])))),
              length-append b (b' ' ∷ (ip ++ b' ' ∷ (port ++ []))),
              length-append ip (b' ' ∷ (port ++ [])),
              length-append port [],
            ))

read-backup_words :
    (root a b ip : Bytes) (port : ℕ) (m : Bytes)
    → all_words (a ∷ b ∷ ip ∷ []) ≡ true
    → m ≡ codes "copydifferentb" ++ words_text (a ∷ b ∷ ip ∷ decimal port ∷ [])
    → (listen_to_nm root m ≡ some (copy_to copydifferentb (some ip) (some (decimal port))))
      × (scan_copy_b m ≡ some (a, b))
unfolding listen_to_nm listen_chain copy_words parse_command_fits starts_with
read-backup_words root a b ip port m words whole =
    let tokens = strtok-address 99 (drop 1 (codes "copydifferentb")) a b ip port words in
    let scanned : scan_words 3 (words_text (a ∷ b ∷ ip ∷ []) ++ words_text (decimal port ∷ []))
        ≡ some (a ∷ b ∷ ip ∷ [], words_text (decimal port ∷ [])) =
      scan_words-words_text (a ∷ b ∷ ip ∷ []) (words_text (decimal port ∷ [])) words refl in
    let split : m
        ≡ codes "copydifferentb"
          ++ (words_text (a ∷ b ∷ ip ∷ []) ++ words_text (decimal port ∷ [])) =
      whole
      ∙ ap (◌++◌ (codes "copydifferentb"))
          (sym (words_text-append (a ∷ b ∷ ip ∷ []) (decimal port ∷ []))) in
    (
      rw (whole, tokens) refl,
      ap scan_copy_b split
          ∙ scan_copy_b-words a b ip (words_text (decimal port ∷ [])) scanned
              (scans_number-decimal port),
    )

-- The message that passes a copy on to a backup server: where the copy at the destination, its place
-- below the backup folder and the address are words, and the message fits the buffer, the storage
-- server of the destination takes the copy for backups, to the address and port of the backup
-- server, and reads that copy as the source and its place as the destination.
pub read-backup_message :
    (root src dest folder m : Bytes) (bs : StorageServerInfo)
    → all_words (copied_path src dest ∷ backup_place folder dest ∷ bs.ip ∷ []) ≡ true
    → length (copied_path src dest) + length (backup_place folder dest) + length bs.ip + 28
      < buffer_size
    → backup_message src dest folder bs ≡ some m
    → (listen_to_nm root m
        ≡ some (copy_to copydifferentb (some bs.ip) (some (decimal bs.port_client))))
      × (scan_copy_b m ≡ some (copied_path src dest, backup_place folder dest))
read-backup_message root src dest folder m bs words short h =
    read-backup_words root (copied_path src dest) (backup_place folder dest) bs.ip bs.port_client m
      words (backup_message-words_text src dest folder m bs short h)
