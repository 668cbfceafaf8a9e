-- ===== src/Naming/Copy/Messages.antt =====
-- The messages of `handle_copy_request`, as storage servers read them.
use network_file_system.Prelude.{
  ℕ, zero, suc, ◌+◌, ◌/◌, ◌%◌, ◌≤◌, ◌≡◌, refl, sym, ◌∙◌, ap, true, none, some, Bool-cases, inl, inr,
  arith, List, [], ◌∷◌, ◌++◌, Bytes, codes, decimal, decimal_from, snprintf, take,
  take_of_length-le, length, length-append, ltb,
}
use mathlib.Core.List.{append_assoc, append-nil}
use network_file_system.Naming.World.{StorageServerInfo, buffer_size}
use network_file_system.Naming.Copy.Defs.{
  in_buffer, ss_info, replace_word, copysame_message, copydifferent_message,
}
use network_file_system.Transfer.Text.{is_digit}
use network_file_system.Transfer.Confirm.{solid}
use network_file_system.Transfer.Content.{length-decimal_from, solid-decimal_from}
use network_file_system.Naming.Copy.Words.{all_words, is_word, words_text}

-- The command that a client gives.
abbrev pub copy_command : (src dest : Bytes) → Bytes
copy_command src dest = codes "copy" ++ words_text (src ∷ dest ∷ [])

pub in_buffer-some : (text m : Bytes) → in_buffer text ≡ some m → m ≡ text
unfolding in_buffer
in_buffer-some text m h = elim (Bool-cases (ltb (length text) buffer_size)) [
  | inl fits ↦ (let e : some text ≡ some m = rw (in_buffer, fits) at h in cc)
  | inr over ↦ (let e : none ≡ some m = rw (in_buffer, over) at h in cc)
]

pub copysame_message-words_text :
    (src dest m : Bytes)
    → copysame_message (copy_command src dest) ≡ some m
    → m ≡ codes "copysame" ++ words_text (src ∷ dest ∷ [])
unfolding copysame_message
copysame_message-words_text src dest m h =
    in_buffer-some (codes "copysame" ++ words_text (src ∷ dest ∷ [])) m h

pub decimal_from-cons :
    (f n : ℕ) → (c : ℕ) × (cs : Bytes) × (decimal_from (suc f) n ≡ c ∷ cs) × (is_digit c ≡ true)
unfolding decimal_from
decimal_from-cons zero n = elim (Bool-cases (ltb n 10)) [
  | inl small ↦ (b'0' + n % 10, [], rw (decimal_from, small) refl, ground arith)
  | inr large ↦ (b'0' + n % 10, [], rw (decimal_from, large) refl, ground arith)
]
decimal_from-cons (suc f) n =
    let (c, cs, e, digit) = decimal_from-cons f (n / 10) in
    elim (Bool-cases (ltb n 10)) [
      | inl small ↦ (b'0' + n % 10, [], rw (decimal_from, small) refl, ground arith)
      | inr large ↦ (
        c,
        cs ++ (b'0' + n % 10) ∷ [],
        rw (decimal_from, large) (ap (λ t. t ++ (b'0' + n % 10) ∷ []) e),
        digit,
      )
    ]

is_word-cons : (c : ℕ) (cs ds : Bytes) → ds ≡ c ∷ cs → solid ds ≡ true → is_word ds ≡ true
is_word-cons c cs [] e h = cc
is_word-cons c cs (d ∷ ds) e h = h

pub all_words-append :
    (us vs : List Bytes) → all_words us ≡ true → all_words vs ≡ true → all_words (us ++ vs) ≡ true
all_words-append [] vs h k = k
all_words-append (u ∷ us) vs h k = ground (arith, all_words-append us vs)

pub is_word-decimal : (n : ℕ) → is_word (decimal n) ≡ true
unfolding decimal
is_word-decimal n =
    let (c, cs, e, digit) = decimal_from-cons 9 n in
    is_word-cons c cs (decimal_from 10 n) e (solid-decimal_from 10 n)

address-words_text :
    (ip port : Bytes) → codes " " ++ ip ++ codes " " ++ port ≡ words_text (ip ∷ port ∷ [])
address-words_text ip port =
    append_assoc (b' ' ∷ ip) (b' ' ∷ []) port
    ∙ ap (λ t. b' ' ∷ (ip ++ b' ' ∷ t)) (sym (append-nil port))

pub address-short :
    (ip port : Bytes)
    → length ip ≤ 15
    → length port ≤ 10
    → length (words_text (ip ∷ port ∷ [])) ≤ 1023
address-short ip port h k =
    omega (arith, length-append ip (b' ' ∷ (port ++ [])), length-append port [])

pub length-decimal : (n : ℕ) → length (decimal n) ≤ 10
unfolding decimal
length-decimal n = length-decimal_from 10 n

pub ss_info-words_text :
    (ss : StorageServerInfo)
    → length ss.ip ≤ 15
    → ss_info ss ≡ words_text (ss.ip ∷ decimal ss.port_client ∷ [])
unfolding ss_info
ss_info-words_text ss h = cut (decimal ss.port_client) (length-decimal ss.port_client)
  where
    cut :
        (port : Bytes)
        → length port ≤ 10
        → snprintf buffer_size (codes " " ++ ss.ip ++ codes " " ++ port)
          ≡ words_text (ss.ip ∷ port ∷ [])
    cut port k =
        ap (take 1023) (address-words_text ss.ip port)
        ∙ take_of_length-le 1023 (words_text (ss.ip ∷ port ∷ [])) (address-short ss.ip port h k)

pub words_text-append :
    (us vs : List Bytes) → words_text us ++ words_text vs ≡ words_text (us ++ vs)
words_text-append [] vs = refl
words_text-append (u ∷ us) vs =
    ap (◌∷◌ b' ')
      (append_assoc u (words_text us) (words_text vs) ∙ ap (◌++◌ u) (words_text-append us vs))

-- The words of the message to another storage server.
pub copydifferent_message-words_text :
    (src dest m : Bytes) (to : StorageServerInfo)
    → length to.ip ≤ 15
    → copydifferent_message (copy_command src dest) to ≡ some m
    → m ≡ codes "copydifferent" ++ words_text (src ∷ dest ∷ to.ip ∷ decimal to.port_client ∷ [])
unfolding copydifferent_message
copydifferent_message-words_text src dest m to short h =
    in_buffer-some (replace_word (codes "copydifferent") (copy_command src dest) ++ ss_info to) m h
    ∙ ap (λ t. (codes "copydifferent" ++ words_text (src ∷ dest ∷ [])) ++ t)
        (ss_info-words_text to short)
    ∙ ap (λ t. codes "copydifferent" ++ t)
        (words_text-append (src ∷ dest ∷ []) (to.ip ∷ decimal to.port_client ∷ []))
