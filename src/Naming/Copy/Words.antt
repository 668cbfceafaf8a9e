-- ===== src/Naming/Copy/Words.antt =====
-- Texts of words, as `sscanf` and `strtok` read them.
use network_file_system.Prelude.{
  ℕ, suc, ◌≡◌, refl, sym, ◌∙◌, ap, Bool, true, false, ◌&&◌, some, arith, List, [], ◌∷◌, ◌++◌, Bytes,
  strtok, strtok_from, length, ◌==◌,
}
use mathlib.Core.List.{append_assoc, append-nil}
use network_file_system.Storage.Protocol.{no_space}
use network_file_system.Transfer.Text.{is_space, word_of, skip_spaces, after_word, scan_word}
use network_file_system.Transfer.Send.{scan_words}
use network_file_system.Transfer.Confirm.{solid}

-- Words with a blank in front of each.
abbrev pub words_text : List Bytes → Bytes
words_text [] = []
words_text (w ∷ ws) = b' ' ∷ (w ++ words_text ws)

-- Words that are not empty and have no blank in them.
abbrev pub is_word : Bytes → Bool
is_word [] = false
is_word (c ∷ cs) = solid (c ∷ cs)

abbrev pub all_words : List Bytes → Bool
all_words [] = true
all_words (w ∷ ws) = is_word w && all_words ws

-- What stands behind a word.
abbrev pub is_end : Bytes → Bool
is_end [] = true
is_end (c ∷ cs) = c == b' '

pub is_end-words_text :
    (ws : List Bytes) (rest : Bytes) → is_end rest ≡ true → is_end (words_text ws ++ rest) ≡ true
is_end-words_text [] rest h = h
is_end-words_text (w ∷ ws) rest h = refl

pub word_of-append :
    (cs rest : Bytes) → solid cs ≡ true → is_end rest ≡ true → word_of (cs ++ rest) ≡ cs
unfolding word_of
word_of-append [] [] h e = refl
word_of-append [] (r ∷ rest) h e = ground arith
word_of-append (c ∷ cs) rest h e =
    let other : is_space c ≡ false = ground arith in
    rw other (ap (◌∷◌ c) (word_of-append cs rest (ground arith) e))

pub after_word-append :
    (cs rest : Bytes) → solid cs ≡ true → is_end rest ≡ true → after_word (cs ++ rest) ≡ rest
unfolding after_word
after_word-append [] [] h e = refl
after_word-append [] (r ∷ rest) h e = ground arith
after_word-append (c ∷ cs) rest h e =
    let other : is_space c ≡ false = ground arith in
    rw other (after_word-append cs rest (ground arith) e)

pub scan_words-words_text :
    (ws : List Bytes) (rest : Bytes)
    → all_words ws ≡ true
    → is_end rest ≡ true
    → scan_words (length ws) (words_text ws ++ rest) ≡ some (ws, rest)
unfolding scan_words scan_word skip_spaces
scan_words-words_text [] rest h e = refl
scan_words-words_text ([] ∷ ws) rest h e = cc
scan_words-words_text ((c ∷ cs) ∷ ws) rest h e =
    let tail = words_text ws ++ rest in
    let ends : is_end tail ≡ true = is_end-words_text ws rest e in
    let other : is_space c ≡ false = ground arith in
    let good : solid (c ∷ cs) ≡ true = ground arith in
    let next : scan_words (length ws) tail ≡ some (ws, rest) =
      scan_words-words_text ws rest (ground arith) e in
    let split : (cs ++ words_text ws) ++ rest ≡ cs ++ tail = append_assoc cs (words_text ws) rest in
    let word : word_of (c ∷ (cs ++ tail)) ≡ c ∷ cs = word_of-append (c ∷ cs) tail good ends in
    let behind : after_word (c ∷ (cs ++ tail)) ≡ tail = after_word-append (c ∷ cs) tail good ends in
    let text = words_text ((c ∷ cs) ∷ ws) ++ rest in
    let first : skip_spaces text ≡ c ∷ (cs ++ tail) =
      ap skip_spaces (ap (λ t. b' ' ∷ c ∷ t) split) ∙ rw (skip_spaces, other) refl in
    let found : scan_word text ≡ some (c ∷ cs) = rw (scan_word, first, word) refl in
    rw (scan_words, found, first, behind, next) refl

-- The same behind a first word, which may have no blank in front of it.
pub scan_words-command :
    (c : ℕ) (cs : Bytes) (ws : List Bytes) (rest : Bytes)
    → all_words ((c ∷ cs) ∷ ws) ≡ true
    → is_end rest ≡ true
    → scan_words (suc (length ws)) (((c ∷ cs) ++ words_text ws) ++ rest)
      ≡ some ((c ∷ cs) ∷ ws, rest)
unfolding scan_words scan_word skip_spaces
scan_words-command c cs ws rest h e = scan_words-words_text ((c ∷ cs) ∷ ws) rest h e

-- Words that are not empty and have no ' ' in them.
abbrev pub is_token : Bytes → Bool
is_token [] = false
is_token (c ∷ cs) = no_space (c ∷ cs)

abbrev pub all_tokens : List Bytes → Bool
all_tokens [] = true
all_tokens (w ∷ ws) = is_token w && all_tokens ws

pub no_space-solid : (cs : Bytes) → solid cs ≡ true → no_space cs ≡ true
no_space-solid [] h = refl
no_space-solid (c ∷ cs) h = ground (arith, no_space-solid cs)

pub is_token-word : (w : Bytes) → is_word w ≡ true → is_token w ≡ true
is_token-word [] h = cc
is_token-word (c ∷ cs) h = no_space-solid (c ∷ cs) h

pub all_tokens-words : (ws : List Bytes) → all_words ws ≡ true → all_tokens ws ≡ true
all_tokens-words [] h = refl
all_tokens-words (w ∷ ws) h = ground (arith, is_token-word w, all_tokens-words ws)

pub strtok-run :
    (c : ℕ) (acc cs : Bytes) (ws : List Bytes)
    → no_space cs ≡ true
    → strtok_from b' ' [] (words_text ws) ≡ ws
    → strtok_from b' ' (c ∷ acc) (cs ++ words_text ws) ≡ (c ∷ acc ++ cs) ∷ ws
unfolding strtok_from
strtok-run c acc [] [] h e = ap (λ t. (c ∷ t) ∷ []) (sym (append-nil acc))
strtok-run c acc [] (w ∷ ws) h e =
    ap (◌∷◌ (c ∷ acc)) e ∙ ap (λ t. (c ∷ t) ∷ w ∷ ws) (sym (append-nil acc))
strtok-run c acc (d ∷ cs) ws h e =
    let longer : strtok_from b' ' (c ∷ (acc ++ d ∷ [])) (cs ++ words_text ws)
        ≡ (c ∷ (acc ++ d ∷ []) ++ cs) ∷ ws =
      strtok-run c (acc ++ d ∷ []) cs ws (ground arith) e in
    let other : (d == b' ') ≡ false = ground arith in
    rw other (longer ∙ ap (λ t. (c ∷ t) ∷ ws) (append_assoc acc (d ∷ []) cs))

pub strtok-tokens :
    (ws : List Bytes) → all_tokens ws ≡ true → strtok_from b' ' [] (words_text ws) ≡ ws
unfolding strtok_from
strtok-tokens [] h = refl
strtok-tokens ([] ∷ ws) h = cc
strtok-tokens ((c ∷ cs) ∷ ws) h =
    let other : (c == b' ') ≡ false = ground arith in
    rw other (strtok-run c [] cs ws (ground arith) (strtok-tokens ws (ground arith)))

-- A command is its words, with a blank between two of them.
pub strtok-command :
    (c : ℕ) (cs : Bytes) (ws : List Bytes)
    → all_words ((c ∷ cs) ∷ ws) ≡ true
    → strtok b' ' ((c ∷ cs) ++ words_text ws) ≡ (c ∷ cs) ∷ ws
unfolding strtok strtok_from
strtok-command c cs ws h = strtok-tokens ((c ∷ cs) ∷ ws) (all_tokens-words ((c ∷ cs) ∷ ws) h)
