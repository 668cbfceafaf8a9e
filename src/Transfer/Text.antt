-- ===== src/Transfer/Text.antt =====
-- What the copies read with `sscanf` and `atol`, and write with `%ld`.
use network_file_system.Prelude.{
  ℕ, zero, suc, ◌+◌, ◌-◌, ◌*◌, ◌/◌, ◌%◌, ◌^◌, ◌<◌, ◌≡◌, refl, sym, ◌∙◌, ap, Bool, true, false, ◌||◌,
  ◌&&◌, Option, none, some, arith, Bool-cases, inl, inr, [], ◌∷◌, ◌++◌, Bytes, decimal_from, ltb,
  leb, ◌==◌, if◌then◌else◌,
}
use mathlib.Core.List.{append_assoc}

-- `isspace`
abbrev pub is_space : ℕ → Bool
is_space c = (leb 9 c && leb c 13) || c == b' '

abbrev pub is_digit : ℕ → Bool
is_digit c = leb b'0' c && leb c b'9'

-- The bytes up to the next blank.
unfoldable pub word_of : Bytes → Bytes
word_of [] = []
word_of (c ∷ cs) = if is_space c then [] else c ∷ word_of cs

unfoldable pub skip_spaces : Bytes → Bytes
skip_spaces [] = []
skip_spaces (c ∷ cs) = let rest = skip_spaces cs in if is_space c then rest else c ∷ cs

-- The bytes behind the next word.
unfoldable pub after_word : Bytes → Bytes
after_word [] = []
after_word (c ∷ cs) = let rest = after_word cs in if is_space c then c ∷ cs else rest

-- `sscanf(text, "%s", ...)`: none where it assigns nothing.
unfoldable pub scan_word : Bytes → Option Bytes
unfolding word_of skip_spaces
scan_word text = elim (word_of (skip_spaces text)) [ [] ↦ none | c ∷ cs ↦ some (c ∷ cs) ]

-- The digits at the start, behind those that gave `acc`.
unfoldable pub digits_value : (acc : ℕ) → Bytes → ℕ
digits_value acc [] = acc
digits_value acc (c ∷ cs) =
    let more = digits_value (acc * 10 + (c - b'0')) cs in if is_digit c then more else acc

-- `atol`, where a negative number counts as 0.
unfoldable pub atol : Bytes → ℕ
unfolding skip_spaces digits_value
atol text = digits_value 0 (skip_spaces text)

-- `%ld` of a number that is not negative.
unfoldable pub decimal_long : ℕ → Bytes
unfolding decimal_from
decimal_long = decimal_from 19

pub digits_value-decimal_from :
    (f n : ℕ) (rest : Bytes)
    → n < 10 ^ f
    → digits_value 0 (decimal_from f n ++ rest) ≡ digits_value n rest
unfolding digits_value decimal_from
digits_value-decimal_from zero n rest h = let nothing : n ≡ 0 = omega arith in rw nothing refl
digits_value-decimal_from (suc f) n rest h =
    let power : 10 ^ suc f ≡ 10 * 10 ^ f = omega arith in
    let front : n / 10 < 10 ^ f = omega (arith, power) in
    let digit : is_digit (b'0' + n % 10) ≡ true = ground arith in
    elim (Bool-cases (ltb n 10)) [
      | inl small ↦
          let same : 0 * 10 + (b'0' + n % 10 - b'0') ≡ n = ground arith in
          rw (decimal_from, small, digits_value, digit, same) refl
      | inr large ↦
          let same : n / 10 * 10 + (b'0' + n % 10 - b'0') ≡ n = omega arith in
          let last : digits_value (n / 10) ((b'0' + n % 10) ∷ rest) ≡ digits_value n rest =
            rw (digits_value, digit, same) refl in
          rw (decimal_from, large)
            (ap (λ t. digits_value 0 t)
                (append_assoc (decimal_from f (n / 10)) ((b'0' + n % 10) ∷ []) rest)
              ∙ digits_value-decimal_from f (n / 10) ((b'0' + n % 10) ∷ rest) front
              ∙ last)
    ]

pub skip_spaces-decimal_from :
    (f n : ℕ) (rest : Bytes)
    → n < 10 ^ suc f
    → skip_spaces (decimal_from (suc f) n ++ rest) ≡ decimal_from (suc f) n ++ rest
unfolding skip_spaces decimal_from
skip_spaces-decimal_from zero n rest h =
    let small : ltb n 10 ≡ true = ground arith in
    let solid : is_space (b'0' + n % 10) ≡ false = ground arith in rw (small, solid) refl
skip_spaces-decimal_from (suc f) n rest h = elim (Bool-cases (ltb n 10)) [
  | inl small ↦
      let solid : is_space (b'0' + n % 10) ≡ false = ground arith in rw (small, solid) refl
  | inr large ↦
      let power : 10 ^ suc (suc f) ≡ 10 * 10 ^ suc f = omega arith in
      let front : n / 10 < 10 ^ suc f = omega (arith, power) in
      let split = append_assoc (decimal_from (suc f) (n / 10)) ((b'0' + n % 10) ∷ []) rest in
      rw large (
        ap skip_spaces split
        ∙ skip_spaces-decimal_from f (n / 10) ((b'0' + n % 10) ∷ rest) front
        ∙ sym split)
]

-- A size that is written with `%ld` and a line feed is read back by `atol`.
pub atol-decimal_long : (n : ℕ) → n < 10 ^ 19 → atol (decimal_long n ++ 10 ∷ []) ≡ n
unfolding atol decimal_long digits_value
atol-decimal_long n h =
    rw (skip_spaces-decimal_from 18 n (10 ∷ []) h) (digits_value-decimal_from 19 n (10 ∷ []) h)
