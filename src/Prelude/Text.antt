-- ===== src/Prelude/Text.antt =====
-- C strings as lists of bytes without the final NUL, and the functions of string.h that the
-- program uses: strcmp, strncmp with a literal, strtok, strchr and strrchr.
use Prim.Native.Nat.{ℕ}
use Prim.Native.Char.{code}
use Prim.Native.String.{String}
use mathlib.Core.Path.{◌≡◌, refl}
use mathlib.Core.Logic.{◌↔◌}
use mathlib.Core.Bool.{Bool, true, false, ◌&&◌}
use mathlib.Core.List.{List, [], ◌∷◌, ◌++◌}
use mathlib.Core.Option.{Option, none, some}
use native.Mathlib.Omega.{arith}
use network_file_system.Prelude.Tests.{◌==◌, if◌then◌else◌}

abbrev pub Bytes : Type 0
Bytes = List ℕ

-- The bytes of a literal.
abbrev pub codes : String → Bytes
codes String.[] = []
codes (String.◌∷◌ c s) = code c ∷ codes s

-- `strcmp(a, b) == 0`
unfoldable pub str_eq : Bytes → Bytes → Bool
str_eq [] [] = true
str_eq [] (y ∷ ys) = false
str_eq (x ∷ xs) [] = false
str_eq (x ∷ xs) (y ∷ ys) = (x == y) && str_eq xs ys

pub str_eq_refl : (a : Bytes) → str_eq a a ≡ true
unfolding str_eq
str_eq_refl [] = refl
str_eq_refl (x ∷ xs) = ground (arith, str_eq_refl xs)

pub str_eq→eq : (a b : Bytes) → str_eq a b ≡ true → a ≡ b
unfolding str_eq
str_eq→eq [] [] h = refl
str_eq→eq [] (y ∷ ys) h = cc
str_eq→eq (x ∷ xs) [] h = cc
str_eq→eq (x ∷ xs) (y ∷ ys) h = ground (arith, str_eq→eq xs ys)

pub str_eq_iff : (a b : Bytes) → (str_eq a b ≡ true) ↔ (a ≡ b)
str_eq_iff a b = (str_eq→eq a b, λ e. rw e (str_eq_refl b))

-- `strncmp(s, prefix, strlen(prefix)) == 0`
unfoldable pub starts_with : Bytes → Bytes → Bool
starts_with s [] = true
starts_with [] (y ∷ ys) = false
starts_with (x ∷ xs) (y ∷ ys) = (x == y) && starts_with xs ys

-- A token under construction is put in front of the tokens that follow it, unless it is empty.
abbrev close_token : Bytes → List Bytes → List Bytes
close_token [] ts = ts
close_token (c ∷ cs) ts = (c ∷ cs) ∷ ts

-- The tokens that `strtok(s, delimiter)` and then `strtok(NULL, delimiter)` return, up to NULL:
-- the maximal runs of bytes other than the delimiter. `acc` is the run read so far.
unfoldable pub strtok_from : ℕ → Bytes → Bytes → List Bytes
strtok_from d acc [] = close_token acc []
strtok_from d acc (c ∷ cs) =
    let finished = close_token acc (strtok_from d [] cs) in
    let longer = strtok_from d (acc ++ c ∷ []) cs in if c == d then finished else longer

unfoldable pub strtok : ℕ → Bytes → List Bytes
unfolding strtok_from
strtok d s = strtok_from d [] s

-- What stands in front of the last `d`, `strrchr(s, d)`; none if there is none.
unfoldable pub before_last : ℕ → Bytes → Option Bytes
before_last d [] = none
before_last d (c ∷ cs) = elim (before_last d cs) [
  | some front ↦ some (c ∷ front)
  | none ↦ if c == d then some [] else none
]

pub str_eq_sym : (a b : Bytes) → str_eq a b ≡ str_eq b a
unfolding str_eq
str_eq_sym [] [] = refl
str_eq_sym [] (y ∷ ys) = refl
str_eq_sym (x ∷ xs) [] = refl
str_eq_sym (x ∷ xs) (y ∷ ys) = ground (arith, str_eq_sym xs ys)

-- What a C string holds: the bytes up to the first NUL.
unfoldable pub c_string : Bytes → Bytes
c_string [] = []
c_string (c ∷ cs) = if c == 0 then [] else c ∷ c_string cs
