-- ===== src/Prelude/Tokens.antt =====
-- Texts of tokens with a delimiter between them, as `strtok` reads them.
use Prim.Native.Nat.{ℕ}
use mathlib.Core.Path.{◌≡◌, refl, sym, ap, ◌∙◌}
use mathlib.Core.Bool.{Bool, true, false, not, ◌&&◌}
use mathlib.Core.List.{[], ◌∷◌, ◌++◌, append_assoc, append-nil}
use native.Mathlib.Omega.{arith}
use network_file_system.Prelude.Tests.{◌==◌}
use network_file_system.Prelude.Text.{Bytes, strtok, strtok_from}

-- A byte that is not in a text.
abbrev pub lacks : ℕ → Bytes → Bool
lacks d [] = true
lacks d (c ∷ cs) = not (c == d) && lacks d cs

-- A token: not empty, and without the delimiter.
abbrev pub is_part : ℕ → Bytes → Bool
is_part d [] = false
is_part d (c ∷ cs) = lacks d (c ∷ cs)

pub lacks-append :
    (d : ℕ) (a b : Bytes) → lacks d a ≡ true → lacks d b ≡ true → lacks d (a ++ b) ≡ true
lacks-append d [] b h k = k
lacks-append d (c ∷ cs) b h k = ground (arith, lacks-append d cs b)

strtok-run_from :
    (d c : ℕ) (acc cs rest : Bytes)
    → lacks d cs ≡ true
    → strtok_from d (c ∷ acc) (cs ++ d ∷ rest) ≡ (c ∷ acc ++ cs) ∷ strtok_from d [] rest
unfolding strtok_from
strtok-run_from d c acc [] rest h =
    let same : (d == d) ≡ true = ground arith in rw (same, append-nil acc) refl
strtok-run_from d c acc (e ∷ cs) rest h =
    let other : (e == d) ≡ false = ground arith in
    rw other (
      strtok-run_from d c (acc ++ e ∷ []) cs rest (ground arith)
      ∙ ap (λ t. (c ∷ t) ∷ strtok_from d [] rest) (append_assoc acc (e ∷ []) cs))

strtok-run_end :
    (d c : ℕ) (acc cs : Bytes)
    → lacks d cs ≡ true
    → strtok_from d (c ∷ acc) cs ≡ (c ∷ acc ++ cs) ∷ []
unfolding strtok_from
strtok-run_end d c acc [] h = ap (λ t. (c ∷ t) ∷ []) (sym (append-nil acc))
strtok-run_end d c acc (e ∷ cs) h =
    let other : (e == d) ≡ false = ground arith in
    rw other (
      strtok-run_end d c (acc ++ e ∷ []) cs (ground arith)
      ∙ ap (λ t. (c ∷ t) ∷ []) (append_assoc acc (e ∷ []) cs))

-- A token in front of a delimiter is the first one.
pub strtok-part :
    (d : ℕ) (part rest : Bytes)
    → is_part d part ≡ true
    → strtok d (part ++ d ∷ rest) ≡ part ∷ strtok d rest
unfolding strtok strtok_from
strtok-part d [] rest h = cc
strtok-part d (c ∷ cs) rest h =
    let other : (c == d) ≡ false = ground arith in
    rw other (strtok-run_from d c [] cs rest (ground arith))

-- A delimiter at the start is skipped.
pub strtok-delimiter : (d : ℕ) (rest : Bytes) → strtok d (d ∷ rest) ≡ strtok d rest
unfolding strtok strtok_from
strtok-delimiter d rest = let same : (d == d) ≡ true = ground arith in rw same refl

-- A text without the delimiter is one token.
pub strtok-last : (d : ℕ) (part : Bytes) → is_part d part ≡ true → strtok d part ≡ part ∷ []
unfolding strtok strtok_from
strtok-last d [] h = cc
strtok-last d (c ∷ cs) h =
    let other : (c == d) ≡ false = ground arith in
    rw other (strtok-run_end d c [] cs (ground arith))
