-- ===== src/Naming/Cache/Array.antt =====
-- What the shifting loop and a write behind the entries in use do to the front of the array.
use network_file_system.Prelude.{
  ℕ, zero, suc, ◌+◌, ◌<◌, ◌≡◌, refl, ap, ◌∙◌, arith, List, [], ◌∷◌, ◌++◌, length, length-set, take,
  set, get_or,
}
use network_file_system.Naming.Cache.Defs.{CacheEntry, empty_entry, shift_left}

module _ {ℓ} {A : Type ℓ} where
  unfoldable pub remove_at : ℕ → List A → List A
  remove_at i [] = []
  remove_at zero (x ∷ xs) = xs
  remove_at (suc i) (x ∷ xs) = x ∷ remove_at i xs

  remove_at-take_last :
      (i : ℕ) (q : List A) → i < length q → remove_at i (take (suc i) q) ≡ take i q
  unfolding remove_at
  remove_at-take_last i [] h = absurd (omega arith)
  remove_at-take_last zero (x ∷ q) h = refl
  remove_at-take_last (suc i) (x ∷ q) h = ap (◌∷◌ x) (remove_at-take_last i q (omega arith))

  remove_at-take-set :
      (i m : ℕ) (q : List A) (d : A)
      → suc i < m
      → suc i < length q
      → remove_at (suc i) (take m (set q i (get_or q (suc i) d))) ≡ remove_at i (take m q)
  unfolding remove_at
  remove_at-take-set i zero q d hm h = absurd (omega arith)
  remove_at-take-set i (suc zero) q d hm h = absurd (omega arith)
  remove_at-take-set i (suc (suc m)) [] d hm h = absurd (omega arith)
  remove_at-take-set i (suc (suc m)) (x ∷ []) d hm h = absurd (omega arith)
  remove_at-take-set zero (suc (suc m)) (x ∷ y ∷ q) d hm h = refl
  remove_at-take-set (suc i) (suc (suc m)) (x ∷ y ∷ q) d hm h =
      ap (◌∷◌ x) (remove_at-take-set i (suc m) (y ∷ q) d (omega arith) (omega arith))

  pub length-remove_at :
      (i : ℕ) (q : List A) → i < length q → suc (length (remove_at i q)) ≡ length q
  unfolding remove_at
  length-remove_at i [] h = absurd (omega arith)
  length-remove_at zero (x ∷ q) h = refl
  length-remove_at (suc i) (x ∷ q) h = ap suc (length-remove_at i q (omega arith))

  pub take-set :
      (n : ℕ) (q : List A) (x : A) → n < length q → take (suc n) (set q n x) ≡ take n q ++ x ∷ []
  take-set n [] x h = absurd (omega arith)
  take-set zero (y ∷ q) x h = refl
  take-set (suc n) (y ∷ q) x h = ap (◌∷◌ y) (take-set n q x (omega arith))

pub length-shift_left : (n i : ℕ) (q : List CacheEntry) → length (shift_left n i q) ≡ length q
unfolding shift_left
length-shift_left zero i q = refl
length-shift_left (suc n) i q =
    length-shift_left n (suc i) (set q i (get_or q (suc i) empty_entry))
    ∙ length-set q i (get_or q (suc i) empty_entry)

-- The loop takes the entry at `i` out of the entries up to `t`.
pub take-shift_left :
    (n i t : ℕ) (q : List CacheEntry)
    → i + n ≡ t
    → t < length q
    → take t (shift_left n i q) ≡ remove_at i (take (suc t) q)
unfolding shift_left
take-shift_left zero i t q e h =
    let same : t ≡ i = omega arith in rw (same, remove_at-take_last i q (omega arith))
take-shift_left (suc n) i t q e h =
    let x = get_or q (suc i) empty_entry in
    take-shift_left n (suc i) t (set q i x) (omega arith) (omega (arith, length-set q i x))
    ∙ remove_at-take-set i (suc t) q empty_entry (omega arith) (omega arith)
