-- ===== src/Transfer/Pieces.antt =====
-- The pieces of a file: their lengths.
use network_file_system.Prelude.{
  ℕ, zero, suc, ◌+◌, ◌-◌, ◌≡◌, refl, sym, ap, ◌∙◌, arith, [], ◌∷◌, ◌++◌, Bytes, take, drop, length,
  length-append, ltb, if◌then◌else◌,
}
use network_file_system.Transfer.Receive.{chunk_size}

pub take-drop : (n : ℕ) (xs : Bytes) → take n xs ++ drop n xs ≡ xs
take-drop zero xs = refl
take-drop (suc n) [] = refl
take-drop (suc n) (x ∷ xs) = ap (◌∷◌ x) (take-drop n xs)

pub length-take :
    (n : ℕ) (xs : Bytes) → length (take n xs) ≡ (if ltb (length xs) n then length xs else n)
length-take zero xs = ground arith
length-take (suc n) [] = ground arith
length-take (suc n) (x ∷ xs) = ground (arith, length-take n xs)

pub length-drop : (n : ℕ) (xs : Bytes) → length (take n xs) + length (drop n xs) ≡ length xs
length-drop n xs =
    sym (length-append (take n xs) (drop n xs)) ∙ ap (length {A = ℕ}) (take-drop n xs)

pub chunk_size_lem :
    (front left content n : ℕ)
    → front ≡ (if ltb left 1023 then left else 1023)
    → n ≡ content + suc left
    → suc front ≡ chunk_size n content
chunk_size_lem front left content n h k =
    let gap : n - content ≡ suc left = omega arith in rw gap (ground arith)
