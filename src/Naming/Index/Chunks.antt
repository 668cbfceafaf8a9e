-- ===== src/Naming/Index/Chunks.antt =====
-- The tree that `indexHelper` builds does not depend on where the text of the paths is cut.
use network_file_system.Prelude.{
  ℕ, ◌+◌, ◌-◌, ◌≤◌, ◌≡◌, refl, ◌∙◌, sym, Bool, true, false, not, ◌&&◌, ap, Option, none, some,
  arith, Option-cases, Bool-cases, ◌⊎◌, inl, inr, List, [], ◌∷◌, ◌++◌, Bytes, c_string,
  take_of_length-le, length, leb, ◌==◌,
}
use mathlib.Core.List.{append_assoc, append-nil}
use network_file_system.Naming.World.{max_path_size}
use network_file_system.Tries.Defs.{Node}
use network_file_system.Naming.Index.Defs.{
  has_infix, end_of_index, Lines, finished, partial, add_line, index_lines, append_chunk,
  index_helper,
}

abbrev pub tree_of : Option Lines → Option Node
tree_of none = none
tree_of (some (finished root)) = some root
tree_of (some (partial left root)) = some root

-- Going on behind a piece of the text.
abbrev continue_lines : Option Lines → Bytes → Option Lines
continue_lines none more = none
continue_lines (some (finished root)) more = some (finished root)
continue_lines (some (partial left root)) more = index_lines left more root

index_lines-append :
    (line a b : Bytes) (root : Node)
    → index_lines line (a ++ b) root ≡ continue_lines (index_lines line a root) b
unfolding index_lines
index_lines-append line [] b root = refl
index_lines-append line (c ∷ a) b root = elim (Bool-cases (c == 10)) [
  | inr n ↦ rw (index_lines, n) (index_lines-append (line ++ c ∷ []) a b root)
  | inl n ↦ elim (Bool-cases (has_infix end_of_index line)) [
    | inl m ↦ rw (index_lines, n, m) refl
    | inr m ↦ elim (Option-cases (add_line line root)) [
      | inl e ↦ rw (index_lines, n, m, e) refl
      | inr (r, e) ↦ rw (index_lines, n, m, e) (index_lines-append [] a b r)
    ]
  ]
]

abbrev pub no_newline : Bytes → Bool
no_newline [] = true
no_newline (c ∷ cs) = not (c == 10) && no_newline cs

-- A partial line is read again from its start.
pub index_lines-line :
    (line left more : Bytes) (root : Node)
    → no_newline left ≡ true
    → index_lines line (left ++ more) root ≡ index_lines (line ++ left) more root
unfolding index_lines
index_lines-line line [] more root h = rw (append-nil line) refl
index_lines-line line (c ∷ left) more root h =
    let other : (c == 10) ≡ false = ground arith in
    rw (index_lines, other)
      (index_lines-line (line ++ c ∷ []) left more root (ground arith)
        ∙ ap (λ l. index_lines l more root) (append_assoc line (c ∷ []) left))

-- The partial line at the end of a text.
abbrev pub leftover : (line text : Bytes) → Bytes
leftover line [] = line
leftover line (c ∷ cs) = elim (c == 10) [
  | true ↦ leftover [] cs
  | false ↦ leftover (line ++ c ∷ []) cs
]

abbrev no_nul : Bytes → Bool
no_nul [] = true
no_nul (c ∷ cs) = not (c == 0) && no_nul cs

-- Each chunk has no NUL, and room behind the partial line in front of it.
abbrev pub fits : (temp_buffer : Bytes) → List Bytes → Bool
fits temp_buffer [] = true
fits temp_buffer (chunk ∷ chunks) =
    leb (length temp_buffer + length chunk + 1) max_path_size
    && no_nul chunk
    && fits (leftover [] (temp_buffer ++ chunk)) chunks

abbrev pub concat : List Bytes → Bytes
concat [] = []
concat (x ∷ xs) = x ++ concat xs

c_string-no_nul : (s : Bytes) → no_nul s ≡ true → c_string s ≡ s
unfolding c_string
c_string-no_nul [] h = refl
c_string-no_nul (c ∷ s) h = ground (arith, c_string-no_nul s)

no_newline-append :
    (line : Bytes) (c : ℕ)
    → no_newline line ≡ true
    → (c == 10) ≡ false
    → no_newline (line ++ c ∷ []) ≡ true
no_newline-append [] c h n = ground arith
no_newline-append (d ∷ line) c h n = ground (arith, no_newline-append line c)

no_newline-leftover :
    (line text : Bytes) → no_newline line ≡ true → no_newline (leftover line text) ≡ true
no_newline-leftover line [] h = h
no_newline-leftover line (c ∷ cs) h = elim (Bool-cases (c == 10)) [
  | inl n ↦ rw (leftover, n) (no_newline-leftover [] cs refl)
  | inr n ↦
      rw (leftover, n) (no_newline-leftover (line ++ c ∷ []) cs (no_newline-append line c h n))
]

partial-leftover :
    (line text left : Bytes) (root r : Node)
    → index_lines line text root ≡ some (partial left r)
    → left ≡ leftover line text
unfolding index_lines
partial-leftover line [] left root r h = cc
partial-leftover line (c ∷ cs) left root r h = elim (Bool-cases (c == 10)) [
  | inr n ↦
      rw (leftover, n) (partial-leftover (line ++ c ∷ []) cs left root r (rw (index_lines, n) at h))
  | inl n ↦ elim (Bool-cases (has_infix end_of_index line)) [
    | inl m ↦
        (let bad : some (finished root) ≡ some (partial left r) = rw (index_lines, n, m) at h in cc)
    | inr m ↦ elim (Option-cases (add_line line root)) [
      | inl e ↦ (let bad : none ≡ some (partial left r) = rw (index_lines, n, m, e) at h in cc)
      | inr (k, e) ↦
          rw (leftover, n) (partial-leftover [] cs left k r (rw (index_lines, n, m, e) at h))
    ]
  ]
]

append_chunk-fits :
    (temp_buffer chunk : Bytes)
    → length temp_buffer + length chunk + 1 ≤ max_path_size
    → no_nul chunk ≡ true
    → append_chunk temp_buffer chunk ≡ temp_buffer ++ chunk
unfolding append_chunk
append_chunk-fits temp_buffer chunk h n =
    rw
      (
        c_string-no_nul chunk n,
        take_of_length-le (max_path_size - length temp_buffer - 1) chunk (omega arith),
      )
      refl

tree_of-index_lines :
    (left more : Bytes) (root : Node)
    → no_newline left ≡ true
    → tree_of (index_lines [] (left ++ more) root) ≡ tree_of (index_lines left more root)
tree_of-index_lines left more root h = ap tree_of (index_lines-line [] left more root h)

Lines-cases :
    (o : Option Lines)
    → (o ≡ none)
      ⊎ (((r : Node) × (o ≡ some (finished r)))
          ⊎ ((left : Bytes) × (r : Node) × (o ≡ some (partial left r))))
Lines-cases none = inl refl
Lines-cases (some (finished r)) = inr (inl (r, refl))
Lines-cases (some (partial left r)) = inr (inr (left, r, refl))

-- The chunks give what the whole text gives.
pub index_helper-concat :
    (temp_buffer : Bytes) (chunks : List Bytes) (root : Node)
    → no_newline temp_buffer ≡ true
    → fits temp_buffer chunks ≡ true
    → index_helper temp_buffer chunks root
      ≡ tree_of (index_lines [] (temp_buffer ++ concat chunks) root)
unfolding index_helper
index_helper-concat temp_buffer [] root n h = sym (tree_of-index_lines temp_buffer [] root n)
index_helper-concat temp_buffer (chunk ∷ chunks) root n h =
    let text = temp_buffer ++ chunk in
    let appended : append_chunk temp_buffer chunk ≡ text =
      append_chunk-fits temp_buffer chunk (ground arith) (ground arith) in
    let whole : index_lines [] (temp_buffer ++ (chunk ++ concat chunks)) root
        ≡ continue_lines (index_lines [] text root) (concat chunks) =
      ap (λ t. index_lines [] t root) (sym (append_assoc temp_buffer chunk (concat chunks)))
      ∙ index_lines-append [] text (concat chunks) root in
    let rest : fits (leftover [] text) chunks ≡ true = ground arith in
    elim (Lines-cases (index_lines [] text root)) [
      | inl e ↦ rw (index_helper, appended, whole, e) refl
      | inr (inl (r, e)) ↦ rw (index_helper, appended, whole, e) refl
      | inr (inr (left, r, e)) ↦
          let last : left ≡ leftover [] text = partial-leftover [] text left root r e in
          let left_n : no_newline left ≡ true = rw last (no_newline-leftover [] text refl) in
          rw (index_helper, appended, whole, e)
            (index_helper-concat left chunks r left_n (rw last rest)
              ∙ tree_of-index_lines left (concat chunks) r left_n)
    ]
