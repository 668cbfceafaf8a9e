-- ===== src/Naming/Index/Lines.antt =====
-- The text of a list of paths, and the tree that `indexHelper` builds from it.
use network_file_system.Prelude.{
  ◌≡◌, refl, ◌∙◌, ap, Bool, true, false, not, ◌&&◌, Option, none, some, arith, Option-cases, inl,
  inr, List, [], ◌∷◌, ◌++◌, Bytes, starts_with,
}
use mathlib.Core.List.{append_assoc}
use network_file_system.Tries.Defs.{Node, add_path_to_trie}
use network_file_system.Naming.Index.Defs.{
  has_infix, end_of_index, is_empty, add_line, index_lines, index_helper,
}
use network_file_system.Naming.Index.Chunks.{
  tree_of, no_newline, index_lines-line, fits, concat, index_helper-concat,
}

-- `AddPathToTrie` of each path in turn.
abbrev pub add_all : List Bytes → Node → Option Node
add_all [] root = some root
add_all (p ∷ ps) root = elim (add_path_to_trie p root) [
  | some root' ↦ add_all ps root'
  | none ↦ none
]

-- A line for each path, and the marker.
abbrev pub lines_text : List Bytes → Bytes
lines_text [] = end_of_index ++ 10 ∷ []
lines_text (p ∷ ps) = (p ++ 10 ∷ []) ++ lines_text ps

-- Each path is a line, and not the marker.
abbrev pub all_clean : List Bytes → Bool
all_clean [] = true
all_clean (p ∷ ps) =
    not (is_empty p) && no_newline p && not (has_infix end_of_index p) && all_clean ps

index_lines-cons :
    (p rest : Bytes) (root : Node)
    → is_empty p ≡ false
    → no_newline p ≡ true
    → has_infix end_of_index p ≡ false
    → index_lines [] ((p ++ 10 ∷ []) ++ rest) root
      ≡ elim (add_path_to_trie p root) [ some root' ↦ index_lines [] rest root' | none ↦ none ]
unfolding index_lines add_line
index_lines-cons p rest root e n m =
    ap (λ t. index_lines [] t root) (append_assoc p (10 ∷ []) rest)
    ∙ index_lines-line [] p (10 ∷ rest) root n
    ∙ rw (index_lines, m, add_line, e) refl

index_lines-lines_text :
    (ps : List Bytes) (root : Node)
    → all_clean ps ≡ true
    → tree_of (index_lines [] (lines_text ps) root) ≡ add_all ps root
unfolding index_lines has_infix starts_with
index_lines-lines_text [] root h = refl
index_lines-lines_text (p ∷ ps) root h =
    let first =
      index_lines-cons p (lines_text ps) root (ground arith) (ground arith) (ground arith) in
    elim (Option-cases (add_path_to_trie p root)) [
      | inl e ↦ rw (lines_text, first, e, add_all) refl
      | inr (r, e) ↦ rw (lines_text, first, e, add_all) (index_lines-lines_text ps r (ground arith))
    ]

-- However the text of the paths is cut into chunks that fit the buffer, the tree is the one that
-- adding each path in turn gives.
pub index_helper-lines_text :
    (ps chunks : List Bytes) (root : Node)
    → concat chunks ≡ lines_text ps
    → all_clean ps ≡ true
    → fits [] chunks ≡ true
    → index_helper [] chunks root ≡ add_all ps root
index_helper-lines_text ps chunks root cut clean room =
    index_helper-concat [] chunks root refl room
    ∙ ap (λ t. tree_of (index_lines [] t root)) cut
    ∙ index_lines-lines_text ps root clean
