-- ===== src/Tries/Distinct.antt =====
-- Sibling names stay distinct under every operation of the tree.
use network_file_system.Prelude.{
  ◌≡◌, ◌∙◌, true, false, some, Option-cases, Bool-cases, inl, inr, arith, List, [], ◌∷◌, Bytes,
  length, ltb,
}
use network_file_system.Tries.Defs.{
  Node, node, childeren, max_path, max_folders, find_child, first_null, set_slot, clear_slot,
  create_node, link_child, add_components, parse_path, add_path_to_trie, search_path,
  delete_components, delete_path,
}
use network_file_system.Tries.Slots.{
  IsDistinct, find_child-name, IsDistinct-null_slots, IsDistinct-clear_slot, IsDistinct-set_slot,
  IsDistinct-link,
}
use network_file_system.Tries.Search.{name-add_components}
use network_file_system.Tries.Delete.{
  name-delete_components, IsDistinct-find_child, delete_components-inv,
}

create_node-IsDistinct : (c : Bytes) → IsDistinct (childeren (create_node c))
unfolding create_node
create_node-IsDistinct c = IsDistinct-null_slots max_folders

IsDistinct-add_components :
    (p : List Bytes) (n : Node)
    → IsDistinct (childeren n)
    → IsDistinct (childeren (add_components p n))
unfolding add_components link_child
IsDistinct-add_components [] n d = d
IsDistinct-add_components (c ∷ cs) (node l x s) d = elim (Option-cases (find_child c s)) [
  | inl miss ↦ elim (Option-cases (first_null s)) [
    | inl full ↦
        let same : add_components (c ∷ cs) (node l x s) ≡ node l x s = ground arith in rw same d
    | inr (j, free) ↦
        let new = add_components cs (create_node c) in
        let linked : add_components (c ∷ cs) (node l x s) ≡ node false x (set_slot j new s) =
          ground arith in
        rw linked (
          IsDistinct-link c s j new free miss (name-add_components cs (create_node c))
            (IsDistinct-add_components cs (create_node c) (create_node-IsDistinct c)) d)
  ]
  | inr ((j, m), hit) ↦
      let descended : add_components (c ∷ cs) (node l x s)
          ≡ node l x (set_slot j (add_components cs m) s) =
        ground arith in
      rw descended (
        IsDistinct-set_slot c s j m (add_components cs m) hit
          (name-add_components cs m ∙ find_child-name c s j m hit)
          (IsDistinct-add_components cs m (IsDistinct-find_child c s j m hit d)) d)
]

IsDistinct-delete_components :
    (c : Bytes) (p : List Bytes) (n n' : Node)
    → delete_components (c ∷ p) n ≡ some n'
    → IsDistinct (childeren n)
    → IsDistinct (childeren n')
unfolding delete_components
IsDistinct-delete_components c [] (node l x s) n' h d = elim (Option-cases (find_child c s)) [
  | inl miss ↦ ground arith
  | inr ((j, m), hit) ↦
      let n'_eq : n' ≡ node l x (clear_slot j s) = ground arith in
      rw n'_eq (IsDistinct-clear_slot j s d)
]
IsDistinct-delete_components c (c' ∷ p) (node l x s) n' h d =
    let (j, m, m', hit, gone, n'_eq) = delete_components-inv c c' p l x s n' h in
    rw n'_eq (
      IsDistinct-set_slot c s j m m' hit
        (name-delete_components (c' ∷ p) m m' gone ∙ find_child-name c s j m hit)
        (IsDistinct-delete_components c' p m m' gone (IsDistinct-find_child c s j m hit d)) d)

add_path_to_trie-IsDistinct :
    (p : Bytes) (t t' : Node)
    → IsDistinct (childeren t)
    → add_path_to_trie p t ≡ some t'
    → IsDistinct (childeren t')
unfolding add_path_to_trie
add_path_to_trie-IsDistinct p t t' d h = elim (Bool-cases (ltb (length (parse_path p)) max_path)) [
  | inl fits ↦
      let e : t' ≡ add_components (parse_path p) t = ground arith in
      rw e (IsDistinct-add_components (parse_path p) t d)
  | inr long ↦ ground arith
]

delete_found-IsDistinct :
    (p : List Bytes) (t t' : Node)
    → IsDistinct (childeren t)
    → delete_components p t ≡ some t'
    → IsDistinct (childeren t')
unfolding delete_components
delete_found-IsDistinct [] t t' d h = cc
delete_found-IsDistinct (c ∷ p) t t' d h = IsDistinct-delete_components c p t t' h d

delete_path-IsDistinct :
    (p : Bytes) (t t' : Node)
    → IsDistinct (childeren t)
    → delete_path p t ≡ some t'
    → IsDistinct (childeren t')
unfolding delete_path
delete_path-IsDistinct p t t' d h = elim (Option-cases (search_path t p)) [
  | inl long ↦ ground arith
  | inr (true, e) ↦ delete_found-IsDistinct (parse_path p) t t' d (ground arith)
  | inr (false, e) ↦ let same : t' ≡ t = ground arith in rw same d
]

-- A new node has siblings of distinct names below it, and neither adding a path to such a tree nor
-- deleting one from it ends that, whenever it is defined.
pub trie_operations-IsDistinct :
    (p q : Bytes) (t added deleted : Node)
    → IsDistinct (childeren t)
    → add_path_to_trie p t ≡ some added
    → delete_path q t ≡ some deleted
    → IsDistinct (childeren (create_node p))
      × IsDistinct (childeren added)
      × IsDistinct (childeren deleted)
trie_operations-IsDistinct p q t added deleted d a r = (
  create_node-IsDistinct p,
  add_path_to_trie-IsDistinct p t added d a,
  delete_path-IsDistinct q t deleted d r,
)
