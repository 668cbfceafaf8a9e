-- ===== src/Tries/Search.antt =====
-- What a search finds after `AddPathToTrie`.
use network_file_system.Prelude.{
  ◌<◌, ◌≡◌, refl, ◌∙◌, Bool, true, false, ◌&&◌, ◌||◌, none, some, Option-cases, inl, inr, arith,
  List, [], ◌∷◌, Bytes, str_eq, str_eq_iff, length, lt→ltb,
}
use network_file_system.Tries.Defs.{
  Node, node, name, max_path, find_child, first_null, create_node, link_child, add_components,
  search_path_helper, parse_path, add_path_to_trie, search_path,
}
use network_file_system.Tries.Slots.{
  find_child-name, find_child-set_slot, find_child-link, set_slot_self,
}

-- The first list of components is a prefix of the second.
unfoldable pub is_prefix : List Bytes → List Bytes → Bool
is_prefix [] p = true
is_prefix (c ∷ cs) [] = false
is_prefix (c ∷ cs) (d ∷ ds) = str_eq d c && is_prefix cs ds

-- The node where the path leaves the tree has a free slot.
unfoldable pub has_room : List Bytes → Node → Bool
unfolding find_child first_null
has_room [] n = true
has_room (c ∷ cs) (node l d s) = elim (find_child c s) [
  | some (j, m) ↦ has_room cs m
  | none ↦ elim (first_null s) [ some j ↦ true | none ↦ false ]
]

pub name-add_components : (cs : List Bytes) (n : Node) → name (add_components cs n) ≡ name n
unfolding add_components link_child
name-add_components [] n = refl
name-add_components (c ∷ cs) (node l d s) =
    ground (arith, Option-cases (find_child c s), Option-cases (first_null s))

create_node-has_room : (cs : List Bytes) (c : Bytes) → has_room cs (create_node c) ≡ true
unfolding has_room create_node
create_node-has_room [] c = refl
create_node-has_room (d ∷ cs) c = refl

search-create_node :
    (c : Bytes) (q p : List Bytes)
    → (search_path_helper (create_node c) q || is_prefix q p) ≡ is_prefix q p
unfolding search_path_helper create_node is_prefix
search-create_node c [] p = refl
search-create_node c (d ∷ q) p = refl

pub search-add_components :
    (p q : List Bytes) (n : Node)
    → has_room p n ≡ true
    → search_path_helper (add_components p n) q ≡ (search_path_helper n q || is_prefix q p)
unfolding search_path_helper add_components has_room is_prefix
search-add_components [] [] n h = refl
search-add_components [] (d ∷ q) n h = ground arith
search-add_components (c ∷ cs) [] (node l d s) h = refl
search-add_components (c ∷ cs) (e ∷ es) (node l d s) h = elim (Option-cases (find_child c s)) [
  | inl miss ↦ elim (Option-cases (first_null s)) [
    | inl full ↦ ground arith
    | inr (j, free) ↦
        let new = add_components cs (create_node c) in
        ground (
          arith,
          find_child-link c e s j new free miss (name-add_components cs (create_node c)),
          search-add_components cs es (create_node c) (create_node-has_room cs c),
          search-create_node c es cs,
          str_eq_iff c e,
        )
  ]
  | inr ((j, m), hit) ↦ ground (
    arith,
    find_child-set_slot c e s j m (add_components cs m) hit
        (name-add_components cs m ∙ find_child-name c s j m hit),
    search-add_components cs es m,
    str_eq_iff c e,
  )
]

-- Where the node at which the path leaves the tree is full, nothing is added.
pub add_components_full :
    (p : List Bytes) (n : Node) → has_room p n ≡ false → add_components p n ≡ n
unfolding add_components has_room link_child
add_components_full [] n h = cc
add_components_full (c ∷ cs) (node l d s) h = elim (Option-cases (find_child c s)) [
  | inl miss ↦ ground (arith, Option-cases (first_null s))
  | inr ((j, m), hit) ↦ ground (arith, add_components_full cs m, set_slot_self c s j m hit)
]

pub search_path_lem :
    (p : Bytes) (t : Node)
    → length (parse_path p) < max_path
    → search_path t p ≡ some (search_path_helper t (parse_path p))
unfolding search_path
search_path_lem p t h = rw (lt→ltb _ _ h)

-- Adding a path of fewer than `max_path` components, whose last known node has a free slot,
-- succeeds, and a search for any path of such a length then succeeds exactly if it did before or
-- if that path is a prefix of the added one.
pub search_path-add_path_to_trie :
    (p q : Bytes) (t : Node)
    → length (parse_path p) < max_path
    → length (parse_path q) < max_path
    → has_room (parse_path p) t ≡ true
    → (t' : Node) × (add_path_to_trie p t ≡ some t')
      × (search_path t' q
          ≡ some (search_path_helper t (parse_path q) || is_prefix (parse_path q) (parse_path p)))
unfolding add_path_to_trie search_path
search_path-add_path_to_trie p q t hp hq room = (
  add_components (parse_path p) t,
  rw (lt→ltb _ _ hp),
  rw (lt→ltb _ _ hq, search-add_components (parse_path p) (parse_path q) t room),
)

-- Adding a path of fewer than `max_path` components where there is no free slot succeeds
-- without a report, and leaves the tree as it was.
pub add_path_to_trie_full :
    (p : Bytes) (t : Node)
    → length (parse_path p) < max_path
    → has_room (parse_path p) t ≡ false
    → add_path_to_trie p t ≡ some t
unfolding add_path_to_trie
add_path_to_trie_full p t hp full = rw (lt→ltb _ _ hp, add_components_full (parse_path p) t full)
