-- ===== src/Tests/Trees.antt =====
-- The theorems on tries.c at small trees.
use network_file_system.Prelude.{
  ◌+◌, ◌≡◌, refl, ltb→lt, true, false, ◌||◌, ◌&&◌, not, some, [], ◌∷◌, ◌++◌, Bytes, codes, length,
  strtok, str_eq,
}
use network_file_system.Tries.Defs.{
  Node, Slots, node, end, null, child, childeren, create_node, parse_path, add_path_to_trie,
  search_path, search_path_helper, delete_path, find_child, first_null, null_slots, drop_tildes,
  set_slot, clear_slot, add_components, delete_components, link_child,
}
use network_file_system.Tries.Slots.{IsDistinct}
use network_file_system.Tries.Search.{is_prefix, has_room, search_path-add_path_to_trie}
use network_file_system.Tries.Delete.{search_path-delete_path}
use network_file_system.Tries.Distinct.{trie_operations-IsDistinct}
use network_file_system.Tries.Display.{
  display_trie, display_trie_network, display_trie_network-sent, sent,
}

-- `notes` with `a` and `b` below it, and room for one more.
abbrev leaf : Bytes → Slots → Node
leaf d s = node true d s

abbrev notes : Node
notes =
    node false (codes "notes")
      (child (leaf (codes "a") (null end)) (child (leaf (codes "b") end) (null end)))

abbrev tree : Node
tree = node false (codes ".") (child notes (null end))

search_path-add_path_to_trie_example :
    (t' : Node) × (add_path_to_trie (codes "notes/a/x") tree ≡ some t')
    × (search_path t' (codes "notes/a")
        ≡ some (
            search_path_helper tree (parse_path (codes "notes/a"))
            || is_prefix (parse_path (codes "notes/a")) (parse_path (codes "notes/a/x"))))
unfolding parse_path drop_tildes strtok str_eq find_child first_null has_room search_path_helper
    is_prefix
search_path-add_path_to_trie_example =
    search_path-add_path_to_trie (codes "notes/a/x") (codes "notes/a") tree (ltb→lt _ _ refl)
      (ltb→lt _ _ refl) refl

tree-IsDistinct : IsDistinct (childeren tree)
unfolding find_child str_eq
tree-IsDistinct = (refl, (refl, tt, (refl, tt, tt)), tt)

search_path-delete_path_example :
    (t' : Node) × (delete_path (codes "notes/a") tree ≡ some t')
    × (search_path t' (codes "notes/b")
        ≡ some (
            search_path_helper tree (parse_path (codes "notes/b"))
            && not (is_prefix (parse_path (codes "notes/a")) (parse_path (codes "notes/b")))))
unfolding parse_path drop_tildes strtok str_eq find_child first_null has_room search_path_helper
    is_prefix
search_path-delete_path_example =
    search_path-delete_path (codes "notes") (codes "a" ∷ []) (codes "notes/a") (codes "notes/b")
      tree refl (ltb→lt _ _ refl) (ltb→lt _ _ refl) tree-IsDistinct refl

abbrev without_a : Node
without_a =
    node false (codes ".") (
      child (node false (codes "notes") (null (child (leaf (codes "b") end) (null end))))
        (null end))

abbrev with_c : Node
with_c = node false (codes ".") (
    child
      (node false (codes "notes") (
        child (leaf (codes "a") (null end))
          (child (leaf (codes "b") end) (child (create_node (codes "c")) end))))
      (null end))

trie_operations-IsDistinct_example :
    IsDistinct (childeren (create_node (codes "notes/c")))
    × IsDistinct (childeren with_c)
    × IsDistinct (childeren without_a)
unfolding parse_path drop_tildes strtok str_eq find_child null_slots first_null set_slot clear_slot
    add_components delete_components link_child search_path_helper search_path create_node
    add_path_to_trie delete_path
trie_operations-IsDistinct_example =
    trie_operations-IsDistinct (codes "notes/c") (codes "notes/a") tree with_c without_a
      tree-IsDistinct refl refl

display_trie_network-sent_example :
    (display_trie_network sent tree [] ≡ some ([] ++ (display_trie tree).0))
    × (length (display_trie tree).0 ≡ (display_trie tree).1.0 + (display_trie tree).1.1)
unfolding display_trie
display_trie_network-sent_example = display_trie_network-sent tree [] refl
