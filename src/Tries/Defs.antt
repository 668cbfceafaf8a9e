-- ===== src/Tries/Defs.antt =====
-- tries.h and the operations of tries.c on the tree: create, parse, add, search and delete.
use network_file_system.Prelude.{
  ℕ, zero, suc, Bool, true, false, Option, none, some, List, [], ◌∷◌, Bytes, codes, str_eq, strtok,
  length, ltb, if◌then◌else◌,
}

abbrev pub max_folders : ℕ
max_folders = 256

abbrev pub max_path : ℕ
max_path = 256

-- `trienode`; `Slots` is its array `childeren`.
mutual
  pub data Node : Type 0 where
    node : (is_leaf : Bool) → (name : Bytes) → (childeren : Slots) → Node

  pub data Slots : Type 0 where
    end : Slots
    null : Slots → Slots
    child : Node → Slots → Slots

abbrev pub childeren : Node → Slots
childeren (node l d s) = s

abbrev pub name : Node → Bytes
name (node l d s) = d

abbrev pub is_leaf : Node → Bool
is_leaf (node l d s) = l

unfoldable pub null_slots : ℕ → Slots
null_slots zero = end
null_slots (suc n) = null (null_slots n)

unfoldable pub create_node : Bytes → Node
unfolding null_slots
create_node d = node true d (null_slots max_folders)

-- The first child with the name, and its index: the inner loop over `childeren`.
unfoldable pub find_child : Bytes → Slots → Option (ℕ × Node)
find_child c end = none
find_child c (null s) = elim (find_child c s) [ some (j, n) ↦ some (suc j, n) | none ↦ none ]
find_child c (child m s) = elim (str_eq (name m) c) [
  | true ↦ some (zero, m)
  | false ↦ elim (find_child c s) [ some (j, n) ↦ some (suc j, n) | none ↦ none ]
]

-- The index of the first null slot.
unfoldable pub first_null : Slots → Option ℕ
first_null end = none
first_null (null s) = some zero
first_null (child m s) = elim (first_null s) [ some j ↦ some (suc j) | none ↦ none ]

-- `childeren[j] = n`, and `childeren[j] = NULL`
unfoldable pub set_slot : ℕ → Node → Slots → Slots
set_slot j n end = end
set_slot zero n (null s) = child n s
set_slot zero n (child m s) = child n s
set_slot (suc j) n (null s) = null (set_slot j n s)
set_slot (suc j) n (child m s) = child m (set_slot j n s)

unfoldable pub clear_slot : ℕ → Slots → Slots
clear_slot j end = end
clear_slot zero (null s) = null s
clear_slot zero (child m s) = null s
clear_slot (suc j) (null s) = null (clear_slot j s)
clear_slot (suc j) (child m s) = child m (clear_slot j s)

unfoldable pub drop_tildes : List Bytes → List Bytes
drop_tildes [] = []
drop_tildes (t ∷ ts) = if str_eq t (codes "~") then drop_tildes ts else t ∷ drop_tildes ts

-- `ParsePath`: the components of a path, without those that are "~".
unfoldable pub parse_path : Bytes → List Bytes
unfolding drop_tildes strtok
parse_path path = drop_tildes (strtok b'/' path)

-- A new child goes to the first null slot. With no such slot it is linked nowhere, and the node
-- stays as it is.
unfoldable pub link_child : Node → Node → Node
unfolding first_null set_slot
link_child new (node l d s) = elim (first_null s) [
  | some j ↦ node false d (set_slot j new s)
  | none ↦ node l d s
]

-- The outer loop of `AddPathToTrie`. The new node is extended before it is linked, which gives
-- the same tree as the source, where it is linked first.
unfoldable pub add_components : List Bytes → Node → Node
unfolding find_child set_slot link_child create_node
add_components [] n = n
add_components (c ∷ cs) (node l d s) = elim (find_child c s) [
  | some (j, m) ↦ node l d (set_slot j (add_components cs m) s)
  | none ↦ link_child (add_components cs (create_node c)) (node l d s)
]

-- `AddPathToTrie`. `ParsePath` writes the components and a final NULL to an array of `MAX_PATH`
-- pointers: with more components it writes behind the array, which is `none`.
unfoldable pub add_path_to_trie : Bytes → Node → Option Node
unfolding parse_path add_components
add_path_to_trie path root =
    let arr = parse_path path in
    if ltb (length arr) max_path then some (add_components arr root) else none

-- `SearchPathHelperTries` here and `SearchPathHelper` of the naming server, the same code twice.
unfoldable pub search_path_helper : Node → List Bytes → Bool
unfolding find_child
search_path_helper n [] = true
search_path_helper (node l d s) (c ∷ cs) = elim (find_child c s) [
  | some (j, m) ↦ search_path_helper m cs
  | none ↦ false
]

-- `SearchPath`, with true for 1 and false for -1.
unfoldable pub search_path : Node → Bytes → Option Bool
unfolding search_path_helper parse_path
search_path root path =
    let arr = parse_path path in
    if ltb (length arr) max_path then some (search_path_helper root arr) else none

-- The walk of `DeletePath` to the last component, and the removal of that child. Where there is
-- no component, `prev` is still NULL when it is read: `none`.
unfoldable pub delete_components : List Bytes → Node → Option Node
unfolding find_child clear_slot set_slot
delete_components [] n = none
delete_components (c ∷ []) (node l d s) = elim (find_child c s) [
  | some (j, m) ↦ some (node l d (clear_slot j s))
  | none ↦ none
]
delete_components (c ∷ c' ∷ cs) (node l d s) = elim (find_child c s) [
  | some (j, m) ↦ elim (delete_components (c' ∷ cs) m) [
    | some m' ↦ some (node l d (set_slot j m' s))
    | none ↦ none
  ]
  | none ↦ none
]

-- `DeletePath`; a path that is not in the tree is reported and changes nothing.
unfoldable pub delete_path : Bytes → Node → Option Node
unfolding parse_path search_path delete_components
delete_path path root = elim (search_path root path) [
  | some true ↦ delete_components (parse_path path) root
  | some false ↦ some root
  | none ↦ none
]
