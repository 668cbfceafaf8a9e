-- ===== src/Naming/Index/Defs.antt =====
-- `indexHelper`: the paths that a storage server sends, put into its tree.
use network_file_system.Prelude.{
  ◌-◌, Bool, true, false, ◌||◌, Option, none, some, List, [], ◌∷◌, ◌++◌, Bytes, codes, starts_with,
  c_string, take, length, ◌==◌, if◌then◌else◌,
}
use network_file_system.Naming.World.{max_path_size}
use network_file_system.Tries.Defs.{Node, add_path_to_trie}

-- `strstr(s, needle) != NULL`
unfoldable pub has_infix : Bytes → Bytes → Bool
unfolding starts_with
has_infix needle [] = starts_with [] needle
has_infix needle (c ∷ cs) = starts_with (c ∷ cs) needle || has_infix needle cs

abbrev pub end_of_index : Bytes
end_of_index = codes "@!-Finished Indexing-!@"

abbrev pub is_empty : Bytes → Bool
is_empty [] = true
is_empty (c ∷ cs) = false

-- How the loop over the lines of `temp_buffer` ends: at the marker, or with a partial line.
pub data Lines : Type 0 where
  finished : Node → Lines
  partial : (left : Bytes) → Node → Lines

-- One complete line that is not the marker.
unfoldable pub add_line : Bytes → Node → Option Node
add_line line root = if is_empty line then some root else add_path_to_trie line root

-- The loop over the lines, where `line` is what was read of the current one; none where a path
-- overflows the array of its components.
unfoldable pub index_lines : (line text : Bytes) → Node → Option Lines
unfolding has_infix add_line
index_lines line [] root = some (partial line root)
index_lines line (c ∷ cs) root = elim (c == 10) [
  | false ↦ index_lines (line ++ c ∷ []) cs root
  | true ↦ elim (has_infix end_of_index line) [
    | true ↦ some (finished root)
    | false ↦ elim (add_line line root) [ some root' ↦ index_lines [] cs root' | none ↦ none ]
  ]
]

-- `strncat` of what was received.
unfoldable pub append_chunk : (temp_buffer chunk : Bytes) → Bytes
append_chunk temp_buffer chunk =
    temp_buffer ++ take (max_path_size - length temp_buffer - 1) (c_string chunk)

-- The loop over the chunks, up to the first receive of 0 or less.
unfoldable pub index_helper : (temp_buffer : Bytes) → List Bytes → Node → Option Node
unfolding index_lines append_chunk
index_helper temp_buffer [] root = some root
index_helper temp_buffer (chunk ∷ chunks) root =
    elim (index_lines [] (append_chunk temp_buffer chunk) root) [
      | none ↦ none
      | some (finished root') ↦ some root'
      | some (partial left root') ↦ index_helper left chunks root'
    ]
