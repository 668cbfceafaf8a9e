-- ===== src/Storage/Index.antt =====
-- `_indexSubFolders` and `indexSubFolder` of helper.c: the listing of the exported folder that a
-- storage server sends.
use network_file_system.Prelude.{
  Bool, true, false, [], ◌∷◌, ◌++◌, Bytes, codes, snprintf, take, length, ◌-◌, ◌==◌,
}
use network_file_system.Naming.World.{max_path_size}
use network_file_system.Naming.Index.Defs.{end_of_index}

-- What `opendir` and `readdir` find: a folder that does not open, or its entries.
mutual
  pub data Folder : Type 0 where
    unreadable : Folder
    readable : Entries → Folder

  pub data Entries : Type 0 where
    end : Entries
    file : (name : Bytes) → Entries → Entries
    folder : (name : Bytes) → Folder → Entries → Entries

abbrev pub newline : Bytes
newline = 10 ∷ []

-- A name that begins with a dot is skipped.
unfoldable pub is_hidden : Bytes → Bool
is_hidden [] = false
is_hidden (c ∷ cs) = c == b'.'

unfoldable pub base_line : Bytes → Bytes
base_line base = snprintf max_path_size (base ++ newline)

unfoldable pub entry_line : (base name : Bytes) → Bytes
entry_line base name = snprintf max_path_size (base ++ codes "/" ++ name ++ newline)

-- The path without its last byte.
unfoldable pub folder_path : Bytes → Bytes
folder_path line = take (length line - 1) line

-- `send` says whether it succeeded, and what it leaves. A failure ends the folder that it is in.
module _ {W : Type 0} (send : Bytes → W → Bool × W) where
  unfoldable mutual
    unfolding is_hidden base_line entry_line folder_path

    pub index_folder : (base : Bytes) → Folder → W → W
    index_folder base unreadable w = w
    index_folder base (readable es) w =
        let (sent, w') = send (base_line base) w in
        elim sent [ true ↦ index_entries base es w' | false ↦ w' ]

    pub index_entries : (base : Bytes) → Entries → W → W
    index_entries base end w = w
    index_entries base (file name es) w = elim (is_hidden name) [
      | true ↦ index_entries base es w
      | false ↦
          let (sent, w') = send (entry_line base name) w in
          elim sent [ true ↦ index_entries base es w' | false ↦ w' ]
    ]
    index_entries base (folder name f es) w = elim (is_hidden name) [
      | true ↦ index_entries base es w
      | false ↦
          let (sent, w') = send (entry_line base name) w in
          elim sent [
            | true ↦ index_entries base es (index_folder (folder_path (entry_line base name)) f w')
            | false ↦ w'
          ]
    ]

  -- `indexSubFolder`: the listing, and the marker behind it.
  unfoldable pub index_sub_folder : (base : Bytes) → Folder → W → W
  unfolding index_folder index_entries
  index_sub_folder base f w = (send (end_of_index ++ newline) (index_folder base f w)).1
