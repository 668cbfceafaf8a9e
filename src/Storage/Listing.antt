-- ===== src/Storage/Listing.antt =====
-- The listing of the exported folder, from the storage server to the naming server's tree.
use network_file_system.Prelude.{
  ◌+◌, ◌-◌, ◌≤◌, ◌≡◌, refl, sym, ◌∙◌, ap, Bool, true, false, ◌&&◌, arith, Bool-cases, inl, inr,
  List, [], ◌∷◌, ◌++◌, map, Bytes, codes, take, take_of_length-le, length, length-append, leb,
}
use mathlib.Core.List.{append_assoc, append-nil, map-append}
use network_file_system.Tries.Defs.{Node}
use network_file_system.Tries.Display.{sent}
use network_file_system.Naming.World.{max_path_size}
use network_file_system.Naming.Index.Defs.{end_of_index, index_helper}
use network_file_system.Naming.Index.Chunks.{concat, fits}
use network_file_system.Naming.Index.Lines.{add_all, lines_text, all_clean, index_helper-lines_text}
use network_file_system.Storage.Index.{
  Folder, Entries, unreadable, readable, end, file, folder, newline, is_hidden, base_line,
  entry_line, folder_path, index_folder, index_entries, index_sub_folder,
}

abbrev pub entry_path : (base name : Bytes) → Bytes
entry_path base name = base ++ codes "/" ++ name

-- The paths of a folder and of what is in it, hidden names aside, each in front of what is below it.
unfoldable mutual
  pub folder_paths : (base : Bytes) → Folder → List Bytes
  folder_paths base unreadable = []
  folder_paths base (readable es) = base ∷ entry_paths base es

  pub entry_paths : (base : Bytes) → Entries → List Bytes
  entry_paths base end = []
  entry_paths base (file name es) = elim (is_hidden name) [
    | true ↦ entry_paths base es
    | false ↦ entry_path base name ∷ entry_paths base es
  ]
  entry_paths base (folder name f es) = elim (is_hidden name) [
    | true ↦ entry_paths base es
    | false ↦ entry_path base name ∷ folder_paths (entry_path base name) f ++ entry_paths base es
  ]

-- Each path fits the buffer with its line feed.
abbrev pub all_short : List Bytes → Bool
all_short [] = true
all_short (p ∷ ps) = leb (length p + 2) max_path_size && all_short ps

abbrev line : Bytes → Bytes
line p = p ++ newline

all_short-append : (xs ys : List Bytes) → all_short (xs ++ ys) ≡ (all_short xs && all_short ys)
all_short-append [] ys = refl
all_short-append (x ∷ xs) ys =
    rw (all_short-append xs ys) (ground (arith, Bool-cases (leb (length x + 2) max_path_size)))

base_line-short : (p : Bytes) → length p + 2 ≤ max_path_size → base_line p ≡ line p
unfolding base_line
base_line-short p h =
    take_of_length-le (max_path_size - 1) (p ++ newline) (omega (arith, length-append p newline))

entry_line-short :
    (base name : Bytes)
    → length (entry_path base name) + 2 ≤ max_path_size
    → entry_line base name ≡ line (entry_path base name)
unfolding entry_line
entry_line-short base name h =
    take_of_length-le (max_path_size - 1) (entry_path base name ++ newline)
      (omega (arith, length-append (entry_path base name) newline))

take-line : (p : Bytes) → take (length p) (p ++ newline) ≡ p
take-line [] = refl
take-line (c ∷ p) = ap (◌∷◌ c) (take-line p)

folder_path-line : (p : Bytes) → folder_path (line p) ≡ p
unfolding folder_path
folder_path-line p =
    let size : length (p ++ newline) - 1 ≡ length p = omega (arith, length-append p newline) in
    rw size (take-line p)

mutual
  unfolding index_folder index_entries folder_paths entry_paths

  index_folder-paths :
      (base : Bytes) (f : Folder) (out : List Bytes)
      → all_short (folder_paths base f) ≡ true
      → index_folder sent base f out ≡ out ++ map line (folder_paths base f)
  index_folder-paths base unreadable out h = sym (append-nil out)
  index_folder-paths base (readable es) out h =
      let whole : base_line base ≡ line base = base_line-short base (ground arith) in
      rw (index_folder, whole)
        (index_entries-paths base es (out ++ line base ∷ []) (ground arith)
          ∙ append_assoc out (line base ∷ []) (map line (entry_paths base es)))

  index_entries-paths :
      (base : Bytes) (es : Entries) (out : List Bytes)
      → all_short (entry_paths base es) ≡ true
      → index_entries sent base es out ≡ out ++ map line (entry_paths base es)
  index_entries-paths base end out h = sym (append-nil out)
  index_entries-paths base (file name es) out h = elim (Bool-cases (is_hidden name)) [
    | inl hid ↦ ground (arith, index_entries-paths base es out)
    | inr vis ↦
        let h' : (all_short (entry_path base name ∷ entry_paths base es)) ≡ true = ground arith in
        let whole = entry_line-short base name (ground arith) in
        ground (
          arith,
          whole,
          index_entries-paths base es (out ++ line (entry_path base name) ∷ []),
          append_assoc out (line (entry_path base name) ∷ []) (map line (entry_paths base es)),
        )
  ]
  index_entries-paths base (folder name f es) out h = elim (Bool-cases (is_hidden name)) [
    | inl hid ↦ ground (arith, index_entries-paths base es out)
    | inr vis ↦
        let path = entry_path base name in
        let below = folder_paths path f in
        let behind = entry_paths base es in
        let h' : all_short (path ∷ below ++ behind) ≡ true = ground arith in
        let h'' : (all_short below && all_short behind) ≡ true =
          ground (arith, all_short-append below behind) in
        let whole : entry_line base name ≡ line path = entry_line-short base name (ground arith) in
        let again : folder_path (entry_line base name) ≡ path = rw whole (folder_path-line path) in
        let out' = out ++ line path ∷ [] in
        let first : index_folder sent path f out' ≡ out' ++ map line below =
          index_folder-paths path f out' (ground arith) in
        let then_ : index_entries sent base es (out' ++ map line below)
            ≡ (out' ++ map line below) ++ map line behind =
          index_entries-paths base es (out' ++ map line below) (ground arith) in
        let left : index_entries sent base (folder name f es) out
            ≡ index_entries sent base es (out' ++ map line below) =
          ground (arith, whole, again, first) in
        let right : entry_paths base (folder name f es) ≡ path ∷ below ++ behind = ground arith in
        left
        ∙ then_
        ∙ append_assoc out' (map line below) (map line behind)
        ∙ append_assoc out (line path ∷ []) (map line below ++ map line behind)
        ∙ ap (λ ls. out ++ line path ∷ ls) (sym (map-append line below behind))
        ∙ ap (λ ps. out ++ map line ps) (sym right)
  ]

concat-append : (xs ys : List Bytes) → concat (xs ++ ys) ≡ concat xs ++ concat ys
concat-append [] ys = refl
concat-append (x ∷ xs) ys =
    ap (λ t. x ++ t) (concat-append xs ys) ∙ sym (append_assoc x (concat xs) (concat ys))

concat-lines :
    (ps : List Bytes) → concat (map line ps ++ (end_of_index ++ newline) ∷ []) ≡ lines_text ps
concat-lines [] = refl
concat-lines (p ∷ ps) = ap (λ t. (p ++ newline) ++ t) (concat-lines ps)

-- A storage server on whose connection every send succeeds lists its folder, and the naming server
-- receives the same text, cut into any chunks that fit its buffer. If every path fits the buffer,
-- is not empty, and has neither a line feed nor the marker in it, the naming server ends with the
-- tree that adding the path of the folder and of each entry that is not hidden gives, in the order
-- of the listing.
pub index_helper-index_sub_folder :
    (base : Bytes) (f : Folder) (chunks : List Bytes) (root : Node)
    → concat chunks ≡ concat (index_sub_folder sent base f [])
    → all_short (folder_paths base f) ≡ true
    → all_clean (folder_paths base f) ≡ true
    → fits [] chunks ≡ true
    → index_helper [] chunks root ≡ add_all (folder_paths base f) root
unfolding index_sub_folder
index_helper-index_sub_folder base f chunks root cut short clean room =
    let listed : index_sub_folder sent base f []
        ≡ map line (folder_paths base f) ++ (end_of_index ++ newline) ∷ [] =
      ap (λ out. out ++ (end_of_index ++ newline) ∷ []) (index_folder-paths base f [] short) in
    index_helper-lines_text (folder_paths base f) chunks root
      (cut ∙ ap concat listed ∙ concat-lines (folder_paths base f)) clean room
