-- ===== src/Tests/Storages.antt =====
-- The theorems on the storage server at concrete commands.
use network_file_system.Prelude.{
  starts_with, ◌≡◌, refl, arith, false, some, List, [], ◌∷◌, ◌++◌, Bytes, codes, strtok, snprintf,
  drop, ℕ, set, get_elem?, none,
}
use network_file_system.Lock.Defs.{LockStruct, Access, acquire}
use network_file_system.Naming.World.{buffer_size, max_path_size}
use network_file_system.Storage.Locks.{find_lock, request_lock, IsFree}
use network_file_system.Storage.Write.{not_opened, write_file, write_file-not_opened}
use network_file_system.Storage.Listen.{create_directory, on_backup, listen_to_nm}
use network_file_system.Tries.Defs.{create_node}
use network_file_system.Naming.Index.Defs.{index_helper, has_infix}
use network_file_system.Naming.Index.Lines.{add_all}
use network_file_system.Storage.Index.{
  Folder, readable, file, end, index_sub_folder, index_folder, is_hidden,
}
use network_file_system.Storage.Listing.{folder_paths, index_helper-index_sub_folder}
use network_file_system.Storage.Protocol.{command_of, requested, listen_to_nm-command_of}

abbrev command : Bytes
command = codes "WRITE_SYNC|./a|hello"

IsFree-nil : IsFree (codes "./a") []
unfolding find_lock
IsFree-nil i l h at = cc

write_file-not_opened_example :
    (i : ℕ) × (l : LockStruct) × (locks ls' : List LockStruct) × (request_lock (codes "./a") []
      ≡ some (i, locks))
    × (write_file (λ p. false) command []
        ≡ not_opened
            (snprintf buffer_size
              (codes "Could not open file @ " ++ codes "./a" ++ codes " " ++ 10 ∷ []))
            ls')
    × (ls' ≡ set locks i l)
    × (get_elem? ls' i ≡ some l)
    × ((access : Access) → acquire access l ≡ none)
unfolding strtok find_lock
write_file-not_opened_example =
    write_file-not_opened (λ p. false) command (codes "WRITE_SYNC") (codes "./a")
      (codes "hello" ∷ []) [] refl refl IsFree-nil refl

listen_to_nm-command_of_example :
    (listen_to_nm (codes "./notes") (command_of create_directory ++ codes " " ++ codes "./notes/a")
      ≡ some (requested create_directory (codes "./notes/a")))
    × (listen_to_nm
          (codes "./notes")
          (snprintf buffer_size (command_of create_directory ++ codes "b " ++ codes "./notes/a"))
        ≡ some (
            on_backup create_directory (
              snprintf max_path_size (
                codes "./backupfolderforss/"
                ++ drop 2 (codes "./notes")
                ++ codes "/"
                ++ drop 2 (codes "./notes/a")))))
listen_to_nm-command_of_example =
    listen_to_nm-command_of create_directory (codes "./notes") (codes "./notes/a") (omega arith)
      (omega arith) (omega arith) refl

-- `notes` with one file, and one that is hidden.
abbrev notes : Folder
notes = readable (file (codes ".git") (file (codes "a") end))

-- The text, cut inside of the second path.
abbrev chunks : List Bytes
chunks =
    (codes "./notes" ++ 10 ∷ [] ++ codes "./no")
    ∷ (codes "tes/a" ++ 10 ∷ [] ++ codes "@!-Finished Indexing-!@" ++ 10 ∷ [])
    ∷ []

index_helper-index_sub_folder_example :
    index_helper [] chunks (create_node (codes "."))
    ≡ add_all (folder_paths (codes "./notes") notes) (create_node (codes "."))
unfolding index_sub_folder index_folder is_hidden folder_paths has_infix starts_with
index_helper-index_sub_folder_example =
    index_helper-index_sub_folder (codes "./notes") notes chunks (create_node (codes ".")) refl refl
      refl refl
