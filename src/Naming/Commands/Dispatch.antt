-- ===== src/Naming/Commands/Dispatch.antt =====
-- `process_client`: the choice of a branch for one command. The parameter `copy` is
-- `handle_copy_request`.
use network_file_system.Prelude.{
  ℕ, ◌||◌, List, ◌∷◌, Bytes, codes, str_eq, starts_with, strtok, if◌then◌else◌,
}
use network_file_system.Naming.World.{Network, M, ◌>>◌, return, when}
use network_file_system.Naming.Commands.Text.{
  Control, next_command, storage_server_not_found, is_root_path, reply,
}
use network_file_system.Naming.Commands.Create.{handle_create}
use network_file_system.Naming.Commands.Remove.{handle_remove}
use network_file_system.Naming.Commands.Lookup.{handle_list_root, handle_write, handle_lookup}

module _ (net : Network) (copy : (client : ℕ) → Bytes → M (Unit {0})) where
  -- The chain of `mkdir`, `rmdir` and the rest.
  unfoldable pub dispatch_path : (client : ℕ) (buffer command path : Bytes) → M Control
  dispatch_path client buffer command path =
      if str_eq command (codes "mkdir") || str_eq command (codes "touch")
      then handle_create net client buffer command path
      else if str_eq command (codes "rmdir") || str_eq command (codes "rm")
      then handle_remove net client buffer command path
      else handle_lookup net client path

  -- Behind the first words. `write` is handled and then falls through to the chain.
  unfoldable pub dispatch_words : (client : ℕ) (buffer : Bytes) → List Bytes → M Control
  dispatch_words client buffer (command ∷ path ∷ words) =
      if is_root_path path
      then (do reply net client storage_server_not_found; return next_command)
      else (do
        when (starts_with buffer (codes "write")) (handle_write net client (command ∷ path ∷ words))
        dispatch_path client buffer command path)
  dispatch_words client buffer words = do
    reply net client storage_server_not_found
    return next_command

  unfoldable pub handle_command : (client : ℕ) (buffer : Bytes) → M Control
  handle_command client buffer =
      if str_eq buffer (codes "ls ~") || str_eq buffer (codes "ls .")
      then handle_list_root net client
      else if starts_with buffer (codes "copy")
      then (do copy client buffer; return next_command)
      else dispatch_words client buffer (strtok b' ' buffer)
