-- ===== src/Naming/Commands/Lookup.antt =====
-- `process_client`: `ls` on the root, `write`, and the commands that the client takes to a storage
-- server itself.
use network_file_system.Prelude.{
  ℕ, zero, suc, Bool, false, Option, none, some, List, [], ◌∷◌, ◌++◌, Bytes, codes, str_eq, decimal,
  snprintf, get_elem?, ◌==◌, if◌then◌else◌,
}
use network_file_system.Tries.Defs.{Node}
use network_file_system.Tries.Display.{display_trie_network}
use network_file_system.Naming.World.{
  StorageServerInfo, Network, World, sent, M, ok, fault, ◌>>=◌, ◌>>◌, return, undefined, deref,
  buffer_size, send_good, get_server, get_world, redundant_ss, note,
}
use network_file_system.Naming.Search.Defs.{search_storage_server}
use network_file_system.Naming.Commands.Text.{
  Control, next_command, storage_server_not_found, exported_folder, exported_name, reply,
}

module _ (net : Network) where
  -- `send` on the connection of a client, without `send_good`.
  abbrev pub send_line : (client : ℕ) → Bytes → World → Bool × World
  send_line client line w = (net.send_succeeds w.events client line, note (sent client line) w)

  -- `DisplayTrieNetwork` of a folder that may be NULL.
  unfoldable pub display_folder : (client : ℕ) → Option Node → M (Unit {0})
  display_folder client none w = ok tt w
  display_folder client (some n) w = elim (display_trie_network (send_line client) n w) [
    | some w' ↦ ok tt w'
    | none ↦ fault
  ]

  -- The loop over the storage servers at `i`, with `left` to go.
  unfoldable pub list_roots : (left i client : ℕ) → M (Unit {0})
  list_roots zero i client = return tt
  list_roots (suc n) i client = do
    ss ← get_server i
    folder ← exported_folder ss.root
    display_folder client folder
    list_roots n (suc i) client

  unfoldable pub handle_list_root : (client : ℕ) → M Control
  handle_list_root client = do
    w ← get_world
    list_roots w.storage_server_index 0 client
    send_good net client (codes "@#!@#over@$")
    return next_command

  -- `send_buffer` with the NUL that is sent at its end.
  unfoldable pub write_grant : (flag : Bytes) → StorageServerInfo → Bytes
  write_grant flag ss =
      (if str_eq flag (codes "-s")
        then codes "PATH_OK_SYNC"
        else if str_eq flag (codes "-a")
        then codes "PATH_OK_ASYNC"
        else [])
      ++ snprintf buffer_size (codes "|" ++ ss.ip ++ codes "|" ++ decimal ss.port_client)
      ++ 0 ∷ []

  unfoldable pub write_at : (client : ℕ) (flag : Bytes) → Option ℕ → M (Unit {0})
  write_at client flag none = reply net client storage_server_not_found
  write_at client flag (some ssindex) = do
    ss ← get_server ssindex
    if ss.is_up
        then reply net client (write_grant flag ss)
        else reply net client storage_server_not_found

  -- The branch of `write`. A command with no third word passes NULL on as the path.
  unfoldable pub handle_write : (client : ℕ) (words : List Bytes) → M (Unit {0})
  handle_write client words = do
    flag ← deref (get_elem? words 1)
    path ← deref (get_elem? words 2)
    ssindex ← search_storage_server net path
    write_at client flag ssindex

  unfoldable pub server_address : StorageServerInfo → Bytes
  server_address ss =
      snprintf buffer_size (ss.ip ++ codes "," ++ decimal ss.port_client ++ codes " ")

  -- The message that sends a client to a backup server. An index of -1 is read in front of the
  -- table.
  unfoldable pub send_redundancy : (client : ℕ) → Option ℕ → M (Unit {0})
  send_redundancy client none = undefined
  send_redundancy client (some b) = do
    ss ← get_server b
    folder ← exported_name ss.root
    reply net client (
        snprintf buffer_size
          (codes "Backup " ++ ss.ip ++ codes "," ++ decimal ss.port_client ++ codes "," ++ folder))

  abbrev is_index : Option ℕ → ℕ → Bool
  is_index none i = false
  is_index (some j) i = j == i

  -- The reply for the server that was found, or for the backup that stands in for it.
  unfoldable pub reply_at : (client ssindex : ℕ) → (index : Option ℕ) → M (Unit {0})
  reply_at client ssindex index =
      if is_index index ssindex
      then (do ss ← get_server ssindex; reply net client (server_address ss))
      else send_redundancy client index

  -- The branch of all other commands. Without a server, port and address are read in front of the
  -- table, before the index is tested.
  unfoldable pub lookup_at : (client : ℕ) → Option ℕ → M (Unit {0})
  lookup_at client none = undefined
  lookup_at client (some ssindex) = do
    ss ← get_server ssindex
    index ← (if ss.is_up then return (some ssindex) else redundant_ss net ssindex)
    reply_at client ssindex index

  unfoldable pub handle_lookup : (client : ℕ) (path : Bytes) → M Control
  handle_lookup client path = do
    ssindex ← search_storage_server net path
    lookup_at client ssindex
    return next_command
