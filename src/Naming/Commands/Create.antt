-- ===== src/Naming/Commands/Create.antt =====
-- `process_client`: `mkdir` and `touch`.
use network_file_system.Prelude.{
  ℕ, length, ltb, not, Option, none, some, Bytes, starts_with, before_last, c_string, if◌then◌else◌,
}
use network_file_system.Tries.Defs.{add_path_to_trie}
use network_file_system.Naming.Cache.Defs.{add_to_cache}
use network_file_system.Naming.World.{
  StorageServerInfo, Network, M, undefined, buffer_size, ◌>>=◌, ◌>>◌, return, when, deref,
  send_good, recv_good, get_server, put_server, get_world, put_cache,
}
use network_file_system.Naming.Search.Defs.{search_storage_server}
use network_file_system.Naming.Commands.Text.{
  Control, next_command, client_closed, storage_server_not_found, storage_server_not_responding,
  invalid_path, could_not, is_invalid_path, reply,
}
use network_file_system.Naming.Commands.Backup.{send_to_backups}

-- The path up to its last '/', or the whole path if it has none.
unfoldable pub parent_path : Bytes → Bytes
unfolding before_last
parent_path path = elim (before_last b'/' path) [ some front ↦ front | none ↦ path ]

module _ (net : Network) where
  -- The storage server did what it was asked: the backups are told, and the path enters the tree.
  unfoldable pub created : (ssindex : ℕ) (command path : Bytes) → M (Unit {0})
  created ssindex command path = do
    ss ← get_server ssindex
    send_to_backups net ss command path
    after ← get_server ssindex
    root ← deref after.root
    root' ← deref (add_path_to_trie path root)
    put_server ssindex (record after { root = some root' })

  -- Behind the answer of the storage server, none where nothing is received. The NUL behind an answer
  -- of BUFFER_SIZE bytes is written behind the response.
  unfoldable pub on_created :
      (client ssindex : ℕ) (command path : Bytes) → Option Bytes → M (Unit {0})
  on_created client ssindex command path none = reply net client storage_server_not_responding
  on_created client ssindex command path (some bytes) =
      if ltb (length bytes) buffer_size
      then (do
        let response = c_string bytes
        reply net client response
        when (not (starts_with response could_not)) (created ssindex command path))
      else undefined

  -- The exchange with the storage server.
  unfoldable pub forward_create :
      (client ssindex : ℕ) (buffer command path : Bytes) → StorageServerInfo → M (Unit {0})
  forward_create client ssindex buffer command path ss = do
    passed ← send_good net ss.client_info_socket buffer
    when passed do
      answer ← recv_good net ss.client_info_socket
      on_created client ssindex command path answer

  -- The path is put into the cache before the storage server is asked.
  unfoldable pub create_at : (client : ℕ) (buffer command path : Bytes) → Option ℕ → M (Unit {0})
  create_at client buffer command path none = reply net client storage_server_not_found
  create_at client buffer command path (some ssindex) = do
    w ← get_world
    put_cache (add_to_cache path (some ssindex) w.cache)
    ss ← get_server ssindex
    if ss.is_up
        then forward_create client ssindex buffer command path ss
        else reply net client storage_server_not_found

  unfoldable pub handle_create : (client : ℕ) (buffer command path : Bytes) → M Control
  handle_create client buffer command path =
      if is_invalid_path (parent_path path)
      then (do
        told ← send_good net client invalid_path
        return (if told then next_command else client_closed))
      else (do
        ssindex ← search_storage_server net (parent_path path)
        create_at client buffer command path ssindex
        return next_command)
