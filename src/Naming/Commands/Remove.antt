-- ===== src/Naming/Commands/Remove.antt =====
-- `process_client`: `rmdir` and `rm`.
use network_file_system.Prelude.{
  ℕ, length, ltb, not, Option, none, some, Bytes, starts_with, c_string, if◌then◌else◌,
}
use network_file_system.Tries.Defs.{delete_path}
use network_file_system.Naming.Cache.Defs.{delete_from_cache}
use network_file_system.Naming.World.{
  StorageServerInfo, Network, M, undefined, buffer_size, ◌>>=◌, ◌>>◌, return, when, deref,
  send_good, recv_good, get_server, put_server, get_world, put_cache, sem_post,
}
use network_file_system.Naming.Search.Defs.{search_storage_server}
use network_file_system.Naming.Commands.Text.{
  Control, next_command, client_closed, storage_server_not_found, storage_server_not_responding,
  invalid_path, could_not, is_invalid_path, reply,
}
use network_file_system.Naming.Commands.Backup.{send_to_backups}

module _ (net : Network) where
  unfoldable pub removed : (ssindex : ℕ) (command path : Bytes) → M (Unit {0})
  removed ssindex command path = do
    ss ← get_server ssindex
    send_to_backups net ss command path
    after ← get_server ssindex
    root ← deref after.root
    root' ← deref (delete_path path root)
    put_server ssindex (record after { root = some root' })

  -- Behind the answer of the storage server, none where nothing is received. The NUL behind an answer
  -- of BUFFER_SIZE bytes is written behind the response.
  unfoldable pub on_removed :
      (client ssindex : ℕ) (command path : Bytes) → Option Bytes → M (Unit {0})
  on_removed client ssindex command path none = reply net client storage_server_not_responding
  on_removed client ssindex command path (some bytes) =
      if ltb (length bytes) buffer_size
      then (do
        let response = c_string bytes
        reply net client response
        when (not (starts_with response could_not)) (removed ssindex command path))
      else undefined

  -- A response is sent on after the storage server answered; where it did not, and the client is
  -- gone too, the source frees the response and goes on.
  unfoldable pub forward_remove :
      (client ssindex : ℕ) (buffer command path : Bytes) → StorageServerInfo → M (Unit {0})
  forward_remove client ssindex buffer command path ss = do
    passed ← send_good net ss.client_info_socket buffer
    when passed do
      answer ← recv_good net ss.client_info_socket
      on_removed client ssindex command path answer

  -- `delete_from_cache`, which posts the semaphore if it does not find the key.
  unfoldable pub forget_path : Bytes → M (Unit {0})
  forget_path path = do
    w ← get_world
    let (cache, missed) = delete_from_cache path w.cache
    put_cache cache
    when missed sem_post

  unfoldable pub remove_at_server :
      (client : ℕ) (buffer command path : Bytes) → Option ℕ → M (Unit {0})
  remove_at_server client buffer command path none = reply net client storage_server_not_found
  remove_at_server client buffer command path (some ssindex) = do
    forget_path path
    ss ← get_server ssindex
    if ss.is_up
        then forward_remove client ssindex buffer command path ss
        else reply net client storage_server_not_found

  unfoldable pub handle_remove : (client : ℕ) (buffer command path : Bytes) → M Control
  handle_remove client buffer command path =
      if is_invalid_path path
      then (do
        told ← send_good net client invalid_path
        return (if told then next_command else client_closed))
      else (do
        ssindex ← search_storage_server net path
        remove_at_server client buffer command path ssindex
        return next_command)
