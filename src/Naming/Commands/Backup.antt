-- ===== src/Naming/Commands/Backup.antt =====
-- `process_client`: the command that is passed on to the two backup servers.
use network_file_system.Prelude.{ℕ, Option, none, some, ◌++◌, Bytes, codes, snprintf}
use network_file_system.Naming.World.{
  StorageServerInfo, Network, M, ◌>>=◌, ◌>>◌, return, when, buffer_size, send_good, get_server,
  is_ss_up,
}

module _ (net : Network) where
  -- `"%sb %s"`, for a backup server that there is and that answers a ping.
  unfoldable pub send_to_backup : (backup : Option ℕ) (command path : Bytes) → M (Unit {0})
  send_to_backup none command path = return tt
  send_to_backup (some b) command path = do
    up ← is_ss_up net b
    when up do
      ss ← get_server b
      send_good net ss.client_info_socket (snprintf buffer_size (command ++ codes "b " ++ path))
      return tt

  unfoldable pub send_to_backups : StorageServerInfo → (command path : Bytes) → M (Unit {0})
  send_to_backups ss command path = do
    send_to_backup ss.backup_server1 command path
    send_to_backup ss.backup_server2 command path
