-- ===== src/Naming/Async/Defs.antt =====
-- `listen_async`.
use network_file_system.Prelude.{
  Bool, ◌&&◌, ℕ, Option, none, some, List, ◌++◌, Bytes, codes, starts_with, strtok, c_string,
  snprintf, get_elem?, if◌then◌else◌,
}
use network_file_system.Naming.World.{
  Event, closed, Network, M, ◌>>=◌, ◌>>◌, return, when, deref, note_event, buffer_size, send_good,
  recv_good, get_server, get_world, is_backup_up,
}
use network_file_system.Naming.Search.Defs.{search_storage_server}
use network_file_system.Naming.Commands.Text.{exported_name}
use network_file_system.Naming.Copy.Defs.{copy_without_client}

-- The command that copies a file to a backup server.
unfoldable pub lcopy_message : (path folder : Bytes) → Bytes
lcopy_message path folder =
    snprintf buffer_size (codes "lcopy " ++ path ++ codes " ./backupfolderforss/" ++ folder)

unfoldable pub ack_message : (path : Bytes) → Bytes
ack_message path = snprintf buffer_size (codes "ACK: Backup completed for " ++ path)

-- What the calls of the host say: the socket that is made, none below 0, whether a text is an
-- address, and whether the connection to an address and a port, in a text, is made.
pub record Sockets : Type 0 where
  pub socket : List Event → Option ℕ
  pub inet_pton : Bytes → Bool
  pub connect : List Event → (ip port : Bytes) → Bool

-- Behind `socket`.
unfoldable pub connect_socket :
    (host : Sockets) (ip port : Bytes) → List Event → Option ℕ → M (Option ℕ)
connect_socket host ip port events none = return none
connect_socket host ip port events (some sock) =
    if host.inet_pton ip && host.connect events ip port
    then return (some sock)
    else (do note_event (closed sock); return none)

-- `create_client_socket`: none for -1. The port is a text, as it stands in front of `atoi`.
unfoldable pub create_client_socket : Sockets → (ip port : Bytes) → M (Option ℕ)
unfolding connect_socket
create_client_socket host ip port = do
  w ← get_world
  connect_socket host ip port w.events (host.socket w.events)

module _ (net : Network) (host : Sockets) where
  unfoldable pub back_up : (path : Bytes) (ssindex : ℕ) → (index : Option ℕ) → M (Unit {0})
  unfolding lcopy_message
  back_up path ssindex none = return tt
  back_up path ssindex (some b) = do
    up ← is_backup_up net (some b)
    when up do
      bs ← get_server b
      folder ← exported_name bs.root
      ss ← get_server ssindex
      copy_without_client net (lcopy_message path folder) ss.socket b

  -- A path without a server is looked up in front of the table.
  unfoldable pub back_up_path : (path : Bytes) → M (Unit {0})
  unfolding back_up
  back_up_path path = do
    found ← search_storage_server net path
    ssindex ← deref found
    ss ← get_server ssindex
    back_up path ssindex ss.backup_server1
    back_up path ssindex ss.backup_server2

  unfoldable pub send_ack : (path : Bytes) → Option ℕ → M (Unit {0})
  unfolding ack_message
  send_ack path none = return tt
  send_ack path (some sock) = do send_good net sock (ack_message path); note_event (closed sock)

  unfoldable pub send_client_ack : (path ip port : Bytes) → M (Unit {0})
  unfolding send_ack create_client_socket
  send_client_ack path ip port = do
    client_sock ← create_client_socket host ip port
    send_ack path client_sock

  -- The words of the message.
  unfoldable pub on_writeasync : List Bytes → M (Unit {0})
  unfolding back_up_path send_client_ack
  on_writeasync words = do
    path ← deref (get_elem? words 1)
    back_up_path path
    ip ← deref (get_elem? words 2)
    port ← deref (get_elem? words 3)
    send_client_ack path ip port

  -- What a storage server sent.
  unfoldable pub on_message : (client : ℕ) → Option Bytes → M (Unit {0})
  unfolding on_writeasync
  on_message client none = note_event (closed client)
  on_message client (some bytes) =
      let buffer = c_string bytes in
      if starts_with buffer (codes "WRITE_SYNC")
      then (do path ← deref (get_elem? (strtok b'|' buffer) 1); back_up_path path)
      else if starts_with buffer (codes "writeasync")
      then on_writeasync (strtok b' ' buffer)
      else return tt

  -- A connection of a storage server.
  unfoldable pub listen_async : (client : ℕ) → M (Unit {0})
  unfolding on_message
  listen_async client = do message ← recv_good net client; on_message client message
