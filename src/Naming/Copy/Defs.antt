-- ===== src/Naming/Copy/Defs.antt =====
-- `handle_copy_request`, with a client and without one.
use network_file_system.Prelude.{
  ℕ, not, ◌||◌, Option, none, some, List, [], ◌∷◌, ◌++◌, Bytes, codes, starts_with, strtok,
  before_last, c_string, snprintf, decimal, drop, length, ltb, ◌+◌, ◌==◌, if◌then◌else◌,
}
use network_file_system.Tries.Defs.{Node, create_node}
use network_file_system.Naming.World.{
  StorageServerInfo, Network, M, ◌>>=◌, ◌>>◌, return, when, deref, buffer_size, send_good,
  recv_good, get_server, put_server, get_world, is_backup_up, note_event, received, closed,
  sem_wait, sem_post,
}
use network_file_system.Naming.Index.Defs.{index_helper}
use network_file_system.Naming.Search.Defs.{search_storage_server}
use network_file_system.Naming.Commands.Text.{
  Control, next_command, client_closed, storage_server_not_found, exported_name, is_root_path,
  reply,
}
use network_file_system.Naming.Commands.Dispatch.{handle_command}
use network_file_system.Naming.Register.Defs.{register_storage_server}

-- A text in `buffer`, which overflows where there is no room for the NUL.
unfoldable pub in_buffer : Bytes → Option Bytes
in_buffer text = if ltb (length text) buffer_size then some text else none

-- `ss_info`
unfoldable pub ss_info : StorageServerInfo → Bytes
ss_info ss = snprintf buffer_size (codes " " ++ ss.ip ++ codes " " ++ decimal ss.port_client)

-- The `memmove` and `memcpy` that put another word in place of the first four bytes.
abbrev pub replace_word : (word buffer : Bytes) → Bytes
replace_word word buffer = word ++ drop 4 buffer

unfoldable pub copysame_message : (buffer : Bytes) → Option Bytes
unfolding in_buffer
copysame_message buffer = in_buffer (replace_word (codes "copysame") buffer)

unfoldable pub copydifferent_message : (buffer : Bytes) → StorageServerInfo → Option Bytes
unfolding in_buffer ss_info
copydifferent_message buffer to =
    in_buffer (replace_word (codes "copydifferent") buffer ++ ss_info to)

-- What is sent where there is no client. A buffer of fewer than four bytes is read behind its end.
unfoldable pub bypass_message : (buffer : Bytes) → StorageServerInfo → Option Bytes
unfolding in_buffer ss_info copydifferent_message
bypass_message buffer to =
    if starts_with buffer (codes "lcopy")
    then in_buffer (buffer ++ ss_info to)
    else if ltb (length buffer) 4
    then none
    else copydifferent_message buffer to

abbrev pub source_missing : Bytes
source_missing = codes "Invalid request. Source or destination path missing."

abbrev pub invalid_copy_path : Bytes
invalid_copy_path = codes "Invalid source or destination path."

-- The last component of a path.
unfoldable pub last_name : Bytes → Bytes
last_name path = elim (before_last b'/' path) [
  | some front ↦ drop (length front + 1) path
  | none ↦ path
]

-- The copy at the destination, and its place at a backup server.
unfoldable pub copied_path : (src dest : Bytes) → Bytes
unfolding last_name
copied_path src dest = dest ++ codes "/" ++ last_name src

unfoldable pub backup_place : (folder dest : Bytes) → Bytes
backup_place folder dest = codes "./backupfolderforss/" ++ folder ++ codes "/" ++ drop 2 dest

-- The message that makes the destination pass the copy on to one of its backup servers. `dest + 2`
-- is read behind the end of a path of one byte.
unfoldable pub backup_message : (src dest folder : Bytes) → StorageServerInfo → Option Bytes
unfolding copied_path backup_place
backup_message src dest folder bs =
    if ltb (length dest) 2
    then none
    else some (
        snprintf buffer_size (
          codes "copydifferentb "
          ++ copied_path src dest
          ++ codes " "
          ++ backup_place folder dest
          ++ codes " "
          ++ bs.ip
          ++ codes " "
          ++ decimal bs.port_client))

module _ (net : Network) where
  -- `indexHelper`, inside of the semaphore, on a new root.
  unfoldable pub index_paths : (dest_sock : ℕ) → M Node
  unfolding index_helper
  index_paths dest_sock = do
    sem_wait
    w ← get_world
    root ← deref (index_helper [] (net.index_chunks w.events dest_sock) (create_node (codes ".")))
    sem_post
    return root

  -- `reindex`, and the tree of the paths that come back.
  unfoldable pub reindex : (dest_sock dest_index : ℕ) → M (Unit {0})
  unfolding index_paths
  reindex dest_sock dest_index = do
    send_good net dest_sock (codes "reindex")
    root ← index_paths dest_sock
    ss ← get_server dest_index
    put_server dest_index (record ss { root = some root })

  unfoldable pub send_backup :
      (src dest : Bytes) (dest_sock : ℕ) → (index : Option ℕ) → M (Unit {0})
  unfolding backup_message
  send_backup src dest dest_sock none = return tt
  send_backup src dest dest_sock (some b) = do
    up ← is_backup_up net (some b)
    when up do
      bs ← get_server b
      folder ← exported_name bs.root
      message ← deref (backup_message src dest folder bs)
      send_good net dest_sock message
      return tt

  -- Behind the reply to the client.
  unfoldable pub finish_copy : (src dest : Bytes) (dest_sock dest_index : ℕ) → M (Unit {0})
  unfolding reindex send_backup
  finish_copy src dest dest_sock dest_index = do
    reindex dest_sock dest_index
    ss ← get_server dest_index
    send_backup src dest dest_sock ss.backup_server1
    send_backup src dest dest_sock ss.backup_server2

  -- Behind the answer of the storage server of the source.
  unfoldable pub on_copied :
      (client : ℕ) (src dest : Bytes) (dest_sock dest_index : ℕ) → Option Bytes → M (Unit {0})
  unfolding finish_copy
  on_copied client src dest dest_sock dest_index none = return tt
  on_copied client src dest dest_sock dest_index (some bytes) = do
    told ← send_good net client (c_string bytes)
    when told (finish_copy src dest dest_sock dest_index)

  -- The exchange with the storage server of the source.
  unfoldable pub forward_copy :
      (client : ℕ) (src dest message : Bytes) (src_sock dest_sock dest_index : ℕ) → M (Unit {0})
  unfolding on_copied
  forward_copy client src dest message src_sock dest_sock dest_index = do
    passed ← send_good net src_sock message
    when passed
        do answer ← recv_good net src_sock; on_copied client src dest dest_sock dest_index answer

  abbrev pub copy_not_found : (client : ℕ) → M (Unit {0})
  copy_not_found client = reply net client (storage_server_not_found ++ 0 ∷ [])

  -- Behind the two searches.
  unfoldable pub copy_at :
      (client : ℕ) (buffer src dest : Bytes) (src_index dest_index : Option ℕ) → M (Unit {0})
  unfolding forward_copy copysame_message copydifferent_message
  copy_at client buffer src dest (some i) (some j) = do
    from ← get_server i
    to ← get_server j
    if not from.is_up || not to.is_up then copy_not_found client else (do
      message ← deref (if i == j then copysame_message buffer else copydifferent_message buffer to)
      forward_copy client src dest message from.client_info_socket to.client_info_socket j)
  copy_at client buffer src dest (some i) none = copy_not_found client
  copy_at client buffer src dest none dest_index = copy_not_found client

  unfoldable pub copy_paths : (client : ℕ) (buffer : Bytes) → List Bytes → M (Unit {0})
  unfolding copy_at
  copy_paths client buffer (command ∷ src ∷ dest ∷ words) =
      if is_root_path src || is_root_path dest then reply net client invalid_copy_path else (do
        src_index ← search_storage_server net src
        dest_index ← search_storage_server net dest
        copy_at client buffer src dest src_index dest_index)
  copy_paths client buffer words = reply net client source_missing

  -- For a client.
  unfoldable pub handle_copy_request : (client : ℕ) (buffer : Bytes) → M (Unit {0})
  unfolding copy_paths
  handle_copy_request client buffer =
      when (starts_with buffer (codes "copy")) (copy_paths client buffer (strtok b' ' buffer))

  -- Without a client, from a socket to the server of an index. The response is printed.
  unfoldable pub copy_without_client : (buffer : Bytes) (src_sock dest_index : ℕ) → M (Unit {0})
  unfolding bypass_message
  copy_without_client buffer src_sock dest_index = do
    to ← get_server dest_index
    message ← deref (bypass_message buffer to)
    sent ← send_good net src_sock message
    when sent do recv_good net src_sock; return tt

  -- `process_client` for one command, and the registration, with these copies.
  unfoldable pub process_command : (client : ℕ) (buffer : Bytes) → M Control
  unfolding handle_copy_request
  process_command = handle_command net handle_copy_request

  unfoldable pub after_command : Control → (rest : M (Unit {0})) → M (Unit {0})
  after_command next_command rest = rest
  after_command client_closed rest = return tt

  -- `process_client` on the messages of a client, up to the first receive of 0 or less.
  unfoldable pub process_client : (client : ℕ) → List Bytes → M (Unit {0})
  unfolding process_command after_command
  process_client client [] = do note_event (received client); note_event (closed client)
  process_client client (buffer ∷ messages) = do
    note_event (received client)
    c ← process_command client buffer
    after_command c (process_client client messages)

  unfoldable pub register : (socket : ℕ) (ip : Bytes) (info : Option ℕ) → M (Unit {0})
  unfolding copy_without_client
  register = register_storage_server net copy_without_client
