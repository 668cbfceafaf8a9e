-- ===== src/Naming/Register/Defs.antt =====
-- `register_storage_server` and `create_backup_helper`.
use network_file_system.Prelude.{
  ℕ, suc, ◌+◌, ◌-◌, true, false, Option, none, some, List, [], ◌∷◌, ◌++◌, Bytes, codes, str_eq,
  snprintf, ltb, ◌==◌, if◌then◌else◌,
}
use network_file_system.Tries.Defs.{Node, create_node, name, childeren}
use network_file_system.Naming.World.{
  StorageServerInfo, Network, ok, M, ◌>>=◌, ◌>>◌, when, deref, buffer_size, max_storage_servers,
  send_good, get_server, put_server, get_world, note_event, closed, sem_wait, sem_post,
}
use network_file_system.Naming.Index.Defs.{index_helper}
use network_file_system.Naming.Commands.Text.{exported_name, first_slot}

-- The name of the folder that a tree exports: none where it is read through NULL.
unfoldable pub exported : Node → Option Bytes
unfolding first_slot
exported root = elim (first_slot (childeren root)) [
  | none ↦ none
  | some top ↦ elim (first_slot (childeren top)) [ none ↦ none | some n ↦ some (name n) ]
]

-- The loop over the table, from `i` on: a server with a tree that exports the same name as the new
-- one. It is none where a name is read through NULL.
unfoldable pub find_redundant : (i : ℕ) (root : Node) → List StorageServerInfo → Option (Option ℕ)
unfolding exported
find_redundant i root [] = some none
find_redundant i root (s ∷ servers) = elim s.root [
  | none ↦ find_redundant (suc i) root servers
  | some other ↦ elim (exported root) [
    | none ↦ none
    | some new_name ↦ elim (exported other) [
      | none ↦ none
      | some old_name ↦ elim (str_eq new_name old_name) [
        | true ↦ some (some i)
        | false ↦ find_redundant (suc i) root servers
      ]
    ]
  ]
]

unfoldable pub put_index : ℕ → M (Unit {0})
put_index n w = ok tt (record w { storage_server_index = n })

unfoldable pub set_backups : (i first second : ℕ) → M (Unit {0})
unfolding get_server put_server
set_backups i first second = do
  s ← get_server i
  put_server i (record s { backup_server1 = some first; backup_server2 = some second })

-- A server that comes back: its entry gets the new connection.
unfoldable pub revive : (i socket port : ℕ) (ip : Bytes) → M (Unit {0})
unfolding get_server put_server
revive i socket port ip = do
  s ← get_server i
  put_server i (record s {
    ip = ip;
    client_info_socket = socket;
    port_client = port;
    socket = socket;
    is_up = true;
  })

abbrev pub new_server : (socket port : ℕ) (ip : Bytes) (root : Node) → StorageServerInfo
new_server socket port ip root = record {
  ip = ip;
  client_info_socket = socket;
  port_client = port;
  socket = socket;
  root = some root;
  backup_server1 = none;
  backup_server2 = none;
  is_up = true;
}

-- `copy` is `handle_copy_request` without a client, from a socket to the server of an index.
module _ (net : Network) (copy : Bytes → (src_sock dest_index : ℕ) → M (Unit {0})) where
  -- The folder of the first message is spelt as in the source.
  unfoldable pub create_backup_helper : (source dest : ℕ) → M (Unit {0})
  create_backup_helper source dest = do
    to ← get_server dest
    to_name ← exported_name to.root
    send_good net to.client_info_socket
        (snprintf buffer_size (codes "mkdirb ./backfolderforss/" ++ to_name))
    src ← get_server source
    src_name ← exported_name src.root
    copy
        (snprintf buffer_size
          (codes "copy ./" ++ src_name ++ codes " ./backupfolderforss/" ++ to_name))
        src.socket dest

  -- The backups that are chosen for the server of index `n`.
  unfoldable pub assign_backups : ℕ → M (Unit {0})
  unfolding set_backups create_backup_helper
  assign_backups n =
      if n == 2
      then (do
        set_backups 0 1 2
        set_backups 1 0 2
        set_backups 2 0 1
        create_backup_helper 0 1
        create_backup_helper 0 2
        create_backup_helper 1 2
        create_backup_helper 1 0
        create_backup_helper 1 2
        create_backup_helper 2 0
        create_backup_helper 2 1)
      else when (ltb 2 n) (do
        set_backups n (n - 1) (n - 2)
        create_backup_helper n (n - 1)
        create_backup_helper n (n - 2)
        create_backup_helper (n - 1) n
        create_backup_helper (n - 2) n)

  unfoldable pub add_server : StorageServerInfo → M (Unit {0})
  unfolding assign_backups put_server
  add_server ss_info = do
    sem_wait
    w ← get_world
    let n = w.storage_server_index
    when (ltb n max_storage_servers) do put_server n ss_info; assign_backups n
    put_index (n + 1)
    sem_post

  -- An entry of the same name is taken up again, and there is a new one if there is none.
  unfoldable pub enter :
      (socket port : ℕ) (ip : Bytes) (root : Node) → (same : Option ℕ) → M (Unit {0})
  unfolding add_server revive
  enter socket port ip root (some i) = revive i socket port ip
  enter socket port ip root none = add_server (new_server socket port ip root)

  -- `info` is the port that the storage server sends of itself, none if nothing is received. What it
  -- sends then is indexed inside of the semaphore.
  unfoldable pub register_storage_server :
      (socket : ℕ) (ip : Bytes) (info : Option ℕ) → M (Unit {0})
  unfolding enter find_redundant
  register_storage_server socket ip none = note_event (closed socket)
  register_storage_server socket ip (some port) = do
    sem_wait
    w ← get_world
    root ← deref (index_helper [] (net.index_chunks w.events socket) (create_node (codes ".")))
    sem_post
    w' ← get_world
    same ← deref (find_redundant 0 root w'.storage_servers)
    enter socket port ip root same
