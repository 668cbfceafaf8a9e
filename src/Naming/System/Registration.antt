-- ===== src/Naming/System/Registration.antt =====
-- `register_storage_server`: the state stays valid while there is room in the table.
use network_file_system.Prelude.{
  ℕ, ◌+◌, ◌-◌, ◌<◌, ◌≡◌, refl, ◌∙◌, true, Option, none, some, Option-cases, inl, inr, arith, [],
  Bytes, codes, length-set, set, ltb, lt→ltb,
}
use network_file_system.Tries.Defs.{Node, create_node}
use network_file_system.Naming.Cache.View.{view}
use network_file_system.Naming.World.{
  StorageServerInfo, Network, World, ◌>>=◌, ◌>>◌, deref, sem_wait_lem, sem_post, put_server,
  note_event, closed, max_storage_servers,
}
use network_file_system.Naming.Index.Defs.{index_helper}
use network_file_system.Naming.Valid.{IsValid, has_root}
use network_file_system.Naming.Register.Defs.{
  find_redundant, put_index, set_backups, revive, new_server, create_backup_helper, assign_backups,
  add_server, enter, register_storage_server,
}
use network_file_system.Naming.Register.Added.{all_indexed-suc, rooted-set_last}
use network_file_system.Naming.Copy.Defs.{copy_without_client, register}
use network_file_system.Naming.System.Keeps.{
  Inv, Safe, Safe-bind, Keeps, keeps, Keeps-update, Keeps-send_good, Keeps-note_event,
}
use network_file_system.Naming.System.Commands.{Keeps-exported_name}
use network_file_system.Naming.System.Copies.{Keeps-copy_without_client}
use network_file_system.Naming.System.Valid.{StaysValid, StaysValid-Keeps, Safe-map}

module _ (net : Network) (k n r : ℕ) where
  Keeps-set_backups : (i a b : ℕ) → Keeps k n r (set_backups i a b)
  unfolding set_backups
  Keeps-set_backups i a b =
      Keeps-update k n r i (λ s. record s { backup_server1 = some a; backup_server2 = some b })
        (λ s. refl)

  Keeps-revive : (i socket port : ℕ) (ip : Bytes) → Keeps k n r (revive i socket port ip)
  unfolding revive
  Keeps-revive i socket port ip =
      Keeps-update k n r i
        (λ s. record s {
          ip = ip;
          client_info_socket = socket;
          port_client = port;
          socket = socket;
          is_up = true;
        })
        (λ s. refl)

  Keeps-create_backup_helper :
      (a b : ℕ) → Keeps k n r (create_backup_helper net (copy_without_client net) a b)
  unfolding create_backup_helper
  Keeps-create_backup_helper a b =
      search (keeps, Keeps-exported_name, Keeps-send_good, Keeps-copy_without_client) depth 30

  Keeps-assign_backups : (m : ℕ) → Keeps k n r (assign_backups net (copy_without_client net) m)
  unfolding assign_backups
  Keeps-assign_backups m =
      search (keeps, Keeps-set_backups, Keeps-create_backup_helper) depth 60 fits 4000

-- Inside of the semaphore.
waited : World → World
waited w = record w { storage_semaphore = w.storage_semaphore - 1 }

module _ (net : Network) where
  entered-Inv :
      (ss : StorageServerInfo) (w : World)
      → IsValid w
      → has_root ss ≡ true
      → w.storage_server_index < max_storage_servers
      → Inv 0 w.storage_server_index (w.storage_server_index + 1) (record w {
        storage_semaphore = w.storage_semaphore - 1;
        storage_servers = set w.storage_servers w.storage_server_index ss;
      })
  entered-Inv ss w v tree room =
      let n = w.storage_server_index in
      record {
        cached = v.cached;
        counted = refl;
        known = v.known;
        table = length-set w.storage_servers n ss ∙ v.table;
        trees = rooted-set_last n w.storage_servers ss v.trees (omega (arith, v.table, room)) tree;
        free = omega (arith, v.free);
      }

  -- The count and the semaphore at the end.
  left_IsValid :
      (n : ℕ) (w : World)
      → Inv 0 n (n + 1) w
      → IsValid
          (record w { storage_server_index = n + 1; storage_semaphore = w.storage_semaphore + 1 })
  left_IsValid n w v = record {
    cached = v.cached;
    known = all_indexed-suc n (view w.cache) v.known;
    table = v.table;
    trees = v.trees;
    free = omega (arith, v.free);
  }

  add_server-Safe :
      (ss : StorageServerInfo) (w : World)
      → IsValid w
      → has_root ss ≡ true
      → w.storage_server_index < max_storage_servers
      → Safe
          (add_server net (copy_without_client net) ss w)
          (λ a w'. IsValid w' × (w'.storage_server_index ≡ w.storage_server_index + 1))
  unfolding add_server put_server put_index sem_post Keeps
  add_server-Safe ss w v tree room =
      let n = w.storage_server_index in
      let w1 : World = record w {
        storage_semaphore = w.storage_semaphore - 1;
        storage_servers = set w.storage_servers n ss;
      } in
      let enough : ltb n max_storage_servers ≡ true = lt→ltb _ _ room in
      let backups = Keeps-assign_backups net 0 n (n + 1) n w1 (entered-Inv ss w v tree room) in
      rw (add_server, ◌>>◌, ◌>>=◌, sem_wait_lem w (omega (arith, v.free)), enough)
        (Safe-bind (assign_backups net (copy_without_client net) n w1)
          (λ a. put_index (n + 1) >> sem_post) (λ a w'. Inv 0 n (n + 1) w')
          (λ a w'. IsValid w' × (w'.storage_server_index ≡ n + 1)) backups
          (λ a w' i. (left_IsValid n w' i, refl)))

  enter-Safe :
      (socket port : ℕ) (ip : Bytes) (root : Node) (same : Option ℕ) (w : World)
      → IsValid w
      → w.storage_server_index < max_storage_servers
      → Safe (enter net (copy_without_client net) socket port ip root same w) (λ a w'. IsValid w')
  unfolding enter StaysValid
  enter-Safe socket port ip root none w v room =
      Safe-map (λ a w'. IsValid w' × (w'.storage_server_index ≡ w.storage_server_index + 1))
        (λ a w'. IsValid w')
        (add_server net (copy_without_client net) (new_server socket port ip root) w)
        (λ a w' h. h.0) (add_server-Safe (new_server socket port ip root) w v refl room)
  enter-Safe socket port ip root (some i) w v room =
      StaysValid-Keeps (revive i socket port ip) (λ k n r. Keeps-revive net k n r i socket port ip)
        w v

  posted-IsValid :
      (w : World)
      → IsValid w
      → IsValid (record w { storage_semaphore = w.storage_semaphore - 1 + 1 })
  posted-IsValid w v = record {
    cached = v.cached;
    known = v.known;
    table = v.table;
    trees = v.trees;
    free = omega (arith, v.free);
  }

  -- A registration, whatever the storage server sends, while there is room in the table: from a valid
  -- state it ends in a valid state, or has undefined behaviour; it does not wait for ever.
  pub register-Safe :
      (socket : ℕ) (ip : Bytes) (info : Option ℕ) (w : World)
      → IsValid w
      → w.storage_server_index < max_storage_servers
      → Safe (register net socket ip info w) (λ a w'. IsValid w')
  unfolding register register_storage_server sem_post StaysValid
  register-Safe socket ip none w v room =
      StaysValid-Keeps (note_event (closed socket))
        (λ k n r. Keeps-note_event k n r (closed socket)) w v
  register-Safe socket ip (some port) w v room =
      let open_ : 0 < w.storage_semaphore = omega (arith, v.free) in
      let posted : World = record w { storage_semaphore = w.storage_semaphore - 1 + 1 } in
      let waits = sem_wait_lem w open_ in
      elim (Option-cases
        (index_helper [] (net.index_chunks w.events socket) (create_node (codes ".")))) [
          | inl e ↦ rw (register_storage_server, ◌>>◌, ◌>>=◌, waits, e) tt
          | inr (root, e) ↦ elim (Option-cases (find_redundant 0 root w.storage_servers)) [
            | inl f ↦ rw (register_storage_server, ◌>>◌, ◌>>=◌, waits, e, deref, f) tt
            | inr (same, f) ↦
                rw (register_storage_server, ◌>>◌, ◌>>=◌, waits, e, deref, f)
                  (enter-Safe socket port ip root same posted (posted-IsValid w v) room)
          ]
        ]
