-- ===== src/Naming/System/Copies.antt =====
-- The copies: the invariant.
use network_file_system.Prelude.{
  ℕ, ◌+◌, ◌-◌, arith, codes, [], Option-cases, inl, inr, refl, Option, none, some, Bytes,
}
use network_file_system.Tries.Defs.{Node, create_node}
use network_file_system.Naming.World.{
  StorageServerInfo, Network, World, put_server, ◌>>=◌, ◌>>◌, sem_wait_lem, sem_post,
}
use network_file_system.Naming.Index.Defs.{index_helper}
use network_file_system.Naming.Copy.Defs.{
  copy_at, forward_copy, on_copied, finish_copy, reindex, index_paths, send_backup,
  copy_without_client,
}
use network_file_system.Naming.System.Keeps.{
  Inv, Keeps, keeps, Keeps-return, Keeps-put_server, Keeps-send_good, Keeps-recv_good,
  Keeps-is_backup_up,
}
use network_file_system.Naming.System.Commands.{Keeps-exported_name, Keeps-reply}

module _ (net : Network) (k n r : ℕ) where
  has_tree :
      (i : ℕ) (s : StorageServerInfo) (t : Node)
      → Keeps k n r (put_server i (record s { root = some t }))
  has_tree i s t = Keeps-put_server k n r i (record s { root = some t }) refl

  Keeps-send_backup :
      (src dest : Bytes) (dest_sock : ℕ) (b : Option ℕ)
      → Keeps k n r (send_backup net src dest dest_sock b)
  unfolding send_backup
  Keeps-send_backup src dest dest_sock none = Keeps-return k n r tt
  Keeps-send_backup src dest dest_sock (some b) =
      search (keeps, Keeps-is_backup_up, Keeps-exported_name, Keeps-send_good) depth 30

  pub Keeps-copy_without_client :
      (buffer : Bytes) (src_sock i : ℕ) → Keeps k n r (copy_without_client net buffer src_sock i)
  unfolding copy_without_client
  Keeps-copy_without_client buffer src_sock i =
      search (keeps, Keeps-send_good, Keeps-recv_good) depth 30

-- What is indexed inside of the semaphore, which is at 1.
module _ (net : Network) (n r : ℕ) where
  indexed-Inv :
      (w : World)
      → Inv 1 n r w
      → Inv 1 n r (record w { storage_semaphore = w.storage_semaphore - 1 + 1 })
  indexed-Inv w v = record {
    cached = v.cached;
    counted = v.counted;
    known = v.known;
    table = v.table;
    trees = v.trees;
    free = omega (arith, v.free);
  }

  Keeps-index_paths : (dest_sock : ℕ) → Keeps 1 n r (index_paths net dest_sock)
  unfolding Keeps index_paths sem_post
  Keeps-index_paths dest_sock w v =
      let waits = sem_wait_lem w (omega (arith, v.free)) in
      elim (Option-cases
        (index_helper [] (net.index_chunks w.events dest_sock) (create_node (codes ".")))) [
          | inl e ↦ rw (index_paths, ◌>>◌, ◌>>=◌, waits, e) tt
          | inr (root, e) ↦ rw (index_paths, ◌>>◌, ◌>>=◌, waits, e) (indexed-Inv w v)
        ]

  Keeps-reindex : (dest_sock i : ℕ) → Keeps 1 n r (reindex net dest_sock i)
  unfolding reindex
  Keeps-reindex dest_sock i =
      search (keeps, Keeps-send_good net 1 n r, Keeps-index_paths, has_tree net 1 n r) depth 30

  Keeps-finish_copy :
      (src dest : Bytes) (dest_sock i : ℕ) → Keeps 1 n r (finish_copy net src dest dest_sock i)
  unfolding finish_copy
  Keeps-finish_copy src dest dest_sock i =
      search (keeps, Keeps-reindex, Keeps-send_backup net 1 n r) depth 30

  Keeps-on_copied :
      (client : ℕ) (src dest : Bytes) (dest_sock i : ℕ) (answer : Option Bytes)
      → Keeps 1 n r (on_copied net client src dest dest_sock i answer)
  unfolding on_copied
  Keeps-on_copied client src dest dest_sock i none = Keeps-return 1 n r tt
  Keeps-on_copied client src dest dest_sock i (some bytes) =
      search (keeps, Keeps-send_good, Keeps-finish_copy) depth 30

  Keeps-forward_copy :
      (client : ℕ) (src dest message : Bytes) (src_sock dest_sock i : ℕ)
      → Keeps 1 n r (forward_copy net client src dest message src_sock dest_sock i)
  unfolding forward_copy
  Keeps-forward_copy client src dest message src_sock dest_sock i =
      search (keeps, Keeps-send_good, Keeps-recv_good, Keeps-on_copied) depth 30

  pub Keeps-copy_at :
      (client : ℕ) (buffer src dest : Bytes) (from to : Option ℕ)
      → Keeps 1 n r (copy_at net client buffer src dest from to)
  unfolding copy_at
  Keeps-copy_at client buffer src dest none to = search (keeps, Keeps-reply) depth 30
  Keeps-copy_at client buffer src dest (some i) none = search (keeps, Keeps-reply) depth 30
  Keeps-copy_at client buffer src dest (some i) (some j) =
      search (keeps, Keeps-reply, Keeps-forward_copy) depth 30
