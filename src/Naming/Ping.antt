-- ===== src/Naming/Ping.antt =====
-- What a ping of `isSSUp` leaves: everything but the `isUp` of that server, and the event.
use network_file_system.Prelude.{ℕ, ◌≡◌, refl, ◌∙◌, ◌∷◌, some, arith, length-set, get_elem?, set}
use network_file_system.Naming.World.{
  StorageServerInfo, Network, World, ok, is_ss_up, is_up_after, is_answered, pinged,
}
use network_file_system.Naming.Valid.{IsValid, rooted-set}

module _ (net : Network) where
  abbrev pub after_ping : ℕ → StorageServerInfo → World → World
  after_ping i s w = record w {
    storage_servers =
        set w.storage_servers i
          (record s { is_up = is_up_after net (net.ping w.events s.ip s.port_client) s.is_up });
    events = pinged i ∷ w.events;
  }

  pub is_ss_up_lem :
      (i : ℕ) (s : StorageServerInfo) (w : World)
      → get_elem? w.storage_servers i ≡ some s
      → is_ss_up net i w
        ≡ ok (is_answered net (net.ping w.events s.ip s.port_client)) (after_ping i s w)
  unfolding is_ss_up
  is_ss_up_lem i s w h = ground arith

  pub after_ping-IsValid :
      (i : ℕ) (s : StorageServerInfo) (w : World)
      → get_elem? w.storage_servers i ≡ some s
      → IsValid w
      → IsValid (after_ping i s w)
  after_ping-IsValid i s w h v = record {
    cached = v.cached;
    known = v.known;
    table = length-set w.storage_servers i _ ∙ v.table;
    trees = rooted-set w.storage_server_index i w.storage_servers s _ h refl ∙ v.trees;
    free = v.free;
  }
