-- ===== src/Naming/System/Keeps.antt =====
-- Functions that keep the invariant of the naming server and do not wait for ever, and the small
-- functions that do.
use network_file_system.Prelude.{
  ℕ, zero, suc, ◌≡◌, refl, ◌∙◌, Bool, true, false, Option, none, some, Option-cases, inl, inr,
  arith, List, [], ◌∷◌, Bytes, length, length-set, get_elem?, set, if◌then◌else◌,
}
use network_file_system.Naming.Cache.View
use network_file_system.Naming.Cache.View.{view}
use network_file_system.Naming.World.{
  StorageServerInfo, Network, World, Event, Outcome, ok, blocked, fault, M, ◌>>=◌, ◌>>◌, return,
  undefined, when, deref, send_good, recv_good, get_server, put_server, get_world, note, note_event,
  is_ss_up, is_up_after, is_backup_up, redundant_ss, max_storage_servers,
}
use network_file_system.Naming.Valid.{all_indexed, rooted, rooted-set, has_root}
use network_file_system.Naming.Ping.{after_ping, is_ss_up_lem}

-- `n` servers in the cache and in the count, the first `r` of the table with a tree, and the
-- semaphore at `k`.
pub record Inv (k n r : ℕ) (w : World) : Type 0 where
  pub cached : View.IsValid w.cache
  pub counted : w.storage_server_index ≡ n
  pub known : all_indexed n (view w.cache) ≡ true
  pub table : length w.storage_servers ≡ max_storage_servers
  pub trees : rooted r w.storage_servers ≡ true
  pub free : w.storage_semaphore ≡ k

-- A result that meets the condition, or undefined behaviour; but not waiting for ever.
abbrev pub Safe : {A : Type 0} → Outcome A → (A → World → Type 0) → Type 0
Safe (ok a w) P = P a w
Safe blocked P = ⊥
Safe fault P = Unit

pub Safe-bind :
    {A B : Type 0} (m : Outcome A) (f : A → M B) (P : A → World → Type 0) (Q : B → World → Type 0)
    → Safe m P
    → ((a : A) (w : World) → P a w → Safe (f a w) Q)
    → Safe (elim m [ ok a w ↦ f a w | blocked ↦ blocked | fault ↦ fault ]) Q
Safe-bind (ok a w) f P Q h k = k a w h
Safe-bind blocked f P Q h k = absurd h
Safe-bind fault f P Q h k = tt

-- The function keeps the invariant.
unfoldable pub Keeps : (k n r : ℕ) {A : Type 0} → M A → Type 0
Keeps k n r m = (w : World) → Inv k n r w → Safe (m w) (λ a w'. Inv k n r w')

module _ (k n r : ℕ) where
  pub Keeps-bind :
      {A B : Type 0} (m : M A) (f : A → M B)
      → Keeps k n r m
      → ((a : A) → Keeps k n r (f a))
      → Keeps k n r (m >>= f)
  unfolding Keeps
  Keeps-bind m f h i w v =
      Safe-bind (m w) f (λ a w'. Inv k n r w') (λ b w'. Inv k n r w') (h w v) (λ a w' v'. i a w' v')

  pub Keeps-then :
      {A B : Type 0} (m : M A) (f : M B) → Keeps k n r m → Keeps k n r f → Keeps k n r (m >> f)
  Keeps-then m f h i = Keeps-bind m (λ a. f) h (λ a. i)

  pub Keeps-return : {A : Type 0} (a : A) → Keeps k n r (return a)
  unfolding Keeps
  Keeps-return a w v = v

  pub Keeps-undefined : (A : Type 0) → Keeps k n r (undefined {A = A})
  unfolding Keeps
  Keeps-undefined A w v = tt

  pub Keeps-if :
      {A : Type 0} (b : Bool) (m f : M A)
      → Keeps k n r m
      → Keeps k n r f
      → Keeps k n r (if b then m else f)
  Keeps-if true m f h i = h
  Keeps-if false m f h i = i

  pub Keeps-when : (b : Bool) (m : M (Unit {0})) → Keeps k n r m → Keeps k n r (when b m)
  Keeps-when true m h = h
  Keeps-when false m h = Keeps-return tt

  pub Keeps-deref : {A : Type 0} (o : Option A) → Keeps k n r (deref o)
  unfolding Keeps
  Keeps-deref none w v = tt
  Keeps-deref (some a) w v = v

  -- Events are no part of the invariant.
  pub Inv-note : (e : Event) (w : World) → Inv k n r w → Inv k n r (note e w)
  Inv-note e w v = record {
    cached = v.cached;
    counted = v.counted;
    known = v.known;
    table = v.table;
    trees = v.trees;
    free = v.free;
  }

  pub Keeps-note_event : (e : Event) → Keeps k n r (note_event e)
  unfolding Keeps
  Keeps-note_event e w v = Inv-note e w v

  pub Keeps-get_world : Keeps k n r get_world
  unfolding Keeps
  Keeps-get_world w v = v

  pub Keeps-get_server : (i : ℕ) → Keeps k n r (get_server i)
  unfolding Keeps get_server
  Keeps-get_server i w v = elim (Option-cases (get_elem? w.storage_servers i)) [
    | inl e ↦ rw (get_server, e) tt
    | inr (s, e) ↦ rw (get_server, e) v
  ]

  rooted-put :
      (m i : ℕ) (servers : List StorageServerInfo) (s : StorageServerInfo)
      → has_root s ≡ true
      → rooted m servers ≡ true
      → rooted m (set servers i s) ≡ true
  rooted-put zero i servers s h e = refl
  rooted-put (suc m) i [] s h e = e
  rooted-put (suc m) zero (t ∷ servers) s h e = ground arith
  rooted-put (suc m) (suc i) (t ∷ servers) s h e = ground (arith, rooted-put m i servers s h)

  pub Inv-put :
      (i : ℕ) (s : StorageServerInfo) (w : World)
      → rooted r (set w.storage_servers i s) ≡ true
      → Inv k n r w
      → Inv k n r (record w { storage_servers = set w.storage_servers i s })
  Inv-put i s w e v = record {
    cached = v.cached;
    counted = v.counted;
    known = v.known;
    table = length-set w.storage_servers i s ∙ v.table;
    trees = e;
    free = v.free;
  }

  -- A server with a tree.
  pub Keeps-put_server :
      (i : ℕ) (s : StorageServerInfo) → has_root s ≡ true → Keeps k n r (put_server i s)
  unfolding Keeps put_server
  Keeps-put_server i s h w v = Inv-put i s w (rooted-put r i w.storage_servers s h v.trees) v

  -- A change of a server but of its tree.
  pub Keeps-update :
      (i : ℕ) (f : StorageServerInfo → StorageServerInfo)
      → ((s : StorageServerInfo) → (f s).root ≡ s.root)
      → Keeps k n r (get_server i >>= (λ s. put_server i (f s)))
  unfolding Keeps get_server put_server
  Keeps-update i f same w v = elim (Option-cases (get_elem? w.storage_servers i)) [
    | inl e ↦ rw (◌>>=◌, get_server, e) tt
    | inr (s, e) ↦
        rw (◌>>=◌, get_server, e)
          (Inv-put i (f s) w (rooted-set r i w.storage_servers s (f s) e (same s) ∙ v.trees) v)
  ]

pub Safe-ok :
    {A : Type 0} (P : A → World → Type 0) (o : Outcome A) (a : A) (w : World)
    → o ≡ ok a w
    → P a w
    → Safe o P
Safe-ok P o a w e h = rw e h

pub ruleset keeps = (
  Keeps-bind, Keeps-then, Keeps-return, Keeps-undefined, Keeps-if, Keeps-when, Keeps-deref,
  Keeps-note_event, Keeps-get_world, Keeps-get_server,
)

module _ (net : Network) (k n r : ℕ) where
  pub Keeps-send_good : (socket : ℕ) (text : Bytes) → Keeps k n r (send_good net socket text)
  unfolding Keeps send_good
  Keeps-send_good socket text w v = Inv-note k n r _ w v

  pub Keeps-recv_good : (socket : ℕ) → Keeps k n r (recv_good net socket)
  unfolding Keeps recv_good
  Keeps-recv_good socket w v = Inv-note k n r _ w v

  pub Keeps-is_ss_up : (i : ℕ) → Keeps k n r (is_ss_up net i)
  unfolding Keeps is_ss_up get_server
  Keeps-is_ss_up i w v = elim (Option-cases (get_elem? w.storage_servers i)) [
    | inl e ↦ rw (is_ss_up, ◌>>=◌, get_server, e) tt
    | inr (s, e) ↦
        let v' =
          Inv-put k n r i
            (record s { is_up = is_up_after net (net.ping w.events s.ip s.port_client) s.is_up }) w
            (rooted-set r i w.storage_servers s _ e refl ∙ v.trees) v in
        Safe-ok (λ a u. Inv k n r u) (is_ss_up net i w) _ (after_ping net i s w)
          (is_ss_up_lem net i s w e) (Inv-note k n r _ _ v')
  ]

  pub Keeps-is_backup_up : (b : Option ℕ) → Keeps k n r (is_backup_up net b)
  unfolding is_backup_up
  Keeps-is_backup_up none = Keeps-return k n r false
  Keeps-is_backup_up (some b) = Keeps-is_ss_up b

  pub Keeps-redundant_ss : (i : ℕ) → Keeps k n r (redundant_ss net i)
  unfolding redundant_ss
  Keeps-redundant_ss i = search (keeps, Keeps-is_ss_up, Keeps-is_backup_up) depth 30
