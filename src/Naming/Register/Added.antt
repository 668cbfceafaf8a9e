-- ===== src/Naming/Register/Added.antt =====
-- What a registration leaves: a new server behind the others, or a known one with its new connection.
use network_file_system.Prelude.{
  ℕ, zero, suc, ◌+◌, ◌-◌, ◌<◌, ◌≡◌, refl, sym, ap, ◌∙◌, true, false, none, some, arith,
  Option-cases, Bool-cases, inl, inr, List, [], ◌∷◌, Bytes, codes, length, length-set, get_elem?,
  set, str_eq, str_eq→eq, ltb, ◌==◌,
}
use network_file_system.Tries.Defs.{Node, create_node}
use network_file_system.Naming.Cache.Defs.{CacheEntry}
use network_file_system.Naming.Cache.View.{view}
use network_file_system.Naming.World.{
  StorageServerInfo, Network, World, ok, M, ◌>>=◌, max_storage_servers, sem_wait_lem, sem_post,
  get_server, put_server,
}
use network_file_system.Naming.Valid.{IsValid, all_indexed, rooted, has_root, rooted-set}
use network_file_system.Naming.Index.Defs.{index_helper}
use network_file_system.Naming.Register.Defs.{
  exported, find_redundant, put_index, revive, new_server, assign_backups, add_server,
  register_storage_server,
}

pub all_indexed-suc :
    (n : ℕ) (es : List CacheEntry) → all_indexed n es ≡ true → all_indexed (n + 1) es ≡ true
all_indexed-suc n [] h = refl
all_indexed-suc n (e ∷ es) h = elim (Option-cases e.index) [
  | inl none_here ↦ ground (arith, all_indexed-suc n es)
  | inr (k, some_here) ↦ ground (arith, all_indexed-suc n es)
]

pub rooted-set_last :
    (n : ℕ) (servers : List StorageServerInfo) (s : StorageServerInfo)
    → rooted n servers ≡ true
    → n < length servers
    → has_root s ≡ true
    → rooted (n + 1) (set servers n s) ≡ true
rooted-set_last n [] s h lt r = absurd (omega arith)
rooted-set_last zero (d ∷ servers) s h lt r = ground arith
rooted-set_last (suc n) (d ∷ servers) s h lt r =
    ground (arith, rooted-set_last n servers s (ground arith) (omega arith) r)

get_elem?-set_last :
    (n : ℕ) (servers : List StorageServerInfo) (s : StorageServerInfo)
    → n < length servers
    → get_elem? (set servers n s) n ≡ some s
get_elem?-set_last n [] s lt = absurd (omega arith)
get_elem?-set_last zero (d ∷ servers) s lt = refl
get_elem?-set_last (suc n) (d ∷ servers) s lt = get_elem?-set_last n servers s (omega arith)

-- A server that is found is in the table, and exports the same name.
find_redundant-get :
    (b i : ℕ) (root : Node) (servers : List StorageServerInfo)
    → find_redundant b root servers ≡ some (some i)
    → (k : ℕ) × (s : StorageServerInfo) × (other : Node) × (i ≡ b + k)
      × (get_elem? servers k ≡ some s)
      × (s.root ≡ some other)
      × (exported other ≡ exported root)
unfolding find_redundant
find_redundant-get b i root [] h = cc
find_redundant-get b i root (s ∷ servers) h = elim (Option-cases s.root) [
  | inl e ↦
      let (k, t, r, eq, at, has, named) =
        find_redundant-get (suc b) i root servers (rw (find_redundant, e) at h) in
      (suc k, t, r, omega (arith, eq), at, has, named)
  | inr (other, e) ↦ elim (Option-cases (exported root)) [
    | inl x ↦ (let bad : none ≡ some (some i) = rw (find_redundant, e, x) at h in cc)
    | inr (new_name, x) ↦ elim (Option-cases (exported other)) [
      | inl y ↦ (let bad : none ≡ some (some i) = rw (find_redundant, e, x, y) at h in cc)
      | inr (old_name, y) ↦ elim (Bool-cases (str_eq new_name old_name)) [
        | inl same ↦
            let here : some (some b) ≡ some (some i) = rw (find_redundant, e, x, y, same) at h in
            let eq : i ≡ b + 0 = ground arith in
            (0, s, other, eq, refl, e, y ∙ ap some (sym (str_eq→eq new_name old_name same)) ∙ sym x)
        | inr apart ↦
            let (k, t, r, eq, at, has, named) =
              find_redundant-get (suc b) i root servers
                (rw (find_redundant, e, x, y, apart) at h) in
            (suc k, t, r, omega (arith, eq), at, has, named)
      ]
    ]
  ]
]

module _ (net : Network) (copy : Bytes → (src_sock dest_index : ℕ) → M (Unit {0})) where
  -- In a valid state with fewer than two servers, where the paths that a storage server sends give a
  -- tree and the loop finds no entry, the registration ends in a valid state with one server more:
  -- the new one, up, with its tree and without backups.
  pub register_storage_server-new_server :
      (socket port : ℕ) (ip : Bytes) (root : Node) (w : World)
      → IsValid w
      → w.storage_server_index < 2
      → index_helper [] (net.index_chunks w.events socket) (create_node (codes ".")) ≡ some root
      → find_redundant 0 root w.storage_servers ≡ some none
      → (w' : World) × (register_storage_server net copy socket ip (some port) w ≡ ok tt w')
        × IsValid w'
        × (w'.storage_server_index ≡ w.storage_server_index + 1)
        × (get_elem? w'.storage_servers w.storage_server_index
            ≡ some (new_server socket port ip root))
  unfolding register_storage_server add_server assign_backups put_server put_index sem_post
  register_storage_server-new_server socket port ip root w v few indexing fresh =
      let n = w.storage_server_index in
      let s = new_server socket port ip root in
      let free : 0 < w.storage_semaphore = omega (arith, v.free) in
      let w1 : World = record w { storage_semaphore = w.storage_semaphore - 1 + 1 } in
      let free' : 0 < w.storage_semaphore - 1 + 1 = omega arith in
      let within : ltb n max_storage_servers ≡ true = ground arith in
      let not_two : (n == 2) ≡ false = ground arith in
      let not_more : ltb 2 n ≡ false = ground arith in
      let room : n < length w.storage_servers = omega (arith, v.table) in
      let w' : World = record w {
        storage_servers = set w.storage_servers n s;
        storage_server_index = n + 1;
        storage_semaphore = w.storage_semaphore - 1 + 1 - 1 + 1;
      } in
      (
        w',
        rw
            (
              sem_wait_lem w free,
              ◌>>=◌,
              indexing,
              fresh,
              sem_wait_lem w1 free',
              within,
              not_two,
              not_more,
            )
            refl,
        record {
          cached = v.cached;
          known = all_indexed-suc n (view w.cache) v.known;
          table = length-set w.storage_servers n s ∙ v.table;
          trees = rooted-set_last n w.storage_servers s v.trees room refl;
          free = omega (arith, v.free);
        },
        refl,
        get_elem?-set_last n w.storage_servers s room,
      )

  -- In a valid state, where the paths that a storage server sends give a tree and the loop finds an
  -- entry, the registration ends in a valid state, with as many servers as before. The entry is that
  -- of a server with the same exported name: it gets the new connection and is up, and keeps its
  -- tree and its backups. No other entry changes.
  pub register_storage_server-revive :
      (socket port i : ℕ) (ip : Bytes) (root : Node) (w : World)
      → IsValid w
      → index_helper [] (net.index_chunks w.events socket) (create_node (codes ".")) ≡ some root
      → find_redundant 0 root w.storage_servers ≡ some (some i)
      → (w' : World) × (s : StorageServerInfo) × (other : Node) × (register_storage_server net copy
            socket ip
            (some port)
            w
          ≡ ok tt w')
        × IsValid w'
        × (w'.storage_server_index ≡ w.storage_server_index)
        × (get_elem? w.storage_servers i ≡ some s)
        × (s.root ≡ some other)
        × (exported other ≡ exported root)
        × (w'.storage_servers
            ≡ set w.storage_servers i (record s {
              ip = ip;
              client_info_socket = socket;
              port_client = port;
              socket = socket;
              is_up = true;
            }))
  unfolding register_storage_server revive get_server put_server sem_post
  register_storage_server-revive socket port i ip root w v indexing back =
      let n = w.storage_server_index in
      let (k, s, other, eq, at', has, named) = find_redundant-get 0 i root w.storage_servers back in
      let same : i ≡ k = omega (arith, eq) in
      let at : get_elem? w.storage_servers i ≡ some s =
        ap (λ j. get_elem? w.storage_servers j) same ∙ at' in
      let s' : StorageServerInfo = record s {
        ip = ip;
        client_info_socket = socket;
        port_client = port;
        socket = socket;
        is_up = true;
      } in
      let free : 0 < w.storage_semaphore = omega (arith, v.free) in
      (
        record w {
          storage_servers = set w.storage_servers i s';
          storage_semaphore = w.storage_semaphore - 1 + 1;
        },
        s,
        other,
        rw (sem_wait_lem w free, ◌>>=◌, indexing, back, at) refl,
        record {
          cached = v.cached;
          known = v.known;
          table = length-set w.storage_servers i s' ∙ v.table;
          trees = rooted-set n i w.storage_servers s s' at refl ∙ v.trees;
          free = omega (arith, v.free);
        },
        refl,
        at,
        has,
        named,
        refl,
      )
