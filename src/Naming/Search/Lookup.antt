-- ===== src/Naming/Search/Lookup.antt =====
-- What `search_storage_server` answers, and the state that it leaves.
use network_file_system.Prelude.{
  ℕ, zero, suc, ◌+◌, ◌-◌, ◌<◌, ◌≡◌, refl, sym, ◌∙◌, ap, ◌⊎◌, inl, inr, Bool, true, false, Option,
  none, some, Option-cases, Bool-cases, arith, List, [], ◌∷◌, Bytes, length, get_elem?, get_or,
  take, lt→ltb, ltb,
}
use network_file_system.Tries.Defs.{max_path, parse_path, search_path_helper}
use network_file_system.Naming.Cache.Defs.{
  CacheEntry, LruCache, empty_entry, search_cache, add_to_cache, move_to_back,
}
use network_file_system.Naming.Cache.View.{
  view, position, touch, push_back, length-view, search_cache-position, position-lt, get_or-take,
  move_to_back-view, add_to_cache-view,
}
use network_file_system.Naming.World.{
  StorageServerInfo, Network, World, ok, ◌>>=◌, sem_wait_lem, sem_post,
}
use network_file_system.Naming.Valid.{
  IsValid, all_indexed-get_or, touch-all_indexed, push_back-all_indexed, rooted, rooted-get,
  has_root,
}
use network_file_system.Naming.Ping.{after_ping, is_ss_up_lem, after_ping-IsValid}
use network_file_system.Naming.Search.Defs.{
  search_root, search_servers, search_in_tries, search_hit, search_miss, search_storage_server,
}

-- The server has the path in its tree.
abbrev pub Serves : List Bytes → StorageServerInfo → Type 0
Serves path s = search_root s.root path ≡ some true

abbrev pub Lacks : List Bytes → StorageServerInfo → Type 0
Lacks path s = search_root s.root path ≡ some false

-- The first of the servers from number `base` on that has the path, or none if all lack it.
pub data First (path : List Bytes) : (base : ℕ) → List StorageServerInfo → Option ℕ → Type 0 where
  end : {i : ℕ} → First path i [] none
  here :
      {i : ℕ} {s : StorageServerInfo} {servers : List StorageServerInfo}
      → Serves path s
      → First path i (s ∷ servers) (some i)
  past :
      {i : ℕ} {s : StorageServerInfo} {servers : List StorageServerInfo} {r : Option ℕ}
      → Lacks path s
      → First path (suc i) servers r
      → First path i (s ∷ servers) r

root-cases :
    (s : StorageServerInfo) (path : List Bytes) → has_root s ≡ true → Serves path s ⊎ Lacks path s
unfolding search_root
root-cases s path h = elim (Option-cases s.root) [
  | inl e ↦ ground arith
  | inr (r, e) ↦ elim (Bool-cases (search_path_helper r path)) [
    | inl hit ↦ inl (rw (e, hit))
    | inr miss ↦ inr (rw (e, miss))
  ]
]

-- The loop never reads through NULL where every server has a tree, and finds the first.
search_servers_lem :
    (n i : ℕ) (path : List Bytes) (servers : List StorageServerInfo)
    → rooted n servers ≡ true
    → (r : Option ℕ) × (search_servers n i path servers ≡ some r)
      × First path i (take n servers) r
      × ((f : ℕ) → r ≡ some f → f < i + n)
unfolding search_servers
search_servers_lem zero i path servers h = (none, refl, First.end, λ f e. cc)
search_servers_lem (suc n) i path [] h = cc
search_servers_lem (suc n) i path (s ∷ servers) h = elim (root-cases s path (ground arith)) [
  | inl hit ↦ (some i, rw (hit, search_servers), First.here hit, λ f e. ground arith)
  | inr miss ↦
      let (r, found, first, bound) = search_servers_lem n (suc i) path servers (ground arith) in
      (r, rw (miss, search_servers) found, First.past miss first, λ f e. omega (arith, bound f e))
]

-- The cache after a miss.
abbrev pub remember : Bytes → Option ℕ → List CacheEntry → List CacheEntry
remember p none v = v
remember p (some f) v = push_back p (some f) v

abbrev after_hit : ℕ → World → World
after_hit i w = record w {
  cache = move_to_back i w.cache;
  storage_semaphore = w.storage_semaphore - 1 + 1;
}

abbrev after_miss : Bytes → ℕ → World → World
after_miss p f w = record w {
  cache = add_to_cache p (some f) w.cache;
  storage_semaphore = w.storage_semaphore - 1 + 1;
}

module _ (net : Network) where
  search_hit_lem :
      (p : Bytes) (w : World) (i k k' : ℕ) (s : StorageServerInfo)
      → 0 < w.storage_semaphore
      → search_cache p w.cache ≡ some i
      → (get_or w.cache.queue i empty_entry).index ≡ some k
      → (get_or (move_to_back i w.cache).queue i empty_entry).index ≡ some k'
      → get_elem? w.storage_servers k' ≡ some s
      → search_storage_server net p w ≡ ok (some k) (after_ping net k' s (after_hit i w))
  unfolding search_storage_server search_hit sem_post
  search_hit_lem p w i k k' s free hit ek ek' es =
      rw (sem_wait_lem w free, ◌>>=◌, hit, ek', is_ss_up_lem net k' s (after_hit i w) es, ek)

  search_miss_lem :
      (p : Bytes) (w : World) (f : ℕ) (s : StorageServerInfo)
      → 0 < w.storage_semaphore
      → search_cache p w.cache ≡ none
      → length (parse_path p) < max_path
      → search_servers w.storage_server_index 0 (parse_path p) w.storage_servers ≡ some (some f)
      → get_elem? w.storage_servers f ≡ some s
      → search_storage_server net p w ≡ ok (some f) (after_ping net f s (after_miss p f w))
  unfolding search_storage_server search_miss search_in_tries sem_post
  search_miss_lem p w f s free miss short found es = rw (
    sem_wait_lem w free,
    ◌>>=◌,
    miss,
    lt→ltb _ _ short,
    found,
    is_ss_up_lem net f s (after_miss p f w) es,
  )

  search_none_lem :
      (p : Bytes) (w : World)
      → 0 < w.storage_semaphore
      → search_cache p w.cache ≡ none
      → length (parse_path p) < max_path
      → search_servers w.storage_server_index 0 (parse_path p) w.storage_servers ≡ some none
      → search_storage_server net p w
        ≡ ok none (record w { storage_semaphore = w.storage_semaphore - 1 + 1 })
  unfolding search_storage_server search_miss search_in_tries sem_post
  search_none_lem p w free miss short found =
      rw (sem_wait_lem w free, ◌>>=◌, miss, lt→ltb _ _ short, found)

-- The index is that of one of the first `n` servers, or -1.
abbrev pub in_table : Option ℕ → ℕ → Bool
in_table none n = true
in_table (some i) n = ltb i n

abbrev pub Answer : Network → Bytes → World → Type 0
Answer net p w =
    (r : Option ℕ) × (w' : World) × (search_storage_server net p w ≡ ok r w')
    × IsValid w'
    × (in_table r w'.storage_server_index ≡ true)
    × (((i : ℕ) × (position p (view w.cache) ≡ some i)
          × (r ≡ (get_or (view w.cache) i empty_entry).index)
          × (view w'.cache ≡ touch i (view w.cache)))
        ⊎ ((position p (view w.cache) ≡ none)
            × First (parse_path p) 0 (take w.storage_server_index w.storage_servers) r
            × (view w'.cache ≡ remember p r (view w.cache))))

size-move_to_back : (i : ℕ) (c : LruCache) → (move_to_back i c).size ≡ c.size
unfolding move_to_back
size-move_to_back i c = refl

-- A path in the cache, however long it is.
pub search_storage_server-hit :
    (net : Network) (p : Bytes) (w : World) (i : ℕ)
    → IsValid w
    → position p (view w.cache) ≡ some i
    → Answer net p w
search_storage_server-hit net p w i v hit =
    let n = w.storage_server_index in
    let open_semaphore : 0 < w.storage_semaphore = omega (arith, v.free) in
    let unlocked : w.storage_semaphore - 1 + 1 ≡ 1 = omega (arith, v.free) in
    let lt : i < length (view w.cache) = position-lt p (view w.cache) i hit in
    let used : i < w.cache.size = omega (arith, lt, length-view w.cache v.cached) in
    let (k, ek, below) = all_indexed-get_or n i (view w.cache) v.known lt in
    let (kept, seen) = move_to_back-view i w.cache v.cached used in
    let known' = touch-all_indexed n i (view w.cache) v.known lt in
    let moved_cache = move_to_back i w.cache in
    let used' : i < moved_cache.size = rw (size-move_to_back i w.cache) used in
    let moved : i < length (touch i (view w.cache)) =
      rw (← seen, length-view moved_cache kept) used' in
    let (k', ek', lt') = all_indexed-get_or n i (touch i (view w.cache)) known' moved in
    let (s, es, _) = rooted-get n k' w.storage_servers v.trees lt' in
    let valid : IsValid (after_hit i w) = record {
      cached = kept;
      known = rw seen known';
      table = v.table;
      trees = v.trees;
      free = unlocked;
    } in
    (
      some k,
      after_ping net k' s (after_hit i w),
      search_hit_lem net p w i k k' s open_semaphore (search_cache-position p w.cache ∙ hit)
          (ap (λ (e : CacheEntry). e.index)
              (sym (get_or-take w.cache.size i w.cache.queue empty_entry used))
            ∙ ek)
          (ap (λ (e : CacheEntry). e.index)
              (sym (get_or-take moved_cache.size i moved_cache.queue empty_entry used'))
            ∙ ap (λ l. (get_or l i empty_entry).index) seen
            ∙ ek')
          es,
      after_ping-IsValid net k' s (after_hit i w) es valid,
      lt→ltb _ _ below,
      inl (i, hit, sym ek, seen),
    )

-- In a valid state, for a path of fewer than `max_path` components, the search ends with the
-- state valid again, and with the index of a registered server or -1. If the path is in the cache,
-- the answer is the index that the cache has for it, and its entry goes to the back. If not, the
-- answer is the first server that has the path in its tree, which enters the cache at the back, or
-- -1 if no server has it, and the cache stays as it was.
pub search_storage_server_lem :
    (net : Network) (p : Bytes) (w : World)
    → IsValid w
    → length (parse_path p) < max_path
    → Answer net p w
search_storage_server_lem net p w v short = elim (Option-cases (position p (view w.cache))) [
  | inl miss ↦ missed miss
  | inr (i, hit) ↦ search_storage_server-hit net p w i v hit
]
  where
    n : ℕ
    n = w.storage_server_index

    open_semaphore : 0 < w.storage_semaphore
    open_semaphore = omega (arith, v.free)

    unlocked : w.storage_semaphore - 1 + 1 ≡ 1
    unlocked = omega (arith, v.free)

    served :
        (f : ℕ)
        → search_servers n 0 (parse_path p) w.storage_servers ≡ some (some f)
        → First (parse_path p) 0 (take n w.storage_servers) (some f)
        → f < n
        → position p (view w.cache) ≡ none
        → Answer net p w
    served f looked first lt miss =
        let (s, es, _) = rooted-get n f w.storage_servers v.trees lt in
        let (kept, seen) = add_to_cache-view p (some f) w.cache v.cached in
        let valid : IsValid (after_miss p f w) = record {
          cached = kept;
          known = rw seen (push_back-all_indexed n f p (view w.cache) v.known lt);
          table = v.table;
          trees = v.trees;
          free = unlocked;
        } in
        (
          some f,
          after_ping net f s (after_miss p f w),
          search_miss_lem net p w f s open_semaphore (search_cache-position p w.cache ∙ miss) short
              looked es,
          after_ping-IsValid net f s (after_miss p f w) es valid,
          lt→ltb _ _ lt,
          inr (miss, first, seen),
        )

    missed : position p (view w.cache) ≡ none → Answer net p w
    missed miss =
        let (r, looked, first, bound) =
          search_servers_lem n 0 (parse_path p) w.storage_servers v.trees in
        elim (Option-cases r) [
          | inl e ↦ (
            none,
            record w { storage_semaphore = w.storage_semaphore - 1 + 1 },
            search_none_lem net p w open_semaphore (search_cache-position p w.cache ∙ miss) short
                (looked ∙ ap some e),
            record {
              cached = v.cached;
              known = v.known;
              table = v.table;
              trees = v.trees;
              free = unlocked;
            },
            refl,
            inr (miss, rw e at first, refl),
          )
          | inr (f, e) ↦
              served f (looked ∙ ap some e) (rw e at first) (omega (arith, bound f e)) miss
        ]
