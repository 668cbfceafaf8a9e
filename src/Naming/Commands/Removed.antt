-- ===== src/Naming/Commands/Removed.antt =====
-- What `rmdir` and `rm` leave in the cache.
use network_file_system.Prelude.{
  ℕ, suc, ◌<◌, ◌≡◌, refl, ◌∙◌, ◌⊎◌, inl, inr, true, false, Option, none, some, Option-cases,
  Bool-cases, arith, List, [], ◌∷◌, ◌++◌, Bytes, length, get_elem?, get_or, ltb→lt, str_eq_refl,
  ◌==◌, if◌then◌else◌,
}
use network_file_system.Tries.Defs.{max_path, parse_path}
use network_file_system.Naming.Cache.Defs.{
  CacheEntry, LruCache, cache_capacity, empty_entry, has_key, search_cache, delete_from_cache,
}
use network_file_system.Naming.Cache.Array.{remove_at}
use network_file_system.Naming.Cache.View.{
  view, position, push_back, touch, remove_key, search_cache-position, delete_from_cache-view,
}
use network_file_system.Naming.World.{
  StorageServerInfo, Network, World, ok, ◌>>=◌, return, sent, note, send_good, get_server,
}
use network_file_system.Naming.Valid.{IsValid, rooted-get}
use network_file_system.Naming.Search.Defs.{search_storage_server}
use network_file_system.Naming.Search.Lookup.{search_storage_server_lem}
use network_file_system.Naming.Commands.Text.{
  next_command, reply, is_invalid_path, storage_server_not_found,
}
use network_file_system.Naming.Commands.Remove.{
  forward_remove, forget_path, remove_at_server, handle_remove,
}

position-append :
    (key : Bytes) (xs : List CacheEntry) (e : CacheEntry)
    → has_key key e ≡ true
    → (j : ℕ) × (position key (xs ++ e ∷ []) ≡ some j)
unfolding position
position-append key [] e h = (0, rw h refl)
position-append key (x ∷ xs) e h = elim (Bool-cases (has_key key x)) [
  | inl here ↦ (0, rw here refl)
  | inr past ↦ let (j, at) = position-append key xs e h in (suc j, rw (past, at) refl)
]

-- The entry at the position of a key has the key.
has_key-position :
    (key : Bytes) (xs : List CacheEntry) (i : ℕ)
    → position key xs ≡ some i
    → has_key key (get_or xs i empty_entry) ≡ true
unfolding position
has_key-position key [] i h = cc
has_key-position key (x ∷ xs) i h = elim (Bool-cases (has_key key x)) [
  | inl here ↦
      let first : some 0 ≡ some i = rw (position, here) at h in
      let zero_ : i ≡ 0 = ground arith in rw zero_ here
  | inr past ↦ elim (Option-cases (position key xs)) [
    | inl miss ↦ (let bad : none ≡ some i = rw (position, past, miss) at h in cc)
    | inr (j, at) ↦
        let later_ : some (suc j) ≡ some i = rw (position, past, at) at h in
        let next : i ≡ suc j = ground arith in rw next (has_key-position key xs j at)
  ]
]

pub position-touch :
    (key : Bytes) (v : List CacheEntry) (i : ℕ)
    → position key v ≡ some i
    → (j : ℕ) × (position key (touch i v) ≡ some j)
unfolding touch
position-touch key v i h =
    position-append key (remove_at i v) (get_or v i empty_entry) (has_key-position key v i h)

pub position-push_back :
    (key : Bytes) (index : Option ℕ) (v : List CacheEntry)
    → (j : ℕ) × (position key (push_back key index v) ≡ some j)
unfolding push_back has_key
position-push_back key index v =
    position-append key (if length v == cache_capacity then remove_at 0 v else v)
      (record { key = some key; index = index }) (str_eq_refl key)

-- A removal that finds its key does not post the semaphore.
delete_from_cache-found :
    (key : Bytes) (c : LruCache) (j : ℕ)
    → position key (view c) ≡ some j
    → (delete_from_cache key c).1 ≡ false
unfolding delete_from_cache
delete_from_cache-found key c j h =
    let found : search_cache key c ≡ some j = search_cache-position key c ∙ h in
    rw (delete_from_cache, found) refl

-- The path taken out of the cache.
abbrev pub forgotten : Bytes → World → World
forgotten path w = record w { cache = (delete_from_cache path w.cache).0 }

module _ (net : Network) where
  pub forget_path_lem :
      (path : Bytes) (w : World) (j : ℕ)
      → position path (view w.cache) ≡ some j
      → forget_path net path w ≡ ok tt (forgotten path w)
  unfolding forget_path
  forget_path_lem path w j h =
      let kept : (delete_from_cache path w.cache).1 ≡ false =
        delete_from_cache-found path w.cache j h in
      rw (forget_path, ◌>>=◌, kept) refl

  -- In a valid state, for a path that is not one of the invalid ones and has fewer than `max_path`
  -- components, the path is searched for. Where no server has it, the client is told so. Where a
  -- server has it, the search has left the path in the cache, so one entry of it is taken out, and
  -- the semaphore is as the search left it; if the server is down, the client is told that none
  -- was found, and if it is up, it is asked.
  pub handle_remove_lem :
      (client : ℕ) (buffer command path : Bytes) (w : World)
      → IsValid w
      → is_invalid_path path ≡ false
      → length (parse_path path) < max_path
      → (r : Option ℕ) × (w' : World) × (search_storage_server net path w ≡ ok r w')
        × (((r ≡ none)
              × (handle_remove net client buffer command path w
                  ≡ ok next_command (note (sent client storage_server_not_found) w')))
            ⊎ ((i : ℕ) × (s : StorageServerInfo) × (r ≡ some i)
                × (get_elem? w'.storage_servers i ≡ some s)
                × (view (forgotten path w').cache ≡ remove_key path (view w'.cache))
                × (((s.is_up ≡ false)
                      × (handle_remove net client buffer command path w
                          ≡ ok next_command
                              (note (sent client storage_server_not_found) (forgotten path w'))))
                    ⊎ ((s.is_up ≡ true)
                        × (handle_remove net client buffer command path w
                            ≡ (forward_remove net client i buffer command path s
                                  >>= (λ u. return next_command))
                                (forgotten path w'))))))
  unfolding handle_remove remove_at_server get_server reply send_good
  handle_remove_lem client buffer command path w v valid short =
      let (r, w', searched, v', below, how) = search_storage_server_lem net path w v short in
      elim (Option-cases r) [
        | inl e ↦ (
          r,
          w',
          searched,
          inl (e, rw (handle_remove, valid, ◌>>=◌, searched, e, remove_at_server) refl),
        )
        | inr (i, e) ↦
            let (s, at, _) =
              rooted-get w'.storage_server_index i w'.storage_servers v'.trees
                (ltb→lt _ _ (rw e at below)) in
            let cached : (j : ℕ) × (position path (view w'.cache) ≡ some j) = elim how [
              | inl (k, hit, _, seen) ↦ rw seen (position-touch path (view w.cache) k hit)
              | inr (_, _, seen) ↦ rw (seen, e) (position-push_back path (some i) (view w.cache))
            ] in
            let (j, there) = cached in
            let out = forget_path_lem path w' j there in
            let (_, seen) = delete_from_cache-view path w'.cache v'.cached in
            elim (Bool-cases s.is_up) [
              | inl up ↦ (
                r,
                w',
                searched,
                inr (
                  i,
                  s,
                  e,
                  at,
                  seen,
                  inr (
                    up,
                    rw
                        (
                          handle_remove, valid, ◌>>=◌, searched, e, remove_at_server, out,
                          get_server, at, up,
                        )
                        refl,
                  ),
                ),
              )
              | inr down ↦ (
                r,
                w',
                searched,
                inr (
                  i,
                  s,
                  e,
                  at,
                  seen,
                  inl (
                    down,
                    rw
                        (
                          handle_remove, valid, ◌>>=◌, searched, e, remove_at_server, out,
                          get_server, at, down,
                        )
                        refl,
                  ),
                ),
              )
            ]
      ]
