-- ===== src/Naming/Commands/Created.antt =====
-- What `mkdir` and `touch` leave in the cache.
use network_file_system.Prelude.{
  ℕ, ◌<◌, ◌≡◌, refl, ◌⊎◌, inl, inr, true, false, Option, none, some, Option-cases, Bool-cases,
  Bytes, length, get_elem?, ltb→lt,
}
use network_file_system.Tries.Defs.{max_path, parse_path}
use network_file_system.Naming.Cache.Defs.{add_to_cache}
use network_file_system.Naming.Cache.View.{view, push_back, add_to_cache-view}
use network_file_system.Naming.World.{
  StorageServerInfo, Network, World, ok, ◌>>=◌, return, sent, note, send_good, get_server,
}
use network_file_system.Naming.Valid.{IsValid, rooted-get}
use network_file_system.Naming.Search.Defs.{search_storage_server}
use network_file_system.Naming.Search.Lookup.{search_storage_server_lem}
use network_file_system.Naming.Commands.Text.{
  next_command, reply, is_invalid_path, storage_server_not_found,
}
use network_file_system.Naming.Commands.Create.{
  parent_path, forward_create, create_at, handle_create,
}

-- The path in the cache, for the server of index `i`.
abbrev pub remembered : Bytes → ℕ → World → World
remembered path i w = record w { cache = add_to_cache path (some i) w.cache }

module _ (net : Network) where
  -- In a valid state, for a path whose parent is not one of the invalid ones and has fewer than
  -- `max_path` components, the parent is searched for. Where no server has it, the client is told so
  -- and the cache stays as the search leaves it. Where a server has it, the new path enters the
  -- cache at the back before anything is asked of that server; if the server is down, the client
  -- is told that none was found, and the path stays in the cache; if it is up, it is asked.
  pub handle_create_lem :
      (client : ℕ) (buffer command path : Bytes) (w : World)
      → IsValid w
      → is_invalid_path (parent_path path) ≡ false
      → length (parse_path (parent_path path)) < max_path
      → (r : Option ℕ) × (w' : World) × (search_storage_server net (parent_path path) w ≡ ok r w')
        × (((r ≡ none)
              × (handle_create net client buffer command path w
                  ≡ ok next_command (note (sent client storage_server_not_found) w')))
            ⊎ ((i : ℕ) × (s : StorageServerInfo) × (r ≡ some i)
                × (get_elem? w'.storage_servers i ≡ some s)
                × (view (remembered path i w').cache ≡ push_back path (some i) (view w'.cache))
                × (((s.is_up ≡ false)
                      × (handle_create net client buffer command path w
                          ≡ ok next_command
                              (note (sent client storage_server_not_found) (remembered path i w'))))
                    ⊎ ((s.is_up ≡ true)
                        × (handle_create net client buffer command path w
                            ≡ (forward_create net client i buffer command path s
                                  >>= (λ u. return next_command))
                                (remembered path i w'))))))
  unfolding handle_create create_at get_server reply send_good
  handle_create_lem client buffer command path w v valid short =
      let (r, w', searched, v', below, _) =
        search_storage_server_lem net (parent_path path) w v short in
      elim (Option-cases r) [
        | inl e ↦ (
          r,
          w',
          searched,
          inl (e, rw (handle_create, valid, ◌>>=◌, searched, e, create_at) refl),
        )
        | inr (i, e) ↦
            let (s, at, _) =
              rooted-get w'.storage_server_index i w'.storage_servers v'.trees
                (ltb→lt _ _ (rw e at below)) in
            let (_, seen) = add_to_cache-view path (some i) w'.cache v'.cached in
            elim (Bool-cases s.is_up) [
              | inl up ↦ (
                r,
                w',
                searched,
                inr (
                  i,
                  s,
                  e,
                  at,
                  seen,
                  inr (
                    up,
                    rw (handle_create, valid, ◌>>=◌, searched, e, create_at, get_server, at, up)
                        refl,
                  ),
                ),
              )
              | inr down ↦ (
                r,
                w',
                searched,
                inr (
                  i,
                  s,
                  e,
                  at,
                  seen,
                  inl (
                    down,
                    rw (handle_create, valid, ◌>>=◌, searched, e, create_at, get_server, at, down)
                        refl,
                  ),
                ),
              )
            ]
      ]
