-- ===== src/Naming/Search/Defs.antt =====
-- `search_in_tries` and `search_storage_server`. An index of -1 is none.
use network_file_system.Prelude.{
  ℕ, zero, suc, Bool, true, false, Option, none, some, List, [], ◌∷◌, Bytes, length, get_or, ltb,
  if◌then◌else◌,
}
use network_file_system.Tries.Defs.{Node, max_path, parse_path, search_path_helper}
use network_file_system.Naming.Cache.Defs.{empty_entry, search_cache, add_to_cache, move_to_back}
use network_file_system.Naming.World.{
  StorageServerInfo, Network, ok, fault, M, ◌>>=◌, ◌>>◌, return, deref, sem_wait, sem_post,
  get_world, put_cache, is_ss_up,
}

-- `SearchPathHelper` on a root that may be NULL, which is read if there is a component.
unfoldable pub search_root : Option Node → List Bytes → Option Bool
unfolding search_path_helper
search_root (some root) path = some (search_path_helper root path)
search_root none [] = some true
search_root none (c ∷ cs) = none

-- The loop of `search_in_tries` at `i`, with `left` servers to go: none where it reads out of
-- bounds or through NULL.
unfoldable pub search_servers :
    (left i : ℕ) → List Bytes → List StorageServerInfo → Option (Option ℕ)
unfolding search_root
search_servers zero i path servers = some none
search_servers (suc n) i path [] = none
search_servers (suc n) i path (s ∷ servers) = elim (search_root s.root path) [
  | some true ↦ some (some i)
  | some false ↦ search_servers n (suc i) path servers
  | none ↦ none
]

unfoldable pub search_in_tries : Bytes → M (Option ℕ)
search_in_tries buffer w =
    let path = parse_path buffer in
    if ltb (length path) max_path
    then elim (search_servers w.storage_server_index 0 path w.storage_servers) [
      | some found ↦ ok found w
      | none ↦ fault
    ]
    else fault

module _ (net : Network) where
  -- The branch of a hit: the entry that stands at `index` after the move is the one whose server
  -- is pinged.
  unfoldable pub search_hit : ℕ → M (Option ℕ)
  search_hit index = do
    w ← get_world
    let k = (get_or w.cache.queue index empty_entry).index
    put_cache (move_to_back index w.cache)
    sem_post
    w' ← get_world
    index_to_send ← deref (get_or w'.cache.queue index empty_entry).index
    is_ss_up net index_to_send
    return k

  unfoldable pub search_miss : Bytes → M (Option ℕ)
  search_miss buffer = do
    found ← search_in_tries buffer
    elim found [
      | some i ↦ do
        w ← get_world
        put_cache (add_to_cache buffer (some i) w.cache)
        sem_post
        is_ss_up net i
        return (some i)
      | none ↦ do sem_post; return none
    ]

  unfoldable pub search_storage_server : Bytes → M (Option ℕ)
  search_storage_server buffer = do
    sem_wait
    w ← get_world
    elim (search_cache buffer w.cache) [ some index ↦ search_hit index | none ↦ search_miss buffer ]
