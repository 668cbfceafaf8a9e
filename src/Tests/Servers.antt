-- ===== src/Tests/Servers.antt =====
-- The theorems on the naming server at small states, and on the table of errors.
use network_file_system.Prelude.{
  ◌≤◌, ◌==◌, if◌then◌else◌, Bytes, ℕ, ◌+◌, set, starts_with, c_string, get_elem?, ◌⊎◌, Option, ◌≡◌,
  refl, ltb→lt, arith, true, false, none, some, [], ◌∷◌, ◌++◌, codes, replicate, strtok, str_eq,
}
use network_file_system.Errors.{Error}
use network_file_system.Tries.Defs.{
  Node, node, child, parse_path, drop_tildes, create_node, null_slots, add_path_to_trie,
  add_components, link_child, find_child, first_null, set_slot,
}
use network_file_system.Naming.Cache.Defs.{
  LruCache, initialize_cache, add_to_cache, search_cache, move_to_back, delete_from_cache,
}
use network_file_system.Naming.Cache.View
use network_file_system.Naming.Cache.View.{
  view, position, push_back, touch, remove_key, cache_refines_list,
}
use network_file_system.Naming.World.{
  StorageServerInfo, answered, not_connected, Network, World, ok, return, redundant_ss, is_ss_up,
  is_backup_up,
}
use network_file_system.Naming.Backups.{IsUp, redundant_ss_lem}
use network_file_system.Naming.Index.Defs.{index_helper, has_infix}
use network_file_system.Naming.Register.Defs.{
  new_server, exported, find_redundant, register_storage_server,
}
use network_file_system.Naming.Register.Added.{
  register_storage_server-new_server, register_storage_server-revive,
}
use network_file_system.Naming.Commands.Text.{first_slot}
use network_file_system.Naming.Valid.{IsValid}
use network_file_system.Naming.Search.Lookup.{Answer, search_storage_server_lem}
use network_file_system.Tests.States.{
  two_cached, two_cached-IsValid, unused, server, world, world-IsValid, net,
}

cache_refines_list_example :
    (View.IsValid initialize_cache × (view initialize_cache ≡ []))
    × (search_cache (codes "b") two_cached ≡ position (codes "b") (view two_cached))
    × (View.IsValid (add_to_cache (codes "b") (some 1) two_cached)
        × (view (add_to_cache (codes "b") (some 1) two_cached)
            ≡ push_back (codes "b") (some 1) (view two_cached)))
    × ((two_cached.size ≤ 0)
        ⊎ (View.IsValid (move_to_back 0 two_cached)
            × (view (move_to_back 0 two_cached) ≡ touch 0 (view two_cached))))
    × (View.IsValid (delete_from_cache (codes "b") two_cached).0
        × (view (delete_from_cache (codes "b") two_cached).0
            ≡ remove_key (codes "b") (view two_cached)))
cache_refines_list_example = cache_refines_list (codes "b") (some 1) 0 two_cached two_cached-IsValid

search_storage_server_lem_example : Answer net (codes "notes") world
unfolding parse_path drop_tildes strtok str_eq
search_storage_server_lem_example =
    search_storage_server_lem net (codes "notes") world world-IsValid (ltb→lt _ _ refl)

abbrev send_fail : Error
send_fail = record { number = 10; name = codes "SEND_FAIL"; message = codes "Send failed" }

abbrev empty : LruCache
empty = record { queue = replicate 3 (record { key = none; index = none }); size = 0 }

-- No server yet.
abbrev first_world : World
first_world = record world {
  storage_servers = replicate 10 unused;
  storage_server_index = 0;
  cache = empty;
}

first_world-IsValid : IsValid first_world
first_world-IsValid = record {
  cached = record { whole = refl; bounded = omega arith };
  known = refl;
  table = refl;
  trees = refl;
  free = refl;
}

-- A network on which the storage server of socket 5 sends a folder and the marker when it is indexed.
abbrev chunk : Bytes
chunk = codes "./other" ++ 10 ∷ [] ++ codes "@!-Finished Indexing-!@" ++ 10 ∷ []

abbrev registering : Bytes → Network
registering text = record net { index_chunks = λ e s. text ∷ [] }

-- The tree of a folder, with all slots of its nodes.
abbrev exporting : Bytes → Node
exporting folder =
    node false (codes ".") (
      child (node false (codes ".") (child (create_node folder) (null_slots 255))) (null_slots 255))

register_storage_server-new_server_example :
    (w' : World) × (register_storage_server
        (registering chunk)
        (λ t a b. return tt)
        5
        (codes "10.0.0.3")
        (some 4000)
        first_world
      ≡ ok tt w')
    × IsValid w'
    × (w'.storage_server_index ≡ first_world.storage_server_index + 1)
    × (get_elem? w'.storage_servers first_world.storage_server_index
        ≡ some (new_server 5 4000 (codes "10.0.0.3") (exporting (codes "other"))))
unfolding index_helper has_infix starts_with parse_path drop_tildes strtok str_eq add_path_to_trie
    add_components create_node null_slots link_child find_child first_null set_slot c_string
    find_redundant
register_storage_server-new_server_example =
    register_storage_server-new_server (registering chunk) (λ t a b. return tt) 5 4000
      (codes "10.0.0.3") (exporting (codes "other")) first_world first_world-IsValid
      (ltb→lt _ _ refl) refl refl

-- A server that exports `other`, and is down.
abbrev second_world : World
second_world = record world {
  storage_servers =
      record server { root = some (exporting (codes "other")); is_up = false } ∷ replicate 9 unused;
}

second_world-IsValid : IsValid second_world
second_world-IsValid = record {
  cached = two_cached-IsValid;
  known = refl;
  table = refl;
  trees = refl;
  free = refl;
}

register_storage_server-revive_example :
    (w' : World) × (s : StorageServerInfo) × (other : Node) × (register_storage_server
        (registering chunk)
        (λ t a b. return tt)
        5
        (codes "10.0.0.3")
        (some 4000)
        second_world
      ≡ ok tt w')
    × IsValid w'
    × (w'.storage_server_index ≡ second_world.storage_server_index)
    × (get_elem? second_world.storage_servers 0 ≡ some s)
    × (s.root ≡ some other)
    × (exported other ≡ exported (exporting (codes "other")))
    × (w'.storage_servers
        ≡ set second_world.storage_servers 0 (record s {
          ip = codes "10.0.0.3";
          client_info_socket = 5;
          port_client = 4000;
          socket = 5;
          is_up = true;
        }))
unfolding index_helper has_infix starts_with parse_path drop_tildes strtok str_eq add_path_to_trie
    add_components create_node null_slots link_child find_child first_null set_slot c_string
    find_redundant exported first_slot
register_storage_server-revive_example =
    register_storage_server-revive (registering chunk) (λ t a b. return tt) 5 4000 0
      (codes "10.0.0.3") (exporting (codes "other")) second_world second_world-IsValid refl refl

-- A server that does not answer, and its backup, which does.
abbrev half_down : Network
half_down = record net { ping = λ e i p. if p == 1 then not_connected else answered }

abbrev first_of_two : StorageServerInfo
first_of_two = record server { port_client = 1; backup_server1 = some 1 }

abbrev two_servers : World
two_servers = record world {
  storage_servers = first_of_two ∷ record server { port_client = 2 } ∷ replicate 8 unused;
  storage_server_index = 2;
}

two_servers-IsValid : IsValid two_servers
two_servers-IsValid = record {
  cached = two_cached-IsValid;
  known = refl;
  table = refl;
  trees = refl;
  free = refl;
}

redundant_ss_lem_example :
    (r : Option ℕ) × (w' : World) × (redundant_ss half_down 0 two_servers ≡ ok r w')
    × IsValid w'
    × IsUp r w'
    × (((r ≡ some 0) × (is_ss_up half_down 0 two_servers ≡ ok true w'))
        ⊎ ((w1 : World) × (is_ss_up half_down 0 two_servers ≡ ok false w1)
            × (((r ≡ first_of_two.backup_server1)
                  × (is_backup_up half_down first_of_two.backup_server1 w1 ≡ ok true w'))
                ⊎ ((w2 : World) × (is_backup_up half_down first_of_two.backup_server1 w1
                      ≡ ok false w2)
                    × (((r ≡ first_of_two.backup_server2)
                          × (is_backup_up half_down first_of_two.backup_server2 w2 ≡ ok true w'))
                        ⊎ ((r ≡ none)
                            × (is_backup_up half_down first_of_two.backup_server2 w2
                                ≡ ok false w')))))))
redundant_ss_lem_example =
    redundant_ss_lem half_down 0 first_of_two two_servers two_servers-IsValid refl refl refl
