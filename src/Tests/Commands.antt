-- ===== src/Tests/Commands.antt =====
-- The theorems on the commands of clients at a small state.
use network_file_system.Prelude.{
  before_last, Bytes, ℕ, get_elem?, ◌⊎◌, Option, ◌≡◌, refl, ltb→lt, true, false, none, some, [],
  ◌++◌, codes, strtok, str_eq,
}
use network_file_system.Tries.Defs.{parse_path, drop_tildes}
use network_file_system.Naming.Cache.View.{view, push_back, remove_key}
use network_file_system.Naming.World.{
  fault, StorageServerInfo, World, sent, note, ok, return, ◌>>=◌, redundant_ss,
}
use network_file_system.Naming.Search.Defs.{search_storage_server}
use network_file_system.Naming.Commands.Text.{
  is_invalid_path, next_command, storage_server_not_found,
}
use network_file_system.Naming.Commands.Create.{parent_path, forward_create, handle_create}
use network_file_system.Naming.Commands.Created.{remembered, handle_create_lem}
use network_file_system.Naming.Commands.Remove.{forward_remove, handle_remove}
use network_file_system.Naming.Commands.Removed.{forgotten, handle_remove_lem}
use network_file_system.Naming.Commands.Lookup.{handle_lookup, reply_at, server_address}
use network_file_system.Naming.Commands.Dispatch.{handle_command}
use network_file_system.Naming.Commands.Replies.{write_falls_through, handle_lookup_lem}
use network_file_system.Naming.Valid.{IsValid}
use network_file_system.Tests.States.{world, world-IsValid, net}

write_falls_through_example :
    (r : Option ℕ) × (w' : World) × (text : Bytes) × (search_storage_server net
        (codes "notes")
        world
      ≡ ok r w')
    × IsValid (note (sent 7 text) w')
    × (handle_command net (λ c b. return tt) 7 (codes "write " ++ codes "-s notes") world
        ≡ handle_lookup net 7 (codes "-s") (note (sent 7 text) w'))
unfolding parse_path drop_tildes strtok str_eq
write_falls_through_example =
    write_falls_through net (λ c b. return tt) 7 (codes "-s notes") (codes "-s") (codes "notes") []
      world refl refl (ltb→lt _ _ refl) world-IsValid

handle_lookup_lem_example :
    (r : Option ℕ) × (w' : World) × (search_storage_server net (codes "notes") world ≡ ok r w')
    × (((r ≡ none) × (handle_lookup net 7 (codes "notes") world ≡ fault))
        ⊎ ((i : ℕ) × (s : StorageServerInfo) × (r ≡ some i)
            × (get_elem? w'.storage_servers i ≡ some s)
            × (((s.is_up ≡ true)
                  × (handle_lookup net 7 (codes "notes") world
                      ≡ ok next_command (note (sent 7 (server_address net s)) w')))
                ⊎ ((s.is_up ≡ false)
                    × (handle_lookup net 7 (codes "notes") world
                        ≡ ((redundant_ss net i >>= (λ b. reply_at net 7 i b))
                              >>= (λ u. return next_command))
                            w')))))
unfolding parse_path drop_tildes strtok str_eq
handle_lookup_lem_example =
    handle_lookup_lem net 7 (codes "notes") world world-IsValid (ltb→lt _ _ refl)

handle_create_lem_example :
    (r : Option ℕ) × (w' : World) × (search_storage_server net (parent_path (codes "notes/x")) world
      ≡ ok r w')
    × (((r ≡ none)
          × (handle_create net 7 (codes "touch notes/x") (codes "touch") (codes "notes/x") world
              ≡ ok next_command (note (sent 7 storage_server_not_found) w')))
        ⊎ ((i : ℕ) × (s : StorageServerInfo) × (r ≡ some i)
            × (get_elem? w'.storage_servers i ≡ some s)
            × (view (remembered (codes "notes/x") i w').cache
                ≡ push_back (codes "notes/x") (some i) (view w'.cache))
            × (((s.is_up ≡ false)
                  × (handle_create net 7
                        (codes "touch notes/x")
                        (codes "touch")
                        (codes "notes/x")
                        world
                      ≡ ok next_command (
                          note
                            (sent 7 storage_server_not_found)
                            (remembered (codes "notes/x") i w'))))
                ⊎ ((s.is_up ≡ true)
                    × (handle_create net 7
                          (codes "touch notes/x")
                          (codes "touch")
                          (codes "notes/x")
                          world
                        ≡ (forward_create net 7 i
                                (codes "touch notes/x")
                                (codes "touch")
                                (codes "notes/x")
                                s
                              >>= (λ u. return next_command))
                            (remembered (codes "notes/x") i w'))))))
unfolding parse_path drop_tildes strtok str_eq parent_path before_last is_invalid_path
handle_create_lem_example =
    handle_create_lem net 7 (codes "touch notes/x") (codes "touch") (codes "notes/x") world
      world-IsValid refl (ltb→lt _ _ refl)

handle_remove_lem_example :
    (r : Option ℕ) × (w' : World) × (search_storage_server net (codes "notes") world ≡ ok r w')
    × (((r ≡ none)
          × (handle_remove net 7 (codes "rmdir notes") (codes "rmdir") (codes "notes") world
              ≡ ok next_command (note (sent 7 storage_server_not_found) w')))
        ⊎ ((i : ℕ) × (s : StorageServerInfo) × (r ≡ some i)
            × (get_elem? w'.storage_servers i ≡ some s)
            × (view (forgotten (codes "notes") w').cache
                ≡ remove_key (codes "notes") (view w'.cache))
            × (((s.is_up ≡ false)
                  × (handle_remove net 7 (codes "rmdir notes") (codes "rmdir") (codes "notes") world
                      ≡ ok next_command
                          (note (sent 7 storage_server_not_found) (forgotten (codes "notes") w'))))
                ⊎ ((s.is_up ≡ true)
                    × (handle_remove net 7
                          (codes "rmdir notes")
                          (codes "rmdir")
                          (codes "notes")
                          world
                        ≡ (forward_remove net 7 i
                                (codes "rmdir notes")
                                (codes "rmdir")
                                (codes "notes")
                                s
                              >>= (λ u. return next_command))
                            (forgotten (codes "notes") w'))))))
unfolding parse_path drop_tildes strtok str_eq is_invalid_path
handle_remove_lem_example =
    handle_remove_lem net 7 (codes "rmdir notes") (codes "rmdir") (codes "notes") world
      world-IsValid refl (ltb→lt _ _ refl)
