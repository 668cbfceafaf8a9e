-- ===== src/Naming/Commands/Replies.antt =====
-- What `process_client` sends for a `write`, and for a command of the last branch.
use network_file_system.Prelude.{
  ℕ, ◌<◌, ◌≡◌, refl, true, false, Option, none, some, Option-cases, Bool-cases, inl, inr, arith,
  List, ◌∷◌, ◌++◌, Bytes, codes, length, strtok, strtok_from, starts_with, str_eq, ltb→lt,
  get_elem?, ◌==◌, ◌⊎◌,
}
use network_file_system.Tries.Defs.{max_path, parse_path}
use network_file_system.Naming.World.{
  StorageServerInfo, Network, World, ok, fault, M, ◌>>=◌, ◌>>◌, return, sent, note, send_good,
  get_server, redundant_ss,
}
use network_file_system.Naming.Valid.{IsValid, rooted-get}
use network_file_system.Naming.Search.Defs.{search_storage_server}
use network_file_system.Naming.Search.Lookup.{in_table, search_storage_server_lem}
use network_file_system.Naming.Commands.Text.{
  next_command, reply, is_root_path, storage_server_not_found,
}
use network_file_system.Naming.Commands.Lookup.{
  handle_write, write_at, write_grant, handle_lookup, lookup_at, reply_at, server_address,
}
use network_file_system.Naming.Commands.Dispatch.{dispatch_path, dispatch_words, handle_command}

module _ (net : Network) where
  reply_lem :
      (client : ℕ) (text : Bytes) (w : World)
      → reply net client text w ≡ ok tt (note (sent client text) w)
  unfolding reply send_good
  reply_lem client text w = refl

  -- `write_at` sends one reply.
  write_at_lem :
      (client : ℕ) (flag : Bytes) (r : Option ℕ) (w : World)
      → IsValid w
      → in_table r w.storage_server_index ≡ true
      → (text : Bytes) × (write_at net client flag r w ≡ ok tt (note (sent client text) w))
  unfolding write_at get_server
  write_at_lem client flag none w v h =
      (storage_server_not_found, reply_lem client storage_server_not_found w)
  write_at_lem client flag (some i) w v h =
      let (s, at, _) =
        rooted-get w.storage_server_index i w.storage_servers v.trees (ltb→lt _ _ h) in
      elim (Bool-cases s.is_up) [
        | inl up ↦ (
          write_grant net flag s,
          rw (write_at, ◌>>=◌, get_server, at, up) (reply_lem client (write_grant net flag s) w),
        )
        | inr down ↦ (
          storage_server_not_found,
          rw (write_at, ◌>>=◌, get_server, at, down) (reply_lem client storage_server_not_found w),
        )
      ]

  -- In a valid state, a command of the last branch whose path has fewer than `max_path` components
  -- leads to a search for that path. Where no server has it, the behaviour is undefined: the table is
  -- read in front of its first entry.
  -- Where the server that the search finds is up, the client gets its address, in one reply. Where
  -- it is down, the reply is left to the choice of a backup, which is tried in the state that the
  -- search leaves.
  pub handle_lookup_lem :
      (client : ℕ) (path : Bytes) (w : World)
      → IsValid w
      → length (parse_path path) < max_path
      → (r : Option ℕ) × (w' : World) × (search_storage_server net path w ≡ ok r w')
        × (((r ≡ none) × (handle_lookup net client path w ≡ fault))
            ⊎ ((i : ℕ) × (s : StorageServerInfo) × (r ≡ some i)
                × (get_elem? w'.storage_servers i ≡ some s)
                × (((s.is_up ≡ true)
                      × (handle_lookup net client path w
                          ≡ ok next_command (note (sent client (server_address net s)) w')))
                    ⊎ ((s.is_up ≡ false)
                        × (handle_lookup net client path w
                            ≡ ((redundant_ss net i >>= (λ b. reply_at net client i b))
                                  >>= (λ u. return next_command))
                                w')))))
  unfolding handle_lookup lookup_at reply_at get_server reply send_good
  handle_lookup_lem client path w v short =
      let (r, w', searched, v', below, _) = search_storage_server_lem net path w v short in
      elim (Option-cases r) [
        | inl e ↦ (
          r,
          w',
          searched,
          inl (e, rw (handle_lookup, ◌>>=◌, searched, e, lookup_at, ◌>>=◌) refl),
        )
        | inr (i, e) ↦
            let (s, at, _) =
              rooted-get w'.storage_server_index i w'.storage_servers v'.trees
                (ltb→lt _ _ (rw e at below)) in
            let same : (i == i) ≡ true = ground arith in
            elim (Bool-cases s.is_up) [
              | inl up ↦ (
                r,
                w',
                searched,
                inr (
                  i,
                  s,
                  e,
                  at,
                  inl (
                    up,
                    rw
                        (
                          handle_lookup, ◌>>=◌, searched, e, lookup_at, get_server, at, up, ◌>>=◌,
                          reply_at, same, get_server, at, ◌>>=◌,
                        )
                        refl,
                  ),
                ),
              )
              | inr down ↦ (
                r,
                w',
                searched,
                inr (
                  i,
                  s,
                  e,
                  at,
                  inr (
                    down,
                    rw (handle_lookup, ◌>>=◌, searched, e, lookup_at, get_server, at, down) refl,
                  ),
                ),
              )
            ]
      ]

module _ (net : Network) (copy : (client : ℕ) → Bytes → M (Unit {0})) where
  -- In a valid state, a `write` whose flag is not a root path and whose path has fewer than
  -- `max_path` components gets one reply for its path, and is then handled a second time, as a
  -- request for the server of a path that is the flag.
  pub write_falls_through :
      (client : ℕ) (rest flag path : Bytes) (words : List Bytes) (w : World)
      → strtok b' ' rest ≡ flag ∷ path ∷ words
      → is_root_path flag ≡ false
      → length (parse_path path) < max_path
      → IsValid w
      → (r : Option ℕ) × (w' : World) × (text : Bytes) × (search_storage_server net path w
          ≡ ok r w')
        × IsValid (note (sent client text) w')
        × (handle_command net copy client (codes "write " ++ rest) w
            ≡ handle_lookup net client flag (note (sent client text) w'))
  unfolding handle_command dispatch_words dispatch_path handle_write strtok strtok_from starts_with
      str_eq
  write_falls_through client rest flag path words w e other short v =
      let (r, w', searched, v', below, _) = search_storage_server_lem net path w v short in
      let (text, answered) = write_at_lem net client flag r w' v' below in
      let valid : IsValid (note (sent client text) w') = record {
        cached = v'.cached;
        known = v'.known;
        table = v'.table;
        trees = v'.trees;
        free = v'.free;
      } in
      (r, w', text, searched, valid, rw (e, other, ◌>>=◌, ◌>>◌, searched, answered))
