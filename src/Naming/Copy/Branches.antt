-- ===== src/Naming/Copy/Branches.antt =====
-- What a copy that a client asks for leads to, branch by branch.
use network_file_system.Prelude.{
  ℕ, ◌<◌, ◌≡◌, ◌∙◌, refl, ◌⊎◌, inl, inr, Bool, true, false, Option, none, some, Option-cases,
  Bool-cases, List, [], ◌∷◌, ◌++◌, Bytes, codes, starts_with, strtok, c_string, length, get_elem?,
  ltb, lt→ltb, ltb→lt, zero, suc, arith, ◌==◌, if◌then◌else◌,
}
use network_file_system.Tries.Defs.{max_path, parse_path}
use network_file_system.Naming.World.{
  StorageServerInfo, max_storage_servers, Network, World, Outcome, ok, fault, ◌>>=◌, deref, sent,
  received, note, send_good, recv_good, get_server,
}
use network_file_system.Naming.Valid.{IsValid, rooted-get}
use network_file_system.Naming.Backups.{get_elem?-some}
use network_file_system.Naming.Search.Defs.{search_storage_server}
use network_file_system.Naming.Search.Lookup.{in_table, search_storage_server_lem}
use network_file_system.Naming.Commands.Text.{storage_server_not_found, is_root_path, reply}
use network_file_system.Naming.Copy.Defs.{
  copysame_message, copydifferent_message, finish_copy, forward_copy, copy_at, copy_paths,
  handle_copy_request,
}

-- An index of the table, or none.
abbrev in_range : Option ℕ → Bool
in_range none = true
in_range (some i) = ltb i max_storage_servers

get_elem?-lt :
    (i : ℕ) (servers : List StorageServerInfo) (s : StorageServerInfo)
    → get_elem? servers i ≡ some s
    → i < length servers
get_elem?-lt i [] s h = cc
get_elem?-lt zero (x ∷ servers) s h = omega arith
get_elem?-lt (suc i) (x ∷ servers) s h = omega (arith, get_elem?-lt i servers s h)

in_table-in_range :
    (r : Option ℕ) (w : World)
    → IsValid w
    → in_table r w.storage_server_index ≡ true
    → in_range r ≡ true
in_table-in_range none w v h = refl
in_table-in_range (some i) w v h =
    let (s, at, _) = rooted-get w.storage_server_index i w.storage_servers v.trees (ltb→lt _ _ h) in
    lt→ltb _ _ (rw (← v.table) (get_elem?-lt i w.storage_servers s at))

-- The message for the server of index `i`, for a copy to that of index `j`.
abbrev pub copy_message : (i j : ℕ) (buffer : Bytes) → StorageServerInfo → Option Bytes
copy_message i j buffer to =
    if i == j then copysame_message buffer else copydifferent_message buffer to

-- The client is told that no server was found.
abbrev pub refused : (client : ℕ) → World → Outcome (Unit {0})
refused client w = ok tt (note (sent client (storage_server_not_found ++ 0 ∷ [])) w)

-- The message is sent to a socket, and an answer is awaited.
abbrev pub exchanged : (socket : ℕ) → Bytes → World → World
exchanged socket m w = note (received socket) (note (sent socket m) w)

module _ (net : Network) where
  -- What comes of an exchange: a message that does not get through, no answer, an answer that does
  -- not reach the client, or the end of the copy.
  abbrev pub Exchange :
      (client : ℕ) (src dest m : Bytes) (from to j : ℕ) → World → Outcome (Unit {0}) → Type 0
  Exchange client src dest m from to j w r =
      ((net.send_succeeds w.events from m ≡ false) × (r ≡ ok tt (note (sent from m) w)))
      ⊎ (((net.receive (sent from m ∷ w.events) from ≡ none) × (r ≡ ok tt (exchanged from m w)))
          ⊎ ((bytes : Bytes) × (net.receive (sent from m ∷ w.events) from ≡ some bytes)
              × (let told = net.send_succeeds (exchanged from m w).events client (c_string bytes) in
                  let w' = note (sent client (c_string bytes)) (exchanged from m w) in
                  ((told ≡ false) × (r ≡ ok tt w'))
                  ⊎ ((told ≡ true) × (r ≡ finish_copy net src dest to j w')))))

  forward_copy-Exchange :
      (client : ℕ) (src dest m : Bytes) (from to j : ℕ) (w : World)
      → Exchange client src dest m from to j w (forward_copy net client src dest m from to j w)
  unfolding forward_copy send_good recv_good
  forward_copy-Exchange client src dest m from to j w =
      elim (Bool-cases (net.send_succeeds w.events from m)) [
        | inr lost ↦ inl (lost, rw (forward_copy, ◌>>=◌, lost) refl)
        | inl passed ↦ elim (Option-cases (net.receive (sent from m ∷ w.events) from)) [
          | inl silent ↦ inr (inl (silent, rw (forward_copy, ◌>>=◌, passed, silent) refl))
          | inr (bytes, answered_) ↦
              elim (Bool-cases (
                net.send_succeeds (received from ∷ sent from m ∷ w.events) client
                  (c_string bytes))) [
                    | inl told ↦ inr (
                        inr (
                          bytes,
                          answered_,
                          inr (told, rw (forward_copy, ◌>>=◌, passed, answered_, told) refl),
                        ))
                    | inr untold ↦ inr (
                        inr (
                          bytes,
                          answered_,
                          inl (untold, rw (forward_copy, ◌>>=◌, passed, answered_, untold) refl),
                        ))
                  ]
        ]
      ]

  -- What comes of a copy behind the two searches: no server is found for one of the paths, one of
  -- them is down, the message overflows the buffer, or there is an exchange.
  abbrev pub End :
      (client : ℕ) (buffer src dest : Bytes) (r1 r2 : Option ℕ)
      → World
      → Outcome (Unit {0})
      → Type 0
  End client buffer src dest r1 r2 w r =
      (((r1 ≡ none) ⊎ (r2 ≡ none)) × (r ≡ refused client w))
      ⊎ ((i j : ℕ) × (from to : StorageServerInfo) × (r1 ≡ some i)
          × (r2 ≡ some j)
          × (get_elem? w.storage_servers i ≡ some from)
          × (get_elem? w.storage_servers j ≡ some to)
          × ((((from.is_up ≡ false) ⊎ (to.is_up ≡ false)) × (r ≡ refused client w))
              ⊎ (((copy_message i j buffer to ≡ none) × (r ≡ fault))
                  ⊎ ((m : Bytes) × (copy_message i j buffer to ≡ some m)
                      × Exchange client src dest m from.client_info_socket to.client_info_socket j w
                          r))))

  copy_at-up :
      (client : ℕ) (buffer src dest : Bytes) (i j : ℕ) (from to : StorageServerInfo) (w : World)
      → get_elem? w.storage_servers i ≡ some from
      → get_elem? w.storage_servers j ≡ some to
      → from.is_up ≡ true
      → to.is_up ≡ true
      → copy_at net client buffer src dest (some i) (some j) w
        ≡ (deref (copy_message i j buffer to) >>= λ m.
              forward_copy net client src dest m from.client_info_socket to.client_info_socket j)
            w
  unfolding copy_at get_server
  copy_at-up client buffer src dest i j from to w at at' up up' =
      rw (copy_at, ◌>>=◌, get_server, at, at', up, up') refl

  copy_at-End :
      (client : ℕ) (buffer src dest : Bytes) (r1 r2 : Option ℕ) (w : World)
      → in_range r1 ≡ true
      → in_range r2 ≡ true
      → IsValid w
      → End client buffer src dest r1 r2 w (copy_at net client buffer src dest r1 r2 w)
  unfolding copy_at get_server send_good reply
  copy_at-End client buffer src dest none r2 w h h' v = inl (inl refl, refl)
  copy_at-End client buffer src dest (some i) none w h h' v = inl (inr refl, refl)
  copy_at-End client buffer src dest (some i) (some j) w h h' v =
      let (from, at) = get_elem?-some i w.storage_servers (rw v.table (ltb→lt _ _ h)) in
      let (to, at') = get_elem?-some j w.storage_servers (rw v.table (ltb→lt _ _ h')) in
      elim (Bool-cases from.is_up) [
        | inr down ↦ inr (
          i,
          j,
          from,
          to,
          refl,
          refl,
          at,
          at',
          inl (inl down, rw (copy_at, ◌>>=◌, get_server, at, at', down) refl),
        )
        | inl up ↦ elim (Bool-cases to.is_up) [
          | inr down ↦ inr (
            i,
            j,
            from,
            to,
            refl,
            refl,
            at,
            at',
            inl (inr down, rw (copy_at, ◌>>=◌, get_server, at, at', up, down) refl),
          )
          | inl up' ↦
              let both = copy_at-up client buffer src dest i j from to w at at' up up' in
              elim (Option-cases (copy_message i j buffer to)) [
                | inl over ↦ inr (
                  i,
                  j,
                  from,
                  to,
                  refl,
                  refl,
                  at,
                  at',
                  inr (inl (over, both ∙ rw (over, ◌>>=◌) refl)),
                )
                | inr (m, fits) ↦
                    let e : copy_at net client buffer src dest (some i) (some j) w
                        ≡ forward_copy net client src dest m from.client_info_socket
                            to.client_info_socket j w =
                      both ∙ rw (fits, ◌>>=◌) refl in
                    inr (
                      i,
                      j,
                      from,
                      to,
                      refl,
                      refl,
                      at,
                      at',
                      inr (
                          inr (
                            m,
                            fits,
                            rw e (
                                forward_copy-Exchange client src dest m from.client_info_socket
                                  to.client_info_socket j w),
                          )),
                    )
              ]
        ]
      ]

  -- In a valid state, a copy of a client whose first three words are there, whose paths are no root
  -- paths and have fewer than `max_path` components, searches for the source and then for the
  -- destination, and the state is valid then. If one of them is not found, or its server is down, the
  -- client is told so. If the message does not fit the buffer, the behaviour is undefined. If not,
  -- the server of the source gets it: `copysame` if it has both paths, else `copydifferent` with the
  -- address of the other server. If the message does not get through, or no answer comes, nothing
  -- is sent to the client. An answer is passed on: if that fails, nothing follows, and if it succeeds,
  -- the destination is indexed again and its backups are told.
  pub handle_copy_request_lem :
      (client : ℕ) (buffer command src dest : Bytes) (words : List Bytes) (w : World)
      → IsValid w
      → starts_with buffer (codes "copy") ≡ true
      → strtok b' ' buffer ≡ command ∷ src ∷ dest ∷ words
      → is_root_path src ≡ false
      → is_root_path dest ≡ false
      → length (parse_path src) < max_path
      → length (parse_path dest) < max_path
      → (r1 r2 : Option ℕ) × (w1 w2 : World) × (search_storage_server net src w ≡ ok r1 w1)
        × (search_storage_server net dest w1 ≡ ok r2 w2)
        × IsValid w2
        × End client buffer src dest r1 r2 w2 (handle_copy_request net client buffer w)
  unfolding handle_copy_request copy_paths
  handle_copy_request_lem client buffer command src dest words w v copies split one two short
        short' =
      let (r1, w1, found, v1, below, _) = search_storage_server_lem net src w v short in
      let (r2, w2, found', v2, below', _) = search_storage_server_lem net dest w1 v1 short' in
      let e : handle_copy_request net client buffer w
          ≡ copy_at net client buffer src dest r1 r2 w2 =
        rw (handle_copy_request, copies, split, copy_paths, one, two, ◌>>=◌, found, found') refl in
      (
        r1,
        r2,
        w1,
        w2,
        found,
        found',
        v2,
        rw e (
            copy_at-End client buffer src dest r1 r2 w2 (in_table-in_range r1 w1 v1 below)
              (in_table-in_range r2 w2 v2 below') v2),
      )
