-- ===== src/Naming/Backups.antt =====
-- `redundantSS`: the server that stands in for one that is down.
use network_file_system.Prelude.{
  ℕ, zero, suc, ◌<◌, ◌≡◌, refl, ◌∙◌, Bool, true, false, Option, none, some, Bool-cases, inl, inr,
  arith, List, [], ◌∷◌, length, get_elem?, set, ◌⊎◌, ltb, ltb→lt, if◌then◌else◌,
}
use network_file_system.Naming.World.{
  StorageServerInfo, Network, Ping, no_socket, bad_address, not_connected, not_sent, no_answer,
  answered, World, ok, ◌>>=◌, is_ss_up, is_backup_up, is_up_after, is_answered, redundant_ss,
  get_server, max_storage_servers,
}
use network_file_system.Naming.Valid.{IsValid}
use network_file_system.Naming.Ping.{after_ping, is_ss_up_lem, after_ping-IsValid}

-- A backup is in the table, if there is one.
abbrev pub is_in_range : Option ℕ → Bool
is_in_range none = true
is_in_range (some b) = ltb b max_storage_servers

-- The server of the index is up.
abbrev pub IsUp : Option ℕ → World → Type 0
IsUp none w = Unit
IsUp (some j) w =
    (s : StorageServerInfo) × (get_elem? w.storage_servers j ≡ some s) × (s.is_up ≡ true)

pub get_elem?-some :
    (i : ℕ) (servers : List StorageServerInfo)
    → i < length servers
    → (s : StorageServerInfo) × (get_elem? servers i ≡ some s)
get_elem?-some i [] h = absurd (omega arith)
get_elem?-some zero (s ∷ servers) h = (s, refl)
get_elem?-some (suc i) (s ∷ servers) h = get_elem?-some i servers (omega arith)

get_elem?-put :
    (i : ℕ) (servers : List StorageServerInfo) (s t : StorageServerInfo)
    → get_elem? servers i ≡ some s
    → get_elem? (set servers i t) i ≡ some t
get_elem?-put i [] s t h = cc
get_elem?-put zero (r ∷ servers) s t h = refl
get_elem?-put (suc i) (r ∷ servers) s t h = get_elem?-put i servers s t h

module _ (net : Network) where
  answered-is_up_after :
      (p : Ping) (up : Bool) → is_answered net p ≡ true → is_up_after net p up ≡ true
  unfolding is_answered is_up_after
  answered-is_up_after answered up h = refl
  answered-is_up_after no_socket up h = cc
  answered-is_up_after bad_address up h = cc
  answered-is_up_after not_connected up h = cc
  answered-is_up_after not_sent up h = cc
  answered-is_up_after no_answer up h = cc

  -- One ping of a server in the table.
  ping_lem :
      (i : ℕ) (s : StorageServerInfo) (w : World)
      → IsValid w
      → get_elem? w.storage_servers i ≡ some s
      → (up : Bool) × (w' : World) × (s' : StorageServerInfo) × (is_ss_up net i w ≡ ok up w')
        × IsValid w'
        × (get_elem? w'.storage_servers i ≡ some s')
        × (s'.backup_server1 ≡ s.backup_server1)
        × (s'.backup_server2 ≡ s.backup_server2)
        × (up ≡ true → s'.is_up ≡ true)
  ping_lem i s w v at =
      let p = net.ping w.events s.ip s.port_client in
      let s' : StorageServerInfo = record s { is_up = is_up_after net p s.is_up } in
      (
        is_answered net p,
        after_ping net i s w,
        s',
        is_ss_up_lem net i s w at,
        after_ping-IsValid net i s w at v,
        get_elem?-put i w.storage_servers s s' at,
        refl,
        refl,
        answered-is_up_after p s.is_up,
      )

  -- The ping of a backup, if there is one.
  backup_lem :
      (b : Option ℕ) (w : World)
      → IsValid w
      → is_in_range b ≡ true
      → (up : Bool) × (w' : World) × (is_backup_up net b w ≡ ok up w')
        × IsValid w'
        × IsUp (if up then b else none) w'
  unfolding is_backup_up
  backup_lem none w v h = (false, w, refl, v, tt)
  backup_lem (some j) w v h =
      let (s, at) = get_elem?-some j w.storage_servers (rw v.table (ltb→lt _ _ h)) in
      let (up, w', s', pinged_, v', at', _, _, is_up) = ping_lem j s w v at in
      elim (Bool-cases up) [
        | inl e ↦ (true, w', pinged_ ∙ rw e refl, v', (s', at', is_up e))
        | inr e ↦ (false, w', pinged_ ∙ rw e refl, v', tt)
      ]

  -- In a valid state, for a server of the table whose backups are in the table, the search for a
  -- stand-in ends in a valid state. It pings the server itself, and if that does not answer its first
  -- backup, and if that does not answer its second one, each in the state that the ping before it
  -- leaves. Its answer is the first of them that answers, which is up then, and -1 only if none
  -- answers; a backup that is -1 is not pinged and does not answer.
  pub redundant_ss_lem :
      (i : ℕ) (s : StorageServerInfo) (w : World)
      → IsValid w
      → get_elem? w.storage_servers i ≡ some s
      → is_in_range s.backup_server1 ≡ true
      → is_in_range s.backup_server2 ≡ true
      → (r : Option ℕ) × (w' : World) × (redundant_ss net i w ≡ ok r w')
        × IsValid w'
        × IsUp r w'
        × (((r ≡ some i) × (is_ss_up net i w ≡ ok true w'))
            ⊎ ((w1 : World) × (is_ss_up net i w ≡ ok false w1)
                × (((r ≡ s.backup_server1) × (is_backup_up net s.backup_server1 w1 ≡ ok true w'))
                    ⊎ ((w2 : World) × (is_backup_up net s.backup_server1 w1 ≡ ok false w2)
                        × (((r ≡ s.backup_server2)
                              × (is_backup_up net s.backup_server2 w2 ≡ ok true w'))
                            ⊎ ((r ≡ none)
                                × (is_backup_up net s.backup_server2 w2 ≡ ok false w')))))))
  unfolding redundant_ss get_server ping_lem
  redundant_ss_lem i s w v at range1 range2 =
      let (up, w1, s1, pinged_, v1, at1, b1, b2, is_up) = ping_lem i s w v at in
      let (first, w2, asked1, v2, up2) = backup_lem s.backup_server1 w1 v1 range1 in
      let (second, w3, asked2, v3, up3) = backup_lem s.backup_server2 w2 v2 range2 in
      elim (Bool-cases up) [
        | inl e ↦ (
          some i,
          w1,
          rw (redundant_ss, ◌>>=◌, pinged_, e) refl,
          v1,
          (s1, at1, is_up e),
          inl (refl, rw e at pinged_),
        )
        | inr e ↦ elim (Bool-cases first) [
          | inl f ↦ (
            s.backup_server1,
            w2,
            rw (redundant_ss, ◌>>=◌, pinged_, e, at1, b1, asked1, f) refl,
            v2,
            (rw f at up2),
            inr (w1, rw e at pinged_, inl (refl, rw f at asked1)),
          )
          | inr f ↦ elim (Bool-cases second) [
            | inl g ↦ (
              s.backup_server2,
              w3,
              rw (redundant_ss, ◌>>=◌, pinged_, e, at1, b1, b2, asked1, f, asked2, g) refl,
              v3,
              (rw g at up3),
              inr (w1, rw e at pinged_, inr (w2, rw f at asked1, inl (refl, rw g at asked2))),
            )
            | inr g ↦ (
              none,
              w3,
              rw (redundant_ss, ◌>>=◌, pinged_, e, at1, b1, b2, asked1, f, asked2, g) refl,
              v3,
              tt,
              inr (w1, rw e at pinged_, inr (w2, rw f at asked1, inr (refl, rw g at asked2))),
            )
          ]
        ]
      ]
