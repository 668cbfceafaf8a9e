-- ===== src/Naming/World.antt =====
-- The state of the naming server, its network, and the effects of its functions.
use network_file_system.Prelude.{
  ℕ, ◌+◌, ◌-◌, Bool, true, false, Option, none, some, List, ◌∷◌, Bytes, ◌≡◌, ◌<◌, lt→ltb, get_elem?,
  set, ltb, if◌then◌else◌,
}
use network_file_system.Tries.Defs.{Node}
use network_file_system.Naming.Cache.Defs.{LruCache}

abbrev pub max_storage_servers : ℕ
max_storage_servers = 10

abbrev pub buffer_size : ℕ
buffer_size = 1024

abbrev pub max_path_size : ℕ
max_path_size = 2048

-- `StorageServerInfo`. `ip` is the text of `clientInfo.addr.sin_addr`, `client_info_socket` is
-- `clientInfo.socket`; `root` is none where it is NULL, and a backup server is none where it is -1.
pub record StorageServerInfo : Type 0 where
  pub ip : Bytes
  pub client_info_socket : ℕ
  pub port_client : ℕ
  pub socket : ℕ
  pub root : Option Node
  pub backup_server1 : Option ℕ
  pub backup_server2 : Option ℕ
  pub is_up : Bool

-- What the naming server does to the outside.
pub data Event : Type 0 where
  sent : (socket : ℕ) → Bytes → Event
  received : (socket : ℕ) → Event
  pinged : (index : ℕ) → Event
  closed : (socket : ℕ) → Event

-- How far the ping of `isSSUp` gets.
pub data Ping : Type 0 where
  no_socket bad_address not_connected not_sent no_answer answered : Ping

-- The network answers by what happened so far: whether a send succeeds, what a receive returns
-- (none for 0 or less), how a ping ends, and the chunks that a storage server sends when it is
-- indexed, up to the first receive of 0 or less.
pub record Network : Type 0 where
  pub send_succeeds : List Event → (socket : ℕ) → Bytes → Bool
  pub receive : List Event → (socket : ℕ) → Option Bytes
  pub ping : List Event → (ip : Bytes) → (port : ℕ) → Ping
  pub index_chunks : List Event → (socket : ℕ) → List Bytes

-- The global variables, and the events so far, the latest first.
pub record World : Type 0 where
  pub storage_servers : List StorageServerInfo
  pub storage_server_index : ℕ
  pub cache : LruCache
  pub storage_semaphore : ℕ
  pub events : List Event

-- A function ends with a value, waits for ever on the semaphore, or has undefined behaviour: an
-- access out of bounds or through NULL.
pub data Outcome (A : Type 0) : Type 0 where
  ok : A → World → Outcome A
  blocked : Outcome A
  fault : Outcome A

abbrev pub M : Type 0 → Type 0
M A = World → Outcome A

infixl 5 ◌>>=◌ ◌>>◌
abbrev pub ◌>>=◌ : {A B : Type 0} → M A → (A → M B) → M B
◌>>=◌ m f w = elim (m w) [ ok a w' ↦ f a w' | blocked ↦ blocked | fault ↦ fault ]

abbrev pub ◌>>◌ : {A B : Type 0} → M A → M B → M B
m >> k = m >>= λ _. k

abbrev pub return : {A : Type 0} → A → M A
return a w = ok a w

abbrev pub undefined : {A : Type 0} → M A
undefined w = fault

-- `if (test) { ... }`
abbrev pub when : Bool → M (Unit {0}) → M (Unit {0})
when b m = if b then m else return tt

-- A pointer that is read: undefined where it is NULL.
abbrev pub deref : {A : Type 0} → Option A → M A
deref (some a) = return a
deref none = undefined

unfoldable pub sem_wait : M (Unit {0})
sem_wait w =
    if ltb 0 w.storage_semaphore
    then ok tt (record w { storage_semaphore = w.storage_semaphore - 1 })
    else blocked

pub sem_wait_lem :
    (w : World)
    → 0 < w.storage_semaphore
    → sem_wait w ≡ ok tt (record w { storage_semaphore = w.storage_semaphore - 1 })
unfolding sem_wait
sem_wait_lem w h = rw (lt→ltb _ _ h)

unfoldable pub sem_post : M (Unit {0})
sem_post w = ok tt (record w { storage_semaphore = w.storage_semaphore + 1 })

-- `storage_servers[i]`
unfoldable pub get_server : ℕ → M StorageServerInfo
get_server i w = elim (get_elem? w.storage_servers i) [ some s ↦ ok s w | none ↦ fault ]

unfoldable pub put_server : ℕ → StorageServerInfo → M (Unit {0})
put_server i s w = ok tt (record w { storage_servers = set w.storage_servers i s })

abbrev pub get_world : M World
get_world w = ok w w

abbrev pub put_cache : LruCache → M (Unit {0})
put_cache c w = ok tt (record w { cache = c })

abbrev pub note : Event → World → World
note e w = record w { events = e ∷ w.events }

abbrev pub note_event : Event → M (Unit {0})
note_event e w = ok tt (note e w)

module _ (net : Network) where
  -- `send_good` and `recv_good` of helper.c. A result below 0 is false, and one of 0 or less none.
  unfoldable pub send_good : (socket : ℕ) → Bytes → M Bool
  send_good socket text w = ok (net.send_succeeds w.events socket text) (note (sent socket text) w)

  unfoldable pub recv_good : (socket : ℕ) → M (Option Bytes)
  recv_good socket w = ok (net.receive w.events socket) (note (received socket) w)

  -- The value of `isUp` that the ping leaves, and what `isSSUp` returns.
  unfoldable pub is_up_after : Ping → Bool → Bool
  is_up_after no_socket up = up
  is_up_after bad_address up = up
  is_up_after not_connected up = false
  is_up_after not_sent up = false
  is_up_after no_answer up = false
  is_up_after answered up = true

  unfoldable pub is_answered : Ping → Bool
  is_answered answered = true
  is_answered p = false

  -- `isSSUp`
  unfoldable pub is_ss_up : ℕ → M Bool
  unfolding get_server put_server is_up_after is_answered
  is_ss_up index = do
    ss ← get_server index
    w ← get_world
    let p = net.ping w.events ss.ip ss.port_client
    note_event (pinged index)
    put_server index (record ss { is_up = is_up_after p ss.is_up })
    return (is_answered p)

  -- `index != -1 && isSSUp(index)`
  unfoldable pub is_backup_up : Option ℕ → M Bool
  is_backup_up none = return false
  is_backup_up (some b) = is_ss_up b

  -- `redundantSS`: none for -1.
  unfoldable pub redundant_ss : ℕ → M (Option ℕ)
  unfolding is_ss_up get_server is_backup_up
  redundant_ss index = do
    up ← is_ss_up index
    if up then return (some index) else do
      ss ← get_server index
      first ← is_backup_up ss.backup_server1
      if first then return ss.backup_server1 else do
        second ← is_backup_up ss.backup_server2
        return (if second then ss.backup_server2 else none)
