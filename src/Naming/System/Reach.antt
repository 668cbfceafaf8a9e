-- ===== src/Naming/System/Reach.antt =====
-- The states that the naming server reaches by whole requests, one after the other.
use network_file_system.Prelude.{
  ℕ, ◌<◌, ◌≡◌, ◌≢◌, refl, Option, none, some, false, List, [], Bytes, replicate,
}
use network_file_system.Naming.Cache.Defs.{initialize_cache}
use network_file_system.Naming.Cache.View.{initialize_cache-view}
use network_file_system.Naming.World.{
  StorageServerInfo, Network, World, Outcome, ok, blocked, max_storage_servers,
}
use network_file_system.Naming.Valid.{IsValid}
use network_file_system.Naming.Commands.Text.{Control}
use network_file_system.Naming.Copy.Defs.{process_command, process_client, register}
use network_file_system.Naming.Async.Defs.{Sockets, listen_async}
use network_file_system.Naming.System.Keeps.{Safe}
use network_file_system.Naming.System.Valid.{StaysValid}
use network_file_system.Naming.System.Process.{StaysValid-process_command}
use network_file_system.Naming.System.Session.{StaysValid-process_client}
use network_file_system.Naming.System.Acknowledge.{StaysValid-listen_async}
use network_file_system.Naming.System.Registration.{register-Safe}

-- An entry of the table as it is at the start, all bytes zero.
abbrev zeroed : StorageServerInfo
zeroed = record {
  ip = [];
  client_info_socket = 0;
  port_client = 0;
  socket = 0;
  root = none;
  backup_server1 = some 0;
  backup_server2 = some 0;
  is_up = false;
}

-- The global variables behind the start of `main`.
unfoldable pub start : World
start = record {
  storage_servers = replicate max_storage_servers zeroed;
  storage_server_index = 0;
  cache = initialize_cache;
  storage_semaphore = 1;
  events = [];
}

-- One request: a command of a client, an acknowledgement of a storage server, or a registration
-- while there is room in the table.
pub data Step (net : Network) (host : Sockets) : World → World → Type 0 where
  command :
      {w w' : World} {c : Control} (client : ℕ) (buffer : Bytes)
      → process_command net client buffer w ≡ ok c w'
      → Step net host w w'
  acknowledgement :
      {w w' : World} (client : ℕ) → listen_async net host client w ≡ ok tt w' → Step net host w w'
  registration :
      {w w' : World} (socket : ℕ) (ip : Bytes) (info : Option ℕ)
      → w.storage_server_index < max_storage_servers
      → register net socket ip info w ≡ ok tt w'
      → Step net host w w'

pub data Reach (net : Network) (host : Sockets) : World → Type 0 where
  at_start : Reach net host start
  next : {w w' : World} → Reach net host w → Step net host w w' → Reach net host w'

start-IsValid : IsValid start
unfolding start
start-IsValid =
    let (kept, empty_) = initialize_cache-view in
    record { cached = kept; known = rw empty_ refl; table = refl; trees = refl; free = refl }

Safe-result :
    {A : Type 0} (o : Outcome A) (a : A) (w : World)
    → Safe o (λ b v. IsValid v)
    → o ≡ ok a w
    → IsValid w
Safe-result o a w h e = rw e at h

Safe-blocked : {A : Type 0} (o : Outcome A) → Safe o (λ b v. IsValid v) → o ≢ blocked
Safe-blocked o h e = rw e at h

module _ (net : Network) (host : Sockets) where
  Step-IsValid : (w w' : World) → IsValid w → Step net host w w' → IsValid w'
  unfolding StaysValid
  Step-IsValid w w' v (command client buffer e) =
      Safe-result _ _ w' (StaysValid-process_command net client buffer w v) e
  Step-IsValid w w' v (acknowledgement client e) =
      Safe-result _ _ w' (StaysValid-listen_async net host client w v) e
  Step-IsValid w w' v (registration socket ip info room e) =
      Safe-result _ _ w' (register-Safe net socket ip info w v room) e

  -- From the start of the naming server, through any commands of clients, acknowledgements of storage
  -- servers and registrations, the last while there is room in the table, one request after the other,
  -- with any network: the state is valid. The cache is well formed and names registered servers only,
  -- the table has its length, every registered server has a tree, and the semaphore is at 1.
  pub Reach-IsValid : (w : World) → Reach net host w → IsValid w
  Reach-IsValid w at_start = start-IsValid
  Reach-IsValid w (next {w = v} reached step) = Step-IsValid v w (Reach-IsValid v reached) step

  -- In a state that is reached so, `process_client` on any messages of a client, and `listen_async` on
  -- what a storage server sends, whatever it says, do not wait for ever on the semaphore.
  pub Reach-not_blocked :
      (w : World) (client : ℕ) (messages : List Bytes)
      → Reach net host w
      → (process_client net client messages w ≢ blocked)
        × (listen_async net host client w ≢ blocked)
  unfolding StaysValid
  Reach-not_blocked w client messages reached =
      let v = Reach-IsValid w reached in
      (
        Safe-blocked _ (StaysValid-process_client net client messages w v),
        Safe-blocked _ (StaysValid-listen_async net host client w v),
      )

  -- Nor does a registration while there is room in the table.
  pub Reach-register :
      (w : World) (socket : ℕ) (ip : Bytes) (info : Option ℕ)
      → Reach net host w
      → w.storage_server_index < max_storage_servers
      → register net socket ip info w ≢ blocked
  Reach-register w socket ip info reached room =
      Safe-blocked _ (register-Safe net socket ip info w (Reach-IsValid w reached) room)
