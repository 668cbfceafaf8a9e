-- ===== src/Tests/States.antt =====
-- A small state of the naming server, and a network on which everything succeeds.
use network_file_system.Prelude.{refl, arith, true, false, none, some, [], ◌∷◌, codes, replicate}
use network_file_system.Tries.Defs.{Node, node, end, null, child}
use network_file_system.Naming.Cache.Defs.{LruCache}
use network_file_system.Naming.Cache.View
use network_file_system.Naming.World.{StorageServerInfo, answered, Network, World}
use network_file_system.Naming.Valid.{IsValid}

abbrev pub two_cached : LruCache
two_cached = record {
  queue =
      record { key = some (codes "a"); index = some 0 }
      ∷ record { key = some (codes "b"); index = some 0 }
      ∷ record { key = none; index = none }
      ∷ [];
  size = 2;
}

pub two_cached-IsValid : View.IsValid two_cached
two_cached-IsValid = record { whole = refl; bounded = omega arith }

-- One storage server, which exports `notes`.
abbrev pub tree : Node
tree = node false (codes ".") (child (node false (codes "notes") (null end)) (null end))

abbrev pub unused : StorageServerInfo
unused = record {
  ip = [];
  client_info_socket = 0;
  port_client = 0;
  socket = 0;
  root = none;
  backup_server1 = none;
  backup_server2 = none;
  is_up = false;
}

abbrev pub server : StorageServerInfo
server = record unused {
  ip = codes "10.0.0.2";
  client_info_socket = 5;
  root = some tree;
  is_up = true;
}

abbrev pub world : World
world = record {
  storage_servers = server ∷ replicate 9 unused;
  storage_server_index = 1;
  cache = two_cached;
  storage_semaphore = 1;
  events = [];
}

pub world-IsValid : IsValid world
world-IsValid = record {
  cached = two_cached-IsValid;
  known = refl;
  table = refl;
  trees = refl;
  free = refl;
}

-- Every send succeeds, a storage server answers `done`, and every ping is answered.
abbrev pub net : Network
net = record {
  send_succeeds = λ e s t. true;
  receive = λ e s. some (codes "done");
  ping = λ e i p. answered;
  index_chunks = λ e s. [];
}
