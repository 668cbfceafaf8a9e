-- ===== src/Naming/System/Commands.antt =====
-- The commands of clients but the copies: the invariant.
use network_file_system.Prelude.{ℕ, refl, Option, none, some, Bytes}
use network_file_system.Tries.Defs.{Node}
use network_file_system.Naming.World.{StorageServerInfo, Network, put_server}
use network_file_system.Naming.Commands.Text.{
  reply, exported_folder, exported_name, storage_server_not_responding, storage_server_not_found,
}
use network_file_system.Naming.Commands.Backup.{send_to_backup, send_to_backups}
use network_file_system.Naming.Commands.Create.{created, on_created, forward_create}
use network_file_system.Naming.Commands.Remove.{removed, on_removed, forward_remove}
use network_file_system.Naming.Commands.Lookup.{reply_at, send_redundancy, lookup_at, write_at}
use network_file_system.Naming.System.Keeps.{
  Keeps-undefined, Keeps, keeps, Keeps-return, Keeps-undefined, Keeps-put_server, Keeps-send_good,
  Keeps-recv_good, Keeps-is_ss_up, Keeps-redundant_ss,
}

pub Keeps-exported_folder : (k n r : ℕ) (root : Option Node) → Keeps k n r (exported_folder root)
unfolding exported_folder
Keeps-exported_folder k n r root = search keeps depth 30

pub Keeps-exported_name : (k n r : ℕ) (root : Option Node) → Keeps k n r (exported_name root)
unfolding exported_name
Keeps-exported_name k n r root = search (keeps, Keeps-exported_folder) depth 30

module _ (net : Network) (k n r : ℕ) where
  pub Keeps-reply : (client : ℕ) (text : Bytes) → Keeps k n r (reply net client text)
  unfolding reply
  Keeps-reply client text = search (keeps, Keeps-send_good) depth 30

  Keeps-send_to_backup :
      (b : Option ℕ) (command path : Bytes) → Keeps k n r (send_to_backup net b command path)
  unfolding send_to_backup
  Keeps-send_to_backup none command path = Keeps-return k n r tt
  Keeps-send_to_backup (some b) command path =
      search (keeps, Keeps-is_ss_up, Keeps-send_good) depth 30

  Keeps-send_to_backups :
      (ss : StorageServerInfo) (command path : Bytes)
      → Keeps k n r (send_to_backups net ss command path)
  unfolding send_to_backups
  Keeps-send_to_backups ss command path = search (keeps, Keeps-send_to_backup) depth 30

  has_tree :
      (i : ℕ) (s : StorageServerInfo) (t : Node)
      → Keeps k n r (put_server i (record s { root = some t }))
  has_tree i s t = Keeps-put_server k n r i (record s { root = some t }) refl

  Keeps-created : (i : ℕ) (command path : Bytes) → Keeps k n r (created net i command path)
  unfolding created
  Keeps-created i command path = search (keeps, Keeps-send_to_backups, has_tree) depth 30

  Keeps-removed : (i : ℕ) (command path : Bytes) → Keeps k n r (removed net i command path)
  unfolding removed
  Keeps-removed i command path = search (keeps, Keeps-send_to_backups, has_tree) depth 30

  Keeps-on_created :
      (client i : ℕ) (command path : Bytes) (answer : Option Bytes)
      → Keeps k n r (on_created net client i command path answer)
  unfolding on_created
  Keeps-on_created client i command path none = Keeps-reply client storage_server_not_responding
  Keeps-on_created client i command path (some bytes) =
      search (keeps, Keeps-reply, Keeps-created) depth 30

  pub Keeps-forward_create :
      (client i : ℕ) (buffer command path : Bytes) (ss : StorageServerInfo)
      → Keeps k n r (forward_create net client i buffer command path ss)
  unfolding forward_create
  Keeps-forward_create client i buffer command path ss =
      search (keeps, Keeps-send_good, Keeps-recv_good, Keeps-on_created) depth 30

  Keeps-on_removed :
      (client i : ℕ) (command path : Bytes) (answer : Option Bytes)
      → Keeps k n r (on_removed net client i command path answer)
  unfolding on_removed
  Keeps-on_removed client i command path none = Keeps-reply client storage_server_not_responding
  Keeps-on_removed client i command path (some bytes) =
      search (keeps, Keeps-reply, Keeps-removed) depth 30

  pub Keeps-forward_remove :
      (client i : ℕ) (buffer command path : Bytes) (ss : StorageServerInfo)
      → Keeps k n r (forward_remove net client i buffer command path ss)
  unfolding forward_remove
  Keeps-forward_remove client i buffer command path ss =
      search (keeps, Keeps-send_good, Keeps-recv_good, Keeps-on_removed) depth 30

  pub Keeps-write_at :
      (client : ℕ) (flag : Bytes) (found : Option ℕ) → Keeps k n r (write_at net client flag found)
  unfolding write_at
  Keeps-write_at client flag none = Keeps-reply client storage_server_not_found
  Keeps-write_at client flag (some i) = search (keeps, Keeps-reply) depth 30

  Keeps-send_redundancy : (client : ℕ) (b : Option ℕ) → Keeps k n r (send_redundancy net client b)
  unfolding send_redundancy
  Keeps-send_redundancy client none = Keeps-undefined k n r Unit
  Keeps-send_redundancy client (some b) = search (keeps, Keeps-exported_name, Keeps-reply) depth 30

  Keeps-reply_at : (client i : ℕ) (index : Option ℕ) → Keeps k n r (reply_at net client i index)
  unfolding reply_at
  Keeps-reply_at client i index = search (keeps, Keeps-reply, Keeps-send_redundancy) depth 30

  pub Keeps-lookup_at : (client : ℕ) (found : Option ℕ) → Keeps k n r (lookup_at net client found)
  unfolding lookup_at
  Keeps-lookup_at client none = Keeps-undefined k n r (Unit {0})
  Keeps-lookup_at client (some i) = search (keeps, Keeps-redundant_ss, Keeps-reply_at) depth 30
