-- ===== src/Files/Replies.antt =====
-- The replies of the operations, as the naming server reads them.
use network_file_system.Prelude.{◌≡◌, refl, not, Bool-cases, inl, inr, some, Bytes, starts_with}
use network_file_system.Naming.Commands.Text.{could_not}
use network_file_system.Storage.Listen.{Operation}
use network_file_system.Storage.Listen
use network_file_system.Files.Operations.{Host, run}

-- For an operation on a path, whatever its length is, the naming server's test of the reply tells
-- whether the operation failed: it starts with "Could not" exactly if the function returns -1.
pub starts_with-run :
    (op : Operation) (host : Host) (path : Bytes)
    → starts_with ((run op host (some path)).text) could_not
      ≡ not ((run op host (some path)).succeeded)
unfolding run starts_with
starts_with-run Listen.create_file host path = elim (Bool-cases (host.fopen path)) [
  | inl e ↦ rw e refl
  | inr e ↦ rw e refl
]
starts_with-run Listen.delete_directory host path = elim (Bool-cases (host.rmdir path)) [
  | inl e ↦ rw e refl
  | inr e ↦ rw e refl
]
starts_with-run Listen.remove_file host path = elim (Bool-cases (host.remove path)) [
  | inl e ↦ rw e refl
  | inr e ↦ rw e refl
]
starts_with-run Listen.create_directory host path = elim (Bool-cases (host.mkdir path)) [
  | inl e ↦ rw e refl
  | inr e ↦ rw e refl
]
