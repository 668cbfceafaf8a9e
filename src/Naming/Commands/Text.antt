-- ===== src/Naming/Commands/Text.antt =====
-- The messages of `process_client`, and the short pieces that its branches share.
use network_file_system.Prelude.{ℕ, Bool, ◌||◌, Option, none, some, [], Bytes, codes, str_eq}
use network_file_system.Tries.Defs.{Node, Slots, end, null, child, childeren, name}
use network_file_system.Naming.World.{Network, M, ◌>>=◌, ◌>>◌, return, deref, send_good}

-- Whether `process_client` goes on to the next command, or returns.
pub data Control : Type 0 where
  next_command client_closed : Control

abbrev pub storage_server_not_found : Bytes
storage_server_not_found = codes "Storage server not found"

abbrev pub storage_server_not_responding : Bytes
storage_server_not_responding = codes "Storage server not responding"

abbrev pub invalid_path : Bytes
invalid_path = codes "Invalid Path"

abbrev pub could_not : Bytes
could_not = codes "Could not"

-- The test in front of the branches: the paths that no command takes.
abbrev pub is_root_path : Bytes → Bool
is_root_path path = str_eq path (codes "/") || str_eq path (codes "./")

-- The test of `mkdir`, `touch`, `rmdir` and `rm`.
unfoldable pub is_invalid_path : Bytes → Bool
is_invalid_path path =
    str_eq path (codes "./")
    || str_eq path (codes ".")
    || str_eq path (codes "/")
    || str_eq path []
    || str_eq path (codes " ")

unfoldable pub first_slot : Slots → Option Node
first_slot end = none
first_slot (null s) = none
first_slot (child n s) = some n

-- `root->childeren[0]->childeren[0]`, a pointer that may be NULL.
unfoldable pub exported_folder : Option Node → M (Option Node)
unfolding first_slot
exported_folder root = do
  r ← deref root
  top ← deref (first_slot (childeren r))
  return (first_slot (childeren top))

-- `...->data`
unfoldable pub exported_name : Option Node → M Bytes
unfolding exported_folder
exported_name root = do folder ← exported_folder root; n ← deref folder; return (name n)

module _ (net : Network) where
  -- A message whose failure is printed and nothing else.
  unfoldable pub reply : (client : ℕ) → Bytes → M (Unit {0})
  unfolding send_good
  reply client text = do send_good net client text; return tt
