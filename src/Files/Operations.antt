-- ===== src/Files/Operations.antt =====
-- `create_directory`, `delete_directory`, `create_file` and `remove_file`.
use network_file_system.Prelude.{
  Bool, true, false, Option, none, some, ◌++◌, Bytes, codes, snprintf, if◌then◌else◌,
}
use network_file_system.Naming.World.{buffer_size}
use network_file_system.Transfer.Send.{line_feed}
use network_file_system.Storage.Listen.{Operation}
use network_file_system.Storage.Listen

-- What the file system of the host does on a path: whether `mkdir`, `rmdir`, `fopen` with "w" and
-- `remove` succeed.
pub record Host : Type 0 where
  pub mkdir : Bytes → Bool
  pub rmdir : Bytes → Bool
  pub fopen : Bytes → Bool
  pub remove : Bytes → Bool

-- What `buffer2` holds, and whether the function returns 0.
pub record Reply : Type 0 where
  pub text : Bytes
  pub succeeded : Bool

abbrev pub invalid_format : Reply
invalid_format = record {
  text = snprintf buffer_size (codes "Invalid command format" ++ line_feed);
  succeeded = false;
}

-- The reply with `text` and the path.
unfoldable pub path_reply : (text path : Bytes) → Bool → Reply
path_reply text path succeeded = record {
  text = snprintf buffer_size (text ++ codes " @ " ++ path ++ line_feed);
  succeeded = succeeded;
}

-- The argument is none where `args[1]` is NULL.
unfoldable pub create_directory : Host → Option Bytes → Reply
unfolding path_reply
create_directory host none = invalid_format
create_directory host (some path) =
    if host.mkdir path
    then path_reply (codes "Created folder") path true
    else path_reply (codes "Could not create folder") path false

unfoldable pub delete_directory : Host → Option Bytes → Reply
unfolding path_reply
delete_directory host none = invalid_format
delete_directory host (some path) =
    if host.rmdir path
    then path_reply (codes "Deleted folder") path true
    else path_reply (codes "Could not delete folder") path false

unfoldable pub create_file : Host → Option Bytes → Reply
unfolding path_reply
create_file host none = invalid_format
create_file host (some path) =
    if host.fopen path
    then path_reply (codes "Created file") path true
    else path_reply (codes "Could not create file") path false

unfoldable pub remove_file : Host → Option Bytes → Reply
unfolding path_reply
remove_file host none = invalid_format
remove_file host (some path) =
    if host.remove path
    then path_reply (codes "Removed file") path true
    else path_reply (codes "Could not remove file") path false

-- The function of `listen_to_nm` for an operation.
unfoldable pub run : Operation → Host → Option Bytes → Reply
unfolding create_directory delete_directory create_file remove_file
run Listen.create_file = create_file
run Listen.delete_directory = delete_directory
run Listen.remove_file = remove_file
run Listen.create_directory = create_directory
