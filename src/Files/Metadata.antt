-- ===== src/Files/Metadata.antt =====
-- `send_file_metadata`.
use network_file_system.Prelude.{
  ℕ, ◌/◌, ◌%◌, ◌^◌, Bool, Option, none, some, [], ◌∷◌, ◌++◌, Bytes, codes, decimal, snprintf, ◌==◌,
  if◌then◌else◌,
}
use network_file_system.Transfer.Text.{decimal_long}
use network_file_system.Transfer.Send.{P, ◌>>◌, return, line_feed}

-- What `stat` tells, where `is_directory` is `S_ISDIR` of the mode, and the times are the texts of
-- `ctime`. The numbers are not negative.
pub record Stat : Type 0 where
  pub is_directory : Bool
  pub mode : ℕ
  pub size : ℕ
  pub blocks : ℕ
  pub block_size : ℕ
  pub links : ℕ
  pub uid : ℕ
  pub gid : ℕ
  pub access_time : Bytes
  pub modification_time : Bytes
  pub change_time : Bytes

-- A bit of the mode, counted from the last, and its letter.
abbrev pub mode_char : (mode bit letter : ℕ) → ℕ
mode_char mode bit letter = if mode / 2 ^ bit % 2 == 1 then letter else b'-'

unfoldable pub permissions : Stat → Bytes
permissions s =
    (if s.is_directory then b'd' else b'-')
    ∷ mode_char s.mode 8 b'r'
    ∷ mode_char s.mode 7 b'w'
    ∷ mode_char s.mode 6 b'x'
    ∷ mode_char s.mode 5 b'r'
    ∷ mode_char s.mode 4 b'w'
    ∷ mode_char s.mode 3 b'x'
    ∷ mode_char s.mode 2 b'r'
    ∷ mode_char s.mode 1 b'w'
    ∷ mode_char s.mode 0 b'x'
    ∷ []

abbrev ruler : Bytes
ruler = codes "-----------------------------------" ++ line_feed

abbrev metadata_buffer : ℕ
metadata_buffer = 1024

unfoldable pub metadata_text : (path : Bytes) → Stat → Bytes
unfolding permissions
metadata_text path s = snprintf metadata_buffer (
    codes "Metadata for file or path: "
    ++ path
    ++ line_feed
    ++ ruler
    ++ codes "File Size: "
    ++ decimal_long s.size
    ++ codes " bytes"
    ++ line_feed
    ++ codes "Number of Blocks: "
    ++ decimal_long s.blocks
    ++ line_feed
    ++ codes "Block Size: "
    ++ decimal_long s.block_size
    ++ codes " bytes"
    ++ line_feed
    ++ codes "File Permissions: "
    ++ permissions s
    ++ line_feed
    ++ codes "Number of Links: "
    ++ decimal_long s.links
    ++ line_feed
    ++ codes "File Owner (UID): "
    ++ decimal s.uid
    ++ line_feed
    ++ codes "File Group (GID): "
    ++ decimal s.gid
    ++ line_feed
    ++ codes "Last Access Time: "
    ++ s.access_time
    ++ codes "Last Modification Time: "
    ++ s.modification_time
    ++ codes "Last Status Change Time: "
    ++ s.change_time
    ++ ruler)

module _ {W : Type 0} (send : Bytes → P W Bool) where
  -- The file is none where `stat` fails.
  unfoldable pub send_file_metadata : (path : Bytes) → (Bytes → Option Stat) → P W (Unit {0})
  unfolding metadata_text
  send_file_metadata path stat = elim (stat path) [
    | none ↦ do
      send (
          snprintf metadata_buffer
            (codes "Error retrieving file metadata for " ++ path ++ line_feed))
      return tt
    | some s ↦ do send (metadata_text path s); return tt
  ]
