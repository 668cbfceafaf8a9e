-- ===== src/Storage/Listen.antt =====
-- `listen_to_nm`: what a storage server does on one command of the naming server.
use network_file_system.Prelude.{
  Bool, Option, none, some, ◌++◌, Bytes, codes, drop, starts_with, strtok, snprintf, get_elem?,
  length, leb, if◌then◌else◌,
}
use network_file_system.Naming.World.{max_path_size}

-- The functions of helper.c on the storage server's files.
pub data Operation : Type 0 where
  create_file delete_directory remove_file create_directory : Operation

-- Which of the three copies to another storage server.
pub data Copy : Type 0 where
  copydifferentb lcopy copydifferent : Copy

-- `on_backup` is an operation on the path below `backupfolderforss`, without an answer; the path of
-- `under_lock` is removed under its delete lock. `copy_to` takes the fourth and the fifth word as
-- address and port. `nothing` sends back a buffer in which nothing was written.
pub data Action : Type 0 where
  on_backup perform : Operation → (path : Bytes) → Action
  under_lock : (path : Bytes) → Action
  copy_to : Copy → (ip port : Option Bytes) → Action
  write : (command : Bytes) → Action
  reindex : Action
  copy_same : (command : Bytes) → Action
  nothing : Action

-- The first message to the destination of a copy.
unfoldable pub copy_greeting : Copy → Bytes
copy_greeting copydifferentb = codes "sscopyb"
copy_greeting lcopy = codes "sscopy"
copy_greeting copydifferent = codes "sscopy"

-- `args[1]`, which stays uninitialised without a second word.
unfoldable pub first_argument : Bytes → Option Bytes
first_argument buffer = get_elem? (strtok b' ' buffer) 1

-- `args[1] + 2`, within its bytes.
unfoldable pub skip_two : Bytes → Option Bytes
skip_two path = if leb 2 (length path) then some (drop 2 path) else none

unfoldable pub backup_path : (root path : Bytes) → Option Bytes
unfolding skip_two
backup_path root path = elim (skip_two root) [
  | none ↦ none
  | some front ↦ elim (skip_two path) [
    | none ↦ none
    | some rest ↦
        some (snprintf max_path_size (codes "./backupfolderforss/" ++ front ++ codes "/" ++ rest))
  ]
]

abbrev on_argument : (Bytes → Option Action) → Bytes → Option Action
on_argument f buffer = elim (first_argument buffer) [ some path ↦ f path | none ↦ none ]

unfoldable pub backup : (root : Bytes) → Operation → Bytes → Option Action
unfolding first_argument backup_path
backup root operation buffer =
    on_argument
      (λ path. elim (backup_path root path) [ some p ↦ some (on_backup operation p) | none ↦ none ])
      buffer

unfoldable pub copy_words : Copy → Bytes → Option Action
copy_words c buffer =
    let words = strtok b' ' buffer in some (copy_to c (get_elem? words 3) (get_elem? words 4))

-- The operations of the storage server's own files, and the copies.
unfoldable pub listen_primary : Bytes → Option Action
unfolding first_argument copy_words
listen_primary buffer =
    if starts_with buffer (codes "touch")
    then on_argument (λ path. some (perform create_file path)) buffer
    else if starts_with buffer (codes "rmdir")
    then on_argument (λ path. some (perform delete_directory path)) buffer
    else if starts_with buffer (codes "rm")
    then on_argument (λ path. some (under_lock path)) buffer
    else if starts_with buffer (codes "mkdir")
    then on_argument (λ path. some (perform create_directory path)) buffer
    else if starts_with buffer (codes "write")
    then some (write buffer)
    else if starts_with buffer (codes "reindex")
    then some reindex
    else if starts_with buffer (codes "copysame")
    then some (copy_same buffer)
    else if starts_with buffer (codes "lcopy")
    then copy_words lcopy buffer
    else if starts_with buffer (codes "copydifferent")
    then copy_words copydifferent buffer
    else some nothing

-- `parse_command` has room for five words.
unfoldable pub parse_command_fits : Bytes → Bool
parse_command_fits buffer = leb (length (strtok b' ' buffer)) 5

-- The chain of tests.
unfoldable pub listen_chain : (root : Bytes) → Bytes → Option Action
unfolding backup copy_words listen_primary
listen_chain root buffer =
    if starts_with buffer (codes "touchb")
    then backup root create_file buffer
    else if starts_with buffer (codes "rmdirb")
    then backup root delete_directory buffer
    else if starts_with buffer (codes "rmb")
    then backup root remove_file buffer
    else if starts_with buffer (codes "mkdirb")
    then backup root create_directory buffer
    else if starts_with buffer (codes "copydifferentb")
    then copy_words copydifferentb buffer
    else listen_primary buffer

-- `ping` is answered first, and falls through to the chain.
unfoldable pub answers_ping : Bytes → Bool
answers_ping buffer = starts_with buffer (codes "ping")

-- One command; none where the behaviour is undefined.
unfoldable pub listen_to_nm : (root : Bytes) → Bytes → Option Action
unfolding listen_chain parse_command_fits
listen_to_nm root buffer = if parse_command_fits buffer then listen_chain root buffer else none
