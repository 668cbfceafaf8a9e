-- ===== src/Storage/Protocol.antt =====
-- The commands that the naming server sends to storage servers, as `listen_to_nm` reads them.
use network_file_system.Prelude.{
  ℕ, ◌+◌, ◌≤◌, ◌≡◌, refl, sym, ◌∙◌, ap, Bool, true, false, not, ◌&&◌, some, arith, [], ◌∷◌, ◌++◌,
  Bytes, codes, drop, starts_with, strtok, strtok_from, snprintf, length, take_of_length-le, leb,
  ◌==◌,
}
use mathlib.Core.List.{append_assoc, append-nil}
use network_file_system.Naming.World.{buffer_size, max_path_size}
use network_file_system.Storage.Listen.{
  Operation, create_file, delete_directory, remove_file, create_directory, Action, on_backup,
  perform, under_lock, listen_to_nm, first_argument, skip_two, backup_path, backup, listen_primary,
  listen_chain, parse_command_fits,
}

-- The first word of the command for an operation.
abbrev pub command_of : Operation → Bytes
command_of create_file = codes "touch"
command_of delete_directory = codes "rmdir"
command_of remove_file = codes "rm"
command_of create_directory = codes "mkdir"

-- What is asked of the server that has the path.
abbrev pub requested : Operation → Bytes → Action
requested remove_file path = under_lock path
requested op path = perform op path

abbrev pub no_space : Bytes → Bool
no_space [] = true
no_space (c ∷ cs) = not (c == b' ') && no_space cs

strtok-one :
    (c : ℕ) (acc cs : Bytes)
    → no_space cs ≡ true
    → strtok_from b' ' (c ∷ acc) cs ≡ (c ∷ acc ++ cs) ∷ []
unfolding strtok_from
strtok-one c acc [] h = ap (λ t. (c ∷ t) ∷ []) (sym (append-nil acc))
strtok-one c acc (d ∷ cs) h =
    let longer : strtok_from b' ' (c ∷ (acc ++ d ∷ [])) cs ≡ (c ∷ (acc ++ d ∷ []) ++ cs) ∷ [] =
      strtok-one c (acc ++ d ∷ []) cs (ground arith) in
    let other : (d == b' ') ≡ false = ground arith in
    rw other (longer ∙ ap (λ t. (c ∷ t) ∷ []) (append_assoc acc (d ∷ []) cs))

-- A text without spaces is one word.
strtok-word : (cs : Bytes) → 1 ≤ length cs → no_space cs ≡ true → strtok_from b' ' [] cs ≡ cs ∷ []
unfolding strtok_from
strtok-word [] h n = absurd (omega arith)
strtok-word (c ∷ cs) h n =
    let other : (c == b' ') ≡ false = ground arith in rw other (strtok-one c [] cs (ground arith))

skip_two-some : (path : Bytes) → 2 ≤ length path → skip_two path ≡ some (drop 2 path)
unfolding skip_two
skip_two-some path h = let enough : leb 2 (length path) ≡ true = ground arith in rw enough

backup_path-some :
    (root path : Bytes)
    → 2 ≤ length root
    → 2 ≤ length path
    → backup_path root path
      ≡ some (
          snprintf max_path_size
            (codes "./backupfolderforss/" ++ drop 2 root ++ codes "/" ++ drop 2 path))
unfolding backup_path
backup_path-some root path hr hp = rw (backup_path, skip_two-some root hr, skip_two-some path hp)

-- For an operation on a path without spaces, of two bytes or more, which fits the naming server's
-- buffer: the command that a client gives and the naming server passes on makes a storage server
-- perform the operation on that path, and the command for the backup servers makes it perform the
-- same operation below the backup of its root.
pub listen_to_nm-command_of :
    (op : Operation) (root path : Bytes)
    → 2 ≤ length root
    → 2 ≤ length path
    → length path + 8 ≤ buffer_size
    → no_space path ≡ true
    → (listen_to_nm root (command_of op ++ codes " " ++ path) ≡ some (requested op path))
      × (listen_to_nm root (snprintf buffer_size (command_of op ++ codes "b " ++ path))
          ≡ some (
              on_backup op (
                snprintf max_path_size
                  (codes "./backupfolderforss/" ++ drop 2 root ++ codes "/" ++ drop 2 path))))
unfolding listen_to_nm listen_chain listen_primary backup first_argument parse_command_fits strtok
    strtok_from starts_with
listen_to_nm-command_of create_file root path hr hp fits n =
    let word = strtok-word path (omega arith) n in
    (
      rw word refl,
      rw (take_of_length-le 1016 path (omega arith), word, backup_path-some root path hr hp) refl,
    )
listen_to_nm-command_of delete_directory root path hr hp fits n =
    let word = strtok-word path (omega arith) n in
    (
      rw word refl,
      rw (take_of_length-le 1016 path (omega arith), word, backup_path-some root path hr hp) refl,
    )
listen_to_nm-command_of remove_file root path hr hp fits n =
    let word = strtok-word path (omega arith) n in
    (
      rw word refl,
      rw (take_of_length-le 1019 path (omega arith), word, backup_path-some root path hr hp) refl,
    )
listen_to_nm-command_of create_directory root path hr hp fits n =
    let word = strtok-word path (omega arith) n in
    (
      rw word refl,
      rw (take_of_length-le 1016 path (omega arith), word, backup_path-some root path hr hp) refl,
    )
