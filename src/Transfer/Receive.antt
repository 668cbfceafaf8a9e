-- ===== src/Transfer/Receive.antt =====
-- The side that receives: `copy_different_dest`, `copy_different_dest_b`, `receive_and_save_file`
-- and `receive_and_save_directory`, from one `recv` to the next, and the connection between the two
-- sides.
use network_file_system.Prelude.{
  ℕ, zero, suc, ◌+◌, ◌-◌, Bool, true, false, Option, none, some, List, [], ◌∷◌, ◌++◌, Bytes, codes,
  starts_with, c_string, take, drop, length, ltb, if◌then◌else◌,
}
use network_file_system.Naming.World.{buffer_size}
use network_file_system.Transfer.Text.{scan_word, atol}
use network_file_system.Transfer.Send.{join, end_marker, P}

-- What the storage server does to its files: a folder that is there from then on, and a file that is
-- closed with its bytes.
pub data Made : Type 0 where
  made_directory : (path : Bytes) → Made
  wrote : (path : Bytes) → Bytes → Made

-- The `recv` that is next: for the destination, for a command, for the size of a file, or for its
-- bytes. `content` is in the file, `chunk` in the buffer.
pub data Waiting : Type 0 where
  for_destination : Waiting
  for_command : (base : Bytes) → Waiting
  for_size : (base path : Bytes) → Waiting
  for_content : (base path : Bytes) (file_size : ℕ) (content chunk : Bytes) → Waiting
  closed : Waiting

-- The receiving side, with the number of acknowledgements that it has sent and nobody has read.
pub record Peer : Type 0 where
  pub waiting : Waiting
  pub acks : ℕ
  pub made : List Made

-- What the host of the receiving side does: whether `mkdir` leaves a folder, whether `fopen` opens a
-- file, whether `fwrite` to it succeeds, and how many bytes behind the first one are there already
-- when it receives bytes of a file.
pub record Disk : Type 0 where
  pub makes : Bytes → Bool
  pub opens : Bytes → Bool
  pub writes : Bytes → Bool
  pub ready : Peer → ℕ

-- `to_receive`
abbrev pub chunk_size : (file_size received : ℕ) → ℕ
chunk_size file_size received =
    if ltb (file_size - received) buffer_size then file_size - received else buffer_size

-- The bytes that the next `recv` asks for.
unfoldable pub asked : Waiting → ℕ
asked (for_content base path file_size content chunk) =
    chunk_size file_size (length content) - length chunk
asked waiting = buffer_size - 1

-- The bytes that the next `recv` gets, which are at least one and at most those that it asks for. All
-- other messages arrive whole.
abbrev pub piece : Waiting → (ready asks : ℕ) → ℕ
piece (for_content base path file_size content chunk) ready asks =
    if ltb (suc ready) asks then suc ready else asks
piece waiting ready asks = asks

abbrev pub send_ack : Peer → Peer
send_ack p = record p { acks = p.acks + 1 }

abbrev pub wait_for : Waiting → Peer → Peer
wait_for waiting p = record p { waiting = waiting }

abbrev pub note : Made → Peer → Peer
note m p = record p { made = p.made ++ m ∷ [] }

-- The path below the destination. `copy_different_dest` takes a "./" off, `copy_different_dest_b`
-- does not.
unfoldable pub full_path : (backup : Bool) (base name : Bytes) → Bytes
unfolding join
full_path backup base name =
    if backup
    then join base name
    else if starts_with name (codes "./")
    then join base (drop 2 name)
    else join base name

module _ (disk : Disk) (backup : Bool) where
  -- `mkdir`, whose failure is printed and nothing else.
  unfoldable pub make_directory : Bytes → Peer → Peer
  make_directory path p = if disk.makes path then note (made_directory path) p else p

  unfoldable pub on_destination : Bytes → Peer → Option Peer
  unfolding make_directory
  on_destination buffer p = elim (starts_with buffer (codes "DEST ")) [
    | false ↦ some (wait_for closed p)
    | true ↦ elim (scan_word (drop 5 buffer)) [
      | none ↦ none
      | some base ↦ some (make_directory base (send_ack (wait_for (for_command base) p)))
    ]
  ]

  -- The loop of `copy_different_dest`. A text that is no command is dropped, without an answer. A
  -- command without a name leaves the name uninitialised.
  unfoldable pub on_command : (base : Bytes) → Bytes → Peer → Option Peer
  unfolding make_directory full_path
  on_command base buffer p = elim (starts_with buffer end_marker) [
    | true ↦ some (wait_for closed p)
    | false ↦ elim (starts_with buffer (codes "FILE ")) [
      | true ↦ elim (scan_word (drop 5 buffer)) [
        | none ↦ none
        | some name ↦ some (send_ack (wait_for (for_size base (full_path backup base name)) p))
      ]
      | false ↦ elim (starts_with buffer (codes "DIR ")) [
        | true ↦ elim (scan_word (drop 4 buffer)) [
          | none ↦ none
          | some name ↦ some (make_directory (full_path backup base name) (send_ack p))
        ]
        | false ↦ some p
      ]
    ]
  ]

  -- The head of the loop of `receive_and_save_file`.
  unfoldable pub content_loop : (base path : Bytes) (file_size : ℕ) (content : Bytes) → Peer → Peer
  content_loop base path file_size content p =
      if ltb (length content) file_size
      then wait_for (for_content base path file_size content []) p
      else note (wrote path content) (wait_for (for_command base) p)

  unfoldable pub on_size : (base path : Bytes) → Bytes → Peer → Peer
  unfolding content_loop atol
  on_size base path buffer p =
      if disk.opens path
      then content_loop base path (atol buffer) [] (send_ack p)
      else wait_for (for_command base) (send_ack p)

  unfoldable pub on_content :
      (base path : Bytes) (file_size : ℕ) (content chunk : Bytes) → Bytes → Peer → Peer
  unfolding content_loop
  on_content base path file_size content chunk bytes p =
      let chunk' = chunk ++ bytes in
      if ltb (length chunk') (chunk_size file_size (length content))
      then wait_for (for_content base path file_size content chunk') p
      else if disk.writes path
      then send_ack (content_loop base path file_size (content ++ chunk') p)
      else note (wrote path content) (wait_for (for_command base) p)

  -- What one `recv` of `bytes` leads to, up to the next one: none where the behaviour is undefined.
  unfoldable pub on_receive : Waiting → Bytes → Peer → Option Peer
  unfolding on_destination on_command on_size on_content
  on_receive for_destination bytes p = on_destination (c_string bytes) p
  on_receive (for_command base) bytes p = on_command base (c_string bytes) p
  on_receive (for_size base path) bytes p = some (on_size base path (c_string bytes) p)
  on_receive (for_content base path file_size content chunk) bytes p =
      some (on_content base path file_size content chunk bytes p)
  on_receive closed bytes p = some p

  -- The bytes of a message, which the receiving side reads in pieces. `left` bounds their number.
  unfoldable pub deliver : (left : ℕ) → Bytes → Peer → Option Peer
  unfolding on_receive asked
  deliver left [] p = some p
  deliver zero (c ∷ cs) p = some p
  deliver (suc n) (c ∷ cs) p =
      let size = piece p.waiting (disk.ready p) (asked p.waiting) in
      elim (on_receive p.waiting (take size (c ∷ cs)) p) [
        | none ↦ none
        | some p' ↦ deliver n (drop size (c ∷ cs)) p'
      ]

  -- `send` on the connection, which does not fail: every piece has one byte or more.
  unfoldable pub send_to_peer : Bytes → P Peer Bool
  unfolding deliver
  send_to_peer message p = elim (deliver (length message) message p) [
    | none ↦ none
    | some p' ↦ some (true, p')
  ]

  -- `receive_ack`: it waits for ever where none is on its way, unless the connection is closed. Two
  -- that are on their way may arrive as one, and are left open.
  unfoldable pub ack_from_peer : P Peer Bool
  ack_from_peer p = elim p.acks [
    | zero ↦ elim p.waiting [ closed ↦ some (false, p) | _ ↦ none ]
    | suc zero ↦ some (true, record p { acks = 0 })
    | suc (suc n) ↦ none
  ]

-- `copy_different_dest` up to its first `recv`, in answer to the greeting.
abbrev pub greeted : Peer
greeted = record { waiting = for_destination; acks = 1; made = [] }
