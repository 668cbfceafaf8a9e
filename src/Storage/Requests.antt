-- ===== src/Storage/Requests.antt =====
-- `process_client`: one request of a client, of another storage server, or of the naming server's
-- ping, on a connection of its own.
use network_file_system.Prelude.{
  ℕ, Bool, true, false, Option, none, some, List, [], ◌∷◌, ◌++◌, Bytes, codes, c_string,
  starts_with, strtok, get_elem?, set, length, ltb, if◌then◌else◌,
}
use network_file_system.Lock.Defs.{LockStruct, acquire_read_lock, release_read_lock}
use network_file_system.Naming.World.{buffer_size}
use network_file_system.Storage.Locks.{request_lock}
use network_file_system.Storage.Write.{WriteEnd, write_file}
use network_file_system.Storage.Write
use network_file_system.Transfer.Send.{P, ◌>>=◌, ◌>>◌, return, undefined}
use network_file_system.Files.Sender.{Log}
use network_file_system.Files.Listing.{Entry, list_file}
use network_file_system.Files.Reading.{read_file, read_mp3_file}
use network_file_system.Files.Metadata.{Stat, send_file_metadata}

-- What the host answers. `uninitialised` is the text that `args[1]` points at before it is
-- assigned, none where it cannot be read; `freed` is what `strtok` finds in the memory of a command
-- that was freed. A send to the connection succeeds or not by the messages so far.
pub record Host : Type 0 where
  pub opens : Bytes → Bool
  pub opendir : Bytes → Option (List Entry)
  pub contents : Bytes → Option Bytes
  pub stat : Bytes → Option Stat
  pub sends : Log → Bytes → Bool
  pub naming_server_reached : Bool
  pub uninitialised : Option Bytes
  pub freed : Bytes → List Bytes

-- The table of locks, the lines that were appended with the paths of their files, the messages on the
-- connection, those to the naming server, and the commands of the threads that write asynchronously.
pub record World : Type 0 where
  pub locks : List LockStruct
  pub appended : List (Bytes × Bytes)
  pub sent : Log
  pub acknowledged : Log
  pub started : List Bytes

-- How a request ends: with the connection closed, waiting for a lock, with the connection left to a
-- thread, with a copy of another storage server that is received on it, or with the exit of the
-- storage server.
pub data RequestEnd : Type 0 where
  closed waits left_open exited : RequestEnd
  receives_copy : (backup : Bool) → RequestEnd

abbrev pub M : Type 0 → Type 0
M = P World

abbrev pub put_locks : List LockStruct → M (Unit {0})
put_locks ls w = some (tt, record w { locks = ls })

abbrev append_to : (path line : Bytes) → M (Unit {0})
append_to path line w = some (tt, record w { appended = w.appended ++ (path, line) ∷ [] })

-- `args[1]` behind a call of `parse_command`, which writes to an array of two.
abbrev pub parse_into : (old : Option Bytes) → List Bytes → M (Option Bytes)
parse_into old [] = return old
parse_into old (a ∷ []) = return old
parse_into old (a ∷ b ∷ []) = return (some b)
parse_into old words = undefined

-- The pointer is printed.
abbrev pub deref : Option Bytes → M Bytes
deref none = undefined
deref (some text) = return text

module _ (host : Host) where
  unfoldable pub send : Bytes → M Bool
  send text w = some (host.sends w.sent text, record w { sent = w.sent ++ text ∷ [] })

  -- `SendACKToNM`
  unfoldable pub send_ack_to_nm : (command : Bytes) → M RequestEnd
  send_ack_to_nm command w =
      if host.naming_server_reached
      then some (closed, record w { acknowledged = w.acknowledged ++ command ∷ [] })
      else some (exited, w)

  -- What is left of a write under its lock.
  unfoldable pub after_write : (command : Bytes) → WriteEnd → M RequestEnd
  after_write command Write.undefined = undefined
  after_write command (Write.waits ls) = do put_locks ls; return waits
  after_write command (Write.not_opened text ls) = do
    put_locks ls
    send text
    send_ack_to_nm command
  after_write command (Write.written path line text ls) = do
    put_locks ls
    append_to path line
    send text
    send_ack_to_nm command

  unfoldable pub write_sync : (command : Bytes) → M RequestEnd
  write_sync command w = after_write command (write_file (host.opens) command w.locks) w

  -- A file that is read under its lock.
  unfoldable pub read_locked : (path : Bytes) → (ℕ × List LockStruct) → M RequestEnd
  read_locked path (i, ls) = elim (get_elem? ls i) [
    | none ↦ undefined
    | some l ↦ elim (acquire_read_lock l) [
      | none ↦ do put_locks ls; return waits
      | some l' ↦ do
        put_locks (set ls i l')
        read_file send (some path) (host.contents)
        put_locks (set ls i (release_read_lock l').0)
        return closed
    ]
  ]

  unfoldable pub cat : (path : Bytes) → M RequestEnd
  cat path w = elim (request_lock path w.locks) [
    | none ↦ none
    | some found ↦ read_locked path found w
  ]

  -- The chain behind the two calls of `parse_command`.
  unfoldable pub serve : (buffer path : Bytes) → M RequestEnd
  serve buffer path =
      if starts_with buffer (codes "sscopyb")
      then return (receives_copy true)
      else if starts_with buffer (codes "sscopy")
      then return (receives_copy false)
      else if starts_with buffer (codes "ls")
      then (do list_file send (some path) (host.opendir); return closed)
      else if starts_with buffer (codes "cat")
      then cat path
      else if starts_with buffer (codes "stream")
      then (do read_mp3_file send (some path) (host.contents); return closed)
      else if starts_with buffer (codes "get_info")
      then (do send_file_metadata send path (host.stat); return closed)
      else return closed

  -- The two calls of `parse_command`, and what follows.
  unfoldable pub parse_and_serve : (buffer : Bytes) → M RequestEnd
  parse_and_serve buffer = do
    first ← parse_into (host.uninitialised) (strtok b' ' buffer)
    deref first
    second ← parse_into first (host.freed buffer)
    path ← deref second
    serve buffer path

  abbrev start : (command : Bytes) → M (Unit {0})
  start command w = some (tt, record w { started = w.started ++ command ∷ [] })

  -- The connection of an asynchronous write stays open.
  abbrev keep_open : RequestEnd → RequestEnd
  keep_open closed = left_open
  keep_open e = e

  -- Behind a receive, none below 0, where the NUL is written in front of the buffer. A request of
  -- `BUFFER_SIZE` bytes has no room for its NUL.
  unfoldable pub process_client : (received : Option Bytes) → M RequestEnd
  process_client none = undefined
  process_client (some bytes) =
      if ltb (length bytes) buffer_size
      then (let buffer = c_string bytes in
          if starts_with buffer (codes "WRITE_SYNC|")
          then write_sync buffer
          else if starts_with buffer (codes "ping")
          then (do send (codes "-ping-"); parse_and_serve buffer)
          else if starts_with buffer (codes "WRITE_ASYNC|")
          then (do start buffer; e ← parse_and_serve buffer; return (keep_open e))
          else parse_and_serve buffer)
      else undefined
