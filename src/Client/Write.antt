-- ===== src/Client/Write.antt =====
-- The branch of `write`.
use network_file_system.Prelude.{
  ℕ, Option, none, some, [], ◌++◌, Bytes, codes, starts_with, strtok, c_string, take, length, ltb,
  get_elem?, if◌then◌else◌,
}
use network_file_system.Naming.World.{buffer_size}
use network_file_system.Storage.Async.{print_buffer}
use network_file_system.Transfer.Send.{◌>>=◌, ◌>>◌, return, undefined, line_feed}
use network_file_system.Client.World.{
  Host, Receipt, failed, empty, got, Control, next_command, left, M, sent_to_server, received, note,
  print, print_error, ask, deref, in_zeroed,
}
use network_file_system.Client.Text.{read_data}
use network_file_system.Client.Listing.{overwrite}
use network_file_system.Client.Servers.{connect_to}

-- The size of `input_str`.
abbrev pub max_write : ℕ
max_write = 4096

module _ (host : Host) where
  -- What is put in front of the data: none where `i` stays uninitialised.
  unfoldable pub write_head : (reply path : Bytes) → Option Bytes
  unfolding starts_with
  write_head reply path =
      if starts_with reply (codes "PATH_OK_SYNC")
      then some (codes "WRITE_SYNC|" ++ path ++ codes "|")
      else if starts_with reply (codes "PATH_OK_ASYNC")
      then some (
          codes "WRITE_ASYNC|"
          ++ path
          ++ codes "|"
          ++ host.address
          ++ codes "|"
          ++ host.async_port
          ++ codes "|")
      else none

  -- The loop of `fgetc`.
  unfoldable pub read_line : M Bytes
  unfolding read_data
  read_line w = elim (read_data w.input) [
    | none ↦ none
    | some (text, rest) ↦ some (text, record w { input = rest })
  ]

  -- `input_str`, which has room for `max_write` bytes.
  unfoldable pub write_message : (reply path : Bytes) → M Bytes
  write_message reply path = do
    front ← deref (write_head reply path)
    print (codes "enter data here:")
    text ← read_line
    if ltb (length (front ++ text)) max_write then return (c_string (front ++ text)) else undefined

  -- What `rec_msg`, memory that is not initialised, holds behind a receive.
  unfoldable pub answer_text : Receipt → M Bytes
  answer_text failed = do print_error 11; return (host.fresh)
  answer_text empty = do print_error 11; return (host.fresh)
  answer_text (got bytes) = return (overwrite (host.fresh) (take buffer_size bytes))

  -- The answer of the storage server.
  unfoldable pub print_answer : M Control
  unfolding print_buffer answer_text
  print_answer = do
    answer ← ask (host.recv_ss)
    note received
    text ← answer_text answer
    shown ← deref (print_buffer text)
    print (codes "Received from SS |" ++ shown ++ codes "|" ++ line_feed)
    return next_command

  unfoldable pub send_write : (message : Bytes) → M Control
  send_write message = do
    print (codes "Sending to SS |" ++ message ++ codes "|" ++ line_feed)
    sent ← ask (λ es. host.send_ss es message)
    note (sent_to_server message)
    if sent then print_answer else (do print_error 10; return left)

  -- Behind `PATH_OK`. `main` returns where the storage server is not reached.
  unfoldable pub write_at_server : (reply : Bytes) → (path : Option Bytes) → M Control
  write_at_server reply path = do
    name ← deref path
    message ← write_message reply name
    let words = strtok b'|' reply
    made ← connect_to host (get_elem? words 1) (get_elem? words 2)
    if made then send_write message else return left

  -- What `write_buff` holds behind a receive.
  unfoldable pub write_reply : Receipt → M Bytes
  write_reply failed = do print_error 3; return []
  write_reply empty = do print_error 3; return []
  write_reply (got bytes) = deref (in_zeroed bytes)

  unfoldable pub write_command : (path : Option Bytes) → M Control
  unfolding write_reply
  write_command path = do
    answer ← ask (host.recv_ns)
    note received
    reply ← write_reply answer
    print (codes "ns response: " ++ reply ++ line_feed)
    if starts_with reply (codes "PATH_OK") then write_at_server reply path else return next_command
