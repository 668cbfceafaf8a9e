-- ===== src/Client/Loop.antt =====
-- The loop of `main`: the choice of a branch for a command.
use network_file_system.Prelude.{
  ℕ, zero, suc, ◌-◌, Option, none, some, [], ◌∷◌, ◌++◌, Bytes, codes, starts_with, strtok, c_string,
  drop, length, leb, ltb, get_elem?, if◌then◌else◌,
}
use network_file_system.Naming.World.{buffer_size}
use network_file_system.Transfer.Send.{◌>>=◌, ◌>>◌, return, undefined, line_feed}
use network_file_system.Client.World.{
  Host, Receipt, failed, empty, got, Control, next_command, left, M, asked, received, note, print,
  print_error, ask, deref, in_zeroed,
}
use network_file_system.Client.Text.{
  trim, count_words, before_text, fgets, is_root_listing, is_direct,
}
use network_file_system.Client.Listing.{list_root}
use network_file_system.Client.Servers.{send_and_receive, stream_music}
use network_file_system.Client.Write.{write_command}

pub data Exit : Type 0 where
  end_of_input returned out_of_fuel : Exit

module _ (host : Host) where
  -- What `buffer2` holds behind a receive, with a NUL behind its bytes.
  unfoldable pub reply_text : Receipt → M Bytes
  reply_text failed = undefined
  reply_text empty = do print_error 3; return []
  reply_text (got bytes) =
      if ltb (length bytes) buffer_size then return (c_string bytes) else undefined

  -- The answer of the naming server to a command that it carries out.
  unfoldable pub print_reply : M Control
  unfolding reply_text
  print_reply = do
    print (codes "Buffer before " ++ line_feed)
    answer ← ask (host.recv_ns)
    note received
    text ← reply_text answer
    print (codes "Received from NM Directly |" ++ text ++ codes "|" ++ line_feed)
    return next_command

  -- The address and the port of a reply that starts with `Backup`; none without an address.
  unfoldable pub transformed : (reply : Bytes) → Option Bytes
  transformed reply = elim (strtok b',' (drop 7 reply)) [
    | [] ↦ none
    | ip ∷ [] ↦ some ip
    | ip ∷ port ∷ words ↦ some (ip ++ codes "," ++ port)
  ]

  -- `streamMusicFromSS` or `sendAndRecieveFromSS`, behind the print of the latter.
  unfoldable pub at_server : (first : M (Unit {0})) (buffer details : Bytes) → M (Unit {0})
  at_server first buffer details =
      if starts_with buffer (codes "stream")
      then stream_music host details buffer
      else (do first; send_and_receive host details buffer)

  unfoldable pub at_backup : (buffer : Bytes) → (details : Option Bytes) → M (Unit {0})
  at_backup buffer none = return tt
  at_backup buffer (some details) = at_server (return tt) buffer details

  abbrev pub unless_found : Option Bytes → M (Unit {0}) → M (Unit {0})
  unless_found none k = k
  unless_found (some front) k = return tt

  -- What the naming server answers is the address of a server, or of the backup of one.
  unfoldable pub on_reply : (buffer reply : Bytes) → M (Unit {0})
  unfolding at_backup
  on_reply buffer reply = unless_found (before_text (codes "not found") reply) (
      if starts_with reply (codes "Backup")
      then at_backup buffer (transformed reply)
      else at_server (print (codes "dfvsfgsfgsdf" ++ line_feed)) buffer reply)

  unfoldable pub on_receipt : (buffer : Bytes) → Receipt → M Control
  on_receipt buffer failed = do print_error 3; return next_command
  on_receipt buffer empty = do print_error 3; return next_command
  on_receipt buffer (got bytes) = do
    reply ← deref (in_zeroed bytes)
    print (codes "Got this Other Commands from NM|" ++ reply ++ codes "|" ++ line_feed)
    on_reply buffer reply
    return next_command

  -- The branch of all other commands.
  unfoldable pub other_command : (buffer : Bytes) → M Control
  unfolding on_receipt
  other_command buffer = do answer ← ask (host.recv_ns); note received; on_receipt buffer answer

  -- The third word of a `write`, which is taken from the command before it is sent.
  unfoldable pub dispatch : (buffer : Bytes) → M Control
  dispatch buffer =
      if is_root_listing buffer
      then list_root host
      else if is_direct buffer
      then print_reply
      else if starts_with buffer (codes "write")
      then write_command host (get_elem? (strtok b' ' buffer) 2)
      else other_command buffer

  -- A command that is trimmed and not empty.
  unfoldable pub run_command : (buffer : Bytes) → M Control
  run_command buffer = do
    count ← deref (count_words buffer)
    if leb count 1 then (do print_error 69; return next_command) else (do
      sent ← ask (λ es. host.send_ns es buffer)
      note (asked buffer)
      if sent then dispatch buffer else return next_command)

  -- The line that `fgets` reads; none at the end of the input.
  unfoldable pub next_line : M (Option Bytes)
  next_line w = elim (w.input) [
    | [] ↦ some (none, w)
    | c ∷ cs ↦
        let (line, rest) = fgets (buffer_size - 1) (c ∷ cs) in
        some (some (c_string line), record w { input = rest })
  ]

  unfoldable pub run_trimmed : (buffer : Bytes) → M Control
  run_trimmed [] = return next_command
  run_trimmed (c ∷ cs) = run_command (c ∷ cs)

  unfoldable pub run_line : (line : Bytes) → M Control
  unfolding run_trimmed
  run_line line = run_trimmed (trim line)

  abbrev pub go_on : M Exit → Control → M Exit
  go_on loop left = return returned
  go_on loop next_command = loop

  -- How the loop ends: at the end of the input, by a return from the loop, or not within the fuel.
  unfoldable pub main_loop : (fuel : ℕ) → M Exit
  main_loop zero = return out_of_fuel
  main_loop (suc fuel) = do
    print (codes ">> ")
    line ← next_line
    elim line [
      | none ↦ do print (line_feed ++ codes "Exiting..." ++ line_feed); return end_of_input
      | some text ↦ do control ← run_line text; go_on (main_loop fuel) control
    ]
