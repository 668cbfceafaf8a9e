-- ===== src/Client/Sent.antt =====
-- A message of a `write` that the client sends to a storage server.
use network_file_system.Prelude.{
  ◌<◌, ◌≡◌, refl, true, false, Option, none, some, arith, List, [], ◌∷◌, ◌++◌, Bytes, codes,
  starts_with, lacks, strtok, length, lt→ltb, ltb, ◌==◌,
}
use network_file_system.Transfer.Send.{◌>>=◌, ◌>>◌, line_feed}
use network_file_system.Client.World.{
  Event, printed, sent_to_server, connected, received, got, Host, World, deref, ask, in_zeroed,
}
use network_file_system.Client.Text.{read_data}
use network_file_system.Client.Servers.{connect_to}
use network_file_system.Client.Write.{
  max_write, write_head, read_line, write_message, send_write, print_answer, write_at_server,
  write_command,
}
use network_file_system.Client.Grant.{c_string-whole}

-- The address of the connection that was made last.
abbrev pub peer : List Event → Option (Bytes × Bytes)
peer [] = none
peer (connected ip port ∷ es) = some (ip, port)
peer (e ∷ es) = peer es

-- The messages to storage servers, the latest first, with the address and the port that each went
-- to.
abbrev pub delivered : List Event → List (Option (Bytes × Bytes) × Bytes)
delivered [] = []
delivered (sent_to_server m ∷ es) = (peer es, m) ∷ delivered es
delivered (e ∷ es) = delivered es

-- A host that reaches the storage server at an address: sockets are made, the text is an address, the
-- server accepts connections on every port, and the messages to it are sent.
pub record IsConnected (host : Host) (ip : Bytes) : Type 0 where
  pub made : (es : List Event) → host.socket es ≡ true
  pub address_ok : host.inet_pton ip ≡ true
  pub opened : (es : List Event) (port : Bytes) → host.connect es ip port ≡ true
  pub accepted : (es : List Event) (m : Bytes) → host.send_ss es m ≡ true

pub read_data-line :
    (text rest : Bytes) → lacks 10 text ≡ true → read_data (text ++ 10 ∷ rest) ≡ some (text, rest)
unfolding read_data
read_data-line [] rest h = refl
read_data-line (c ∷ cs) rest h =
    let other : (c == 10) ≡ false = ground arith in
    rw (other, read_data-line cs rest (ground arith)) refl

module _ (host : Host) (ip : Bytes) (works : IsConnected host ip) where
  pub connect_to_lem :
      (port : Bytes) (w : World)
      → connect_to host (some ip) (some port) w
        ≡ some (true, record w { events = connected ip port ∷ w.events })
  unfolding connect_to
  connect_to_lem port w =
      rw (works.made w.events, works.address_ok, works.opened w.events port) refl

  pub read_line_lem :
      (text rest : Bytes) (w : World)
      → w.input ≡ text ++ 10 ∷ rest
      → lacks 10 text ≡ true
      → read_line host w ≡ some (text, record w { input = rest })
  unfolding read_line
  read_line_lem text rest w input no_feed =
      rw (read_line, input, read_data-line text rest no_feed) refl

  -- The text in front of the data, the prompt for it, and the line that is read.
  pub write_message_lem :
      (reply path front text rest : Bytes) (w : World)
      → write_head host reply path ≡ some front
      → w.input ≡ text ++ 10 ∷ rest
      → lacks 10 text ≡ true
      → lacks 0 (front ++ text) ≡ true
      → length (front ++ text) < max_write
      → write_message host reply path w
        ≡ some (
          front ++ text,
          record w { input = rest; events = printed (codes "enter data here:") ∷ w.events },
        )
  unfolding write_message
  write_message_lem reply path front text rest w head_ input no_feed no_nul short =
      let w1 : World = record w { events = printed (codes "enter data here:") ∷ w.events } in
      let line = read_line_lem text rest w1 input no_feed in
      let room : ltb (length (front ++ text)) max_write ≡ true = lt→ltb _ _ short in
      rw
        (
          write_message,
          head_,
          ◌>>=◌,
          ◌>>◌,
          deref,
          line,
          room,
          c_string-whole (front ++ text) no_nul,
        )
        refl

  pub send_write_lem :
      (message : Bytes) (w : World)
      → (w' : World) × (send_write host message w ≡ print_answer host w')
        × (delivered w'.events ≡ (peer w.events, message) ∷ delivered w.events)
        × (w'.input ≡ w.input)
  unfolding send_write
  send_write_lem message w =
      let w' : World = record w {
        events =
            sent_to_server message
            ∷ printed (codes "Sending to SS |" ++ message ++ codes "|" ++ line_feed)
            ∷ w.events;
      } in
      let sent =
        works.accepted
          (printed (codes "Sending to SS |" ++ message ++ codes "|" ++ line_feed) ∷ w.events)
          message in
      (w', rw sent refl, refl, refl)

  -- The message of a `write` whose answer gives an address.
  pub write_at_server_lem :
      (reply path front text rest tag port : Bytes) (w : World)
      → write_head host reply path ≡ some front
      → strtok b'|' reply ≡ tag ∷ ip ∷ port ∷ []
      → w.input ≡ text ++ 10 ∷ rest
      → lacks 10 text ≡ true
      → lacks 0 (front ++ text) ≡ true
      → length (front ++ text) < max_write
      → (w' : World) × (write_at_server host reply (some path) w ≡ print_answer host w')
        × (delivered w'.events ≡ (some (ip, port), front ++ text) ∷ delivered w.events)
        × (w'.input ≡ rest)
  unfolding write_at_server
  write_at_server_lem reply path front text rest tag port w head_ words input no_feed no_nul short =
      let w1 : World = record w {
        input = rest;
        events = connected ip port ∷ printed (codes "enter data here:") ∷ w.events;
      } in
      let message =
        write_message_lem reply path front text rest w head_ input no_feed no_nul short in
      let (w', sent, mail, left_) = send_write_lem (front ++ text) w1 in
      let made =
        connect_to_lem port
          (record w { input = rest; events = printed (codes "enter data here:") ∷ w.events }) in
      (w', rw (write_at_server, deref, ◌>>=◌, message, words, made, sent) refl, mail, left_)

  -- The same from the answer of the naming server on.
  pub write_command-reply :
      (reply path front text rest port tag bytes : Bytes) (w : World)
      → host.recv_ns w.events ≡ got bytes
      → in_zeroed bytes ≡ some reply
      → starts_with reply (codes "PATH_OK") ≡ true
      → write_head host reply path ≡ some front
      → strtok b'|' reply ≡ tag ∷ ip ∷ port ∷ []
      → w.input ≡ text ++ 10 ∷ rest
      → lacks 10 text ≡ true
      → lacks 0 (front ++ text) ≡ true
      → length (front ++ text) < max_write
      → (w' : World) × (write_command host (some path) w ≡ print_answer host w')
        × (delivered w'.events ≡ (some (ip, port), front ++ text) ∷ delivered w.events)
        × (w'.input ≡ rest)
  unfolding write_command
  write_command-reply reply path front text rest port tag bytes w answer reads granted head_ words
        input no_feed no_nul short =
      let w1 : World = record w {
        events = printed (codes "ns response: " ++ reply ++ line_feed) ∷ received ∷ w.events;
      } in
      let (w', run, mail, left_) =
        write_at_server_lem reply path front text rest tag port w1 head_ words input no_feed no_nul
          short in
      (w', rw (write_command, ◌>>=◌, ask, answer, reads, granted, run) refl, mail, left_)
