-- ===== src/Client/Reached.antt =====
-- A command that a storage server answers, from the reply of the naming server on.
use network_file_system.Prelude.{
  ◌^◌, ◌<◌, ◌≤◌, ◌≡◌, ◌⊎◌, inl, inr, refl, sym, ap, ◌∙◌, Bool, true, false, ◌&&◌, none, some, arith,
  List, [], ◌∷◌, ◌++◌, Bytes, codes, starts_with, c_string, lacks, lacks-append, strtok, decimal,
  take, take_of_length-le, length, and-true, leb, if◌then◌else◌,
}
use mathlib.Core.List.{append_assoc, append-nil}
use network_file_system.Naming.World.{StorageServerInfo, Network}
use network_file_system.Naming.Commands.Lookup.{server_address}
use network_file_system.Transfer.Same.{flat}
use network_file_system.Transfer.Send.{◌>>=◌, ◌>>◌, line_feed}
use network_file_system.Transfer.Text.{atol}
use network_file_system.Client.World.{
  Event, printed, received, sent_to_server, connected, got, Host, World, next_command, ask, deref,
  in_zeroed,
}
use network_file_system.Client.Text.{before_text}
use network_file_system.Client.Servers.{print_pieces, send_then, send_details, send_and_receive}
use network_file_system.Client.Loop.{
  transformed, at_server, at_backup, unless_found, on_reply, other_command,
}
use network_file_system.Client.Grant.{c_string-whole, in_zeroed-whole}
use network_file_system.Client.Shown.{shown}
use network_file_system.Client.Address.{
  atol-decimal, atol-decimal_whole, before_text-behind, before_text-lacks, starts_with-lacks,
  address_text, lacks-address_text, length-address_text, is_reachable, backup_reply, reachable-ip,
  server_address_text, backup_reply_text, strtok-server_address, transformed_lem,
  strtok-transformed,
}
use network_file_system.Client.Sent.{delivered, IsConnected, connect_to_lem}

-- Pieces that the client prints whole.
abbrev pub all_printable : List Bytes → Bool
all_printable [] = true
all_printable (c ∷ cs) = leb (length c) 1023 && lacks 0 c && all_printable cs

module _ (host : Host) where
  print_pieces_lem :
      (pieces : List Bytes) (w : World)
      → all_printable pieces ≡ true
      → (w' : World) × (print_pieces host pieces w ≡ some (tt, w'))
        × (shown w'.events ≡ shown w.events ++ flat pieces)
        × (delivered w'.events ≡ delivered w.events)
        × (w'.input ≡ w.input)
  unfolding print_pieces
  print_pieces_lem [] w h = (w, refl, sym (append-nil (shown w.events)), refl, refl)
  print_pieces_lem (c ∷ cs) w h =
      let (front, rest_ok) = and-true (leb (length c) 1023 && lacks 0 c) (all_printable cs) h in
      let (short, no_nul) = and-true (leb (length c) 1023) (lacks 0 c) front in
      let fits : take 1023 c ≡ c = take_of_length-le 1023 c (ground (arith, short)) in
      let whole : c_string c ≡ c = c_string-whole c no_nul in
      let (w', run, text, mail, left_) =
        print_pieces_lem cs (record w { events = printed c ∷ received ∷ w.events }) rest_ok in
      (w', rw (fits, whole) run, text ∙ append_assoc (shown w.events) c (flat cs), mail, left_)

  send_and_receive_lem :
      (details buffer ip port : Bytes) (pieces : List Bytes) (w : World)
      → IsConnected host ip
      → strtok b',' details ≡ ip ∷ port ∷ []
      → ((es : List Event) → host.response_chunks es ≡ pieces)
      → all_printable pieces ≡ true
      → (w' : World) × (send_and_receive host details buffer w ≡ some (tt, w'))
        × (shown w'.events ≡ shown w.events ++ flat pieces)
        × (delivered w'.events ≡ (some (ip, port), buffer) ∷ delivered w.events)
        × (w'.input ≡ w.input)
  unfolding send_and_receive send_details send_then
  send_and_receive_lem details buffer ip port pieces w works words answers ok_ =
      let made = connect_to_lem host ip works port w in
      let w2 : World = record w { events = sent_to_server buffer ∷ connected ip port ∷ w.events } in
      let sent = works.accepted (connected ip port ∷ w.events) buffer in
      let (w', run, text, mail, left_) = print_pieces_lem pieces w2 ok_ in
      (
        w',
        rw (send_details, words, ◌>>=◌, made, send_then, sent, answers w2.events, run) refl,
        text,
        mail,
        left_,
      )

-- What is printed between the answer of the naming server and that of the storage server.
abbrev pub announced : (reply : Bytes) → Bytes
announced reply =
    if starts_with reply (codes "Backup") then [] else codes "dfvsfgsfgsdf" ++ line_feed

module _ (host : Host) where
  -- Behind a reply of the naming server that gives an address.
  reply_lem :
      (s : StorageServerInfo) (buffer reply first details port : Bytes) (pieces : List Bytes)
      (w : World)
      → IsConnected host s.ip
      → host.recv_ns w.events ≡ got reply
      → in_zeroed reply ≡ some reply
      → strtok b',' details ≡ s.ip ∷ port ∷ []
      → ((es : List Event) → host.response_chunks es ≡ pieces)
      → all_printable pieces ≡ true
      → ((v : World)
          → (v' : World) × (on_reply host buffer reply v ≡ send_and_receive host details buffer v')
            × (shown v'.events ≡ shown v.events ++ first)
            × (delivered v'.events ≡ delivered v.events)
            × (v'.input ≡ v.input))
      → (w' : World) × (other_command host buffer w ≡ some (next_command, w'))
        × (delivered w'.events ≡ (some (s.ip, port), buffer) ∷ delivered w.events)
        × (shown w'.events
            ≡ shown w.events
              ++ (codes "Got this Other Commands from NM|" ++ reply ++ codes "|" ++ line_feed)
              ++ first
              ++ flat pieces)
        × (w'.input ≡ w.input)
  unfolding other_command
  reply_lem s buffer reply first details port pieces w works answer reads words answers ok_
        goes_on =
      let got_text = codes "Got this Other Commands from NM|" ++ reply ++ codes "|" ++ line_feed in
      let w1 : World = record w { events = printed got_text ∷ received ∷ w.events } in
      let (v, on_, v_text, v_mail, v_left) = goes_on w1 in
      let (w', run, text, mail, left_) =
        send_and_receive_lem host details buffer s.ip port pieces v works words answers ok_ in
      (
        w',
        rw (other_command, ◌>>=◌, ask, answer, reads, deref, ◌>>◌, on_, run) refl,
        mail ∙ ap (◌∷◌ (some (s.ip, port), buffer)) v_mail,
        text ∙ ap (λ t. t ++ flat pieces) v_text,
        left_ ∙ v_left,
      )

  on_reply-plain :
      (buffer reply : Bytes) (v : World)
      → before_text (codes "not found") reply ≡ none
      → starts_with reply (codes "Backup") ≡ false
      → starts_with buffer (codes "stream") ≡ false
      → on_reply host buffer reply v
        ≡ send_and_receive host reply buffer
            (record v { events = printed (codes "dfvsfgsfgsdf" ++ line_feed) ∷ v.events })
  unfolding on_reply at_server
  on_reply-plain buffer reply v found plain other =
      rw (on_reply, found, unless_found, plain, at_server, other) refl

  on_reply-transformed :
      (buffer reply details : Bytes) (v : World)
      → before_text (codes "not found") reply ≡ none
      → starts_with reply (codes "Backup") ≡ true
      → transformed host reply ≡ some details
      → starts_with buffer (codes "stream") ≡ false
      → on_reply host buffer reply v ≡ send_and_receive host details buffer v
  unfolding on_reply at_server
  on_reply-transformed buffer reply details v found backup_ told other =
      rw (on_reply, found, unless_found, backup_, told, at_backup, at_server, other) refl

  address-plain :
      (s : StorageServerInfo)
      → is_reachable s ≡ true
      → starts_with (address_text s (codes " ")) (codes "Backup") ≡ false
  address-plain s ok_ =
      let (_, _, text) = reachable-ip s ok_ in
      starts_with-lacks (address_text s (codes " "))
        (lacks-address_text b'B' s (codes " ") refl refl refl text refl)

  on_reply-address :
      (s : StorageServerInfo) (buffer : Bytes) (v : World)
      → is_reachable s ≡ true
      → starts_with buffer (codes "stream") ≡ false
      → (v' : World) × (on_reply host buffer (address_text s (codes " ")) v
          ≡ send_and_receive host (address_text s (codes " ")) buffer v')
        × (shown v'.events ≡ shown v.events ++ (codes "dfvsfgsfgsdf" ++ line_feed))
        × (delivered v'.events ≡ delivered v.events)
        × (v'.input ≡ v.input)
  on_reply-address s buffer v ok_ other =
      let (_, _, text) = reachable-ip s ok_ in
      let reply = address_text s (codes " ") in
      let found : before_text (codes "not found") reply ≡ none =
        before_text-lacks reply (lacks-address_text b'n' s (codes " ") refl refl refl text refl) in
      let plain : starts_with reply (codes "Backup") ≡ false =
        starts_with-lacks reply (lacks-address_text b'B' s (codes " ") refl refl refl text refl) in
      (
        record v { events = printed (codes "dfvsfgsfgsdf" ++ line_feed) ∷ v.events },
        on_reply-plain buffer reply v found plain other,
        refl,
        refl,
        refl,
      )

  on_reply-backup :
      (s : StorageServerInfo) (buffer folder : Bytes) (v : World)
      → is_reachable s ≡ true
      → starts_with buffer (codes "stream") ≡ false
      → before_text (codes "not found") folder ≡ none
      → on_reply host buffer (codes "Backup " ++ address_text s (b',' ∷ folder)) v
        ≡ send_and_receive host (s.ip ++ codes "," ++ decimal s.port_client) buffer v
  unfolding starts_with
  on_reply-backup s buffer folder v ok_ other no_text =
      let (_, _, text) = reachable-ip s ok_ in
      let reply = codes "Backup " ++ address_text s (b',' ∷ folder) in
      let comma : before_text (codes "not found") (b',' ∷ folder) ≡ none =
        before_text-behind (b',' ∷ []) folder refl no_text in
      let found : before_text (codes "not found") reply ≡ none =
        ap (before_text (codes "not found")) (simp append_assoc refl)
        ∙ before_text-behind (codes "Backup " ++ address_text s []) (b',' ∷ folder)
            (lacks-append b'n' (codes "Backup ") (address_text s []) refl
              (lacks-address_text b'n' s [] refl refl refl text refl))
            comma in
      on_reply-transformed buffer reply (s.ip ++ codes "," ++ decimal s.port_client) v found refl
        (transformed_lem s ok_ host folder) other

  -- The host reaches the storage server `s`: `socket` succeeds, `inet_pton` reads its address,
  -- `connect` reaches it on every port, and what is sent is delivered. The naming server answers with
  -- the address of `s`, or with `s` as the backup of another server, in a folder whose name has at
  -- most 900 bytes, no NUL and no "not found" in it; the address has 1 to 15 digits and dots, and the
  -- port fewer than 11 digits. What storage servers send comes in pieces of at most 1023 bytes without
  -- NUL, and then they close the connection. Then a command that is not a `stream` goes to the address
  -- of `s` and to a port that is read as the port of `s`, and the client prints the reply, behind that
  -- of the server itself, not of a backup, one fixed line, and then all that the storage server sends,
  -- and goes on with the next command.
  pub other_command_lem :
      (net : Network) (s : StorageServerInfo) (buffer reply : Bytes) (pieces : List Bytes)
      (w : World)
      → IsConnected host s.ip
      → is_reachable s ≡ true
      → s.port_client < 10 ^ 10
      → starts_with buffer (codes "stream") ≡ false
      → ((reply ≡ server_address net s)
          ⊎ ((folder : Bytes) × (reply ≡ backup_reply s folder)
              × (length folder ≤ 900)
              × (lacks 0 folder ≡ true)
              × (before_text (codes "not found") folder ≡ none)))
      → host.recv_ns w.events ≡ got reply
      → ((es : List Event) → host.response_chunks es ≡ pieces)
      → all_printable pieces ≡ true
      → (port : Bytes) × (w' : World) × (other_command host buffer w ≡ some (next_command, w'))
        × (delivered w'.events ≡ (some (s.ip, port), buffer) ∷ delivered w.events)
        × (atol port ≡ s.port_client)
        × (shown w'.events
            ≡ shown w.events
              ++ (codes "Got this Other Commands from NM|" ++ reply ++ codes "|" ++ line_feed)
              ++ announced reply
              ++ flat pieces)
        × (w'.input ≡ w.input)
  unfolding starts_with
  other_command_lem net s buffer reply pieces w works ok_ small other (inl e) answer answers
        printable =
      let (_, short, text) = reachable-ip s ok_ in
      let address = address_text s (codes " ") in
      let same : reply ≡ address = e ∙ server_address_text s ok_ net in
      let reads : in_zeroed address ≡ some address =
        in_zeroed-whole address (lacks-address_text 0 s (codes " ") refl refl refl text refl)
          (omega (arith, short, length-address_text s (codes " "))) in
      let (w', run, mail, shown_, left_) =
        reply_lem s buffer reply (codes "dfvsfgsfgsdf" ++ line_feed) address
          (decimal s.port_client ++ codes " ") pieces w works answer (rw (sym same) at reads)
          (strtok-server_address s ok_) answers printable
          (λ v.
            let (v', on_, text_, mail_, input_) = on_reply-address s buffer v ok_ other in
            (v', ap (λ t. on_reply host buffer t v) same ∙ on_, text_, mail_, input_)) in
      let before =
        shown w.events
        ++ (codes "Got this Other Commands from NM|" ++ reply ++ codes "|" ++ line_feed) in
      let plain : starts_with reply (codes "Backup") ≡ false = rw same (address-plain s ok_) in
      let first : announced reply ≡ codes "dfvsfgsfgsdf" ++ line_feed = rw plain refl in
      (
        decimal s.port_client ++ codes " ",
        w',
        run,
        mail,
        atol-decimal s.port_client b' ' [] small refl,
        shown_ ∙ ap (λ t. before ++ t ++ flat pieces) (sym first),
        left_,
      )
  other_command_lem net s buffer reply pieces w works ok_ small other
        (inr (folder, e, size, no_nul, no_text)) answer answers printable =
      let (_, short, text) = reachable-ip s ok_ in
      let whole = codes "Backup " ++ address_text s (b',' ∷ folder) in
      let same : reply ≡ whole = e ∙ backup_reply_text s ok_ folder size in
      let reads : in_zeroed whole ≡ some whole =
        in_zeroed-whole whole (lacks-address_text 0 s (b',' ∷ folder) refl refl refl text no_nul)
          (omega (arith, short, size, length-address_text s (b',' ∷ folder))) in
      let (w', run, mail, shown_, left_) =
        reply_lem s buffer reply [] (s.ip ++ codes "," ++ decimal s.port_client)
          (decimal s.port_client) pieces w works answer (rw (sym same) at reads)
          (strtok-transformed s ok_) answers printable
          (λ v. (
            v,
            ap (λ t. on_reply host buffer t v) same
                ∙ on_reply-backup s buffer folder v ok_ other no_text,
            sym (append-nil (shown v.events)),
            refl,
            refl,
          )) in
      let before =
        shown w.events
        ++ (codes "Got this Other Commands from NM|" ++ reply ++ codes "|" ++ line_feed) in
      let first : announced reply ≡ [] = rw same refl in
      (
        decimal s.port_client,
        w',
        run,
        mail,
        atol-decimal_whole s.port_client small,
        shown_ ∙ ap (λ t. before ++ t ++ flat pieces) (sym first),
        left_,
      )
