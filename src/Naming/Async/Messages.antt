-- ===== src/Naming/Async/Messages.antt =====
-- The messages at the end of a write, as the other side reads them.
use network_file_system.Prelude.{
  ℕ, ◌+◌, ◌<◌, ◌≤◌, ◌≡◌, refl, sym, ap, ◌∙◌, true, some, arith, List, [], ◌∷◌, ◌++◌, Bytes, codes,
  starts_with, strtok, strtok_from, c_string, drop, take, take_of_length-le, decimal, length,
  length-append,
}
use mathlib.Core.List.{append_assoc, append-nil}
use network_file_system.Naming.World.{
  StorageServerInfo, Network, World, received, note, recv_good, buffer_size, ◌>>=◌, ◌>>◌,
}
use network_file_system.Naming.Copy.Defs.{ss_info, bypass_message}
use network_file_system.Naming.Copy.Messages.{words_text-append, ss_info-words_text, in_buffer-some}
use network_file_system.Naming.Copy.Words.{
  words_text, all_words, is_token, all_tokens, all_tokens-words, strtok-tokens,
}
use network_file_system.Naming.Copy.Read.{strtok-address, scan_copy-address}
use network_file_system.Naming.Async.Defs.{
  Sockets, lcopy_message, listen_async, on_writeasync, back_up_path, send_client_ack,
}
use network_file_system.Storage.Async.{async_message}
use network_file_system.Storage.Protocol.{no_space}
use network_file_system.Storage.Listen.{
  copy_to, lcopy, listen_to_nm, listen_chain, listen_primary, copy_words, parse_command_fits,
}
use network_file_system.Transfer.Confirm.{c_string-solid}
use network_file_system.Transfer.Send.{scan_copy}

-- The place of a file at a backup server.
abbrev pub backup_root : (folder : Bytes) → Bytes
backup_root folder = codes "./backupfolderforss/" ++ folder

lcopy_message-words_text :
    (path folder : Bytes)
    → length path + length folder + 27 < buffer_size
    → lcopy_message path folder ≡ codes "lcopy" ++ words_text (path ∷ backup_root folder ∷ [])
unfolding lcopy_message
lcopy_message-words_text path folder h =
    let split : codes "lcopy " ++ path ++ codes " ./backupfolderforss/" ++ folder
        ≡ codes "lcopy" ++ words_text (path ∷ backup_root folder ∷ []) =
      simp (append_assoc, append-nil) refl in
    ap (take 1023) split
    ∙ take_of_length-le 1023 (codes "lcopy" ++ words_text (path ∷ backup_root folder ∷ [])) (
        omega (
          arith,
          h,
          length-append path (b' ' ∷ (backup_root folder ++ [])),
          length-append folder [],
        ))

bypass_message-lcopy :
    (t m : Bytes) (bs : StorageServerInfo)
    → bypass_message (codes "lcopy" ++ t) bs ≡ some m
    → m ≡ (codes "lcopy" ++ t) ++ ss_info bs
unfolding bypass_message starts_with
bypass_message-lcopy t m bs h = in_buffer-some ((codes "lcopy" ++ t) ++ ss_info bs) m h

bypass_message-words_text :
    (path folder m : Bytes) (bs : StorageServerInfo)
    → length path + length folder + 27 < buffer_size
    → length bs.ip ≤ 15
    → bypass_message (lcopy_message path folder) bs ≡ some m
    → m
      ≡ codes "lcopy"
        ++ words_text (path ∷ backup_root folder ∷ bs.ip ∷ decimal bs.port_client ∷ [])
bypass_message-words_text path folder m bs h short e =
    let words = lcopy_message-words_text path folder h in
    bypass_message-lcopy (words_text (path ∷ backup_root folder ∷ [])) m bs
      (ap (λ t. bypass_message t bs) (sym words) ∙ e)
    ∙ ap (λ t. (codes "lcopy" ++ words_text (path ∷ backup_root folder ∷ [])) ++ t)
        (ss_info-words_text bs short)
    ∙ ap (λ t. codes "lcopy" ++ t)
        (words_text-append (path ∷ backup_root folder ∷ []) (bs.ip ∷ decimal bs.port_client ∷ []))

-- The message that `listen_async` sends for a backup server, whose address has at most 15 bytes:
-- where the path, its place below the backup folder and the address are words, and both texts fit
-- the buffer, the storage server of the path takes the copy of one file, to the address and port of
-- the backup server, and reads the path as the source and the place as the destination.
pub read-lcopy_message :
    (root path folder m : Bytes) (bs : StorageServerInfo)
    → all_words (path ∷ backup_root folder ∷ bs.ip ∷ []) ≡ true
    → length path + length folder + 27 < buffer_size
    → length bs.ip ≤ 15
    → bypass_message (lcopy_message path folder) bs ≡ some m
    → (listen_to_nm root m ≡ some (copy_to lcopy (some bs.ip) (some (decimal bs.port_client))))
      × (scan_copy m ≡ some (path, backup_root folder))
unfolding listen_to_nm listen_chain listen_primary copy_words parse_command_fits starts_with
read-lcopy_message root path folder m bs words fits short h =
    let whole = bypass_message-words_text path folder m bs fits short h in
    let tokens =
      strtok-address 108 (drop 1 (codes "lcopy")) path (backup_root folder) bs.ip bs.port_client
        words in
    (
      rw (whole, tokens) refl,
      ap scan_copy whole
          ∙ scan_copy-address 108 (drop 1 (codes "lcopy")) path (backup_root folder) bs.ip
              bs.port_client words,
    )

c_string-solid_text :
    (ws : List Bytes)
    → all_words ws ≡ true
    → c_string (words_text ws ++ 10 ∷ []) ≡ words_text ws ++ 10 ∷ []
unfolding c_string
c_string-solid_text [] h = refl
c_string-solid_text ([] ∷ ws) h = cc
c_string-solid_text ((c ∷ cs) ∷ ws) h =
    let rest : c_string (words_text ws ++ 10 ∷ []) ≡ words_text ws ++ 10 ∷ [] =
      c_string-solid_text ws (ground arith) in
    ap (◌∷◌ b' ') (
      ap c_string (append_assoc (c ∷ cs) (words_text ws) (10 ∷ []))
      ∙ c_string-solid (c ∷ cs) (words_text ws ++ 10 ∷ []) (ground arith)
      ∙ ap (◌++◌ (c ∷ cs)) rest
      ∙ sym (append_assoc (c ∷ cs) (words_text ws) (10 ∷ [])))

async_message-words_text :
    (path ip port : Bytes)
    → length path + length ip + length port + 14 < buffer_size
    → async_message path ip port
      ≡ codes "writeasync" ++ (words_text (path ∷ ip ∷ port ∷ []) ++ 10 ∷ [])
unfolding async_message
async_message-words_text path ip port h =
    let split : codes "writeasync " ++ path ++ codes " " ++ ip ++ codes " " ++ port ++ 10 ∷ []
        ≡ codes "writeasync" ++ (words_text (path ∷ ip ∷ port ∷ []) ++ 10 ∷ []) =
      simp (append_assoc, append-nil) refl in
    let last = b' ' ∷ (port ++ []) in
    let rest = b' ' ∷ (ip ++ last) in
    ap (take 1023) split
    ∙ take_of_length-le 1023 (codes "writeasync" ++ (words_text (path ∷ ip ∷ port ∷ []) ++ 10 ∷ []))
        (omega (
          arith,
          h,
          length-append (path ++ rest) (10 ∷ []),
          length-append path rest,
          length-append ip last,
          length-append port [],
        ))

no_space-line : (cs : Bytes) → no_space cs ≡ true → no_space (cs ++ 10 ∷ []) ≡ true
no_space-line [] h = refl
no_space-line (c ∷ cs) h = ground (arith, no_space-line cs)

is_token-line : (w : Bytes) → is_token w ≡ true → is_token (w ++ 10 ∷ []) ≡ true
is_token-line [] h = cc
is_token-line (c ∷ cs) h = no_space-line (c ∷ cs) h

strtok-async_message :
    (path ip port : Bytes)
    → all_words (path ∷ ip ∷ port ∷ []) ≡ true
    → strtok b' ' (codes "writeasync" ++ (words_text (path ∷ ip ∷ port ∷ []) ++ 10 ∷ []))
      ≡ codes "writeasync" ∷ path ∷ ip ∷ (port ++ 10 ∷ []) ∷ []
unfolding strtok strtok_from
strtok-async_message path ip port h =
    let split : words_text (path ∷ ip ∷ port ∷ []) ++ 10 ∷ []
        ≡ words_text (path ∷ ip ∷ (port ++ 10 ∷ []) ∷ []) =
      simp (append_assoc, append-nil) refl in
    let tokens : all_tokens (path ∷ ip ∷ port ∷ []) ≡ true =
      all_tokens-words (path ∷ ip ∷ port ∷ []) h in
    let line : all_tokens (path ∷ ip ∷ (port ++ 10 ∷ []) ∷ []) ≡ true =
      ground (arith, is_token-line port) in
    ap (λ t. strtok_from b' ' [] (codes "writeasync" ++ t)) split
    ∙ strtok-tokens (codes "writeasync" ∷ path ∷ ip ∷ (port ++ 10 ∷ []) ∷ []) line

listen_async-on_writeasync :
    (net : Network) (host : Sockets)
    → (client : ℕ) (text : Bytes) (w : World)
    → net.receive w.events client ≡ some (codes "writeasync" ++ text)
    → listen_async net host client w
      ≡ on_writeasync net host
          (strtok b' ' (c_string (codes "writeasync" ++ text)))
          (note (received client) w)
unfolding listen_async recv_good starts_with c_string
listen_async-on_writeasync net host client text w h = rw (listen_async, ◌>>=◌, recv_good, h) refl

on_writeasync-words :
    (net : Network) (host : Sockets)
    → (tag path ip port : Bytes) (w : World)
    → on_writeasync net host (tag ∷ path ∷ ip ∷ port ∷ []) w
      ≡ (back_up_path net host path >> send_client_ack net host path ip port) w
unfolding on_writeasync
on_writeasync-words net host tag path ip port w = refl

-- The message at the end of an asynchronous write, as the naming server reads it: where the path,
-- the address and the port of the client are words and the message fits the buffer, a naming server
-- that receives it backs up this path, and then acknowledges it to this address and port, where the
-- port still has the line feed of the message behind it.
pub listen_async-async_message :
    (net : Network) (host : Sockets)
    → (client : ℕ) (path ip port : Bytes) (w : World) → all_words (path ∷ ip ∷ port ∷ []) ≡ true
    → length path + length ip + length port + 14 < buffer_size
    → net.receive w.events client ≡ some (async_message path ip port)
    → listen_async net host client w
      ≡ (back_up_path net host path >> send_client_ack net host path ip (port ++ 10 ∷ []))
          (note (received client) w)
listen_async-async_message net host client path ip port w words fits h =
    let text = words_text (path ∷ ip ∷ port ∷ []) ++ 10 ∷ [] in
    let arrived : net.receive w.events client ≡ some (codes "writeasync" ++ text) =
      h ∙ ap some (async_message-words_text path ip port fits) in
    let seen : c_string (codes "writeasync" ++ text) ≡ codes "writeasync" ++ text =
      c_string-solid (codes "writeasync") text refl
      ∙ ap (◌++◌ (codes "writeasync")) (c_string-solid_text (path ∷ ip ∷ port ∷ []) words) in
    listen_async-on_writeasync net host client text w arrived
    ∙ ap (λ t. on_writeasync net host t (note (received client) w))
        (ap (strtok b' ') seen ∙ strtok-async_message path ip port words)
    ∙ on_writeasync-words net host (codes "writeasync") path ip (port ++ 10 ∷ [])
        (note (received client) w)
