-- ===== src/Client/Servers.antt =====
-- `sendAndRecieveFromSS` and `streamMusicFromSS`. A result of NULL is not read, and playing goes on
-- unless a key pauses it, which nothing but the time depends on.
use network_file_system.Prelude.{
  Bool, true, false, Option, List, [], ◌∷◌, ◌++◌, Bytes, codes, strtok, c_string, take, get_elem?,
  if◌then◌else◌,
}
use network_file_system.Transfer.Send.{◌>>=◌, ◌>>◌, return, line_feed}
use network_file_system.Files.Reading.{buffer_size_for_music}
use network_file_system.Client.World.{
  Host, M, sent_to_server, connected, played, received, note, print, print_error, ask, deref,
}

module _ (host : Host) where
  -- The connection to a storage server: whether it is made. A failure prints its error.
  unfoldable pub connect_to : (ip port : Option Bytes) → M Bool
  connect_to ip port = do
    made ← ask (host.socket)
    if made
        then (do
          port_text ← deref port
          ip_text ← deref ip
          if host.inet_pton ip_text
              then (do
                open_ ← ask (λ es. host.connect es ip_text port_text)
                if open_
                    then (do note (connected ip_text port_text); return true)
                    else (do print_error 9; return false))
              else (do print_error 8; return false))
        else (do print_error 7; return false)

  -- The message to the storage server, and what is done behind it.
  unfoldable pub send_then : (message : Bytes) → M (Unit {0}) → M (Unit {0})
  send_then message k = do
    sent ← ask (λ es. host.send_ss es message)
    note (sent_to_server message)
    if sent then k else print_error 10

  -- The words that `strtok` finds at the commas.
  unfoldable pub send_details : (details message : Bytes) → M (Unit {0}) → M (Unit {0})
  send_details details message k = do
    let words = strtok b',' details
    made ← connect_to (get_elem? words 0) (get_elem? words 1)
    if made then send_then message k else return tt

  unfoldable pub print_pieces : List Bytes → M (Unit {0})
  print_pieces [] = return tt
  print_pieces (bytes ∷ more) = do
    note received
    print (c_string (take 1023 bytes))
    print_pieces more

  unfoldable pub send_and_receive : (details buffer : Bytes) → M (Unit {0})
  send_and_receive details buffer =
      send_details details buffer (do pieces ← ask (host.response_chunks); print_pieces pieces)

  -- The loop of the player. `first_time` is whether nothing came so far.
  unfoldable pub play_pieces : (first_time : Bool) → List Bytes → M (Unit {0})
  play_pieces first_time [] = do
    note received
    broken ← ask (host.stream_failed)
    if broken
        then (if first_time then print (codes "File not Found" ++ line_feed) else return tt)
        else print (codes "End of stream" ++ line_feed)
  play_pieces first_time (bytes ∷ more) = do
    note received
    let piece = take buffer_size_for_music bytes
    written ← ask (λ es. host.fwrite es piece)
    if written then (do note (played piece); play_pieces false more) else print_error 36

  unfoldable pub stream_music : (details buffer : Bytes) → M (Unit {0})
  unfolding send_details play_pieces
  stream_music details buffer = send_details details buffer (do
    player ← ask (host.popen)
    if player
        then (do pieces ← ask (host.response_chunks); play_pieces true pieces)
        else print_error 36)
