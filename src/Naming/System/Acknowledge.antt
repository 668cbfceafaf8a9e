-- ===== src/Naming/System/Acknowledge.antt =====
-- `listen_async`: the state stays valid.
use network_file_system.Prelude.{ℕ, Option, none, some, List, Bytes}
use network_file_system.Naming.World.{
  Event, closed, Network, deref, note_event, recv_good, get_server,
}
use network_file_system.Naming.Async.Defs.{
  Sockets, connect_socket, create_client_socket, back_up, back_up_path, send_ack, send_client_ack,
  on_writeasync, on_message, listen_async,
}
use network_file_system.Naming.System.Keeps.{
  Keeps, keeps, Keeps-return, Keeps-note_event, Keeps-deref, Keeps-get_server, Keeps-send_good,
  Keeps-recv_good, Keeps-is_backup_up,
}
use network_file_system.Naming.System.Commands.{Keeps-exported_name}
use network_file_system.Naming.System.Copies.{Keeps-copy_without_client}
use network_file_system.Naming.System.Valid.{
  StaysValid, stays_valid, StaysValid-Keeps, StaysValid-search,
}

module _ (net : Network) (host : Sockets) where
  Keeps-connect_socket :
      (k n r : ℕ) (ip port : Bytes) (events : List Event) (made : Option ℕ)
      → Keeps k n r (connect_socket host ip port events made)
  unfolding connect_socket
  Keeps-connect_socket k n r ip port events none = Keeps-return k n r none
  Keeps-connect_socket k n r ip port events (some sock) = search keeps depth 30

  Keeps-create_client_socket :
      (k n r : ℕ) (ip port : Bytes) → Keeps k n r (create_client_socket host ip port)
  unfolding create_client_socket
  Keeps-create_client_socket k n r ip port = search (keeps, Keeps-connect_socket) depth 30

  Keeps-back_up :
      (k n r : ℕ) (path : Bytes) (i : ℕ) (b : Option ℕ) → Keeps k n r (back_up net host path i b)
  unfolding back_up
  Keeps-back_up k n r path i none = Keeps-return k n r tt
  Keeps-back_up k n r path i (some b) =
      search (keeps, Keeps-is_backup_up, Keeps-exported_name, Keeps-copy_without_client) depth 30

  Keeps-send_ack :
      (k n r : ℕ) (path : Bytes) (made : Option ℕ) → Keeps k n r (send_ack net host path made)
  unfolding send_ack
  Keeps-send_ack k n r path none = Keeps-return k n r tt
  Keeps-send_ack k n r path (some sock) = search (keeps, Keeps-send_good) depth 30

  Keeps-send_client_ack :
      (k n r : ℕ) (path ip port : Bytes) → Keeps k n r (send_client_ack net host path ip port)
  unfolding send_client_ack
  Keeps-send_client_ack k n r path ip port =
      search (keeps, Keeps-create_client_socket, Keeps-send_ack) depth 30

  StaysValid-deref : {A : Type 0} (o : Option A) → StaysValid (deref o)
  StaysValid-deref o = StaysValid-Keeps (deref o) (λ k n r. Keeps-deref k n r o)

  StaysValid-get_server : (i : ℕ) → StaysValid (get_server i)
  StaysValid-get_server i = StaysValid-Keeps (get_server i) (λ k n r. Keeps-get_server k n r i)

  StaysValid-back_up :
      (path : Bytes) (i : ℕ) (b : Option ℕ) → StaysValid (back_up net host path i b)
  StaysValid-back_up path i b =
      StaysValid-Keeps (back_up net host path i b) (λ k n r. Keeps-back_up k n r path i b)

  StaysValid-back_up_path : (path : Bytes) → StaysValid (back_up_path net host path)
  unfolding back_up_path
  StaysValid-back_up_path path =
      search
        (
          stays_valid, StaysValid-search, StaysValid-deref, StaysValid-get_server,
          StaysValid-back_up,
        )
        depth 30

  StaysValid-send_client_ack :
      (path ip port : Bytes) → StaysValid (send_client_ack net host path ip port)
  StaysValid-send_client_ack path ip port =
      StaysValid-Keeps (send_client_ack net host path ip port)
        (λ k n r. Keeps-send_client_ack k n r path ip port)

  StaysValid-on_writeasync : (words : List Bytes) → StaysValid (on_writeasync net host words)
  unfolding on_writeasync
  StaysValid-on_writeasync words =
      search (stays_valid, StaysValid-deref, StaysValid-back_up_path, StaysValid-send_client_ack)
        depth 30

  StaysValid-on_message :
      (client : ℕ) (message : Option Bytes) → StaysValid (on_message net host client message)
  unfolding on_message
  StaysValid-on_message client none =
      StaysValid-Keeps (note_event (closed client))
        (λ k n r. Keeps-note_event k n r (closed client))
  StaysValid-on_message client (some bytes) =
      search (stays_valid, StaysValid-deref, StaysValid-back_up_path, StaysValid-on_writeasync)
        depth 30

  StaysValid-recv_good : (socket : ℕ) → StaysValid (recv_good net socket)
  StaysValid-recv_good socket =
      StaysValid-Keeps (recv_good net socket) (λ k n r. Keeps-recv_good net k n r socket)

  pub StaysValid-listen_async : (client : ℕ) → StaysValid (listen_async net host client)
  unfolding listen_async
  StaysValid-listen_async client =
      search (stays_valid, StaysValid-recv_good, StaysValid-on_message) depth 30
