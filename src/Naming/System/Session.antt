-- ===== src/Naming/System/Session.antt =====
-- All commands of a client, one after the other: the state stays valid.
use network_file_system.Prelude.{ℕ, List, [], ◌∷◌, Bytes}
use network_file_system.Naming.World.{Network, Event, M, note_event}
use network_file_system.Naming.Commands.Text.{Control, next_command, client_closed}
use network_file_system.Naming.Copy.Defs.{after_command, process_client}
use network_file_system.Naming.System.Keeps.{Keeps-note_event}
use network_file_system.Naming.System.Valid.{
  StaysValid, stays_valid, StaysValid-Keeps, StaysValid-return,
}
use network_file_system.Naming.System.Process.{StaysValid-process_command}

StaysValid-note_event : (e : Event) → StaysValid (note_event e)
StaysValid-note_event e = StaysValid-Keeps (note_event e) (λ k n r. Keeps-note_event k n r e)

module _ (net : Network) where
  StaysValid-after_command :
      (c : Control) (rest : M (Unit {0})) → StaysValid rest → StaysValid (after_command net c rest)
  unfolding after_command
  StaysValid-after_command next_command rest h = h
  StaysValid-after_command client_closed rest h = StaysValid-return tt

  pub StaysValid-process_client :
      (client : ℕ) (messages : List Bytes) → StaysValid (process_client net client messages)
  unfolding process_client
  StaysValid-process_client client [] = search (stays_valid, StaysValid-note_event) depth 30
  StaysValid-process_client client (buffer ∷ messages) =
      let rest = StaysValid-process_client client messages in
      search
        (
          stays_valid, StaysValid-note_event, StaysValid-process_command, StaysValid-after_command,
          rest,
        )
        depth 30
