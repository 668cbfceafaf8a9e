-- ===== src/Client/Shrinks.antt =====
-- What the commands leave of the terminal's input: never more than they found.
use network_file_system.Prelude.{
  ℕ, ◌≤◌, ◌≡◌, ◌⊎◌, refl, Bool, true, false, Option, none, some, Option-cases, inl, inr, arith,
  List, [], ◌∷◌, Bytes, length, if◌then◌else◌,
}
use network_file_system.Transfer.Send.{◌>>=◌, ◌>>◌, return, undefined}
use network_file_system.Client.World.{
  Event, printed, Host, World, Receipt, failed, empty, got, next_command, M, note, ask, deref,
}
use network_file_system.Client.Text.{trim, read_data}
use network_file_system.Client.Listing.{print_up_to, show_chunks, list_root}
use network_file_system.Client.Servers.{
  connect_to, send_then, send_details, print_pieces, send_and_receive, play_pieces, stream_music,
}
use network_file_system.Client.Write.{
  read_line, write_message, write_reply, answer_text, print_answer, send_write, write_at_server,
  write_command,
}
use network_file_system.Client.Loop.{
  reply_text, print_reply, at_server, at_backup, unless_found, on_reply, on_receipt, other_command,
  dispatch, run_command, run_trimmed, run_line,
}

-- What is left of the input is not longer than `n`.
abbrev pub Within : {A : Type 0} → ℕ → Option (A × World) → Type 0
Within n none = Unit
Within n (some (a, w)) = length w.input ≤ n

-- A function that reads nothing or some of the input.
unfoldable pub Shrinks : {A : Type 0} → M A → Type 0
Shrinks m = (w : World) → Within (length w.input) (m w)

pub Within-some :
    {A : Type 0} (v w : World) (a : A) (o : Option (A × World))
    → o ≡ some (a, w)
    → Within (length v.input) o
    → length w.input ≤ length v.input
Within-some v w a o e h = rw e at h

pub List-cases : (xs : Bytes) → (xs ≡ []) ⊎ ((c : ℕ) × (cs : Bytes) × (xs ≡ c ∷ cs))
List-cases [] = inl refl
List-cases (c ∷ cs) = inr (c, cs, refl)

pub Within-le : {A : Type 0} (n k : ℕ) (o : Option (A × World)) → n ≤ k → Within n o → Within k o
Within-le n k none h i = tt
Within-le n k (some (a, w)) h i = omega (arith, h, i)

pub Shrinks-bind :
    {A B : Type 0} (m : M A) (f : A → M B)
    → Shrinks m
    → ((a : A) → Shrinks (f a))
    → Shrinks (m >>= f)
unfolding Shrinks
Shrinks-bind m f h k w = elim (Option-cases (m w)) [
  | inl e ↦ rw (◌>>=◌, e) tt
  | inr ((a, w'), e) ↦
      let first : length w'.input ≤ length w.input = rw e at (h w) in
      rw (◌>>=◌, e) (Within-le (length w'.input) (length w.input) (f a w') first (k a w'))
]

pub Shrinks-then : {A B : Type 0} (m : M A) (k : M B) → Shrinks m → Shrinks k → Shrinks (m >> k)
Shrinks-then m k h i = Shrinks-bind m (λ a. k) h (λ a. i)

pub Shrinks-return : {A : Type 0} (a : A) → Shrinks (return a)
unfolding Shrinks
Shrinks-return a w = omega arith

pub Shrinks-undefined : (A : Type 0) → Shrinks (undefined {A = A})
unfolding Shrinks
Shrinks-undefined A w = tt

pub Shrinks-note : (e : Event) → Shrinks (note e)
unfolding Shrinks
Shrinks-note e w = omega arith

pub Shrinks-ask : {A : Type 0} (f : List Event → A) → Shrinks (ask f)
unfolding Shrinks
Shrinks-ask f w = omega arith

pub Shrinks-deref : {A : Type 0} (o : Option A) → Shrinks (deref o)
unfolding Shrinks
Shrinks-deref none w = tt
Shrinks-deref (some a) w = omega arith

pub Shrinks-if :
    {A : Type 0} (b : Bool) (m k : M A) → Shrinks m → Shrinks k → Shrinks (if b then m else k)
Shrinks-if true m k h i = h
Shrinks-if false m k h i = i

pub ruleset shrinks = (
  Shrinks-bind, Shrinks-then, Shrinks-return, Shrinks-undefined, Shrinks-note, Shrinks-ask,
  Shrinks-deref, Shrinks-if,
)

module _ (host : Host) where
  pub Shrinks-connect_to : (ip port : Option Bytes) → Shrinks (connect_to host ip port)
  unfolding connect_to
  Shrinks-connect_to ip port = search shrinks depth 30

  pub Shrinks-send_then :
      (message : Bytes) (k : M (Unit {0})) → Shrinks k → Shrinks (send_then host message k)
  unfolding send_then
  Shrinks-send_then message k h = search shrinks depth 30

  pub Shrinks-send_details :
      (details message : Bytes) (k : M (Unit {0}))
      → Shrinks k
      → Shrinks (send_details host details message k)
  unfolding send_details
  Shrinks-send_details details message k h =
      search (shrinks, Shrinks-send_then, Shrinks-connect_to) depth 30

  pub Shrinks-print_pieces : (pieces : List Bytes) → Shrinks (print_pieces host pieces)
  unfolding print_pieces
  Shrinks-print_pieces [] = Shrinks-return tt
  Shrinks-print_pieces (c ∷ cs) = search (shrinks, Shrinks-print_pieces cs) depth 30

  pub Shrinks-send_and_receive :
      (details buffer : Bytes) → Shrinks (send_and_receive host details buffer)
  unfolding send_and_receive
  Shrinks-send_and_receive details buffer =
      search (shrinks, Shrinks-send_details, Shrinks-print_pieces) depth 30

  pub Shrinks-play_pieces :
      (first_time : Bool) (pieces : List Bytes) → Shrinks (play_pieces host first_time pieces)
  unfolding play_pieces
  Shrinks-play_pieces first_time [] = search shrinks depth 30
  Shrinks-play_pieces first_time (c ∷ cs) = search (shrinks, Shrinks-play_pieces false cs) depth 30

  pub Shrinks-stream_music : (details buffer : Bytes) → Shrinks (stream_music host details buffer)
  unfolding stream_music
  Shrinks-stream_music details buffer =
      search (shrinks, Shrinks-send_details, Shrinks-play_pieces) depth 30

  pub Shrinks-unless_found :
      (o : Option Bytes) (k : M (Unit {0})) → Shrinks k → Shrinks (unless_found host o k)
  Shrinks-unless_found none k h = h
  Shrinks-unless_found (some front) k h = Shrinks-return tt

  pub Shrinks-at_server :
      (first : M (Unit {0})) (buffer details : Bytes)
      → Shrinks first
      → Shrinks (at_server host first buffer details)
  unfolding at_server
  Shrinks-at_server first buffer details h =
      search (shrinks, Shrinks-stream_music, Shrinks-send_and_receive) depth 30

  pub Shrinks-at_backup :
      (buffer : Bytes) (details : Option Bytes) → Shrinks (at_backup host buffer details)
  unfolding at_backup
  Shrinks-at_backup buffer none = Shrinks-return tt
  Shrinks-at_backup buffer (some details) = search (shrinks, Shrinks-at_server) depth 30

  pub Shrinks-on_reply : (buffer reply : Bytes) → Shrinks (on_reply host buffer reply)
  unfolding on_reply
  Shrinks-on_reply buffer reply =
      search (shrinks, Shrinks-unless_found, Shrinks-at_backup, Shrinks-at_server) depth 30

  pub Shrinks-on_receipt :
      (buffer : Bytes) (answer : Receipt) → Shrinks (on_receipt host buffer answer)
  unfolding on_receipt
  Shrinks-on_receipt buffer failed = search shrinks depth 30
  Shrinks-on_receipt buffer empty = search shrinks depth 30
  Shrinks-on_receipt buffer (got bytes) = search (shrinks, Shrinks-on_reply) depth 30

  pub Shrinks-other_command : (buffer : Bytes) → Shrinks (other_command host buffer)
  unfolding other_command
  Shrinks-other_command buffer = search (shrinks, Shrinks-on_receipt) depth 30

  pub Shrinks-reply_text : (answer : Receipt) → Shrinks (reply_text host answer)
  unfolding reply_text
  Shrinks-reply_text failed = Shrinks-undefined Bytes
  Shrinks-reply_text empty = search shrinks depth 30
  Shrinks-reply_text (got bytes) = search shrinks depth 30

  pub Shrinks-print_reply : Shrinks (print_reply host)
  unfolding print_reply
  Shrinks-print_reply = search (shrinks, Shrinks-reply_text) depth 30

  pub length-read_data :
      (text line rest : Bytes) → read_data text ≡ some (line, rest) → length rest ≤ length text
  unfolding read_data
  length-read_data [] line rest h = cc
  length-read_data (c ∷ cs) line rest h = elim (Option-cases (read_data cs)) [
    | inl e ↦ ground arith
    | inr ((l, r), e) ↦ let shorter = length-read_data cs l r e in ground arith
  ]

  pub Shrinks-read_line : Shrinks (read_line host)
  unfolding Shrinks read_line
  Shrinks-read_line w = elim (Option-cases (read_data w.input)) [
    | inl e ↦ rw (read_line, e) tt
    | inr ((line, rest), e) ↦ rw (read_line, e) (length-read_data w.input line rest e)
  ]

  pub Shrinks-write_message : (reply path : Bytes) → Shrinks (write_message host reply path)
  unfolding write_message
  Shrinks-write_message reply path = search (shrinks, Shrinks-read_line) depth 30

  pub Shrinks-answer_text : (answer : Receipt) → Shrinks (answer_text host answer)
  unfolding answer_text
  Shrinks-answer_text failed = search shrinks depth 30
  Shrinks-answer_text empty = search shrinks depth 30
  Shrinks-answer_text (got bytes) = search shrinks depth 30

  pub Shrinks-print_answer : Shrinks (print_answer host)
  unfolding print_answer
  Shrinks-print_answer = search (shrinks, Shrinks-answer_text) depth 30

  pub Shrinks-send_write : (message : Bytes) → Shrinks (send_write host message)
  unfolding send_write
  Shrinks-send_write message = search (shrinks, Shrinks-print_answer) depth 30

  pub Shrinks-write_at_server :
      (reply : Bytes) (path : Option Bytes) → Shrinks (write_at_server host reply path)
  unfolding write_at_server
  Shrinks-write_at_server reply path =
      search (shrinks, Shrinks-write_message, Shrinks-connect_to, Shrinks-send_write) depth 30

  pub Shrinks-write_reply : (answer : Receipt) → Shrinks (write_reply host answer)
  unfolding write_reply
  Shrinks-write_reply failed = search shrinks depth 30
  Shrinks-write_reply empty = search shrinks depth 30
  Shrinks-write_reply (got bytes) = search shrinks depth 30

  pub Shrinks-write_command : (path : Option Bytes) → Shrinks (write_command host path)
  unfolding write_command
  Shrinks-write_command path =
      search (shrinks, Shrinks-write_reply, Shrinks-write_at_server) depth 30

  pub Shrinks-print_up_to :
      (o : Option Bytes) (k : M (Unit {0})) → Shrinks k → Shrinks (print_up_to o k)
  Shrinks-print_up_to none k h = h
  Shrinks-print_up_to (some front) k h = Shrinks-note (printed front)

  pub Shrinks-show_chunks :
      (buffer : Bytes) (chunks : List Bytes) → Shrinks (show_chunks buffer chunks)
  unfolding show_chunks
  Shrinks-show_chunks buffer [] = Shrinks-return tt
  Shrinks-show_chunks buffer (c ∷ cs) =
      search (shrinks, Shrinks-print_up_to, λ (b : Bytes). Shrinks-show_chunks b cs) depth 30

  pub Shrinks-list_root : Shrinks (list_root host)
  unfolding list_root
  Shrinks-list_root = search (shrinks, Shrinks-show_chunks) depth 30

  pub Shrinks-dispatch : (buffer : Bytes) → Shrinks (dispatch host buffer)
  unfolding dispatch
  Shrinks-dispatch buffer =
      search
        (
          shrinks, Shrinks-list_root, Shrinks-print_reply, Shrinks-write_command,
          Shrinks-other_command,
        )
        depth 30

  pub Shrinks-run_command : (buffer : Bytes) → Shrinks (run_command host buffer)
  unfolding run_command
  Shrinks-run_command buffer = search (shrinks, Shrinks-dispatch) depth 30

  pub Shrinks-run_trimmed : (text : Bytes) → Shrinks (run_trimmed host text)
  unfolding run_trimmed
  Shrinks-run_trimmed [] = Shrinks-return next_command
  Shrinks-run_trimmed (c ∷ cs) = Shrinks-run_command (c ∷ cs)

  pub Shrinks-run_line : (line : Bytes) → Shrinks (run_line host line)
  unfolding run_line
  Shrinks-run_line line = Shrinks-run_trimmed (trim line)
