-- ===== src/Client/World.antt =====
-- The client's terminal and its connections.
use network_file_system.Prelude.{
  ℕ, Bool, ◌||◌, Option, none, some, List, ◌∷◌, Bytes, c_string, take, length, ltb, if◌then◌else◌,
}
use network_file_system.Naming.World.{buffer_size}
use network_file_system.Storage.Async.{has_nul}
use network_file_system.Transfer.Send.{P, return, undefined}
use network_file_system.Errors.{print_error_details}

-- What the client does to the outside, without what it writes to the standard error.
pub data Event : Type 0 where
  printed asked sent_to_server played : Bytes → Event
  connected : (ip port : Bytes) → Event
  received : Event

-- What a receive returns: a number below 0, 0, or bytes.
pub data Receipt : Type 0 where
  failed empty : Receipt
  got : Bytes → Receipt

-- What the host and the other side answer, by what happened so far, the latest first: whether a
-- call succeeds, what is received from the naming server and from a storage server, and the pieces
-- of a listing and of an answer up to the first receive of 0 or less. A port is a text, as it
-- stands in front of `atoi`. `fresh` is what the memory of `malloc` holds, `stream_failed` whether
-- the receive behind the last piece of a stream is below 0, `address` is `IPADDR`, and `async_port`
-- is `ASYNC_PORT_FOR_CLIENT`.
pub record Host : Type 0 where
  pub send_ns : List Event → Bytes → Bool
  pub recv_ns : List Event → Receipt
  pub list_chunks : List Event → List Bytes
  pub socket : List Event → Bool
  pub inet_pton : Bytes → Bool
  pub connect : List Event → (ip port : Bytes) → Bool
  pub send_ss : List Event → Bytes → Bool
  pub recv_ss : List Event → Receipt
  pub response_chunks : List Event → List Bytes
  pub fresh : Bytes
  pub popen : List Event → Bool
  pub fwrite : List Event → Bytes → Bool
  pub stream_failed : List Event → Bool
  pub address : Bytes
  pub async_port : Bytes

-- What is left of the standard input, and the events so far, the latest first.
pub record World : Type 0 where
  pub input : Bytes
  pub events : List Event

abbrev pub M : Type 0 → Type 0
M = P World

-- Whether the loop of `main` goes on, or `main` returns.
pub data Control : Type 0 where
  next_command left : Control

abbrev pub note : Event → M (Unit {0})
note e w = some (tt, record w { events = e ∷ w.events })

abbrev pub print : Bytes → M (Unit {0})
print text = note (printed text)

-- `printErrorDetails`
abbrev pub print_error : ℕ → M (Unit {0})
print_error n = print (print_error_details n)

-- What the host answers now.
abbrev pub ask : {A : Type 0} → (List Event → A) → M A
ask f w = some (f w.events, w)

-- A pointer that is read, and a text that is read up to its NUL.
abbrev pub deref : {A : Type 0} → Option A → M A
deref (some a) = return a
deref none = undefined

-- What a zeroed buffer of `BUFFER_SIZE` holds as a string behind a receive: none where no NUL is
-- in it.
unfoldable pub in_zeroed : Bytes → Option Bytes
in_zeroed chunk =
    if ltb (length chunk) buffer_size || has_nul (take buffer_size chunk)
    then some (c_string (take buffer_size chunk))
    else none
