-- ===== src/Client/Listing.antt =====
-- The branch of `ls` on the root: the listing that the naming server sends.
use network_file_system.Prelude.{
  Option, none, some, List, [], ◌∷◌, ◌++◌, Bytes, codes, c_string, take, drop, set, length,
  replicate, ltb, if◌then◌else◌,
}
use network_file_system.Naming.World.{buffer_size}
use network_file_system.Transfer.Send.{◌>>=◌, ◌>>◌, return, undefined}
use network_file_system.Storage.Async.{print_buffer}
use network_file_system.Client.World.{Host, Control, next_command, M, print, ask, deref}
use network_file_system.Client.Text.{before_text}

abbrev pub list_end : Bytes
list_end = codes "@#!@#over@$"

-- A buffer behind a receive of these bytes.
abbrev pub overwrite : (buffer chunk : Bytes) → Bytes
overwrite buffer chunk = chunk ++ drop (length chunk) buffer

-- `buffer2[bytes] = '\0'` and the print of the buffer, and the rest of the loop.
abbrev pub print_chunk : (buffer chunk : Bytes) (more : Bytes → M (Unit {0})) → M (Unit {0})
print_chunk buffer chunk more =
    if ltb (length chunk) (length buffer)
    then (do print (c_string (set buffer (length chunk) 0)); more (set buffer (length chunk) 0))
    else undefined

-- What stands in front of the marker is printed; without a marker `k` is done.
abbrev pub print_up_to : Option Bytes → M (Unit {0}) → M (Unit {0})
print_up_to (some front) k = print front
print_up_to none k = k

-- The loop over the chunks of the naming server. The marker is looked for before the NUL is written
-- behind the chunk. The chunks are those that arrive before a receive of 0 or less: a receive that
-- does not end is not in the model.
unfoldable pub show_chunks : (buffer2 : Bytes) → List Bytes → M (Unit {0})
unfolding print_buffer before_text
show_chunks buffer2 [] = return tt
show_chunks buffer2 (bytes ∷ more) =
    let chunk = take buffer_size bytes in
    let now = overwrite buffer2 chunk in
    let rest : Bytes → M (Unit {0}) = λ b. show_chunks b more in
    (do
      text ← deref (print_buffer now)
      print_up_to (before_text list_end text) (print_chunk now chunk rest))

module _ (host : Host) where
  unfoldable pub list_root : M Control
  unfolding show_chunks
  list_root = do
    chunks ← ask (host.list_chunks)
    show_chunks (replicate buffer_size 0) chunks
    return next_command
