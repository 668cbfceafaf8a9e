-- ===== src/Storage/Async.antt =====
-- `write_file_async`: an append in pieces of `ASYNC_BUFF_LEN` bytes, which the naming server is told
-- of. The message that the client gets at the start, and the one if the file does not open, are left
-- out.
use network_file_system.Prelude.{
  ℕ, ◌+◌, Bool, false, ◌||◌, Option, none, some, List, [], ◌∷◌, ◌++◌, Bytes, codes, strtok,
  c_string, snprintf, get_elem?, set, replicate, ◌==◌, if◌then◌else◌,
}
use network_file_system.Lock.Defs.{LockStruct, acquire_write_lock, release_write_lock}
use network_file_system.Naming.World.{buffer_size}
use network_file_system.Storage.Locks.{request_lock}

abbrev pub async_buff_len : ℕ
async_buff_len = 32

-- `bzero(buffer, ASYNC_BUFF_LEN + 1)`
abbrev pub zeros : Bytes
zeros = replicate (async_buff_len + 1) 0

abbrev pub has_nul : Bytes → Bool
has_nul [] = false
has_nul (c ∷ cs) = c == 0 || has_nul cs

-- `fprintf(file, "%s", buffer)`, which reads behind the buffer where there is no NUL in it.
unfoldable pub print_buffer : Bytes → Option Bytes
print_buffer buffer = if has_nul buffer then some (c_string buffer) else none

-- `text` in front of what is still printed.
abbrev pub before : Bytes → Option Bytes → Option Bytes
before text none = none
before text (some rest) = some (text ++ rest)

-- The loop over the data, and the line feed behind the last piece.
unfoldable pub print_data : (buffer : Bytes) (buffer_offset : ℕ) → Bytes → Option Bytes
unfolding print_buffer
print_data buffer offset [] = elim (print_buffer buffer) [
  | some text ↦ some (text ++ 10 ∷ [])
  | none ↦ none
]
print_data buffer offset (c ∷ cs) =
    let buffer' = set buffer offset c in
    let more = print_data buffer' (offset + 1) cs in
    let next = print_data zeros 0 cs in
    if offset + 1 == async_buff_len
    then elim (print_buffer buffer') [ some text ↦ before text next | none ↦ none ]
    else more

-- How a call ends: with undefined behaviour, waiting for the lock, with a file that does not open, or
-- with the text that it appends, and the message to the naming server. Where the naming server is
-- not reached, the storage server exits.
pub data AsyncEnd : Type 0 where
  undefined : AsyncEnd
  waits : List LockStruct → AsyncEnd
  not_opened : List LockStruct → AsyncEnd
  exited : (path text : Bytes) → AsyncEnd
  written : (path text message : Bytes) → List LockStruct → AsyncEnd

unfoldable pub async_message : (path ip port : Bytes) → Bytes
async_message path ip port =
    snprintf buffer_size
      (codes "writeasync " ++ path ++ codes " " ++ ip ++ codes " " ++ port ++ 10 ∷ [])

-- Behind `fopen`. `garbage` is what `buffer` holds before it is written to.
unfoldable pub append_async :
    (garbage : Bytes) (connects : Bool) (path : Bytes) → List Bytes → List LockStruct → AsyncEnd
unfolding print_data async_message
append_async garbage connects path (ip ∷ port ∷ data_text ∷ words) ls =
    elim (print_data garbage 0 data_text) [
      | none ↦ undefined
      | some text ↦
          if connects then written path text (async_message path ip port) ls else exited path text
    ]
append_async garbage connects path words ls = undefined

unfoldable pub lock_async :
    (garbage : Bytes) (opens : Bytes → Bool) (connects : Bool) (path : Bytes)
    → List Bytes
    → ℕ
    → List LockStruct
    → AsyncEnd
unfolding append_async acquire_write_lock release_write_lock
lock_async garbage opens connects path words i ls = elim (get_elem? ls i) [
  | none ↦ undefined
  | some l ↦ elim (acquire_write_lock l) [
    | none ↦ waits ls
    | some l' ↦
        if opens path
        then append_async garbage connects path words (set ls i (release_write_lock l').0)
        else not_opened (set ls i l')
  ]
]

unfoldable pub write_file_async :
    (garbage : Bytes) (opens : Bytes → Bool) (connects : Bool) → Bytes → List LockStruct → AsyncEnd
unfolding lock_async request_lock
write_file_async garbage opens connects command ls = elim (strtok b'|' command) [
  | tag ∷ path ∷ words ↦ elim (request_lock path ls) [
    | none ↦ undefined
    | some (i, ls') ↦ lock_async garbage opens connects path words i ls'
  ]
  | _ ↦ undefined
]
