-- ===== src/Storage/Appended.antt =====
-- What `write_file_async` appends.
use network_file_system.Prelude.{
  ℕ, zero, suc, ◌+◌, ◌<◌, ◌≡◌, refl, sym, ap, ◌∙◌, Bool, true, false, some, arith, List, [], ◌∷◌,
  ◌++◌, Bytes, strtok, c_string, set, replicate, length, length-append, drop, ◌==◌,
}
use mathlib.Core.List.{append_assoc, append-nil}
use network_file_system.Lock.Defs.{LockStruct, acquire_write_lock, release_write_lock}
use network_file_system.Storage.Locks.{
  find_lock, IsFree, has_lock_or_room, find_lock-set, get_elem?-set, request_lock_lem,
}
use network_file_system.Storage.Async.{
  async_buff_len, zeros, has_nul, print_buffer, print_data, written, async_message, append_async,
  lock_async, write_file_async,
}
use network_file_system.Storage.Write.{IsFree-at}

set-append : (xs ys : Bytes) (y c : ℕ) → set (xs ++ y ∷ ys) (length xs) c ≡ xs ++ c ∷ ys
set-append [] ys y c = refl
set-append (x ∷ xs) ys y c = ap (◌∷◌ x) (set-append xs ys y c)

pub has_nul-front : (xs ys : Bytes) → has_nul ys ≡ true → has_nul (xs ++ ys) ≡ true
has_nul-front [] ys h = h
has_nul-front (x ∷ xs) ys h = ground (arith, has_nul-front xs ys h)

pub c_string-front : (xs ys : Bytes) → has_nul xs ≡ false → c_string (xs ++ ys) ≡ xs ++ c_string ys
unfolding c_string
c_string-front [] ys h = refl
c_string-front (x ∷ xs) ys h =
    let other : (x == 0) ≡ false = ground arith in
    rw other (ap (◌∷◌ x) (c_string-front xs ys (ground arith)))

print_buffer-front :
    (xs ys : Bytes)
    → has_nul xs ≡ false
    → has_nul ys ≡ true
    → print_buffer (xs ++ ys) ≡ some (xs ++ c_string ys)
unfolding print_buffer
print_buffer-front xs ys h k = rw (has_nul-front xs ys k, c_string-front xs ys h) refl

print_buffer-append : (xs ys : Bytes) → has_nul xs ≡ false → print_buffer (xs ++ 0 ∷ ys) ≡ some xs
unfolding c_string
print_buffer-append xs ys h = print_buffer-front xs (0 ∷ ys) h refl ∙ ap some (append-nil xs)

has_nul-snoc :
    (xs : Bytes) (c : ℕ) → has_nul xs ≡ false → (c == 0) ≡ false → has_nul (xs ++ c ∷ []) ≡ false
has_nul-snoc [] c h k = rw k refl
has_nul-snoc (x ∷ xs) c h k = ground (arith, has_nul-snoc xs c)

-- What is printed from a buffer that is zero from the offset on.
print_data-zeros :
    (front : Bytes) (left : ℕ) (data_text : Bytes)
    → length front + suc left ≡ async_buff_len
    → has_nul front ≡ false
    → has_nul data_text ≡ false
    → print_data (front ++ replicate (suc (suc left)) 0) (length front) data_text
      ≡ some (front ++ data_text ++ 10 ∷ [])
unfolding print_data
print_data-zeros front left [] h k n =
    rw (print_data, print_buffer-append front (0 ∷ replicate left 0) k, append-nil front) refl
print_data-zeros front zero (c ∷ cs) h k n =
    let solid_ : (c == 0) ≡ false = ground arith in
    let full : (length front + 1 == async_buff_len) ≡ true = ground arith in
    let stored : set (front ++ 0 ∷ 0 ∷ []) (length front) c ≡ (front ++ c ∷ []) ++ 0 ∷ [] =
      set-append front (0 ∷ []) 0 c ∙ sym (append_assoc front (c ∷ []) (0 ∷ [])) in
    let flushed : print_buffer (set (front ++ 0 ∷ 0 ∷ []) (length front) c)
        ≡ some (front ++ c ∷ []) =
      ap print_buffer stored
      ∙ print_buffer-append (front ++ c ∷ []) [] (has_nul-snoc front c k solid_) in
    let next : print_data zeros 0 cs ≡ some (cs ++ 10 ∷ []) =
      print_data-zeros [] 31 cs refl refl (ground arith) in
    rw (print_data, full, flushed, next) (ap some (simp append_assoc refl))
print_data-zeros front (suc left) (c ∷ cs) h k n =
    let solid_ : (c == 0) ≡ false = ground arith in
    let room : (length front + 1 == async_buff_len) ≡ false = ground arith in
    let longer : length (front ++ c ∷ []) ≡ length front + 1 = length-append front (c ∷ []) in
    let stored : set (front ++ replicate (suc (suc (suc left))) 0) (length front) c
        ≡ (front ++ c ∷ []) ++ replicate (suc (suc left)) 0 =
      set-append front (replicate (suc (suc left)) 0) 0 c
      ∙ sym (append_assoc front (c ∷ []) (replicate (suc (suc left)) 0)) in
    let next : print_data ((front ++ c ∷ []) ++ replicate (suc (suc left)) 0)
          (length (front ++ c ∷ [])) cs
        ≡ some ((front ++ c ∷ []) ++ cs ++ 10 ∷ []) =
      print_data-zeros (front ++ c ∷ []) left cs (omega (arith, longer, h))
        (has_nul-snoc front c k solid_) (ground arith) in
    let step : print_data (front ++ replicate (suc (suc (suc left))) 0) (length front) (c ∷ cs)
        ≡ print_data (set (front ++ replicate (suc (suc (suc left))) 0) (length front) c)
            (length front + 1) cs =
      rw (print_data, room) refl in
    step
    ∙ ap (λ t. print_data t (length front + 1) cs) stored
    ∙ ap (λ t. print_data ((front ++ c ∷ []) ++ replicate (suc (suc left)) 0) t cs) (sym longer)
    ∙ next
    ∙ ap some (simp append_assoc refl)

-- Bytes that fit the buffer are put in front of what it holds.
print_data-short :
    (front rest data_text : Bytes)
    → length front + length data_text < async_buff_len
    → length data_text < length rest
    → has_nul front ≡ false
    → has_nul data_text ≡ false
    → has_nul (drop (length data_text) rest) ≡ true
    → print_data (front ++ rest) (length front) data_text
      ≡ some (front ++ data_text ++ c_string (drop (length data_text) rest) ++ 10 ∷ [])
unfolding print_data print_buffer
print_data-short front rest [] h more k n nul =
    rw (print_data, print_buffer-front front rest k nul, append-nil front) refl
print_data-short front [] (c ∷ cs) h more k n nul = absurd (omega arith)
print_data-short front (r ∷ rest) (c ∷ cs) h more k n nul =
    let solid_ : (c == 0) ≡ false = ground arith in
    let room : (length front + 1 == async_buff_len) ≡ false = ground arith in
    let longer : length (front ++ c ∷ []) ≡ length front + 1 = length-append front (c ∷ []) in
    let stored : set (front ++ r ∷ rest) (length front) c ≡ (front ++ c ∷ []) ++ rest =
      set-append front rest r c ∙ sym (append_assoc front (c ∷ []) rest) in
    let next : print_data ((front ++ c ∷ []) ++ rest) (length (front ++ c ∷ [])) cs
        ≡ some ((front ++ c ∷ []) ++ cs ++ c_string (drop (length cs) rest) ++ 10 ∷ []) =
      print_data-short (front ++ c ∷ []) rest cs (omega (arith, longer, h)) (omega (arith, more))
        (has_nul-snoc front c k solid_) (ground arith) nul in
    let step : print_data (front ++ r ∷ rest) (length front) (c ∷ cs)
        ≡ print_data (set (front ++ r ∷ rest) (length front) c) (length front + 1) cs =
      rw (print_data, room) refl in
    step
    ∙ ap (λ t. print_data t (length front + 1) cs) stored
    ∙ ap (λ t. print_data ((front ++ c ∷ []) ++ rest) t cs) (sym longer)
    ∙ next
    ∙ ap some (simp append_assoc refl)

-- A call whose file opens and whose data is printed.
written_lem :
    (garbage : Bytes) (opens : Bytes → Bool) (command tag path ip port data_text text : Bytes)
    (words : List Bytes) (ls : List LockStruct)
    → strtok b'|' command ≡ tag ∷ path ∷ ip ∷ port ∷ data_text ∷ words
    → has_lock_or_room path ls ≡ true
    → IsFree path ls
    → opens path ≡ true
    → print_data garbage 0 data_text ≡ some text
    → (ls' : List LockStruct) × (write_file_async garbage opens true command ls
        ≡ written path text (async_message path ip port) ls')
      × (has_lock_or_room path ls' ≡ true)
      × IsFree path ls'
unfolding write_file_async acquire_write_lock release_write_lock
written_lem garbage opens command tag path ip port data_text text words ls e room free open_
      printed =
    let (i, locks, l, asked, found, at, (w, d, r)) = request_lock_lem path ls room free in
    let after : LockStruct = record l { is_writing = false } in
    let found' : find_lock path (set locks i after) ≡ some i =
      find_lock-set path locks i l after at refl ∙ found in
    (
      set locks i after,
      rw
          (
            write_file_async, e, asked, lock_async, at, acquire_write_lock, w, d, r, open_,
            append_async, printed, release_write_lock,
          )
          refl,
      rw (has_lock_or_room, found') refl,
      IsFree-at path (set locks i after) i after found' (get_elem?-set locks i l after at)
          (refl, d, r),
    )

-- An asynchronous write to a path whose lock is free, or that has none and the table has room, where
-- the file opens, the naming server is reached, and the text has no NUL: if the local buffer
-- happens to be zero at the start, the text, of any length, and a line feed are appended, in pieces
-- of `ASYNC_BUFF_LEN`; the naming server is told the path and the client's address, and the path's
-- lock is free again.
pub write_file_async_lem :
    (opens : Bytes → Bool) (command tag path ip port data_text : Bytes) (words : List Bytes)
    (ls : List LockStruct)
    → strtok b'|' command ≡ tag ∷ path ∷ ip ∷ port ∷ data_text ∷ words
    → has_lock_or_room path ls ≡ true
    → IsFree path ls
    → opens path ≡ true
    → has_nul data_text ≡ false
    → (ls' : List LockStruct) × (write_file_async zeros opens true command ls
        ≡ written path (data_text ++ 10 ∷ []) (async_message path ip port) ls')
      × (has_lock_or_room path ls' ≡ true)
      × IsFree path ls'
write_file_async_lem opens command tag path ip port data_text words ls e room free open_ n =
    written_lem zeros opens command tag path ip port data_text (data_text ++ 10 ∷ []) words ls e
      room free open_ (print_data-zeros [] 31 data_text refl refl n)

-- In such a write of fewer than `ASYNC_BUFF_LEN` bytes, where the local buffer holds anything at the
-- start that has a NUL behind these bytes, what the buffer held up to that NUL is appended too, between
-- the text and the line feed.
pub write_file_async-garbage :
    (garbage : Bytes) (opens : Bytes → Bool) (command tag path ip port data_text : Bytes)
    (words : List Bytes) (ls : List LockStruct)
    → strtok b'|' command ≡ tag ∷ path ∷ ip ∷ port ∷ data_text ∷ words
    → has_lock_or_room path ls ≡ true
    → IsFree path ls
    → opens path ≡ true
    → has_nul data_text ≡ false
    → length garbage ≡ async_buff_len + 1
    → length data_text < async_buff_len
    → has_nul (drop (length data_text) garbage) ≡ true
    → (ls' : List LockStruct) × (write_file_async garbage opens true command ls
        ≡ written path
            (data_text ++ c_string (drop (length data_text) garbage) ++ 10 ∷ [])
            (async_message path ip port)
            ls')
      × (has_lock_or_room path ls' ≡ true)
      × IsFree path ls'
write_file_async-garbage garbage opens command tag path ip port data_text words ls e room free open_
      n whole short nul =
    written_lem garbage opens command tag path ip port data_text
      (data_text ++ c_string (drop (length data_text) garbage) ++ 10 ∷ []) words ls e room free
      open_
      (print_data-short [] garbage data_text (omega (arith, short)) (omega (arith, short, whole))
        refl n nul)
