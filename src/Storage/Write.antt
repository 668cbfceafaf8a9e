-- ===== src/Storage/Write.antt =====
-- `write_file`: an append to a file under its write lock.
use network_file_system.Prelude.{
  ℕ, ◌≡◌, refl, sym, ap, ◌∙◌, Bool, true, false, Option, none, some, List, [], ◌∷◌, ◌++◌, Bytes,
  codes, strtok, snprintf, get_elem?, set, if◌then◌else◌,
}
use network_file_system.Lock.Defs.{
  LockStruct, Access, reading, writing, deleting, acquire, acquire_read_lock, acquire_write_lock,
  acquire_delete_lock, release_write_lock,
}
use network_file_system.Naming.World.{buffer_size}
use network_file_system.Storage.Locks.{
  find_lock, request_lock, Unheld, IsFree, has_lock_or_room, find_lock-set, get_elem?-set,
  request_lock_lem,
}

-- How a call ends: with undefined behaviour, waiting for the lock, with a file that does not
-- open, or with the line that it appends to the file. `reply` is what `buffer2` holds.
pub data WriteEnd : Type 0 where
  undefined : WriteEnd
  waits : List LockStruct → WriteEnd
  not_opened : (reply : Bytes) → List LockStruct → WriteEnd
  written : (path line reply : Bytes) → List LockStruct → WriteEnd

-- Behind the lock. The path and the text are NULL if the command has no such part, and the text
-- is first read when the file is open.
unfoldable pub append_line :
    (opens : Bytes → Bool) (path : Bytes) → Option Bytes → ℕ → List LockStruct → WriteEnd
unfolding acquire_write_lock release_write_lock
append_line opens path text i ls = elim (get_elem? ls i) [
  | none ↦ undefined
  | some l ↦ elim (acquire_write_lock l) [
    | none ↦ waits ls
    | some l' ↦
        if opens path
        then elim text [
          | none ↦ undefined
          | some data_text ↦
              written path (data_text ++ 10 ∷ [])
                (snprintf buffer_size (codes "Data written successfully" ++ 10 ∷ []))
                (set ls i (release_write_lock l').0)
        ]
        else not_opened
            (snprintf buffer_size (codes "Could not open file @ " ++ path ++ codes " " ++ 10 ∷ []))
            (set ls i l')
  ]
]

-- `opens` says whether `fopen` of the path succeeds.
unfoldable pub write_file : (opens : Bytes → Bool) → Bytes → List LockStruct → WriteEnd
unfolding append_line
write_file opens command ls =
    let words = strtok b'|' command in
    elim (get_elem? words 1) [
      | none ↦ undefined
      | some path ↦ elim (request_lock path ls) [
        | none ↦ undefined
        | some (i, ls') ↦ append_line opens path (get_elem? words 2) i ls'
      ]
    ]

pub IsFree-at :
    (path : Bytes) (ls : List LockStruct) (i : ℕ) (l : LockStruct)
    → find_lock path ls ≡ some i
    → get_elem? ls i ≡ some l
    → Unheld l
    → IsFree path ls
IsFree-at path ls i l found at (w, d, r) j k found' at' =
    let same : l ≡ k = cc in
    (
      ap (λ (x : LockStruct). x.is_writing) (sym same) ∙ w,
      ap (λ (x : LockStruct). x.is_deleting) (sym same) ∙ d,
      ap (λ (x : LockStruct). x.readers) (sym same) ∙ r,
    )

-- A write to a path whose lock is free, or that has none and the table has room, appends the text
-- and a line feed when the file opens. The path's lock is free again afterwards.
pub write_file_lem :
    (opens : Bytes → Bool) (command tag path text : Bytes) (words : List Bytes)
    (ls : List LockStruct)
    → strtok b'|' command ≡ tag ∷ path ∷ text ∷ words
    → has_lock_or_room path ls ≡ true
    → IsFree path ls
    → opens path ≡ true
    → (ls' : List LockStruct) × (write_file opens command ls
        ≡ written path (text ++ 10 ∷ []) (codes "Data written successfully" ++ 10 ∷ []) ls')
      × (has_lock_or_room path ls' ≡ true)
      × IsFree path ls'
unfolding write_file acquire_write_lock release_write_lock
write_file_lem opens command tag path text words ls e room free open_ =
    let (i, locks, l, asked, found, at, (w, d, r)) = request_lock_lem path ls room free in
    let after : LockStruct = record l { is_writing = false } in
    let found' : find_lock path (set locks i after) ≡ some i =
      find_lock-set path locks i l after at refl ∙ found in
    (
      set locks i after,
      rw (
        write_file, e, asked, append_line, at, acquire_write_lock, w, d, r, open_, e,
        release_write_lock,
      ),
      rw (has_lock_or_room, found') refl,
      IsFree-at path (set locks i after) i after found' (get_elem?-set locks i l after at)
          (refl, d, r),
    )

-- When the file does not open, where the path's lock is free, or the path has none and the table has
-- room, the reply says so, and the lock that was taken is not released: its entry of the table
-- is left as the lock of a write that goes on, and to acquire that lock, to read, to write or to
-- delete, is to wait.
pub write_file-not_opened :
    (opens : Bytes → Bool) (command tag path : Bytes) (words : List Bytes) (ls : List LockStruct)
    → strtok b'|' command ≡ tag ∷ path ∷ words
    → has_lock_or_room path ls ≡ true
    → IsFree path ls
    → opens path ≡ false
    → (i : ℕ) × (l : LockStruct) × (locks ls' : List LockStruct) × (request_lock path ls
        ≡ some (i, locks))
      × (write_file opens command ls
          ≡ not_opened
              (snprintf buffer_size
                (codes "Could not open file @ " ++ path ++ codes " " ++ 10 ∷ []))
              ls')
      × (ls' ≡ set locks i l)
      × (get_elem? ls' i ≡ some l)
      × ((access : Access) → acquire access l ≡ none)
unfolding write_file acquire_write_lock acquire acquire_read_lock acquire_delete_lock
write_file-not_opened opens command tag path words ls e room free shut =
    let (i, locks, l, asked, found, at, (w, d, r)) = request_lock_lem path ls room free in
    let held : LockStruct = record l { is_writing = true } in
    (
      i,
      held,
      locks,
      set locks i held,
      asked,
      rw (write_file, e, asked, append_line, at, acquire_write_lock, w, d, r, shut),
      refl,
      get_elem?-set locks i l held at,
      λ access. waits_for access l,
    )
  where
    waits_for :
        (access : Access) (l : LockStruct) → acquire access (record l { is_writing = true }) ≡ none
    waits_for reading l = refl
    waits_for writing l = refl
    waits_for deleting l = refl
