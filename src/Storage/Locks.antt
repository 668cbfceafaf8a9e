-- ===== src/Storage/Locks.antt =====
-- The table `conc_array` with its `num_of_requests` entries. The source keeps a pointer to the path,
-- into the buffer of the request that made the entry. The path of an entry is the text that the
-- pointer points at, as it was then: the model does not follow what later requests write there.
use network_file_system.Prelude.{
  ℕ, zero, suc, ◌≡◌, refl, Bool, true, false, Option, none, some, Option-cases, Bool-cases, inl,
  inr, arith, List, [], ◌∷◌, ◌++◌, Bytes, length, get_elem?, set, str_eq, str_eq_refl, str_eq→eq,
  ltb, if◌then◌else◌,
}
use network_file_system.Lock.Defs.{LockStruct, init_lock}

abbrev pub max_req : ℕ
max_req = 1024

-- `doesLockRequestedFileAlreadExist`: none for -1.
unfoldable pub find_lock : Bytes → List LockStruct → Option ℕ
find_lock path [] = none
find_lock path (l ∷ ls) =
    let rest = find_lock path ls in
    if str_eq l.path_to_file path then some 0 else elim rest [ some i ↦ some (suc i) | none ↦ none ]

-- The lock of a path, with a new one at the end of the table if it has none; none out of bounds.
unfoldable pub request_lock : Bytes → List LockStruct → Option (ℕ × List LockStruct)
request_lock path ls = elim (find_lock path ls) [
  | some i ↦ some (i, ls)
  | none ↦ if ltb (length ls) max_req then some (length ls, ls ++ init_lock path ∷ []) else none
]

-- Nobody holds the lock.
abbrev pub Unheld : LockStruct → Type 0
Unheld l = (l.is_writing ≡ false) × (l.is_deleting ≡ false) × (l.readers ≡ 0)

pub find_lock-get :
    (path : Bytes) (ls : List LockStruct) (i : ℕ)
    → find_lock path ls ≡ some i
    → (l : LockStruct) × (get_elem? ls i ≡ some l) × (l.path_to_file ≡ path)
unfolding find_lock
find_lock-get path [] i h = cc
find_lock-get path (l ∷ ls) zero h = elim (Bool-cases (str_eq l.path_to_file path)) [
  | inl e ↦ (l, refl, str_eq→eq _ _ e)
  | inr n ↦ elim (Option-cases (find_lock path ls)) [
    | inl e ↦ ground arith
    | inr (j, e) ↦ ground arith
  ]
]
find_lock-get path (l ∷ ls) (suc i) h = elim (Bool-cases (str_eq l.path_to_file path)) [
  | inl e ↦ ground arith
  | inr n ↦ elim (Option-cases (find_lock path ls)) [
    | inl e ↦ ground arith
    | inr (j, e) ↦ find_lock-get path ls i (ground arith)
  ]
]

-- A change of the other fields of a lock does not change where a path is found.
pub find_lock-set :
    (path : Bytes) (ls : List LockStruct) (i : ℕ) (l l' : LockStruct)
    → get_elem? ls i ≡ some l
    → l'.path_to_file ≡ l.path_to_file
    → find_lock path (set ls i l') ≡ find_lock path ls
unfolding find_lock
find_lock-set path [] i l l' h e = cc
find_lock-set path (k ∷ ls) zero l l' h e = ground arith
find_lock-set path (k ∷ ls) (suc i) l l' h e = rw (find_lock-set path ls i l l' h e) refl

pub get_elem?-set :
    (ls : List LockStruct) (i : ℕ) (l l' : LockStruct)
    → get_elem? ls i ≡ some l
    → get_elem? (set ls i l') i ≡ some l'
get_elem?-set [] i l l' h = cc
get_elem?-set (k ∷ ls) zero l l' h = refl
get_elem?-set (k ∷ ls) (suc i) l l' h = get_elem?-set ls i l l' h

find_lock-append :
    (path : Bytes) (ls : List LockStruct)
    → find_lock path ls ≡ none
    → find_lock path (ls ++ init_lock path ∷ []) ≡ some (length ls)
unfolding find_lock init_lock
find_lock-append path [] h = rw (str_eq_refl path) refl
find_lock-append path (l ∷ ls) h = elim (Bool-cases (str_eq l.path_to_file path)) [
  | inl e ↦ ground arith
  | inr n ↦ elim (Option-cases (find_lock path ls)) [
    | inl e ↦ rw (n, find_lock-append path ls e) refl
    | inr (j, e) ↦ ground arith
  ]
]

get_elem?-append :
    (ls : List LockStruct) (l : LockStruct) → get_elem? (ls ++ l ∷ []) (length ls) ≡ some l
get_elem?-append [] l = refl
get_elem?-append (k ∷ ls) l = get_elem?-append ls l

-- The path's lock, if it has one, is free.
abbrev pub IsFree : Bytes → List LockStruct → Type 0
IsFree path ls =
    (i : ℕ) (l : LockStruct) → find_lock path ls ≡ some i → get_elem? ls i ≡ some l → Unheld l

-- There is a lock of the path, or room for one.
abbrev pub has_lock_or_room : Bytes → List LockStruct → Bool
has_lock_or_room path ls = elim (find_lock path ls) [
  | some i ↦ true
  | none ↦ ltb (length ls) max_req
]

pub request_lock_lem :
    (path : Bytes) (ls : List LockStruct)
    → has_lock_or_room path ls ≡ true
    → IsFree path ls
    → (i : ℕ) × (ls' : List LockStruct) × (l : LockStruct) × (request_lock path ls ≡ some (i, ls'))
      × (find_lock path ls' ≡ some i)
      × (get_elem? ls' i ≡ some l)
      × Unheld l
unfolding request_lock init_lock
request_lock_lem path ls room free = elim (Option-cases (find_lock path ls)) [
  | inl e ↦
      let space : ltb (length ls) max_req ≡ true = ground arith in
      (
        length ls,
        ls ++ init_lock path ∷ [],
        init_lock path,
        rw (request_lock, e, space),
        find_lock-append path ls e,
        get_elem?-append ls (init_lock path),
        (refl, refl, refl),
      )
  | inr (i, e) ↦
      let (l, at, _) = find_lock-get path ls i e in
      (i, ls, l, rw (request_lock, e), e, at, free i l e at)
]
