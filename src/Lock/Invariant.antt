-- ===== src/Lock/Invariant.antt =====
-- The lock's fields count the threads that hold it, and a thread that waits is never forgotten.
use network_file_system.Prelude.{
  ℕ, ◌+◌, ◌≤◌, ◌<◌, ◌≡◌, refl, ◌⊎◌, inl, inr, Bool, true, false, none, some, ◌≢◌, dec_lt, arith,
  List, map, Bytes, get_elem?, set,
}
use network_file_system.Lock.Defs.{
  LockStruct, Access, reading, writing, deleting, nobody, signal, broadcast, init_lock, acquire,
  release,
}
use network_file_system.Lock.System.{
  Pc, idle, testing, waiting, holding, System, awake, Step, request, grant, block, spurious, leave,
  leave_signal, leave_signal_unheard, leave_broadcast, start_of, Reach, start, later, total,
  total-set, total-replicate, total-awake, total-awake_zero, total_pos,
}

abbrev pub as_number : Bool → ℕ
as_number true = 1
as_number false = 0

abbrev pub reads : Pc → ℕ
reads (holding reading) = 1
reads p = 0

abbrev pub writes : Pc → ℕ
writes (holding writing) = 1
writes p = 0

abbrev pub deletes : Pc → ℕ
deletes (holding deleting) = 1
deletes p = 0

abbrev pub tests : Pc → ℕ
tests (testing a) = 1
tests p = 0

abbrev pub waits : Pc → ℕ
waits (waiting a) = 1
waits p = 0

-- The lock is held by some thread.
abbrev pub held : LockStruct → ℕ
held file = as_number file.is_writing + as_number file.is_deleting + file.readers

pub record Inv (s : System) : Type 0 where
  pub readers : s.file.readers ≡ total reads s.threads
  pub writer : as_number s.file.is_writing ≡ total writes s.threads
  pub deleter : as_number s.file.is_deleting ≡ total deletes s.threads
  pub one : as_number s.file.is_writing + as_number s.file.is_deleting ≤ 1
  pub alone :
      (s.file.readers ≡ 0) ⊎ (as_number s.file.is_writing + as_number s.file.is_deleting ≡ 0)
  pub heard : (total waits s.threads ≡ 0) ⊎ (0 < held s.file + total tests s.threads)

start-Inv : (n : ℕ) (path : Bytes) → Inv (start_of n path)
unfolding init_lock
start-Inv n path = record {
  readers = omega (arith, total-replicate reads n idle refl);
  writer = omega (arith, total-replicate writes n idle refl);
  deleter = omega (arith, total-replicate deletes n idle refl);
  one = omega arith;
  alone = inl refl;
  heard = inl (total-replicate waits n idle refl);
}

-- What a thread's move from `p` to `q` does to the five sums.
record Moved (ts : List Pc) (p q : Pc) (ts' : List Pc) : Type 0 where
  reads_eq : total reads ts' + reads p ≡ total reads ts + reads q
  writes_eq : total writes ts' + writes p ≡ total writes ts + writes q
  deletes_eq : total deletes ts' + deletes p ≡ total deletes ts + deletes q
  tests_eq : total tests ts' + tests p ≡ total tests ts + tests q
  waits_eq : total waits ts' + waits p ≡ total waits ts + waits q

set-Moved : (ts : List Pc) (i : ℕ) (p q : Pc) → get_elem? ts i ≡ some p → Moved ts p q (set ts i q)
set-Moved ts i p q h = record {
  reads_eq = total-set reads ts i p q h;
  writes_eq = total-set writes ts i p q h;
  deletes_eq = total-set deletes ts i p q h;
  tests_eq = total-set tests ts i p q h;
  waits_eq = total-set waits ts i p q h;
}

grant-Inv :
    (s : System) (file : LockStruct) (ts : List Pc) (a : Access)
    → Inv s
    → acquire a s.file ≡ some file
    → Moved s.threads (testing a) (holding a) ts
    → Inv (record { file = file; threads = ts })
unfolding acquire
grant-Inv s file ts reading v h m = ground arith
grant-Inv s file ts writing v h m = ground arith
grant-Inv s file ts deleting v h m = ground arith

-- A thread goes to the test, or from the test to wait.
test-Inv :
    (s : System) (ts : List Pc) (a : Access) (p : Pc)
    → ((p ≡ idle) ⊎ (p ≡ waiting a))
    → Inv s
    → Moved s.threads p (testing a) ts
    → Inv (record s { threads = ts })
test-Inv s ts a idle e v m = ground arith
test-Inv s ts a (waiting b) e v m = ground arith
test-Inv s ts a (testing b) e v m = ground arith
test-Inv s ts a (holding b) e v m = ground arith

block-Inv :
    (s : System) (ts : List Pc) (a : Access)
    → Inv s
    → acquire a s.file ≡ none
    → Moved s.threads (testing a) (waiting a) ts
    → Inv (record s { threads = ts })
unfolding acquire
block-Inv s ts reading v h m = ground arith
block-Inv s ts writing v h m = ground arith
block-Inv s ts deleting v h m = ground arith

leave-Inv :
    (s : System) (file : LockStruct) (ts : List Pc) (a : Access)
    → Inv s
    → release a s.file ≡ (file, nobody)
    → Moved s.threads (holding a) idle ts
    → Inv (record { file = file; threads = ts })
unfolding release
leave-Inv s file ts reading v h m = ground arith
leave-Inv s file ts writing v h m = ground arith
leave-Inv s file ts deleting v h m = ground arith

signal-Inv :
    (s : System) (file : LockStruct) (ts us : List Pc) (a b : Access)
    → Inv s
    → release a s.file ≡ (file, signal)
    → Moved s.threads (holding a) idle ts
    → Moved ts (waiting b) (testing b) us
    → Inv (record { file = file; threads = us })
unfolding release
signal-Inv s file ts us reading b v h m k = ground arith
signal-Inv s file ts us writing b v h m k = ground arith
signal-Inv s file ts us deleting b v h m k = ground arith

unheard-Inv :
    (s : System) (file : LockStruct) (ts : List Pc) (a : Access)
    → Inv s
    → release a s.file ≡ (file, signal)
    → Moved s.threads (holding a) idle ts
    → total waits s.threads ≡ 0
    → Inv (record { file = file; threads = ts })
unfolding release
unheard-Inv s file ts reading v h m k = ground arith
unheard-Inv s file ts writing v h m k = ground arith
unheard-Inv s file ts deleting v h m k = ground arith

broadcast-Inv :
    (s : System) (file : LockStruct) (ts : List Pc) (a : Access)
    → Inv s
    → release a s.file ≡ (file, broadcast)
    → Moved s.threads (holding a) idle ts
    → Inv (record { file = file; threads = map awake ts })
unfolding release
broadcast-Inv s file ts a v h m = all_awake a h m
  where
    same_reads : total reads (map awake ts) ≡ total reads ts
    same_reads = total-awake reads ts (λ p. ground arith)

    same_writes : total writes (map awake ts) ≡ total writes ts
    same_writes = total-awake writes ts (λ p. ground arith)

    same_deletes : total deletes (map awake ts) ≡ total deletes ts
    same_deletes = total-awake deletes ts (λ p. ground arith)

    none_wait : total waits (map awake ts) ≡ 0
    none_wait = total-awake_zero waits ts (λ p. ground arith)

    all_awake :
        (a : Access)
        → release a s.file ≡ (file, broadcast)
        → Moved s.threads (holding a) idle ts
        → Inv (record { file = file; threads = map awake ts })
    all_awake reading h m = ground (arith, same_reads, same_writes, same_deletes, none_wait)
    all_awake writing h m = ground (arith, same_reads, same_writes, same_deletes, none_wait)
    all_awake deleting h m = ground (arith, same_reads, same_writes, same_deletes, none_wait)

nobody_waits :
    (ts : List Pc) → ((j : ℕ) (b : Access) → get_elem? ts j ≢ some (waiting b)) → total waits ts ≡ 0
nobody_waits ts h = elim (dec_lt 0 (total waits ts)) [
  | yes pos ↦ let (j, p, at, weight) = total_pos waits ts pos in absurd (impossible j p at weight)
  | no z ↦ omega arith
]
  where
    impossible : (j : ℕ) (p : Pc) → get_elem? ts j ≡ some p → 0 < waits p → ⊥
    impossible j (waiting b) at pos = h j b at
    impossible j idle at pos = omega arith
    impossible j (testing b) at pos = omega arith
    impossible j (holding b) at pos = omega arith

pub Step-Inv : {s t : System} → Step s t → Inv s → Inv t
Step-Inv {s} (request i a at) v =
    test-Inv s (set s.threads i (testing a)) a idle (inl refl) v
      (set-Moved s.threads i idle (testing a) at)
Step-Inv {s} (spurious i a at) v =
    test-Inv s (set s.threads i (testing a)) a (waiting a) (inr refl) v
      (set-Moved s.threads i (waiting a) (testing a) at)
Step-Inv {s} (grant i a file at h) v =
    grant-Inv s file (set s.threads i (holding a)) a v h
      (set-Moved s.threads i (testing a) (holding a) at)
Step-Inv {s} (block i a at h) v =
    block-Inv s (set s.threads i (waiting a)) a v h
      (set-Moved s.threads i (testing a) (waiting a) at)
Step-Inv {s} (leave i a file at h) v =
    leave-Inv s file (set s.threads i idle) a v h (set-Moved s.threads i (holding a) idle at)
Step-Inv {s} (leave_signal i a file j b at h at') v =
    signal-Inv s file (set s.threads i idle) (set (set s.threads i idle) j (testing b)) a b v h
      (set-Moved s.threads i (holding a) idle at)
      (set-Moved (set s.threads i idle) j (waiting b) (testing b) at')
Step-Inv {s} (leave_signal_unheard i a file at h deaf) v =
    unheard-Inv s file (set s.threads i idle) a v h (set-Moved s.threads i (holding a) idle at)
      (nobody_waits s.threads deaf)
Step-Inv {s} (leave_broadcast i a file at h) v =
    broadcast-Inv s file (set s.threads i idle) a v h (set-Moved s.threads i (holding a) idle at)

-- In every reachable state the fields of the lock count the threads that hold it, and while a
-- thread waits, the lock is held or some thread is at the test.
pub Reach-Inv : {n : ℕ} {path : Bytes} {s : System} → Reach n path s → Inv s
Reach-Inv {n} {path} start = start-Inv n path
Reach-Inv (later r st) = Step-Inv st (Reach-Inv r)
