-- ===== src/Lock/Safety.antt =====
-- What the threads that use one lock of lock.c can rely on.
use network_file_system.Prelude.{
  ℕ, ◌+◌, ◌<◌, ◌≡◌, refl, ◌∙◌, ap, dec_lt, ◌≢◌, ◌⊎◌, inl, inr, true, some, arith, List, Bytes,
  get_elem?, ℕ_discrete,
}
use network_file_system.Lock.Defs.{LockStruct, Access, reading, writing, deleting, acquire}
use network_file_system.Lock.System.{
  Pc, idle, testing, waiting, holding, System, Reach, total, le-total, le-total_two, total_pos,
}
use network_file_system.Lock.Invariant.{reads, writes, deletes, tests, waits, held, Inv, Reach-Inv}

module _ (s : System) (i j : ℕ) where
  apart :
      (a b : Access)
      → Inv s
      → get_elem? s.threads i ≡ some (holding a)
      → get_elem? s.threads j ≡ some (holding b)
      → i ≢ j
      → (a ≡ reading) × (b ≡ reading)
  apart reading reading w hi hj d = (refl, refl)
  apart reading writing w hi hj d = absurd (
      omega (
        arith,
        le-total reads s.threads i (holding reading) hi,
        le-total writes s.threads j (holding writing) hj,
      ))
  apart reading deleting w hi hj d = absurd (
      omega (
        arith,
        le-total reads s.threads i (holding reading) hi,
        le-total deletes s.threads j (holding deleting) hj,
      ))
  apart writing reading w hi hj d = absurd (
      omega (
        arith,
        le-total writes s.threads i (holding writing) hi,
        le-total reads s.threads j (holding reading) hj,
      ))
  apart writing writing w hi hj d =
      absurd (
        omega
          (arith, le-total_two writes s.threads i j (holding writing) (holding writing) hi hj d))
  apart writing deleting w hi hj d = absurd (
      omega (
        arith,
        le-total writes s.threads i (holding writing) hi,
        le-total deletes s.threads j (holding deleting) hj,
      ))
  apart deleting reading w hi hj d = absurd (
      omega (
        arith,
        le-total deletes s.threads i (holding deleting) hi,
        le-total reads s.threads j (holding reading) hj,
      ))
  apart deleting writing w hi hj d = absurd (
      omega (
        arith,
        le-total deletes s.threads i (holding deleting) hi,
        le-total writes s.threads j (holding writing) hj,
      ))
  apart deleting deleting w hi hj d = absurd (
      omega
        (arith, le-total_two deletes s.threads i j (holding deleting) (holding deleting) hi hj d))

-- In a reachable state, of two threads that hold the lock, either both are reading or they are
-- the same thread.
pub mutual_exclusion :
    {n : ℕ} {path : Bytes} {s : System}
    → Reach n path s
    → (i j : ℕ) (a b : Access) → get_elem? s.threads i ≡ some (holding a)
    → get_elem? s.threads j ≡ some (holding b)
    → (i ≡ j) ⊎ ((a ≡ reading) × (b ≡ reading))
mutual_exclusion {s} r i j a b hi hj = elim (ℕ_discrete i j) [
  | yes same ↦ inl same
  | no other ↦ inr (apart s i j a b (Reach-Inv r) hi hj other)
]

free_acquire :
    (a : Access) (file : LockStruct)
    → held file ≡ 0
    → (file' : LockStruct) × (acquire a file ≡ some file')
unfolding acquire
free_acquire reading file h = (record file { readers = file.readers + 1 }, ground arith)
free_acquire writing file h = (record file { is_writing = true }, ground arith)
free_acquire deleting file h = (record file { is_deleting = true }, ground arith)

nobody_holds :
    (w : Pc → ℕ) (ts : List Pc)
    → ((p : Pc) → 0 < w p → (a : Access) × (p ≡ holding a))
    → ((j : ℕ) (b : Access) → get_elem? ts j ≢ some (holding b))
    → total w ts ≡ 0
nobody_holds w ts holder free = elim (dec_lt 0 (total w ts)) [
  | yes pos ↦
      let (j, p, at, weight) = total_pos w ts pos in
      let (a, e) = holder p weight in absurd (free j a (at ∙ ap some e))
  | no z ↦ omega arith
]

reads_holder : (p : Pc) → 0 < reads p → (a : Access) × (p ≡ holding a)
reads_holder (holding a) h = (a, refl)
reads_holder idle h = absurd (omega arith)
reads_holder (testing b) h = absurd (omega arith)
reads_holder (waiting b) h = absurd (omega arith)

writes_holder : (p : Pc) → 0 < writes p → (a : Access) × (p ≡ holding a)
writes_holder (holding a) h = (a, refl)
writes_holder idle h = absurd (omega arith)
writes_holder (testing b) h = absurd (omega arith)
writes_holder (waiting b) h = absurd (omega arith)

deletes_holder : (p : Pc) → 0 < deletes p → (a : Access) × (p ≡ holding a)
deletes_holder (holding a) h = (a, refl)
deletes_holder idle h = absurd (omega arith)
deletes_holder (testing b) h = absurd (omega arith)
deletes_holder (waiting b) h = absurd (omega arith)

tests_tester : (p : Pc) → 0 < tests p → (a : Access) × (p ≡ testing a)
tests_tester (testing a) h = (a, refl)
tests_tester idle h = absurd (omega arith)
tests_tester (holding b) h = absurd (omega arith)
tests_tester (waiting b) h = absurd (omega arith)

-- In a reachable state in which a thread waits and no thread holds the lock, some thread is at
-- the test of its loop and is granted the lock when it takes its turn: no wake-up is lost.
pub no_lost_wakeup :
    {n : ℕ} {path : Bytes} {s : System}
    → Reach n path s
    → (i : ℕ) (a : Access) → get_elem? s.threads i ≡ some (waiting a)
    → ((j : ℕ) (b : Access) → get_elem? s.threads j ≢ some (holding b))
    → (j : ℕ) × (b : Access) × (file : LockStruct) × (get_elem? s.threads j ≡ some (testing b))
      × (acquire b s.file ≡ some file)
no_lost_wakeup {s} r i a at free =
    let v = Reach-Inv r in
    let unheld : held s.file ≡ 0 = omega (
      arith,
      v.readers,
      v.writer,
      v.deleter,
      nobody_holds reads s.threads reads_holder free,
      nobody_holds writes s.threads writes_holder free,
      nobody_holds deletes s.threads deletes_holder free,
    ) in
    let tested : 0 < total tests s.threads =
      omega (arith, v.heard, unheld, le-total waits s.threads i (waiting a) at) in
    let (j, p, there, weight) = total_pos tests s.threads tested in
    let (b, e) = tests_tester p weight in
    let (file, granted) = free_acquire b s.file unheld in (j, b, file, there ∙ ap some e, granted)
