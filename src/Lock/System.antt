-- ===== src/Lock/System.antt =====
-- Any number of threads that use one lock of lock.c. The mutex makes what an `acquire` does from
-- its test on, and what a `release` does, one step. `pthread_cond_signal` wakes one thread that
-- waits, if there is one, and a wait may also end by itself, as POSIX allows.
use network_file_system.Prelude.{
  ℕ, zero, suc, ◌+◌, ◌≤◌, ◌<◌, ◌≡◌, refl, ap, ◌≢◌, none, some, arith, List, [], ◌∷◌, map, Bytes,
  get_elem?, set, replicate, dec_lt,
}
use network_file_system.Lock.Defs.{
  LockStruct, Access, nobody, signal, broadcast, init_lock, acquire, release,
}

-- Where a thread stands: outside, at the test of the loop in an `acquire`, waiting on the
-- condition variable there, or between `acquire` and `release`.
pub data Pc : Type 0 where
  idle : Pc
  testing : Access → Pc
  waiting : Access → Pc
  holding : Access → Pc

pub record System : Type 0 where
  pub file : LockStruct
  pub threads : List Pc

abbrev pub awake : Pc → Pc
awake (waiting a) = testing a
awake p = p

pub data Step (s : System) : System → Type 0 where
  request :
      (i : ℕ) (a : Access)
      → get_elem? s.threads i ≡ some idle
      → Step s (record s { threads = set s.threads i (testing a) })
  grant :
      (i : ℕ) (a : Access) (file : LockStruct)
      → get_elem? s.threads i ≡ some (testing a)
      → acquire a s.file ≡ some file
      → Step s (record { file = file; threads = set s.threads i (holding a) })
  block :
      (i : ℕ) (a : Access)
      → get_elem? s.threads i ≡ some (testing a)
      → acquire a s.file ≡ none
      → Step s (record s { threads = set s.threads i (waiting a) })
  spurious :
      (i : ℕ) (a : Access)
      → get_elem? s.threads i ≡ some (waiting a)
      → Step s (record s { threads = set s.threads i (testing a) })
  leave :
      (i : ℕ) (a : Access) (file : LockStruct)
      → get_elem? s.threads i ≡ some (holding a)
      → release a s.file ≡ (file, nobody)
      → Step s (record { file = file; threads = set s.threads i idle })
  leave_signal :
      (i : ℕ) (a : Access) (file : LockStruct) (j : ℕ) (b : Access)
      → get_elem? s.threads i ≡ some (holding a)
      → release a s.file ≡ (file, signal)
      → get_elem? (set s.threads i idle) j ≡ some (waiting b)
      → Step s (record { file = file; threads = set (set s.threads i idle) j (testing b) })
  leave_signal_unheard :
      (i : ℕ) (a : Access) (file : LockStruct)
      → get_elem? s.threads i ≡ some (holding a)
      → release a s.file ≡ (file, signal)
      → ((j : ℕ) (b : Access) → get_elem? s.threads j ≢ some (waiting b))
      → Step s (record { file = file; threads = set s.threads i idle })
  leave_broadcast :
      (i : ℕ) (a : Access) (file : LockStruct)
      → get_elem? s.threads i ≡ some (holding a)
      → release a s.file ≡ (file, broadcast)
      → Step s (record { file = file; threads = map awake (set s.threads i idle) })

-- `n` threads, and the lock that `init_lock` leaves.
abbrev pub start_of : ℕ → Bytes → System
start_of n path = record { file = init_lock path; threads = replicate n idle }

pub data Reach (n : ℕ) (path : Bytes) : System → Type 0 where
  start : Reach n path (start_of n path)
  later : {s t : System} → Reach n path s → Step s t → Reach n path t

-- The sum of a weight over the threads.
module _ (w : Pc → ℕ) where
  unfoldable pub total : List Pc → ℕ
  total [] = 0
  total (p ∷ ps) = w p + total ps

  pub total-set :
      (ps : List Pc) (i : ℕ) (p q : Pc)
      → get_elem? ps i ≡ some p
      → total (set ps i q) + w p ≡ total ps + w q
  unfolding total
  total-set [] i p q h = cc
  total-set (r ∷ ps) zero p q h = ground arith
  total-set (r ∷ ps) (suc i) p q h = omega (arith, total-set ps i p q h)

  pub le-total : (ps : List Pc) (i : ℕ) (p : Pc) → get_elem? ps i ≡ some p → w p ≤ total ps
  unfolding total
  le-total [] i p h = cc
  le-total (r ∷ ps) zero p h = ground arith
  le-total (r ∷ ps) (suc i) p h = omega (arith, le-total ps i p h)

  -- Two different threads add up.
  pub le-total_two :
      (ps : List Pc) (i j : ℕ) (p q : Pc)
      → get_elem? ps i ≡ some p
      → get_elem? ps j ≡ some q
      → i ≢ j
      → w p + w q ≤ total ps
  unfolding total
  le-total_two [] i j p q h k d = cc
  le-total_two (r ∷ ps) zero zero p q h k d = absurd (d refl)
  le-total_two (r ∷ ps) zero (suc j) p q h k d = ground (arith, le-total ps j q k)
  le-total_two (r ∷ ps) (suc i) zero p q h k d = ground (arith, le-total ps i p h)
  le-total_two (r ∷ ps) (suc i) (suc j) p q h k d =
      omega (arith, le-total_two ps i j p q h k (λ e. d (ap suc e)))

  -- A positive sum has a thread of positive weight.
  pub total_pos :
      (ps : List Pc) → 0 < total ps → (i : ℕ) × (p : Pc) × (get_elem? ps i ≡ some p) × (0 < w p)
  unfolding total
  total_pos [] h = absurd (omega arith)
  total_pos (r ∷ ps) h = elim (dec_lt 0 (w r)) [
    | yes pos ↦ (0, r, refl, pos)
    | no zero_here ↦ let (i, p, at, pos) = total_pos ps (omega arith) in (suc i, p, at, pos)
  ]

  pub total-replicate : (n : ℕ) (p : Pc) → w p ≡ 0 → total (replicate n p) ≡ 0
  unfolding total
  total-replicate zero p h = refl
  total-replicate (suc n) p h = omega (arith, total-replicate n p h)

  pub total-awake :
      (ps : List Pc) → ((p : Pc) → w (awake p) ≡ w p) → total (map awake ps) ≡ total ps
  unfolding total
  total-awake [] h = refl
  total-awake (p ∷ ps) h = ground (arith, h p, total-awake ps h)

  pub total-awake_zero : (ps : List Pc) → ((p : Pc) → w (awake p) ≡ 0) → total (map awake ps) ≡ 0
  unfolding total
  total-awake_zero [] h = refl
  total-awake_zero (p ∷ ps) h = ground (arith, h p, total-awake_zero ps h)
