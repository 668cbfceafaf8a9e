-- ===== src/Tests/Threads.antt =====
-- The theorems on lock.c at short runs.
use network_file_system.Prelude.{
  ℕ, zero, suc, ◌≡◌, refl, ◌≢◌, ◌⊎◌, true, false, some, [], ◌∷◌, Bytes, codes, get_elem?,
}
use network_file_system.Lock.Defs.{
  LockStruct, Access, reading, writing, acquire, release, init_lock,
}
use network_file_system.Lock.System.{
  idle, testing, waiting, holding, System, request, grant, block, leave_signal, Reach, start, later,
}
use network_file_system.Lock.Invariant.{Inv, Reach-Inv}
use network_file_system.Lock.Safety.{mutual_exclusion, no_lost_wakeup}

abbrev path : Bytes
path = codes "./a"

abbrev lock : ℕ → LockStruct
lock n = record { readers = n; is_writing = false; is_deleting = false; path_to_file = path }

abbrev two_readers : System
two_readers = record { file = lock 2; threads = holding reading ∷ holding reading ∷ [] }

two_readers-Reach : Reach 2 path two_readers
unfolding acquire init_lock
two_readers-Reach =
    later
      (later (later (later start (request 0 reading refl)) (request 1 reading refl))
        (grant 0 reading (lock 1) refl refl))
      (grant 1 reading (lock 2) refl refl)

Reach-Inv_example : Inv two_readers
Reach-Inv_example = Reach-Inv two_readers-Reach

mutual_exclusion_example : (◌≡◌ {A = ℕ} 0 1) ⊎ ((reading ≡ reading) × (reading ≡ reading))
mutual_exclusion_example = mutual_exclusion two_readers-Reach 0 1 reading reading refl refl

-- The first of three writers has left, and woken the second.
abbrev one_woken : System
one_woken = record { file = lock 0; threads = idle ∷ testing writing ∷ waiting writing ∷ [] }

abbrev written : LockStruct
written = record (lock 0) { is_writing = true }

one_woken-Reach : Reach 3 path one_woken
unfolding acquire release init_lock
one_woken-Reach =
    later
      (later
        (later
          (later
            (later
              (later (later start (request 0 writing refl)) (grant 0 writing written refl refl))
              (request 1 writing refl))
            (block 1 writing refl refl))
          (request 2 writing refl))
        (block 2 writing refl refl))
      (leave_signal 0 writing (lock 0) 1 writing refl refl refl)

nobody_holds : (j : ℕ) (b : Access) → get_elem? one_woken.threads j ≢ some (holding b)
nobody_holds zero b h = cc
nobody_holds (suc zero) b h = cc
nobody_holds (suc (suc zero)) b h = cc
nobody_holds (suc (suc (suc j))) b h = cc

no_lost_wakeup_example :
    (j : ℕ) × (b : Access) × (file : LockStruct) × (get_elem? one_woken.threads j
      ≡ some (testing b))
    × (acquire b one_woken.file ≡ some file)
no_lost_wakeup_example = no_lost_wakeup one_woken-Reach 2 writing refl nobody_holds
