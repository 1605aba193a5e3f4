-- ===== src/Mutex/Tests.antt =====
-- Two threads that add to a number under the lock: thread 0 works, thread 1 is refused and then gets in.
use simple_os_rs.Common.{update, ℕ, ◌+◌, ◌*◌, ◌≡◌, refl, true, false, arith}
use simple_os_rs.Mutex.{
  try_lock, unlock, outside, spinning, entered, writing, leaving, System, Step, call_lock, spin,
  read, write, drop_guard, Reach, started, stepped, holds,
}
use simple_os_rs.Mutex.Laws.{mutual_exclusion, writers, in_turn, shared-in_turn, spin-enters}

abbrev op : ℕ → ℕ → ℕ
op i n = n * 10 + i

-- Thread 0 has written and still holds the guard; thread 1 was refused and spins.
abbrev contended : System ℕ
contended = record {
  lock = record { locked = true };
  shared = 50;
  threads =
      update
        (update
          (update
            (update (update (update (update (λ i. outside) 0 spinning) 1 spinning) 0 entered) 1
              spinning)
            0 (writing 5))
          1 spinning)
        0 leaving;
}

contended-Reach : Reach op 5 contended
unfolding try_lock
contended-Reach =
    stepped
      (stepped
        (stepped
          (stepped
            (stepped (stepped (stepped started (call_lock 0 refl refl)) (call_lock 1 refl refl))
              (spin 0 refl refl))
            (spin 1 refl refl))
          (read 0 refl refl))
        (spin 1 refl refl))
      (write 0 5 refl refl)

-- The guard is dropped, and thread 1 still spins.
abbrev quiet : System ℕ
quiet = record contended {
  lock = record { locked = false };
  threads = update contended.threads 0 outside;
}

quiet-Reach : Reach op 5 quiet
unfolding unlock
quiet-Reach = stepped contended-Reach (drop_guard 0 refl refl)

mutual_exclusion_example : ◌≡◌ {A = ℕ} 0 0
mutual_exclusion_example = mutual_exclusion op 5 contended-Reach 0 0 refl refl

shared-in_turn_example : 50 ≡ in_turn op 5 (writers op 5 contended-Reach)
shared-in_turn_example = shared-in_turn op 5 contended-Reach

spin-enters_example :
    (u : System ℕ) × Step op quiet u × (u.threads 1 ≡ entered) × (u.lock.locked ≡ true)
spin-enters_example = spin-enters op 5 quiet-Reach none_inside 1 refl
  where
    none_inside : (j : ℕ) → holds (quiet.threads j) ≡ false
    none_inside j = ground arith
