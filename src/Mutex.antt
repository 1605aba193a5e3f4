-- ===== src/Mutex.antt =====
-- The spin lock of the kernel, kernel/src/mutex.rs, and threads that work on a shared state under it.
pub mod Laws
pub mod Tests
use simple_os_rs.Common.{update, ℕ, ◌≡◌, Bool, true, false, Option, none, some}

-- The state of the `AtomicBool`.
pub record SpinLock : Type 0 where
  pub locked : Bool

abbrev pub new_lock : SpinLock
new_lock = record { locked = false }

-- A guard gives access to its lock, of which there is one here.
pub data LockGuard : Type 0 where
  lock_guard : LockGuard

-- One atomic swap.
unfoldable pub try_lock : SpinLock → SpinLock × Option LockGuard
try_lock l = (record { locked = true }, elim l.locked [ true ↦ none | false ↦ some lock_guard ])

-- One atomic store, when the guard is dropped.
unfoldable pub unlock : SpinLock → SpinLock
unlock l = record { locked = false }

-- Where a thread stands: in `lock`'s loop, or between its return and the drop of the guard, where it
-- reads the shared state, writes what it makes of it, and leaves.
pub data Thread {ℓ} (S : Type ℓ) : Type ℓ where
  outside : Thread S
  spinning : Thread S
  entered : Thread S
  writing : S → Thread S
  leaving : Thread S

pub record System {ℓ} (S : Type ℓ) : Type ℓ where
  pub lock : SpinLock
  pub shared : S
  pub threads : ℕ → Thread S

-- Where a thread goes with the result of `try_lock`.
abbrev pub after_try {ℓ} : {S : Type ℓ} → Thread S → Option LockGuard → Thread S
after_try refused (some guard) = entered
after_try refused none = refused

-- A step of thread `i`; the operation `f` is what it does to the shared state.
pub data Step {ℓ} {S : Type ℓ} (f : ℕ → S → S) (s u : System S) : Type ℓ where
  call_lock :
      (i : ℕ)
      → s.threads i ≡ outside
      → u ≡ record s { threads = update s.threads i spinning }
      → Step f s u
  spin :
      (i : ℕ)
      → s.threads i ≡ spinning
      → u ≡ record s {
        lock = (try_lock s.lock).0;
        threads = update s.threads i (after_try spinning (try_lock s.lock).1);
      }
      → Step f s u
  try_once :
      (i : ℕ)
      → s.threads i ≡ outside
      → u ≡ record s {
        lock = (try_lock s.lock).0;
        threads = update s.threads i (after_try outside (try_lock s.lock).1);
      }
      → Step f s u
  read :
      (i : ℕ)
      → s.threads i ≡ entered
      → u ≡ record s { threads = update s.threads i (writing s.shared) }
      → Step f s u
  write :
      (i : ℕ) (a : S)
      → s.threads i ≡ writing a
      → u ≡ record s { shared = f i a; threads = update s.threads i leaving }
      → Step f s u
  drop_guard :
      (i : ℕ)
      → s.threads i ≡ leaving
      → u ≡ record s { lock = unlock s.lock; threads = update s.threads i outside }
      → Step f s u

abbrev pub start {ℓ} : {S : Type ℓ} → S → System S
start a = record { lock = new_lock; shared = a; threads = λ i. outside }

pub data Reach {ℓ} {S : Type ℓ} (f : ℕ → S → S) (a : S) : System S → Type ℓ where
  started : Reach f a (start a)
  stepped : {s u : System S} → Reach f a s → Step f s u → Reach f a u

-- The thread holds the lock's guard.
abbrev pub holds {ℓ} : {S : Type ℓ} → Thread S → Bool
holds outside = false
holds spinning = false
holds _ = true
