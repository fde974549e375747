-- ===== src/Mutex.antt =====
-- kernel/src/data_structures/concurrency/mutex.c: sleeping locks. The name of a mutex is an opaque
-- value.
pub mod Exclusion
use dionys_os.Prelude.{ℕ, Bool, true, false, ◌==◌, if◌then◌else◌, Option, none, some}

pub record Mutex : Type 0 where
  pub locked : ℕ
  pub holder : ℕ
  -- `none` stands for -1.
  pub cpu : Option ℕ
  pub lock_name : ℕ
  pub reserved : ℕ

-- `arch_atomic_swap_or_return(&lock->locked, 1)`: store 1, and tell whether the old value was 0.
unfoldable pub try_mutex : Mutex → Bool × Mutex
try_mutex m = (m.locked == 0, record m { locked = 1 })

-- One round of the loop of `acquire_mutex`: without the mutex, the process sleeps and tries again.
unfoldable pub acquire_mutex_round : (process cpu_id : ℕ) → Mutex → Bool × Mutex
unfolding try_mutex
acquire_mutex_round process cpu_id m =
    let attempt = try_mutex m in
    if attempt.0
    then (true, record attempt.1 { holder = process; cpu = some cpu_id })
    else (false, attempt.1)

unfoldable pub release_mutex : Mutex → Mutex
release_mutex m = record m { locked = 0; holder = 0; cpu = none }

unfoldable pub init_mutex : (name : ℕ) → Mutex → Mutex
init_mutex name m = record m { locked = 0; holder = 0; cpu = none; lock_name = name; reserved = 0 }
