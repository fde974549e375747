-- ===== src/Examples/Locks.antt =====
-- Locks in concrete states.
use dionys_os.Prelude.{◌≡◌, true, false, arith, refl, none}
use dionys_os.Spinlock.{Spinlock}
use dionys_os.Mutex.{Mutex, init_mutex, acquire_mutex_round, try_mutex}
use dionys_os.Mutex.Exclusion.{
  System, Reachable, start, more, try_acquire, round, Reachable-exclusive,
}

abbrev free_lock : Spinlock
free_lock = record {
  locked = 0;
  id = 9;
  cpu = 0;
  recursion_depth = 0;
  holding_process = 0;
  interrupts = true;
}

abbrev held_lock : Spinlock
held_lock = record {
  locked = 1;
  id = 9;
  cpu = 2;
  recursion_depth = 0;
  holding_process = 7;
  interrupts = true;
}

abbrev mutex : Mutex
mutex = record { locked = 5; holder = 5; cpu = none; lock_name = 0; reserved = 0 }

-- Process 8 takes the mutex.
abbrev taken : System
taken = round 8 3 (record { mutex = init_mutex 1 mutex; inside = λ _. false })

taken-Reachable : Reachable 1 mutex taken
taken-Reachable = more _ _ start (try_acquire 8 3 _)

inside : taken.inside 8 ≡ true
unfolding acquire_mutex_round try_mutex init_mutex
inside = refl

Reachable-exclusive_example : taken.inside 9 ≡ false
Reachable-exclusive_example =
    Reachable-exclusive 1 mutex taken 8 9 taken-Reachable inside (omega arith)
