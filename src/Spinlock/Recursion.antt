-- ===== src/Spinlock/Recursion.antt =====
-- Recursive use of a spinlock.
use dionys_os.Prelude.{ℕ, ◌≡◌, ◌≢◌, true, false, arith, ok, ◌>>◌}
use dionys_os.Spinlock.{Spinlock, acquire_spinlock, release_spinlock}
use dionys_os.Spinlock.Exchange.{acquire_spinlock-takes}

-- Nobody holds the lock.
abbrev pub Free : Spinlock → Type 0
Free l =
    (l.locked ≡ 0)
    × (l.cpu ≡ 0)
    × (l.holding_process ≡ 0)
    × (l.recursion_depth ≡ 0)
    × (l.interrupts ≡ true)

module _ (my_cpu current_process : ℕ) (c : my_cpu ≢ 0) (l : Spinlock) (free : Free l) where
  abbrev pub taken : Spinlock
  taken = record l {
    locked = 1;
    cpu = my_cpu;
    holding_process = current_process;
    interrupts = false;
  }

  pub acquire-once : acquire_spinlock false my_cpu current_process l ≡ ok tt taken
  acquire-once = acquire_spinlock-takes my_cpu current_process l (ground (arith, free))

  pub acquire-again :
      acquire_spinlock false my_cpu current_process taken
      ≡ ok tt (record taken { recursion_depth = 1 })
  unfolding acquire_spinlock
  acquire-again = ground (arith, free)

  pub release-taken : release_spinlock taken ≡ ok tt l
  unfolding release_spinlock
  release-taken = ground (arith, free)

  pub release-nested : release_spinlock (record taken { recursion_depth = 1 }) ≡ ok tt l
  unfolding release_spinlock
  release-nested = ground (arith, free)

  -- For a free lock with interrupts on and a CPU that is not null, an acquisition after the
  -- bootstrap followed by a release gives the same lock back, with interrupts on.
  release-acquire : (acquire_spinlock false my_cpu current_process >> release_spinlock) l ≡ ok tt l
  release-acquire = rw (acquire-once, release-taken)

  -- For a free lock with interrupts on and a CPU that is not null, two acquisitions after the
  -- bootstrap followed by one release give the free lock back.
  release-acquire_twice :
      (acquire_spinlock false my_cpu current_process
          >> acquire_spinlock false my_cpu current_process
          >> release_spinlock)
        l
      ≡ ok tt l
  release-acquire_twice = rw (acquire-once, acquire-again, release-nested)
