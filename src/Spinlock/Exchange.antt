-- ===== src/Spinlock/Exchange.antt =====
-- The atomic exchange, and what a CPU that does not hold the lock gets from it.
use dionys_os.Prelude.{ℕ, zero, suc, ◌≡◌, ◌≢◌, true, false, arith, ok, refl, inl, inr, ◌<◌, ◌⊎◌}
use dionys_os.Spinlock.{Spinlock, swap_loop, deadlock_detection_threshold, acquire_spinlock}

pub swap_loop-free :
    (left new_value : ℕ) (l : Spinlock)
    → l.locked ≡ 0
    → 0 < left
    → swap_loop left new_value l ≡ ok true (record l { locked = new_value })
unfolding swap_loop
swap_loop-free zero v l e z = absurd (omega arith)
swap_loop-free (suc left) v l e z = ground (arith, e)

-- A field that stays taken is overwritten in the end.
pub swap_loop-taken :
    (left new_value : ℕ) (l : Spinlock)
    → l.locked ≢ 0
    → new_value ≢ 0
    → swap_loop left new_value l ≡ ok false (record l { locked = new_value })
unfolding swap_loop
swap_loop-taken zero v l e d = refl
swap_loop-taken (suc left) v l e d =
    ground (arith, e, swap_loop-taken left v (record l { locked = v }) d d)

nat_cases : (n : ℕ) → (n ≡ 0) ⊎ (n ≢ 0)
nat_cases zero = inl refl
nat_cases (suc n) = inr (omega arith)

module _ (my_cpu current_process : ℕ) (l : Spinlock) (other : l.cpu ≢ my_cpu) where
  abbrev off : Spinlock
  off = record l { interrupts = false }

  -- After the bootstrap, a CPU that does not hold the lock ends its acquisition as the holder of
  -- the lock, with interrupts off, whether the lock was free or stayed taken: a field that stays
  -- taken is overwritten at the threshold.
  pub acquire_spinlock-takes :
      acquire_spinlock false my_cpu current_process l
      ≡ ok tt (record l {
        locked = 1;
        cpu = my_cpu;
        holding_process = current_process;
        interrupts = false;
      })
  unfolding acquire_spinlock
  acquire_spinlock-takes = elim (nat_cases l.locked) [
    | inl e ↦
        ground (arith, other, swap_loop-free deadlock_detection_threshold 1 off e (omega arith))
    | inr e ↦
        ground (arith, other, swap_loop-taken deadlock_detection_threshold 1 off e (omega arith))
  ]
