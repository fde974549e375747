-- ===== src/Spinlock.antt =====
-- kernel/src/data_structures/concurrency/spinlock.c, and the atomic exchange of
-- architecture/architecture_specific/x86_64/atomic_operations.c. A caller is a CPU and a process,
-- both pointers. Diagnostic output is left out.
-- FORCE_DEADLOCKS is defined, as kernel/Makefile does.
pub mod Exchange
pub mod Recursion
use dionys_os.Prelude.{
  ℕ, zero, suc, ◌+◌, ◌-◌, ◌%◌, ◌^◌, Bool, true, false, ◌&&◌, not, ltb, ◌==◌, if◌then◌else◌, Run, ok,
  Cmd, ◌>>=◌, ◌>>◌, pure,
}

-- `struct spinlock`, with the interrupt flag of the CPU that runs.
pub record Spinlock : Type 0 where
  pub locked : ℕ
  pub id : ℕ
  pub cpu : ℕ
  pub recursion_depth : ℕ
  pub holding_process : ℕ
  pub interrupts : Bool

-- `xchg`: store the new value, return the old one.
abbrev pub xchg : (new_value : ℕ) → Cmd Spinlock ℕ
xchg new_value l = ok l.locked (record l { locked = new_value })

-- The exchange is repeated while it returns a value that is not 0. When `left` attempts have done
-- so, the field is overwritten. Nobody else changes the field between the attempts.
unfoldable pub swap_loop : (left new_value : ℕ) → Cmd Spinlock Bool
swap_loop zero new_value = λ l. ok false (record l { locked = new_value })
swap_loop (suc left) new_value = do
  old ← xchg new_value
  if old == 0 then pure true else swap_loop left new_value

-- `DEADLOCK_DETECTION_THRESHOLD`
abbrev pub deadlock_detection_threshold : ℕ
deadlock_detection_threshold = 1000000000

abbrev pub arch_atomic_swap : (new_value : ℕ) → Cmd Spinlock Bool
arch_atomic_swap new_value = swap_loop deadlock_detection_threshold new_value

unfoldable pub arch_atomic_swap_or_return : (new_value : ℕ) → Cmd Spinlock Bool
arch_atomic_swap_or_return new_value = do old ← xchg new_value; pure (old == 0)

unfoldable pub initlock : (id : ℕ) → Cmd Spinlock (Unit {0})
initlock id l = ok tt (record l { id = id; locked = 0; cpu = 0; recursion_depth = 0 })

unfoldable pub acquire_spinlock :
    (bsp : Bool) (my_cpu current_process : ℕ) → Cmd Spinlock (Unit {0})
acquire_spinlock bsp my_cpu current_process l =
    if bsp
    then ok tt l
    else if (l.cpu == my_cpu) && (l.holding_process == current_process)
    then ok tt (record l { recursion_depth = (l.recursion_depth + 1) % 2 ^ 64 })
    else (arch_atomic_swap 1 >>= λ ret m.
          ok tt (record m { cpu = my_cpu; holding_process = current_process }))
        (record l { interrupts = false })

unfoldable pub release_spinlock : Cmd Spinlock (Unit {0})
release_spinlock l =
    if l.recursion_depth - 1 == 0
    then ok tt (record l {
      cpu = 0;
      holding_process = 0;
      locked = 0;
      recursion_depth = 0;
      interrupts = true;
    })
    else ok tt (record l { recursion_depth = l.recursion_depth - 1 })

unfoldable pub try_lock : (my_cpu : ℕ) → Cmd Spinlock Bool
unfolding arch_atomic_swap_or_return
try_lock my_cpu = do
  acquired ← arch_atomic_swap_or_return 1
  if acquired
      then (λ l. ok true (record l {
        interrupts = false;
        recursion_depth =
            if l.cpu == my_cpu then (l.recursion_depth + 1) % 2 ^ 64 else l.recursion_depth;
        cpu = my_cpu;
      }))
      else pure false
