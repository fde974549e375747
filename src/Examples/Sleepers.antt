-- ===== src/Examples/Sleepers.antt =====
-- Sleeping processes in a concrete queue.
use dionys_os.Prelude.{◌≡◌, ◌==◌, if◌then◌else◌, true, arith, refl, ok, inl, inr, [], ◌∷◌}
use dionys_os.Spinlock.{Spinlock}
use dionys_os.Scheduler.{State, sched_wakeup}
use dionys_os.Scheduler.Waking.{Queued, Woken, sched_wakeup-Woken}

abbrev free_lock : Spinlock
free_lock = record {
  locked = 0;
  id = 0;
  cpu = 0;
  recursion_depth = 0;
  holding_process = 0;
  interrupts = true;
}

-- The processes 500 and 600 sleep on the channels 7 and 8, in the nodes 10 and 20.
abbrev sleepers : State
sleepers = record {
  nodes = record {
    live = λ b. if b == 10 then true else b == 20;
    value = λ b. if b == 10 then 500 else 600;
    next = λ b. if b == 10 then 20 else 0;
    prev = λ b. if b == 20 then 10 else 0;
  };
  global_sleep_queue = record { head = 10; tail = 20; node_count = 2 };
  sched_sleep_lock = free_lock;
  sleep_channel = λ q. if q == 500 then 7 else 8;
  current_state = λ q. 1;
  ticks_taken = λ q. 0;
  ticks_slept = λ q. 0;
  start_time = λ q. 0;
}

sleepers-Queued : Queued sleepers.nodes 10 ((10, 500) ∷ (20, 600) ∷ [])
sleepers-Queued = (
  refl,
  (λ e. omega (arith, e)),
  (λ e. omega (arith, e)),
  refl,
  refl,
  refl,
  (inl refl, refl),
  (
    refl,
    (λ e. omega (arith, e)),
    (λ e. omega (arith, e)),
    refl,
    refl,
    refl,
    (inr refl, refl),
    refl,
  ),
)

sched_wakeup-Woken_example :
    (t : State) × (sched_wakeup 4096 500 3 7 sleepers ≡ ok tt t)
    × Woken 7 ((10, 500) ∷ (20, 600) ∷ []) sleepers t
    × (t.sched_sleep_lock ≡ free_lock)
sched_wakeup-Woken_example =
    sched_wakeup-Woken 4096 500 3 7 sleepers (10, 500) ((20, 600) ∷ []) (λ e. omega (arith, e))
      (refl, refl, refl, refl, refl) sleepers-Queued (omega arith)
