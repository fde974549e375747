-- ===== src/Scheduler.antt =====
-- kernel/src/scheduling/scheduler.c: sleep and wakeup, on the doubly linked list of sleeping processes.
-- A process is its address.
pub mod Waking
pub mod RunQueues
pub mod Claiming
use dionys_os.Prelude.{
  ℕ, zero, suc, ◌+◌, ◌^◌, ◌%◌, Bool, true, false, ◌==◌, ◌||◌, if◌then◌else◌, update, Run, ok, panic,
  fault, hang, Cmd, ◌>>=◌, ◌>>◌, pure,
}
use dionys_os.Spinlock.{Spinlock, acquire_spinlock, release_spinlock}
use dionys_os.DoublyLinkedList.{
  Nodes, DoublyLinkedList, null, get_value, get_next, insert_head, remove_node_by_address,
}

pub record State : Type 0 where
  pub nodes : Nodes
  pub global_sleep_queue : DoublyLinkedList
  pub sched_sleep_lock : Spinlock
  pub sleep_channel : ℕ → ℕ
  pub current_state : ℕ → ℕ
  pub ticks_taken : ℕ → ℕ
  pub ticks_slept : ℕ → ℕ
  pub start_time : ℕ → ℕ

-- An operation on the nodes.
abbrev pub with_nodes : {A : Type 0} → State → Run Nodes A → Run State A
with_nodes s (ok a n) = ok a (record s { nodes = n })
with_nodes s panic = panic
with_nodes s fault = fault
with_nodes s hang = hang

abbrev pub on_nodes : {A : Type 0} → Cmd Nodes A → Cmd State A
on_nodes run s = with_nodes s (run s.nodes)

abbrev pub process_sleeping : ℕ
process_sleeping = 1

-- `now` is the count of the timer, and `fresh` the new node. The switch to the scheduler follows.
unfoldable pub sched_sleep : (fresh now process channel : ℕ) → Cmd State (Unit {0})
unfolding insert_head
sched_sleep fresh now process channel s =
    (on_nodes (insert_head fresh s.global_sleep_queue process) >>= λ l t. ok tt (record t {
      global_sleep_queue = l;
      sleep_channel = update t.sleep_channel process channel;
      current_state = update t.current_state process process_sleeping;
      ticks_taken =
          update t.ticks_taken process ((t.ticks_taken process + t.start_time process) % 2 ^ 64);
      start_time = update t.start_time process now;
    }))
      s

-- The process wakes up.
abbrev pub woken : (process : ℕ) → State → State
woken process s = record s {
  sleep_channel = update s.sleep_channel process 0;
  ticks_slept =
      update s.ticks_slept process ((s.ticks_slept process + s.start_time process) % 2 ^ 64);
  start_time = update s.start_time process 0;
}

-- The loop over the sleeping processes; `process` is that of the round before.
unfoldable pub wakeup_loop : (fuel channel node process : ℕ) → Cmd State (Unit {0})
unfolding remove_node_by_address
wakeup_loop zero channel node process = λ _. hang
wakeup_loop (suc fuel) channel node process =
    if node == null || process == null then pure tt else (do
      p ← on_nodes (get_value node)
      c ← (λ s. ok (s.sleep_channel p) s)
      (if c == channel
          then (λ s.
              (on_nodes (remove_node_by_address s.global_sleep_queue node) >>= λ l t.
              ok tt (record t { global_sleep_queue = l }))
                (woken p s))
          else pure tt)
      n ← on_nodes (get_next node)
      wakeup_loop fuel channel n p)

abbrev pub with_lock : State → Run Spinlock (Unit {0}) → Run State (Unit {0})
with_lock s (ok a l) = ok a (record s { sched_sleep_lock = l })
with_lock s panic = panic
with_lock s fault = fault
with_lock s hang = hang

-- An operation on the lock.
abbrev pub on_sleep_lock : Cmd Spinlock (Unit {0}) → Cmd State (Unit {0})
on_sleep_lock run s = with_lock s (run s.sched_sleep_lock)

-- On an empty queue the function returns without a release of the lock. The processes are set up
-- after the bootstrap.
unfoldable pub sched_wakeup : (my_cpu current_process fuel channel : ℕ) → Cmd State (Unit {0})
unfolding wakeup_loop acquire_spinlock release_spinlock
sched_wakeup my_cpu current_process fuel channel = do
  on_sleep_lock (acquire_spinlock false my_cpu current_process)
  head ← (λ s. ok s.global_sleep_queue.head s)
  if head == null then pure tt else (do
    p ← on_nodes (get_value head)
    wakeup_loop fuel channel head p
    on_sleep_lock release_spinlock)
