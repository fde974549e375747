-- ===== src/Scheduler/RunQueues.antt =====
-- kernel/src/scheduling/scheduler.c: the run queues, on the queues of queue.c, and the dead processes.
-- A process is its address and a CPU its number. A context switch ends an operation, and the sleep of
-- an idle CPU is left out.
use dionys_os.Prelude.{
  ℕ, zero, suc, ◌+◌, ◌%◌, ◌^◌, Bool, false, ltb, ◌==◌, if◌then◌else◌, update, Run, ok, panic, fault,
  hang, Cmd, ◌>>=◌, ◌>>◌, pure,
}
use dionys_os.Queue
use dionys_os.Queue.{Queue}
use dionys_os.SinglyLinkedList
use dionys_os.SinglyLinkedList.{SinglyLinkedList}

abbrev pub null : ℕ
null = 0

-- `PROCESS_READY` and `PROCESS_RUNNING`
abbrev pub process_ready : ℕ
process_ready = 4

abbrev pub process_running : ℕ
process_running = 0

pub record State : Type 0 where
  pub nodes : Queue.Nodes
  pub local_run_queue : ℕ → Queue
  pub sched_global_queue : Queue
  pub running_process : ℕ → ℕ
  pub list_state : SinglyLinkedList.State
  pub dead_processes : ℕ → SinglyLinkedList
  pub live_process : ℕ → Bool
  pub priority : ℕ → ℕ
  pub current_state : ℕ → ℕ
  pub current_cpu : ℕ → ℕ
  pub ticks_taken : ℕ → ℕ
  pub start_time : ℕ → ℕ

abbrev pub state : Cmd State State
state s = ok s s

abbrev pub modify : (State → State) → Cmd State (Unit {0})
modify f s = ok tt (f s)

-- A run on a part of the state; `put` puts the part back.
abbrev part {κ} : {S : Type 0} {A : Type κ} → (S → State) → Run S A → Run State A
part put (ok a n) = ok a (put n)
part put panic = panic
part put fault = fault
part put hang = hang

abbrev pub on_nodes {κ} : {A : Type κ} → Cmd Queue.Nodes A → Cmd State A
on_nodes run s = part (λ n. record s { nodes = n }) (run s.nodes)

abbrev pub on_list {κ} : {A : Type κ} → Cmd SinglyLinkedList.State A → Cmd State A
on_list run s = part (λ n. record s { list_state = n }) (run s.list_state)

abbrev pub set_local : (cpu : ℕ) → Queue → Cmd State (Unit {0})
set_local cpu q s = ok tt (record s { local_run_queue = update s.local_run_queue cpu q })

-- `fresh` is the new queue node.
unfoldable pub enqueue_local : (fresh cpu process : ℕ) → Cmd State (Unit {0})
enqueue_local fresh cpu process = do
  s ← state
  q ← on_nodes (Queue.enqueue fresh (s.local_run_queue cpu) process (s.priority process))
  set_local cpu q

unfoldable pub sched_yield : (fresh cpu : ℕ) → Cmd State (Unit {0})
unfolding enqueue_local
sched_yield fresh cpu = do
  s ← state
  if (s.local_run_queue cpu).head == null then pure tt else (do
    let process = s.running_process cpu
    modify (λ t. record t { current_state = update t.current_state process process_ready })
    enqueue_local fresh cpu process)

unfoldable pub sched_preempt : (fresh cpu : ℕ) → Cmd State (Unit {0})
unfolding enqueue_local
sched_preempt fresh cpu = do
  s ← state
  let process = s.running_process cpu
  modify (λ t. record t {
    ticks_taken =
        update t.ticks_taken process ((t.ticks_taken process + t.start_time process) % 2 ^ 64);
    start_time = update t.start_time process 0;
  })
  enqueue_local fresh cpu process
  modify (λ t. record t { current_state = update t.current_state process process_ready })

unfoldable pub sched_exit : (fresh cpu : ℕ) → Cmd State (Unit {0})
unfolding SinglyLinkedList.insert_head
sched_exit fresh cpu = do
  s ← state
  l ← on_list (SinglyLinkedList.insert_head fresh (s.dead_processes cpu) (s.running_process cpu))
  modify (λ t. record t {
    dead_processes = update t.dead_processes cpu l;
    running_process = update t.running_process cpu null;
  })

-- The loop of `purge_dead_processes`. Of `free_process` the end of the process is kept.
unfoldable pub purge_loop : (fuel cpu node : ℕ) → Cmd State (Unit {0})
unfolding SinglyLinkedList.remove_head
purge_loop zero cpu node = λ s. hang
purge_loop (suc fuel) cpu node = if node == null then pure tt else (do
  p ← on_list (SinglyLinkedList.get_value node)
  modify (λ t. record t { live_process = update t.live_process p false })
  s ← state
  left ← on_list (SinglyLinkedList.remove_head (s.dead_processes cpu))
  modify (λ t. record t { dead_processes = update t.dead_processes cpu left.1 })
  purge_loop fuel cpu left.1.head)

unfoldable pub purge_dead_processes : (fuel cpu : ℕ) → Cmd State (Unit {0})
unfolding purge_loop
purge_dead_processes fuel cpu = do
  s ← state
  if (s.dead_processes cpu).node_count == 0
      then pure tt
      else purge_loop fuel cpu (s.dead_processes cpu).head

unfoldable pub look_for_process : (fresh cpu : ℕ) → Cmd State (Unit {0})
unfolding enqueue_local
look_for_process fresh cpu = do
  s ← state
  if s.sched_global_queue.node_count == 0 then pure tt else (do
    process ← on_nodes (Queue.get_value s.sched_global_queue.head)
    q ← on_nodes (Queue.dequeue s.sched_global_queue)
    modify (λ t. record t { sched_global_queue = q })
    enqueue_local fresh cpu process)

unfoldable pub global_enqueue_process : (fresh process : ℕ) → Cmd State (Unit {0})
global_enqueue_process fresh process = do
  s ← state
  q ← on_nodes (Queue.enqueue fresh s.sched_global_queue process (s.priority process))
  modify (λ t. record t { sched_global_queue = q })

-- Up to the switch to the process; `now` is the count of the timer.
unfoldable pub sched_run : (fuel fresh now cpu : ℕ) → Cmd State (Unit {0})
unfolding purge_dead_processes look_for_process
sched_run fuel fresh now cpu = do
  s ← state
  if (s.local_run_queue cpu).head == null
      then (do purge_dead_processes fuel cpu; look_for_process fresh cpu)
      else (do
        process ← on_nodes (Queue.get_value (s.local_run_queue cpu).head)
        modify (λ t. record t {
          running_process = update t.running_process cpu process;
          current_cpu = update t.current_cpu process cpu;
          current_state = update t.current_state process process_running;
        })
        q ← on_nodes (Queue.dequeue (s.local_run_queue cpu))
        set_local cpu q
        modify (λ t. record t { start_time = update t.start_time process now }))

-- The tail node itself is enqueued, with its own priority; then the tail and the count of the
-- queue of this CPU go back.
unfoldable pub claim_from : (fresh cpu victim : ℕ) → Cmd State (Unit {0})
claim_from fresh cpu victim = do
  s ← state
  let queue = s.local_run_queue victim
  if ltb 2 queue.node_count
      then (do
        priority ← on_nodes (Queue.get_priority queue.tail)
        q ← on_nodes (Queue.enqueue fresh (s.local_run_queue cpu) queue.tail priority)
        tail ← on_nodes (Queue.get_prev q.tail)
        set_local cpu (record q { tail = tail; node_count = Queue.dec q.node_count }))
      else pure tt

-- The loop over the CPUs from `i` on, with `left` to go; `fresh` gives a node for each.
unfoldable pub claim_loop : (left i : ℕ) (fresh : ℕ → ℕ) (cpu : ℕ) → Cmd State (Unit {0})
unfolding claim_from
claim_loop zero i fresh cpu = pure tt
claim_loop (suc left) i fresh cpu = do
  if i == cpu then pure tt else claim_from (fresh i) cpu i
  claim_loop left (i + 1) fresh cpu

unfoldable pub sched_claim_process :
    (cpus_online : ℕ) (fresh : ℕ → ℕ) (cpu : ℕ) → Cmd State (Unit {0})
unfolding claim_loop
sched_claim_process cpus_online fresh cpu = claim_loop cpus_online 0 fresh cpu
