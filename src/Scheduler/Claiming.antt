-- ===== src/Scheduler/Claiming.antt =====
-- How a process gets from the global queue to a CPU.
use dionys_os.Prelude.{
  ℕ, suc, ◌^◌, ◌<◌, ◌≡◌, ◌≢◌, ◌==◌, false, ok, arith, refl, sym, ap, ◌∙◌, [], ◌∷◌, ◌++◌, length,
  update, update_same, subst,
}
use dionys_os.Queue.{Queue, null, fifo, Nodes, dequeue, dequeue_fifo}
use dionys_os.Queue.Layout.{Entry, entry, Entries, Out, IsQueue, IsQueue-frame, AgreesOff}
use dionys_os.Queue.Fifo.{enqueue-append, dequeue-tail}
use dionys_os.Scheduler.RunQueues.{State, enqueue_local, look_for_process}

-- A removal at the front changes no other node, but for the link back.
dequeue-AgreesOff :
    (n m : Nodes) (q q' : Queue) (x : Entry) (xs : Entries)
    → q.queue_mode ≡ fifo
    → IsQueue n q (x ∷ xs)
    → dequeue q n ≡ ok q' m
    → AgreesOff x.address n m
unfolding dequeue dequeue_fifo
dequeue-AgreesOff n m q q' x [] mode is e b d = ground (arith, e, mode, is)
dequeue-AgreesOff n m q q' x (y ∷ ys) mode is e b d = ground (arith, e, mode, is)

counted : (count n : ℕ) → count ≡ suc n → (count == 0) ≡ false
counted count n e = ground (arith, e)

-- Two FIFO queues that share no node, and a new node.
pub record Waiting (s : State) (fresh cpu : ℕ) (x : Entry) (xs ys : Entries) : Type 0 where
  pub global_mode : s.sched_global_queue.queue_mode ≡ fifo
  pub local_mode : (s.local_run_queue cpu).queue_mode ≡ fifo
  pub global : IsQueue s.nodes s.sched_global_queue (x ∷ xs)
  pub local : IsQueue s.nodes (s.local_run_queue cpu) ys
  pub apart : Out x.address ys
  pub fresh_out : Out fresh ys
  pub fresh_given : fresh ≢ null
  pub held_given : x.held ≢ null
  pub room : suc (length ys) < 2 ^ 32

module _ (fresh cpu : ℕ) (x : Entry) (xs ys : Entries) (s : State) where
  -- For well-formed FIFO queues, where the global one is not empty, its first node is not in the
  -- local one and holds a process that is not null, and for a new node that is not null and not
  -- in the local one, which has room, look_for_process succeeds, the local queue is then
  -- well-formed with that process behind its entries, and the global count is that of the others.
  pub look_for_process-moves :
      Waiting s fresh cpu x xs ys
      → (t : State) × (look_for_process fresh cpu s ≡ ok tt t)
        × IsQueue t.nodes
            (t.local_run_queue cpu)
            (ys ++ (entry fresh x.held (s.priority x.held) ∷ []))
        × (t.sched_global_queue.node_count ≡ length xs)
  unfolding look_for_process enqueue_local
  look_for_process-moves w =
      let d = dequeue-tail s.nodes s.sched_global_queue x xs w.global_mode w.global in
      let kept =
        IsQueue-frame s.nodes d.1 (s.local_run_queue cpu) ys x.address
          (dequeue-AgreesOff s.nodes d.1 s.sched_global_queue d.0 x xs w.global_mode w.global d.2)
          w.apart w.local in
      let e =
        enqueue-append fresh x.held (s.priority x.held) w.fresh_given w.held_given d.1
          (s.local_run_queue cpu) ys w.local_mode w.room w.fresh_out kept in
      let head = w.global.chain.0 in
      (
        record s {
          nodes = e.1;
          sched_global_queue = d.0;
          local_run_queue = update s.local_run_queue cpu e.0;
        },
        rw
            (
              counted s.sched_global_queue.node_count (length xs) w.global.count,
              ap s.nodes.live head ∙ w.global.chain.2,
              ap s.nodes.value head ∙ w.global.chain.3,
              d.2,
              e.2,
            )
            refl,
        subst (λ q. IsQueue e.1 q (ys ++ (entry fresh x.held (s.priority x.held) ∷ [])))
            (sym (update_same s.local_run_queue cpu e.0)) e.3,
        d.3.count,
      )
