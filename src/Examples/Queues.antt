-- ===== src/Examples/Queues.antt =====
-- Queues in concrete memories.
use dionys_os.Prelude.{ℕ, ◌≡◌, ◌==◌, if◌then◌else◌, true, arith, refl, [], ◌∷◌}
use dionys_os.Queue.{Nodes, Queue, Mode, fifo, priority_mode, enqueue_priority, enqueue_fifo}
use dionys_os.Queue.Layout.{Entry, entry, IsQueue}
use dionys_os.Queue.Fifo.{with_node, Enqueued, Dequeued, enqueue-append, dequeue-tail}
use dionys_os.Queue.Priority.{enqueue_priority-eq-enqueue_fifo}

-- Two nodes, at 10 and 20, with the values 1 and 2 and the priorities 5 and 3.
abbrev nodes : Nodes
nodes = record {
  live = λ i. if i == 10 then true else i == 20;
  value = λ i. if i == 10 then 1 else 2;
  next = λ i. if i == 10 then 20 else 0;
  prev = λ i. if i == 20 then 10 else 0;
  priority = λ i. if i == 10 then 5 else 3;
}

abbrev first : Entry
first = entry 10 1 5

abbrev second : Entry
second = entry 20 2 3

abbrev queue : Mode → Queue
queue mode = record { head = 10; tail = 20; queue_mode = mode; node_count = 2 }

queue-IsQueue : (mode : Mode) → IsQueue nodes (queue mode) (first ∷ second ∷ [])
queue-IsQueue mode = record {
  chain = (refl, omega arith, refl, refl, refl, (refl, omega arith, refl, refl, refl, refl));
  distinct = ((omega arith, tt), (tt, tt));
  count = refl;
  small = omega arith;
  tail_ok = refl;
}

enqueue-append_example :
    Enqueued 30 7 4
      (omega arith)
      (omega arith)
      nodes
      (queue fifo)
      (first ∷ second ∷ entry 30 7 4 ∷ [])
enqueue-append_example =
    enqueue-append 30 7 4 (omega arith) (omega arith) nodes (queue fifo) (first ∷ second ∷ []) refl
      (omega arith) (omega arith, (omega arith, tt)) (queue-IsQueue fifo)

dequeue-tail_example : Dequeued nodes (queue fifo) (second ∷ [])
dequeue-tail_example = dequeue-tail nodes (queue fifo) first (second ∷ []) refl (queue-IsQueue fifo)

-- The memory with a node of priority `p`.
abbrev with_rank : ℕ → Nodes
with_rank p = with_node 30 7 p (omega arith) (omega arith) nodes

enqueue_priority-eq-enqueue_fifo_example :
    enqueue_priority (queue priority_mode) 30 (with_rank 2)
    ≡ enqueue_fifo (queue priority_mode) 30 (with_rank 2)
enqueue_priority-eq-enqueue_fifo_example =
    enqueue_priority-eq-enqueue_fifo 30 7 2 (omega arith) (omega arith) nodes (queue priority_mode)
      first (second ∷ []) (queue-IsQueue priority_mode) (omega arith, (omega arith, tt))
      (omega arith)
