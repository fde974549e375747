-- ===== src/Queue/Lifo.antt =====
-- The LIFO mode: `enqueue_lifo` and `dequeue_lifo`.
use dionys_os.Prelude.{ℕ, suc, ◌^◌, ◌%◌, ◌≡◌, ◌≢◌, false, [], ◌∷◌, length, arith, update, ok, fault}
use dionys_os.Queue.{Nodes, Queue, lifo, null, inc, enqueue, enqueue_lifo, dequeue, dequeue_lifo}
use dionys_os.Queue.Layout.{Entry, entry, Entries, Seg, IsQueue}
use dionys_os.Queue.Fifo.{with_node}

module _ (fresh value priority : ℕ) (ne : fresh ≢ null) (given : value ≢ null) (n : Nodes)
    (q : Queue) (x : Entry) (xs : Entries) (is : IsQueue n q (x ∷ xs))
    (mode : q.queue_mode ≡ lifo) where
  pushed : Nodes
  pushed =
      let m = with_node fresh value priority ne given n in
      record m { prev = update m.prev q.head fresh }

  topped : Queue
  topped = record q { head = fresh; node_count = inc q.node_count }

  run-enqueue-lifo : enqueue fresh q value priority n ≡ ok topped pushed
  unfolding enqueue enqueue_lifo pushed topped
  run-enqueue-lifo = rw (enqueue, mode) (ground (arith, ne, given))

  -- For a well-formed LIFO queue that is not empty, and a new node that is not null with a value
  -- that is not null, null being no live node, a push ends with a count one higher and a chain
  -- from the head of the new node alone, and the next pop is a fault.
  enqueue-lifo_loses :
      n.live null ≡ false
      → (q' : Queue) × (m : Nodes) × (enqueue fresh q value priority n ≡ ok q' m)
        × Seg m q'.head (entry fresh value priority ∷ [])
        × (q'.node_count ≡ suc (length (x ∷ xs)) % 2 ^ 32)
        × (dequeue q' m ≡ fault)
  unfolding pushed topped dequeue dequeue_lifo
  enqueue-lifo_loses dead = (
    topped,
    pushed,
    run-enqueue-lifo,
    ground (arith, ne, given),
    ground arith,
    rw (dequeue, mode) (ground (arith, ne, given, is.count, is.small)),
  )
