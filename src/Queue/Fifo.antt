-- ===== src/Queue/Fifo.antt =====
-- The FIFO mode: `enqueue_fifo` and `dequeue_fifo` on the list of entries.
use dionys_os.Prelude.{
  ℕ, suc, ◌^◌, ◌<◌, ◌≡◌, ◌≢◌, true, false, [], ◌∷◌, ◌++◌, length, arith, update, refl, sym, ap, ◌∙◌,
  ok, ◌==◌, if◌then◌else◌, length-append,
}
use dionys_os.Queue.{
  Nodes, Queue, fifo, null, inc, dec, enqueue, enqueue_fifo, dequeue, dequeue_fifo,
  dequeue_priority, enqueue_node,
}
use dionys_os.Queue.Layout.{
  Entry, entry, Entries, Seg, Seg-frame, Out, IsQueue, IsQueue-frame, last_address, last-ne,
  live-last, Linked, Seg-append, Distinct-append, last-append, AgreesOff,
}

module _ (fresh value priority : ℕ) (ne : fresh ≢ null) (given : value ≢ null) (n : Nodes) where
  -- The memory with the new node initialised.
  abbrev pub with_node : Nodes
  with_node = record {
    live = update n.live fresh true;
    value = update n.value fresh value;
    next = update n.next fresh null;
    prev = update n.prev fresh null;
    priority = update n.priority fresh priority;
  }

  pub with_node-AgreesOff : AgreesOff fresh n with_node
  with_node-AgreesOff b d = ground arith

  -- The memory after the new node is linked behind the node at `t`.
  abbrev pub behind : ℕ → Nodes
  behind t = record with_node {
    next = update with_node.next t fresh;
    prev = update with_node.prev fresh t;
  }

  pub behind-Linked : (t : ℕ) → t ≢ fresh → Linked n (behind t) t (entry fresh value priority)
  behind-Linked t d = record {
    live_q = ground arith;
    value_q = ground arith;
    priority_q = ground arith;
    next_q = ground arith;
    next_t = ground arith;
    same = λ b e. ground arith;
    next_same = λ b e f. ground arith;
  }

  -- The run of the code on the node, once it is initialised.
  pub run-enqueue_fifo-nil :
      (q : Queue)
      → q.node_count ≡ 0
      → enqueue_fifo q fresh with_node
        ≡ ok (record q { head = fresh; tail = fresh; node_count = inc q.node_count }) with_node
  unfolding enqueue_fifo
  run-enqueue_fifo-nil q e = ground arith

  pub run-enqueue_fifo-cons :
      (q : Queue) (x : Entry) (xs : Entries)
      → IsQueue with_node q (x ∷ xs)
      → enqueue_fifo q fresh with_node
        ≡ ok
            (record q { tail = fresh; node_count = inc q.node_count })
            (behind (last_address x.address xs))
  unfolding enqueue_fifo
  run-enqueue_fifo-cons q x [] is = ground arith
  run-enqueue_fifo-cons q x (y ∷ ys) is =
      ground (arith, live-last with_node q.head x (y ∷ ys) is.chain)

  pub behind-IsQueue :
      (q : Queue) (x : Entry) (xs : Entries)
      → suc (length (x ∷ xs)) < 2 ^ 32
      → Out fresh (x ∷ xs)
      → IsQueue n q (x ∷ xs)
      → IsQueue
          (behind (last_address x.address xs))
          (record q { tail = fresh; node_count = inc q.node_count })
          ((x ∷ xs) ++ (entry fresh value priority ∷ []))
  behind-IsQueue q x xs room out is = record {
    chain =
        Seg-append n _ (entry fresh value priority) q.head x xs
          (behind-Linked (last_address x.address xs) (last-ne fresh x.address xs out.0 out.1)) ne
          out is.distinct is.chain;
    distinct = Distinct-append (entry fresh value priority) (x ∷ xs) out is.distinct;
    count = omega (arith, length-append (x ∷ xs) (entry fresh value priority ∷ []), is.count);
    small = omega (arith, length-append (x ∷ xs) (entry fresh value priority ∷ []));
    tail_ok = sym (last-append x.address (entry fresh value priority) xs);
  }

  -- A successful enqueue: the queue holds `ys`.
  abbrev pub Enqueued : Queue → Entries → Type 0
  Enqueued q ys =
      (q' : Queue) × (m : Nodes) × (enqueue fresh q value priority n ≡ ok q' m) × IsQueue m q' ys

  run-enqueue :
      (q q' : Queue) (m : Nodes)
      → enqueue_node q.queue_mode q fresh with_node ≡ ok q' m
      → enqueue fresh q value priority n ≡ ok q' m
  unfolding enqueue
  run-enqueue q q' m h = ground (arith, h)

  as_fifo :
      (q : Queue)
      → q.queue_mode ≡ fifo
      → enqueue_node q.queue_mode q fresh with_node ≡ enqueue_fifo q fresh with_node
  unfolding enqueue_node
  as_fifo q mode = ap (λ m. enqueue_node m q fresh with_node) mode

  -- On a well-formed FIFO queue with room for one more node, and for a new node that is not null
  -- and in no use, with a value that is not null, enqueue succeeds and leaves a well-formed queue
  -- whose entries are the old ones followed by the new one.
  pub enqueue-append :
      (q : Queue) (xs : Entries)
      → q.queue_mode ≡ fifo
      → suc (length xs) < 2 ^ 32
      → Out fresh xs
      → IsQueue n q xs
      → Enqueued q (xs ++ (entry fresh value priority ∷ []))
  enqueue-append q [] mode room out is = (
    record q { head = fresh; tail = fresh; node_count = inc q.node_count },
    with_node,
    run-enqueue q _ _ (as_fifo q mode ∙ run-enqueue_fifo-nil q is.count),
    record {
      chain = ground arith;
      distinct = (tt, tt);
      count = omega (arith, is.count);
      small = omega arith;
      tail_ok = refl;
    },
  )
  enqueue-append q (x ∷ xs) mode room out is = (
    _,
    _,
    run-enqueue q _ _ (
        as_fifo q mode
        ∙ run-enqueue_fifo-cons q x xs
            (IsQueue-frame n with_node q (x ∷ xs) fresh with_node-AgreesOff out is)),
    behind-IsQueue q x xs room out is,
  )

-- The memory after the first of two or more nodes is dropped.
abbrev dropped : Nodes → (first second : ℕ) → Nodes
dropped n a b = record n { prev = update n.prev b null; live = update n.live a false }

abbrev pub Dequeued : Nodes → Queue → Entries → Type 0
Dequeued n q ys = (q' : Queue) × (m : Nodes) × (dequeue q n ≡ ok q' m) × IsQueue m q' ys

at_head :
    (n : Nodes) (p : ℕ) (x : Entry) (xs : Entries) → Seg n p (x ∷ xs) → Seg n x.address (x ∷ xs)
at_head n p x xs s = (refl, s.1, s.2, s.3, s.4, s.5)

-- The tail is set when one node is left, and is right otherwise.
tail_after :
    (q : Queue) (y : Entry) (ys : Entries)
    → q.node_count ≡ suc (suc (length ys))
    → suc (suc (length ys)) < 2 ^ 32
    → q.tail ≡ last_address y.address ys
    → (if dec q.node_count == 1 then y.address else q.tail) ≡ last_address y.address ys
tail_after q y [] count small tail = ground arith
tail_after q y (z ∷ zs) count small tail = ground arith

-- On a well-formed FIFO queue that is not empty, dequeue succeeds and leaves a well-formed queue
-- of the entries behind the first one.
pub dequeue-tail :
    (n : Nodes) (q : Queue) (x : Entry) (xs : Entries)
    → q.queue_mode ≡ fifo
    → IsQueue n q (x ∷ xs)
    → Dequeued n q xs
unfolding dequeue dequeue_fifo
dequeue-tail n q x [] mode is = (
  record q { head = null; node_count = dec q.node_count },
  record n { live = update n.live x.address false },
  rw mode (ground arith),
  record {
    chain = refl;
    distinct = tt;
    count = omega (arith, is.count);
    small = omega arith;
    tail_ok = tt;
  },
)
dequeue-tail n q x (y ∷ ys) mode is = (
  record q {
    head = y.address;
    tail = if dec q.node_count == 1 then y.address else q.tail;
    node_count = dec q.node_count;
  },
  dropped n x.address y.address,
  rw mode (ground arith),
  record {
    chain = at_head (dropped n x.address y.address) (n.next x.address) y ys (
        Seg-frame n (dropped n x.address y.address) x.address (n.next x.address) (y ∷ ys)
          (λ b d. ground arith) is.distinct.0 is.chain.5);
    distinct = is.distinct.1;
    count = omega (arith, is.count, is.small);
    small = omega (arith, is.small);
    tail_ok = tail_after q y ys is.count is.small is.tail_ok;
  },
)

-- The priority mode drops nodes exactly as the FIFO mode does.
pub dequeue_priority-eq-dequeue_fifo :
    (q : Queue) (n : Nodes) → dequeue_priority q n ≡ dequeue_fifo q n
unfolding dequeue_priority dequeue_fifo
dequeue_priority-eq-dequeue_fifo q n = refl
