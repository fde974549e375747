-- ===== src/Queue.antt =====
-- kernel/src/data_structures/queue.c: FIFO, LIFO and priority queues of `void *`. Each operation is
-- one critical section of the queue's lock. `fresh` is what `kmalloc` returns for a new node.
pub mod Layout
pub mod Fifo
pub mod Priority
pub mod Lifo
use dionys_os.Prelude.{
  ℕ, zero, suc, ◌+◌, ◌-◌, ◌%◌, ◌^◌, Bool, true, false, ltb, leb, ◌==◌, if◌then◌else◌, update, Run,
  ok, panic, fault, hang, Cmd, ◌>>=◌, ◌>>◌, pure,
}

abbrev pub null : ℕ
null = 0

-- `struct queue_node`, field by field, for every address. A node that is not live may not be read
-- or written.
pub record Nodes : Type 0 where
  pub live : ℕ → Bool
  pub value : ℕ → ℕ
  pub next : ℕ → ℕ
  pub prev : ℕ → ℕ
  pub priority : ℕ → ℕ

pub data Mode : Type 0 where
  fifo lifo priority_mode circular double_ended other : Mode

pub record Queue : Type 0 where
  pub head : ℕ
  pub tail : ℕ
  pub queue_mode : Mode
  pub node_count : ℕ

abbrev pub on_node : ℕ → (Nodes → Nodes) → Cmd Nodes (Unit {0})
on_node p f n = if n.live p then ok tt (f n) else fault

abbrev pub set_value : ℕ → ℕ → Cmd Nodes (Unit {0})
set_value p v = on_node p (λ n. record n { value = update n.value p v })

abbrev pub set_next : ℕ → ℕ → Cmd Nodes (Unit {0})
set_next p v = on_node p (λ n. record n { next = update n.next p v })

abbrev pub set_prev : ℕ → ℕ → Cmd Nodes (Unit {0})
set_prev p v = on_node p (λ n. record n { prev = update n.prev p v })

abbrev pub set_priority : ℕ → ℕ → Cmd Nodes (Unit {0})
set_priority p v = on_node p (λ n. record n { priority = update n.priority p v })

abbrev pub get : (Nodes → ℕ → ℕ) → ℕ → Cmd Nodes ℕ
get field p n = if n.live p then ok (field n p) n else fault

abbrev pub get_value : ℕ → Cmd Nodes ℕ
get_value = get (λ n. n.value)

abbrev pub get_next : ℕ → Cmd Nodes ℕ
get_next = get (λ n. n.next)

abbrev pub get_prev : ℕ → Cmd Nodes ℕ
get_prev = get (λ n. n.prev)

abbrev pub get_priority : ℕ → Cmd Nodes ℕ
get_priority = get (λ n. n.priority)

abbrev pub kfree : ℕ → Cmd Nodes (Unit {0})
kfree p n = ok tt (record n { live = update n.live p false })

-- `node_count` is a `uint32_t`.
abbrev pub inc : ℕ → ℕ
inc n = (n + 1) % 2 ^ 32

abbrev pub dec : ℕ → ℕ
dec n = (n + (2 ^ 32 - 1)) % 2 ^ 32

-- `queue_init` does not set `node_count`.
unfoldable pub queue_init : Queue → Mode → Queue
queue_init q mode = record q { head = null; tail = null; queue_mode = mode }

-- The node comes from `kmalloc` and is live from here on.
unfoldable pub queue_node_init : (node value priority : ℕ) → Cmd Nodes (Unit {0})
queue_node_init node value priority n =
    if node == null
    then panic
    else ok tt (record {
      live = update n.live node true;
      value = update n.value node value;
      next = update n.next node null;
      prev = update n.prev node null;
      priority = update n.priority node priority;
    })

unfoldable pub enqueue_fifo : Queue → (new : ℕ) → Cmd Nodes Queue
enqueue_fifo q new = if new == null then (λ _. panic) else do
  value ← get_value new
  if value == null
      then (λ _. panic)
      else if q.node_count == 0
      then pure (record q { head = new; tail = new; node_count = inc q.node_count })
      else if q.node_count == 1
      then (do
        set_next q.head new
        set_prev new q.head
        pure (record q { tail = new; node_count = inc q.node_count }))
      else (do
        set_next q.tail new
        set_prev new q.tail
        pure (record q { tail = new; node_count = inc q.node_count }))

unfoldable pub enqueue_lifo : Queue → (new : ℕ) → Cmd Nodes Queue
enqueue_lifo q new = do
  value ← get_value new
  if value == null
      then (λ _. panic)
      else if q.node_count == 0
      then pure (record q { head = new; tail = new; node_count = inc q.node_count })
      else (do set_prev q.head new; pure (record q { head = new; node_count = inc q.node_count }))

-- The walk of `enqueue_priority`. Without a place for the node the queue stays as it is.
unfoldable pub priority_walk : (fuel pointer new : ℕ) → Queue → Cmd Nodes Queue
priority_walk zero pointer new q = λ _. hang
priority_walk (suc k) pointer new q = if pointer == null then pure q else do
  here ← get_priority pointer
  wanted ← get_priority new
  if ltb here wanted
      then (do
        set_next new pointer
        before ← get_prev pointer
        set_prev new before
        set_prev pointer new
        pure (record q { node_count = inc q.node_count }))
      else (do next ← get_next pointer; priority_walk k next new q)

unfoldable pub enqueue_priority : Queue → (new : ℕ) → Cmd Nodes Queue
enqueue_priority q new = do
  value ← get_value new
  if value == null
      then (λ _. panic)
      else if q.node_count == 0
      then pure (record q { head = new; tail = new; node_count = inc q.node_count })
      else if q.node_count == 1
      then (do
        first ← get_priority q.head
        wanted ← get_priority new
        if ltb first wanted
            then (do
              set_prev q.head new
              set_next new q.head
              pure (record q { head = new; node_count = inc q.node_count }))
            else (do
              set_next q.head new
              set_prev new q.head
              pure (record q { tail = new; node_count = inc q.node_count })))
      else (do
        last ← get_priority q.tail
        wanted ← get_priority new
        if leb wanted last
            then (do
              set_next q.tail new
              set_prev new q.tail
              pure (record q { tail = new; node_count = inc q.node_count }))
            else (do
              first ← get_priority q.head
              if leb first wanted
                  then (do
                    second ← get_next q.head
                    set_next new second
                    set_next q.head new
                    set_prev new q.head
                    pure (record q { node_count = inc q.node_count }))
                  else priority_walk (q.node_count + 1) q.head new q))

-- A mode without an implementation leaves the queue as it is.
enqueue_node : Mode → Queue → (new : ℕ) → Cmd Nodes Queue
enqueue_node fifo q new = enqueue_fifo q new
enqueue_node lifo q new = enqueue_lifo q new
enqueue_node priority_mode q new = enqueue_priority q new
enqueue_node circular q new = pure q
enqueue_node double_ended q new = pure q
enqueue_node other q new = pure q

unfoldable pub enqueue : (fresh : ℕ) → Queue → (value priority : ℕ) → Cmd Nodes Queue
unfolding queue_node_init enqueue_node
enqueue fresh q value priority = do
  queue_node_init fresh value priority
  enqueue_node q.queue_mode q fresh

unfoldable pub dequeue_fifo : Queue → Cmd Nodes Queue
dequeue_fifo q = if q.head == null then pure q else do
  next ← get_next q.head
  if next == null
      then (do kfree q.head; pure (record q { head = next; node_count = dec q.node_count }))
      else (do
        set_prev next null
        kfree q.head
        pure (record q {
          head = next;
          tail = if dec q.node_count == 1 then next else q.tail;
          node_count = dec q.node_count;
        }))

unfoldable pub dequeue_lifo : Queue → Cmd Nodes Queue
dequeue_lifo q =
    if q.head == null
    then pure q
    else if q.node_count == 1
    then (do
      kfree q.head
      pure (record q { head = null; tail = null; node_count = dec q.node_count }))
    else (do
      next ← get_next q.head
      set_prev next null
      kfree q.head
      pure (record q { head = next; node_count = dec q.node_count }))

unfoldable pub dequeue_priority : Queue → Cmd Nodes Queue
dequeue_priority q = if q.head == null then pure q else do
  next ← get_next q.head
  if next == null
      then (do kfree q.head; pure (record q { head = next; node_count = dec q.node_count }))
      else (do
        set_prev next null
        kfree q.head
        pure (record q {
          head = next;
          tail = if dec q.node_count == 1 then next else q.tail;
          node_count = dec q.node_count;
        }))

dequeue_mode : Mode → Queue → Cmd Nodes Queue
dequeue_mode fifo q = dequeue_fifo q
dequeue_mode lifo q = dequeue_lifo q
dequeue_mode priority_mode q = dequeue_priority q
dequeue_mode circular q = pure q
dequeue_mode double_ended q = pure q
dequeue_mode other q = pure q

unfoldable pub dequeue : Queue → Cmd Nodes Queue
unfolding dequeue_mode
dequeue q = dequeue_mode q.queue_mode q
