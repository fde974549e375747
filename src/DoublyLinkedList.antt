-- ===== src/DoublyLinkedList.antt =====
-- kernel/src/data_structures/doubly_linked_list.c: doubly linked lists of `void *`. Each operation is
-- one critical section of the list's lock. `fresh` is what `kmalloc` returns for a new node; neither
-- function that allocates checks it for null.
pub mod Heads
pub mod Tails
use dionys_os.Prelude.{
  ℕ, zero, suc, ◌+◌, ◌-◌, ◌%◌, ◌^◌, Bool, true, false, ◌&&◌, ◌==◌, if◌then◌else◌, update, Run, ok,
  panic, fault, hang, Cmd, ◌>>=◌, ◌>>◌, pure,
}

abbrev pub null : ℕ
null = 0

-- `struct doubly_linked_list_node`, field by field. A node that is not live may not be read or
-- written.
pub record Nodes : Type 0 where
  pub live : ℕ → Bool
  pub value : ℕ → ℕ
  pub next : ℕ → ℕ
  pub prev : ℕ → ℕ

pub record DoublyLinkedList : Type 0 where
  pub head : ℕ
  pub tail : ℕ
  pub node_count : ℕ

abbrev pub on_node : ℕ → (Nodes → Nodes) → Cmd Nodes (Unit {0})
on_node p f n = if n.live p then ok tt (f n) else fault

abbrev pub set_value : ℕ → ℕ → Cmd Nodes (Unit {0})
set_value p v = on_node p (λ n. record n { value = update n.value p v })

abbrev pub set_next : ℕ → ℕ → Cmd Nodes (Unit {0})
set_next p v = on_node p (λ n. record n { next = update n.next p v })

abbrev pub set_prev : ℕ → ℕ → Cmd Nodes (Unit {0})
set_prev p v = on_node p (λ n. record n { prev = update n.prev p v })

abbrev pub get : (Nodes → ℕ → ℕ) → ℕ → Cmd Nodes ℕ
get field p n = if n.live p then ok (field n p) n else fault

abbrev pub get_value : ℕ → Cmd Nodes ℕ
get_value = get (λ n. n.value)

abbrev pub get_next : ℕ → Cmd Nodes ℕ
get_next = get (λ n. n.next)

abbrev pub get_prev : ℕ → Cmd Nodes ℕ
get_prev = get (λ n. n.prev)

-- The memory of a new node keeps what was in it.
abbrev pub kmalloc : (fresh : ℕ) → Cmd Nodes (Unit {0})
kmalloc fresh n =
    ok tt (record n { live = if fresh == null then n.live else update n.live fresh true })

-- The memory of a new node is cleared.
abbrev pub kzmalloc : (fresh : ℕ) → Cmd Nodes (Unit {0})
kzmalloc fresh n = ok tt (record {
  live = if fresh == null then n.live else update n.live fresh true;
  value = update n.value fresh 0;
  next = update n.next fresh null;
  prev = update n.prev fresh null;
})

abbrev pub kfree : ℕ → Cmd Nodes (Unit {0})
kfree p n = ok tt (record n { live = update n.live p false })

-- `node_count` is a `uint64_t`.
abbrev pub inc : ℕ → ℕ
inc n = (n + 1) % 2 ^ 64

abbrev pub dec : ℕ → ℕ
dec n = (n + (2 ^ 64 - 1)) % 2 ^ 64

unfoldable pub init : DoublyLinkedList → DoublyLinkedList
init l = record { head = null; tail = null; node_count = 0 }

unfoldable pub insert_tail :
    (fresh : ℕ) → DoublyLinkedList → (value : ℕ) → Cmd Nodes DoublyLinkedList
insert_tail fresh l value = do
  kmalloc fresh
  set_value fresh value
  if l.node_count == 0
      then pure (record { head = fresh; tail = null; node_count = inc l.node_count })
      else if l.node_count == 1
      then (do
        set_next l.head fresh
        set_prev fresh l.head
        pure (record l { tail = fresh; node_count = inc l.node_count }))
      else (do
        set_next l.tail fresh
        set_prev fresh l.tail
        pure (record l { tail = fresh; node_count = inc l.node_count }))

unfoldable pub insert_head :
    (fresh : ℕ) → DoublyLinkedList → (value : ℕ) → Cmd Nodes DoublyLinkedList
insert_head fresh l value = do
  kzmalloc fresh
  set_value fresh value
  if l.node_count == 0
      then (do
        set_next fresh null
        set_prev fresh null
        pure (record { head = fresh; tail = null; node_count = inc l.node_count }))
      else (do
        set_next fresh l.head
        set_prev l.head fresh
        set_prev fresh null
        pure (record l { head = fresh; node_count = inc l.node_count }))

unfoldable pub remove_tail : DoublyLinkedList → Cmd Nodes DoublyLinkedList
remove_tail l =
    if l.node_count == 0
    then pure l
    else if l.node_count == 1
    then (do
      kfree l.head
      pure (record { head = null; tail = null; node_count = dec l.node_count }))
    else (do
      tail ← get_prev l.tail
      last ← get_next tail
      kfree last
      set_next tail null
      pure (record l { tail = tail; node_count = dec l.node_count }))

unfoldable pub remove_head : DoublyLinkedList → Cmd Nodes DoublyLinkedList
remove_head l =
    if l.node_count == 0
    then pure l
    else if l.node_count == 1
    then (do
      kfree l.head
      pure (record { head = null; tail = null; node_count = dec l.node_count }))
    else (do
      head ← get_next l.head
      first ← get_prev head
      kfree first
      set_prev head null
      pure (record l { head = head; node_count = dec l.node_count }))

unfoldable pub remove_node_by_address : DoublyLinkedList → (node : ℕ) → Cmd Nodes DoublyLinkedList
remove_node_by_address l node = do
  next ← get_next node
  prev ← get_prev node
  if (next == null) && (prev == null)
      then pure (record { head = null; tail = null; node_count = dec l.node_count })
      else if next == null
      then (do set_next prev null; pure (record l { tail = prev; node_count = dec l.node_count }))
      else if prev == null
      then (do set_prev next null; pure (record l { head = next; node_count = dec l.node_count }))
      else (do
        set_next prev next
        set_prev next prev
        pure (record l { node_count = dec l.node_count }))

-- The function panics before it does anything.
unfoldable pub remove_node_by_data_address :
    DoublyLinkedList → (value : ℕ) → Cmd Nodes DoublyLinkedList
remove_node_by_data_address l value = λ _. panic

-- The loop of `doubly_linked_list_destroy`.
unfoldable pub destroy_loop : (fuel current : ℕ) (free_data : Bool) → Cmd Nodes (Unit {0})
destroy_loop zero current free_data = λ _. hang
destroy_loop (suc k) current free_data = if current == null then pure tt else do
  next ← get_next current
  value ← get_value current
  if free_data then kfree value else pure tt
  kfree current
  destroy_loop k next free_data

-- The list header is freed too; it is no node.
unfoldable pub destroy :
    (fuel list : ℕ) → DoublyLinkedList → (free_data : Bool) → Cmd Nodes (Unit {0})
destroy fuel list l free_data = if list == null then pure tt else destroy_loop fuel l.head free_data
