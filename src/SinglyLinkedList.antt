-- ===== src/SinglyLinkedList.antt =====
-- kernel/src/data_structures/singly_linked_list.c: lists of `void *` whose nodes come from a static
-- pool, and from the kernel heap when the pool is empty. Each operation is one critical section of
-- the list's lock. A list header is passed in and returned; the nodes and the pool are the state.
pub mod Layout
pub mod Allocation
pub mod Insertion
pub mod Appending
pub mod Values
pub mod Extraction
use dionys_os.Prelude.{
  ℕ, zero, suc, ◌+◌, ◌-◌, ◌*◌, ◌/◌, ◌%◌, Bool, true, false, ◌&&◌, ◌||◌, ltb, ◌==◌, if◌then◌else◌,
  update, Run, ok, panic, fault, hang, Cmd, ◌>>=◌, ◌>>◌, pure,
}

abbrev pub null : ℕ
null = 0

-- The memory of the nodes, field by field. A node that is not live may not be read or written.
pub record Nodes : Type 0 where
  pub live : ℕ → Bool
  pub value : ℕ → ℕ
  pub next : ℕ → ℕ
  pub flags : ℕ → ℕ

pub record SinglyLinkedList : Type 0 where
  pub head : ℕ
  pub tail : ℕ
  pub node_count : ℕ
  pub list_flags : ℕ

pub record State : Type 0 where
  pub nodes : Nodes
  pub free_nodes : SinglyLinkedList
  pub static_pool_setup : Bool

abbrev pub on_nodes : ℕ → (Nodes → Nodes) → Cmd State (Unit {0})
on_nodes p f s = if s.nodes.live p then ok tt (record s { nodes = f s.nodes }) else fault

abbrev pub set_value : ℕ → ℕ → Cmd State (Unit {0})
set_value p v = on_nodes p (λ n. record n { value = update n.value p v })

abbrev pub set_next : ℕ → ℕ → Cmd State (Unit {0})
set_next p v = on_nodes p (λ n. record n { next = update n.next p v })

abbrev pub set_flags : ℕ → ℕ → Cmd State (Unit {0})
set_flags p v = on_nodes p (λ n. record n { flags = update n.flags p v })

abbrev pub get_value : ℕ → Cmd State ℕ
get_value p s = if s.nodes.live p then ok (s.nodes.value p) s else fault

abbrev pub get_next : ℕ → Cmd State ℕ
get_next p s = if s.nodes.live p then ok (s.nodes.next p) s else fault

abbrev pub get_flags : ℕ → Cmd State ℕ
get_flags p s = if s.nodes.live p then ok (s.nodes.flags p) s else fault

abbrev pub get_free_nodes : Cmd State SinglyLinkedList
get_free_nodes s = ok s.free_nodes s

abbrev pub put_free_nodes : SinglyLinkedList → Cmd State (Unit {0})
put_free_nodes l s = ok tt (record s { free_nodes = l })

-- `_kalloc` returns `fresh`, or null; `_kfree` ends the life of a node.
abbrev pub kalloc : ℕ → Cmd State ℕ
kalloc fresh s =
    if fresh == null
    then ok null s
    else ok fresh (record s { nodes = record s.nodes { live = update s.nodes.live fresh true } })

abbrev pub kfree : ℕ → Cmd State (Unit {0})
kfree p s = ok tt (record s { nodes = record s.nodes { live = update s.nodes.live p false } })

-- LIST_FLAG_FREE_NODES, STATIC_POOL_NODE and STATIC_POOL_FREE_NODE are 16, 4 and 8.
abbrev pub holds_free_nodes : SinglyLinkedList → Bool
holds_free_nodes l = (l.list_flags / 16) % 2 == 1

abbrev pub is_static : ℕ → Bool
is_static flags = (flags / 4) % 2 == 1

abbrev pub clear_free : ℕ → ℕ
clear_free flags = flags - 8 * ((flags / 8) % 2)

abbrev pub header : (head tail node_count list_flags : ℕ) → SinglyLinkedList
header h t n f = record { head = h; tail = t; node_count = n; list_flags = f }

-- `singly_linked_list_insert_head` from the point where the new node is known.
unfoldable pub insert_head_node : SinglyLinkedList → (new value : ℕ) → Cmd State SinglyLinkedList
insert_head_node l new value =
    if new == null
    then (λ _. panic)
    else if l.node_count == 0
    then (do
      set_value new value
      set_next new null
      pure (record l { head = new; tail = null; node_count = l.node_count + 1 }))
    else if l.node_count == 1
    then (do
      set_value new value
      set_value new value
      set_next new l.head
      tail ← get_next new
      set_next tail null
      pure (record l { head = new; tail = tail; node_count = l.node_count + 1 }))
    else (do
      set_value new value
      set_value new value
      set_next new l.head
      pure (record l { head = new; node_count = l.node_count + 1 }))

-- `singly_linked_list_remove_head` on a list that holds free nodes.
unfoldable pub remove_head_free : SinglyLinkedList → Cmd State (ℕ × SinglyLinkedList)
remove_head_free l = if l.node_count == 0 || l.head == null then pure (null, l) else (do
  value ← get_value l.head
  next ← get_next l.head
  pure (value, record l { head = next; node_count = l.node_count - 1 }))

unfoldable pub node_alloc : (fresh : ℕ) → Cmd State ℕ
unfolding remove_head_free
node_alloc fresh = do
  free ← get_free_nodes
  (pooled, free') ← remove_head_free free
  put_free_nodes free'
  new ← (if pooled == null then kalloc fresh else pure pooled)
  flags ← get_flags new
  set_flags new (clear_free flags)
  set_value new null
  pure new

unfoldable pub node_free : ℕ → Cmd State (Unit {0})
unfolding insert_head_node
node_free p = do
  flags ← get_flags p
  if is_static flags
      then (do
        set_flags p (clear_free flags)
        set_value p null
        set_next p null
        free ← get_free_nodes
        free' ← insert_head_node free p p
        put_free_nodes free')
      else (do set_value p 0; set_next p 0; set_flags p 0; kfree p)

-- A list of free nodes takes the node itself as its data.
unfoldable pub insert_head :
    (fresh : ℕ) → SinglyLinkedList → (value : ℕ) → Cmd State SinglyLinkedList
unfolding insert_head_node node_alloc
insert_head fresh l value = do
  new ← (if holds_free_nodes l then pure value else node_alloc fresh)
  insert_head_node l new value

unfoldable pub insert_tail :
    (fresh : ℕ) → SinglyLinkedList → (value : ℕ) → Cmd State SinglyLinkedList
unfolding node_alloc
insert_tail fresh l value = do
  new ← (if holds_free_nodes l then pure value else node_alloc fresh)
  if new == null then (λ _. panic) else do
    set_value new value
    set_next new null
    if l.tail == null && l.node_count == 1
        then (do set_next l.head new; pure (record l { tail = new; node_count = l.node_count + 1 }))
        else (do set_next l.tail new; pure (record l { tail = new; node_count = l.node_count + 1 }))

unfoldable pub remove_head : SinglyLinkedList → Cmd State (ℕ × SinglyLinkedList)
unfolding remove_head_free
remove_head l =
    if holds_free_nodes l
    then remove_head_free l
    else if l.node_count == 0 || l.head == null
    then pure (null, l)
    else if l.node_count == 1
    then (do
      value ← get_value l.head
      node_free l.head
      pure (value, record l { head = null; tail = null; node_count = l.node_count - 1 }))
    else if l.node_count == 2
    then (do
      value ← get_value l.head
      set_next l.tail null
      set_next l.head null
      node_free l.head
      pure (value, record l { head = l.tail; tail = null; node_count = l.node_count - 1 }))
    else (do
      value ← get_value l.head
      next ← get_next l.head
      node_free l.head
      pure (value, record l { head = next; node_count = l.node_count - 1 }))

-- The walk of `singly_linked_list_remove_tail`; it returns the new tail.
tail_walk : (fuel node tail : ℕ) → Cmd State ℕ
tail_walk zero node tail = λ _. hang
tail_walk (suc k) node tail = if node == null then pure tail else do
  next ← get_next node
  if next == tail
      then (do set_next node null; next' ← get_next node; tail_walk k next' node)
      else tail_walk k next tail

-- With no tail and more than one node the value that the function returns is not set: a fault.
unfoldable pub remove_tail : SinglyLinkedList → Cmd State (ℕ × SinglyLinkedList)
unfolding tail_walk
remove_tail l =
    if l.node_count == 0
    then pure (null, l)
    else if l.node_count == 1
    then (do
      value ← get_value l.head
      set_next l.head null
      node_free l.head
      pure (value, record l { head = null; tail = null; node_count = l.node_count - 1 }))
    else (do
      value ← get_value l.tail
      tail ← tail_walk (l.node_count + 1) l.head l.tail
      set_next l.tail null
      node_free l.tail
      pure (value, record l { tail = tail; node_count = l.node_count - 1 }))

-- KERN_SUCCESS and NODE_NOT_FOUND.
pub data Removal : Type 0 where
  removed : Removal
  not_found : Removal

remove_walk : (fuel prev node value : ℕ) → SinglyLinkedList → Cmd State (Removal × SinglyLinkedList)
remove_walk zero prev node value l = λ _. hang
remove_walk (suc k) prev node value l = if node == null then pure (not_found, l) else do
  v ← get_value node
  if v == value
      then (do
        next ← get_next node
        set_next prev next
        node_free node
        pure (removed, record l { node_count = l.node_count - 1 }))
      else (do
        next ← get_next node
        next_prev ← get_next prev
        remove_walk k next_prev next value l)

unfoldable pub remove_node_by_address :
    SinglyLinkedList → (value : ℕ) → Cmd State (Removal × SinglyLinkedList)
unfolding remove_head remove_walk
remove_node_by_address l value = do
  v ← get_value l.head
  if v == value
      then (do (_, l') ← remove_head l; pure (removed, l'))
      else (do next ← get_next l.head; remove_walk (l.node_count + 1) l.head next value l)

destroy_loop : (rounds pointer : ℕ) → Cmd State (Unit {0})
destroy_loop zero pointer = pure tt
destroy_loop (suc n) pointer =
    if pointer == null
    then pure tt
    else do next ← get_next pointer; node_free pointer; destroy_loop n next

unfoldable pub destroy : SinglyLinkedList → Cmd State (Unit {0})
unfolding destroy_loop
destroy l = destroy_loop l.node_count l.head

-- The first `n` nodes of the static pool at `pool`, from the `i`th on, become free nodes. A node is
-- 32 bytes.
setup_pool : (pool n i : ℕ) → SinglyLinkedList → Cmd State SinglyLinkedList
unfolding insert_head_node
setup_pool pool zero i free = pure free
setup_pool pool (suc n) i free = do
  flags ← get_flags (pool + 32 * i)
  set_flags (pool + 32 * i) (if is_static flags then flags else flags + 4)
  flags' ← get_flags (pool + 32 * i)
  set_flags (pool + 32 * i) (if (flags' / 8) % 2 == 1 then flags' else flags' + 8)
  free' ← insert_head_node free (pool + 32 * i) (pool + 32 * i)
  setup_pool pool n (i + 1) free'

-- `pool_size` is SINGLY_LINKED_LIST_NODE_STATIC_POOL_SIZE, 80000.
unfoldable pub init : (pool pool_size : ℕ) → (list_flags : ℕ) → Cmd State SinglyLinkedList
unfolding setup_pool
init pool pool_size list_flags s =
    (if s.static_pool_setup then pure (header null null 0 list_flags) else (do
      free ← setup_pool pool pool_size 0 (header null null 0 16)
      put_free_nodes free
      pure (header null null 0 list_flags)))
      (record s { static_pool_setup = true })
