-- ===== src/BinaryTree.antt =====
-- kernel/src/data_structures/binary_tree.c and binary_tree.h: binary search trees whose nodes hold a
-- bucket of values, and come from a static pool or the kernel heap. A bucket is a singly linked list
-- as its values. Each operation is one critical section of the tree's lock.
pub mod Removing
pub mod Shape
pub mod Search
pub mod Insertion
pub mod Preservation
pub mod Lookup
pub mod Taking
pub mod Removal
pub mod Walking
use dionys_os.Prelude.{
  ℕ, zero, suc, ◌+◌, ◌-◌, ◌/◌, ◌%◌, ◌^◌, Bool, true, false, ltb, ◌==◌, not, if◌then◌else◌, List, [],
  ◌∷◌, ◌++◌, length, update, Run, ok, panic, fault, hang, Cmd, ◌>>=◌, ◌>>◌, pure, ◌&&◌,
}
use dionys_os.SinglyLinkedList.Values.{Values, sound, insert_last, or_fault}

abbrev pub null : ℕ
null = 0

-- The memory of the nodes, field by field. A node that is not live may not be read or written.
pub record Nodes : Type 0 where
  pub live : ℕ → Bool
  pub parent : ℕ → ℕ
  pub left : ℕ → ℕ
  pub right : ℕ → ℕ
  pub key : ℕ → ℕ
  pub bucket : ℕ → Values
  pub flags : ℕ → ℕ
  pub index : ℕ → ℕ

-- `struct binary_tree`, and the statics of the file.
pub record State : Type 0 where
  pub nodes : Nodes
  pub root : ℕ
  pub node_count : ℕ
  pub mode : ℕ
  pub pool_full : Bool
  pub static_pool_init : Bool

abbrev pub on_nodes : ℕ → (Nodes → Nodes) → Cmd State (Unit {0})
on_nodes p f s = if s.nodes.live p then ok tt (record s { nodes = f s.nodes }) else fault

abbrev pub read {ℓ} : {A : Type ℓ} → (Nodes → ℕ → A) → ℕ → Cmd State A
read field p s = if s.nodes.live p then ok (field s.nodes p) s else fault

abbrev pub get_root : Cmd State ℕ
get_root s = ok s.root s

abbrev pub set_root : ℕ → Cmd State (Unit {0})
set_root p s = ok tt (record s { root = p })

abbrev pub set_parent : ℕ → ℕ → Cmd State (Unit {0})
set_parent p v = on_nodes p (λ n. record n { parent = update n.parent p v })

abbrev pub set_left : ℕ → ℕ → Cmd State (Unit {0})
set_left p v = on_nodes p (λ n. record n { left = update n.left p v })

abbrev pub set_right : ℕ → ℕ → Cmd State (Unit {0})
set_right p v = on_nodes p (λ n. record n { right = update n.right p v })

abbrev pub set_bucket : ℕ → Values → Cmd State (Unit {0})
set_bucket p v = on_nodes p (λ n. record n { bucket = update n.bucket p v })

abbrev pub set_node_count : (ℕ → ℕ) → Cmd State (Unit {0})
set_node_count f s = ok tt (record s { node_count = f s.node_count })

abbrev pub kern_success : ℕ
kern_success = 0

abbrev pub value_not_found : ℕ
value_not_found = 2

abbrev pub bad_tree_mode : ℕ
bad_tree_mode = 3871

abbrev pub static_pool_size : ℕ
static_pool_size = 100

-- `flags & BINARY_TREE_NODE_STATIC_POOL`
abbrev pub is_static : ℕ → Bool
is_static flags = flags % 2 == 1

-- `flags & BINARY_TREE_NODE_FREE`
abbrev pub is_free : ℕ → Bool
is_free flags = flags / 2 % 2 == 1

-- The marking of the static pool, at the first use.
unfoldable pub mark_pool : (pool_node : ℕ → ℕ) (left i : ℕ) → Cmd State (Unit {0})
mark_pool pool_node zero i = pure tt
mark_pool pool_node (suc left) i = do
  on_nodes (pool_node i) (λ n. record n { flags = update n.flags (pool_node i) 3 })
  mark_pool pool_node left (i + 1)

-- `REGULAR_TREE` is 1. A red-black tree, 2, colours its null root, which is a write through null.
unfoldable pub init_tree : (pool_node : ℕ → ℕ) (mode : ℕ) → Cmd State ℕ
init_tree pool_node mode s =
    let setup : Cmd State (Unit {0}) = λ t.
      if t.static_pool_init
      then ok tt t
      else ((mark_pool pool_node static_pool_size 0
            >> (λ u. ok tt (record u { static_pool_init = true })))
          t) in
    (setup >> (λ t.
        if mode == 1
        then ok kern_success (record t { mode = mode; node_count = 0; root = null })
        else if mode == 2
        then (if t.nodes.live t.root
            then ok kern_success (record t { mode = mode; node_count = 0 })
            else fault)
        else ok bad_tree_mode t))
      s

-- A node from the heap: `heap` is the address that the heap hands out, of an entry it has cleared.
abbrev pub from_heap : ℕ → Cmd State ℕ
from_heap heap s =
    let n = s.nodes in
    ok heap (record s {
      nodes = record {
        live = update n.live heap true;
        parent = update n.parent heap null;
        left = update n.left heap null;
        right = update n.right heap null;
        key = update n.key heap 0;
        bucket = update n.bucket heap (sound []);
        flags = update n.flags heap 0;
        index = update n.index heap 0;
      };
    })

module _ (pool_node : ℕ → ℕ) (heap : ℕ) where
  -- The scan of the pool from `i` on.
  unfoldable pub node_alloc_scan : (left i : ℕ) → Cmd State ℕ
  node_alloc_scan zero i = λ s. from_heap heap (record s { pool_full = true })
  node_alloc_scan (suc left) i = do
    let p = pool_node i
    f ← read (λ n. n.flags) p
    if is_free f
        then (do
          on_nodes p
              (λ n. record n { flags = update n.flags p (f - 2); index = update n.index p i })
          pure p)
        else node_alloc_scan left (i + 1)

  unfoldable pub node_alloc : Cmd State ℕ
  unfolding node_alloc_scan
  node_alloc s = if s.pool_full then from_heap heap s else node_alloc_scan static_pool_size 0 s

  -- `NODE_ALLOC`, the initialisation of the bucket, and the key, cut to 32 bits.
  unfoldable pub new_node : (value key : ℕ) → Cmd State ℕ
  unfolding node_alloc
  new_node value key = do
    q ← node_alloc
    on_nodes q (λ n. record n {
      bucket = update n.bucket q (sound (value ∷ []));
      key = update n.key q (key % 2 ^ 32);
    })
    pure q

  unfoldable pub attach :
      (set_child : ℕ → ℕ → Cmd State (Unit {0})) (current value key : ℕ) → Cmd State ℕ
  unfolding new_node
  attach set_child current value key = do
    q ← new_node value key
    set_child current q
    set_parent q current
    set_node_count (λ c. (c + 1) % 2 ^ 64)
    pure kern_success

  -- `singly_linked_list_insert_tail` into the bucket of `current`.
  unfoldable pub insert_bucket : (current value : ℕ) → Cmd State ℕ
  unfolding insert_last
  insert_bucket current value = do
    values ← read (λ n. n.bucket) current
    longer ← or_fault (insert_last value values)
    set_bucket current longer
    pure kern_success

  unfoldable pub insert_loop : (fuel current value key : ℕ) → Cmd State ℕ
  unfolding attach insert_bucket
  insert_loop zero current value key = λ _. hang
  insert_loop (suc fuel) current value key = do
    k ← read (λ n. n.key) current
    if key == k
        then insert_bucket current value
        else if ltb key k
        then (do
          l ← read (λ n. n.left) current
          if l == null then attach set_left current value key else insert_loop fuel l value key)
        else (do
          r ← read (λ n. n.right) current
          if r == null then attach set_right current value key else insert_loop fuel r value key)

  unfoldable pub insert_binary_tree : (fuel value key : ℕ) → Cmd State ℕ
  unfolding insert_loop new_node
  insert_binary_tree fuel value key = do
    current ← get_root
    if current == null
        then (do
          q ← new_node value key
          set_root q
          set_parent q null
          set_node_count (λ c. (c + 1) % 2 ^ 64)
          pure kern_success)
        else insert_loop fuel current value key

  -- `insert_tree_node`. The red-black variant has no body and returns nothing of meaning: a fault.
  unfoldable pub insert_tree_node : (fuel value key : ℕ) → Cmd State ℕ
  unfolding insert_binary_tree
  insert_tree_node fuel value key s =
      if s.mode == 1
      then insert_binary_tree fuel value key s
      else if s.mode == 2
      then fault
      else ok bad_tree_mode s
