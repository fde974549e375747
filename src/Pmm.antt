-- ===== src/Pmm.antt =====
-- kernel/src/memory/pmm.c: the buddy allocator of physical pages. The free blocks of a zone are in a
-- binary tree, keyed by their order; the trees share the nodes and the pool of that component. The
-- list of unused blocks is the list of its values, the latest first, and the hash table of used ones
-- is the lists of its buckets by index. Each operation is one critical section of the allocation lock.
pub mod Allocation
pub mod Rounding
pub mod Tiling
pub mod Halving
pub mod LargeRange
use dionys_os.Prelude.{
  ℕ, zero, suc, ◌+◌, ◌-◌, ◌*◌, ◌/◌, ◌%◌, ◌^◌, Bool, true, false, ltb, leb, ◌==◌, not, ◌&&◌, ◌||◌,
  if◌then◌else◌, List, [], ◌∷◌, update, Run, ok, panic, fault, hang, Cmd, ◌>>=◌, ◌>>◌, pure,
  bit_and, bit_or,
}
use dionys_os.SinglyLinkedList.Values.{Values}
use dionys_os.BinaryTree as Tree
use dionys_os.BinaryTree.Removing as Removing

abbrev pub null : ℕ
null = 0

abbrev pub page_size : ℕ
page_size = 4096

abbrev pub max_order : ℕ
max_order = 10

abbrev pub free : ℕ
free = 1

abbrev pub used : ℕ
used = 2

-- The memory of the structures `buddy_block`, field by field.
pub record Blocks : Type 0 where
  pub live : ℕ → Bool
  pub next : ℕ → ℕ
  pub zone : ℕ → ℕ
  pub start_address : ℕ → ℕ
  pub flags : ℕ → ℕ
  pub order : ℕ → ℕ
  pub is_free : ℕ → ℕ
  pub buddy_chain_length : ℕ → ℕ

-- The header of a tree.
pub record Header : Type 0 where
  pub root : ℕ
  pub node_count : ℕ
  pub mode : ℕ

pub record State : Type 0 where
  pub blocks : Blocks
  pub tree_nodes : Tree.Nodes
  pub pool_full : Bool
  pub static_pool_init : Bool
  pub buddy_free_list_zone : ℕ → Header
  pub unused_buddy_blocks_list : List ℕ
  pub used_buddy_hash_table : ℕ → Values
  pub total_allocated : ℕ

abbrev pub on_blocks : ℕ → (Blocks → Blocks) → Cmd State (Unit {0})
on_blocks p f s = if s.blocks.live p then ok tt (record s { blocks = f s.blocks }) else fault

abbrev pub read : (Blocks → ℕ → ℕ) → ℕ → Cmd State ℕ
read field p s = if s.blocks.live p then ok (field s.blocks p) s else fault

abbrev pub set_flags : ℕ → ℕ → Cmd State (Unit {0})
set_flags p v = on_blocks p (λ b. record b { flags = update b.flags p v })

-- `IN_TREE_FLAG`, `FIRST_BLOCK_FLAG` and `STATIC_POOL_FLAG`, the bits 7, 6 and 5.
abbrev pub in_tree : ℕ → Bool
in_tree flags = flags / 128 % 2 == 1

abbrev pub is_first_block : ℕ → Bool
is_first_block flags = flags / 64 % 2 == 1

abbrev pub is_static : ℕ → Bool
is_static flags = flags / 32 % 2 == 1

abbrev pub with_in_tree : ℕ → ℕ
with_in_tree flags = if in_tree flags then flags else flags + 128

abbrev pub without_in_tree : ℕ → ℕ
without_in_tree flags = if in_tree flags then flags - 128 else flags

-- The tree of a zone, as the component of binary trees sees it.
abbrev pub tree_of : State → ℕ → Tree.State
tree_of s zone = record {
  nodes = s.tree_nodes;
  root = (s.buddy_free_list_zone zone).root;
  node_count = (s.buddy_free_list_zone zone).node_count;
  mode = (s.buddy_free_list_zone zone).mode;
  pool_full = s.pool_full;
  static_pool_init = s.static_pool_init;
}

abbrev pub put_tree : ℕ → Tree.State → State → State
put_tree zone t s = record s {
  tree_nodes = t.nodes;
  pool_full = t.pool_full;
  static_pool_init = t.static_pool_init;
  buddy_free_list_zone =
      update s.buddy_free_list_zone zone
        (record { root = t.root; node_count = t.node_count; mode = t.mode });
}

abbrev pub stored : ℕ → State → Run Tree.State ℕ → Run State ℕ
stored zone s (ok a t) = ok a (put_tree zone t s)
stored zone s panic = panic
stored zone s fault = fault
stored zone s hang = hang

-- An operation on the tree of a zone.
unfoldable pub on_tree : ℕ → Cmd Tree.State ℕ → Cmd State ℕ
on_tree zone run s = stored zone s (run (tree_of s zone))

unfoldable pub is_power_of_two : ℕ → Bool
is_power_of_two x = not (x == 0) && (bit_and x (x - 1) == 0)

-- `x |= x >> n`
abbrev pub spread : ℕ → ℕ → ℕ
spread n x = bit_or x (x / 2 ^ n)

unfoldable pub next_power_of_two : ℕ → ℕ
next_power_of_two x =
    if x == 0
    then 1
    else (spread 32 (spread 16 (spread 8 (spread 4 (spread 2 (spread 1 (x - 1)))))) + 1) % 2 ^ 64

-- The second half of a block of this order, behind the block.
abbrev pub halved : (p q : ℕ) → Blocks → Blocks
halved p q b = record b {
  next = update (update b.next q (b.next p)) p q;
  order = update (update b.order p (b.order p - 1)) q (b.order p - 1);
  start_address =
      update b.start_address q ((b.start_address p + 2 ^ (b.order p - 1) * page_size) % 2 ^ 64);
  zone = update b.zone q (b.zone p);
  is_free = update b.is_free q free;
  flags = update b.flags q (with_in_tree (b.flags q));
}

-- The parameters are the nodes of the tree's pool, the addresses that the heap hands out for a tree
-- node and for a block, and the rounds that a walk through a tree gets.
module _ (pool_node : ℕ → ℕ) (heap_node heap_block rounds : ℕ) where
  unfoldable pub insert_in_zone : (zone block order : ℕ) → Cmd State ℕ
  unfolding on_tree
  insert_in_zone zone block order =
      on_tree zone (Tree.insert_tree_node pool_node heap_node rounds block order)

  unfoldable pub remove_from_zone : (zone order block : ℕ) → Cmd State ℕ
  unfolding on_tree
  remove_from_zone zone order block =
      on_tree zone (Removing.remove_tree_node rounds order block null)

  unfoldable pub look_up_zone : (zone order : ℕ) → Cmd State ℕ
  unfolding on_tree
  look_up_zone zone order = on_tree zone (Removing.lookup_tree rounds order 1)

  -- A block from the list of unused ones, or an entry of the heap, which it has cleared.
  unfoldable pub buddy_block_get : Cmd State ℕ
  buddy_block_get s = elim s.unused_buddy_blocks_list [
    | [] ↦
        (let b = s.blocks in
          ok heap_block (record s {
            blocks = record {
              live = update b.live heap_block true;
              next = update b.next heap_block 0;
              zone = update b.zone heap_block 0;
              start_address = update b.start_address heap_block 0;
              flags = update b.flags heap_block 0;
              order = update b.order heap_block 0;
              is_free = update b.is_free heap_block 0;
              buddy_chain_length = update b.buddy_chain_length heap_block 0;
            };
          }))
    | p ∷ ps ↦ ok p (record s { unused_buddy_blocks_list = ps })
  ]

  -- `UNUSED` is cut to the width of each field.
  unfoldable pub buddy_block_free : ℕ → Cmd State (Unit {0})
  unfolding remove_from_zone
  buddy_block_free p = do
    f ← read (λ b. b.flags) p
    z ← read (λ b. b.zone) p
    k ← read (λ b. b.order) p
    status ← (if in_tree f then remove_from_zone z k p else pure 0)
    if is_static f
        then (do
          on_blocks p (λ b. record b {
            is_free = update b.is_free p 255;
            order = update b.order p 255;
            zone = update b.zone p (2 ^ 64 - 1);
            start_address = update b.start_address p 0;
            next = update b.next p null;
            flags = update b.flags p 32;
            buddy_chain_length = update b.buddy_chain_length p 0;
          })
          (λ s. ok tt (record s { unused_buddy_blocks_list = p ∷ s.unused_buddy_blocks_list })))
        else on_blocks p (λ b. record b { live = update b.live p false })

  unfoldable pub buddy_split : ℕ → Cmd State ℕ
  unfolding buddy_block_get insert_in_zone remove_from_zone
  buddy_split p = do
    f ← read (λ b. b.flags) p
    z ← read (λ b. b.zone) p
    k ← read (λ b. b.order) p
    (if in_tree f
        then (do status ← remove_from_zone z k p; set_flags p (without_in_tree f))
        else pure tt)
    u ← read (λ b. b.is_free) p
    if ltb max_order k || (k == 0) then (λ _. panic) else if u == used then pure null else (do
      q ← buddy_block_get
      if q == null then pure null else (do
        on_blocks q (halved p q)
        status ← insert_in_zone z q (k - 1)
        if status == Tree.kern_success then pure p else (λ _. panic)))
