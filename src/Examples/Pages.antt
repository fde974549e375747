-- ===== src/Examples/Pages.antt =====
-- The buddy allocator on concrete blocks.
use dionys_os.Prelude.{
  ℕ, ◌+◌, ◌*◌, ◌^◌, ◌≤◌, ◌<◌, ◌≡◌, ◌==◌, if◌then◌else◌, true, arith, refl, ok, [], ◌∷◌, Run,
}
use dionys_os.BinaryTree as Tree
use dionys_os.BinaryTree.Removing as Removing
use dionys_os.Pmm.{State, Blocks, next_power_of_two, buddy_split, in_tree, tree_of}
use dionys_os.Pmm.Allocation.{buddy_coalesce}
use dionys_os.Pmm.Rounding.{next_power_of_two-least}
use dionys_os.Pmm.Tiling.{Tiles}
use dionys_os.Pmm.Halving.{
  split_state, buddy_split-Tiles, released_state, joined_state, buddy_coalesce-Tiles,
}
use dionys_os.SinglyLinkedList.Values.{sound, remove_by_address, remove_first}

next_power_of_two-least_example :
    (k : ℕ) × (next_power_of_two 300 ≡ 2 ^ k) × (k ≤ 10) × (300 ≤ 2 ^ k) × (2 ^ k < 2 * 300)
next_power_of_two-least_example = next_power_of_two-least 300 (omega arith) (omega arith)

abbrev pool_node : ℕ → ℕ
pool_node i = 1000 + 64 * i

-- Nodes of trees: one at 300, for the order 0, which holds the block 164.
abbrev tree_nodes : Tree.Nodes
tree_nodes = record {
  live = λ b. b == 300;
  parent = λ b. 0;
  left = λ b. 0;
  right = λ b. 0;
  key = λ b. 0;
  bucket = λ b. sound (164 ∷ []);
  flags = λ b. 0;
  index = λ b. 0;
}

-- The blocks 100 and 164 side by side, of order `order`; the second one has the given state.
abbrev two_blocks : (order flags is_free : ℕ) → Blocks
two_blocks order flags is_free = record {
  live = λ b. true;
  next = λ b. if b == 100 then 164 else 0;
  zone = λ b. 0;
  start_address = λ b. if b == 100 then 8192 else 12288;
  flags = λ b. if b == 100 then 32 else flags;
  order = λ b. order;
  is_free = λ b. if b == 100 then 1 else is_free;
  buddy_chain_length = λ b. 0;
}

abbrev state : Blocks → (root : ℕ) → State
state blocks root = record {
  blocks = blocks;
  tree_nodes = tree_nodes;
  pool_full = true;
  static_pool_init = true;
  buddy_free_list_zone = λ z. record { root = root; node_count = 0; mode = 1 };
  unused_buddy_blocks_list = 228 ∷ [];
  used_buddy_hash_table = λ h. sound (100 ∷ []);
  total_allocated = 1;
}

abbrev left_by : Run Tree.State ℕ → Tree.State → Tree.State
left_by (ok a t) other = t
left_by _ other = other

-- A block of two pages, and no tree.
abbrev whole : State
whole = state (two_blocks 1 160 2) 0

abbrev after_split : Tree.State
unfolding Tree.insert_tree_node Tree.insert_binary_tree Tree.new_node Tree.node_alloc
after_split =
    left_by (Tree.insert_tree_node pool_node 400 9 228 0 (tree_of whole 0)) (tree_of whole 0)

split_insert : Tree.insert_tree_node pool_node 400 9 228 0 (tree_of whole 0) ≡ ok 0 after_split
unfolding after_split Tree.insert_tree_node Tree.insert_binary_tree Tree.new_node Tree.node_alloc
split_insert = refl

buddy_split-Tiles_example :
    (buddy_split pool_node 400 500 9 100 whole
      ≡ ok 100 (split_state pool_node 400 500 9 whole 100 228 0 8192 164 16384 [] [] after_split))
    × Tiles
        (split_state pool_node 400 500 9 whole 100 228 0 8192 164 16384 [] [] after_split).blocks
        100
        8192
        ((100, 0) ∷ (228, 0) ∷ [])
        164
        16384
    × (in_tree (
          (split_state pool_node 400 500 9 whole 100 228 0 8192 164 16384 [] []
              after_split).blocks.flags
            228)
        ≡ true)
buddy_split-Tiles_example =
    buddy_split-Tiles pool_node 400 500 9 whole 100 228 0 8192 164 16384 [] [] after_split
      (refl, refl, refl, refl, (refl, refl)) (omega arith) (omega arith) refl
      (λ e. omega (arith, e)) refl refl (λ e. omega (arith, e)) (λ e. omega (arith, e)) refl refl
      split_insert

-- Two free halves, the second one in the tree of its order.
abbrev halves : State
halves = state (two_blocks 0 160 1) 300

abbrev after_removal : Tree.State
unfolding Removing.remove_tree_node Removing.remove_binary_tree Removing.remove_from_bucket
    remove_by_address remove_first
after_removal = left_by (Removing.remove_tree_node 9 0 164 0 (tree_of halves 0)) (tree_of halves 0)

removal : Removing.remove_tree_node 9 0 164 0 (tree_of halves 0) ≡ ok 0 after_removal
unfolding after_removal Removing.remove_tree_node Removing.remove_binary_tree
    Removing.remove_from_bucket remove_by_address remove_first
removal = refl

abbrev released : State
released =
    released_state pool_node 400 500 9 halves 100 164 0 8192 0 16384 [] after_removal after_removal

abbrev after_return : Tree.State
unfolding Tree.insert_tree_node Tree.insert_binary_tree Tree.insert_loop Tree.attach Tree.new_node
    Tree.node_alloc after_removal
after_return =
    left_by (Tree.insert_tree_node pool_node 400 9 100 1 (tree_of released 0)) (tree_of released 0)

return : Tree.insert_tree_node pool_node 400 9 100 1 (tree_of released 0) ≡ ok 0 after_return
unfolding after_return Tree.insert_tree_node Tree.insert_binary_tree Tree.insert_loop Tree.attach
    Tree.new_node Tree.node_alloc after_removal
return = refl

abbrev joined_halves : State
joined_halves =
    joined_state pool_node 400 500 9 halves 100 164 0 8192 0 16384 [] after_removal after_return

buddy_coalesce-Tiles_example :
    (buddy_coalesce pool_node 400 500 9 100 halves ≡ ok tt joined_halves)
    × Tiles joined_halves.blocks 100 8192 ((100, 1) ∷ []) 0 16384
buddy_coalesce-Tiles_example =
    buddy_coalesce-Tiles pool_node 400 500 9 halves 100 164 0 8192 0 16384 [] after_removal
      after_return 0 0 (refl, refl, refl, refl, (refl, refl, refl, refl, (refl, refl)))
      (omega arith) (λ e. omega (arith, e)) (λ e. omega (arith, e)) (λ e. omega (arith, e)) refl
      refl refl refl refl refl refl refl removal return
