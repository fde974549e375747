-- ===== src/Pmm/Halving.antt =====
-- Runs of the splitting and the coalescing of blocks.
use dionys_os.Prelude.{
  not_eq, ℕ, suc, ◌+◌, ◌-◌, ◌^◌, ◌≤◌, ◌<◌, ◌≡◌, ◌≢◌, Bool, true, false, ltb, ◌==◌, ◌&&◌, ◌||◌,
  arith, refl, sym, ap, ◌∙◌, ok, List, ◌∷◌, update, update_same, update_other, not,
}
use dionys_os.BinaryTree as Tree
use dionys_os.BinaryTree.Removing as Removing
use dionys_os.Pmm.{
  State, Blocks, null, used, free, max_order, in_tree, is_static, is_first_block, with_in_tree,
  halved, put_tree, tree_of, insert_in_zone, remove_from_zone, buddy_block_get, buddy_block_free,
  buddy_split, on_tree,
}
use dionys_os.Pmm.Allocation.{joined, return_to_tree, buddy_coalesce}
use dionys_os.Pmm.Tiling.{Cells, within, Tiles, Tiles-halved, Tiles-joined, Tiles-frame}

splittable :
    {order k : ℕ} → order ≡ suc k → suc k ≤ max_order → (ltb max_order order || order == 0) ≡ false
splittable e h = ground (arith, e, h)

joinable :
    {order k n : ℕ}
    → order ≡ k
    → k < max_order
    → n ≢ null
    → (n == null || order == max_order) ≡ false
joinable e h ne = ground (arith, e, h, ne)

mergeable :
    {order order' p_free n_free zone zone' : ℕ} {first : Bool}
    → order ≡ order'
    → p_free ≡ free
    → n_free ≡ free
    → zone ≡ zone'
    → first ≡ false
    → ((order == order') && (p_free == free) && (n_free == free) && (zone == zone') && not first)
      ≡ true
mergeable a b c d e = ground (arith, a, b, c, d, e)

in_tree-with_in_tree : (flags : ℕ) → in_tree (with_in_tree flags) ≡ true
in_tree-with_in_tree flags = ground arith

module _ (pool_node : ℕ → ℕ) (heap_node heap_block rounds : ℕ) where
  module _ (s : State) (p q k address last stop : ℕ) (cs : Cells) (rest : List ℕ)
      (t : Tree.State) where
    -- The state after the split.
    abbrev pub split_state : State
    split_state =
        put_tree (s.blocks.zone p) t
          (record s { blocks = halved p q s.blocks; unused_buddy_blocks_list = rest })

    -- For a chain of blocks that lie side by side below 2 ^ 64 and starts with a block p of an
    -- order k + 1 of at most 10 that is in no tree and not used, when the list of unused blocks
    -- starts with a live block q, which is neither null nor in the chain, and its insertion into
    -- the tree of the zone succeeds, a split of p returns p, after which the chain covers the
    -- same addresses with p and q, both of order k, in front of the other blocks, and q is marked
    -- as in a tree.
    pub buddy_split-Tiles :
        Tiles s.blocks p address ((p, suc k) ∷ cs) last stop
        → stop < 2 ^ 64
        → suc k ≤ max_order
        → in_tree (s.blocks.flags p) ≡ false
        → s.blocks.is_free p ≢ used
        → s.unused_buddy_blocks_list ≡ q ∷ rest
        → s.blocks.live q ≡ true
        → q ≢ null
        → q ≢ p
        → within cs p ≡ false
        → within cs q ≡ false
        → Tree.insert_tree_node pool_node heap_node rounds q
            (s.blocks.order p - 1)
            (tree_of s (s.blocks.zone p))
          ≡ ok 0 t
        → (buddy_split pool_node heap_node heap_block rounds p s ≡ ok p split_state)
          × Tiles split_state.blocks p address ((p, k) ∷ (q, k) ∷ cs) last stop
          × (in_tree (split_state.blocks.flags q) ≡ true)
    unfolding buddy_split buddy_block_get insert_in_zone on_tree
    buddy_split-Tiles is fits small outside available unused live_q not_null apart p_out q_out
          inserts =
        (
          rw
              (
                is.1,
                is.1,
                is.1,
                outside,
                is.1,
                splittable is.3 small,
                not_eq available,
                unused,
                not_eq not_null,
                live_q,
                inserts,
              )
              refl,
          Tiles-halved s.blocks p q k address last stop cs is live_q apart p_out q_out fits,
          ap in_tree (update_same s.blocks.flags q (with_in_tree (s.blocks.flags q)))
              ∙ in_tree-with_in_tree (s.blocks.flags q),
        )

  -- A block goes back into the tree of its zone.
  return_to_tree-put :
      (s : State) (p : ℕ) (t : Tree.State) (status : ℕ)
      → s.blocks.live p ≡ true
      → Tree.insert_tree_node pool_node heap_node rounds p
          (s.blocks.order p)
          (tree_of s (s.blocks.zone p))
        ≡ ok status t
      → return_to_tree pool_node heap_node heap_block rounds p s
        ≡ ok tt (
            put_tree (s.blocks.zone p) t (record s {
              blocks = record s.blocks {
                flags = update s.blocks.flags p (with_in_tree (s.blocks.flags p));
              };
            }))
  unfolding return_to_tree insert_in_zone on_tree
  return_to_tree-put s p t status live inserts = rw (live, live, live, live, inserts) refl

  -- The fields of a block that is given back to the pool.
  abbrev cleared : (n : ℕ) → Blocks → Blocks
  cleared n b = record b {
    is_free = update b.is_free n 255;
    order = update b.order n 255;
    zone = update b.zone n (2 ^ 64 - 1);
    start_address = update b.start_address n 0;
    next = update b.next n null;
    flags = update b.flags n 32;
    buddy_chain_length = update b.buddy_chain_length n 0;
  }

  -- A static block that is in its tree goes back to the unused ones.
  buddy_block_free-pooled :
      (s : State) (n : ℕ) (t : Tree.State) (status : ℕ)
      → s.blocks.live n ≡ true
      → in_tree (s.blocks.flags n) ≡ true
      → is_static (s.blocks.flags n) ≡ true
      → Removing.remove_tree_node rounds (s.blocks.order n) n null (tree_of s (s.blocks.zone n))
        ≡ ok status t
      → buddy_block_free pool_node heap_node heap_block rounds n s
        ≡ ok tt (record (put_tree (s.blocks.zone n) t s) {
          blocks = cleared n s.blocks;
          unused_buddy_blocks_list = n ∷ s.unused_buddy_blocks_list;
        })
  unfolding buddy_block_free remove_from_zone on_tree
  buddy_block_free-pooled s n t status live inside static removes =
      rw (live, live, live, inside, removes, static, live) refl

  module _ (s : State) (p n k address last stop : ℕ) (cs : Cells) (t u : Tree.State) where
    -- The other half has left the chain and its tree.
    abbrev pub released_state : State
    released_state = record (put_tree (s.blocks.zone n) t s) {
      blocks = cleared n (joined p n s.blocks);
      unused_buddy_blocks_list = n ∷ s.unused_buddy_blocks_list;
    }

    abbrev pub joined_state : State
    joined_state = put_tree (released_state.blocks.zone p) u (record released_state {
      blocks = record released_state.blocks {
        flags = update released_state.blocks.flags p (with_in_tree (released_state.blocks.flags p));
      };
    })

    -- For a chain of blocks that lie side by side and starts with two free blocks p and n of one
    -- order k below 10 and of one zone, neither of them null, where n is a static block in the
    -- tree of its zone and not the first of an area, when the removal of n from the tree and the
    -- insertion of p into it return, coalescing p succeeds, after which the chain covers the same
    -- addresses with p, of order k + 1, in front of the other blocks.
    pub buddy_coalesce-Tiles :
        (status status' : ℕ)
        → Tiles s.blocks p address ((p, k) ∷ (n, k) ∷ cs) last stop
        → k < max_order
        → p ≢ null
        → n ≢ null
        → n ≢ p
        → within cs p ≡ false
        → within cs n ≡ false
        → s.blocks.is_free p ≡ free
        → s.blocks.is_free n ≡ free
        → s.blocks.zone p ≡ s.blocks.zone n
        → is_first_block (s.blocks.flags n) ≡ false
        → in_tree (s.blocks.flags n) ≡ true
        → is_static (s.blocks.flags n) ≡ true
        → Removing.remove_tree_node rounds k n null (tree_of s (s.blocks.zone n)) ≡ ok status t
        → Tree.insert_tree_node pool_node heap_node rounds p
            (suc k)
            (tree_of released_state (s.blocks.zone p))
          ≡ ok status' u
        → (buddy_coalesce pool_node heap_node heap_block rounds p s ≡ ok tt joined_state)
          × Tiles joined_state.blocks p address ((p, suc k) ∷ cs) last stop
    unfolding buddy_coalesce
    buddy_coalesce-Tiles status status' is small p_not_null n_not_null apart p_out n_out p_free
          n_free same_zone not_first inside static removes inserts =
        let m = joined p n s.blocks in
        let order_n : s.blocks.order n ≡ k = ap s.blocks.order (sym is.4.0) ∙ is.4.3 in
        let live_n : s.blocks.live n ≡ true = ap s.blocks.live (sym is.4.0) ∙ is.4.1 in
        let not_n : p ≢ n = λ e. apart (sym e) in
        let new_order : released_state.blocks.order p ≡ suc k =
          update_other m.order n p 255 not_n
          ∙ update_same s.blocks.order p (s.blocks.order p + 1)
          ∙ omega (arith, is.3) in
        let frees =
          buddy_block_free-pooled (record s { blocks = m }) n t status live_n inside static
            (ap (λ o. Removing.remove_tree_node rounds o n null (tree_of s (s.blocks.zone n)))
                (update_other s.blocks.order p n (s.blocks.order p + 1) apart ∙ order_n)
              ∙ removes) in
        let returns = return_to_tree-put released_state p u status' is.1 (
          ap
            (λ o.
              Tree.insert_tree_node pool_node heap_node rounds p o
                (tree_of released_state (released_state.blocks.zone p)))
            new_order
          ∙ ap
              (λ z.
                Tree.insert_tree_node pool_node heap_node rounds p (suc k)
                  (tree_of released_state z))
              (update_other s.blocks.zone n p (2 ^ 64 - 1) not_n)
          ∙ inserts) in
        (
          rw
              (
                not_eq p_not_null,
                is.1,
                is.1,
                is.4.0,
                joinable is.3 small n_not_null,
                live_n,
                mergeable (is.3 ∙ sym order_n) p_free n_free same_zone not_first,
                is.1,
                frees,
                returns,
              )
              refl,
          Tiles-frame m joined_state.blocks ((p, suc k) ∷ cs) p address last stop
              (λ r hit.
                (let off : r ≢ n = λ e. ground (arith, e, hit, apart, n_out) in
                  record {
                    live = refl;
                    next = update_other m.next n r null off;
                    start_address = update_other m.start_address n r 0 off;
                    order = update_other m.order n r 255 off;
                  }))
              (Tiles-joined s.blocks p n k address last stop cs is apart p_out),
        )
