-- ===== src/Pmm/Allocation.antt =====
-- kernel/src/memory/pmm.c: coalescing, and the allocation and release of pages.
use dionys_os.Prelude.{
  ℕ, zero, suc, ◌+◌, ◌-◌, ◌%◌, ◌^◌, Bool, ltb, leb, ◌==◌, not, ◌&&◌, ◌||◌, if◌then◌else◌, List, [],
  ◌∷◌, update, ok, panic, fault, hang, Cmd, ◌>>=◌, ◌>>◌, pure,
}
use dionys_os.SinglyLinkedList.Values.{Values, values_in, insert_first, remove_by_address, or_fault}
use dionys_os.HashTable.{hash, static_pool_size}
use dionys_os.Pmm.{
  null, max_order, free, used, on_blocks, read, set_flags, is_first_block, with_in_tree,
  without_in_tree, is_power_of_two, next_power_of_two, insert_in_zone, remove_from_zone,
  look_up_zone, buddy_block_free, buddy_split, Blocks, State,
}

-- The next block is the other half: of the same order and zone, free, and not the first of an area.
abbrev pub merges : Blocks → (p n : ℕ) → Bool
merges b p n =
    (b.order p == b.order n)
    && (b.is_free p == free)
    && (b.is_free n == free)
    && (b.zone p == b.zone n)
    && not (is_first_block (b.flags n))

abbrev pub joined : (p n : ℕ) → Blocks → Blocks
joined p n b = record b {
  next = update b.next p (b.next n);
  order = update b.order p (b.order p + 1);
}

-- The index of the bucket of an address, which is not always one of the array.
unfoldable pub bucket_index : (address : ℕ) → Cmd State ℕ
unfolding hash
bucket_index address = do
  h ← or_fault (hash address static_pool_size)
  if ltb h static_pool_size then pure h else (λ _. fault)

abbrev set_bucket : (index : ℕ) → Values → Cmd State (Unit {0})
set_bucket h bucket s =
    ok tt (record s { used_buddy_hash_table = update s.used_buddy_hash_table h bucket })

module _ (pool_node : ℕ → ℕ) (heap_node heap_block rounds : ℕ) where
  -- Back into the tree of its zone. The status of the insertion is not looked at.
  unfoldable pub return_to_tree : ℕ → Cmd State (Unit {0})
  unfolding insert_in_zone
  return_to_tree p = do
    f ← read (λ b. b.flags) p
    set_flags p (with_in_tree f)
    z ← read (λ b. b.zone) p
    k ← read (λ b. b.order) p
    status ← insert_in_zone pool_node heap_node heap_block rounds z p k
    pure tt

  unfoldable pub buddy_coalesce : ℕ → Cmd State (Unit {0})
  unfolding buddy_block_free return_to_tree
  buddy_coalesce p = if p == null then pure tt else (do
    n ← read (λ b. b.next) p
    k ← read (λ b. b.order) p
    if (n == null) || (k == max_order) then return_to_tree p else (do
      n_order ← read (λ b. b.order) n
      b ← (λ s. ok s.blocks s)
      if merges b p n
          then (do
            on_blocks p (joined p n)
            buddy_block_free pool_node heap_node heap_block rounds n
            return_to_tree p)
          else pure tt))

  -- The first used block that starts at the address.
  unfoldable pub find_block : (address : ℕ) → List ℕ → Cmd State ℕ
  find_block address [] = pure null
  find_block address (p ∷ ps) = do
    start ← read (λ b. b.start_address) p
    if start == address then pure p else find_block address ps

  -- `free_in_slab` is the rest of the function for an address that is no block's: an entry of a slab.
  unfoldable pub buddy_free :
      (free_in_slab : ℕ → Cmd State (Unit {0})) (address : ℕ) → Cmd State (Unit {0})
  unfolding bucket_index find_block remove_by_address buddy_coalesce
  buddy_free free_in_slab address = do
    h ← bucket_index address
    bucket ← (λ s. ok (s.used_buddy_hash_table h) s)
    p ← find_block address (values_in bucket)
    if p == null then free_in_slab address else (do
      found ← or_fault (remove_by_address p bucket)
      if found.0 then set_bucket h found.1 else (λ _. panic)
      on_blocks p (λ b. record b {
        is_free = update b.is_free p free;
        flags = update b.flags p (without_in_tree (b.flags p));
      })
      k ← read (λ b. b.order) p
      (λ s. ok tt (record s { total_allocated = (s.total_allocated + 2 ^ 64 - 2 ^ k) % 2 ^ 64 }))
      buddy_coalesce p)

  -- The block becomes used: `static_hash_table_insert` under its address.
  unfoldable pub hand_out : ℕ → Cmd State ℕ
  unfolding bucket_index insert_first
  hand_out p = do
    start ← read (λ b. b.start_address) p
    h ← bucket_index start
    bucket ← (λ s. ok (s.used_buddy_hash_table h) s)
    set_bucket h (insert_first p bucket)
    pure p

  -- The halving of a block down to an order.
  unfoldable pub split_to : (fuel order p : ℕ) → Cmd State ℕ
  unfolding buddy_split
  split_to zero order p = λ _. hang
  split_to (suc fuel) order p = do
    k ← read (λ b. b.order) p
    if k == order then pure p else if ltb max_order k then (λ _. panic) else (do
      h ← buddy_split pool_node heap_node heap_block rounds p
      if h == null then (λ _. panic) else split_to fuel order h)

  -- The search for a larger block, from the order `index` on; null if there is none.
  unfoldable pub search_larger : (fuel zone order index : ℕ) → Cmd State ℕ
  unfolding look_up_zone split_to remove_from_zone hand_out
  search_larger zero zone order index = λ _. hang
  search_larger (suc fuel) zone order index = if ltb max_order index then pure null else (do
    p ← look_up_zone pool_node heap_node heap_block rounds zone index
    if p == null then search_larger fuel zone order (index + 1) else (do
      start ← read (λ b. b.start_address) p
      k ← read (λ b. b.order) p
      if not (start == 0) && leb index k
          then (do
            f ← read (λ b. b.flags) p
            set_flags p (without_in_tree f)
            h ← split_to 12 order p
            hand_out h)
          else if ltb k index
          then (do
            status ← remove_from_zone pool_node heap_node heap_block rounds zone index p
            search_larger fuel zone order index)
          else search_larger fuel zone order (index + 1)))

  -- A block of an order.
  unfoldable pub alloc_order : (fuel zone order : ℕ) → Cmd State ℕ
  unfolding search_larger
  alloc_order fuel zone order = do
    p ← look_up_zone pool_node heap_node heap_block rounds zone order
    if p == null
        then search_larger fuel zone order (order + 1)
        else (do b ← hand_out p; f ← read (λ b. b.flags) p; set_flags p (without_in_tree f); pure p)

  -- The loop over the orders below `MAX_ORDER`, from `i` on: no other order has that many pages.
  unfoldable pub alloc_loop : (left fuel zone pages i : ℕ) → Cmd State ℕ
  unfolding alloc_order
  alloc_loop zero fuel zone pages i = pure null
  alloc_loop (suc left) fuel zone pages i = do
    p ← (if pages == 2 ^ i then alloc_order fuel zone i else pure null)
    if p == null then alloc_loop left fuel zone pages (i + 1) else pure p

  -- `alloc_large_range` is `buddy_alloc_large_range`.
  unfoldable pub buddy_alloc :
      (alloc_large_range : ℕ → ℕ → Cmd State ℕ) (fuel pages zone : ℕ) → Cmd State ℕ
  unfolding alloc_loop is_power_of_two next_power_of_two
  buddy_alloc alloc_large_range fuel pages zone =
      if ltb (2 ^ max_order) pages
      then alloc_large_range pages zone
      else alloc_loop max_order fuel zone
          (if is_power_of_two pages then pages else next_power_of_two pages) 0

  unfoldable pub phys_alloc :
      (alloc_large_range : ℕ → ℕ → Cmd State ℕ) (fuel pages zone : ℕ) → Cmd State ℕ
  unfolding buddy_alloc
  phys_alloc alloc_large_range fuel pages zone = do
    p ← buddy_alloc alloc_large_range fuel pages zone
    if p == null then (λ _. panic) else (do
      on_blocks p (λ b. record b { is_free = update b.is_free p used })
      k ← read (λ b. b.order) p
      (λ s. ok tt (record s { total_allocated = (s.total_allocated + 2 ^ k) % 2 ^ 64 }))
      read (λ b. b.start_address) p)
