-- ===== src/Pmm/LargeRange.antt =====
-- kernel/src/memory/pmm.c: the allocation of more pages than the largest block has.
use dionys_os.Prelude.{
  ℕ, zero, suc, ◌+◌, ◌-◌, ◌*◌, ◌/◌, ◌%◌, ◌^◌, ltb, ◌==◌, ◌&&◌, if◌then◌else◌, update, ok, panic,
  hang, Cmd, ◌>>=◌, ◌>>◌, pure, ◌≤◌, ◌<◌, arith,
}
use dionys_os.Pmm.{
  State, null, max_order, used, on_blocks, read, insert_in_zone, remove_from_zone, look_up_zone,
  set_flags, without_in_tree,
}

-- `pages % 1 << MAX_ORDER` is `(pages % 1) << MAX_ORDER`, which is 0.
unfoldable pub max_blocks : ℕ → ℕ
max_blocks pages = pages / 2 ^ max_order + (if pages % 1 * 2 ^ max_order == 0 then 0 else 1)

-- A walk along the chain over the blocks of the largest order in one zone, until there are enough.
unfoldable pub count_blocks : (left p current_blocks wanted : ℕ) → Cmd State ℕ
count_blocks zero p current_blocks wanted = pure current_blocks
count_blocks (suc left) p current_blocks wanted = do
  n ← read (λ b. b.next) p
  n_order ← read (λ b. b.order) n
  z ← read (λ b. b.zone) p
  n_zone ← read (λ b. b.zone) n
  if (n_order == max_order) && ltb current_blocks wanted && (z == n_zone)
      then count_blocks left n (current_blocks + 1) wanted
      else pure current_blocks

module _ (pool_node : ℕ → ℕ) (heap_node heap_block rounds : ℕ) where
  -- Blocks of another order are dropped, until one is of the largest or the tree has no more.
  unfoldable pub skip_others : (fuel zone p : ℕ) → Cmd State ℕ
  unfolding look_up_zone
  skip_others zero zone p = λ _. hang
  skip_others (suc fuel) zone p = if p == null then pure null else (do
    k ← read (λ b. b.order) p
    if k == max_order then pure p else (do
      q ← look_up_zone pool_node heap_node heap_block rounds zone max_order
      skip_others fuel zone q))

  -- The blocks behind the first one leave the tree and become used.
  unfoldable pub claim_blocks : (left zone p : ℕ) → Cmd State (Unit {0})
  unfolding remove_from_zone
  claim_blocks zero zone p = pure tt
  claim_blocks (suc left) zone p = do
    k ← read (λ b. b.order) p
    status ← remove_from_zone pool_node heap_node heap_block rounds zone k p
    on_blocks p (λ b. record b { is_free = update b.is_free p used })
    n ← read (λ b. b.next) p
    claim_blocks left zone n

  -- The block that is found is the first of enough ones.
  unfoldable pub claim_range : (zone p wanted : ℕ) → Cmd State ℕ
  unfolding claim_blocks
  claim_range zone p wanted = do
    f ← read (λ b. b.flags) p
    on_blocks p (λ b. record b { buddy_chain_length = update b.buddy_chain_length p wanted })
    set_flags p (without_in_tree f)
    n ← read (λ b. b.next) p
    claim_blocks (wanted - 1) zone n
    (λ s.
        ok p (record s { total_allocated = (s.total_allocated + 2 ^ max_order * wanted) % 2 ^ 64 }))

  -- The attempts from number `retry_count` on. The walk starts at the first block that the tree gave,
  -- even if that one was dropped.
  unfoldable pub retry : (left fuel wanted zone retry_count : ℕ) → Cmd State ℕ
  unfolding skip_others count_blocks claim_range insert_in_zone
  retry zero fuel wanted zone retry_count = λ _. hang
  retry (suc left) fuel wanted zone retry_count = if ltb 500 retry_count then (λ _. panic) else (do
    pointer ← look_up_zone pool_node heap_node heap_block rounds zone max_order
    p ← skip_others fuel zone pointer
    if p == null then retry left fuel wanted zone (retry_count + 1) else (do
      blocks ← count_blocks (wanted + 1) pointer 1 wanted
      if ltb blocks wanted
          then (do
            k ← read (λ b. b.order) p
            status ← insert_in_zone pool_node heap_node heap_block rounds zone p k
            retry left fuel wanted zone (retry_count + 1))
          else claim_range zone p wanted))

  unfoldable pub buddy_alloc_large_range : (fuel pages zone : ℕ) → Cmd State ℕ
  unfolding retry max_blocks
  buddy_alloc_large_range fuel pages zone = retry 502 fuel (max_blocks pages) zone 0

-- The blocks have fewer pages than were asked for, unless the number is a multiple of a block's.
max_blocks-short : (pages : ℕ) → 1 ≤ pages % 1024 → max_blocks pages * 1024 < pages
unfolding max_blocks
max_blocks-short pages more = ground (arith, more)
