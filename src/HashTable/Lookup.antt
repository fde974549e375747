-- ===== src/HashTable/Lookup.antt =====
-- Insertion and lookup.
use dionys_os.Prelude.{
  ℕ, zero, suc, ◌+◌, ◌<◌, ◌≡◌, Bool, false, ◌==◌, ◌||◌, if◌then◌else◌, arith, some, refl, [], ◌∷◌,
  length, ok, lt→ltb,
}
use dionys_os.SinglyLinkedList.{State, node_alloc, holds_free_nodes}
use dionys_os.SinglyLinkedList.Layout.{Cells, Seg, IsList, Out}
use dionys_os.SinglyLinkedList.Allocation.{Allocated}
use dionys_os.SinglyLinkedList.Insertion.{insert_head-cons}
use dionys_os.HashTable.{
  hash, Table, check_walk, static_hash_table_check, static_hash_table_insert, static_pool_size,
  with_bucket,
}

-- Some node of the list has this value.
pub has : ℕ → Cells → Bool
has v [] = false
has v ((a, w) ∷ xs) = (w == v) || has v xs

check_walk-has :
    (k p v : ℕ) (s : State) (xs : Cells)
    → Seg s.nodes p xs
    → length xs < k
    → check_walk k p v s ≡ ok (has v xs) s
unfolding check_walk has
check_walk-has zero p v s xs seg f = absurd (omega arith)
check_walk-has (suc k) p v s [] seg f = ground (arith, seg)
check_walk-has (suc k) p v s ((a, w) ∷ xs) seg f =
    let rest = check_walk-has k (s.nodes.next a) v s xs seg.4 (omega arith) in ground (arith, rest)

-- The check of a bucket whose list is `xs`.
pub static_hash_table_check-has :
    (k : ℕ) (t : Table) (h v : ℕ) (s : State) (xs : Cells)
    → h < 1500
    → Seg s.nodes ((t.table h).head) xs
    → length xs < k
    → static_hash_table_check k t h v s ≡ ok (has v xs) s
unfolding static_hash_table_check
static_hash_table_check-has k t h v s xs b seg f =
    rw (lt→ltb h static_pool_size b) (check_walk-has k ((t.table h).head) v s xs seg f)

module _ (fresh p : ℕ) (s u : State) (pool : Cells) (alloc : node_alloc fresh s ≡ ok p u)
    (given : Allocated s p pool u) (t : Table) where
  -- When the hash of the key is below 1500, the bucket is a well-formed list that does not hold
  -- free nodes, and the allocator hands out a node that is not in it, insertion succeeds; a check
  -- of that bucket then ends and finds exactly the inserted value and the values that were in the
  -- list, and the other buckets keep their headers.
  pub static_hash_table_insert-check :
      (key h value k : ℕ) (xs : Cells)
      → hash key t.size ≡ some h
      → h < 1500
      → holds_free_nodes (t.table h) ≡ false
      → Out p xs
      → IsList s.nodes (t.table h) xs
      → length xs + 1 < k
      → (t' : Table) × (w : State) × (static_hash_table_insert fresh t key value s ≡ ok t' w)
        × ((v : ℕ) → static_hash_table_check k t' h v w ≡ ok ((value == v) || has v xs) w)
        × ((j : ℕ) → t'.table j ≡ (if j == h then t'.table h else t.table j))
  unfolding static_hash_table_insert has
  static_hash_table_insert-check key h value k xs e b plain out is f =
      let r = insert_head-cons fresh p s u pool alloc given (t.table h) value plain xs out is in
      let c = r.3.is_list.chain in
      (
        with_bucket h r.0 t,
        r.1,
        rw (e, lt→ltb h static_pool_size b, r.2) refl,
        (λ v.
            static_hash_table_check-has k (with_bucket h r.0 t) h v r.1 ((p, value) ∷ xs) b
              (ground (arith, c.0), c.1, c.2, c.3, c.4) (ground (arith, f))),
        λ j. ground arith,
      )
