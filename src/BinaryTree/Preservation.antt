-- ===== src/BinaryTree/Preservation.antt =====
-- Insertion keeps a binary tree in memory well-formed.
use dionys_os.Prelude.{
  update_same, ℕ, zero, suc, ◌+◌, ◌%◌, ◌^◌, ◌≤◌, ◌<◌, ◌≡◌, ◌≢◌, true, false, ◌==◌, List, [], ◌∷◌,
  ◌++◌, length, arith, refl, sym, ◌∙◌, inl, inr, Bool-cases, subst, update, ok,
}
use dionys_os.BinaryTree.{
  Nodes, State, null, insert_bucket, insert_loop, insert_binary_tree, new_node,
}
use dionys_os.SinglyLinkedList.Values.{sound, insert_last-sound}
use dionys_os.BinaryTree.Shape.{
  Tree, leaf, node, has, nodes_in, IsTree, Distinct, Filled, IsBinaryTree,
}
use dionys_os.BinaryTree.Search.{
  inserted, compared, equal, below, above, eq_test, lt_ne, lt_test, gt_ne, gt_test,
  Distinct-inserted, Ordered-inserted, Filled-inserted,
}
use dionys_os.BinaryTree.Insertion.{
  Fresh, Grown, counted, filled, left_of, right_of, run-attach_left, run-attach_right, Grown-left,
  Grown-right, Grown-bucket, Grown-below, Grown-above,
}

pub null→leaf : (m : Nodes) (up ptr : ℕ) (t : Tree) → IsTree m up ptr t → ptr ≡ null → t ≡ leaf
null→leaf m up ptr leaf is e = refl
null→leaf m up ptr (node l p k xs r) is e = absurd (is.1 (sym is.0 ∙ e))

pub is_null : {n : ℕ} → (n == null) ≡ true → n ≡ null
is_null h = ground (arith, h)

pub not_null : {n : ℕ} → (n == null) ≡ false → n ≢ null
not_null h e = ground (arith, h, e)

pub is_not_null : {n : ℕ} → n ≢ null → (n == null) ≡ false
is_not_null h = ground (arith, h)

null_root : {n : ℕ} → n ≡ null → (n == null) ≡ true
null_root e = ground (arith, e)

in_32_bits : {n : ℕ} → n < 2 ^ 32 → n % 2 ^ 32 ≡ n
in_32_bits h = ground (arith, h)

module _ (pool_node : ℕ → ℕ) (heap : ℕ) (q value key : ℕ) (s u : State)
    (fresh : Fresh pool_node heap q value key s u) (small : key < 2 ^ 32)
    (room : s.node_count + 1 < 2 ^ 64) where
  abbrev Inserts : (fuel up ptr : ℕ) → Tree → Type 0
  Inserts fuel up ptr tree =
      (t : State) × (insert_loop pool_node heap fuel ptr value key s ≡ ok 0 t)
      × Grown pool_node heap q value key s t up ptr tree

  module _ (fuel p k : ℕ) (xs : List ℕ) (l r : Tree) (up ptr : ℕ)
      (is : IsTree s.nodes up ptr (node l p k xs r)) (out : has (node l p k xs r) q ≡ false)
      (d : Distinct (node l p k xs r)) where
    not_new : p ≢ q
    not_new e = ground (arith, e, out)

    Inserts-equal : 1 ≤ length xs → key ≡ k → Inserts (suc fuel) up ptr (node l p k xs r)
    unfolding insert_loop insert_bucket
    Inserts-equal full e = (
      record s {
        nodes = record s.nodes { bucket = update s.nodes.bucket p (sound (xs ++ value ∷ [])) };
      },
      rw (is.0, is.2, is.4, eq_test e, is.2, is.5, insert_last-sound value xs full, is.2) refl,
      Grown-bucket pool_node heap q value key s p k xs l r up ptr is out d e,
    )

    Inserts-left :
        key < k
        → (s.nodes.left p ≢ null → Inserts fuel p (s.nodes.left p) l)
        → Inserts (suc fuel) up ptr (node l p k xs r)
    unfolding insert_loop
    Inserts-left h further = elim (Bool-cases (s.nodes.left p == null)) [
      | inl empty ↦ (
        counted pool_node heap q value key u
            (left_of pool_node heap q value key p (filled pool_node heap q value key p u.nodes)),
        rw
            (
              is.0,
              is.2,
              is.4,
              lt_ne h,
              lt_test h,
              is.2,
              empty,
              run-attach_left pool_node heap q value key s u fresh p is.2 not_new,
            )
            refl,
        subst
            (λ t.
              IsTree s.nodes up ptr (node t p k xs r)
              → has (node t p k xs r) q ≡ false
              → Distinct (node t p k xs r)
              → Grown pool_node heap q value key s
                  (counted pool_node heap q value key u (
                    left_of pool_node heap q value key p
                      (filled pool_node heap q value key p u.nodes)))
                  up ptr (node t p k xs r))
            (sym (null→leaf s.nodes p (s.nodes.left p) l is.6 (is_null empty)))
            (λ is_t out_t d_t.
              Grown-left pool_node heap q value key s u fresh small room p k xs up ptr r is_t out_t
                d_t h)
            is out d,
      )
      | inr more ↦
          (let rest = further (not_null more) in
            (
              rest.0,
              rw (is.0, is.2, is.4, lt_ne h, lt_test h, is.2, more, rest.1) refl,
              Grown-below pool_node heap q value key s p k xs l r up ptr is out d rest.0 h rest.2,
            ))
    ]

    Inserts-right :
        k < key
        → (s.nodes.right p ≢ null → Inserts fuel p (s.nodes.right p) r)
        → Inserts (suc fuel) up ptr (node l p k xs r)
    unfolding insert_loop
    Inserts-right h further = elim (Bool-cases (s.nodes.right p == null)) [
      | inl empty ↦ (
        counted pool_node heap q value key u
            (right_of pool_node heap q value key p (filled pool_node heap q value key p u.nodes)),
        rw
            (
              is.0,
              is.2,
              is.4,
              gt_ne h,
              gt_test h,
              is.2,
              empty,
              run-attach_right pool_node heap q value key s u fresh p is.2 not_new,
            )
            refl,
        subst
            (λ t.
              IsTree s.nodes up ptr (node l p k xs t)
              → has (node l p k xs t) q ≡ false
              → Distinct (node l p k xs t)
              → Grown pool_node heap q value key s
                  (counted pool_node heap q value key u (
                    right_of pool_node heap q value key p
                      (filled pool_node heap q value key p u.nodes)))
                  up ptr (node l p k xs t))
            (sym (null→leaf s.nodes p (s.nodes.right p) r is.7 (is_null empty)))
            (λ is_t out_t d_t.
              Grown-right pool_node heap q value key s u fresh small room p k xs up ptr l is_t out_t
                d_t h)
            is out d,
      )
      | inr more ↦
          (let rest = further (not_null more) in
            (
              rest.0,
              rw (is.0, is.2, is.4, gt_ne h, gt_test h, is.2, more, rest.1) refl,
              Grown-above pool_node heap q value key s p k xs l r up ptr is out d rest.0 h rest.2,
            ))
    ]

  insert_loop-Grown :
      (tree : Tree) (fuel up ptr : ℕ)
      → IsTree s.nodes up ptr tree
      → ptr ≢ null
      → has tree q ≡ false
      → Distinct tree
      → Filled tree
      → nodes_in tree ≤ fuel
      → Inserts fuel up ptr tree
  insert_loop-Grown leaf fuel up ptr is some_node out d full enough = absurd (some_node is)
  insert_loop-Grown (node l p k xs r) zero up ptr is some_node out d full enough =
      absurd (omega (arith, enough))
  insert_loop-Grown (node l p k xs r) (suc fuel) up ptr is some_node out d full enough =
      let on_left = insert_loop-Grown l fuel p (s.nodes.left p) is.6 in
      let on_right = insert_loop-Grown r fuel p (s.nodes.right p) is.7 in
      elim (compared key k) [
        | equal e ↦ Inserts-equal fuel p k xs l r up ptr is out d full.0 e
        | below h ↦
            Inserts-left fuel p k xs l r up ptr is out d h
              (λ more. on_left more (ground (arith, out)) d.3 full.1 (omega (arith, enough)))
        | above h ↦
            Inserts-right fuel p k xs l r up ptr is out d h
              (λ more. on_right more (ground (arith, out)) d.4 full.2 (omega (arith, enough)))
      ]

  -- The first node of an empty tree.
  insert-empty :
      (fuel : ℕ)
      → IsBinaryTree s leaf
      → (t : State) × (insert_binary_tree pool_node heap fuel value key s ≡ ok 0 t)
        × IsBinaryTree t (inserted q key value leaf)
  unfolding insert_binary_tree new_node inserted
  insert-empty fuel is =
      let m : Nodes = filled pool_node heap q value key null u.nodes in
      (
        record u { nodes = m; root = q; node_count = (u.node_count + 1) % 2 ^ 64 },
        rw (null_root is.shape, fresh.allocates, fresh.is_live, fresh.is_live) refl,
        record {
          shape = (
            refl,
            fresh.not_null,
            fresh.is_live,
            update_same u.nodes.parent q null,
            update_same u.nodes.key q (key % 2 ^ 32) ∙ in_32_bits small,
            update_same u.nodes.bucket q (sound (value ∷ [])),
            fresh.no_left,
            fresh.no_right,
          );
          distinct = Distinct-inserted q key value leaf tt refl;
          ordered = Ordered-inserted q key value leaf 0 (2 ^ 32) tt (omega arith) small;
          filled = Filled-inserted q key value leaf tt;
          count = omega (arith, is.count, fresh.same_count);
        },
      )

  -- On a well-formed binary tree (the nodes in memory are an abstract tree without a node twice,
  -- ordered by 32-bit keys, with no empty bucket, each bucket a list that has its tail, and
  -- node_count is their number), when the allocator hands out a node that is not in the tree and
  -- has no children, for a key below 2 ^ 32, room in the count and as many rounds as the tree has
  -- nodes, insertion succeeds and leaves a well-formed binary tree, which is the abstract tree
  -- with the value put in: behind the values of its key, or in the new node.
  pub insert_binary_tree-inserted :
      (fuel : ℕ) (tree : Tree)
      → IsBinaryTree s tree
      → has tree q ≡ false
      → nodes_in tree ≤ fuel
      → (t : State) × (insert_binary_tree pool_node heap fuel value key s ≡ ok 0 t)
        × IsBinaryTree t (inserted q key value tree)
  unfolding insert_binary_tree
  insert_binary_tree-inserted fuel leaf is out enough = insert-empty fuel is
  insert_binary_tree-inserted fuel (node l p k xs r) is out enough =
      let some_root : s.root ≢ null = λ e. is.shape.1 (sym is.shape.0 ∙ e) in
      let grown =
        insert_loop-Grown (node l p k xs r) fuel null s.root is.shape some_root out is.distinct
          is.filled enough in
      (
        grown.0,
        rw (is_not_null some_root) grown.1,
        record {
          shape =
              subst
                (λ root. IsTree grown.0.nodes null root (inserted q key value (node l p k xs r)))
                (sym grown.2.same_root) grown.2.is_tree;
          distinct = Distinct-inserted q key value (node l p k xs r) is.distinct out;
          ordered =
              Ordered-inserted q key value (node l p k xs r) 0 (2 ^ 32) is.ordered (omega arith)
                small;
          filled = Filled-inserted q key value (node l p k xs r) is.filled;
          count = omega (arith, is.count, grown.2.count);
        },
      )
