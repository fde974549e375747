-- ===== src/BinaryTree/Lookup.antt =====
-- Lookup in a binary tree in memory.
use dionys_os.Prelude.{
  ℕ, zero, suc, ◌+◌, ◌^◌, ◌≤◌, ◌<◌, ◌≡◌, ◌≢◌, false, ◌==◌, if◌then◌else◌, List, [], ◌∷◌, ◌++◌,
  arith, refl, sym, ap, ◌∙◌, inl, inr, Bool-cases, ok, ◌>>=◌,
}
use dionys_os.BinaryTree.Insertion.{Fresh}
use dionys_os.BinaryTree.{insert_binary_tree, Nodes, State, null}
use dionys_os.BinaryTree.Removing.{lookup_loop, lookup_tree, next_child}
use dionys_os.BinaryTree.Shape.{
  Tree, leaf, node, has, nodes_in, IsTree, Distinct, Filled, IsBinaryTree,
}
use dionys_os.BinaryTree.Search.{
  inserted, nodes_in-inserted, values_of-inserted_at, values_of, compared, equal, below, above,
  eq_test, lt_ne, lt_test, gt_ne, gt_test,
}
use dionys_os.BinaryTree.Preservation.{insert_binary_tree-inserted, is_null, not_null, null→leaf}

-- The first value of a bucket, null if there is none.
abbrev pub first : List ℕ → ℕ
first [] = null
first (x ∷ xs) = x

-- No node is its own child.
pub own_child :
    (m : Nodes) (up ptr p : ℕ) (t : Tree)
    → IsTree m up ptr t
    → has t p ≡ false
    → p ≢ null
    → (ptr == p) ≡ false
own_child m up ptr p leaf is out ne = ground (arith, is, ne)
own_child m up ptr p (node l q k xs r) is out ne = ground (arith, is.0, out)

module _ (s : State) (key : ℕ) where
  empty_values :
      (up ptr : ℕ) (tree : Tree)
      → IsTree s.nodes up ptr tree
      → ptr ≡ null
      → ok (first (values_of tree key)) s ≡ ok null s
  unfolding values_of
  empty_values up ptr tree is e =
      ap (λ t. ok (first (values_of t key)) s) (null→leaf s.nodes up ptr tree is e)

  lookup_loop-first :
      (tree : Tree) (fuel up ptr : ℕ)
      → IsTree s.nodes up ptr tree
      → ptr ≢ null
      → Distinct tree
      → Filled tree
      → nodes_in tree ≤ fuel
      → lookup_loop false fuel ptr key s ≡ ok (first (values_of tree key)) s
  unfolding lookup_loop next_child values_of
  lookup_loop-first leaf fuel up ptr is some_node d full enough = absurd (some_node is)
  lookup_loop-first (node l p k [] r) fuel up ptr is some_node d full enough =
      absurd (omega (arith, full.0))
  lookup_loop-first (node l p k (x ∷ xs) r) zero up ptr is some_node d full enough =
      absurd (omega (arith, enough))
  lookup_loop-first (node l p k (x ∷ xs) r) (suc fuel) up ptr is some_node d full enough =
      let on_left = lookup_loop-first l fuel p (s.nodes.left p) is.6 in
      let on_right = lookup_loop-first r fuel p (s.nodes.right p) is.7 in
      elim (compared key k) [
        | equal e ↦ rw (is.0, is.2, is.4, eq_test e, is.2, is.5) refl
        | below h ↦ elim (Bool-cases (s.nodes.left p == null)) [
          | inl empty ↦
              rw
                (
                  is.0,
                  is.2,
                  is.4,
                  lt_ne h,
                  lt_test h,
                  is.2,
                  own_child s.nodes p (s.nodes.left p) p l is.6 d.0 is.1,
                  empty,
                )
                (sym (empty_values p (s.nodes.left p) l is.6 (is_null empty)))
          | inr more ↦
              rw
                (
                  is.0,
                  is.2,
                  is.4,
                  lt_ne h,
                  lt_test h,
                  is.2,
                  own_child s.nodes p (s.nodes.left p) p l is.6 d.0 is.1,
                  more,
                )
                (on_left (not_null more) d.3 full.1 (omega (arith, enough)))
        ]
        | above h ↦ elim (Bool-cases (s.nodes.right p == null)) [
          | inl empty ↦
              rw
                (
                  is.0,
                  is.2,
                  is.4,
                  gt_ne h,
                  gt_test h,
                  is.2,
                  own_child s.nodes p (s.nodes.right p) p r is.7 d.1 is.1,
                  empty,
                )
                (sym (empty_values p (s.nodes.right p) r is.7 (is_null empty)))
          | inr more ↦
              rw
                (
                  is.0,
                  is.2,
                  is.4,
                  gt_ne h,
                  gt_test h,
                  is.2,
                  own_child s.nodes p (s.nodes.right p) p r is.7 d.1 is.1,
                  more,
                )
                (on_right (not_null more) d.4 full.2 (omega (arith, enough)))
        ]
      ]

-- On a well-formed binary tree, with as many rounds as the tree has nodes, a lookup that does not
-- remove ends, with the first value of the bucket of the key, or null where the key has none, and
-- changes nothing.
lookup_tree-first :
    (s : State) (tree : Tree) (fuel key : ℕ)
    → IsBinaryTree s tree
    → nodes_in tree ≤ fuel
    → lookup_tree fuel key 0 s ≡ ok (first (values_of tree key)) s
unfolding lookup_tree
lookup_tree-first s tree fuel key is enough = elim (Bool-cases (s.root == null)) [
  | inl empty ↦ rw empty (sym (empty_values s key null s.root tree is.shape (is_null empty)))
  | inr more ↦ rw more (
      lookup_loop-first s key tree fuel null s.root is.shape (not_null more) is.distinct is.filled
        enough)
]

-- Under the conditions of an insertion and with more rounds than nodes, a lookup of any key after
-- the insertion of a value ends with the first value of the bucket of that key before, or with
-- the inserted value where the key is the inserted one and had none.
pub lookup_tree-insert_binary_tree :
    (pool_node : ℕ → ℕ) (heap q value key other fuel : ℕ) (s u : State) (tree : Tree)
    → Fresh pool_node heap q value key s u
    → key < 2 ^ 32
    → s.node_count + 1 < 2 ^ 64
    → IsBinaryTree s tree
    → has tree q ≡ false
    → nodes_in tree < fuel
    → (t : State) × ((insert_binary_tree pool_node heap fuel value key >>= λ _.
            lookup_tree fuel other 0)
          s
        ≡ ok
            (first
              (if other == key then values_of tree key ++ value ∷ [] else values_of tree other))
            t)
lookup_tree-insert_binary_tree pool_node heap q value key other fuel s u tree fresh small room is
      out enough =
    let inserts =
      insert_binary_tree-inserted pool_node heap q value key s u fresh small room fuel tree is out
        (omega (arith, enough)) in
    let looks =
      lookup_tree-first inserts.0 (inserted q key value tree) fuel other inserts.2
        (omega (arith, enough, nodes_in-inserted q key value tree)) in
    (
      inserts.0,
      rw inserts.1 (
          looks
          ∙ ap (λ xs. ok (first xs) inserts.0) (values_of-inserted_at q key value tree other)),
    )
