-- ===== src/BinaryTree/Taking.antt =====
-- A lookup that takes the first of several values of a key.
use dionys_os.Prelude.{
  update_same, ℕ, zero, suc, ◌^◌, ◌<◌, ◌≡◌, ◌≢◌, true, false, ltb, ◌==◌, List, [], ◌∷◌, length,
  arith, refl, sym, ap, ◌∙◌, inl, inr, Bool-cases, subst, update, ok,
}
use dionys_os.BinaryTree.{Nodes, State, null}
use dionys_os.BinaryTree.Removing.{
  lookup_loop, lookup_tree, next_child, remove_tree_node, remove_binary_tree, remove_loop,
  remove_at, remove_from_bucket,
}
use dionys_os.SinglyLinkedList.Values.{sound, remove_by_address-head}
use dionys_os.BinaryTree.Shape.{
  Tree, leaf, node, has, nodes_in, IsTree, Distinct, IsBinaryTree, Same, IsTree-frame, Apart-sym,
}
use dionys_os.BinaryTree.Search.{
  values_of-here, values_of-below, values_of-above, values_of, with_values, compared, equal, below,
  above, eq_test, lt_ne, lt_test, gt_ne, gt_test, nodes_in-with_values, Distinct-with_values,
  Ordered-with_values, Filled-with_values,
}
use dionys_os.BinaryTree.Preservation.{is_not_null, not_null}
use dionys_os.BinaryTree.Lookup.{own_child}

more_than_one : (n : ℕ) → ltb 1 (suc (suc n)) ≡ true
more_than_one n = ground arith

pub is_regular : {n : ℕ} → n ≡ 1 → (n == 1) ≡ true
is_regular e = ground (arith, e)

module _ (s : State) (key x y : ℕ) (ys : List ℕ) where
  -- The state in which the bucket of `p` has lost its first value.
  abbrev pub shortened : ℕ → State
  shortened p = record s {
    nodes = record s.nodes { bucket = update s.nodes.bucket p (sound (y ∷ ys)) };
  }

  module _ (p : ℕ) (regular : s.mode ≡ 1) (root_live : s.nodes.live s.root ≡ true)
      (some_root : s.root ≢ null) (some_node : p ≢ null) (live : s.nodes.live p ≡ true)
      (its_key : s.nodes.key p ≡ key) (its_values : s.nodes.bucket p ≡ sound (x ∷ y ∷ ys)) where
    run-remove_from_bucket : remove_from_bucket p x s ≡ ok true (shortened p)
    unfolding remove_from_bucket
    run-remove_from_bucket = rw (live, its_values, remove_by_address-head x (y ∷ ys), live) refl

    run-remove_at : (fuel : ℕ) → remove_at fuel p x s ≡ ok 0 (shortened p)
    unfolding remove_at
    run-remove_at fuel =
        rw (live, its_values, live, live, more_than_one (length ys), run-remove_from_bucket) refl

    run-remove_tree_node : (fuel : ℕ) → remove_tree_node (suc fuel) key x p s ≡ ok 0 (shortened p)
    unfolding remove_tree_node remove_binary_tree remove_loop
    run-remove_tree_node fuel = elim (Bool-cases (key == s.nodes.key s.root)) [
      | inl at_root ↦
          rw
            (
              is_regular regular,
              is_not_null some_node,
              is_not_null some_node,
              root_live,
              at_root,
              run-remove_from_bucket,
            )
            refl
      | inr elsewhere ↦
          rw
            (
              is_regular regular,
              is_not_null some_node,
              is_not_null some_node,
              root_live,
              elsewhere,
              live,
              eq_test (sym its_key),
              run-remove_at fuel,
            )
            refl
    ]

  -- What a run from `s` to `t` does to the tree below `ptr`.
  pub record Shortened (t : State) (up ptr : ℕ) (tree : Tree) : Type 0 where
    pub is_tree : IsTree t.nodes up ptr (with_values key (y ∷ ys) tree)
    pub others : (b : ℕ) → has tree b ≡ false → Same s.nodes t.nodes b
    pub same_root : t.root ≡ s.root
    pub same_count : t.node_count ≡ s.node_count

  module _ (p k : ℕ) (xs : List ℕ) (l r : Tree) (up ptr : ℕ)
      (is : IsTree s.nodes up ptr (node l p k xs r)) (d : Distinct (node l p k xs r)) where
    Shortened-here : key ≡ k → Shortened (shortened p) up ptr (node l p k xs r)
    unfolding with_values
    Shortened-here e =
        let m : Nodes = (shortened p).nodes in
        let kept : (b : ℕ) → b ≢ p → Same s.nodes m b = λ b np. record {
          live = refl;
          parent = refl;
          left = refl;
          right = refl;
          key = refl;
          bucket = ground (arith, np);
        } in
        record {
          is_tree = rw (eq_test e) (
            is.0,
            is.1,
            is.2,
            is.3,
            is.4,
            update_same s.nodes.bucket p (sound (y ∷ ys)),
            IsTree-frame s.nodes m l p (s.nodes.left p)
                (λ b hit. kept b (λ e. ground (arith, e, hit, d.0))) is.6,
            IsTree-frame s.nodes m r p (s.nodes.right p)
                (λ b hit. kept b (λ e. ground (arith, e, hit, d.1))) is.7,
          );
          others = λ b away. kept b (ground (arith, away));
          same_root = refl;
          same_count = refl;
        }

    Shortened-below :
        (t : State)
        → key < k
        → Shortened t p (s.nodes.left p) l
        → Shortened t up ptr (node l p k xs r)
    unfolding with_values
    Shortened-below t h g =
        let here = g.others p d.0 in
        record {
          is_tree =
              rw (lt_ne h, lt_test h)
                (
                  is.0,
                  is.1,
                  here.live ∙ is.2,
                  here.parent ∙ is.3,
                  here.key ∙ is.4,
                  here.bucket ∙ is.5,
                  subst (λ c. IsTree t.nodes p c (with_values key (y ∷ ys) l)) (sym here.left)
                      g.is_tree,
                  subst (λ c. IsTree t.nodes p c r) (sym here.right)
                      (IsTree-frame s.nodes t.nodes r p (s.nodes.right p)
                        (λ b hit. g.others b (Apart-sym l r d.2 b hit)) is.7),
                );
          others = λ b away. g.others b (ground (arith, away));
          same_root = g.same_root;
          same_count = g.same_count;
        }

    Shortened-above :
        (t : State)
        → k < key
        → Shortened t p (s.nodes.right p) r
        → Shortened t up ptr (node l p k xs r)
    unfolding with_values
    Shortened-above t h g =
        let here = g.others p d.1 in
        record {
          is_tree =
              rw (gt_ne h, gt_test h)
                (
                  is.0,
                  is.1,
                  here.live ∙ is.2,
                  here.parent ∙ is.3,
                  here.key ∙ is.4,
                  here.bucket ∙ is.5,
                  subst (λ c. IsTree t.nodes p c l) (sym here.left)
                      (IsTree-frame s.nodes t.nodes l p (s.nodes.left p)
                        (λ b hit. g.others b (d.2 b hit)) is.6),
                  subst (λ c. IsTree t.nodes p c (with_values key (y ∷ ys) r)) (sym here.right)
                      g.is_tree,
                );
          others = λ b away. g.others b (ground (arith, away));
          same_root = g.same_root;
          same_count = g.same_count;
        }

  abbrev Takes : (fuel up ptr : ℕ) → Tree → Type 0
  Takes fuel up ptr tree =
      (t : State) × (lookup_loop true fuel ptr key s ≡ ok x t) × Shortened t up ptr tree

  no_values : [] ≢ x ∷ y ∷ ys
  no_values e = omega (arith, ap length e)

  found_not_null :
      (up ptr : ℕ) (tree : Tree)
      → IsTree s.nodes up ptr tree
      → values_of tree key ≡ x ∷ y ∷ ys
      → (ptr == null) ≡ false
  unfolding values_of
  found_not_null up ptr leaf is found = absurd (no_values found)
  found_not_null up ptr (node l p k xs r) is found = is_not_null (λ e. is.1 (sym is.0 ∙ e))

  root_live :
      (tree : Tree)
      → IsTree s.nodes null s.root tree
      → values_of tree key ≡ x ∷ y ∷ ys
      → s.nodes.live s.root ≡ true
  unfolding values_of
  root_live leaf is found = absurd (no_values found)
  root_live (node l p k xs r) is found = ap s.nodes.live is.0 ∙ is.2

  -- The descent to a key with two values or more, with a round left for the removal.
  lookup_loop-Takes :
      (tree : Tree) (fuel up ptr : ℕ)
      → s.mode ≡ 1
      → s.nodes.live s.root ≡ true
      → s.root ≢ null
      → IsTree s.nodes up ptr tree
      → Distinct tree
      → values_of tree key ≡ x ∷ y ∷ ys
      → nodes_in tree < fuel
      → Takes fuel up ptr tree
  unfolding lookup_loop next_child values_of
  lookup_loop-Takes leaf fuel up ptr regular live_root some_root is d found enough =
      absurd (no_values found)
  lookup_loop-Takes (node l p k xs r) zero up ptr regular live_root some_root is d found enough =
      absurd (omega (arith, enough))
  lookup_loop-Takes (node l p k xs r) (suc zero) up ptr regular live_root some_root is d found
        enough =
      absurd (omega (arith, enough))
  lookup_loop-Takes (node l p k xs r) (suc (suc fuel)) up ptr regular live_root some_root is d found
        enough =
      elim (compared key k) [
        | equal e ↦
            (let its = is.5 ∙ ap sound (sym (values_of-here l r p k key xs e) ∙ found) in
              (
                shortened p,
                rw
                    (
                      is.0,
                      is.2,
                      is.4,
                      eq_test e,
                      is.2,
                      its,
                      ap (λ c. remove_tree_node (suc fuel) key x c s) is.0
                          ∙ run-remove_tree_node p regular live_root some_root is.1 is.2
                              (is.4 ∙ sym e) its fuel,
                    )
                    refl,
                Shortened-here p k xs l r up ptr is d e,
              ))
        | below h ↦
            (let rest =
                lookup_loop-Takes l (suc fuel) p (s.nodes.left p) regular live_root some_root is.6
                  d.3 (sym (values_of-below l r p k key xs h) ∙ found) (omega (arith, enough)) in
              (
                rest.0,
                rw
                    (
                      is.0,
                      is.2,
                      is.4,
                      lt_ne h,
                      lt_test h,
                      is.2,
                      own_child s.nodes p (s.nodes.left p) p l is.6 d.0 is.1,
                      found_not_null p (s.nodes.left p) l is.6
                          (sym (values_of-below l r p k key xs h) ∙ found),
                      rest.1,
                    )
                    refl,
                Shortened-below p k xs l r up ptr is d rest.0 h rest.2,
              ))
        | above h ↦
            (let rest =
                lookup_loop-Takes r (suc fuel) p (s.nodes.right p) regular live_root some_root is.7
                  d.4 (sym (values_of-above l r p k key xs h) ∙ found) (omega (arith, enough)) in
              (
                rest.0,
                rw
                    (
                      is.0,
                      is.2,
                      is.4,
                      gt_ne h,
                      gt_test h,
                      is.2,
                      own_child s.nodes p (s.nodes.right p) p r is.7 d.1 is.1,
                      found_not_null p (s.nodes.right p) r is.7
                          (sym (values_of-above l r p k key xs h) ∙ found),
                      rest.1,
                    )
                    refl,
                Shortened-above p k xs l r up ptr is d rest.0 h rest.2,
              ))
      ]

-- On a well-formed binary tree of the regular mode, whose buckets are lists that have their
-- tails, with more rounds than nodes, for a key whose bucket holds the values x, y and ys, a
-- lookup that removes returns x and leaves a well-formed binary tree in which the bucket of the
-- key holds y and ys.
pub lookup_tree-takes :
    (s : State) (tree : Tree) (fuel key x y : ℕ) (ys : List ℕ)
    → s.mode ≡ 1
    → IsBinaryTree s tree
    → values_of tree key ≡ x ∷ y ∷ ys
    → nodes_in tree < fuel
    → (t : State) × (lookup_tree fuel key 1 s ≡ ok x t)
      × IsBinaryTree t (with_values key (y ∷ ys) tree)
unfolding lookup_tree
lookup_tree-takes s tree fuel key x y ys regular is found enough =
    let root = found_not_null s key x y ys null s.root tree is.shape found in
    let taken =
      lookup_loop-Takes s key x y ys tree fuel null s.root regular
        (root_live s key x y ys tree is.shape found) (not_null root) is.shape is.distinct found
        enough in
    (
      taken.0,
      rw (root, taken.1) refl,
      record {
        shape =
            subst (λ root. IsTree taken.0.nodes null root (with_values key (y ∷ ys) tree))
              (sym taken.2.same_root) taken.2.is_tree;
        distinct = Distinct-with_values key (y ∷ ys) tree is.distinct;
        ordered = Ordered-with_values key (y ∷ ys) tree 0 (2 ^ 32) is.ordered;
        filled = Filled-with_values key (y ∷ ys) tree (omega arith) is.filled;
        count = taken.2.same_count ∙ is.count ∙ sym (nodes_in-with_values key (y ∷ ys) tree);
      },
    )
