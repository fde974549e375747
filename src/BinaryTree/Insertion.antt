-- ===== src/BinaryTree/Insertion.antt =====
-- Insertion into a binary tree in memory is insertion into the abstract tree.
use dionys_os.Prelude.{
  update_same, ℕ, ◌+◌, ◌%◌, ◌^◌, ◌<◌, ◌≡◌, ◌≢◌, true, false, List, [], ◌∷◌, ◌++◌, arith, refl, sym,
  ◌∙◌, subst, update, ok,
}
use dionys_os.BinaryTree.{Nodes, State, null, node_alloc, new_node, attach, set_left, set_right}
use dionys_os.SinglyLinkedList.Values.{sound}
use dionys_os.BinaryTree.Shape.{
  Tree, leaf, node, has, nodes_in, IsTree, Distinct, Same, IsTree-frame, IsTree-outside, Apart-sym,
}
use dionys_os.BinaryTree.Search.{inserted, eq_test, lt_ne, lt_test, gt_ne, gt_test}

module _ (pool_node : ℕ → ℕ) (heap : ℕ) (q value key : ℕ) where
  -- The allocator hands out `q`, a node without children, and leaves the others.
  pub record Fresh (s u : State) : Type 0 where
    pub allocates : node_alloc pool_node heap s ≡ ok q u
    pub not_null : q ≢ null
    pub is_live : u.nodes.live q ≡ true
    pub no_left : u.nodes.left q ≡ null
    pub no_right : u.nodes.right q ≡ null
    pub others : (b : ℕ) → b ≢ q → Same s.nodes u.nodes b
    pub same_root : u.root ≡ s.root
    pub same_count : u.node_count ≡ s.node_count

  -- The memory after the new node `q` gets its key, bucket and parent `up`.
  abbrev pub filled : (up : ℕ) → Nodes → Nodes
  filled up m = record m {
    bucket = update m.bucket q (sound (value ∷ []));
    key = update m.key q (key % 2 ^ 32);
    parent = update m.parent q up;
  }

  abbrev pub left_of : (p : ℕ) → Nodes → Nodes
  left_of p m = record m { left = update m.left p q }

  abbrev pub right_of : (p : ℕ) → Nodes → Nodes
  right_of p m = record m { right = update m.right p q }

  abbrev pub counted : State → Nodes → State
  counted u m = record u { nodes = m; node_count = (u.node_count + 1) % 2 ^ 64 }

  module _ (s u : State) (fresh : Fresh s u) (p : ℕ) (live : s.nodes.live p ≡ true)
      (ne : p ≢ q) where
    live_u : u.nodes.live p ≡ true
    live_u = (fresh.others p ne).live ∙ live

    pub run-attach_left :
        attach pool_node heap set_left p value key s
        ≡ ok 0 (counted u (left_of p (filled p u.nodes)))
    unfolding attach new_node
    run-attach_left = rw (fresh.allocates, fresh.is_live, live_u, fresh.is_live) refl

    pub run-attach_right :
        attach pool_node heap set_right p value key s
        ≡ ok 0 (counted u (right_of p (filled p u.nodes)))
    unfolding attach new_node
    run-attach_right = rw (fresh.allocates, fresh.is_live, live_u, fresh.is_live) refl

  -- What a run of the loop from `s` to `t` does to the tree below `ptr`.
  pub record Grown (s t : State) (up ptr : ℕ) (tree : Tree) : Type 0 where
    pub is_tree : IsTree t.nodes up ptr (inserted q key value tree)
    pub others : (b : ℕ) → has tree b ≡ false → b ≢ q → Same s.nodes t.nodes b
    pub same_root : t.root ≡ s.root
    pub count : t.node_count + nodes_in tree ≡ s.node_count + nodes_in (inserted q key value tree)

  module _ (s u : State) (fresh : Fresh s u) (small : key < 2 ^ 32)
      (room : s.node_count + 1 < 2 ^ 64) (p k : ℕ) (xs : List ℕ) (up ptr : ℕ) where
    pub Grown-left :
        (r : Tree)
        → IsTree s.nodes up ptr (node leaf p k xs r)
        → has (node leaf p k xs r) q ≡ false
        → Distinct (node leaf p k xs r)
        → key < k
        → Grown s (counted u (left_of p (filled p u.nodes))) up ptr (node leaf p k xs r)
    unfolding inserted
    Grown-left r is out d h =
        let ne : p ≢ q = λ e. ground (arith, e, out) in
        let here = fresh.others p ne in
        let kept : (b : ℕ) → b ≢ p → b ≢ q → Same s.nodes (left_of p (filled p u.nodes)) b =
          λ b np nq.
            (let at = fresh.others b nq in
              record {
                live = at.live;
                parent = ground (arith, nq, at.parent);
                left = ground (arith, np, at.left);
                right = at.right;
                key = ground (arith, nq, at.key);
                bucket = ground (arith, nq, at.bucket);
              }) in
        record {
          is_tree =
              rw (lt_ne h, lt_test h)
                (
                  is.0,
                  is.1,
                  here.live ∙ is.2,
                  ground (arith, ne, here.parent, is.3),
                  ground (arith, ne, here.key, is.4),
                  ground (arith, ne, here.bucket, is.5),
                  (
                    ground arith,
                    fresh.not_null,
                    fresh.is_live,
                    ground arith,
                    ground (arith, small),
                    ground arith,
                    ground (arith, ne, fresh.no_left),
                    fresh.no_right,
                  ),
                  subst (λ c. IsTree (left_of p (filled p u.nodes)) p c r) (sym here.right)
                      (IsTree-frame s.nodes (left_of p (filled p u.nodes)) r p (s.nodes.right p)
                        (λ b hit.
                          kept b (λ e. ground (arith, e, hit, d.1))
                            (λ e. ground (arith, e, hit, out)))
                        is.7),
                );
          others = λ b away nq. kept b (ground (arith, away)) nq;
          same_root = fresh.same_root;
          count = ground (arith, h, fresh.same_count, room);
        }

    pub Grown-right :
        (l : Tree)
        → IsTree s.nodes up ptr (node l p k xs leaf)
        → has (node l p k xs leaf) q ≡ false
        → Distinct (node l p k xs leaf)
        → k < key
        → Grown s (counted u (right_of p (filled p u.nodes))) up ptr (node l p k xs leaf)
    unfolding inserted
    Grown-right l is out d h =
        let ne : p ≢ q = λ e. ground (arith, e, out) in
        let here = fresh.others p ne in
        let kept : (b : ℕ) → b ≢ p → b ≢ q → Same s.nodes (right_of p (filled p u.nodes)) b =
          λ b np nq.
            (let at = fresh.others b nq in
              record {
                live = at.live;
                parent = ground (arith, nq, at.parent);
                left = at.left;
                right = ground (arith, np, at.right);
                key = ground (arith, nq, at.key);
                bucket = ground (arith, nq, at.bucket);
              }) in
        record {
          is_tree =
              rw (gt_ne h, gt_test h)
                (
                  is.0,
                  is.1,
                  here.live ∙ is.2,
                  ground (arith, ne, here.parent, is.3),
                  ground (arith, ne, here.key, is.4),
                  ground (arith, ne, here.bucket, is.5),
                  subst (λ c. IsTree (right_of p (filled p u.nodes)) p c l) (sym here.left)
                      (IsTree-frame s.nodes (right_of p (filled p u.nodes)) l p (s.nodes.left p)
                        (λ b hit.
                          kept b (λ e. ground (arith, e, hit, d.0))
                            (λ e. ground (arith, e, hit, out)))
                        is.6),
                  (
                    ground arith,
                    fresh.not_null,
                    fresh.is_live,
                    ground arith,
                    ground (arith, small),
                    ground arith,
                    fresh.no_left,
                    ground (arith, ne, fresh.no_right),
                  ),
                );
          others = λ b away nq. kept b (ground (arith, away)) nq;
          same_root = fresh.same_root;
          count = ground (arith, h, fresh.same_count, room);
        }

  module _ (s : State) (p k : ℕ) (xs : List ℕ) (l r : Tree) (up ptr : ℕ)
      (is : IsTree s.nodes up ptr (node l p k xs r)) (out : has (node l p k xs r) q ≡ false)
      (d : Distinct (node l p k xs r)) where
    ne : p ≢ q
    ne e = ground (arith, e, out)

    -- The key is that of the node: its bucket grows.
    pub Grown-bucket :
        key ≡ k
        → Grown s
            (record s {
              nodes = record s.nodes {
                bucket = update s.nodes.bucket p (sound (xs ++ value ∷ []));
              };
            })
            up
            ptr
            (node l p k xs r)
    unfolding inserted
    Grown-bucket e =
        let m : Nodes = record s.nodes {
          bucket = update s.nodes.bucket p (sound (xs ++ value ∷ []));
        } in
        let kept : (b : ℕ) → b ≢ p → Same s.nodes m b = λ b np. record {
          live = refl;
          parent = refl;
          left = refl;
          right = refl;
          key = refl;
          bucket = ground (arith, np);
        } in
        record {
          is_tree = rw (eq_test e) (
            is.0,
            is.1,
            is.2,
            is.3,
            is.4,
            update_same s.nodes.bucket p (sound (xs ++ value ∷ [])),
            IsTree-frame s.nodes m l p (s.nodes.left p)
                (λ b hit. kept b (λ e. ground (arith, e, hit, d.0))) is.6,
            IsTree-frame s.nodes m r p (s.nodes.right p)
                (λ b hit. kept b (λ e. ground (arith, e, hit, d.1))) is.7,
          );
          others = λ b away nq. kept b (ground (arith, away));
          same_root = refl;
          count = ground (arith, e);
        }

    -- The subtree on the left grows.
    pub Grown-below :
        (t : State) → key < k → Grown s t p (s.nodes.left p) l → Grown s t up ptr (node l p k xs r)
    unfolding inserted
    Grown-below t h g =
        let here = g.others p d.0 ne in
        record {
          is_tree =
              rw (lt_ne h, lt_test h)
                (
                  is.0,
                  is.1,
                  here.live ∙ is.2,
                  here.parent ∙ is.3,
                  here.key ∙ is.4,
                  here.bucket ∙ is.5,
                  subst (λ c. IsTree t.nodes p c (inserted q key value l)) (sym here.left)
                      g.is_tree,
                  subst (λ c. IsTree t.nodes p c r) (sym here.right)
                      (IsTree-outside s.nodes t.nodes l r q p (s.nodes.right p) g.others
                        (Apart-sym l r d.2) (ground (arith, out)) is.7),
                );
          others = λ b away nq. g.others b (ground (arith, away)) nq;
          same_root = g.same_root;
          count = rw (lt_ne h, lt_test h) (omega (arith, g.count));
        }

    -- The subtree on the right grows.
    pub Grown-above :
        (t : State) → k < key → Grown s t p (s.nodes.right p) r → Grown s t up ptr (node l p k xs r)
    unfolding inserted
    Grown-above t h g =
        let here = g.others p d.1 ne in
        record {
          is_tree =
              rw (gt_ne h, gt_test h)
                (
                  is.0,
                  is.1,
                  here.live ∙ is.2,
                  here.parent ∙ is.3,
                  here.key ∙ is.4,
                  here.bucket ∙ is.5,
                  subst (λ c. IsTree t.nodes p c l) (sym here.left)
                      (IsTree-outside s.nodes t.nodes r l q p (s.nodes.left p) g.others d.2
                        (ground (arith, out)) is.6),
                  subst (λ c. IsTree t.nodes p c (inserted q key value r)) (sym here.right)
                      g.is_tree,
                );
          others = λ b away nq. g.others b (ground (arith, away)) nq;
          same_root = g.same_root;
          count = rw (gt_ne h, gt_test h) (omega (arith, g.count));
        }
