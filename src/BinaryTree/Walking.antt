-- ===== src/BinaryTree/Walking.antt =====
-- kernel/src/data_structures/binary_tree.c: the walk over all nodes, and the release of a tree.
use dionys_os.Prelude.{
  ℕ, zero, suc, ◌+◌, ◌-◌, ◌≤◌, ◌<◌, ◌≡◌, ◌≢◌, true, false, ◌&&◌, ltb, ◌==◌, not, if◌then◌else◌,
  List, [], ◌∷◌, ◌++◌, append_assoc, length, arith, refl, sym, ap, ◌∙◌, ok, fault, hang, Cmd, ◌>>=◌,
  ◌>>◌, pure, lt→ltb,
}
use dionys_os.BinaryTree.{
  Nodes, State, null, read, get_root, set_left, set_right, set_node_count, kern_success,
}
use dionys_os.BinaryTree.Removing.{node_free}
use dionys_os.BinaryTree.Shape.{Tree, leaf, node, nodes_in, IsTree, IsBinaryTree}
use dionys_os.BinaryTree.Preservation.{is_not_null}

-- A child goes onto the stack, which has room for `node_count` nodes.
abbrev push : ℕ → List ℕ → Cmd State (List ℕ)
push child stack s =
    if child == null
    then ok stack s
    else if ltb (length stack) s.node_count
    then ok (child ∷ stack) s
    else fault

-- The nodes that the callback sees, for the nodes on the stack.
unfoldable pub visit : (fuel : ℕ) → List ℕ → Cmd State (List ℕ)
visit fuel [] = pure []
visit zero (p ∷ stack) = λ _. hang
visit (suc fuel) (p ∷ stack) = do
  r ← read (λ n. n.right) p
  with_right ← push r stack
  l ← read (λ n. n.left) p
  with_left ← push l with_right
  rest ← visit fuel with_left
  pure (p ∷ rest)

-- `for_each_node_in_tree`, for a callback that leaves the tree alone.
unfoldable pub for_each_node_in_tree : (fuel : ℕ) → Cmd State (List ℕ)
unfolding visit
for_each_node_in_tree fuel = do
  root ← get_root
  if root == null then pure [] else visit fuel (root ∷ [])

-- The loop of `destroy_tree`.
unfoldable pub destroy_loop : (fuel current : ℕ) → Cmd State ℕ
unfolding node_free
destroy_loop zero current = λ _. hang
destroy_loop (suc fuel) current = λ s.
    if s.node_count == 0
    then ok kern_success s
    else (do
      l ← read (λ n. n.left) current
      r ← read (λ n. n.right) current
      next ←
          (if (l == null) && (r == null)
            then (do
              up ← read (λ n. n.parent) current
              up_left ← read (λ n. n.left) up
              (if up_left == current then set_left up null else set_right up null)
              node_free current
              set_node_count (λ c. c - 1)
              pure up)
            else pure current)
      next_left ← read (λ n. n.left) next
      next_right ← read (λ n. n.right) next
      destroy_loop fuel (
          if not (next_left == null)
          then next_left
          else if not (next_right == null)
          then next_right
          else next))
        s

-- The header of the tree is freed at the end.
unfoldable pub destroy_tree : (fuel : ℕ) → Cmd State ℕ
unfolding destroy_loop
destroy_tree fuel = do
  root ← get_root
  if root == null then pure kern_success else destroy_loop fuel root

-- The nodes of a tree, each before those below it, the left ones first.
abbrev pub preorder : Tree → List ℕ
preorder leaf = []
preorder (node l p k xs r) = p ∷ preorder l ++ preorder r

abbrev Forest : Type 0
Forest = List Tree

abbrev preorders : Forest → List ℕ
preorders [] = []
preorders (t ∷ ts) = preorder t ++ preorders ts

abbrev total : Forest → ℕ
total [] = 0
total (t ∷ ts) = nodes_in t + total ts

-- The nodes on the stack are the roots of the trees.
abbrev AreRoots : Nodes → List ℕ → Forest → Type 0
AreRoots m [] [] = Unit
AreRoots m [] (t ∷ ts) = ⊥
AreRoots m (p ∷ ps) [] = ⊥
AreRoots m (p ∷ ps) (t ∷ ts) = ((up : ℕ) × IsTree m up p t) × (p ≢ null) × AreRoots m ps ts

-- Every root is a node.
length-le : (m : Nodes) (ps : List ℕ) (ts : Forest) → AreRoots m ps ts → length ps ≤ total ts
length-le m [] [] roots = omega arith
length-le m [] (t ∷ ts) roots = absurd roots
length-le m (p ∷ ps) [] roots = absurd roots
length-le m (p ∷ ps) (leaf ∷ ts) roots = absurd (roots.1 roots.0.1)
length-le m (p ∷ ps) (node l q k xs r ∷ ts) roots = omega (arith, length-le m ps ts roots.2)

null_test : {n : ℕ} → n ≡ null → (n == null) ≡ true
null_test e = ground (arith, e)

counted : {n : ℕ} → n ≡ 1 + 0 + 0 → (n == 0) ≡ false
counted e = ground (arith, e)

append_nil : (ys : List ℕ) → ys ++ [] ≡ ys
append_nil [] = refl
append_nil (y ∷ ys) = ap (λ zs. y ∷ zs) (append_nil ys)

module _ (s : State) where
  -- The stack after a child is pushed, if it is a node.
  abbrev Pushed : (child : ℕ) (stack : List ℕ) → Tree → Forest → Type 0
  Pushed child stack t ts =
      (stack' : List ℕ) × (ts' : Forest) × (push child stack s ≡ ok stack' s)
      × AreRoots s.nodes stack' ts'
      × (preorders ts' ≡ preorder t ++ preorders ts)
      × (total ts' ≡ nodes_in t + total ts)

  push-Pushed :
      (up child : ℕ) (stack : List ℕ) (t : Tree) (ts : Forest)
      → IsTree s.nodes up child t
      → AreRoots s.nodes stack ts
      → total ts < s.node_count
      → Pushed child stack t ts
  push-Pushed up child stack leaf ts is roots room =
      (stack, ts, ground (arith, is), roots, refl, omega arith)
  push-Pushed up child stack (node l p k xs r) ts is roots room =
      let some_child : child ≢ null = λ e. is.1 (sym is.0 ∙ e) in
      (
        child ∷ stack,
        node l p k xs r ∷ ts,
        rw
            (
              is_not_null some_child,
              lt→ltb (length stack) s.node_count
                  (omega (arith, room, length-le s.nodes stack ts roots)),
            )
            refl,
        ((up, is), some_child, roots),
        refl,
        refl,
      )

  visit-preorders :
      (fuel : ℕ) (stack : List ℕ) (ts : Forest)
      → AreRoots s.nodes stack ts
      → total ts ≤ fuel
      → total ts ≤ s.node_count
      → visit fuel stack s ≡ ok (preorders ts) s
  unfolding visit
  visit-preorders fuel [] [] roots enough room = refl
  visit-preorders fuel [] (t ∷ ts) roots enough room = absurd roots
  visit-preorders fuel (p ∷ ps) [] roots enough room = absurd roots
  visit-preorders fuel (p ∷ ps) (leaf ∷ ts) roots enough room = absurd (roots.1 roots.0.1)
  visit-preorders zero (p ∷ ps) (node l q k xs r ∷ ts) roots enough room =
      absurd (omega (arith, enough))
  visit-preorders (suc fuel) (p ∷ ps) (node l q k xs r ∷ ts) roots enough room =
      let is = roots.0.1 in
      let right = push-Pushed q (s.nodes.right q) ps r ts is.7 roots.2 (omega (arith, room)) in
      let left =
        push-Pushed q (s.nodes.left q) right.0 l right.1 is.6 right.3
          (omega (arith, room, right.5)) in
      let rest =
        visit-preorders fuel left.0 left.1 left.3 (omega (arith, enough, left.5, right.5))
          (omega (arith, room, left.5, right.5)) in
      rw (is.0, is.2, right.2, is.2, left.2, rest)
        (ap (λ ys. ok (q ∷ ys) s)
          (left.4
            ∙ ap (λ zs. preorder l ++ zs) right.4
            ∙ sym (append_assoc (preorder l) (preorder r) (preorders ts))))

-- On a well-formed binary tree, with as many rounds as the tree has nodes, the walk over all
-- nodes ends, never overruns its stack of node_count places, and hands the nodes to the callback
-- in preorder; nothing changes.
pub for_each_node_in_tree-preorder :
    (s : State) (t : Tree) (fuel : ℕ)
    → IsBinaryTree s t
    → nodes_in t ≤ fuel
    → for_each_node_in_tree fuel s ≡ ok (preorder t) s
unfolding for_each_node_in_tree
for_each_node_in_tree-preorder s leaf fuel is enough = rw (null_test is.shape) refl
for_each_node_in_tree-preorder s (node l p k xs r) fuel is enough =
    let some_root : s.root ≢ null = λ e. is.shape.1 (sym is.shape.0 ∙ e) in
    let t = node l p k xs r in
    rw (is_not_null some_root) (
      visit-preorders s fuel (s.root ∷ []) (t ∷ []) ((null, is.shape), some_root, tt)
        (omega (arith, enough)) (omega (arith, is.count))
      ∙ ap (λ ys. ok ys s) (append_nil (preorder t)))

-- The release of a tree of one node.
destroy_tree-one_node :
    (s : State) (p k : ℕ) (xs : List ℕ) (fuel : ℕ)
    → IsBinaryTree s (node leaf p k xs leaf)
    → s.nodes.live null ≡ false
    → destroy_tree (suc fuel) s ≡ fault
unfolding destroy_tree destroy_loop
destroy_tree-one_node s p k xs fuel is no_null =
    let some_root : s.root ≢ null = λ e. is.shape.1 (sym is.shape.0 ∙ e) in
    let live : s.nodes.live s.root ≡ true = ap s.nodes.live is.shape.0 ∙ is.shape.2 in
    rw
      (
        is_not_null some_root,
        counted is.count,
        live,
        ap s.nodes.left is.shape.0 ∙ is.shape.6,
        live,
        ap s.nodes.right is.shape.0 ∙ is.shape.7,
        live,
        ap s.nodes.parent is.shape.0 ∙ is.shape.3,
        no_null,
      )
      refl
