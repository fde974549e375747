-- ===== src/Examples/Trees.antt =====
-- Binary trees in concrete memories.
use dionys_os.Prelude.{
  ℕ, ◌+◌, ◌*◌, ◌≡◌, ◌==◌, if◌then◌else◌, true, arith, refl, ok, List, [], ◌∷◌, ◌++◌, ◌>>=◌,
}
use dionys_os.BinaryTree.{State, null, from_heap, node_alloc, insert_binary_tree}
use dionys_os.SinglyLinkedList.Values.{sound}
use dionys_os.BinaryTree.Removing.{lookup_tree}
use dionys_os.BinaryTree.Shape.{Tree, leaf, node, IsBinaryTree}
use dionys_os.BinaryTree.Search.{inserted, values_of, with_values}
use dionys_os.BinaryTree.Insertion.{Fresh}
use dionys_os.BinaryTree.Preservation.{insert_binary_tree-inserted}
use dionys_os.BinaryTree.Lookup.{first, lookup_tree-insert_binary_tree}
use dionys_os.BinaryTree.Walking.{preorder, for_each_node_in_tree, for_each_node_in_tree-preorder}
use dionys_os.BinaryTree.Taking.{lookup_tree-takes}

-- A tree of one node, at 100, with the bucket `values` of the key 5. The pool is full.
abbrev one_node : List ℕ → State
one_node values = record {
  nodes = record {
    live = λ b. b == 100;
    parent = λ b. null;
    left = λ b. null;
    right = λ b. null;
    key = λ b. 5;
    bucket = λ b. sound values;
    flags = λ b. 1;
    index = λ b. 0;
  };
  root = 100;
  node_count = 1;
  mode = 1;
  pool_full = true;
  static_pool_init = true;
}

abbrev two_values : List ℕ
two_values = 50 ∷ 51 ∷ []

abbrev tree : Tree
tree = node leaf 100 5 two_values leaf

tree-IsBinaryTree : IsBinaryTree (one_node two_values) tree
tree-IsBinaryTree = record {
  shape = (refl, (λ e. omega (arith, e)), refl, refl, refl, refl, refl, refl);
  distinct = (refl, refl, (λ b h. refl), tt, tt);
  ordered = (omega arith, omega arith, tt, tt);
  filled = (omega arith, tt, tt);
  count = refl;
}

abbrev pool_node : ℕ → ℕ
pool_node i = 1000 + 64 * i

-- The node at 200 from the heap.
abbrev allocated : State
allocated = elim (from_heap 200 (one_node two_values)) [ ok a s ↦ s | _ ↦ one_node two_values ]

fresh : Fresh pool_node 200 200 30 3 (one_node two_values) allocated
unfolding node_alloc
fresh = record {
  allocates = refl;
  not_null = λ e. omega (arith, e);
  is_live = refl;
  no_left = refl;
  no_right = refl;
  others = λ b ne. record {
    live = ground (arith, ne);
    parent = ground (arith, ne);
    left = ground (arith, ne);
    right = ground (arith, ne);
    key = ground (arith, ne);
    bucket = ground (arith, ne);
  };
  same_root = refl;
  same_count = refl;
}

insert_binary_tree-inserted_example :
    (t : State) × (insert_binary_tree pool_node 200 9 30 3 (one_node two_values) ≡ ok 0 t)
    × IsBinaryTree t (inserted 200 3 30 tree)
insert_binary_tree-inserted_example =
    insert_binary_tree-inserted pool_node 200 200 30 3 (one_node two_values) allocated fresh
      (omega arith) (omega arith) 9 tree tree-IsBinaryTree refl (omega arith)

for_each_node_in_tree-preorder_example :
    for_each_node_in_tree 3 (one_node two_values) ≡ ok (preorder tree) (one_node two_values)
for_each_node_in_tree-preorder_example =
    for_each_node_in_tree-preorder (one_node two_values) tree 3 tree-IsBinaryTree (omega arith)

lookup_tree-insert_binary_tree_example :
    (t : State) × ((insert_binary_tree pool_node 200 9 30 3 >>= λ _. lookup_tree 9 5 0)
        (one_node two_values)
      ≡ ok (first (if 5 == 3 then values_of tree 3 ++ 30 ∷ [] else values_of tree 5)) t)
lookup_tree-insert_binary_tree_example =
    lookup_tree-insert_binary_tree pool_node 200 200 30 3 5 9 (one_node two_values) allocated tree
      fresh (omega arith) (omega arith) tree-IsBinaryTree refl (omega arith)

values : values_of tree 5 ≡ 50 ∷ 51 ∷ []
unfolding values_of
values = refl

lookup_tree-takes_example :
    (t : State) × (lookup_tree 9 5 1 (one_node two_values) ≡ ok 50 t)
    × IsBinaryTree t (with_values 5 (51 ∷ []) tree)
lookup_tree-takes_example =
    lookup_tree-takes (one_node two_values) tree 9 5 50 51 [] refl tree-IsBinaryTree values
      (omega arith)

-- A root at 100 with a child on each side, at 200 and at 300.
abbrev three_nodes : State
three_nodes = record (one_node (30 ∷ [])) {
  nodes = record (one_node (30 ∷ [])).nodes {
    live = λ b. true;
    parent = λ b. if b == 100 then null else 100;
    left = λ b. if b == 100 then 200 else null;
    right = λ b. if b == 100 then 300 else null;
  };
}
