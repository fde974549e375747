-- ===== src/BinaryTree/Removal.antt =====
-- Removals that take a node away, or leave its bucket empty.
use dionys_os.Prelude.{
  not_eq, update_same, ℕ, suc, ◌+◌, ◌-◌, ◌^◌, ◌≡◌, ◌≢◌, true, false, ◌==◌, if◌then◌else◌, [], ◌∷◌,
  arith, refl, sym, inl, inr, Bool-cases, update, ok, fault,
}
use dionys_os.BinaryTree.{
  insert_binary_tree, insert_loop, insert_bucket, Nodes, State, null, is_free, is_static,
}
use dionys_os.BinaryTree.Removing.{
  lookup_loop, lookup_tree, remove_tree_node, remove_binary_tree, remove_at, remove_from_bucket,
  replace_child, drop_node, node_free,
}
use dionys_os.SinglyLinkedList.Values.{
  insert_last, sound, stale, remove_by_address-head, remove_by_address-second,
}
use dionys_os.BinaryTree.Search.{eq_test}
use dionys_os.BinaryTree.Taking.{is_regular}
use dionys_os.BinaryTree.Preservation.{is_not_null}

module _ (s : State) (p up x : ℕ) (live_p : s.nodes.live p ≡ true)
    (live_up : s.nodes.live up ≡ true) (some_parent : up ≢ null) (apart : up ≢ p)
    (not_null : p ≢ null) (its_values : s.nodes.bucket p ≡ sound (x ∷ []))
    (no_left : s.nodes.left p ≡ null) (no_right : s.nodes.right p ≡ null)
    (its_parent : s.nodes.parent p ≡ up) (on_right : s.nodes.right up ≡ p)
    (not_left : s.nodes.left up ≢ p) where
  abbrev unlinked : Nodes
  unlinked = record s.nodes { right = update s.nodes.right up null }

  abbrev fewer : ℕ
  fewer = if s.node_count == 0 then 2 ^ 64 - 1 else s.node_count - 1

  abbrev after_heap : State
  after_heap = record s {
    nodes = record unlinked { live = update s.nodes.live p false };
    node_count = fewer;
  }

  abbrev after_static : State
  after_static = record s {
    nodes = record unlinked {
      flags =
          update s.nodes.flags p
            (if is_free (s.nodes.flags p) then s.nodes.flags p else s.nodes.flags p + 2);
      parent = update s.nodes.parent p null;
      left = update (update s.nodes.left up null) p null;
      right = update (update s.nodes.right up null) p null;
      key = update s.nodes.key p 65535;
    };
    pool_full = false;
    node_count = fewer;
  }

  run-replace_child : replace_child p null s ≡ ok tt (record s { nodes = unlinked })
  unfolding replace_child
  run-replace_child = rw (live_p, its_parent, live_up, not_eq not_left, live_up) refl

  run-node_free_heap :
      is_static (s.nodes.flags p) ≡ false
      → node_free p (record s { nodes = unlinked })
        ≡ ok tt (record s { nodes = record unlinked { live = update s.nodes.live p false } })
  unfolding node_free
  run-node_free_heap heap = rw (live_p, heap, live_p) refl

  run-node_free_static :
      is_static (s.nodes.flags p) ≡ true
      → node_free p (record s { nodes = unlinked })
        ≡ ok tt (record after_static { node_count = s.node_count })
  unfolding node_free
  run-node_free_static static =
      rw
        (
          live_p,
          static,
          live_p,
          its_parent,
          is_not_null some_parent,
          live_up,
          update_same s.nodes.right up null,
          not_eq (λ e. not_null (sym e)),
          live_up,
          live_p,
        )
        refl

  module _ (fuel : ℕ) (t : State)
      (run : (drop_node p) (record s { nodes = unlinked }) ≡ ok 0 t) where
    run-remove_at : remove_at fuel p x s ≡ ok 0 t
    unfolding remove_at
    run-remove_at =
        rw (live_p, its_values, live_p, live_p, no_left, no_right, run-replace_child, run) refl

  -- For a live parent that is not null, and its right child, a live leaf with one value that is
  -- not its left child, the removal at the child succeeds and leaves the parent without a right
  -- child; where the removed node is one of the static pool, it also leaves the parent without
  -- its left child.
  remove_at-right_leaf :
      (fuel : ℕ)
      → (t : State) × (remove_at fuel p x s ≡ ok 0 t)
        × (t.nodes.right up ≡ null)
        × (t.nodes.left up ≡ (if is_static (s.nodes.flags p) then null else s.nodes.left up))
  unfolding drop_node
  remove_at-right_leaf fuel = elim (Bool-cases (is_static (s.nodes.flags p))) [
    | inl static ↦ (
      after_static,
      run-remove_at fuel after_static (rw (run-node_free_static static) refl),
      ground (arith, apart),
      rw static (ground (arith, apart)),
    )
    | inr heap ↦ (
      after_heap,
      run-remove_at fuel after_heap (rw (run-node_free_heap heap) refl),
      update_same s.nodes.right up null,
      rw heap refl,
    )
  ]

-- Where the bucket of a live root of a regular tree holds one value, a lookup of its key that
-- removes returns the value, and a second such lookup is a fault.
lookup_tree-emptied_root :
    (s : State) (fuel key x : ℕ)
    → s.mode ≡ 1
    → s.root ≢ null
    → s.nodes.live s.root ≡ true
    → s.nodes.key s.root ≡ key
    → s.nodes.bucket s.root ≡ sound (x ∷ [])
    → (t : State) × (lookup_tree (suc fuel) key 1 s ≡ ok x t)
      × (lookup_tree (suc fuel) key 1 t ≡ fault)
unfolding lookup_tree lookup_loop remove_tree_node remove_binary_tree remove_from_bucket
lookup_tree-emptied_root s fuel key x regular some_root live its_key its_values = (
  record s { nodes = record s.nodes { bucket = update s.nodes.bucket s.root (sound []) } },
  rw
      (
        is_not_null some_root,
        live,
        eq_test (sym its_key),
        live,
        its_values,
        is_regular regular,
        is_not_null some_root,
        is_not_null some_root,
        live,
        eq_test (sym its_key),
        live,
        its_values,
        remove_by_address-head x [],
        live,
      )
      refl,
  rw
      (
        is_not_null some_root,
        live,
        eq_test (sym its_key),
        live,
        update_same s.nodes.bucket s.root (sound []),
      )
      refl,
)

-- Where the bucket of a live root of a regular tree holds the values x and y, which differ, the
-- removal of y succeeds, and an insertion of any value with the key of the root is then a fault.
remove_tree_node-loses_tail :
    (pool_node : ℕ → ℕ) (heap : ℕ) (s : State) (fuel key value x y : ℕ)
    → s.mode ≡ 1
    → s.root ≢ null
    → s.nodes.live s.root ≡ true
    → s.nodes.key s.root ≡ key
    → s.nodes.bucket s.root ≡ sound (x ∷ y ∷ [])
    → x ≢ y
    → (t : State) × (remove_tree_node fuel key y null s ≡ ok 0 t)
      × (insert_binary_tree pool_node heap (suc fuel) value key t ≡ fault)
unfolding remove_tree_node remove_binary_tree remove_from_bucket insert_binary_tree insert_loop
    insert_bucket insert_last
remove_tree_node-loses_tail pool_node heap s fuel key value x y regular some_root live its_key
      its_values apart =
    (
      record s {
        nodes = record s.nodes { bucket = update s.nodes.bucket s.root (stale (x ∷ [])) };
      },
      rw
          (
            is_regular regular,
            is_not_null some_root,
            live,
            eq_test (sym its_key),
            live,
            its_values,
            remove_by_address-second x y apart,
            live,
          )
          refl,
      rw
          (
            is_not_null some_root,
            live,
            eq_test (sym its_key),
            live,
            update_same s.nodes.bucket s.root (stale (x ∷ [])),
          )
          refl,
    )
