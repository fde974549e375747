-- ===== src/BinaryTree/Removing.antt =====
-- kernel/src/data_structures/binary_tree.c: removal and lookup.
use dionys_os.Prelude.{
  ℕ, zero, suc, ◌+◌, ◌-◌, ◌^◌, Bool, true, false, ltb, ◌==◌, not, if◌then◌else◌, [], ◌∷◌, length,
  update, ok, panic, fault, hang, Cmd, ◌>>=◌, ◌>>◌, pure, ◌&&◌,
}
use dionys_os.BinaryTree.{
  Nodes, State, null, on_nodes, read, get_root, set_parent, set_left, set_right, set_bucket,
  set_node_count, kern_success, value_not_found, bad_tree_mode, is_static, is_free,
}
use dionys_os.SinglyLinkedList.Values.{values_in, remove_by_address, or_fault}

-- `node_free`. A static node is unlinked from its parent, as the right child if it is that one and
-- else as the left one, and cleared.
unfoldable pub node_free : ℕ → Cmd State (Unit {0})
node_free p = do
  f ← read (λ n. n.flags) p
  if is_static f
      then (do
        up ← read (λ n. n.parent) p
        (if up == null then pure tt else (do
          r ← read (λ n. n.right) up
          if r == p then set_right up null else set_left up null))
        on_nodes p (λ n. record n {
          flags = update n.flags p (if is_free f then f else f + 2);
          parent = update n.parent p null;
          left = update n.left p null;
          right = update n.right p null;
          key = update n.key p 65535;
        })
        (λ s. ok tt (record s { pool_full = false })))
      else on_nodes p (λ n. record n { live = update n.live p false })

-- `singly_linked_list_remove_node_by_address` on the bucket of `current`, with whether the address
-- was there.
unfoldable pub remove_from_bucket : (current address : ℕ) → Cmd State Bool
unfolding remove_by_address
remove_from_bucket current address = do
  values ← read (λ n. n.bucket) current
  found ← or_fault (remove_by_address address values)
  if found.0 then (do set_bucket current found.1; pure true) else pure false

-- The parent's link to `current` becomes `child`: the left one if it is `current`, else the right one.
unfoldable pub replace_child : (current child : ℕ) → Cmd State (Unit {0})
replace_child current child = do
  up ← read (λ n. n.parent) current
  l ← read (λ n. n.left) up
  if l == current then set_left up child else set_right up child

unfoldable pub drop_node : ℕ → Cmd State ℕ
unfolding node_free
drop_node current = do
  node_free current
  set_node_count (λ c. if c == 0 then 2 ^ 64 - 1 else c - 1)
  pure kern_success

-- The leftmost node below `right_min`, with its parent.
unfoldable pub find_right_min : (fuel right_min right_min_parent : ℕ) → Cmd State (ℕ × ℕ)
find_right_min zero right_min right_min_parent = λ _. hang
find_right_min (suc fuel) right_min right_min_parent = do
  l ← read (λ n. n.left) right_min
  if l == null then pure (right_min, right_min_parent) else find_right_min fuel l right_min

-- The removal of a node with two children: the leftmost node on its right takes its place.
unfoldable pub remove_inner : (fuel current left right : ℕ) → Cmd State ℕ
unfolding find_right_min drop_node
remove_inner fuel current left right = do
  up ← read (λ n. n.parent) current
  found ← find_right_min fuel right current
  let right_min = found.0
  let right_min_parent = found.1
  right_of_min ← read (λ n. n.right) right_min
  (if right_min_parent == current
      then set_right right_min_parent right_of_min
      else set_left right_min_parent right_of_min)
  set_left right_min left
  r ← read (λ n. n.right) current
  set_right right_min r
  set_parent right_min up
  (if up == null then pure tt else (do
    l ← read (λ n. n.left) up
    if l == current then set_left up right_min else set_right up right_min))
  drop_node current

-- The removal at a node whose key is the one that is removed.
unfoldable pub remove_at : (fuel current address : ℕ) → Cmd State ℕ
unfolding remove_from_bucket replace_child drop_node remove_inner
remove_at fuel current address = do
  values ← read (λ n. n.bucket) current
  l ← read (λ n. n.left) current
  r ← read (λ n. n.right) current
  if ltb 1 (length (values_in values))
      then (do
        gone ← remove_from_bucket current address
        pure (if gone then kern_success else value_not_found))
      else if (l == null) && (r == null)
      then (do replace_child current null; drop_node current)
      else if l == null
      then (do
        replace_child current r
        up ← read (λ n. n.parent) current
        set_parent r up
        drop_node current)
      else if r == null
      then (do
        replace_child current l
        up ← read (λ n. n.parent) current
        set_parent l up
        drop_node current)
      else remove_inner fuel current l r

-- The descent to the key.
unfoldable pub remove_loop : (fuel current key address : ℕ) → Cmd State ℕ
unfolding remove_at
remove_loop zero current key address = λ _. hang
remove_loop (suc fuel) current key address = do
  k ← read (λ n. n.key) current
  if key == k then remove_at fuel current address else (do
    child ← read (if ltb key k then (λ n. n.left) else (λ n. n.right)) current
    if child == null then pure value_not_found else remove_loop fuel child key address)

-- `node` is null where the removal starts at the root.
unfoldable pub remove_binary_tree : (fuel key address node : ℕ) → Cmd State ℕ
unfolding remove_loop
remove_binary_tree fuel key address node = do
  root ← get_root
  let current = if node == null then root else node
  if current == null then pure value_not_found else (do
    root_key ← read (λ n. n.key) root
    if key == root_key
        then (do
          gone ← remove_from_bucket current address
          if gone then pure kern_success else (λ _. panic))
        else remove_loop fuel current key address)

unfoldable pub remove_tree_node : (fuel key address node : ℕ) → Cmd State ℕ
unfolding remove_binary_tree
remove_tree_node fuel key address node s =
    if s.mode == 1
    then remove_binary_tree fuel key address node s
    else if s.mode == 2
    then fault
    else ok bad_tree_mode s

-- The child that a lookup goes on with. A node that is its own child loses that link.
unfoldable pub next_child :
    (get : Nodes → ℕ → ℕ) (set : ℕ → ℕ → Cmd State (Unit {0})) (current : ℕ) → Cmd State ℕ
next_child get set current = do
  c ← read get current
  if c == current then (do set current null; pure null) else pure c

-- The descent of a lookup; null where the key is not there.
unfoldable pub lookup_loop : (remove : Bool) (fuel current key : ℕ) → Cmd State ℕ
unfolding remove_tree_node next_child
lookup_loop remove zero current key = λ _. hang
lookup_loop remove (suc fuel) current key = do
  k ← read (λ n. n.key) current
  if key == k
      then (do
        values ← read (λ n. n.bucket) current
        (elim (values_in values) [
          | [] ↦ (λ _. fault)
          | x ∷ xs ↦
              (if remove then (do status ← remove_tree_node fuel key x current; pure x) else pure x)
        ]))
      else (do
        child ←
            (if ltb key k
              then next_child (λ n. n.left) set_left current
              else next_child (λ n. n.right) set_right current)
        if child == null then pure null else lookup_loop remove fuel child key)

-- The source passes `remove` as a number, of which every one but 0 removes: so does
-- `DO_NOT_REMOVE_FROM_TREE`, which is 2.
unfoldable pub lookup_tree : (fuel key remove : ℕ) → Cmd State ℕ
unfolding lookup_loop
lookup_tree fuel key remove = do
  current ← get_root
  if current == null then pure null else lookup_loop (not (remove == 0)) fuel current key
