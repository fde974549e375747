-- ===== src/Tmpfs/Nodes.antt =====
-- kernel/src/filesystem/tmpfs.c: the numbers of nodes, new nodes, and the entries of a directory.
use dionys_os.Prelude.{
  ℕ, zero, suc, ◌+◌, ◌-◌, ◌*◌, ◌/◌, ◌%◌, ◌^◌, ◌||◌, not, ltb, ◌==◌, if◌then◌else◌, Option, none,
  some, update, Run, ok, panic, fault, hang, Cmd, ◌>>=◌, ◌>>◌, pure, bit_or, bit_and, first_clear,
}
use dionys_os.CString.{Memory, safe_strcmp, safe_strcpy}
use dionys_os.Tmpfs.{
  null, page_size, max_tmpfs_entries, TmpfsNode, node_name, Tmpfs, state, modify, get_node,
  set_node,
}
use dionys_os.Tmpfs.Files.{find_tmpfs_node_from_vnode}

-- A byte is marked, or the next ones are looked at.
unfoldable pub mark_number : (i : ℕ) → Option ℕ → Cmd Tmpfs ℕ → Cmd Tmpfs ℕ
mark_number i none later = later
mark_number i (some j) later = do
  modify (λ s. record s {
    tmpfs_node_number_bitmap =
        update s.tmpfs_node_number_bitmap i (bit_or (s.tmpfs_node_number_bitmap i) (2 ^ j) % 256);
  })
  pure (i * 8 + j)

-- The loop over the bytes from `i` on, with `left` of them to go.
unfoldable pub bitmap_loop : (left i : ℕ) → Cmd Tmpfs ℕ
unfolding mark_number
bitmap_loop zero i s = panic
bitmap_loop (suc left) i s =
    let later = bitmap_loop left (i + 1) in
    if s.tmpfs_node_number_bitmap i == 0xFF
    then later s
    else mark_number i (first_clear 8 0 (s.tmpfs_node_number_bitmap i)) later s

unfoldable pub tmpfs_node_bitmap_get : Cmd Tmpfs ℕ
unfolding bitmap_loop
tmpfs_node_bitmap_get = bitmap_loop page_size 0

unfoldable pub tmpfs_node_bitmap_free : (node_number : ℕ) → Cmd Tmpfs (Unit {0})
tmpfs_node_bitmap_free node_number = modify (λ s. record s {
  tmpfs_node_number_bitmap = update s.tmpfs_node_number_bitmap (node_number / 8) (
      bit_and (s.tmpfs_node_number_bitmap (node_number / 8)) (2 ^ 64 - 1 - 2 ^ (node_number % 8))
      % 256);
})

-- A place in the array of a directory.
abbrev pub get_dirent : TmpfsNode → ℕ → Cmd Tmpfs ℕ
get_dirent n i s = if ltb i max_tmpfs_entries then ok (n.entries i) s else fault

-- The loop of `tmpfs_find_child`, with `left` entries to go.
unfoldable pub child_loop : (left i name : ℕ) → TmpfsNode → Cmd Tmpfs ℕ
child_loop zero i name n = pure null
child_loop (suc left) i name n = do
  entry ← get_dirent n i
  s ← state
  if safe_strcmp (node_name entry) name 128 s.byte == 0
      then child_loop left (i + 1) name n
      else pure entry

-- `VNODE_DIRECTORY` is 0.
unfoldable pub tmpfs_find_child : (node name : ℕ) → Cmd Tmpfs ℕ
unfolding child_loop
tmpfs_find_child node name = do
  n ← get_node node
  if not (n.node_type == 0) then pure null else child_loop n.tmpfs_node_size 0 name n

unfoldable pub insert_tmpfs_node_into_parent_directory_entries : (node : ℕ) → Cmd Tmpfs (Unit {0})
insert_tmpfs_node_into_parent_directory_entries node = do
  n ← get_node node
  p ← get_node n.parent_tmpfs_node
  if not (p.node_type == 0)
      then (λ s. panic)
      else if ltb p.tmpfs_node_size max_tmpfs_entries
      then set_node n.parent_tmpfs_node (λ m. record m {
        entries = update m.entries m.tmpfs_node_size node;
        tmpfs_node_size = m.tmpfs_node_size + 1;
      })
      else (λ s. fault)

abbrev part {κ} : {A : Type κ} → (Memory → Tmpfs) → Run Memory A → Run Tmpfs A
part put (ok a m) = ok a (put m)
part put panic = panic
part put fault = fault
part put hang = hang

abbrev pub on_bytes {κ} : {A : Type κ} → Cmd Memory A → Cmd Tmpfs A
on_bytes run s = part (λ m. record s { byte = m }) (run s.byte)

-- `fresh` is the memory of the node, which is cleared. The types are those of a directory, a file
-- and a symbolic link.
unfoldable pub conjure_new_tmpfs_node : (fresh name type : ℕ) → Cmd Tmpfs ℕ
unfolding safe_strcpy
conjure_new_tmpfs_node fresh name type = do
  modify (λ s. record s {
    node_at = update s.node_at fresh (
        some (record {
          parent_tmpfs_node = null;
          tmpfs_node_number = 0;
          tmpfs_node_size = 0;
          node_type = type;
          page_list = record { head = null; tail = null; node_count = 0 };
          entries = λ i. null;
        }));
  })
  on_bytes (safe_strcpy (node_name fresh) name 128)
  if (type == 0) || (type == 1) || (type == 8) then pure fresh else (λ s. panic)

-- The result is the node; the vnode is made from its fields.
unfoldable pub tmpfs_create : (fresh parent name type : ℕ) → Cmd Tmpfs ℕ
unfolding find_tmpfs_node_from_vnode conjure_new_tmpfs_node tmpfs_node_bitmap_get
    insert_tmpfs_node_into_parent_directory_entries
tmpfs_create fresh parent name type = do
  parent_node ← find_tmpfs_node_from_vnode parent
  child ← conjure_new_tmpfs_node fresh name type
  number ← tmpfs_node_bitmap_get
  set_node child (λ n. record n { tmpfs_node_number = number; parent_tmpfs_node = parent_node })
  modify (λ s. record s {
    tmpfs_node_count = (s.tmpfs_node_count + 1) % 2 ^ 64;
    node_tree = update s.node_tree number child;
  })
  insert_tmpfs_node_into_parent_directory_entries child
  pure child

unfoldable pub tmpfs_rename : (vnode name : ℕ) → Cmd Tmpfs (Unit {0})
unfolding find_tmpfs_node_from_vnode safe_strcpy
tmpfs_rename vnode name = do
  node ← find_tmpfs_node_from_vnode vnode
  on_bytes (safe_strcpy (node_name node) name 128)

-- `sizeof(struct tmpfs_node)`
abbrev pub sizeof_node : ℕ
sizeof_node = 184

-- The walk moves from one node to the memory behind it, not to the next entry.
unfoldable pub dirent_walk : (fuel current_node node_to_remove index : ℕ) → Cmd Tmpfs ℕ
dirent_walk zero current_node node_to_remove index = λ s. hang
dirent_walk (suc fuel) current_node node_to_remove index =
    let rest =
      dirent_walk fuel ((current_node + sizeof_node) % 2 ^ 64) node_to_remove (index + 1) in
    if current_node == null
    then (λ s. panic)
    else if current_node == node_to_remove
    then pure index
    else rest

unfoldable pub tmpfs_remove_dirent_in_parent_directory :
    (fuel node_to_remove : ℕ) → Cmd Tmpfs (Unit {0})
unfolding dirent_walk
tmpfs_remove_dirent_in_parent_directory fuel node_to_remove = do
  n ← get_node node_to_remove
  p ← get_node n.parent_tmpfs_node
  index ← dirent_walk fuel (p.entries 0) node_to_remove 0
  checked ← get_dirent p index
  last ← if p.tmpfs_node_size == 0 then (λ s. fault) else get_dirent p (p.tmpfs_node_size - 1)
  set_node n.parent_tmpfs_node (λ m. record m {
    entries = update m.entries index (if p.tmpfs_node_size - 1 == index then null else last);
    tmpfs_node_size = m.tmpfs_node_size - 1;
  })
