-- ===== src/Vfs/Vnodes.antt =====
-- kernel/src/filesystem/vfs.c: vnodes, their children, and mount points. `list_lock` makes the
-- allocation and the release of a vnode one step each.
use dionys_os.Prelude.{
  ℕ, zero, suc, ◌+◌, ◌%◌, true, false, ◌&&◌, ◌||◌, not, ◌==◌, if◌then◌else◌, bit_or, none, some,
  panic, fault, Cmd, ◌>>=◌, ◌>>◌, pure,
}
use dionys_os.CString.{safe_strcmp, safe_strcpy}
use dionys_os.Spinlock.{Spinlock}
use dionys_os.SinglyLinkedList
use dionys_os.Vfs.{
  null, vfs_max_name_length, vnode_directory, vnode_hard_link, vnode_sym_link, kern_not_found,
  kern_wrong_type, Returned, kern_success, zeroed, vnode_name, has_child_memory, from_static_pool,
  Vfs, VnodeOperations, Env, state, modify, get_vnode, set_vnode, put_vnode, get_child, set_child,
  on_memory, on_pool, acquire_vfs_lock, release_vfs_lock,
}

-- A lock of zeroed memory after `initlock(lock, VFS_LOCK)`.
abbrev pub new_lock : Spinlock
new_lock = record {
  locked = 0;
  id = 3;
  cpu = 0;
  recursion_depth = 0;
  holding_process = 0;
  interrupts = true;
}

-- `fresh` is what the heap returns for a new vnode.
unfoldable pub vnode_alloc : (fresh : ℕ) → Cmd Vfs ℕ
unfolding SinglyLinkedList.remove_head
vnode_alloc fresh = do
  s ← state
  if s.vnode_static_pool.head == null
      then (if fresh == null then (λ t. fault) else (do
        put_vnode fresh (some (record zeroed { node_lock = some new_lock }))
        pure fresh))
      else (do
        vnode ← on_pool (SinglyLinkedList.get_value s.vnode_static_pool.head)
        left ← on_pool (SinglyLinkedList.remove_head s.vnode_static_pool)
        modify (λ t. record t { vnode_static_pool = left.1 })
        set_vnode vnode (λ v. record v { node_lock = some new_lock })
        pure vnode)

unfoldable pub vnode_directory_alloc_children : ℕ → Cmd Vfs (Unit {0})
vnode_directory_alloc_children vnode = do
  v ← get_vnode vnode
  if has_child_memory v
      then pure tt
      else set_vnode vnode
          (λ w. record w { vnode_children = λ i. null; vnode_flags = bit_or w.vnode_flags 1 })

-- `fresh` is a node for the list of the static pool, and `vfs_root` the address of the root.
unfoldable pub vnode_free : (fresh vfs_root vnode : ℕ) → Cmd Vfs (Unit {0})
unfolding SinglyLinkedList.insert_tail
vnode_free fresh vfs_root vnode = if vnode == null then pure tt else do
  v ← get_vnode vnode
  if not (v.vnode_active_references == 0) || v.is_mount_point
      then pure tt
      else if from_static_pool v
      then (do
        set_vnode vnode (λ w. record w { node_lock = none })
        s ← state
        pool ← on_pool (SinglyLinkedList.insert_tail fresh s.vnode_static_pool vnode)
        modify (λ t. record t { vnode_static_pool = pool }))
      else if vnode == vfs_root
      then pure tt
      else put_vnode vnode none

-- The types from `VNODE_BLOCK_DEV` to `VNODE_SPECIAL_FILE`. The vnode is wiped, its lock pointer
-- too.
unfoldable pub vnode_create_special : (fresh parent name vnode_type : ℕ) → Cmd Vfs ℕ
unfolding vnode_alloc safe_strcpy
vnode_create_special fresh parent name vnode_type = do
  new_vnode ← vnode_alloc fresh
  set_vnode new_vnode (λ v. zeroed)
  on_memory (safe_strcpy (vnode_name new_vnode) name vfs_max_name_length)
  if (vnode_type == 3)
        || (vnode_type == 4)
        || (vnode_type == 5)
        || (vnode_type == 6)
        || (vnode_type == 7)
      then pure new_vnode
      else (λ s. panic)

-- The loop over the children: `child` is `vnode_children[index]`, and `left` children are left.
unfoldable pub find_loop : (left index child vnode token : ℕ) → Cmd Vfs ℕ
find_loop zero index child vnode token = pure null
find_loop (suc left) index child vnode token = do
  s ← state
  if not (child == null)
        && not (safe_strcmp (vnode_name child) token vfs_max_name_length s.memory == 0)
      then pure child
      else (do next ← get_child vnode (index + 1); find_loop left (index + 1) next vnode token)

-- The children of a vnode that is no mount point.
unfoldable pub find_among : (vnode token : ℕ) → Cmd Vfs ℕ
unfolding find_loop vnode_directory_alloc_children
find_among vnode token = do
  vnode_directory_alloc_children vnode
  v ← get_vnode vnode
  child ← get_child vnode 0
  find_loop v.num_children 0 child vnode token

module _ (env : Env) where
  -- The lock is given back on every path; null is returned where nothing is found.
  unfoldable pub find_vnode_child : (vnode token : ℕ) → Cmd Vfs ℕ
  unfolding find_among
  find_vnode_child vnode token = do
    acquire_vfs_lock env
    v ← get_vnode vnode
    found ← if not (v.vnode_type == vnode_directory) then pure null else (do
      let target = if v.is_mount_point then v.mounted_vnode else vnode
      w ← get_vnode target
      if not w.is_cached && (w.num_children == 0)
          then (do
            child ← VnodeOperations.lookup (env.operations w.vnode_ops) target token
            set_vnode target (λ x. record x { is_cached = true })
            pure child)
          else find_among target token)
    release_vfs_lock
    pure found

  -- What `vnode_mount` and `vnode_mount_path` do with the lock held.
  unfoldable pub mount_on : (mount_point mounted_vnode : ℕ) → Cmd Vfs Returned
  mount_on mount_point mounted_vnode = do
    p ← get_vnode mount_point
    if p.is_mount_point
        then (λ s. panic)
        else if not (p.vnode_type == vnode_directory)
        then (λ s. panic)
        else do
          m ← get_vnode mounted_vnode
          if m.is_mount_point then (λ s. panic) else do
            set_vnode mounted_vnode
                (λ v. record v { vnode_parent = mount_point; is_mounted = true })
            set_vnode mount_point (λ v. record v {
              is_mount_point = true;
              mounted_vnode = mounted_vnode;
              is_cached = true;
            })
            release_vfs_lock
            pure kern_success

  unfoldable pub vnode_mount : (mount_point mounted_vnode : ℕ) → Cmd Vfs Returned
  unfolding mount_on
  vnode_mount mount_point mounted_vnode = do
    acquire_vfs_lock env
    mount_on mount_point mounted_vnode

  unfoldable pub vnode_unmount : (vnode : ℕ) → Cmd Vfs Returned
  vnode_unmount vnode = do
    acquire_vfs_lock env
    v ← get_vnode vnode
    if not v.is_mount_point then (do release_vfs_lock; pure kern_not_found) else (do
      set_vnode v.mounted_vnode (λ w. record w { vnode_parent = null })
      set_vnode vnode
          (λ w. record w { is_mount_point = false; mounted_vnode = null; is_cached = false })
      release_vfs_lock
      pure kern_success)

  -- The loop of `vnode_update_children_array`.
  unfoldable pub update_loop : (left index vnode parent size : ℕ) → Cmd Vfs Returned
  update_loop zero index vnode parent size = λ s. panic
  update_loop (suc left) index vnode parent size = do
    c ← get_child parent index
    if c == vnode
        then (do
          set_child parent index null
          last ← get_child parent size
          set_child parent index last
          set_vnode parent (λ v. record v { num_children = (v.num_children + 255) % 256 })
          release_vfs_lock
          pure kern_success)
        else update_loop left (index + 1) vnode parent size

  unfoldable pub vnode_update_children_array : (vnode : ℕ) → Cmd Vfs Returned
  unfolding update_loop
  vnode_update_children_array vnode = do
    acquire_vfs_lock env
    v ← get_vnode vnode
    p ← get_vnode v.vnode_parent
    update_loop p.num_children 0 vnode v.vnode_parent p.num_children

  unfoldable pub vnode_link : (vnode new_vnode type : ℕ) → Cmd Vfs ℕ
  vnode_link vnode new_vnode type = do
    v ← get_vnode vnode
    if not (v.vnode_type == vnode_directory) then pure null else do
      w ← get_vnode new_vnode
      if (w.vnode_type == vnode_hard_link) || (w.vnode_type == vnode_sym_link)
          then pure null
          else if not (type == vnode_hard_link) && not (type == vnode_sym_link)
          then pure null
          else (do
            child ←
                VnodeOperations.create (env.operations v.vnode_ops) vnode (vnode_name new_vnode)
                  type
            u ← get_vnode vnode
            set_vnode child (λ x. record x { filesystem_info = u.filesystem_info })
            pure child)

  unfoldable pub vnode_unlink : (link : ℕ) → Cmd Vfs Returned
  vnode_unlink link = do
    v ← get_vnode link
    if not (v.vnode_type == vnode_sym_link) && not (v.vnode_type == vnode_hard_link)
        then pure kern_wrong_type
        else (do VnodeOperations.unlink (env.operations v.vnode_ops) link; pure kern_success)
