-- ===== src/Vfs/Calls.antt =====
-- kernel/src/filesystem/vfs.c: operations on vnodes by path, and the calls on handles.
use dionys_os.Prelude.{
  ℕ, zero, suc, ◌+◌, ◌-◌, ◌%◌, ◌^◌, true, ◌||◌, not, ltb, ◌==◌, if◌then◌else◌, none, some, update,
  ok, panic, hang, Cmd, ◌>>=◌, ◌>>◌, pure,
}
use dionys_os.CString.{safe_strcpy, strlen, store}
use dionys_os.Spinlock.{release_spinlock}
use dionys_os.DoublyLinkedList.{get_value, insert_head, remove_node_by_address, inc}
use dionys_os.Vfs.{
  null, vfs_max_name_length, vnode_directory, vnode_file, kern_not_found, kern_busy,
  kern_max_reached, Returned, value, minus, kern_success, vnode_name, Vfs, VnodeOperations, Env,
  state, modify, get_vnode, set_vnode, set_child, get_handle, put_handle, on_memory,
  on_handle_nodes, on_node_lock, acquire,
}
use dionys_os.Vfs.Vnodes.{
  vnode_directory_alloc_children, vnode_create_special, vnode_update_children_array, vnode_free,
}
use dionys_os.Vfs.Paths.{vnode_lookup}
use dionys_os.Vfs.Handles.{get_new_file_handle}

-- A reference count of a file system goes up or down; no file system, no count.
abbrev pub count_reference : (filesystem_info : ℕ) → (ℕ → ℕ) → Cmd Vfs (Unit {0})
count_reference info f s = ok tt (record s {
  filesystem_reference_count =
      if info == null
      then s.filesystem_reference_count
      else update s.filesystem_reference_count info (f (s.filesystem_reference_count info));
})

-- Counts of 16 and 64 bits, one down.
abbrev pub dec16 : ℕ → ℕ
dec16 n = (n + (2 ^ 16 - 1)) % 2 ^ 16

abbrev pub dec64 : ℕ → ℕ
dec64 n = (n + (2 ^ 64 - 1)) % 2 ^ 64

-- The number that a pattern of 32 bits stands for.
abbrev signed32 : ℕ → Returned
signed32 n = if ltb n (2 ^ 31) then value n else minus (2 ^ 32 - n)

unfoldable pub as_int32 : Returned → Returned
as_int32 (value n) = signed32 (n % 2 ^ 32)
as_int32 (minus n) = signed32 ((2 ^ 32 - n % 2 ^ 32) % 2 ^ 32)

module _ (env : Env) where
  -- `fresh` is the new vnode of a special file.
  unfoldable pub vnode_create : (fuel token fresh path name vnode_type : ℕ) → Cmd Vfs ℕ
  unfolding vnode_lookup vnode_directory_alloc_children vnode_create_special
  vnode_create fuel token fresh path name vnode_type = do
    parent ← vnode_lookup env fuel token path
    if parent == null then pure null else do
      p ← get_vnode parent
      if p.is_mount_point then (λ s. panic) else do
        vnode_directory_alloc_children parent
        new_vnode ←
            if (vnode_type == vnode_directory) || (vnode_type == vnode_file)
            then VnodeOperations.create (env.operations p.vnode_ops) parent name vnode_type
            else vnode_create_special fresh parent name vnode_type
        if vnode_type == vnode_directory
            then set_vnode new_vnode (λ v. record v { is_cached = true })
            else pure tt
        set_vnode new_vnode (λ v. record v { vnode_parent = parent })
        q ← get_vnode parent
        set_vnode parent (λ v. record v { num_children = (v.num_children + 1) % 256 })
        set_child parent q.num_children new_vnode
        pure new_vnode

  -- The lock of the vnode is read before the vnode is compared with null. `fresh` is a list node.
  unfoldable pub vnode_remove : (fresh vnode : ℕ) → Cmd Vfs Returned
  unfolding vnode_update_children_array vnode_free
  vnode_remove fresh vnode = do
    on_node_lock vnode (acquire env)
    v ← get_vnode vnode
    if v.is_mount_point then (λ s. panic) else do
      if not (v.vnode_active_references == 0)
          then (do on_node_lock vnode release_spinlock; pure kern_busy)
          else (do
            VnodeOperations.remove (env.operations v.vnode_ops) vnode
            ignored ← vnode_update_children_array env vnode
            vnode_free fresh env.vfs_root vnode
            on_node_lock vnode release_spinlock
            pure kern_success)

  -- The truncation changes the last place of the name.
  unfoldable pub vnode_rename : (fuel vnode new_name : ℕ) → Cmd Vfs (Unit {0})
  unfolding safe_strcpy strlen
  vnode_rename fuel vnode new_name = do
    on_memory (safe_strcpy (vnode_name vnode) new_name vfs_max_name_length)
    s ← state
    elim (strlen fuel new_name s.memory) [
      | none ↦ (λ t. hang)
      | some n ↦
          if ltb vfs_max_name_length n
          then on_memory (store (vnode_name vnode + vfs_max_name_length - 1) 0)
          else pure tt
    ]
    v ← get_vnode vnode
    VnodeOperations.rename (env.operations v.vnode_ops) vnode (vnode_name vnode)

  -- `fresh` and `node` are what the heap returns for the handle and its list node. The bit of the
  -- identifier stays set where the vnode is not found.
  unfoldable pub vnode_open : (fuel token fresh node path : ℕ) → Cmd Vfs Returned
  unfolding vnode_lookup get_new_file_handle insert_head
  vnode_open fuel token fresh node path = do
    id ← get_new_file_handle env
    elim id [
      | minus e ↦ pure kern_max_reached
      | value n ↦ (do
        found ← vnode_lookup env fuel token path
        if found == null then pure kern_not_found else do
          v ← get_vnode found
          count_reference v.filesystem_info inc
          set_vnode found (λ w. record w { vnode_refcount = (w.vnode_refcount + 1) % 2 ^ 16 })
          let target = if v.is_mount_point then v.mounted_vnode else found
          put_handle fresh (
              some (record {
                handle_id = n;
                process = env.current_process;
                vnode = target;
                offset = 0;
              }))
          modify (λ s. record s { num_handles = inc s.num_handles })
          s ← state
          list ← on_handle_nodes (insert_head node s.handle_list fresh)
          modify (λ t. record t { handle_list = list })
          pure (value n))
    ]

  -- The loop of `vnode_close` looks at the same node in every round.
  unfoldable pub close_loop : (fuel handle node : ℕ) → Cmd Vfs (Unit {0})
  unfolding remove_node_by_address
  close_loop zero handle node = λ s. hang
  close_loop (suc fuel) handle node = if node == null then (λ s. panic) else (do
    p ← on_handle_nodes (get_value node)
    h ← get_handle p
    if h.handle_id == handle
        then (do
          v ← get_vnode h.vnode
          VnodeOperations.close (env.operations v.vnode_ops) h.vnode handle
          set_vnode h.vnode (λ w. record w { vnode_refcount = dec16 w.vnode_refcount })
          w ← get_vnode h.vnode
          count_reference w.filesystem_info dec64
          put_handle p none
          s ← state
          list ← on_handle_nodes (remove_node_by_address s.handle_list node)
          modify (λ t. record t { handle_list = list }))
        else close_loop fuel handle node)

  unfoldable pub vnode_close : (fuel handle : ℕ) → Cmd Vfs (Unit {0})
  unfolding close_loop
  vnode_close fuel handle = do s ← state; close_loop fuel handle s.handle_list.head

  -- A size of 0 reads the whole file.
  unfoldable pub vnode_read : (vnode offset bytes buffer : ℕ) → Cmd Vfs Returned
  vnode_read vnode offset bytes buffer = do
    on_node_lock vnode (acquire env)
    v ← get_vnode vnode
    if v.is_mount_point then (λ s. panic) else do
      ret ←
          VnodeOperations.read (env.operations v.vnode_ops) vnode offset buffer
            (if bytes == 0 then v.vnode_size else bytes)
      on_node_lock vnode release_spinlock
      pure ret

  -- The result of the file system goes through an `int32_t`.
  unfoldable pub vnode_write : (vnode offset bytes buffer : ℕ) → Cmd Vfs Returned
  unfolding as_int32
  vnode_write vnode offset bytes buffer = do
    on_node_lock vnode (acquire env)
    v ← get_vnode vnode
    if v.is_mount_point then (λ s. panic) else do
      ret ← VnodeOperations.write (env.operations v.vnode_ops) vnode offset buffer bytes
      on_node_lock vnode release_spinlock
      pure (as_int32 ret)
