-- ===== src/Vfs/Handles.antt =====
-- kernel/src/filesystem/vfs.c: the handles of the running process.
use dionys_os.Prelude.{
  first_clear, ℕ, zero, suc, ◌-◌, ◌^◌, ltb, bit_or, ◌==◌, if◌then◌else◌, Option, none, some, panic,
  hang, Cmd, ◌>>=◌, ◌>>◌, pure,
}
use dionys_os.Spinlock.{release_spinlock}
use dionys_os.DoublyLinkedList.{get_value, get_next}
use dionys_os.Vfs.{
  null, kern_not_found, kern_max_reached, Returned, value, minus, kern_success, Vfs, Env, state,
  modify, get_vnode, get_handle, put_handle, on_handle_nodes, on_handle_lock, acquire,
}

-- A result as an `int64_t`.
unfoldable pub signed : Returned → Returned
signed (value n) = if ltb n (2 ^ 63) then value n else minus (2 ^ 64 - n)
signed (minus n) = minus n

-- The loop of `handle_to_vnode`.
unfoldable pub vnode_loop : (fuel handle_id node : ℕ) → Cmd Vfs ℕ
vnode_loop zero handle_id node = λ s. hang
vnode_loop (suc fuel) handle_id node = if node == null then pure null else (do
  p ← on_handle_nodes (get_value node)
  h ← get_handle p
  if h.handle_id == handle_id
      then pure h.vnode
      else (do next ← on_handle_nodes (get_next node); vnode_loop fuel handle_id next))

-- The loop of `handle_to_offset`: null itself is looked into, and the last node is left out.
unfoldable pub offset_loop : (fuel handle_id node : ℕ) → Cmd Vfs Returned
offset_loop zero handle_id node = λ s. hang
offset_loop (suc fuel) handle_id node = do
  p ← on_handle_nodes (get_value node)
  h ← get_handle p
  if h.handle_id == handle_id then pure (value h.offset) else (do
    next ← on_handle_nodes (get_next node)
    after ← on_handle_nodes (get_next next)
    if after == null then pure kern_not_found else offset_loop fuel handle_id next)

unfoldable pub handle_to_offset : (fuel handle_id : ℕ) → Cmd Vfs Returned
unfolding offset_loop
handle_to_offset fuel handle_id = do s ← state; offset_loop fuel handle_id s.handle_list.head

-- The loop of `find_handle`.
unfoldable pub find_handle_loop : (fuel handle_id node : ℕ) → Cmd Vfs ℕ
find_handle_loop zero handle_id node = λ s. hang
find_handle_loop (suc fuel) handle_id node = do
  p ← on_handle_nodes (get_value node)
  if p == null then pure p else (do
    h ← get_handle p
    if h.handle_id == handle_id then pure p else (do
      next ← on_handle_nodes (get_next node)
      if next == null then pure null else find_handle_loop fuel handle_id next))

unfoldable pub find_handle : (fuel handle_id : ℕ) → Cmd Vfs ℕ
unfolding find_handle_loop
find_handle fuel handle_id = do
  s ← state
  if s.handle_list.head == null
      then pure null
      else find_handle_loop fuel handle_id s.handle_list.head

-- The identifier `lock_id` of the lock is compared with that after the release.
unfoldable pub mark_identifier : (lock_id : ℕ) → Option ℕ → Cmd Vfs Returned
mark_identifier lock_id none = do on_handle_lock release_spinlock; pure kern_max_reached
mark_identifier lock_id (some i) = do
  modify (λ t. record t { handle_id_bitmap = bit_or t.handle_id_bitmap (2 ^ i) })
  on_handle_lock release_spinlock
  t ← state
  if t.handle_lock.id == lock_id then pure (value i) else (λ u. panic)

module _ (env : Env) where
  unfoldable pub get_new_file_handle : Cmd Vfs Returned
  unfolding mark_identifier
  get_new_file_handle = do
    on_handle_lock (acquire env)
    s ← state
    mark_identifier s.handle_lock.id (first_clear 64 0 s.handle_id_bitmap)

  unfoldable pub handle_to_vnode : (fuel handle_id : ℕ) → Cmd Vfs ℕ
  unfolding vnode_loop
  handle_to_vnode fuel handle_id = do
    on_handle_lock (acquire env)
    s ← state
    vnode ← vnode_loop fuel handle_id s.handle_list.head
    on_handle_lock release_spinlock
    pure vnode

  unfoldable pub get_size : (fuel handle : ℕ) → Cmd Vfs Returned
  unfolding handle_to_vnode
  get_size fuel handle = do
    vnode ← handle_to_vnode fuel handle
    if vnode == null
        then pure kern_not_found
        else (do v ← get_vnode vnode; pure (value v.vnode_size))

  -- `SEEK_BEGIN` is 2 ^ 64 - 1 and `SEEK_END` is 2 ^ 64 - 3; the size is looked up by the offset.
  unfoldable pub seek : (fuel handle whence : ℕ) → Cmd Vfs Returned
  unfolding find_handle get_size
  seek fuel handle whence = do
    p ← find_handle fuel handle
    if p == null then pure kern_not_found else (do
      h ← get_handle p
      offset ←
          if whence == 2 ^ 64 - 1
          then pure (value 0)
          else if whence == 2 ^ 64 - 3
          then get_size fuel h.offset
          else pure (value whence)
      put_handle p (some (record h { offset = elim offset [ value n ↦ n | minus e ↦ 2 ^ 64 - e ] }))
      pure kern_success)
