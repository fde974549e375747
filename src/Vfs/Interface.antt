-- ===== src/Vfs/Interface.antt =====
-- kernel/src/filesystem/vfs.c: the calls that the system calls make, on handles and paths.
use dionys_os.Prelude.{
  ℕ, ◌%◌, Bool, not, leb, ◌==◌, if◌then◌else◌, none, some, Cmd, ◌>>=◌, ◌>>◌, pure,
}
use dionys_os.CString.{safe_strlen}
use dionys_os.Vfs.{
  null, vfs_max_name_length, Returned, value, minus, kern_success, kern_not_found, kern_overflow,
  kern_wrong_type, kern_unexpected, Vfs, Env, state,
}
use dionys_os.Vfs.Vnodes.{vnode_mount, vnode_unmount}
use dionys_os.Vfs.Paths.{vnode_lookup}
use dionys_os.Vfs.Handles.{handle_to_vnode, handle_to_offset, signed}
use dionys_os.Vfs.Calls.{
  vnode_create, vnode_rename, vnode_open, vnode_close, vnode_read, vnode_write,
}

-- The nine types of `VALID_VNODE_CASES`.
unfoldable pub is_valid_vnode_type : ℕ → Bool
is_valid_vnode_type type = leb type 8

-- A negative result is passed on.
abbrev pub unless_negative : Returned → Cmd Vfs Returned → Cmd Vfs Returned
unless_negative (value n) rest = rest
unless_negative (minus n) rest = pure (minus n)

module _ (env : Env) where
  unfoldable pub write_at : (vnode buffer bytes : ℕ) → Returned → Cmd Vfs Returned
  write_at vnode buffer bytes (value n) = vnode_write env vnode n bytes buffer
  write_at vnode buffer bytes (minus n) = pure (minus n)

  unfoldable pub read_at : (vnode buffer bytes : ℕ) → Returned → Cmd Vfs Returned
  read_at vnode buffer bytes (value n) = vnode_read env vnode n bytes buffer
  read_at vnode buffer bytes (minus n) = pure kern_not_found

  unfoldable pub write : (fuel handle buffer bytes : ℕ) → Cmd Vfs Returned
  unfolding handle_to_vnode handle_to_offset
  write fuel handle buffer bytes = do
    vnode ← handle_to_vnode env fuel handle
    if vnode == null
        then pure kern_not_found
        else do offset ← handle_to_offset fuel handle; write_at vnode buffer bytes (signed offset)

  -- An offset that is a negative number counts as not found.
  unfoldable pub read : (fuel handle buffer bytes : ℕ) → Cmd Vfs Returned
  unfolding handle_to_vnode handle_to_offset
  read fuel handle buffer bytes = do
    vnode ← handle_to_vnode env fuel handle
    if vnode == null
        then pure kern_not_found
        else do offset ← handle_to_offset fuel handle; read_at vnode buffer bytes (signed offset)

  unfoldable pub open_path : (fuel token fresh node path : ℕ) → Cmd Vfs Returned
  unfolding vnode_open
  open_path fuel token fresh node path = do
    handle ← vnode_open env fuel token fresh node path
    elim handle [ minus n ↦ pure kern_not_found | value n ↦ pure (value n) ]

  unfoldable pub close : (fuel handle : ℕ) → Cmd Vfs (Unit {0})
  unfolding vnode_close
  close fuel handle = vnode_close env fuel handle

  unfoldable pub mount : (fuel token mount_point mounted_filesystem : ℕ) → Cmd Vfs Returned
  unfolding vnode_lookup vnode_mount
  mount fuel token mount_point mounted_filesystem = do
    vnode ← vnode_lookup env fuel token mount_point
    if vnode == null then pure kern_not_found else do
      vnode_to_mount ← vnode_lookup env fuel token mounted_filesystem
      if vnode_to_mount == null then pure kern_not_found else do
        ret ← vnode_mount env vnode vnode_to_mount
        unless_negative ret (pure kern_success)

  unfoldable pub unmount : (fuel token path : ℕ) → Cmd Vfs Returned
  unfolding vnode_lookup vnode_unmount
  unmount fuel token path = do
    mount_point ← vnode_lookup env fuel token path
    if mount_point == null
        then pure kern_not_found
        else do ret ← vnode_unmount env mount_point; unless_negative ret (pure kern_success)

  unfoldable pub rename : (fuel token path new_name : ℕ) → Cmd Vfs Returned
  unfolding vnode_lookup vnode_rename
  rename fuel token path new_name = do
    vnode ← vnode_lookup env fuel token path
    if vnode == null
        then pure kern_not_found
        else do vnode_rename env fuel vnode new_name; pure kern_success

  unfoldable pub create : (fuel token fresh path name type : ℕ) → Cmd Vfs Returned
  unfolding is_valid_vnode_type vnode_create safe_strlen
  create fuel token fresh path name type = do
    s ← state
    elim (safe_strlen name vfs_max_name_length s.memory) [
      | none ↦ pure kern_overflow
      | some n ↦ if not (is_valid_vnode_type type) then pure kern_wrong_type else do
        vnode ← vnode_create env fuel token fresh path name (type % 256)
        if vnode == null then pure kern_unexpected else pure kern_success
    ]
