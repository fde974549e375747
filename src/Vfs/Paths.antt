-- ===== src/Vfs/Paths.antt =====
-- kernel/src/filesystem/vfs.c: from a path to a vnode, and back. Loops over strings run on fuel.
use dionys_os.Prelude.{
  ℕ, zero, suc, ◌+◌, false, ◌&&◌, ◌||◌, not, leb, ltb, ◌==◌, if◌then◌else◌, none, some, ok, hang,
  Cmd, ◌>>=◌, ◌>>◌, pure,
}
use dionys_os.CString.{Memory, load, strcat, strtok, strtok_count, strlen, last_token}
use dionys_os.Vfs.{
  null, vfs_max_name_length, Returned, kern_not_found, vnode_name, Vfs, Env, state, get_vnode,
  set_vnode, on_memory, acquire_vfs_lock, release_vfs_lock, kern_success,
}
use dionys_os.Vfs.Vnodes.{find_vnode_child, mount_on}

abbrev pub page_size : ℕ
page_size = 4096

-- `'/'`
abbrev pub slash : ℕ
slash = 47

-- `memset(start, 0, count)`
abbrev pub clear_bytes : (start count : ℕ) → Cmd Memory (Unit {0})
clear_bytes start count m = ok tt (λ p. if leb start p && ltb p (start + count) then 0 else m p)

-- `while (*path == '/') path++`
unfoldable pub skip_slashes : (fuel path : ℕ) → Cmd Vfs ℕ
skip_slashes zero path = λ s. hang
skip_slashes (suc fuel) path = do
  c ← on_memory (load path)
  if c == slash then skip_slashes fuel (path + 1) else pure path

-- A vnode, or the one that is mounted on it.
unfoldable pub through_mount : (vnode : ℕ) → Cmd Vfs ℕ
through_mount vnode = do
  v ← get_vnode vnode
  pure (if v.is_mount_point then v.mounted_vnode else vnode)

module _ (env : Env) where
  -- The loop over the components of a path; `token` is the buffer `current_token`.
  unfoldable pub token_loop : (fuel path token index current : ℕ) → Cmd Vfs ℕ
  unfolding find_vnode_child strtok
  token_loop zero path token index current = λ s. hang
  token_loop (suc fuel) path token index current = do
    last ← on_memory (strtok (suc fuel) path slash token index)
    child ← find_vnode_child env current token
    if child == null then pure null else (do
      on_memory (clear_bytes token vfs_max_name_length)
      if last == last_token then pure child else token_loop fuel path token (index + 1) child)

  -- Where the path has no component, or a component is not found, the function returns without a
  -- release of the lock.
  unfoldable pub parse_path : (fuel token path : ℕ) → Cmd Vfs ℕ
  unfolding token_loop skip_slashes through_mount
  parse_path fuel token path = do
    acquire_vfs_lock env
    root ← through_mount env.vfs_root
    s ← state
    c ← on_memory (load path)
    let start = if c == slash then root else s.current_working_dir
    begin ← skip_slashes fuel (if c == slash then path + 1 else path)
    d ← on_memory (load begin)
    if d == 0 then pure start else (do
      target ← token_loop fuel begin token 1 start
      if target == null
          then pure null
          else (do result ← through_mount target; release_vfs_lock; pure result))

  unfoldable pub vnode_lookup : (fuel token path : ℕ) → Cmd Vfs ℕ
  unfolding parse_path
  vnode_lookup fuel token path = parse_path fuel token path

  unfoldable pub vnode_mount_path :
      (fuel token mount_point_path mounted_vnode : ℕ) → Cmd Vfs Returned
  unfolding parse_path mount_on
  vnode_mount_path fuel token mount_point_path mounted_vnode = do
    acquire_vfs_lock env
    mount_point ← parse_path fuel token mount_point_path
    mount_on env mount_point mounted_vnode

  unfoldable pub vnode_unmount_path : (fuel token path : ℕ) → Cmd Vfs Returned
  unfolding parse_path
  vnode_unmount_path fuel token path = do
    vnode ← parse_path fuel token path
    acquire_vfs_lock env
    v ← get_vnode vnode
    if not v.is_mount_point then (do release_vfs_lock; pure kern_not_found) else (do
      set_vnode v.mounted_vnode (λ w. record w { vnode_parent = null })
      set_vnode vnode
          (λ w. record w { is_mount_point = false; mounted_vnode = null; is_cached = false })
      release_vfs_lock
      pure kern_success)

-- The names from a vnode up to the root, into `buffer`. `separator` is the address of the string
-- "/".
unfoldable pub walk_up : (fuel vfs_root separator buffer pointer : ℕ) → Cmd Vfs (Unit {0})
unfolding strcat
walk_up zero vfs_root separator buffer pointer = λ s. hang
walk_up (suc fuel) vfs_root separator buffer pointer =
    if (pointer == null) || (pointer == vfs_root) then pure tt else (do
      v ← get_vnode pointer
      let here = if v.is_mounted then v.vnode_parent else pointer
      on_memory (strcat (suc fuel) buffer separator)
      w ← get_vnode here
      c ← on_memory (load (vnode_name here))
      if c == slash then pure tt else on_memory (strcat (suc fuel) buffer (vnode_name here))
      walk_up fuel vfs_root separator buffer w.vnode_parent)

-- The names of `buffer`, from the last one to the first, into `final_buffer`.
unfoldable pub reverse_names :
    (count fuel separator buffer final_buffer temp : ℕ) → Cmd Vfs (Unit {0})
unfolding strcat strtok strlen
reverse_names zero fuel separator buffer final_buffer temp = pure tt
reverse_names (suc i) fuel separator buffer final_buffer temp = do
  ignored ← on_memory (strtok fuel buffer slash temp (suc i))
  on_memory (strcat fuel final_buffer separator)
  on_memory (strcat fuel final_buffer temp)
  s ← state
  elim (strlen fuel temp s.memory) [ none ↦ (λ t. hang) | some n ↦ on_memory (clear_bytes temp n) ]
  reverse_names i fuel separator buffer final_buffer temp

-- The three pages come from the heap; `temp_string` is that of `strtok_count`.
unfoldable pub vnode_get_canonical_path :
    Env → (fuel separator buffer final_buffer temp temp_string vnode : ℕ) → Cmd Vfs ℕ
unfolding walk_up reverse_names strtok_count
vnode_get_canonical_path env fuel separator buffer final_buffer temp temp_string vnode = do
  acquire_vfs_lock env
  on_memory (clear_bytes buffer page_size)
  on_memory (clear_bytes final_buffer page_size)
  walk_up fuel env.vfs_root separator buffer vnode
  token_length ← on_memory (strtok_count fuel buffer slash temp_string)
  on_memory (clear_bytes temp page_size)
  reverse_names (token_length + 1) fuel separator buffer final_buffer temp
  release_vfs_lock
  pure final_buffer
