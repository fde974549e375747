-- ===== src/Vfs/Rooted.antt =====
-- Paths that name the root.
use dionys_os.Prelude.{ℕ, zero, suc, ◌+◌, ◌<◌, ◌≡◌, if◌then◌else◌, some, ok, arith, refl}
use dionys_os.CString.{Memory}
use dionys_os.Vfs.{Vfs, Env, Vnode}
use dionys_os.Vfs.Mounting.{Ready, Ready-acquire, locked}
use dionys_os.Vfs.Paths.{slash, skip_slashes, parse_path, vnode_lookup}

-- `n` slashes and the end of the string.
abbrev pub Slashes : Memory → (path n : ℕ) → Type 0
Slashes m path zero = m path ≡ 0
Slashes m path (suc n) = (m path ≡ slash) × Slashes m (path + 1) n

skip_slashes-end :
    (n fuel path : ℕ) (s : Vfs)
    → Slashes s.memory path n
    → n < fuel
    → (e : ℕ) × (skip_slashes fuel path s ≡ ok e s) × (s.memory e ≡ 0)
unfolding skip_slashes
skip_slashes-end n zero path s is enough = absurd (omega arith)
skip_slashes-end zero (suc fuel) path s is enough = (path, rw is refl, is)
skip_slashes-end (suc n) (suc fuel) path s is enough =
    let rest = skip_slashes-end n fuel (path + 1) s is.1 (omega arith) in
    (rest.0, rw is.0 rest.1, rest.2)

module _ (env : Env) (n fuel token path : ℕ) (root : Vnode) (s : Vfs) where
  -- After the bootstrap, on a CPU that is not null and with the lock of the file system free, a
  -- lookup of a path of slashes alone, at least one and at most as many as the fuel, returns the
  -- root, or the vnode mounted on it, and leaves the lock held by the CPU and the process that
  -- run.
  pub vnode_lookup-root_held :
      Ready env s
      → s.vnode_at env.vfs_root ≡ some root
      → Slashes s.memory path (suc n)
      → n < fuel
      → (t : Vfs) × (vnode_lookup env fuel token path s
          ≡ ok (if root.is_mount_point then root.mounted_vnode else env.vfs_root) t)
        × (t.vfs_lock.locked ≡ 1)
        × (t.vfs_lock.holding_process ≡ env.current_process)
        × (t.vfs_lock.cpu ≡ env.my_cpu)
  unfolding vnode_lookup parse_path
  vnode_lookup-root_held r at is enough =
      let skipped = skip_slashes-end n fuel (path + 1) (locked env s) is.1 enough in
      (locked env s, rw (Ready-acquire r, at, is.0, skipped.1, skipped.2) refl, refl, refl, refl)
