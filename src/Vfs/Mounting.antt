-- ===== src/Vfs/Mounting.antt =====
-- What mounting and unmounting a vnode do.
use dionys_os.Prelude.{
  if_false, ℕ, ◌≡◌, ◌≢◌, true, false, Option, some, update, update_same, update_other, ok, arith,
  refl, sym, eq→==,
}
use dionys_os.Spinlock.Recursion.{Free, acquire-once, release-taken}
use dionys_os.Vfs.{
  null, vnode_directory, kern_success, Vnode, Vfs, Env, acquire_vfs_lock, release_vfs_lock,
}
use dionys_os.Vfs.Vnodes.{vnode_mount, vnode_unmount}
use dionys_os.Vfs.Paths.{through_mount}

-- The state with the lock of the file system held.
abbrev pub locked : Env → Vfs → Vfs
locked env s = record s {
  vfs_lock = record s.vfs_lock {
    locked = 1;
    cpu = env.my_cpu;
    holding_process = env.current_process;
    interrupts = false;
  };
}

-- After the bootstrap, on a CPU that is not null, with nobody holding the lock.
pub record Ready (env : Env) (s : Vfs) : Type 0 where
  pub bootstrapped : env.bsp ≡ false
  pub cpu : env.my_cpu ≢ 0
  pub unlocked : Free s.vfs_lock

pub Ready-acquire :
    {env : Env} {s : Vfs} → Ready env s → acquire_vfs_lock env s ≡ ok tt (locked env s)
Ready-acquire {env} {s} r =
    rw (r.bootstrapped, acquire-once env.my_cpu env.current_process r.cpu s.vfs_lock r.unlocked)

-- The lock comes back as it was.
pub Ready-release :
    {env : Env} {s : Vfs}
    → Ready env s
    → (t : Vfs) → t.vfs_lock ≡ (locked env s).vfs_lock
    → release_vfs_lock t ≡ ok tt (record t { vfs_lock = s.vfs_lock })
Ready-release {env} {s} r t e =
    rw (e, release-taken env.my_cpu env.current_process r.cpu s.vfs_lock r.unlocked)

-- Two vnodes, of which the second may be mounted on the first.
pub record Mountable (s : Vfs) (p m : ℕ) (vp vm : Vnode) : Type 0 where
  pub apart : p ≢ m
  pub point : s.vnode_at p ≡ some vp
  pub other : s.vnode_at m ≡ some vm
  pub directory : vp.vnode_type ≡ vnode_directory
  pub no_point : vp.is_mount_point ≡ false
  pub no_mount : vm.is_mount_point ≡ false

module _ (env : Env) (s : Vfs) (p m : ℕ) (vp vm : Vnode) where
  -- The two vnodes after a mount, and after an unmount.
  abbrev mounted_on : Option Vnode
  mounted_on = some (record vm { vnode_parent = p; is_mounted = true })

  abbrev point : Option Vnode
  point = some (record vp { is_mount_point = true; mounted_vnode = m; is_cached = true })

  abbrev taken_off : Option Vnode
  taken_off = some (record vm { vnode_parent = null; is_mounted = true })

  abbrev no_point : Option Vnode
  no_point = some (record vp { is_mount_point = false; mounted_vnode = null; is_cached = false })

  abbrev pub mounted : Vfs
  mounted = record s { vnode_at = update (update s.vnode_at m mounted_on) p point }

  abbrev pub unmounted : Vfs
  unmounted = record s { vnode_at = update (update mounted.vnode_at m taken_off) p no_point }

  vnode_mount-mounted :
      Ready env s → Mountable s p m vp vm → vnode_mount env p m s ≡ ok kern_success mounted
  unfolding vnode_mount
  vnode_mount-mounted r h =
      rw
        (
          Ready-acquire r,
          h.point,
          if_false vp.is_mount_point _ _ h.no_point,
          eq→== vp.vnode_type 0 h.directory,
          h.other,
          if_false vm.is_mount_point _ _ h.no_mount,
          h.other,
          update_other s.vnode_at m p mounted_on h.apart,
          h.point,
          Ready-release r (record mounted { vfs_lock = (locked env s).vfs_lock }) refl,
        )
        refl

  vnode_unmount-unmounted :
      Ready env s → Mountable s p m vp vm → vnode_unmount env p mounted ≡ ok kern_success unmounted
  unfolding vnode_unmount
  vnode_unmount-unmounted r h =
      let r' : Ready env mounted = record {
        bootstrapped = r.bootstrapped;
        cpu = r.cpu;
        unlocked = r.unlocked;
      } in
      let here = update_same (update s.vnode_at m mounted_on) p point in
      rw
        (
          Ready-acquire r',
          here,
          update_other (update s.vnode_at m mounted_on) p m point (λ e. h.apart (sym e)),
          update_same s.vnode_at m mounted_on,
          update_other mounted.vnode_at m p taken_off h.apart,
          here,
          Ready-release r' (record unmounted { vfs_lock = (locked env s).vfs_lock }) refl,
        )
        refl

  mounted-through : through_mount p mounted ≡ ok m mounted
  unfolding through_mount
  mounted-through = rw (update_same (update s.vnode_at m mounted_on) p point) refl

  unmounted-through : through_mount p unmounted ≡ ok p unmounted
  unfolding through_mount
  unmounted-through = rw (update_same (update mounted.vnode_at m taken_off) p no_point) refl

  unmounted-other :
      m ≢ p → unmounted.vnode_at m ≡ some (record vm { vnode_parent = null; is_mounted = true })
  unmounted-other h =
      rw (update_other (update mounted.vnode_at m taken_off) p m no_point h)
        (update_same mounted.vnode_at m taken_off)

  unmounted-rest : (q : ℕ) → q ≢ p → q ≢ m → unmounted.vnode_at q ≡ s.vnode_at q
  unmounted-rest q a b = ground (arith, a, b)

  -- After the bootstrap, on a CPU that is not null and with the lock of the file system free, for
  -- two different vnodes, neither a mount point and the first one a directory, a mount of the
  -- second on the first succeeds and the first then leads to the second; an unmount of the first
  -- then succeeds, after which it leads to itself, the lock is as it was before, the second vnode
  -- has no parent but is still marked as mounted, and no other vnode has changed.
  pub vnode_unmount-vnode_mount :
      Ready env s
      → Mountable s p m vp vm
      → (t : Vfs) × (vnode_mount env p m s ≡ ok kern_success t)
        × (through_mount p t ≡ ok m t)
        × (u : Vfs) × (vnode_unmount env p t ≡ ok kern_success u)
        × (through_mount p u ≡ ok p u)
        × (u.vfs_lock ≡ s.vfs_lock)
        × (u.vnode_at m ≡ some (record vm { vnode_parent = null; is_mounted = true }))
        × ((q : ℕ) → q ≢ p → q ≢ m → u.vnode_at q ≡ s.vnode_at q)
  vnode_unmount-vnode_mount r h = (
    mounted,
    vnode_mount-mounted r h,
    mounted-through,
    unmounted,
    vnode_unmount-unmounted r h,
    unmounted-through,
    refl,
    unmounted-other (λ e. h.apart (sym e)),
    unmounted-rest,
  )
