-- ===== src/Vfs/Removing.antt =====
-- What the removal of a vnode does to the children of its parent, and how it ends.
use dionys_os.Prelude.{
  ℕ, zero, suc, ◌+◌, ◌-◌, ◌%◌, ◌≤◌, ◌<◌, ◌≡◌, ◌≢◌, ◌∙◌, ◌==◌, true, false, some, none, ok, fault,
  arith, refl, sym, Bool-cases, inl, inr, not_eq, eq→==, lt→ltb, ==→eq, if_false, update,
  update_same, update_other,
}
use dionys_os.Spinlock.{Spinlock}
use dionys_os.Spinlock.Recursion.{Free, taken, acquire-once}
use dionys_os.Vfs.{
  null, kern_success, has_child_memory, from_static_pool, Vfs, Env, Vnode, VnodeOperations, acquire,
}
use dionys_os.Vfs.Mounting.{Ready, Ready-acquire, Ready-release, locked}
use dionys_os.Vfs.Vnodes.{update_loop, vnode_update_children_array, vnode_free}
use dionys_os.Vfs.Calls.{vnode_remove}

-- The child at place `i` of the parent, which is counted.
pub record Child (vnode parent i : ℕ) (p : Vnode) : Type 0 where
  pub memory : has_child_memory p ≡ true
  pub counted : i < p.num_children
  pub room : p.num_children < 64
  pub here : p.vnode_children i ≡ vnode
  pub first : (j : ℕ) → j < i → p.vnode_children j ≢ vnode

module _ (parent i : ℕ) (p : Vnode) where
  abbrev emptied : Vnode
  emptied = record p { vnode_children = update p.vnode_children i null }

  abbrev filled : Vnode
  filled = record p {
    vnode_children = update emptied.vnode_children i (p.vnode_children p.num_children);
  }

  abbrev pub without : Vnode
  without = record filled { num_children = (p.num_children + 255) % 256 }

  abbrev pub shortened : Vfs → Vfs
  shortened s = record s {
    vnode_at =
        update (update (update s.vnode_at parent (some emptied)) parent (some filled)) parent
          (some without);
  }

  module _ (env : Env) (vnode : ℕ) (s : Vfs) (r : Ready env s) (at : s.vnode_at parent ≡ some p)
      (c : Child vnode parent i p) where
    update_loop-shortened :
        (left j : ℕ)
        → j ≤ i
        → j + left ≡ p.num_children
        → update_loop env left j vnode parent p.num_children (locked env s)
          ≡ ok kern_success (shortened s)
    unfolding update_loop
    update_loop-shortened zero j low high = absurd (omega (arith, c.counted))
    update_loop-shortened (suc left) j low high = elim (Bool-cases (j == i)) [
      | inl e ↦
          let j_is : j ≡ i = ==→eq j i e in
          let small : i < 64 = omega (arith, c.counted, c.room) in
          let other : p.num_children ≢ i = λ z. omega (arith, c.counted, z) in
          rw
            (
              at,
              c.memory,
              j_is,
              lt→ltb i 64 small,
              eq→== (p.vnode_children i) vnode c.here,
              at,
              c.memory,
              lt→ltb i 64 small,
              update_same s.vnode_at parent (some emptied),
              c.memory,
              lt→ltb p.num_children 64 c.room,
              update_other p.vnode_children i p.num_children null other,
              update_same s.vnode_at parent (some emptied),
              c.memory,
              lt→ltb i 64 small,
              update_same (update s.vnode_at parent (some emptied)) parent (some filled),
              Ready-release r (record (shortened s) { vfs_lock = (locked env s).vfs_lock }) refl,
            )
            refl
      | inr ne ↦
          let before : j < i = ground (arith, ne) in
          rw
            (
              at,
              c.memory,
              lt→ltb j 64 (omega (arith, c.counted, c.room)),
              not_eq (c.first j before),
            )
            (update_loop-shortened left (j + 1) (omega arith) (omega arith))
    ]

    module _ (v : Vnode) (vnode_at : s.vnode_at vnode ≡ some v)
        (parent_is : v.vnode_parent ≡ parent) where
      update_children-shortened :
          vnode_update_children_array env vnode s ≡ ok kern_success (shortened s)
      unfolding vnode_update_children_array
      update_children-shortened =
          rw (Ready-acquire r, vnode_at, parent_is, at)
            (update_loop-shortened p.num_children 0 (omega arith) (omega arith))

      -- After the bootstrap, on a CPU that is not null and with the lock of the file system free,
      -- for a vnode at a counted place of its parent, and at none before it, where the parent has
      -- fewer than 64 children, all different, the last one not null and null behind it, the
      -- update succeeds and leaves the parent with one child less, with null at the place of the
      -- vnode, and with the old last child at no counted place.
      pub vnode_update_children_array-loses_last :
          p.vnode_children p.num_children ≡ null
          → ((j k : ℕ) → j < k → k < p.num_children → p.vnode_children j ≢ p.vnode_children k)
          → p.vnode_children (p.num_children - 1) ≢ null
          → (t : Vfs) × (vnode_update_children_array env vnode s ≡ ok kern_success t)
            × (q : Vnode) × (t.vnode_at parent ≡ some q)
            × (q.num_children ≡ p.num_children - 1)
            × (q.vnode_children i ≡ null)
            × ((j : ℕ)
                → j < q.num_children
                → q.vnode_children j ≢ p.vnode_children (p.num_children - 1))
      vnode_update_children_array-loses_last behind distinct last =
          let fewer : (p.num_children + 255) % 256 ≡ p.num_children - 1 =
            omega (arith, c.counted, c.room) in
          (
            shortened s,
            update_children-shortened,
            without,
            update_same (update (update s.vnode_at parent (some emptied)) parent (some filled))
                parent (some without),
            fewer,
            update_same emptied.vnode_children i (p.vnode_children p.num_children) ∙ behind,
            λ j l. elim (Bool-cases (j == i)) [
              | inl e ↦ rw e (λ z. last (sym z ∙ behind))
              | inr ne ↦ rw ne (
                  distinct j (p.num_children - 1) (omega (arith, l, fewer))
                    (omega (arith, c.counted)))
            ],
          )

acquired :
    (env : Env) (l : Spinlock) (b : env.bsp ≡ false) (c : env.my_cpu ≢ 0) (free : Free l)
    → acquire env l ≡ ok tt (taken env.my_cpu env.current_process c l free)
acquired env l b c free = rw b (acquire-once env.my_cpu env.current_process c l free)

-- A vnode that may be removed, with its lock free.
pub record Removable (env : Env) (s : Vfs) (vnode : ℕ) (v : Vnode) (l : Spinlock) : Type 0 where
  pub at : s.vnode_at vnode ≡ some v
  pub lock : v.node_lock ≡ some l
  pub unlocked : Free l
  pub no_mount : v.is_mount_point ≡ false
  pub unused : v.vnode_active_references ≡ 0
  pub dynamic : from_static_pool v ≡ false
  pub no_root : vnode ≢ env.vfs_root
  pub given : vnode ≢ null

module _ (env : Env) (fresh vnode parent i : ℕ) (v p : Vnode) (l : Spinlock) (s : Vfs) where
  -- After the bootstrap, on a CPU that is not null and with the lock of the file system free, for
  -- a vnode at a counted place of its parent, and at none before it, where the parent is another
  -- vnode with fewer than 64 children, when the vnode is neither null, nor the root, nor a mount
  -- point, nor of the static pool, has no active reference and has its own lock free, and the
  -- remove of its file system changes nothing, vnode_remove is a fault.
  pub vnode_remove-fault :
      Ready env s
      → Removable env s vnode v l
      → v.vnode_parent ≡ parent
      → parent ≢ vnode
      → s.vnode_at parent ≡ some p
      → Child vnode parent i p
      → ((u : Vfs) → VnodeOperations.remove (env.operations v.vnode_ops) vnode u ≡ ok tt u)
      → vnode_remove env fresh vnode s ≡ fault
  unfolding vnode_remove vnode_free
  vnode_remove-fault r h parent_is apart at c removes =
      let held = taken env.my_cpu env.current_process r.cpu l h.unlocked in
      let v1 = record v { node_lock = some held } in
      let s1 : Vfs = record s { vnode_at = update s.vnode_at vnode (some v1) } in
      let off : vnode ≢ parent = λ e. apart (sym e) in
      let r1 : Ready env s1 = record {
        bootstrapped = r.bootstrapped;
        cpu = r.cpu;
        unlocked = r.unlocked;
      } in
      let here1 : s1.vnode_at vnode ≡ some v1 = update_same s.vnode_at vnode (some v1) in
      let at1 : s1.vnode_at parent ≡ some p =
        update_other s.vnode_at vnode parent (some v1) apart ∙ at in
      let s2 = shortened parent i p s1 in
      let here2 : s2.vnode_at vnode ≡ some v1 = rw (not_eq off) here1 in
      let unused = eq→== v.vnode_active_references 0 h.unused in
      rw
        (
          h.at,
          h.lock,
          acquired env l r.bootstrapped r.cpu h.unlocked,
          here1,
          if_false v.is_mount_point _ _ h.no_mount,
          unused,
          removes s1,
          update_children-shortened parent i p env vnode s1 r1 at1 c v1 here1 parent_is,
          not_eq h.given,
          here2,
          unused,
          if_false v.is_mount_point _ _ h.no_mount,
          h.dynamic,
          not_eq h.no_root,
          update_same s2.vnode_at vnode none,
        )
        refl
