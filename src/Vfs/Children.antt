-- ===== src/Vfs/Children.antt =====
-- Which child a directory gives for a name.
use dionys_os.Prelude.{
  ℕ, zero, suc, ◌+◌, ◌≤◌, ◌<◌, ◌≡◌, ◌≢◌, ◌⊎◌, ◌==◌, ◌&&◌, not, if◌then◌else◌, true, false, some, ok,
  arith, refl, Bool-cases, inl, inr, eq→==, lt→ltb, ==→eq, le_cases, subst,
}
use dionys_os.CString.{Memory, safe_strcmp}
use dionys_os.CString.Comparing.{Matches, Differs, safe_strcmp-cases}
use dionys_os.Vfs.{
  null, vnode_directory, vfs_max_name_length, vnode_name, has_child_memory, Vfs, Env, Vnode,
  get_child,
}
use dionys_os.Vfs.Mounting.{Ready, Ready-acquire, Ready-release, locked}
use dionys_os.Vfs.Vnodes.{find_loop, find_among, find_vnode_child}

-- The name of a child matches a string, or differs from it.
abbrev pub Named : Memory → (child token : ℕ) → Type 0
Named m child token = Matches m (vnode_name child) token vfs_max_name_length

abbrev pub NotNamed : Memory → (child token : ℕ) → Type 0
NotNamed m child token = Differs m (vnode_name child) token vfs_max_name_length

-- From place `i` on, with `left` places: the first child of the name, or null if there is none.
abbrev pub FirstNamed : Memory → (ℕ → ℕ) → (left i token r : ℕ) → Type 0
FirstNamed m children left i token r =
    ((j : ℕ) × (i ≤ j)
      × (j < i + left)
      × (r ≡ children j)
      × (r ≢ null)
      × Named m r token
      × ((k : ℕ) → i ≤ k → k < j → children k ≢ null → NotNamed m (children k) token))
    ⊎ ((r ≡ null)
        × ((k : ℕ) → i ≤ k → k < i + left → children k ≢ null → NotNamed m (children k) token))

Named-cases :
    (m : Memory) (child token : ℕ)
    → ((not (child == null)
            && not (safe_strcmp (vnode_name child) token vfs_max_name_length m == 0))
          ≡ true)
        × (child ≢ null)
        × Named m child token
      ⊎ ((not (child == null)
            && not (safe_strcmp (vnode_name child) token vfs_max_name_length m == 0))
          ≡ false)
        × (child ≢ null → NotNamed m child token)
Named-cases m child token = elim (Bool-cases (child == null)) [
  | inl e ↦ inr (rw e refl, λ given. absurd (given (==→eq child null e)))
  | inr ne ↦ elim (safe_strcmp-cases (vnode_name child) token vfs_max_name_length m) [
    | inl h ↦ inl (rw (ne, h.0) refl, ground (arith, ne), h.1)
    | inr h ↦ inr (rw (ne, h.0) refl, λ given. h.1)
  ]
]

FirstNamed-next :
    (m : Memory) (children : ℕ → ℕ) (left i token r : ℕ)
    → (children i ≢ null → NotNamed m (children i) token)
    → FirstNamed m children left (i + 1) token r
    → FirstNamed m children (suc left) i token r
FirstNamed-next m children left i token r miss (inl h) = inl (
  h.0,
  omega arith,
  omega arith,
  h.3,
  h.4,
  h.5,
  λ k low high. elim (le_cases i k low) [
    | inl e ↦ subst (λ c. children c ≢ null → NotNamed m (children c) token) e miss
    | inr more ↦ h.6 k (omega arith) high
  ],
)
FirstNamed-next m children left i token r miss (inr h) = inr (
  h.0,
  λ k low high. elim (le_cases i k low) [
    | inl e ↦ subst (λ c. children c ≢ null → NotNamed m (children c) token) e miss
    | inr more ↦ h.1 k (omega arith) (omega arith)
  ],
)

module _ (directory token : ℕ) (w : Vnode) (s : Vfs) (here : s.vnode_at directory ≡ some w)
    (memory : has_child_memory w ≡ true) where
  get_child-within : (i : ℕ) → i < 64 → get_child directory i s ≡ ok (w.vnode_children i) s
  get_child-within i l = rw (here, memory, lt→ltb i 64 l) refl

  -- The children from place `i` on.
  abbrev Finds : (left i : ℕ) → Type 0
  Finds left i =
      (r : ℕ) × (find_loop left i (w.vnode_children i) directory token s ≡ ok r s)
      × FirstNamed s.memory w.vnode_children left i token r

  find_loop-Finds : (left i : ℕ) → i + left < 64 → Finds left i
  unfolding find_loop
  find_loop-Finds zero i room = (null, refl, inr (refl, λ k low high. absurd (omega arith)))
  find_loop-Finds (suc left) i room = elim (Named-cases s.memory (w.vnode_children i) token) [
    | inl h ↦ (
      w.vnode_children i,
      rw h.0 refl,
      inl (i, omega arith, omega arith, refl, h.1, h.2, λ k low high. absurd (omega arith)),
    )
    | inr h ↦
        let rest = find_loop-Finds left (i + 1) (omega arith) in
        (
          rest.0,
          rw (h.0, get_child-within (i + 1) (omega arith), rest.1) refl,
          FirstNamed-next s.memory w.vnode_children left i token rest.0 h.1 rest.2,
        )
  ]

  find_among-Finds :
      w.num_children < 64
      → (r : ℕ) × (find_among directory token s ≡ ok r s)
        × FirstNamed s.memory w.vnode_children w.num_children 0 token r
  unfolding find_among
  find_among-Finds room =
      let found = find_loop-Finds w.num_children 0 (omega arith) in
      (found.0, rw (here, memory, here, get_child-within 0 (omega arith), found.1) refl, found.2)

-- A directory whose children are in memory, itself or as the place of a mount.
pub record Cached (s : Vfs) (directory target : ℕ) (v w : Vnode) : Type 0 where
  pub at : s.vnode_at directory ≡ some v
  pub type : v.vnode_type ≡ vnode_directory
  pub through : (if v.is_mount_point then v.mounted_vnode else directory) ≡ target
  pub target_at : s.vnode_at target ≡ some w
  pub cached : (not w.is_cached && (w.num_children == 0)) ≡ false
  pub memory : has_child_memory w ≡ true
  pub room : w.num_children < 64

module _ (env : Env) (directory token target : ℕ) (v w : Vnode) (s : Vfs) where
  -- After the bootstrap, on a CPU that is not null and with the lock of the file system free, for
  -- a directory, or the vnode mounted on it, whose children are in memory, cached or not none,
  -- and fewer than 64, the search for a name succeeds and changes nothing. It returns the first
  -- child that is not null and whose name agrees with the name up to the end of one of them or
  -- for 128 bytes, every child before it being null or of a name that differs inside both; or it
  -- returns null, where every child is null or differs.
  pub find_vnode_child-FirstNamed :
      Ready env s
      → Cached s directory target v w
      → (r : ℕ) × (find_vnode_child env directory token s ≡ ok r s)
        × FirstNamed s.memory w.vnode_children w.num_children 0 token r
  unfolding find_vnode_child
  find_vnode_child-FirstNamed r c =
      let found = find_among-Finds target token w (locked env s) c.target_at c.memory c.room in
      (
        found.0,
        rw
            (
              Ready-acquire r,
              c.at,
              eq→== v.vnode_type 0 c.type,
              c.through,
              c.target_at,
              c.cached,
              found.1,
              Ready-release r (locked env s) refl,
            )
            refl,
        found.2,
      )
