-- ===== src/Vfs/Naming.antt =====
-- The canonical path of a vnode that is no longer mounted.
use dionys_os.Prelude.{
  ℕ, suc, ◌+◌, ◌≤◌, ◌<◌, ◌≡◌, ◌≢◌, ◌⊎◌, if◌then◌else◌, true, some, none, update, update_other, ok,
  fault, not_eq, ◌∙◌, arith, refl, leb, ltb, ◌&&◌,
}
use dionys_os.CString.{Memory, strcat, strcat_end, strcat_copy}
use dionys_os.Vfs.{null, Vnode, Vfs, Env}
use dionys_os.Vfs.Mounting.{Ready, Ready-acquire}
use dionys_os.Vfs.Paths.{slash, page_size, vnode_get_canonical_path}

-- "/" at the end of an empty string.
strcat-slash :
    (fuel b separator : ℕ) (m : Memory)
    → m b ≡ 0
    → m separator ≡ slash
    → m (separator + 1) ≡ 0
    → b ≢ separator + 1
    → strcat (suc (suc fuel)) b separator m ≡ ok tt (update m b slash)
unfolding strcat strcat_end strcat_copy
strcat-slash fuel b separator m empty sep end apart =
    rw (empty, sep, update_other m b (separator + 1) slash (ground (arith, apart)), end) refl

-- The string "/" lies apart from a page.
abbrev Apart : (separator page : ℕ) → Type 0
Apart separator page = (separator + 1 < page) ⊎ (page + page_size ≤ separator)

first :
    {separator page : ℕ}
    → Apart separator page
    → (separator < page) ⊎ (page + page_size ≤ separator)
first h = ground (arith, h)

second :
    {separator page : ℕ}
    → Apart separator page
    → (separator + 1 < page) ⊎ (page + page_size ≤ separator + 1)
second h = ground (arith, h)

cleared : Memory → ℕ → Memory
cleared m b p = if leb b p && ltb p (b + page_size) then 0 else m p

cleared_twice : (m : Memory) (b c : ℕ) → cleared (cleared m b) c b ≡ 0
unfolding cleared
cleared_twice m b c = ground arith

cleared_apart : (m : Memory) (b p : ℕ) → (p < b) ⊎ (b + page_size ≤ p) → cleared m b p ≡ m p
unfolding cleared
cleared_apart m b p h = ground (arith, h)

module _ (env : Env) (fuel separator buffer final_buffer temp temp_string vnode : ℕ) (s : Vfs)
    (v : Vnode) where
  -- After the bootstrap, on a CPU that is not null and with the lock of the file system free, for
  -- a vnode that is marked as mounted, has no parent, and is neither null nor the root, where
  -- null is no vnode and the string "/" shares no byte with the two pages for the path, the
  -- canonical path is a fault, with fuel of 2 or more.
  pub vnode_get_canonical_path-unmounted :
      Ready env s
      → s.vnode_at vnode ≡ some v
      → s.vnode_at null ≡ none
      → v.is_mounted ≡ true
      → v.vnode_parent ≡ null
      → vnode ≢ null
      → vnode ≢ env.vfs_root
      → s.memory separator ≡ slash
      → s.memory (separator + 1) ≡ 0
      → Apart separator buffer
      → Apart separator final_buffer
      → vnode_get_canonical_path env
          (suc (suc fuel))
          separator
          buffer
          final_buffer
          temp
          temp_string
          vnode
          s
        ≡ fault
  unfolding vnode_get_canonical_path cleared
  vnode_get_canonical_path-unmounted r here no_null is_mounted parent given no_root sep end apart
        apart_final =
      let m = cleared (cleared s.memory buffer) final_buffer in
      let kept =
        λ (p : ℕ) (a : (p < buffer) ⊎ (buffer + page_size ≤ p))
            (b : (p < final_buffer) ⊎ (final_buffer + page_size ≤ p)).
          cleared_apart (cleared s.memory buffer) final_buffer p b
          ∙ cleared_apart s.memory buffer p a in
      rw
        (
          Ready-acquire r,
          not_eq given,
          not_eq no_root,
          here,
          strcat-slash fuel buffer separator m (cleared_twice s.memory buffer final_buffer)
              (kept separator (first apart) (first apart_final) ∙ sep)
              (kept (separator + 1) (second apart) (second apart_final) ∙ end)
              (ground (arith, apart)),
          is_mounted,
          parent,
          no_null,
        )
        refl
