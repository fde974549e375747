-- ===== src/Vfs/Offsets.antt =====
-- Which handle a call finds.
use dionys_os.Prelude.{
  ℕ, zero, suc, ◌<◌, ◌^◌, ◌≡◌, ◌≢◌, ◌∙◌, ◌==◌, if◌then◌else◌, true, false, Option, some, none, ok,
  arith, refl, Bool-cases, inl, inr, List, [], ◌∷◌, ◌++◌, length, not_eq, lt→ltb, length-append,
  eq→==, subst, ap,
}
use dionys_os.Spinlock.Recursion.{Free, taken, acquire-once, release-taken}
use dionys_os.Vfs.{null, Returned, value, kern_not_found, VirtualHandle, Vfs, Env}
use dionys_os.Vfs.Handles.{vnode_loop, offset_loop, handle_to_vnode, handle_to_offset, signed}
use dionys_os.Vfs.Calls.{vnode_read, vnode_write}
use dionys_os.Vfs.Interface.{read, write, read_at, write_at}

-- From the node `p` on, the list of handles is `hs`.
abbrev pub Listed : Vfs → ℕ → List VirtualHandle → Type 0
Listed s p [] = p ≡ null
Listed s p (h ∷ hs) =
    (p ≢ null)
    × (s.handle_nodes.live p ≡ true)
    × (s.handle_at (s.handle_nodes.value p) ≡ some h)
    × Listed s (s.handle_nodes.next p) hs

-- The first handle with an identifier.
abbrev pub handle_of : ℕ → List VirtualHandle → Option VirtualHandle
handle_of id [] = none
handle_of id (h ∷ hs) = if h.handle_id == id then some h else handle_of id hs

abbrev pub vnode_of : Option VirtualHandle → ℕ
vnode_of none = null
vnode_of (some h) = h.vnode

abbrev pub offset_of : Option VirtualHandle → Returned
offset_of none = kern_not_found
offset_of (some h) = value h.offset

vnode_loop-handle_of :
    (fuel id p : ℕ) (hs : List VirtualHandle) (s : Vfs)
    → Listed s p hs
    → length hs < fuel
    → vnode_loop fuel id p s ≡ ok (vnode_of (handle_of id hs)) s
unfolding vnode_loop
vnode_loop-handle_of zero id p hs s is enough = absurd (omega (arith, enough))
vnode_loop-handle_of (suc fuel) id p [] s is enough = rw (eq→== p null is) refl
vnode_loop-handle_of (suc fuel) id p (h ∷ hs) s is enough = elim (Bool-cases (h.handle_id == id)) [
  | inl hit ↦ rw (not_eq is.0, is.1, is.2, hit) refl
  | inr miss ↦
      rw (not_eq is.0, is.1, is.2, miss, is.1)
        (vnode_loop-handle_of fuel id (s.handle_nodes.next p) hs s is.3 (omega (arith, enough)))
]

more :
    (s : Vfs) (q : ℕ) (last : VirtualHandle) (gs : List VirtualHandle)
    → Listed s q (gs ++ last ∷ [])
    → (q == null) ≡ false
more s q last [] h = not_eq h.0
more s q last (k ∷ ks) h = not_eq h.0

-- The loop leaves out the last handle.
offset_loop-handle_of :
    (fuel id p : ℕ) (f : VirtualHandle) (front : List VirtualHandle) (last : VirtualHandle)
    (s : Vfs)
    → Listed s p (f ∷ front ++ last ∷ [])
    → length front < fuel
    → offset_loop fuel id p s ≡ ok (offset_of (handle_of id (f ∷ front))) s
unfolding offset_loop
offset_loop-handle_of zero id p f front last s is enough = absurd (omega (arith, enough))
offset_loop-handle_of (suc fuel) id p f [] last s is enough =
    elim (Bool-cases (f.handle_id == id)) [
      | inl hit ↦ rw (is.1, is.2, hit) refl
      | inr miss ↦ rw (is.1, is.2, miss, is.1, is.3.1, eq→== _ null is.3.3) refl
    ]
offset_loop-handle_of (suc fuel) id p f (g ∷ front) last s is enough =
    elim (Bool-cases (f.handle_id == id)) [
      | inl hit ↦ rw (is.1, is.2, hit) refl
      | inr miss ↦
          rw
            (
              is.1,
              is.2,
              miss,
              is.1,
              is.3.1,
              more s (s.handle_nodes.next (s.handle_nodes.next p)) last front is.3.3,
            )
            (offset_loop-handle_of fuel id (s.handle_nodes.next p) g front last s is.3
              (omega (arith, enough)))
    ]

handle_of-append :
    (id : ℕ) (hs gs : List VirtualHandle) (h : VirtualHandle)
    → handle_of id hs ≡ some h
    → handle_of id (hs ++ gs) ≡ some h
handle_of-append id [] gs h e = absurd (ground (arith, e))
handle_of-append id (k ∷ hs) gs h e = ground (arith, e, handle_of-append id hs gs h)

read_at-negative :
    (env : Env) (v b n : ℕ) → read_at env v b n (signed kern_not_found) ≡ λ s. ok kern_not_found s
unfolding read_at signed
read_at-negative env v b n = refl

write_at-negative :
    (env : Env) (v b n : ℕ) → write_at env v b n (signed kern_not_found) ≡ λ s. ok kern_not_found s
unfolding write_at signed
write_at-negative env v b n = refl

read_at-small :
    (env : Env) (v b n : ℕ) {o : ℕ}
    → o < 2 ^ 63
    → read_at env v b n (signed (value o)) ≡ vnode_read env v o n b
unfolding read_at signed
read_at-small env v b n {o} h = rw (lt→ltb o (2 ^ 63) h) refl

write_at-small :
    (env : Env) (v b n : ℕ) {o : ℕ}
    → o < 2 ^ 63
    → write_at env v b n (signed (value o)) ≡ vnode_write env v o n b
unfolding write_at signed
write_at-small env v b n {o} h = rw (lt→ltb o (2 ^ 63) h) refl

-- Every handle leads to a vnode, and its offset is an `int64_t`.
abbrev pub Usable : List VirtualHandle → Type 0
Usable [] = Unit {0}
Usable (h ∷ hs) = (h.vnode ≢ null) × (h.offset < 2 ^ 63) × Usable hs

handle_of-Usable :
    (id : ℕ) (hs : List VirtualHandle) (h : VirtualHandle)
    → Usable hs
    → handle_of id hs ≡ some h
    → (h.vnode ≢ null) × (h.offset < 2 ^ 63)
handle_of-Usable id [] h u e = absurd (ground (arith, e))
handle_of-Usable id (k ∷ hs) h u e = elim (Bool-cases (k.handle_id == id)) [
  | inl hit ↦
      let same : k ≡ h = ground (arith, e, hit) in
      subst (λ (g : VirtualHandle). (g.vnode ≢ null) × (g.offset < 2 ^ 63)) same (u.0, u.1)
  | inr miss ↦ handle_of-Usable id hs h u.2 (ground (arith, e, miss))
]

module _ (env : Env) (fuel id buffer bytes : ℕ) (f : VirtualHandle) (front : List VirtualHandle)
    (last : VirtualHandle) (s : Vfs) (bootstrapped : env.bsp ≡ false) (cpu : env.my_cpu ≢ 0)
    (unlocked : Free s.handle_lock) (is : Listed s s.handle_list.head (f ∷ front ++ last ∷ []))
    (enough : length (f ∷ front ++ last ∷ []) < fuel) where
  handle_to_vnode-handle_of :
      handle_to_vnode env fuel id s ≡ ok (vnode_of (handle_of id (f ∷ front ++ last ∷ []))) s
  unfolding handle_to_vnode
  handle_to_vnode-handle_of =
      rw
        (
          bootstrapped,
          acquire-once env.my_cpu env.current_process cpu s.handle_lock unlocked,
          vnode_loop-handle_of fuel id s.handle_list.head (f ∷ front ++ last ∷ [])
              (record s {
                handle_lock = taken env.my_cpu env.current_process cpu s.handle_lock unlocked;
              })
              is enough,
          release-taken env.my_cpu env.current_process cpu s.handle_lock unlocked,
        )
        refl

  handle_to_offset-handle_of :
      handle_to_offset fuel id s ≡ ok (offset_of (handle_of id (f ∷ front))) s
  unfolding handle_to_offset
  handle_to_offset-handle_of =
      offset_loop-handle_of fuel id s.handle_list.head f front last s is
        (omega (arith, enough, length-append {0} front (last ∷ [])))

  offset_missed : handle_of id (f ∷ front) ≡ none → handle_to_offset fuel id s ≡ ok kern_not_found s
  offset_missed e = handle_to_offset-handle_of ∙ ap (λ o. ok (offset_of o) s) e

  offset_found :
      (h : VirtualHandle)
      → handle_of id (f ∷ front) ≡ some h
      → handle_to_offset fuel id s ≡ ok (value h.offset) s
  offset_found h e = handle_to_offset-handle_of ∙ ap (λ o. ok (offset_of o) s) e

  abbrev Transfers : Option VirtualHandle → Type 0
  Transfers none =
      (read env fuel id buffer bytes s ≡ ok kern_not_found s)
      × (write env fuel id buffer bytes s ≡ ok kern_not_found s)
  Transfers (some h) =
      (read env fuel id buffer bytes s ≡ vnode_read env h.vnode h.offset bytes buffer s)
      × (write env fuel id buffer bytes s ≡ vnode_write env h.vnode h.offset bytes buffer s)

  transfers :
      (o : Option VirtualHandle) → handle_of id (f ∷ front) ≡ o → Usable (f ∷ front) → Transfers o
  unfolding read write
  transfers none e u =
      elim (Bool-cases (vnode_of (handle_of id (f ∷ front ++ last ∷ [])) == null)) [
        | inl no_vnode ↦ (
          rw (handle_to_vnode-handle_of, no_vnode) refl,
          rw (handle_to_vnode-handle_of, no_vnode) refl,
        )
        | inr a_vnode ↦
            let v = vnode_of (handle_of id (f ∷ front ++ last ∷ [])) in
            (
              rw
                  (
                    handle_to_vnode-handle_of,
                    a_vnode,
                    offset_missed e,
                    read_at-negative env v buffer bytes,
                  )
                  refl,
              rw
                  (
                    handle_to_vnode-handle_of,
                    a_vnode,
                    offset_missed e,
                    write_at-negative env v buffer bytes,
                  )
                  refl,
            )
      ]
  transfers (some h) e u =
      let usable = handle_of-Usable id (f ∷ front) h u e in
      let hit = handle_of-append id (f ∷ front) (last ∷ []) h e in
      (
        rw
            (
              handle_to_vnode-handle_of,
              hit,
              not_eq usable.0,
              offset_found h e,
              read_at-small env h.vnode buffer bytes usable.1,
            )
            refl,
        rw
            (
              handle_to_vnode-handle_of,
              hit,
              not_eq usable.0,
              offset_found h e,
              write_at-small env h.vnode buffer bytes usable.1,
            )
            refl,
      )

  -- After the bootstrap, on a CPU that is not null and with the lock of the handles free, for a
  -- list of at least two handles, fewer than the fuel, each but the last with a vnode that is not
  -- null and an offset below 2 ^ 63, a read and a write on the identifier of a handle before the
  -- last are those of the first such handle's vnode at its offset. On every other identifier,
  -- that of the last and oldest handle included, both return KERN_NOT_FOUND and change nothing.
  pub read-write-handle_of : Usable (f ∷ front) → Transfers (handle_of id (f ∷ front))
  read-write-handle_of = transfers (handle_of id (f ∷ front)) refl
