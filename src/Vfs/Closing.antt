-- ===== src/Vfs/Closing.antt =====
-- What closing a handle does.
use dionys_os.Prelude.{
  ℕ, zero, suc, ◌≡◌, ◌≢◌, ◌==◌, if◌then◌else◌, true, some, none, ok, arith, refl, Bool-cases, inl,
  inr, List, [], ◌∷◌, not_eq, hang, eq→==, update, update_same,
}
use dionys_os.DoublyLinkedList.{dec, remove_node_by_address, Nodes, DoublyLinkedList}
use dionys_os.Vfs.{null, VirtualHandle, VnodeOperations, Vfs, Env, Vnode}
use dionys_os.Vfs.Calls.{close_loop, vnode_close, dec16, dec64}
use dionys_os.Vfs.Offsets.{Listed}

-- The first node leaves a list of handles.
abbrev FirstLeaves : Nodes → DoublyLinkedList → Type 0
FirstLeaves m l =
    (l' : DoublyLinkedList) × (m' : Nodes) × (remove_node_by_address l l.head m ≡ ok l' m')
    × (l'.head ≡ m.next l.head)

first-FirstLeaves :
    (m : Nodes) (l : DoublyLinkedList)
    → m.live l.head ≡ true
    → m.prev l.head ≡ null
    → (m.next l.head ≢ null → m.live (m.next l.head) ≡ true)
    → FirstLeaves m l
unfolding remove_node_by_address
first-FirstLeaves m l live front next_live = elim (Bool-cases (m.next l.head == null)) [
  | inl e ↦ (
    record { head = null; tail = null; node_count = dec l.node_count },
    m,
    rw (live, live, e, eq→== (m.prev l.head) null front) refl,
    ground (arith, e),
  )
  | inr ne ↦ (
    record l { head = m.next l.head; node_count = dec l.node_count },
    record m { prev = update m.prev (m.next l.head) null },
    rw (live, live, ne, eq→== (m.prev l.head) null front, next_live (ground (arith, ne))) refl,
    refl,
  )
]

Listed-live :
    (s : Vfs) (q : ℕ) (hs : List VirtualHandle)
    → Listed s q hs
    → q ≢ null
    → s.handle_nodes.live q ≡ true
Listed-live s q [] is given = absurd (given is)
Listed-live s q (h ∷ hs) is given = is.1

module _ (env : Env) (s : Vfs) (h : VirtualHandle) (hs : List VirtualHandle)
    (is : Listed s s.handle_list.head (h ∷ hs)) where
  close_loop-hang :
      (fuel handle : ℕ)
      → h.handle_id ≢ handle
      → close_loop env fuel handle s.handle_list.head s ≡ hang
  unfolding close_loop
  close_loop-hang zero handle other = refl
  close_loop-hang (suc fuel) handle other =
      rw (not_eq is.0, is.1, is.2, not_eq other) (close_loop-hang fuel handle other)

  -- The newest handle goes.
  abbrev NewestGoes : (fuel : ℕ) → Type 0
  NewestGoes fuel =
      (t : Vfs) × (vnode_close env (suc fuel) h.handle_id s ≡ ok tt t)
      × (t.handle_list.head ≡ s.handle_nodes.next s.handle_list.head)
      × (t.handle_id_bitmap ≡ s.handle_id_bitmap)
      × (t.num_handles ≡ s.num_handles)

  newest-goes :
      (fuel : ℕ) (v : Vnode)
      → s.vnode_at h.vnode ≡ some v
      → VnodeOperations.close (env.operations v.vnode_ops) h.vnode h.handle_id s ≡ ok tt s
      → s.handle_nodes.prev s.handle_list.head ≡ null
      → NewestGoes fuel
  unfolding vnode_close close_loop
  newest-goes fuel v at closes front =
      let gone =
        first-FirstLeaves s.handle_nodes s.handle_list is.1 front (Listed-live s _ hs is.3) in
      (
        record s {
          vnode_at =
              update s.vnode_at h.vnode
                (some (record v { vnode_refcount = dec16 v.vnode_refcount }));
          filesystem_reference_count =
              if v.filesystem_info == null
              then s.filesystem_reference_count
              else update s.filesystem_reference_count v.filesystem_info
                  (dec64 (s.filesystem_reference_count v.filesystem_info));
          handle_at = update s.handle_at (s.handle_nodes.value s.handle_list.head) none;
          handle_nodes = gone.1;
          handle_list = gone.0;
        },
        rw
            (
              not_eq is.0,
              is.1,
              is.2,
              eq→== h.handle_id h.handle_id refl,
              at,
              closes,
              at,
              update_same s.vnode_at h.vnode
                  (some (record v { vnode_refcount = dec16 v.vnode_refcount })),
              gone.2,
            )
            refl,
        gone.3,
        refl,
        refl,
      )

  -- For a list of handles whose first one has no node in front of it and a vnode whose file
  -- system's close changes nothing, a close of every other identifier does not end, whatever the
  -- fuel; a close of the identifier of the first one succeeds, with fuel of 1 or more, the list
  -- then starts at the next node, and the bitmap of the identifiers and the number of handles are
  -- as before.
  pub vnode_close-newest :
      (v : Vnode)
      → s.vnode_at h.vnode ≡ some v
      → VnodeOperations.close (env.operations v.vnode_ops) h.vnode h.handle_id s ≡ ok tt s
      → s.handle_nodes.prev s.handle_list.head ≡ null
      → ((fuel handle : ℕ) → h.handle_id ≢ handle → vnode_close env fuel handle s ≡ hang)
        × ((fuel : ℕ) → NewestGoes fuel)
  unfolding vnode_close
  vnode_close-newest v at closes front =
      (close_loop-hang, λ fuel. newest-goes fuel v at closes front)
