-- ===== src/Heap/Kalloc.antt =====
-- Entries of slabs, allocated and freed through the heap.
use dionys_os.Prelude.{
  ℕ, ◌+◌, ◌*◌, ◌/◌, ◌%◌, ◌≤◌, ◌<◌, ◌≡◌, ◌≢◌, false, ltb, leb, ◌==◌, if◌then◌else◌, arith, refl, sym,
  ap, ◌∙◌, subst, Option, none, some, update, update_same, Run, ok, fault, Cmd, List, ◌∷◌, lt→ltb,
}
use dionys_os.Slab.{
  Words, Slab, null, page_size, heap_allocate_from_slab, heap_free_in_slab, heap_slab_for,
}
use dionys_os.Slab.Layout.{HasFree}
use dionys_os.Slab.Operations.{heap_allocate_from_slab-cons, heap_free_in_slab-cons}
use dionys_os.Heap.{
  Heap, with_pages, num_slabs, slab_bytes, slab_index, kalloc, allocate_in, free_entry, kfree,
}

is_not : {a b : ℕ} → a ≢ b → (a == b) ≡ false
is_not h = ground (arith, h)

-- The header of a slab lies before an entry that is on no page boundary.
header_before :
    (a b size v : ℕ)
    → b ≡ a / slab_bytes * slab_bytes
    → a % page_size ≢ 0
    → (if leb a b then (if ltb b (a + size) then 0 else v) else v) ≡ v
header_before a b size v e off = ground (arith, e, off)

inside_entry :
    (a b size v : ℕ)
    → a ≤ b
    → b < a + size
    → (if leb a b then (if ltb b (a + size) then 0 else v) else v) ≡ 0
inside_entry a b size v low high = ground (arith, low, high)

module _ {P : Type 0} (slab_at : ℕ → ℕ) (phys_alloc : ℕ → Cmd P ℕ)
    (phys_dealloc : ℕ → Cmd P (Unit {0})) (phys_to_virt virt_to_phys : ℕ → ℕ) where
  abbrev after_take : Heap P → ℕ → ℕ × Slab × Words → Run (Heap P) ℕ
  after_take h i r = ok r.0 (record h { slabs = update h.slabs i r.1; words = r.2 })

  abbrev after_free : Heap P → ℕ → Option Slab × Words → Run (Heap P) (Unit {0})
  after_free h i r = elim r.0 [
    | none ↦ fault
    | some s ↦ ok tt (record h { slabs = update h.slabs i s; words = r.1 })
  ]

  run-kalloc :
      (h : Heap P) (size i : ℕ)
      → size < page_size
      → heap_slab_for num_slabs 0 h.slabs size ≡ some i
      → (h.slabs i).first_free ≢ null
      → kalloc slab_at phys_alloc phys_dealloc phys_to_virt virt_to_phys size h
        ≡ after_take h i (heap_allocate_from_slab null (slab_at i) (h.slabs i) h.words)
  unfolding kalloc allocate_in heap_allocate_from_slab
  run-kalloc h size i small found some_free =
      rw (lt→ltb size page_size small, found, is_not some_free) refl

  abbrev freed_in : Heap P → (slab a : ℕ) → Option ℕ → Run (Heap P) (Unit {0})
  freed_in g slab a o = elim o [
    | none ↦ (if slab == null then ok tt g else fault)
    | some i ↦ after_free g i (heap_free_in_slab (some (g.slabs i)) a g.words)
  ]

  run-free_entry :
      (g : Heap P) (slab a : ℕ)
      → free_entry slab_at phys_alloc phys_dealloc phys_to_virt virt_to_phys slab a g
        ≡ freed_in g slab a (slab_index slab_at num_slabs 0 slab)
  unfolding free_entry
  run-free_entry g slab a = refl

  run-kfree :
      (g : Heap P) (a i : ℕ)
      → a ≢ null
      → a % page_size ≢ 0
      → g.words (a / slab_bytes * slab_bytes) ≡ slab_at i
      → slab_index slab_at num_slabs 0 (slab_at i) ≡ some i
      → kfree slab_at phys_alloc phys_dealloc phys_to_virt virt_to_phys a g
        ≡ after_free g i (heap_free_in_slab (some (g.slabs i)) a g.words)
  unfolding kfree
  run-kfree g a i given off header index =
      let other =
        with_pages slab_at phys_alloc phys_dealloc phys_to_virt virt_to_phys g
          (phys_dealloc (virt_to_phys a) g.pages) in
      let entry = free_entry slab_at phys_alloc phys_dealloc phys_to_virt virt_to_phys in
      ap
        (λ c.
          if c
          then ok tt g
          else if a % page_size == 0
          then other
          else entry (g.words (a / slab_bytes * slab_bytes)) a g)
        (is_not given)
      ∙ ap (λ c. if c then other else entry (g.words (a / slab_bytes * slab_bytes)) a g)
          (is_not off)
      ∙ ap (λ slab. entry slab a g) header
      ∙ run-free_entry g (slab_at i) a
      ∙ ap (freed_in g (slab_at i) a) index

  -- For a size below a page whose slab has a first free entry a, which is on no page boundary,
  -- when the header of the 128 KiB around a names that slab, _kalloc returns a, zeroed, and
  -- leaves the slab with the other entries free, and _kfree of a then succeeds and leaves the
  -- slab with a in front of them again.
  pub kfree-kalloc :
      (h : Heap P) (size i a : ℕ) (xs : List ℕ)
      → size < page_size
      → heap_slab_for num_slabs 0 h.slabs size ≡ some i
      → HasFree h.words (h.slabs i) (a ∷ xs)
      → a % page_size ≢ 0
      → h.words (a / slab_bytes * slab_bytes) ≡ slab_at i
      → slab_index slab_at num_slabs 0 (slab_at i) ≡ some i
      → (g : Heap P) × (g' : Heap P) × (kalloc slab_at phys_alloc phys_dealloc phys_to_virt
            virt_to_phys size h
          ≡ ok a g)
        × HasFree g.words (g.slabs i) xs
        × ((b : ℕ) → a ≤ b → b < a + (h.slabs i).entry_size → g.words b ≡ 0)
        × (kfree slab_at phys_alloc phys_dealloc phys_to_virt virt_to_phys a g ≡ ok tt g')
        × HasFree g'.words (g'.slabs i) (a ∷ xs)
  kfree-kalloc h size i a xs small found is off header index =
      let taken = heap_allocate_from_slab-cons null (slab_at i) (h.slabs i) h.words a xs is in
      let freed = heap_free_in_slab-cons taken.0 taken.1 a xs taken.3 taken.4 in
      let g : Heap P = record h { slabs = update h.slabs i taken.0; words = taken.1 } in
      let some_free : (h.slabs i).first_free ≢ null = λ e. is.chain.1 (sym is.chain.0 ∙ e) in
      let header' : taken.1 (a / slab_bytes * slab_bytes) ≡ slab_at i =
        taken.5 (a / slab_bytes * slab_bytes)
        ∙ header_before a (a / slab_bytes * slab_bytes) (h.slabs i).entry_size
            (h.words (a / slab_bytes * slab_bytes)) refl off
        ∙ header in
      (
        g,
        record g { slabs = update g.slabs i freed.0; words = update taken.1 a taken.0.first_free },
        run-kalloc h size i small found some_free ∙ ap (after_take h i) taken.2,
        subst (λ s. HasFree taken.1 s xs) (sym (update_same h.slabs i taken.0)) taken.3,
        (λ b low high. taken.5 b ∙ inside_entry a b (h.slabs i).entry_size (h.words b) low high),
        run-kfree g a i is.chain.1 off header' index
            ∙ ap (λ s. after_free g i (heap_free_in_slab (some s) a taken.1))
                (update_same h.slabs i taken.0)
            ∙ ap (after_free g i) freed.1,
        subst (λ s. HasFree (update taken.1 a taken.0.first_free) s (a ∷ xs))
            (sym (update_same g.slabs i freed.0)) freed.2,
      )
