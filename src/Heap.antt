-- ===== src/Heap.antt =====
-- kernel/src/memory/kmalloc.c: the kernel heap on the slabs and the page allocator. `P` is the state of
-- the page allocator, and `slab_at` gives the addresses of the structures `slabs[i]`.
pub mod Kalloc
use dionys_os.Prelude.{
  ℕ, zero, suc, ◌+◌, ◌*◌, ◌-◌, ◌/◌, ◌%◌, Bool, true, false, ◌||◌, ltb, leb, ◌==◌, if◌then◌else◌,
  Option, none, some, update, Run, ok, fault, Cmd, ◌>>=◌, ◌>>◌, pure,
}
use dionys_os.Slab.{
  cleared, Words, Slab, null, page_size, default_slab_size_pages, heap_create_slab,
  heap_allocate_from_slab, heap_free_in_slab, heap_slab_for,
}

abbrev pub num_slabs : ℕ
num_slabs = 10

abbrev pub slab_bytes : ℕ
slab_bytes = 131072

pub record Heap (P : Type 0) : Type 0 where
  pub slabs : ℕ → Slab
  pub words : Words
  pub pages : P

-- `slabs` by the address of the structure.
unfoldable pub slab_index : (slab_at : ℕ → ℕ) (count i slab : ℕ) → Option ℕ
slab_index slab_at zero i slab = none
slab_index slab_at (suc count) i slab =
    let rest = slab_index slab_at count (i + 1) slab in if slab_at i == slab then some i else rest

-- `memcpy`, by words.
abbrev pub copied : (to from size : ℕ) → Words → Words
copied to from size m a =
    if ltb a to then m a else if ltb a (to + size) then m (from + (a - to)) else m a

module _ {P : Type 0} (slab_at : ℕ → ℕ) (phys_alloc : ℕ → Cmd P ℕ)
    (phys_dealloc : ℕ → Cmd P (Unit {0})) (phys_to_virt virt_to_phys : ℕ → ℕ) where
  abbrev pub with_pages : {A : Type 0} → Heap P → Run P A → Run (Heap P) A
  with_pages h (ok a p) = ok a (record h { pages = p })
  with_pages h Run.panic = Run.panic
  with_pages h fault = fault
  with_pages h Run.hang = Run.hang

  -- The virtual address of new pages.
  unfoldable pub get_pages : ℕ → Cmd (Heap P) ℕ
  get_pages count = (λ h. with_pages h (phys_alloc count h.pages)) >>= λ a. pure (phys_to_virt a)

  abbrev pub put_slab : ℕ → Slab → Words → Cmd (Heap P) (Unit {0})
  put_slab i s m h = ok tt (record h { slabs = update h.slabs i s; words = m })

  -- The slabs from number `i` on, of sizes from `size` on.
  unfoldable pub heap_init_loop : (left i size : ℕ) → Cmd (Heap P) (Unit {0})
  unfolding get_pages heap_create_slab
  heap_init_loop zero i size = pure tt
  heap_init_loop (suc left) i size = do
    fresh ← get_pages default_slab_size_pages
    (λ h.
        let created = heap_create_slab fresh (slab_at i) size default_slab_size_pages h.words in
        put_slab i created.0 created.1 h)
    if leb page_size (size * 2) then pure tt else heap_init_loop left (i + 1) (size * 2)

  unfoldable pub heap_init : Cmd (Heap P) (Unit {0})
  unfolding heap_init_loop
  heap_init = heap_init_loop num_slabs 0 8

  -- An empty slab takes new pages.
  unfoldable pub allocate_in : ℕ → Cmd (Heap P) ℕ
  unfolding get_pages heap_allocate_from_slab
  allocate_in i = do
    s ← (λ h. ok (h.slabs i) h)
    fresh ← (if s.first_free == null then get_pages default_slab_size_pages else pure null)
    (λ h.
        let taken = heap_allocate_from_slab fresh (slab_at i) s h.words in
        ok taken.0 (record h { slabs = update h.slabs i taken.1; words = taken.2 }))

  unfoldable pub kalloc : ℕ → Cmd (Heap P) ℕ
  unfolding get_pages allocate_in heap_slab_for
  kalloc size h =
      let pages = get_pages ((size + page_size) / page_size) in
      if ltb size page_size
      then (elim (heap_slab_for num_slabs 0 h.slabs size) [
        | none ↦ pages h
        | some i ↦ allocate_in i h
      ])
      else pages h

  unfoldable pub kzmalloc : ℕ → Cmd (Heap P) ℕ
  unfolding kalloc
  kzmalloc size = do a ← kalloc size; (λ h. ok a (record h { words = cleared a size h.words }))

  -- An entry goes back to the slab that a header names. A header that names none is a bad pointer.
  unfoldable pub free_entry : (slab address : ℕ) → Cmd (Heap P) (Unit {0})
  unfolding slab_index heap_free_in_slab
  free_entry slab address h = elim (slab_index slab_at num_slabs 0 slab) [
    | none ↦ (if slab == null then ok tt h else fault)
    | some i ↦
        (let freed = heap_free_in_slab (some (h.slabs i)) address h.words in
          elim freed.0 [ none ↦ fault | some s ↦ put_slab i s freed.1 h ])
  ]

  unfoldable pub kfree : ℕ → Cmd (Heap P) (Unit {0})
  unfolding free_entry
  kfree address h =
      if address == null
      then ok tt h
      else if address % page_size == 0
      then with_pages h (phys_dealloc (virt_to_phys address) h.pages)
      else free_entry (h.words (address / slab_bytes * slab_bytes)) address h

  -- The result, with whether the allocation lock is still held. The header of a slab is looked for at
  -- the start of the page, not of the slab.
  unfoldable pub krealloc : (address new_size : ℕ) → Cmd (Heap P) (ℕ × Bool)
  unfolding kalloc kfree free_entry
  krealloc address new_size =
      if address == null
      then (do a ← kalloc new_size; pure (a, true))
      else if address % page_size == 0
      then (do
        size ← (λ h. ok (h.words (address - page_size + 8)) h)
        if (size + (page_size - 1)) / page_size == (new_size + (page_size - 1)) / page_size
            then (do
              (λ h. ok tt (record h { words = update h.words (address - page_size + 8) new_size }))
              pure (address, false))
            else (do
              a ← kalloc new_size
              if a == null then pure (null, false) else (do
                size' ← (λ h. ok (h.words (address - page_size + 8)) h)
                (λ h. ok tt (record h {
                  words = copied a address (if ltb new_size size' then new_size else size') h.words;
                }))
                kfree address
                pure (a, false))))
      else (do
        slab ← (λ h. ok (h.words (address / page_size * page_size)) h)
        (elim (slab_index slab_at num_slabs 0 slab) [
          | none ↦ (λ _. fault)
          | some i ↦ (do
            s ← (λ h. ok (h.slabs i) h)
            if ltb s.entry_size new_size
                then (do
                  a ← kalloc new_size
                  if a == null then pure (null, true) else (do
                    (λ h. ok tt (record h { words = copied a address s.entry_size h.words }))
                    free_entry slab address
                    pure (a, false)))
                else pure (address, false))
        ]))
