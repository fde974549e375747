-- ===== src/Slab/Linking.antt =====
-- The entries of a new slab.
use dionys_os.Prelude.{
  ℕ, zero, suc, ◌+◌, ◌*◌, ◌-◌, ◌/◌, ◌≤◌, ◌<◌, ◌≡◌, inl, List, [], ◌∷◌, arith, update, refl, sym, ap,
  ◌∙◌, subst, ◌%◌, lt_or_le, inr,
}
use native.Mathlib.Nat.{
  le-div_iff_mul-le, div-mul-le_self, lt-div-mul-add, div-lt_iff_lt-mul, mul-le-mul_right,
  mul-mod_left,
}
use dionys_os.Slab.{
  Words, Slab, null, link_entries, heap_create_slab, header_offset, link_count, page_size,
}
use dionys_os.Slab.Layout.{Chain, Clear, Spread, Inside, HasFree}

-- `count` entries of `step` bytes from `p` on.
abbrev pub entries : (count p step : ℕ) → List ℕ
entries zero p step = []
entries (suc count) p step = p ∷ entries count (p + step) step

-- The loop with a running address.
abbrev link_run : (left p step : ℕ) → Words → Words
link_run zero p step m = m
link_run (suc left) p step m = link_run left (p + step) step (update m p (p + step))

link_entries-run :
    (left array factor i : ℕ) (m : Words)
    → link_entries left array factor i m ≡ link_run left (array + 8 * (i * factor)) (8 * factor) m
unfolding link_entries
link_entries-run zero array factor i m = refl
link_entries-run (suc left) array factor i m =
    link_entries-run left array factor (i + 1)
      (update m (array + 8 * (i * factor)) (array + 8 * ((i + 1) * factor)))
    ∙ ap (λ q. link_run left q (8 * factor) (update m (array + 8 * (i * factor)) q)) (grind arith)

link_run-below : (left p step a : ℕ) (m : Words) → a < p → link_run left p step m a ≡ m a
link_run-below zero p step a m h = refl
link_run-below (suc left) p step a m h =
    link_run-below left (p + step) step a (update m p (p + step)) (omega arith) ∙ ground arith

-- The linked words with the last one null.
abbrev closed : (left p step : ℕ) → Words → Words
closed zero p step m = update m p null
closed (suc left) p step m = closed left (p + step) step (update m p (p + step))

closed-run :
    (left p step : ℕ) (m : Words)
    → update (link_run left p step m) (p + left * step) null ≡ closed left p step m
closed-run zero p step m = ap (λ q. update m q null) (omega arith)
closed-run (suc left) p step m =
    ap (λ q. update (link_run left (p + step) step (update m p (p + step))) q null) (grind arith)
    ∙ closed-run left (p + step) step (update m p (p + step))

closed-below : (left p step a : ℕ) (m : Words) → a < p → closed left p step m a ≡ m a
closed-below zero p step a m h = ground arith
closed-below (suc left) p step a m h =
    closed-below left (p + step) step a (update m p (p + step)) (omega arith) ∙ ground arith

closed-Chain :
    (left p step : ℕ) (m : Words)
    → 0 < p
    → 0 < step
    → Chain (closed left p step m) p (entries (suc left) p step)
closed-Chain zero p step m h z = ground arith
closed-Chain (suc left) p step m h z =
    let m₁ = update m p (p + step) in
    let here : closed left (p + step) step m₁ p ≡ p + step =
      closed-below left (p + step) step p m₁ (omega arith) ∙ ground arith in
    (
      refl,
      omega arith,
      subst (λ q. Chain (closed left (p + step) step m₁) q (entries (suc left) (p + step) step))
          (sym here) (closed-Chain left (p + step) step m₁ (omega arith) z),
    )

entries-Clear : (count p q step : ℕ) → p + step ≤ q → Clear step p (entries count q step)
entries-Clear zero p q step h = tt
entries-Clear (suc count) p q step h = (inl h, entries-Clear count p (q + step) step (omega arith))

entries-Spread : (count p step : ℕ) → Spread step (entries count p step)
entries-Spread zero p step = tt
entries-Spread (suc count) p step =
    (entries-Clear count p (p + step) step (omega arith), entries-Spread count (p + step) step)

entries-Inside :
    (count p step low high : ℕ)
    → low ≤ p
    → p + count * step ≤ high
    → Inside low high step (entries count p step)
entries-Inside zero p step low high l h = tt
entries-Inside (suc count) p step low high l h =
    ((l, grind arith), entries-Inside count (p + step) step low high (omega arith) (grind arith))

module _ (fresh slab factor pages : ℕ) (m : Words) (given : 0 < fresh) (pos : 0 < factor) where
  abbrev size : ℕ
  size = 8 * factor

  abbrev pub created : Slab × Words
  created = heap_create_slab fresh slab size pages m

  abbrev available : ℕ
  available = pages * page_size - header_offset size

  abbrev first : ℕ
  first = fresh + header_offset size

  all_links : size ≤ available → suc (link_count size pages) ≡ available / size
  all_links fits =
      let one : 1 ≤ available / size =
        (le-div_iff_mul-le {k = size} {x = 1} {y = available} (omega arith)).1 (omega arith) in
      omega (arith, one)

  links-fit : size ≤ available → suc (link_count size pages) * size ≤ available
  links-fit fits =
      subst (λ q. q * size ≤ available) (sym (all_links fits)) (div-mul-le_self available size)

  created-closed : created.1 ≡ closed (link_count size pages) first size (update m fresh slab)
  unfolding heap_create_slab
  created-closed =
      let max = link_count size pages in
      let m₀ = update m fresh slab in
      ap (λ f. update (link_entries max first f 0 m₀) (first + 8 * (max * f)) null) (omega arith)
      ∙ ap (λ (u : Words). update u (first + 8 * (max * factor)) null)
          (link_entries-run max first factor 0 m₀)
      ∙ ap (λ a. update (link_run max a size m₀) (first + 8 * (max * factor)) null) (omega arith)
      ∙ ap (λ a. update (link_run max first size m₀) a null) (grind arith)
      ∙ closed-run max first size m₀

  -- The header takes more than its 8 bytes, and an entry more than them at most.
  header-above : 8 < header_offset size
  header-above = omega (arith, lt-div-mul-add {a = 8 + size} {b = size} (omega arith))

  header-below : header_offset size ≤ 8 + size
  header-below = div-mul-le_self (8 + size) size

  -- From 16 bytes on an entry has the room of the header.
  header-one_entry : 2 ≤ factor → header_offset size ≤ size
  header-one_entry large =
      let one : (8 + size) / size < 2 =
        (div-lt_iff_lt-mul {k = size} {x = 8 + size} {y = 2} (omega arith)).1 (omega arith) in
      omega (arith, mul-le-mul_right {m = (8 + size) / size} {n = 1} size (omega (arith, one)))

  header-fits :
      1 ≤ pages → 2 * size ≤ pages * page_size → header_offset size + size ≤ pages * page_size
  header-fits some_pages room = elim (lt_or_le factor 2) [
    | inl small ↦ omega (arith, header-below)
    | inr large ↦ omega (arith, header-one_entry large)
  ]

  HasFree-created :
      header_offset size + size ≤ pages * page_size
      → HasFree created.1 created.0 (entries (suc (link_count size pages)) first size)
  unfolding heap_create_slab
  HasFree-created room = record {
    chain =
        subst (λ (u : Words). Chain u first (entries (suc (link_count size pages)) first size))
          (sym created-closed)
          (closed-Chain (link_count size pages) first size (update m fresh slab) (omega arith)
            (omega arith));
    spread = entries-Spread (suc (link_count size pages)) first size;
    inside =
        entries-Inside (suc (link_count size pages)) first size fresh (fresh + pages * page_size)
          (omega arith) (omega (arith, links-fit (omega arith)));
    size = omega arith;
  }

  -- No entry more would fit.
  links-all : size ≤ available → available < suc (link_count size pages) * size + size
  links-all fits =
      subst (λ q. available < q * size + size) (sym (all_links fits))
        (lt-div-mul-add {a = available} {b = size} (omega arith))

  header-kept : created.1 fresh ≡ slab
  header-kept =
      ap (λ (u : Words). u fresh) created-closed
      ∙ closed-below (link_count size pages) first size fresh (update m fresh slab)
          (omega (arith, header-above))
      ∙ ground arith

  -- For entries of a multiple of 8 bytes, with pages at an address that is not null and room for
  -- two entries, a new slab is well-formed: its free entries are linked in the order of their
  -- addresses, apart from each other and inside the pages. They start at a multiple of the entry
  -- size, behind the 8 bytes of the header and at most one entry further, and go on to the end of
  -- the pages, where no other one fits; the header holds the address of the slab.
  pub heap_create_slab-HasFree :
      1 ≤ pages
      → 2 * size ≤ pages * page_size
      → (start : ℕ) × (count : ℕ) × HasFree created.1 created.0 (entries count start size)
        × (fresh + 8 ≤ start)
        × (start ≤ fresh + 8 + size)
        × ((start - fresh) % size ≡ 0)
        × (start + count * size ≤ fresh + pages * page_size)
        × (fresh + pages * page_size < start + count * size + size)
        × (created.1 fresh ≡ slab)
  heap_create_slab-HasFree some_pages room =
      let fits = header-fits some_pages room in
      (
        first,
        suc (link_count size pages),
        HasFree-created fits,
        omega (arith, header-above),
        omega (arith, header-below),
        ap (λ q. q % size) (omega arith) ∙ mul-mod_left ((8 + size) / size) size,
        omega (arith, links-fit (omega (arith, fits))),
        omega (arith, fits, links-all (omega (arith, fits))),
        header-kept,
      )
