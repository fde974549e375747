-- ===== src/Slab/Operations.antt =====
-- Allocation from a slab and freeing into it, on the list of free entries.
use dionys_os.Prelude.{
  ℕ, zero, suc, ◌+◌, ◌≤◌, ◌<◌, ◌≡◌, ◌≢◌, inl, inr, List, ◌∷◌, arith, update, ltb, leb,
  if◌then◌else◌, refl, some, Bool-cases, le_cases,
}
use dionys_os.Slab.{
  Words, Slab, null, cleared, heap_allocate_from_slab, heap_free_in_slab, heap_slab_for,
}
use dionys_os.Slab.Layout.{Clear, HasFree, Chain-cleared, Chain-update}

-- An entry that lies in the slab and meets no free entry.
pub record Fits (s : Slab) (a : ℕ) (xs : List ℕ) : Type 0 where
  pub given : a ≢ null
  pub low : s.start_address ≤ a
  pub high : a + s.entry_size ≤ s.end_address
  pub clear : Clear s.entry_size a xs

-- On a well-formed slab with the free entries a and xs, allocation returns a and leaves a
-- well-formed slab with the free entries xs; a lies in the slab and meets none of them, its words
-- are zeroed and no other word changes.
pub heap_allocate_from_slab-cons :
    (fresh slab : ℕ) (s : Slab) (m : Words) (a : ℕ) (xs : List ℕ)
    → HasFree m s (a ∷ xs)
    → (s' : Slab) × (m' : Words) × (heap_allocate_from_slab fresh slab s m ≡ (a, s', m'))
      × HasFree m' s' xs
      × Fits s' a xs
      × ((b : ℕ) → m' b ≡ (if leb a b then (if ltb b (a + s.entry_size) then 0 else m b) else m b))
unfolding heap_allocate_from_slab
heap_allocate_from_slab-cons fresh slab s m a xs is = (
  record s { first_free = m a },
  cleared a s.entry_size m,
  ground (arith, is.chain.0, is.chain.1),
  record {
    chain = Chain-cleared m a s.entry_size (m a) xs is.size is.spread.0 is.chain.2;
    spread = is.spread.1;
    inside = is.inside.1;
    size = is.size;
  },
  record { given = is.chain.1; low = is.inside.0.0; high = is.inside.0.1; clear = is.spread.0 },
  λ b. ground arith,
)

-- Giving an entry back.
pub heap_free_in_slab-cons :
    (s : Slab) (m : Words) (a : ℕ) (xs : List ℕ)
    → HasFree m s xs
    → Fits s a xs
    → (s' : Slab) × (heap_free_in_slab (some s) a m ≡ (some s', update m a s.first_free))
      × HasFree (update m a s.first_free) s' (a ∷ xs)
unfolding heap_free_in_slab
heap_free_in_slab-cons s m a xs is fits = (
  record s { first_free = a },
  ground (arith, fits.given, fits.low, fits.high),
  record {
    chain = (
      refl,
      fits.given,
      ground (
        arith,
        Chain-update m a s.first_free s.entry_size s.first_free xs is.size fits.clear is.chain,
      ),
    );
    spread = (fits.clear, is.spread);
    inside = ((fits.low, fits.high), is.inside);
    size = is.size;
  },
)

-- `heap_slab_for` from index `i` on.
heap_slab_for-first :
    (count i : ℕ) (slabs : ℕ → Slab) (size : ℕ) {j : ℕ}
    → heap_slab_for count i slabs size ≡ some j
    → (size ≤ (slabs j).entry_size)
      × (i ≤ j)
      × (j < i + count)
      × ((k : ℕ) → i ≤ k → k < j → (slabs k).entry_size < size)
unfolding heap_slab_for
heap_slab_for-first zero i slabs size h = cc h
heap_slab_for-first (suc count) i slabs size {j} h =
    elim (Bool-cases (leb size (slabs i).entry_size)) [
      | inl fits ↦
          let same : i ≡ j = ground (arith, h, fits) in
          (
            ground (arith, same, fits),
            omega (arith, same),
            omega (arith, same),
            λ k l u. absurd (omega (arith, same, l, u)),
          )
      | inr small ↦
          let r = heap_slab_for-first count (i + 1) slabs size (ground (arith, h, small)) in
          (
            r.0,
            omega (arith, r.1),
            omega (arith, r.2),
            λ k l u. elim (le_cases i k l) [
              | inl e ↦ ground (arith, e, small)
              | inr m ↦ r.3 k (omega (arith, m)) u
            ],
          )
    ]
