-- ===== src/Examples/Heaps.antt =====
-- Slabs of the kernel heap in concrete memories.
use dionys_os.Prelude.{
  ℕ, ◌+◌, ◌*◌, ◌≤◌, ◌<◌, ◌≡◌, ◌==◌, if◌then◌else◌, arith, refl, ok, some, [], ◌∷◌, inl, pure, Cmd,
  ◌-◌, ◌%◌,
}
use dionys_os.Slab.{Words, Slab, heap_slab_for}
use dionys_os.Slab.Layout.{HasFree}
use dionys_os.Slab.Linking.{created, entries, heap_create_slab-HasFree}
use dionys_os.Heap.{Heap, slab_index, kalloc, kfree}
use dionys_os.Heap.Kalloc.{kfree-kalloc}

-- The slab of entries of 8 bytes at 131072, whose header names the structure at 64; two are free.
abbrev slab : Slab
slab = record { first_free = 131088; entry_size = 8; start_address = 131072; end_address = 262144 }

abbrev words : Words
words a = if a == 131072 then 64 else if a == 131088 then 131096 else 0

slab-HasFree : HasFree words slab (131088 ∷ 131096 ∷ [])
slab-HasFree = record {
  chain = (refl, (λ e. omega (arith, e)), (refl, (λ e. omega (arith, e)), refl));
  spread = ((inl (omega arith), tt), (tt, tt));
  inside = ((omega arith, omega arith), ((omega arith, omega arith), tt));
  size = omega arith;
}

abbrev slab_at : ℕ → ℕ
slab_at i = 64 + 32 * i

abbrev heap : Heap (Unit {0})
heap = record { slabs = λ i. slab; words = words; pages = tt }

abbrev no_pages : ℕ → Cmd (Unit {0}) ℕ
no_pages count = pure 0

abbrev no_release : ℕ → Cmd (Unit {0}) (Unit {0})
no_release a = pure tt

abbrev same_address : ℕ → ℕ
same_address a = a

found : heap_slab_for 10 0 heap.slabs 8 ≡ some 0
unfolding heap_slab_for
found = refl

index : slab_index slab_at 10 0 64 ≡ some 0
unfolding slab_index
index = refl

kfree-kalloc_example :
    (g : Heap (Unit {0})) × (g' : Heap (Unit {0})) × (kalloc slab_at no_pages no_release
        same_address same_address 8 heap
      ≡ ok 131088 g)
    × HasFree g.words (g.slabs 0) (131096 ∷ [])
    × ((b : ℕ) → 131088 ≤ b → b < 131088 + 8 → g.words b ≡ 0)
    × (kfree slab_at no_pages no_release same_address same_address 131088 g ≡ ok tt g')
    × HasFree g'.words (g'.slabs 0) (131088 ∷ 131096 ∷ [])
kfree-kalloc_example =
    kfree-kalloc slab_at no_pages no_release same_address same_address heap 8 0 131088 (131096 ∷ [])
      (omega arith) found slab-HasFree (λ e. omega (arith, e)) refl index

abbrev new_slab : Slab × Words
new_slab = created 131072 64 1 32 words (omega arith) (omega arith)

heap_create_slab-HasFree_example :
    (start : ℕ) × (count : ℕ) × HasFree new_slab.1 new_slab.0 (entries count start 8)
    × (131072 + 8 ≤ start)
    × (start ≤ 131072 + 8 + 8)
    × ((start - 131072) % 8 ≡ 0)
    × (start + count * 8 ≤ 131072 + 32 * 4096)
    × (131072 + 32 * 4096 < start + count * 8 + 8)
    × (new_slab.1 131072 ≡ 64)
heap_create_slab-HasFree_example =
    heap_create_slab-HasFree 131072 64 1 32 words (omega arith) (omega arith) (omega arith)
      (omega arith)
