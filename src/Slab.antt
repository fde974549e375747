-- ===== src/Slab.antt =====
-- kernel/src/memory/slab.c: slabs of entries of one size, with their free entries linked through
-- their first words. Memory is words by address. `fresh` is the virtual address of the pages that
-- `phys_alloc` returns, which panics without any.
pub mod Layout
pub mod Linking
pub mod Operations
use dionys_os.Prelude.{
  ℕ, zero, suc, ◌+◌, ◌*◌, ◌-◌, ◌/◌, Bool, ◌||◌, ltb, leb, ◌==◌, if◌then◌else◌, Option, none, some,
  update,
}

abbrev pub Words : Type 0
Words = ℕ → ℕ

abbrev pub null : ℕ
null = 0

abbrev pub page_size : ℕ
page_size = 4096

-- `DEFAULT_SLAB_SIZE_PAGES`
abbrev pub default_slab_size_pages : ℕ
default_slab_size_pages = 32

-- `struct slab`
pub record Slab : Type 0 where
  pub first_free : ℕ
  pub entry_size : ℕ
  pub start_address : ℕ
  pub end_address : ℕ

-- The loop that links the entries: `array[i * factor] = &array[(i + 1) * factor]`.
unfoldable pub link_entries : (left array factor i : ℕ) → Words → Words
link_entries zero array factor i m = m
link_entries (suc left) array factor i m =
    link_entries left array factor (i + 1)
      (update m (array + 8 * (i * factor)) (array + 8 * ((i + 1) * factor)))

-- The header of a slab takes the room of one or more entries.
abbrev pub header_offset : ℕ → ℕ
header_offset entry_size = (8 + entry_size) / entry_size * entry_size

-- The number of links of a new slab.
abbrev pub link_count : (entry_size pages : ℕ) → ℕ
link_count entry_size pages = (pages * page_size - header_offset entry_size) / entry_size - 1

-- `slab` is the address of the structure, which the header of the slab holds.
unfoldable pub heap_create_slab : (fresh slab entry_size pages : ℕ) → Words → Slab × Words
heap_create_slab fresh slab entry_size pages m =
    let first = fresh + header_offset entry_size in
    let max = link_count entry_size pages in
    let factor = entry_size / 8 in
    (
      record {
        first_free = first;
        entry_size = entry_size;
        start_address = fresh;
        end_address = fresh + pages * page_size;
      },
      update (link_entries max first factor 0 (update m fresh slab)) (first + 8 * (max * factor))
          null,
    )

-- `memset(address, 0, size)`
abbrev pub cleared : (address size : ℕ) → Words → Words
cleared address size m a = if ltb a address then m a else if ltb a (address + size) then 0 else m a

-- Taking the first free entry.
abbrev pub pop_entry : Slab → Words → ℕ × Slab × Words
pop_entry s m =
    (s.first_free, record s { first_free = m s.first_free }, cleared s.first_free s.entry_size m)

unfoldable pub heap_allocate_from_slab : (fresh slab : ℕ) → Slab → Words → ℕ × Slab × Words
unfolding heap_create_slab
heap_allocate_from_slab fresh slab s m =
    if s.first_free == null
    then (let (s', m') = heap_create_slab fresh slab s.entry_size default_slab_size_pages m in
        pop_entry s' m')
    else pop_entry s m

-- `none` is the null slab. An address at the end of the slab passes the test.
unfoldable pub heap_free_in_slab : Option Slab → (address : ℕ) → Words → Option Slab × Words
heap_free_in_slab none address m = (none, m)
heap_free_in_slab (some s) address m =
    if address == null
    then (some s, m)
    else if ltb s.end_address address || ltb address s.start_address
    then (some s, m)
    else (some (record s { first_free = address }), update m address s.first_free)

-- `heap_slab_for`: the first of `count` slabs from `i` on whose entries are large enough, by index.
unfoldable pub heap_slab_for : (count i : ℕ) (slabs : ℕ → Slab) (size : ℕ) → Option ℕ
heap_slab_for zero i slabs size = none
heap_slab_for (suc count) i slabs size =
    let rest = heap_slab_for count (i + 1) slabs size in
    if leb size (slabs i).entry_size then some i else rest
