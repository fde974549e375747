-- ===== src/Pmm/Rounding.antt =====
-- The rounding of a number of pages, and the orders that an allocation reaches.
use dionys_os.Prelude.{
  ℕ, ◌+◌, ◌-◌, ◌*◌, ◌^◌, ◌≤◌, ◌<◌, ◌≡◌, Bool, true, ltb, leb, ◌==◌, ◌&&◌, if◌then◌else◌, arith,
  refl, panic, tabulated, tabulated-entry, subst, Cmd, ==→eq, ltb→lt, le→ltb_false, zero, suc,
}
use dionys_os.Pmm.{State, max_order, is_power_of_two, next_power_of_two}
use dionys_os.Pmm.Allocation.{alloc_loop, buddy_alloc, phys_alloc}

abbrev pub rounded : ℕ → ℕ
unfolding is_power_of_two next_power_of_two
rounded pages = if is_power_of_two pages then pages else next_power_of_two pages

-- The least order of at least so many pages, of the orders from `i` on.
unfoldable pub least_order : (left i pages : ℕ) → ℕ
least_order zero i pages = i
least_order (suc left) i pages =
    let rest = least_order left (i + 1) pages in if leb pages (2 ^ i) then i else rest

abbrev order_of : ℕ → ℕ
order_of pages = least_order max_order 0 pages

abbrev is_rounded : ℕ → Bool
unfolding next_power_of_two
is_rounded pages =
    (next_power_of_two pages == 2 ^ order_of pages)
    && leb (order_of pages) max_order
    && leb pages (2 ^ order_of pages)
    && ltb (2 ^ order_of pages) (2 * pages)

rounded_table : tabulated 1024 (λ i. is_rounded (i + 1)) ≡ true
unfolding tabulated is_rounded next_power_of_two least_order
rounded_table = refl

all_four :
    (a b c d : Bool) → (a && b && c && d) ≡ true → (a ≡ true) × (b ≡ true) × (c ≡ true) × (d ≡ true)
all_four a b c d h = ground (arith, h)

leb→le : (a b : ℕ) → leb a b ≡ true → a ≤ b
leb→le a b h = ground (arith, h)

-- For a number of pages from 1 to 1024, next_power_of_two returns a power of two with an exponent
-- of at most 10, which is at least the number and below its double.
pub next_power_of_two-least :
    (pages : ℕ)
    → 1 ≤ pages
    → pages ≤ 1024
    → (k : ℕ) × (next_power_of_two pages ≡ 2 ^ k) × (k ≤ 10) × (pages ≤ 2 ^ k) × (2 ^ k < 2 * pages)
unfolding next_power_of_two is_rounded
next_power_of_two-least pages some few =
    let entry : is_rounded pages ≡ true =
      subst (λ n. is_rounded n ≡ true) (omega (arith, some))
        (tabulated-entry 1024 (λ i. is_rounded (i + 1)) (pages - 1) rounded_table
          (omega (arith, some, few))) in
    let tests =
      all_four (next_power_of_two pages == 2 ^ order_of pages) (leb (order_of pages) max_order)
        (leb pages (2 ^ order_of pages)) (ltb (2 ^ order_of pages) (2 * pages)) entry in
    (
      order_of pages,
      ==→eq (next_power_of_two pages) (2 ^ order_of pages) tests.0,
      leb→le (order_of pages) max_order tests.1,
      leb→le pages (2 ^ order_of pages) tests.2,
      ltb→lt (2 ^ order_of pages) (2 * pages) tests.3,
    )

top_table : tabulated 512 (λ i. rounded (i + 513) == 1024) ≡ true
unfolding tabulated rounded is_power_of_two next_power_of_two
top_table = refl

-- For every state, an allocation of more than 512 and at most 1024 pages panics.
phys_alloc-top_order :
    (pool_node : ℕ → ℕ) (heap_node heap_block rounds fuel pages zone : ℕ)
    (large : ℕ → ℕ → Cmd State ℕ) (s : State)
    → 512 < pages
    → pages ≤ 1024
    → phys_alloc pool_node heap_node heap_block rounds large fuel pages zone s ≡ panic
unfolding phys_alloc buddy_alloc alloc_loop
phys_alloc-top_order pool_node heap_node heap_block rounds fuel pages zone large s many few =
    let top : rounded pages ≡ 1024 =
      subst (λ n. rounded n ≡ 1024) {x = pages - 513 + 513} {y = pages} (omega (arith, many))
        (==→eq (rounded (pages - 513 + 513)) 1024 (
          tabulated-entry 512 (λ i. rounded (i + 513) == 1024) (pages - 513) top_table
            (omega (arith, many, few)))) in
    rw (le→ltb_false 1024 pages few, top) refl
