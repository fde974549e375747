-- ===== src/Diosfs/Bitmap/Bytes.antt =====
-- The bits of a signed byte: the search for a clear bit, and setting and clearing one.
use dionys_os.Prelude.{
  ℕ, ◌<◌, ◌≡◌, Bool, true, false, ◌&&◌, ◌||◌, not, Option, none, some, ltb, ◌==◌, if◌then◌else◌,
  arith, tabulated, tabulated-entry, tabulated-filled, refl, eq→==, ==→eq, ltb→lt,
}
use dionys_os.Diosfs.Bitmap.{bit_of, promote, find_clear_bit, set_bit, clear_bit}

is_bit : Option ℕ → ℕ → Bool
is_bit none i = false
is_bit (some j) i = j == i

is_none : Option ℕ → Bool
is_none none = true
is_none (some j) = false

-- Bits 0 to i - 1 are set.
full_below : ℕ → ℕ → Bool
full_below b i = tabulated i (λ j. bit_of b j == 1)

first_clear : ℕ → ℕ → Bool
unfolding full_below is_bit find_clear_bit tabulated
first_clear b i = not (bit_of b i == 0) || not (full_below b i) || is_bit (find_clear_bit 9 0 b) i

first_clear_table : tabulated 256 (λ b. tabulated 8 (first_clear b)) ≡ true
unfolding first_clear
first_clear_table = refl

is_bit→some : (o : Option ℕ) (i : ℕ) → is_bit o i ≡ true → o ≡ some i
unfolding is_bit
is_bit→some o i h = ground arith

-- The search finds the lowest clear bit.
pub find_clear_bit-some :
    (b i : ℕ)
    → b < 256
    → i < 8
    → bit_of b i ≡ 0
    → ((j : ℕ) → j < i → bit_of b j ≡ 1)
    → find_clear_bit 9 0 b ≡ some i
unfolding first_clear
find_clear_bit-some b i hb hi clear below = is_bit→some (find_clear_bit 9 0 b) i (
    ground (
      arith,
      tabulated-entry 8 (first_clear b) i
          (tabulated-entry 256 (λ b. tabulated 8 (first_clear b)) b first_clear_table hb) hi,
      eq→== (bit_of b i) 0 clear,
      tabulated-filled i (λ j. bit_of b j == 1) (λ j l. eq→== _ _ (below j l)),
    ))

full_none : ℕ → Bool
unfolding full_below is_none find_clear_bit tabulated
full_none b = not (full_below b 8) || is_none (find_clear_bit 9 0 b)

full_none_table : tabulated 256 full_none ≡ true
unfolding full_none
full_none_table = refl

is_none→none : (o : Option ℕ) → is_none o ≡ true → o ≡ none
unfolding is_none
is_none→none o h = ground arith

-- In a full byte the search finds nothing, although it looks at a ninth bit: the sign has been
-- extended into that one.
pub find_clear_bit-none :
    (b : ℕ) → b < 256 → ((j : ℕ) → j < 8 → bit_of b j ≡ 1) → find_clear_bit 9 0 b ≡ none
unfolding full_none
find_clear_bit-none b hb full = is_none→none (find_clear_bit 9 0 b) (
    ground (
      arith,
      tabulated-entry 256 full_none b full_none_table hb,
      tabulated-filled 8 (λ j. bit_of b j == 1) (λ j l. eq→== _ _ (full j l)),
    ))

-- The test against 0xFF never holds: no promoted `char` has that value.
pub promote-ne_ff : (b : ℕ) → b < 256 → (promote b == 0xFF) ≡ false
promote-ne_ff b h = ground arith

bit_eq : ℕ → ℕ → ℕ → ℕ → Bool
bit_eq c b i j = bit_of c j == bit_of b j

set_ok : ℕ → ℕ → Bool
unfolding tabulated set_bit
set_ok b i =
    ltb (set_bit b i) 256
    && tabulated 8 (λ j. bit_of (set_bit b i) j == (if j == i then 1 else bit_of b j))

set_table : tabulated 256 (λ b. tabulated 8 (set_ok b)) ≡ true
unfolding set_ok
set_table = refl

clear_ok : ℕ → ℕ → Bool
unfolding tabulated clear_bit
clear_ok b i =
    ltb (clear_bit b i) 256
    && tabulated 8 (λ j. bit_of (clear_bit b i) j == (if j == i then 0 else bit_of b j))

clear_table : tabulated 256 (λ b. tabulated 8 (clear_ok b)) ≡ true
unfolding clear_ok
clear_table = refl

both : (p q : Bool) → (p && q) ≡ true → (p ≡ true) × (q ≡ true)
both p q h = ground arith

module _ (b i : ℕ) (hb : b < 256) (hi : i < 8) where
  set_ok-true : set_ok b i ≡ true
  set_ok-true =
      tabulated-entry 8 (set_ok b) i
        (tabulated-entry 256 (λ b. tabulated 8 (set_ok b)) b set_table hb) hi

  clear_ok-true : clear_ok b i ≡ true
  clear_ok-true =
      tabulated-entry 8 (clear_ok b) i
        (tabulated-entry 256 (λ b. tabulated 8 (clear_ok b)) b clear_table hb) hi

  pub set_bit-lt : set_bit b i < 256
  unfolding set_ok
  set_bit-lt = ltb→lt _ _ (both _ _ set_ok-true).0

  pub clear_bit-lt : clear_bit b i < 256
  unfolding clear_ok
  clear_bit-lt = ltb→lt _ _ (both _ _ clear_ok-true).0

  -- Setting a bit changes that one only.
  pub bit_of-set_bit : (j : ℕ) → j < 8 → bit_of (set_bit b i) j ≡ (if j == i then 1 else bit_of b j)
  unfolding set_ok
  bit_of-set_bit j hj = ==→eq _ _ (
      tabulated-entry 8 (λ x. bit_of (set_bit b i) x == (if x == i then 1 else bit_of b x)) j
        (both (ltb (set_bit b i) 256) _ set_ok-true).1 hj)

  -- Clearing a bit changes that one only.
  pub bit_of-clear_bit :
      (j : ℕ) → j < 8 → bit_of (clear_bit b i) j ≡ (if j == i then 0 else bit_of b j)
  unfolding clear_ok
  bit_of-clear_bit j hj = ==→eq _ _ (
      tabulated-entry 8 (λ x. bit_of (clear_bit b i) x == (if x == i then 0 else bit_of b x)) j
        (both (ltb (clear_bit b i) 256) _ clear_ok-true).1 hj)

full_ff : ℕ → Bool
unfolding full_below tabulated
full_ff b = not (full_below b 8) || (b == 255)

full_ff_table : tabulated 256 full_ff ≡ true
unfolding full_ff
full_ff_table = refl

-- A byte whose bits are all set is 0xFF.
pub eq_ff : (b : ℕ) → b < 256 → ((j : ℕ) → j < 8 → bit_of b j ≡ 1) → b ≡ 255
unfolding full_ff
eq_ff b hb full = ground (
  arith,
  tabulated-entry 256 full_ff b full_ff_table hb,
  tabulated-filled 8 (λ j. bit_of b j == 1) (λ j l. eq→== _ _ (full j l)),
)

ff_set : ℕ → Bool
unfolding set_bit
ff_set i = set_bit 255 i == 255

ff_set_table : tabulated 8 ff_set ≡ true
unfolding ff_set tabulated
ff_set_table = refl

pub set_bit-ff : (i : ℕ) → i < 8 → set_bit 255 i ≡ 255
unfolding ff_set
set_bit-ff i h = ==→eq _ _ (tabulated-entry 8 ff_set i ff_set_table h)

undo : ℕ → ℕ → Bool
unfolding set_bit clear_bit
undo b i = not (bit_of b i == 0) || (clear_bit (set_bit b i) i == b)

undo_table : tabulated 256 (λ b. tabulated 8 (undo b)) ≡ true
unfolding undo tabulated
undo_table = refl

-- Clearing a bit that was set gives the byte back.
pub clear_bit-set_bit : (b i : ℕ) → b < 256 → i < 8 → bit_of b i ≡ 0 → clear_bit (set_bit b i) i ≡ b
unfolding undo
clear_bit-set_bit b i hb hi e = ==→eq _ _ (
    ground (
      arith,
      tabulated-entry 8 (undo b) i (tabulated-entry 256 (λ b. tabulated 8 (undo b)) b undo_table hb)
          hi,
      eq→== (bit_of b i) 0 e,
    ))
