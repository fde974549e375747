-- ===== src/Prelude/Words.antt =====
-- Setting one bit of a word.
use Prim.Native.Nat.{
  ℕ, zero, suc, ◌+◌, ◌*◌, ◌/◌, ◌%◌, ◌^◌, ◌≤◌, ◌<◌, max, bit_or, digits, bit_or-bitwise,
}
use mathlib.Core.Option.{Option, none, some}
use mathlib.Core.Path.{◌≡◌, refl, ap, sym, ◌∙◌}
use mathlib.Core.Logic.{inl, inr, ◌≢◌}
use native.Mathlib.Omega.{arith}
use native.Mathlib.Nat.{pow-succ', div-div-eq-div-mul}
use dionys_os.Prelude.Tests.{Bool-cases, ==→eq, ◌==◌, if◌then◌else◌}

abbrev or_digits : ℕ → ℕ → ℕ → ℕ
or_digits n a b = digits (λ c. c) max n a b

or_digits_fuel : (n m a b : ℕ) → a ≤ n → a ≤ m → or_digits n a b ≡ or_digits m a b
or_digits_fuel zero zero a b p q = refl
or_digits_fuel zero (suc m) zero b p q = refl
or_digits_fuel zero (suc m) (suc a) b p q = absurd (omega arith)
or_digits_fuel (suc n) zero zero b p q = refl
or_digits_fuel (suc n) zero (suc a) b p q = absurd (omega arith)
or_digits_fuel (suc n) (suc m) zero b p q = refl
or_digits_fuel (suc n) (suc m) (suc a) b p q =
    omega (arith, or_digits_fuel n m (suc a / 2) (b / 2) (omega arith) (omega arith))

zero-bit_or : (b : ℕ) → bit_or 0 b ≡ b
zero-bit_or b = bit_or-bitwise 0 b

-- The lowest digit apart.
bit_or_step : (a b : ℕ) → bit_or a b ≡ bit_or (a / 2) (b / 2) * 2 + max (a % 2) (b % 2)
bit_or_step zero b = omega (arith, zero-bit_or b, zero-bit_or (b / 2))
bit_or_step (suc a) b = omega (
  arith,
  bit_or-bitwise (suc a) b,
  bit_or-bitwise (suc a / 2) (b / 2),
  or_digits_fuel a (suc a / 2) (suc a / 2) (b / 2) (omega arith) (omega arith),
)

bit_or-zero_fuel : (n a : ℕ) → a ≤ n → bit_or a 0 ≡ a
bit_or-zero_fuel n zero h = refl
bit_or-zero_fuel zero (suc a) h = absurd (omega arith)
bit_or-zero_fuel (suc n) (suc a) h =
    omega (arith, bit_or_step (suc a) 0, bit_or-zero_fuel n (suc a / 2) (omega arith))

pub bit_or-zero : (a : ℕ) → bit_or a 0 ≡ a
bit_or-zero a = bit_or-zero_fuel a a (omega arith)

-- Bit `i` of a word.
abbrev pub word_bit : (word i : ℕ) → ℕ
word_bit word i = (word / 2 ^ i) % 2

word_bit-suc : (word i : ℕ) → word_bit word (suc i) ≡ word_bit (word / 2) i
word_bit-suc word i = rw (pow-succ' 2 i, ← div-div-eq-div-mul word 2 (2 ^ i)) refl

or_one : (word : ℕ) → (bit_or word 1 / 2 ≡ word / 2) × (bit_or word 1 % 2 ≡ 1)
or_one word =
    (omega (arith, bit_or_step word 1, bit_or-zero (word / 2)), omega (arith, bit_or_step word 1))

or_more :
    (word i : ℕ)
    → (bit_or word (2 ^ suc i) / 2 ≡ bit_or (word / 2) (2 ^ i))
      × (bit_or word (2 ^ suc i) % 2 ≡ word % 2)
or_more word i =
    let half : 2 ^ suc i / 2 ≡ 2 ^ i = omega (arith, pow-succ' 2 i) in
    let even : 2 ^ suc i % 2 ≡ 0 = omega (arith, pow-succ' 2 i) in
    let step : bit_or word (2 ^ suc i) ≡ bit_or (word / 2) (2 ^ i) * 2 + max (word % 2) 0 =
      bit_or_step word (2 ^ suc i) ∙ rw (half, even) refl in
    (omega arith, omega arith)

-- Setting bit `i` sets it and leaves the others.
pub word_bit-bit_or :
    (word i j : ℕ) → word_bit (bit_or word (2 ^ i)) j ≡ (if i == j then 1 else word_bit word j)
word_bit-bit_or word zero zero = omega (arith, or_one word)
word_bit-bit_or word zero (suc j) =
    word_bit-suc (bit_or word 1) j
    ∙ ap (λ w. word_bit w j) (or_one word).0
    ∙ sym (word_bit-suc word j)
    ∙ ground arith
word_bit-bit_or word (suc i) zero = ground (arith, (or_more word i).1)
word_bit-bit_or word (suc i) (suc j) =
    word_bit-suc (bit_or word (2 ^ suc i)) j
    ∙ ap (λ w. word_bit w j) (or_more word i).0
    ∙ word_bit-bit_or (word / 2) i j
    ∙ ground (arith, word_bit-suc word j)

-- The first clear bit from `i` on, with `left` bits to look at.
unfoldable pub first_clear : (left i bitmap : ℕ) → Option ℕ
first_clear zero i bitmap = none
first_clear (suc left) i bitmap =
    let rest = first_clear left (i + 1) bitmap in if word_bit bitmap i == 0 then some i else rest

-- What a scan of the bits from `i` on, `left` of them, gives.
abbrev pub Scanned : (left i bitmap : ℕ) → Option ℕ → Type 0
Scanned left i bitmap none = (j : ℕ) → i ≤ j → j < i + left → word_bit bitmap j ≢ 0
Scanned left i bitmap (some n) =
    (i ≤ n)
    × (n < i + left)
    × (word_bit bitmap n ≡ 0)
    × ((j : ℕ) → i ≤ j → j < n → word_bit bitmap j ≢ 0)

Scanned-next :
    (left i bitmap : ℕ) (r : Option ℕ)
    → word_bit bitmap i ≢ 0
    → Scanned left (i + 1) bitmap r
    → Scanned (suc left) i bitmap r
Scanned-next left i bitmap none hit h = λ j low high. elim (Bool-cases (i == j)) [
  | inl e ↦ λ z. ground (arith, hit, z, e)
  | inr ne ↦ h j (ground (arith, ne)) (omega arith)
]
Scanned-next left i bitmap (some n) hit h = (
  omega arith,
  omega arith,
  h.2,
  λ j low high. elim (Bool-cases (i == j)) [
    | inl e ↦ λ z. ground (arith, hit, z, e)
    | inr ne ↦ h.3 j (ground (arith, ne)) high
  ],
)

pub first_clear-Scanned : (left i bitmap : ℕ) → Scanned left i bitmap (first_clear left i bitmap)
unfolding first_clear
first_clear-Scanned zero i bitmap = λ j low high. absurd (omega arith)
first_clear-Scanned (suc left) i bitmap = elim (Bool-cases (word_bit bitmap i == 0)) [
  | inl e ↦ rw e (omega arith, omega arith, ==→eq _ _ e, λ j low high. absurd (omega arith))
  | inr ne ↦ rw ne (
      Scanned-next left i bitmap (first_clear left (i + 1) bitmap) (ground (arith, ne))
        (first_clear-Scanned left (i + 1) bitmap))
]
