-- ===== src/Tmpfs/Numbers.antt =====
-- Which number a new node gets.
use dionys_os.Prelude.{
  ℕ, zero, suc, ◌+◌, ◌*◌, ◌%◌, ◌^◌, ◌≤◌, ◌<◌, ◌≡◌, ◌≢◌, ◌⊎◌, ◌==◌, ◌&&◌, if◌then◌else◌, inl, inr,
  Bool, true, false, Option, some, none, ok, panic, arith, refl, bit_or, word_bit, first_clear,
  Scanned, first_clear-Scanned, Bool-cases, ==→eq, update, tabulated, tabulated-entry, le_cases,
  subst, eq→==,
}
use dionys_os.Tmpfs.{Tmpfs}
use dionys_os.Tmpfs.Nodes.{bitmap_loop, mark_number, tmpfs_node_bitmap_get}

full_byte : ℕ → Bool
full_byte b =
    if (word_bit b 0 == 1)
      && (word_bit b 1 == 1)
      && (word_bit b 2 == 1)
      && (word_bit b 3 == 1)
      && (word_bit b 4 == 1)
      && (word_bit b 5 == 1)
      && (word_bit b 6 == 1)
      && (word_bit b 7 == 1)
    then b == 255
    else true

full_table : tabulated 256 full_byte ≡ true
unfolding tabulated full_byte
full_table = refl

bit_one : (b j : ℕ) → word_bit b j ≢ 0 → (word_bit b j == 1) ≡ true
bit_one b j h = ground (arith, h)

-- A byte without a clear bit is 255.
all_set : (b : ℕ) → b < 256 → ((j : ℕ) → 0 ≤ j → j < 0 + 8 → word_bit b j ≢ 0) → b ≡ 255
unfolding full_byte
all_set b l h =
    let entry : full_byte b ≡ true = tabulated-entry 256 full_byte b full_table l in
    ==→eq b 255 (
      rw
        (
          bit_one b 0 (h 0 (omega arith) (omega arith)),
          bit_one b 1 (h 1 (omega arith) (omega arith)),
          bit_one b 2 (h 2 (omega arith) (omega arith)),
          bit_one b 3 (h 3 (omega arith) (omega arith)),
          bit_one b 4 (h 4 (omega arith) (omega arith)),
          bit_one b 5 (h 5 (omega arith) (omega arith)),
          bit_one b 6 (h 6 (omega arith) (omega arith)),
          bit_one b 7 (h 7 (omega arith) (omega arith)),
        )
        at entry)

-- The state with bit `j` of byte `i` set.
abbrev pub marked : Tmpfs → (i j : ℕ) → Tmpfs
marked s i j = record s {
  tmpfs_node_number_bitmap =
      update s.tmpfs_node_number_bitmap i (bit_or (s.tmpfs_node_number_bitmap i) (2 ^ j) % 256);
}

module _ (s : Tmpfs) (bytes : (i : ℕ) → s.tmpfs_node_number_bitmap i < 256) where
  -- From byte `i` on, the first clear bit is taken, or there is none.
  abbrev Takes : (left i : ℕ) → Type 0
  Takes left i =
      ((b : ℕ) × (i ≤ b)
        × (b < i + left)
        × ((k : ℕ) → i ≤ k → k < b → s.tmpfs_node_number_bitmap k ≡ 255)
        × (j : ℕ) × (j < 8)
        × (word_bit (s.tmpfs_node_number_bitmap b) j ≡ 0)
        × ((k : ℕ) → k < j → word_bit (s.tmpfs_node_number_bitmap b) k ≢ 0)
        × (bitmap_loop left i s ≡ ok (b * 8 + j) (marked s b j)))
      ⊎ (((k : ℕ) → i ≤ k → k < i + left → s.tmpfs_node_number_bitmap k ≡ 255)
          × (bitmap_loop left i s ≡ panic))

  full_then :
      (left i : ℕ) → s.tmpfs_node_number_bitmap i ≡ 255 → Takes left (i + 1) → Takes (suc left) i
  unfolding bitmap_loop
  full_then left i e (inl h) = inl (
    h.0,
    omega (arith, h.1),
    omega (arith, h.2),
    (λ k a c. elim (le_cases i k a) [
      | inl z ↦ subst (λ x. s.tmpfs_node_number_bitmap x ≡ 255) z e
      | inr more ↦ h.3 k (omega arith) c
    ]),
    h.4,
    h.5,
    h.6,
    h.7,
    rw (eq→== (s.tmpfs_node_number_bitmap i) 255 e) h.8,
  )
  full_then left i e (inr h) = inr (
    (λ k a c. elim (le_cases i k a) [
      | inl z ↦ subst (λ x. s.tmpfs_node_number_bitmap x ≡ 255) z e
      | inr more ↦ h.0 k (omega arith) (omega arith)
    ]),
    rw (eq→== (s.tmpfs_node_number_bitmap i) 255 e) h.1,
  )

  free_then :
      (left i : ℕ) (r : Option ℕ)
      → (s.tmpfs_node_number_bitmap i == 255) ≡ false
      → first_clear 8 0 (s.tmpfs_node_number_bitmap i) ≡ r
      → Scanned 8 0 (s.tmpfs_node_number_bitmap i) r
      → Takes (suc left) i
  unfolding bitmap_loop mark_number
  free_then left i none miss e h =
      absurd (ground (arith, miss, all_set (s.tmpfs_node_number_bitmap i) (bytes i) h))
  free_then left i (some j) miss e h = inl (
    i,
    omega arith,
    omega arith,
    (λ k a c. absurd (omega arith)),
    j,
    omega (arith, h.1),
    h.2,
    (λ k a. h.3 k (omega arith) a),
    rw (miss, e) refl,
  )

  bitmap_loop-Takes : (left i : ℕ) → Takes left i
  unfolding bitmap_loop
  bitmap_loop-Takes zero i = inr ((λ k a c. absurd (omega arith)), refl)
  bitmap_loop-Takes (suc left) i = elim (Bool-cases (s.tmpfs_node_number_bitmap i == 255)) [
    | inl full ↦
        full_then left i (==→eq (s.tmpfs_node_number_bitmap i) 255 full)
          (bitmap_loop-Takes left (i + 1))
    | inr miss ↦
        free_then left i (first_clear 8 0 (s.tmpfs_node_number_bitmap i)) miss refl
          (first_clear-Scanned 8 0 (s.tmpfs_node_number_bitmap i))
  ]

  -- The number of the first clear bit is given out, and the bit is set.
  abbrev pub FirstNumber : Type 0
  FirstNumber =
      (b : ℕ) × (j : ℕ) × (b < 4096)
      × (j < 8)
      × ((k : ℕ) → k < b → s.tmpfs_node_number_bitmap k ≡ 255)
      × (word_bit (s.tmpfs_node_number_bitmap b) j ≡ 0)
      × ((k : ℕ) → k < j → word_bit (s.tmpfs_node_number_bitmap b) k ≢ 0)
      × (tmpfs_node_bitmap_get s ≡ ok (b * 8 + j) (marked s b j))

  -- For a bitmap of bytes, either some of the first 4096 bytes is not 255, and the call returns
  -- the number b * 8 + j of the first clear bit, bit j of byte b, and sets it, the bytes before b
  -- being 255 and the bits of b below j set; or all of them are 255, and the call panics.
  pub tmpfs_node_bitmap_get-FirstNumber :
      FirstNumber
      ⊎ (((k : ℕ) → k < 4096 → s.tmpfs_node_number_bitmap k ≡ 255)
          × (tmpfs_node_bitmap_get s ≡ panic))
  unfolding tmpfs_node_bitmap_get
  tmpfs_node_bitmap_get-FirstNumber = elim (bitmap_loop-Takes 4096 0) [
    | inl h ↦ inl (h.0, h.4, omega (arith, h.2), h.5, (λ k l. h.3 k (omega arith) l), h.6, h.7, h.8)
    | inr h ↦ inr ((λ k l. h.0 k (omega arith) (omega arith)), h.1)
  ]
