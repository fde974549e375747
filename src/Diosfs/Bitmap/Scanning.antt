-- ===== src/Diosfs/Bitmap/Scanning.antt =====
-- The scan of a bitmap for its first clear bit.
use dionys_os.Prelude.{
  ℕ, zero, suc, ◌+◌, ◌*◌, ◌/◌, ◌%◌, ◌<◌, ◌≤◌, ◌≡◌, Bool, true, false, none, some, ◌==◌, arith, sym,
  ◌∙◌, eq→==, le→ltb_false, lt→==_false, ==→eq, Bool-cases, inl, inr,
}
use dionys_os.Diosfs.Device.{Buffer}
use dionys_os.Diosfs.Bitmap.Bytes.{find_clear_bit-some, find_clear_bit-none, promote-ne_ff}
use dionys_os.Diosfs.Bitmap.{bit_of, promote, find_clear_bit, Scan, found, scan, carry}

lt_of_mul_lt : (a c s : ℕ) → a * s < c * s → a < c
lt_of_mul_lt a c s h = grind arith

-- The scan stopped at bit `i` of the byte at offset `t`.
pub record StopsAt (block_size t i : ℕ) (r : Scan) : Type 0 where
  pub block : ℕ
  pub byte : ℕ
  pub stop : r ≡ found block byte i
  pub offset : block * block_size + byte ≡ t
  pub within : byte < block_size

carry_end : (s b y : ℕ) → y ≡ s → carry s b y ≡ (b + 1, 0)
unfolding carry
carry_end s b y e = rw (eq→== y s e)

carry_within : (s b y : ℕ) → y < s → carry s b y ≡ (b, y)
unfolding carry
carry_within s b y l = rw (lt→==_false y s l)

module _ (again : Bool) (block_size limit fuel block byte : ℕ) (buffer : Buffer)
    (test : (promote (buffer (block * block_size + byte)) == 0xFF) ≡ false) where
  scan-found :
      (i : ℕ)
      → find_clear_bit 9 0 (buffer (block * block_size + byte)) ≡ some i
      → scan again block_size limit (suc fuel) block byte buffer ≡ found block byte i
  unfolding scan
  scan-found i hit = rw (scan, test, hit)

module _ (block_size limit fuel block byte : ℕ) (buffer : Buffer)
    (test : (promote (buffer (block * block_size + byte)) == 0xFF) ≡ false)
    (miss : find_clear_bit 9 0 (buffer (block * block_size + byte)) ≡ none) where
  scan-over :
      (again : Bool)
      → byte + 1 ≡ block_size
      → block + 1 ≤ limit
      → scan again block_size limit (suc fuel) block byte buffer
        ≡ scan again block_size limit fuel (block + 1) 0 buffer
  unfolding scan
  scan-over true end room = rw (
    scan,
    test,
    miss,
    carry_end block_size block (byte + 1) end,
    le→ltb_false limit (block + 1) room,
    carry_end block_size block (byte + 1) end,
    carry_within block_size (block + 1) 0 (omega arith),
  )
  scan-over false end room = rw (
    scan,
    test,
    miss,
    carry_end block_size block (byte + 1) end,
    le→ltb_false limit (block + 1) room,
    carry_end block_size block (byte + 1) end,
  )

  scan-under :
      (again : Bool)
      → byte + 1 < block_size
      → block ≤ limit
      → scan again block_size limit (suc fuel) block byte buffer
        ≡ scan again block_size limit fuel block (byte + 1) buffer
  unfolding scan
  scan-under true end room = rw (
    scan,
    test,
    miss,
    carry_within block_size block (byte + 1) end,
    le→ltb_false limit block room,
    carry_within block_size block (byte + 1) end,
    carry_within block_size block (byte + 1) end,
  )
  scan-under false end room = rw (
    scan,
    test,
    miss,
    carry_within block_size block (byte + 1) end,
    le→ltb_false limit block room,
    carry_within block_size block (byte + 1) end,
  )

-- From a position at or before `t`, with nothing clear in between, the scan stops at `t`.
module _ (again : Bool) (block_size limit t i : ℕ) (buffer : Buffer)
    (small : t < (limit + 1) * block_size)
    (bytes : (p : ℕ) → p ≤ t → (promote (buffer p) == 0xFF) ≡ false)
    (full : (p : ℕ) → p < t → find_clear_bit 9 0 (buffer p) ≡ none)
    (hit : find_clear_bit 9 0 (buffer t) ≡ some i) where
  pub scan-StopsAt :
      (fuel block byte : ℕ)
      → byte < block_size
      → block * block_size + byte ≤ t
      → t < block * block_size + byte + fuel
      → StopsAt block_size t i (scan again block_size limit fuel block byte buffer)
  scan-StopsAt zero block byte hb before enough = absurd (omega arith)
  scan-StopsAt (suc fuel) block byte hb before enough =
      elim (Bool-cases (block * block_size + byte == t)) [
        | inl e ↦ stop (==→eq _ _ e)
        | inr ne ↦ elim (Bool-cases (byte + 1 == block_size)) [
          | inl over ↦
              step_over (ground arith) (==→eq _ _ over)
                (λ a b. scan-StopsAt fuel (block + 1) 0 (omega arith) a b)
          | inr under ↦
              step_under (ground arith) (ground arith)
                (λ a b c. scan-StopsAt fuel block (byte + 1) a b c)
        ]
      ]
    where
      test : (promote (buffer (block * block_size + byte)) == 0xFF) ≡ false
      test = bytes (block * block_size + byte) before

      run : Scan
      run = scan again block_size limit (suc fuel) block byte buffer

      stop : block * block_size + byte ≡ t → StopsAt block_size t i run
      stop e = record {
        block = block;
        byte = byte;
        stop = scan-found again block_size limit fuel block byte buffer test i (rw e hit);
        offset = e;
        within = hb;
      }

      step_over :
          block * block_size + byte < t
          → byte + 1 ≡ block_size
          → ((block + 1) * block_size + 0 ≤ t
              → t < (block + 1) * block_size + 0 + fuel
              → StopsAt block_size t i (scan again block_size limit fuel (block + 1) 0 buffer))
          → StopsAt block_size t i run
      step_over before' end rest =
          rw
            (scan-over block_size limit fuel block byte buffer test
              (full (block * block_size + byte) before') again end
              (omega (arith, lt_of_mul_lt (block + 1) (limit + 1) block_size (grind arith))))
            (rest (grind arith) (grind arith))

      step_under :
          block * block_size + byte < t
          → byte + 1 < block_size
          → (byte + 1 < block_size
              → block * block_size + (byte + 1) ≤ t
              → t < block * block_size + (byte + 1) + fuel
              → StopsAt block_size t i (scan again block_size limit fuel block (byte + 1) buffer))
          → StopsAt block_size t i run
      step_under before' end rest =
          rw
            (scan-under block_size limit fuel block byte buffer test
              (full (block * block_size + byte) before') again end
              (omega (arith, lt_of_mul_lt block (limit + 1) block_size (grind arith))))
            (rest end (omega arith) (omega arith))

-- Bit `m` of a bitmap.
abbrev pub bitmap_bit : Buffer → ℕ → ℕ
bitmap_bit buffer m = bit_of (buffer (m / 8)) (m % 8)

-- `n` is the number of the first clear bit.
pub record FirstClear (buffer : Buffer) (n : ℕ) : Type 0 where
  pub bytes : (p : ℕ) → p ≤ n / 8 → buffer p < 256
  pub clear : bitmap_bit buffer n ≡ 0
  pub below : (m : ℕ) → m < n → bitmap_bit buffer m ≡ 1

-- It is a matter of the bytes up to the one that holds it.
pub FirstClear-congr :
    {b c : Buffer} {n : ℕ} → ((p : ℕ) → p ≤ n / 8 → c p ≡ b p) → FirstClear b n → FirstClear c n
FirstClear-congr {n} same h = record {
  bytes = λ p l. rw (same p l) (h.bytes p l);
  clear = rw (same (n / 8) (omega arith)) h.clear;
  below = λ m l. rw (same (m / 8) (omega arith)) (h.below m l);
}

-- The bits of a byte, through their numbers in the bitmap.
pub bit_of-byte :
    (buffer : Buffer) (q r : ℕ) → r < 8 → bitmap_bit buffer (8 * q + r) ≡ bit_of (buffer q) r
bit_of-byte buffer q r h =
    let e : (8 * q + r) / 8 ≡ q = omega arith in
    let f : (8 * q + r) % 8 ≡ r = omega arith in rw (e, f)

-- Either allocator's scan stops at the first clear bit, if it lies in the blocks looked at.
pub scan-FirstClear :
    (again : Bool) (block_size limit fuel : ℕ) {buffer : Buffer} {n : ℕ}
    → FirstClear buffer n
    → 0 < block_size
    → n / 8 < (limit + 1) * block_size
    → n / 8 < fuel
    → StopsAt block_size (n / 8) (n % 8) (scan again block_size limit fuel 0 0 buffer)
scan-FirstClear again block_size limit fuel {buffer} {n} h pos small enough =
    scan-StopsAt again block_size limit (n / 8) (n % 8) buffer small
      (λ p l. promote-ne_ff (buffer p) (h.bytes p l))
      (λ p l.
        find_clear_bit-none (buffer p) (h.bytes p (omega arith))
          (λ j k. sym (bit_of-byte buffer p j k) ∙ h.below (8 * p + j) (omega arith)))
      (find_clear_bit-some (buffer (n / 8)) (n % 8) (h.bytes (n / 8) (omega arith)) (omega arith)
        h.clear
        (λ j k.
          sym (bit_of-byte buffer (n / 8) j (omega arith))
          ∙ h.below (8 * (n / 8) + j) (omega arith)))
      fuel 0 0 pos (omega arith) (omega arith)
