-- ===== src/Diosfs/Bitmap/Inodes.antt =====
-- The inode allocator, `diosfs_get_free_inode_and_mark_bitmap`.
use dionys_os.Prelude.{
  ℕ, zero, suc, ◌+◌, ◌*◌, ◌/◌, ◌%◌, ◌^◌, ◌<◌, ◌≤◌, ◌≡◌, true, ltb, arith, refl, update, fun_ext, ok,
  le→ltb_false, lt→ltb, sym, ◌∙◌,
}
use dionys_os.Diosfs.Device.{
  Buffer, Device, Superblock, copy_in, copy_out, device_block_size, max_transfer,
}
use dionys_os.Diosfs.Bitmap.{
  set_bit, Scan, scan, scan_rounds, num_inode_pointer_blocks, inode_buffer_size, mark_inode,
  get_free_inode_and_mark_bitmap,
}
use dionys_os.Diosfs.Bitmap.Bytes.{eq_ff, set_bit-ff}
use dionys_os.Diosfs.Bitmap.Scanning.{
  StopsAt, FirstClear, bit_of-byte, scan-FirstClear, FirstClear-congr,
}
use dionys_os.Diosfs.Bitmap.Blocks.{from_block, mark, write_back}

-- Bytes before the one with the first clear bit are 0xFF.
eq_ff_of_FirstClear : {b : Buffer} {n : ℕ} (p : ℕ) → FirstClear b n → p < n / 8 → b p ≡ 255
eq_ff_of_FirstClear {b} {n} p h l =
    eq_ff (b p) (h.bytes p (omega arith))
      (λ j k. sym (bit_of-byte b p j k) ∙ h.below (8 * p + j) (omega arith))

-- Writing back what was read, but for a byte that keeps its value, changes nothing.
write_back_same :
    (byte heap : Buffer) (start size at v : ℕ)
    → at < size
    → byte (start + at) ≡ v
    → copy_out byte start size (update (copy_in byte start size heap) at v) ≡ byte
write_back_same byte heap start size at v h e =
    write_back byte heap start size at v h ∙ fun_ext (λ x. ground arith)

in_first_block : (b y s t : ℕ) → b * s + y ≡ t → t < s → y ≡ t
in_first_block zero y s t e l = omega arith
in_first_block (suc b) y s t e l = absurd (grind arith)

module _ (sb : Superblock) (heap : Buffer) (d : Device) (n : ℕ) where
  open sb use {block_size, inode_bitmap_pointers_start, inode_bitmap_size}

  -- The inode bitmap of a file system whose scan reaches entry `n`.
  pub record Covers : Type 0 where
    pub pos : 0 < block_size
    pub fits : inode_bitmap_size * device_block_size ≤ max_transfer
    pub in_buffer : inode_bitmap_size * device_block_size ≤ inode_buffer_size
    pub on_device : inode_bitmap_pointers_start ≤ d.last_block
    pub read_in : n / 8 < inode_bitmap_size * device_block_size
    pub scanned : n / 8 < (num_inode_pointer_blocks + 1) * block_size

  abbrev bitmap : Buffer
  bitmap =
      copy_in d.byte (inode_bitmap_pointers_start * device_block_size)
        (inode_bitmap_size * device_block_size) heap

  -- What a stopped scan leads to: one byte of the first block is written.
  mark_inode-StopsAt :
      (r : Scan) (s : StopsAt block_size (n / 8) (n % 8) r)
      → Covers
      → (v : ℕ) → set_bit (bitmap s.byte) (n % 8) ≡ v
      → (byte : Buffer)
      → copy_out d.byte
          (inode_bitmap_pointers_start * device_block_size)
          (inode_bitmap_size * device_block_size)
          (update bitmap s.byte v)
        ≡ byte
      → mark_inode sb heap bitmap r d ≡ ok (n % 2 ^ 16) (record d { byte = byte })
  unfolding mark_inode
  mark_inode-StopsAt r s c v e byte f = rw (
    s.stop,
    le→ltb_false d.last_block inode_bitmap_pointers_start c.on_device,
    le→ltb_false max_transfer (inode_bitmap_size * device_block_size) c.fits,
    e,
    f,
    number,
  )
    where
      number : s.block * block_size * 8 + s.byte * 8 + n % 8 ≡ n
      number = omega (arith, s.offset)

  run_scan : Scan
  run_scan =
      scan true block_size num_inode_pointer_blocks
        (scan_rounds block_size num_inode_pointer_blocks) 0 0 bitmap

  module _ (first : FirstClear (from_block d inode_bitmap_pointers_start) n) (c : Covers) where
    run_scan-StopsAt : StopsAt block_size (n / 8) (n % 8) run_scan
    unfolding run_scan
    run_scan-StopsAt =
        scan-FirstClear true block_size num_inode_pointer_blocks
          (scan_rounds block_size num_inode_pointer_blocks)
          (FirstClear-congr (λ p l. ground (arith, c.read_in)) first) c.pos c.scanned (grind arith)

    run-mark_inode :
        (byte : Buffer)
        → mark_inode sb heap bitmap run_scan d ≡ ok (n % 2 ^ 16) (record d { byte = byte })
        → get_free_inode_and_mark_bitmap sb heap d ≡ ok (n % 2 ^ 16) (record d { byte = byte })
    unfolding get_free_inode_and_mark_bitmap run_scan
    run-mark_inode byte h =
        rw
          (
            get_free_inode_and_mark_bitmap,
            le→ltb_false max_transfer (inode_bitmap_size * device_block_size) c.fits,
            le→ltb_false d.last_block inode_bitmap_pointers_start c.on_device,
            le→ltb_false inode_buffer_size (inode_bitmap_size * device_block_size) c.in_buffer,
          )
          h

    -- If n is the number of the first clear bit of the inode bitmap, the bitmap is read, scanned
    -- and written far enough to reach it (Covers), and the bit lies in the first block of the
    -- bitmap, then the inode gets n as a 16-bit number, the bit n is set on the device, and no
    -- other byte changes.
    pub get_free_inode_and_mark_bitmap-first_block :
        n / 8 < block_size
        → get_free_inode_and_mark_bitmap sb heap d
          ≡ ok (n % 2 ^ 16) (mark d inode_bitmap_pointers_start n)
    get_free_inode_and_mark_bitmap-first_block l = run-mark_inode _ (
        mark_inode-StopsAt run_scan s c _ refl _ (
          rw (same, lt→ltb (n / 8) (inode_bitmap_size * device_block_size) c.read_in)
            (write_back d.byte heap _ _ (n / 8) _ c.read_in)))
      where
        s : StopsAt block_size (n / 8) (n % 8) run_scan
        s = run_scan-StopsAt

        same : s.byte ≡ n / 8
        same = in_first_block s.block s.byte block_size (n / 8) s.offset l

    -- If n is the number of the first clear bit of the inode bitmap, the bitmap is read, scanned
    -- and written far enough to reach it and fits its buffer (Covers), and the bit lies in a
    -- later block of the bitmap, then the inode gets n as a 16-bit number and the device does not
    -- change.
    pub get_free_inode_and_mark_bitmap-later_block :
        block_size ≤ n / 8 → get_free_inode_and_mark_bitmap sb heap d ≡ ok (n % 2 ^ 16) d
    get_free_inode_and_mark_bitmap-later_block l = run-mark_inode d.byte (
        mark_inode-StopsAt run_scan s c 255 (rw (in_range, full) (set_bit-ff (n % 8) (omega arith)))
          d.byte
          (write_back_same d.byte heap _ _ s.byte 255 (omega (arith, c.read_in, s.within)) full))
      where
        s : StopsAt block_size (n / 8) (n % 8) run_scan
        s = run_scan-StopsAt

        full : d.byte (inode_bitmap_pointers_start * device_block_size + s.byte) ≡ 255
        full = eq_ff_of_FirstClear s.byte first (omega (arith, s.within))

        in_range : ltb s.byte (inode_bitmap_size * device_block_size) ≡ true
        in_range = lt→ltb _ _ (omega (arith, c.read_in, s.within))
