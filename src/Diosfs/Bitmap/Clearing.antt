-- ===== src/Diosfs/Bitmap/Clearing.antt =====
-- `diosfs_clear_bitmap`, which frees an entry of a bitmap.
use dionys_os.Prelude.{
  ℕ, ◌+◌, ◌*◌, ◌/◌, ◌%◌, ◌<◌, ◌≤◌, ◌≡◌, ltb, ◌==◌, if◌then◌else◌, arith, update, fun_ext,
  le→ltb_false, lt→ltb, ap, Bool-cases, inl, inr,
}
use dionys_os.Diosfs.Device.{Buffer, Device, Superblock, copy_in, copy_out, device_block_size}
use dionys_os.Diosfs.Bitmap.{clear_bit, clear_bitmap}
use dionys_os.Diosfs.Bitmap.Bytes.{bit_of-set_bit, clear_bit-set_bit}
use dionys_os.Diosfs.Bitmap.Scanning.{bitmap_bit}
use dionys_os.Diosfs.Bitmap.Blocks.{from_block, mark, write_back}

-- The device with bit `n` of the bitmap at block `start` cleared.
abbrev pub unmark : Device → (start n : ℕ) → Device
unmark d start n = record d {
  byte =
      update d.byte (start * device_block_size + n / 8)
        (clear_bit (from_block d start (n / 8)) (n % 8));
}

-- Entries whose byte lies outside the block that is read, 1024 bytes.
pub far_write_back :
    (byte heap : Buffer) (start at v : ℕ)
    → device_block_size ≤ at
    → copy_out byte start device_block_size
        (update (copy_in byte start device_block_size heap) at v)
      ≡ byte
far_write_back byte heap start at v h = fun_ext λ x. ground arith

module _ (sb : Superblock) (heap : Buffer) (start n : ℕ) (d : Device) where
  -- With blocks of 1024 bytes and a bitmap that starts on the device, for a number in the first
  -- block of the bitmap, clear_bitmap clears its bit on the device and changes no other byte.
  clear_bitmap-unmark :
      start ≤ d.last_block
      → sb.block_size ≡ device_block_size
      → n < 8 * device_block_size
      → clear_bitmap sb heap start n d ≡ unmark d start n
  unfolding clear_bitmap
  clear_bitmap-unmark on size small =
      rw
        (
          clear_bitmap,
          here,
          le→ltb_false d.last_block start on,
          lt→ltb (n / 8) device_block_size (omega arith),
        )
        (ap (λ (b : Buffer). record d { byte = b })
          (write_back d.byte (λ _. 0) (start * device_block_size) device_block_size (n / 8) _
            (omega arith)))
    where
      here : start + n / (sb.block_size * 8) ≡ start
      here = rw size (omega arith)

  -- For a number from 8192 on, clear_bitmap does not change the device.
  clear_bitmap-later_block : 8 * device_block_size ≤ n → clear_bitmap sb heap start n d ≡ d
  unfolding clear_bitmap
  clear_bitmap-later_block far = elim (Bool-cases (ltb d.last_block block)) [
    | inl off ↦ rw (clear_bitmap, off)
    | inr on ↦
        rw (clear_bitmap, on)
          (ap (λ (b : Buffer). record d { byte = b })
            (far_write_back d.byte (λ _. 0) (block * device_block_size) (n / 8) _ (omega arith)))
  ]
    where
      block : ℕ
      block = start + n / (sb.block_size * 8)

-- Marking an entry of the first bitmap block and clearing it again gives the device back.
pub unmark-mark :
    (d : Device) (start n : ℕ)
    → from_block d start (n / 8) < 256
    → bitmap_bit (from_block d start) n ≡ 0
    → unmark (mark d start n) start n ≡ d
unmark-mark d start n small clear =
    ap (λ (b : Buffer). record d { byte = b })
      (fun_ext λ x. ground (arith, clear_bit-set_bit (from_block d start (n / 8)) (n % 8)))

-- Marking an entry sets its bit and leaves every other bit of the bitmap.
pub bitmap_bit-mark :
    (d : Device) (start n m : ℕ)
    → from_block d start (n / 8) < 256
    → bitmap_bit (from_block (mark d start n) start) m
      ≡ (if m == n then 1 else bitmap_bit (from_block d start) m)
bitmap_bit-mark d start n m small = ground (
  arith,
  bit_of-set_bit (from_block d start (n / 8)) (n % 8) small (omega arith) (m % 8) (omega arith),
)
