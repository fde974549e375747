-- ===== src/Diosfs/Bitmap/Blocks.antt =====
-- The block allocator, `diosfs_get_free_block_and_mark_bitmap`.
use dionys_os.Prelude.{ℕ, ◌+◌, ◌*◌, ◌/◌, ◌%◌, ◌<◌, ◌≤◌, ◌≡◌, arith, update, fun_ext}
use dionys_os.Diosfs.Device.{
  Buffer, Device, Superblock, copy_in, copy_out, device_block_size, max_transfer,
}
use dionys_os.Diosfs.Bitmap.{set_bit, num_block_pointer_blocks}

-- The bytes of the device from block `start` on.
abbrev pub from_block : Device → ℕ → Buffer
from_block d start p = d.byte (start * device_block_size + p)

-- The device with bit `n` of the bitmap at block `start` set.
abbrev pub mark : Device → (start n : ℕ) → Device
mark d start n = record d {
  byte =
      update d.byte (start * device_block_size + n / 8)
        (set_bit (from_block d start (n / 8)) (n % 8));
}

-- Reading `count` blocks, changing one byte and writing them back changes that byte alone.
pub write_back :
    (byte heap : Buffer) (start size at v : ℕ)
    → at < size
    → copy_out byte start size (update (copy_in byte start size heap) at v)
      ≡ update byte (start + at) v
write_back byte heap start size at v h = fun_ext λ x. ground arith

module _ (sb : Superblock) (heap : Buffer) (d : Device) (n : ℕ) where
  open sb use {block_size, block_bitmap_pointers_start}

  -- The bitmap of a file system whose scan reaches entry `n`.
  pub record Covers : Type 0 where
    pub pos : 0 < block_size
    pub fits : block_bitmap_pointers_start * device_block_size ≤ max_transfer
    pub on_device : block_bitmap_pointers_start ≤ d.last_block
    pub read_in : n / 8 < block_bitmap_pointers_start * device_block_size
    pub scanned : n / 8 < (num_block_pointer_blocks + 1) * block_size
