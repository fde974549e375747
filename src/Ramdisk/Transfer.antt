-- ===== src/Ramdisk/Transfer.antt =====
-- `ramdisk_read` and `ramdisk_write` inside their bounds.
use dionys_os.Prelude.{ℕ, ◌+◌, ◌*◌, ◌/◌, ◌%◌, ◌<◌, ◌≤◌, ◌≡◌, ◌≢◌, arith, ok}
use dionys_os.Ramdisk.{
  Machine, Ramdisk, ramdisk_read, ramdisk_write, block_address, page_size, u64, kern_success,
}
use dionys_os.Ramdisk.Copying.{Apart, copied, copy_loop-whole, repeat_loop-confined}

-- The block number passes the driver's check.
abbrev pub InLimit : Ramdisk → ℕ → Type 0
InLimit r block = block ≤ u64 (r.ramdisk_size_pages * page_size) / r.block_size

module _ (buffer block offset size buffer_size id : ℕ) (s : Machine) (id_ok : id < 5)
    (block_size_ok : (s.ramdisk id).block_size ≢ 0) where
  abbrev r : Ramdisk
  r = s.ramdisk id

  -- A read inside its bounds succeeds and copies the bytes at the block's address into the buffer.
  pub ramdisk_read-copied :
      offset ≤ r.block_size
      → size ≤ buffer_size
      → InLimit r block
      → Apart size buffer (block_address r block offset)
      → ramdisk_read buffer block offset size buffer_size id s
        ≡ ok kern_success
            (record s { byte = copied 0 size buffer (block_address r block offset) s.byte })
  unfolding ramdisk_read
  ramdisk_read-copied o z l apart =
      ground (arith, copy_loop-whole size buffer (block_address r block offset) s apart)

  -- A write inside its bounds succeeds and copies the buffer to the block's address.
  pub ramdisk_write-copied :
      offset ≤ r.block_size
      → size ≤ buffer_size
      → InLimit r block
      → Apart size (block_address r block offset) buffer
      → ramdisk_write buffer block offset size buffer_size id s
        ≡ ok kern_success
            (record s { byte = copied 0 size (block_address r block offset) buffer s.byte })
  unfolding ramdisk_write
  ramdisk_write-copied o z l apart =
      ground (arith, copy_loop-whole size (block_address r block offset) buffer s apart)

  -- For a ramdisk in the table, an offset and a block that pass the checks, and a size that is a
  -- larger multiple of the buffer's, the write ends in success, yet it changes no byte before the
  -- block's address and none beyond the first buffer_size + 1 from there on.
  ramdisk_write-confined :
      offset ≤ r.block_size
      → InLimit r block
      → 0 < buffer_size
      → buffer_size < size
      → size % buffer_size ≡ 0
      → (s' : Machine) × (ramdisk_write buffer block offset size buffer_size id s
          ≡ ok kern_success s')
        × ((a : ℕ) → block_address r block offset + buffer_size < a → s'.byte a ≡ s.byte a)
        × ((a : ℕ) → a < block_address r block offset → s'.byte a ≡ s.byte a)
  unfolding ramdisk_write
  ramdisk_write-confined o l z more whole =
      let c =
        repeat_loop-confined size (block_address r block offset) buffer 0 0 size buffer_size s
          (omega arith) z (omega arith) in
      (c.0, ground (arith, c.1), c.2, c.3)
