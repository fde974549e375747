-- ===== src/Diosfs/Bitmap.antt =====
-- The inode bitmap and the block bitmap of diosfs.c: finding a free entry, marking and clearing it.
-- A byte of a buffer is a number below 256. `char` is signed on x86-64, and is promoted to `int`.
pub mod Bytes
pub mod Scanning
pub mod Blocks
pub mod Inodes
pub mod Clearing
use dionys_os.Prelude.{
  ℕ, zero, suc, ◌+◌, ◌-◌, ◌*◌, ◌/◌, ◌%◌, ◌^◌, Bool, true, false, Option, none, some, bit_and,
  bit_or, ltb, ◌==◌, if◌then◌else◌, update, panic, hang, Cmd, ◌>>=◌, ◌>>◌, pure,
}
use dionys_os.Diosfs.Device.{
  Buffer, Device, Superblock, block_read, block_write, read_blocks, write_blocks, in_memory,
  device_block_size,
}

-- The bit pattern of the `int` that a `char` is promoted to.
abbrev pub promote : ℕ → ℕ
promote b = if ltb b 128 then b else b + (2 ^ 32 - 256)

abbrev pub bit_of : ℕ → ℕ → ℕ
bit_of b i = (b / 2 ^ i) % 2

-- `for (i = 0; i <= 8; i++) if (!(byte & (1 << i)))`, with the rounds left.
unfoldable pub find_clear_bit : (rounds i byte : ℕ) → Option ℕ
find_clear_bit zero i byte = none
find_clear_bit (suc n) i byte =
    let rest = find_clear_bit n (i + 1) byte in
    if bit_of (promote byte) i == 0 then some i else rest

-- `buffer[..] |= 1 << bit`, stored back into a `char`.
unfoldable pub set_bit : ℕ → ℕ → ℕ
set_bit byte i = bit_or (promote byte) (2 ^ i) % 256

-- `buffer[..] &= (uint64_t) ~BIT(bit)`, stored back into a `char`.
unfoldable pub clear_bit : ℕ → ℕ → ℕ
clear_bit byte i =
    bit_and (if ltb byte 128 then byte else byte + (2 ^ 64 - 256)) (2 ^ 64 - 1 - 2 ^ i) % 256

pub data Scan : Type 0 where
  found : (block byte bit : ℕ) → Scan
  exhausted : Scan
  running : Scan

-- A position in the bitmap that may have run over the end of its block.
unfoldable pub carry : ℕ → ℕ → ℕ → ℕ × ℕ
carry block_size block byte = if byte == block_size then (block + 1, 0) else (block, byte)

-- The `while (1)` of both allocators. The inode allocator carries once more at the end of each
-- round: `again`. `limit` is the block number after which it panics.
unfoldable pub scan : (again : Bool) (block_size limit fuel block byte : ℕ) → Buffer → Scan
unfolding find_clear_bit
scan again block_size limit zero block byte buffer = running
scan again block_size limit (suc fuel) block byte buffer =
    elim (promote (buffer (block * block_size + byte)) == 0xFF) [
      | false ↦ elim (find_clear_bit 9 0 (buffer (block * block_size + byte))) [
        | some bit ↦ found block byte bit
        | none ↦
            let (block', byte') = carry block_size block (byte + 1) in
            elim (ltb limit block') [
              | true ↦ exhausted
              | false ↦
                  let (block'', byte'') =
                    if again then carry block_size block' byte' else (block', byte') in
                  scan again block_size limit fuel block'' byte'' buffer
            ]
      ]
      | true ↦
          let (block', byte') =
            if again then carry block_size block (byte + 1) else (block, byte + 1) in
          scan again block_size limit fuel block' byte' buffer
    ]

-- Enough rounds to pass the last block that a scan looks at.
abbrev pub scan_rounds : ℕ → ℕ → ℕ
scan_rounds block_size limit = block_size * (limit + 1) + 1

abbrev pub num_inode_pointer_blocks : ℕ
num_inode_pointer_blocks = 16

abbrev pub num_block_pointer_blocks : ℕ
num_block_pointer_blocks = 128

-- `PAGE_SIZE * 16`, the memory that the inode bitmap is read into.
abbrev pub inode_buffer_size : ℕ
inode_buffer_size = 4096 * 16

-- `heap` is what the buffer from `kmalloc` holds before the bitmap is read into it.
module _ (sb : Superblock) (heap : Buffer) where
  mark_block : Buffer → Scan → Cmd Device ℕ
  unfolding block_write
  mark_block buffer (found block byte bit) =
      let at = block * sb.block_size + byte in
      do
        write_blocks sb.block_bitmap_pointers_start sb.block_bitmap_pointers_start
            (update buffer at (set_bit (buffer at) bit))
        pure (block * sb.block_size * 8 + byte * 8 + bit)
  mark_block buffer exhausted = λ _. panic
  mark_block buffer running = λ _. hang

  -- The start of the bitmap is passed as the number of blocks too, as in the source.
  unfoldable pub get_free_block_and_mark_bitmap : Cmd Device ℕ
  unfolding mark_block set_bit scan carry block_read
  get_free_block_and_mark_bitmap = do
    buffer ← read_blocks sb.block_bitmap_pointers_start sb.block_bitmap_pointers_start heap
    mark_block buffer (
        scan false sb.block_size num_block_pointer_blocks
          (scan_rounds sb.block_size num_block_pointer_blocks) 0 0 buffer)

  -- The bit is set in `buffer[byte]`, whatever the block. The number goes into a `uint16_t`.
  mark_inode : Buffer → Scan → Cmd Device ℕ
  unfolding block_write
  mark_inode buffer (found block byte bit) = do
    write_blocks sb.inode_bitmap_pointers_start sb.inode_bitmap_size
        (update buffer byte (set_bit (buffer byte) bit))
    pure ((block * sb.block_size * 8 + byte * 8 + bit) % 2 ^ 16)
  mark_inode buffer exhausted = λ _. panic
  mark_inode buffer running = λ _. hang

  -- The number of the inode; its other fields are zeroed.
  unfoldable pub get_free_inode_and_mark_bitmap : Cmd Device ℕ
  unfolding mark_inode set_bit scan carry block_read
  get_free_inode_and_mark_bitmap = do
    buffer ← read_blocks sb.inode_bitmap_pointers_start sb.inode_bitmap_size heap
    in_memory inode_buffer_size (sb.inode_bitmap_size * device_block_size)
    mark_inode buffer (
        scan true sb.block_size num_inode_pointer_blocks
          (scan_rounds sb.block_size num_inode_pointer_blocks) 0 0 buffer)

  -- `start` is that of the bitmap of the entry's type. The results of the transfers are not looked
  -- at, and the page is zeroed first.
  unfoldable pub clear_bitmap : (start number : ℕ) → Device → Device
  unfolding clear_bit block_read block_write
  clear_bitmap start number d =
      let block = start + number / (sb.block_size * 8) in
      let buffer : Buffer = (block_read block 1 (λ _. 0) d).1 in
      let buffer' = update buffer (number / 8) (clear_bit (buffer (number / 8)) (number % 8)) in
      (block_write block 1 buffer' d).1
