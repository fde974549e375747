-- ===== src/Diosfs/InodeTable.antt =====
-- The table of inodes, 256 bytes each and four in a block, and the functions that free an inode or a
-- data block. An inode is its bytes.
use dionys_os.Prelude.{
  ℕ, ◌+◌, ◌*◌, ◌/◌, ◌%◌, ◌<◌, ◌≤◌, ◌≡◌, ltb, ◌==◌, if◌then◌else◌, arith, ok, Cmd, ◌>>=◌, ◌>>◌, pure,
  update, le→ltb_false, fun_ext, ap,
}
use dionys_os.Diosfs.Device.{
  Buffer, Device, Superblock, block_read, block_write, read_blocks, write_blocks, copy_in, copy_out,
  write_block_by_number,
}
use dionys_os.Diosfs.Bitmap.{clear_bitmap}

-- `sizeof(struct diosfs_inode)` and `NUM_INODES_PER_BLOCK`
abbrev pub inode_size : ℕ
inode_size = 256

abbrev pub inodes_per_block : ℕ
inodes_per_block = 4

-- `inode->inode_number`, a `uint16_t` at offset 2.
abbrev pub inode_number : Buffer → ℕ
inode_number inode = inode 2 + 256 * inode 3

abbrev zeros : Buffer
zeros i = 0

-- `memcpy(&block[at], inode, sizeof(struct diosfs_inode))`
abbrev pub put_inode : (at : ℕ) → Buffer → Buffer → Buffer
put_inode at inode block = copy_out block at inode_size inode

module _ (sb : Superblock) where
  abbrev pub inode_block : ℕ → ℕ
  inode_block number = sb.inode_start_pointer + number / inodes_per_block

  -- The result of the read is not looked at.
  unfoldable pub write_inode : Buffer → Cmd Device (Unit {0})
  unfolding block_read block_write
  write_inode inode d =
      let number = inode_number inode in
      let block = (block_read (inode_block number) 1 zeros d).1 in
      write_blocks (inode_block number) 1
        (put_inode (number % inodes_per_block * inode_size) inode block) d

  -- `inode` is what the caller's structure held before.
  unfoldable pub read_inode : (inode : Buffer) (number : ℕ) → Cmd Device Buffer
  unfolding block_read
  read_inode inode number = do
    block ← read_blocks (inode_block number) 1 zeros
    pure (copy_in block (number % inodes_per_block * inode_size) inode_size inode)

  -- `page` is what `kmalloc` returns; `heap` is what the page for the bitmap holds.
  unfoldable pub free_block_and_mark_bitmap :
      (page heap : Buffer) (block_number : ℕ) → Cmd Device (Unit {0})
  unfolding write_block_by_number clear_bitmap
  free_block_and_mark_bitmap page heap block_number = do
    write_block_by_number sb block_number (λ i. if ltb i sb.block_size then 0 else page i) 0
        sb.block_size
    (λ d. ok tt (clear_bitmap sb heap sb.block_bitmap_pointers_start block_number d))

  -- The second write goes to a data block, since `write_block_by_number` adds the start of the data
  -- blocks to its number.
  unfoldable pub free_inode_and_mark_bitmap :
      (inode page heap : Buffer) (number : ℕ) → Cmd Device (Unit {0})
  unfolding read_inode write_inode write_block_by_number clear_bitmap
  free_inode_and_mark_bitmap inode page heap number = do
    _ ← read_inode inode number
    write_inode (update (update zeros 2 (number % 256)) 3 (number / 256 % 256))
    write_block_by_number sb (inode_block number) page (number % inodes_per_block) inode_size
    (λ d. ok tt (clear_bitmap sb heap sb.inode_bitmap_pointers_start number d))

  -- The device after an inode is written.
  abbrev pub stored_inode : Buffer → Device → Device
  stored_inode inode d = record d {
    byte =
        copy_out d.byte
          (inode_block (inode_number inode) * 1024
            + inode_number inode % inodes_per_block * inode_size)
          inode_size inode;
  }

  patch :
      (byte inode : Buffer) (start at : ℕ)
      → at < 4
      → copy_out byte
          (start * 1024)
          (1 * 1024)
          (put_inode (at * 256) inode (copy_in byte (start * 1024) (1 * 1024) zeros))
        ≡ copy_out byte (start * 1024 + at * 256) 256 inode
  patch byte inode start at h = fun_ext λ i. ground arith

  write_inode-stored :
      (inode : Buffer) (d : Device)
      → inode_block (inode_number inode) ≤ d.last_block
      → write_inode inode d ≡ ok tt (stored_inode inode d)
  unfolding write_inode
  write_inode-stored inode d h =
      rw (le→ltb_false d.last_block (inode_block (inode_number inode)) h) (
        ap (λ (b : Buffer). ok tt (record d { byte = b }))
          (patch d.byte inode (inode_block (inode_number inode))
            (inode_number inode % inodes_per_block) (omega arith)))

  -- The inode of the table.
  abbrev pub table_inode : Device → ℕ → Buffer → Buffer
  table_inode d number inode =
      copy_in d.byte (inode_block number * 1024 + number % inodes_per_block * inode_size) inode_size
        inode

  fetch :
      (byte inode : Buffer) (start at : ℕ)
      → at < 4
      → copy_in (copy_in byte (start * 1024) (1 * 1024) zeros) (at * 256) 256 inode
        ≡ copy_in byte (start * 1024 + at * 256) 256 inode
  fetch byte inode start at h = fun_ext λ i. ground arith

  read_inode-table :
      (inode : Buffer) (number : ℕ) (d : Device)
      → inode_block number ≤ d.last_block
      → read_inode inode number d ≡ ok (table_inode d number inode) d
  unfolding read_inode
  read_inode-table inode number d h = rw (le→ltb_false d.last_block (inode_block number) h) (
      ap (λ (b : Buffer). ok b d)
        (fetch d.byte inode (inode_block number) (number % inodes_per_block) (omega arith)))

  -- When the blocks of both inodes are on the device, writing an inode and then reading number
  -- succeeds; the read returns the written bytes if number is that of the inode, and otherwise
  -- what the table held there before; the device changes at the 256 bytes of the written inode
  -- alone.
  pub read_inode-write_inode :
      (inode before : Buffer) (number : ℕ) (d : Device)
      → inode_block (inode_number inode) ≤ d.last_block
      → inode_block number ≤ d.last_block
      → (write_inode inode >> read_inode before number) d
        ≡ ok
            (if number == inode_number inode
              then copy_in inode 0 inode_size before
              else table_inode d number before)
            (stored_inode inode d)
  read_inode-write_inode inode before number d h k =
      rw (write_inode-stored inode d h, read_inode-table before number (stored_inode inode d) k)
        (ap (λ (b : Buffer). ok b (stored_inode inode d)) (fun_ext λ i. ground arith))
