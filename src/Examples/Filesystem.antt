-- ===== src/Examples/Filesystem.antt =====
-- A small file system: the inode bitmap starts at block 1, the block bitmap at block 3, the inodes
-- at block 4 and the data blocks at block 5.
use dionys_os.Prelude.{
  ◌/◌, zero, suc, ◌>>◌, ℕ, ◌+◌, ◌≡◌, ◌<◌, ◌≤◌, ◌==◌, ◌%◌, ◌^◌, if◌then◌else◌, ltb, true, arith,
  refl, ok, fault, ==→eq, tabulated, tabulated-entry,
}
use dionys_os.Diosfs.Index.{BlockPath, in_inode, in_double}
use dionys_os.Diosfs.InodeTable.{
  write_inode, read_inode, inode_number, inode_size, table_inode, stored_inode,
  read_inode-write_inode,
}
use dionys_os.Diosfs.Content.{
  Inode, file, Holds, success, read_bytes_from_inode, read_bytes_from_inode-content,
  read_bytes_from_inode-overrun,
}
use dionys_os.Diosfs.Device.{data_byte, copy_in, Device, Superblock, Buffer}
use dionys_os.Diosfs.Resolve.{
  BlockPointers, get_relative_block_number, block_at, pointer, load_le,
  get_relative_block_number-block_at,
}
use dionys_os.Diosfs.Bitmap.{get_free_inode_and_mark_bitmap, bit_of}
use dionys_os.Diosfs.Bitmap.Scanning.{FirstClear}
use dionys_os.Diosfs.Bitmap.Blocks.{from_block}
use dionys_os.Diosfs.Bitmap.Inodes.{get_free_inode_and_mark_bitmap-later_block}
use dionys_os.Diosfs.Bitmap.Blocks as Blocks
use dionys_os.Diosfs.Bitmap.Inodes as Inodes

abbrev superblock : Superblock
superblock = record {
  block_size = 1024;
  inode_bitmap_size = 2;
  block_bitmap_size = 1;
  inode_bitmap_pointers_start = 1;
  block_bitmap_pointers_start = 3;
  inode_start_pointer = 4;
  block_start_pointer = 5;
}

abbrev page : Buffer
page i = 0

-- Byte 0 of both bitmaps is full; everything else is clear.
abbrev device : Device
device = record {
  byte = λ i. if i == 1024 then 255 else if i == 3072 then 255 else 0;
  last_block = 100;
}

-- All of the first block of the inode bitmap is full.
abbrev full_device : Device
full_device = record {
  byte = λ i. if ltb i 1024 then 0 else if ltb i 2048 then 255 else 0;
  last_block = 100;
}

-- Block 300 of a file is behind two levels of pointers.
abbrev path : BlockPath
path = in_double 1 34

abbrev inode : BlockPointers
inode = record { blocks = λ i. i; single_indirect = 7; double_indirect = 8; triple_indirect = 9 }

on_device : 5 + pointer superblock device 8 1 ≤ 100
unfolding pointer load_le
on_device = omega arith

get_relative_block_number-block_at_example :
    get_relative_block_number superblock page inode 300 device
    ≡ ok (block_at superblock device inode path) device
get_relative_block_number-block_at_example =
    get_relative_block_number-block_at superblock page device inode path (omega arith, omega arith)
      (omega arith, on_device)

-- A full byte has its eight bits set.
ones : (r : ℕ) → r < 8 → bit_of 255 r ≡ 1
unfolding tabulated
ones r h = ==→eq (bit_of 255 r) 1 (tabulated-entry 8 (λ i. bit_of 255 i == 1) r table h)
  where
    table : tabulated 8 (λ i. bit_of 255 i == 1) ≡ true
    table = refl

inodes-FirstClear : FirstClear (from_block device 1) 8
inodes-FirstClear = record {
  bytes = λ p l. ground arith;
  clear = refl;
  below = λ m l. ground (arith, ones (m % 8));
}

full-FirstClear : FirstClear (from_block full_device 1) 8192
full-FirstClear = record {
  bytes = λ p l. ground arith;
  clear = refl;
  below = λ m l. ground (arith, ones (m % 8));
}

get_free_inode_and_mark_bitmap-later_block_example :
    get_free_inode_and_mark_bitmap superblock page full_device ≡ ok (8192 % 2 ^ 16) full_device
get_free_inode_and_mark_bitmap-later_block_example =
    get_free_inode_and_mark_bitmap-later_block superblock page full_device 8192 full-FirstClear
      covers (omega arith)
  where
    covers : Inodes.Covers superblock page full_device 8192
    covers = record {
      pos = omega arith;
      fits = omega arith;
      in_buffer = omega arith;
      on_device = omega arith;
      read_in = omega arith;
      scanned = omega arith;
    }

-- Inode number 6, with a name that starts with "a".
abbrev sixth : Buffer
sixth i = if i == 2 then 6 else if i == 10 then 97 else 0

read_inode-write_inode_example :
    (write_inode superblock sixth >> read_inode superblock page 6) device
    ≡ ok
        (if 6 == inode_number sixth
          then copy_in sixth 0 inode_size page
          else table_inode superblock device 6 page)
        (stored_inode superblock sixth device)
read_inode-write_inode_example =
    read_inode-write_inode superblock sixth page 6 device (omega arith) (omega arith)

-- A file of 3000 bytes in the blocks 0 to 2.
abbrev small_file : Inode
small_file = record { kind = file; size = 3000; block_count = 3; pointers = inode }

abbrev file_content : ℕ → Buffer
file_content n j = data_byte superblock device n j

second_and_third :
    (k : ℕ) → k < 2 → Holds superblock device small_file (1 + k) (file_content (1 + k))
unfolding block_at
second_and_third zero h = record {
  path = in_inode 1;
  in_bounds = omega arith;
  leads = refl;
  reachable = tt;
  on_device = omega arith;
  bytes = λ j h. refl;
}
second_and_third (suc zero) h = record {
  path = in_inode 2;
  in_bounds = omega arith;
  leads = refl;
  reachable = tt;
  on_device = omega arith;
  bytes = λ j h. refl;
}
second_and_third (suc (suc k)) h = absurd (omega (arith, h))

read_bytes_from_inode-content_example :
    (b : Buffer) × (read_bytes_from_inode superblock page small_file page 2048 1024 1500 device
      ≡ ok (success, b) device)
    × ((p : ℕ) → p < 1500 → b p ≡ file_content ((1024 + p) / 1024) ((1024 + p) % 1024))
read_bytes_from_inode-content_example =
    read_bytes_from_inode-content superblock page small_file device file_content refl 2048 page 1024
      1500 refl (omega arith) (omega arith) refl second_and_third

read_bytes_from_inode-overrun_example :
    read_bytes_from_inode superblock page small_file page 1500 1024 1500 device ≡ fault
read_bytes_from_inode-overrun_example =
    read_bytes_from_inode-overrun superblock page small_file device file_content refl 1500 page 1024
      1500 refl (omega arith) (omega arith) (omega arith) (omega arith) refl second_and_third
