-- ===== src/Diosfs/Device.antt =====
-- The block device as diosfs.c sees it through `block_device_ops`, its superblock, and the two
-- helpers `diosfs_read_block_by_number` and `diosfs_write_block_by_number`.
use dionys_os.Prelude.{
  ℕ, ◌+◌, ◌*◌, ◌-◌, ◌≤◌, ◌≡◌, ltb, if◌then◌else◌, Run, ok, panic, fault, Cmd, le→ltb_false,
}

-- Bytes, by their offset.
abbrev pub Buffer : Type 0
Buffer = ℕ → ℕ

-- A device of blocks of `DIOSFS_BLOCKSIZE` bytes. `last_block` is the largest block number that the
-- driver accepts as the start of a transfer.
pub record Device : Type 0 where
  pub byte : Buffer
  pub last_block : ℕ

-- The fields of `struct diosfs_superblock` that the operations read.
pub record Superblock : Type 0 where
  pub block_size : ℕ
  pub inode_bitmap_size : ℕ
  pub block_bitmap_size : ℕ
  pub inode_bitmap_pointers_start : ℕ
  pub block_bitmap_pointers_start : ℕ
  pub inode_start_pointer : ℕ
  pub block_start_pointer : ℕ

pub data Status : Type 0 where
  success : Status
  read_size_out_of_bounds : Status
  block_out_of_range : Status

-- `PAGE_SIZE * 100`, the transfer that the ramdisk driver allows in one call.
abbrev pub max_transfer : ℕ
max_transfer = 4096 * 100

abbrev pub device_block_size : ℕ
device_block_size = 1024

-- What a transfer from the device leaves in memory.
abbrev pub copy_in : Buffer → ℕ → ℕ → Buffer → Buffer
copy_in source from size target i = if ltb i size then source (from + i) else target i

abbrev pub copy_out : Buffer → ℕ → ℕ → Buffer → Buffer
copy_out target to size source i =
    if ltb i to then target i else if ltb i (to + size) then source (i - to) else target i

unfoldable pub block_read : (block count : ℕ) → Buffer → Device → Status × Buffer
block_read block count buffer d =
    if ltb max_transfer (count * device_block_size)
    then (read_size_out_of_bounds, buffer)
    else if ltb d.last_block block
    then (block_out_of_range, buffer)
    else (success, copy_in d.byte (block * device_block_size) (count * device_block_size) buffer)

-- A transfer larger than the driver allows is left out: no caller asks for one.
unfoldable pub block_write : (block count : ℕ) → Buffer → Device → Status × Device
block_write block count buffer d =
    if ltb d.last_block block
    then (block_out_of_range, d)
    else if ltb max_transfer (count * device_block_size)
    then (read_size_out_of_bounds, d)
    else (
      success,
      record d {
        byte = copy_out d.byte (block * device_block_size) (count * device_block_size) buffer;
      },
    )

abbrev pub checked : {A : Type 0} → Status × A → Cmd Device A
checked (success, a) d = ok a d
checked (read_size_out_of_bounds, a) d = panic
checked (block_out_of_range, a) d = panic

-- The driver's call by a function that panics on an error.
abbrev pub read_blocks : (block count : ℕ) → Buffer → Cmd Device Buffer
read_blocks block count buffer d = checked (block_read block count buffer d) d

abbrev pub stored : Status × Device → Run Device (Unit {0})
stored (success, d) = ok tt d
stored (read_size_out_of_bounds, d) = panic
stored (block_out_of_range, d) = panic

abbrev pub write_blocks : (block count : ℕ) → Buffer → Cmd Device (Unit {0})
write_blocks block count buffer d = stored (block_write block count buffer d)

-- What was written reaches up to `end`, in `size` bytes of memory.
abbrev pub in_memory : (size end : ℕ) → Cmd Device (Unit {0})
in_memory size end d = if ltb size end then fault else ok tt d

module _ (sb : Superblock) where
  -- `offset` and `read_size` only enter values that the function does not use.
  unfoldable pub read_block_by_number :
      (block_number : ℕ) → Buffer → (offset read_size : ℕ) → Cmd Device Buffer
  unfolding block_read
  read_block_by_number block_number buffer offset read_size =
      read_blocks (sb.block_start_pointer + block_number) 1 buffer

  -- `offset` and `write_size` only enter values that the function does not use.
  unfoldable pub write_block_by_number :
      (block_number : ℕ) → Buffer → (offset write_size : ℕ) → Cmd Device (Unit {0})
  unfolding block_write
  write_block_by_number block_number buffer offset write_size =
      write_blocks (sb.block_start_pointer + block_number) 1 buffer

-- Data block `n` is one that the driver transfers.
abbrev pub IsData : Superblock → Device → ℕ → Type 0
IsData sb d n = sb.block_start_pointer + n ≤ d.last_block

-- Byte `i` of data block `n`.
abbrev pub data_byte : Superblock → Device → ℕ → ℕ → ℕ
data_byte sb d n i = d.byte ((sb.block_start_pointer + n) * device_block_size + i)

-- The buffer after data block `n` is read into its start.
abbrev pub loaded : Superblock → Device → ℕ → Buffer → Buffer
loaded sb d n = copy_in d.byte ((sb.block_start_pointer + n) * device_block_size) device_block_size

pub read_block_by_number-ok :
    (sb : Superblock) (d : Device) (n : ℕ) (buffer : Buffer) (offset size : ℕ)
    → IsData sb d n
    → read_block_by_number sb n buffer offset size d ≡ ok (loaded sb d n buffer) d
unfolding read_block_by_number
read_block_by_number-ok sb d n buffer offset size h =
    rw (le→ltb_false d.last_block (sb.block_start_pointer + n) h)
