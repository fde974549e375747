-- ===== src/Ramdisk.antt =====
-- kernel/src/drivers/block/ramdisk.c: the ramdisks, and the device operations on them. Memory is one
-- array of bytes. The lock of a ramdisk is only initialised, never taken. Mapping the pages of a
-- disk image and printing are left out.
pub mod Copying
pub mod Transfer
pub mod Refinement
use dionys_os.Prelude.{
  ℕ, zero, suc, ◌+◌, ◌*◌, ◌-◌, ◌/◌, ◌%◌, ◌^◌, Bool, true, false, ◌&&◌, ltb, ◌==◌, if◌then◌else◌,
  Option, none, some, update, Run, ok, fault, Cmd, ◌>>=◌, ◌>>◌, pure,
}

abbrev pub page_size : ℕ
page_size = 4096

abbrev pub ramdisk_count : ℕ
ramdisk_count = 5

-- `0xFF * PAGE_SIZE`
abbrev pub default_ramdisk_size : ℕ
default_ramdisk_size = 255 * 4096

abbrev pub kern_success : ℕ
kern_success = 0

abbrev pub size_too_small : ℕ
size_too_small = 4

abbrev pub id_out_of_range : ℕ
id_out_of_range = 8

abbrev pub offset_out_of_range : ℕ
offset_out_of_range = 32

abbrev pub read_size_out_of_bounds : ℕ
read_size_out_of_bounds = 48

abbrev pub block_out_of_range : ℕ
block_out_of_range = 64

-- A result of 64 bits.
abbrev pub u64 : ℕ → ℕ
u64 n = n % 2 ^ 64

pub record Ramdisk : Type 0 where
  pub ramdisk_start : ℕ
  pub ramdisk_end : ℕ
  pub ramdisk_size_pages : ℕ
  pub block_size : ℕ
  pub ramdisk_name : ℕ

pub record Machine : Type 0 where
  pub byte : ℕ → ℕ
  pub ramdisk : ℕ → Ramdisk

-- `ramdisk[ramdisk_id]`, an array of `RAMDISK_COUNT` elements.
abbrev pub get_ramdisk : ℕ → Cmd Machine Ramdisk
get_ramdisk id s = if ltb id ramdisk_count then ok (s.ramdisk id) s else fault

abbrev pub put_ramdisk : ℕ → Ramdisk → Cmd Machine (Unit {0})
put_ramdisk id r s =
    if ltb id ramdisk_count then ok tt (record s { ramdisk = update s.ramdisk id r }) else fault

-- `target[index] = source[index]`
abbrev pub copy_byte : (target source index : ℕ) → Cmd Machine (Unit {0})
copy_byte target source index s =
    ok tt (record s { byte = update s.byte (target + index) (s.byte (source + index)) })

-- The loop of a transfer, from `index` on, with `left` bytes to go.
unfoldable pub copy_loop : (left target source index : ℕ) → Cmd Machine (Unit {0})
copy_loop zero target source index = pure tt
copy_loop (suc left) target source index = do
  copy_byte target source index
  copy_loop left target source (index + 1)

-- `(ramdisk_size_pages * PAGE_SIZE) / block_size`; a division by zero is a fault.
abbrev pub block_limit : Ramdisk → Cmd Machine ℕ
block_limit r s =
    if r.block_size == 0
    then fault
    else ok (u64 (r.ramdisk_size_pages * page_size) / r.block_size) s

abbrev pub block_address : Ramdisk → (block offset : ℕ) → ℕ
block_address r block offset = u64 (r.ramdisk_start + block * r.block_size + offset)

unfoldable pub ramdisk_read :
    (buffer block offset read_size buffer_size ramdisk_id : ℕ) → Cmd Machine ℕ
ramdisk_read buffer block offset read_size buffer_size ramdisk_id =
    if ltb ramdisk_count ramdisk_id then pure id_out_of_range else do
      r ← get_ramdisk ramdisk_id
      if ltb r.block_size offset
          then pure offset_out_of_range
          else if ltb buffer_size read_size
          then pure read_size_out_of_bounds
          else (do
            limit ← block_limit r
            if ltb limit block then pure block_out_of_range else (do
              copy_loop read_size buffer (block_address r block offset) 0
              pure kern_success))

-- The loop that means to write a buffer again and again. It counts every byte twice.
unfoldable pub repeat_loop :
    (fuel target source index transferred write_size buffer_size : ℕ) → Cmd Machine (Unit {0})
repeat_loop zero target source index transferred write_size buffer_size = λ _. Run.hang
repeat_loop (suc k) target source index transferred write_size buffer_size =
    if ltb transferred write_size
    then (do
      copy_byte target source index
      repeat_loop k target source ((if index == buffer_size then 0 else index) + 1)
          (transferred + 2) write_size buffer_size)
    else pure tt

-- `write_size > buffer_size && write_size % buffer_size == 0`
abbrev pub is_repeat : (write_size buffer_size : ℕ) → Cmd Machine Bool
is_repeat write_size buffer_size s =
    if ltb buffer_size write_size
    then (if buffer_size == 0 then fault else ok (write_size % buffer_size == 0) s)
    else ok false s

unfoldable pub ramdisk_write :
    (buffer block offset write_size buffer_size ramdisk_id : ℕ) → Cmd Machine ℕ
ramdisk_write buffer block offset write_size buffer_size ramdisk_id =
    if ltb ramdisk_count ramdisk_id then pure id_out_of_range else do
      r ← get_ramdisk ramdisk_id
      if ltb r.block_size offset then pure offset_out_of_range else (do
        limit ← block_limit r
        if ltb limit block then pure block_out_of_range else (do
          repeated ← is_repeat write_size buffer_size
          if repeated
              then (do
                repeat_loop (write_size + 1) (block_address r block offset) buffer 0 0 write_size
                    buffer_size
                pure kern_success)
              else if ltb buffer_size write_size
              then pure read_size_out_of_bounds
              else (do
                copy_loop write_size (block_address r block offset) buffer 0
                pure kern_success)))

-- `device_info` is the ramdisk of the device; `device_minor` is its number.
unfoldable pub ramdisk_device_ops_read :
    (block_number block_count buffer : ℕ) (device_info : Ramdisk) (device_minor : ℕ) → Cmd Machine ℕ
ramdisk_device_ops_read block_number block_count buffer device_info device_minor =
    ramdisk_read buffer block_number 0 (u64 (block_count * device_info.block_size))
      (page_size * 100) device_minor

unfoldable pub ramdisk_device_ops_write :
    (block_number block_count buffer : ℕ) (device_info : Ramdisk) (device_minor : ℕ) → Cmd Machine ℕ
ramdisk_device_ops_write block_number block_count buffer device_info device_minor =
    ramdisk_write buffer block_number 0 (u64 (block_count * device_info.block_size))
      (page_size * 100) device_minor

-- `memcpy` of the kernel copies upwards, byte by byte.
unfoldable pub ramdisk_mkfs : (filesystem_image size_bytes ramdisk_id : ℕ) → Cmd Machine ℕ
ramdisk_mkfs filesystem_image size_bytes ramdisk_id =
    if ltb ramdisk_count ramdisk_id then pure id_out_of_range else do
      r ← get_ramdisk ramdisk_id
      if ltb (size_bytes / page_size) r.ramdisk_size_pages
          then pure size_too_small
          else (do copy_loop size_bytes r.ramdisk_start filesystem_image 0; pure kern_success)

-- The heap is not part of the state: `kfree` is left out.
unfoldable pub ramdisk_destroy : (ramdisk_id : ℕ) → Cmd Machine (Unit {0})
ramdisk_destroy ramdisk_id = if ltb ramdisk_count ramdisk_id then pure tt else do
  r ← get_ramdisk ramdisk_id
  put_ramdisk ramdisk_id (record r { ramdisk_start = 0; ramdisk_size_pages = 0; ramdisk_end = 0 })

-- A module of the boot loader: its address, its size, and the block size in its superblock.
pub record Image : Type 0 where
  pub address : ℕ
  pub size : ℕ
  pub sb_block_size : ℕ

abbrev pub sized : (start size block_size name : ℕ) → Ramdisk
sized start size block_size name = record {
  ramdisk_start = start;
  ramdisk_size_pages = size / page_size + 1;
  ramdisk_end = u64 (start + (size / page_size + 1) * page_size);
  block_size = block_size;
  ramdisk_name = name;
}

unfoldable pub ramdisk_disk_image_init : Image → (ramdisk_id name : ℕ) → Cmd Machine (Unit {0})
ramdisk_disk_image_init image ramdisk_id name =
    put_ramdisk ramdisk_id (sized image.address image.size image.sb_block_size name)

-- `fresh` is what `kmalloc` returns. The name of a ramdisk is an opaque value.
unfoldable pub ramdisk_init :
    Option Image → (fresh size_bytes ramdisk_id name block_size : ℕ) → Cmd Machine (Unit {0})
unfolding ramdisk_disk_image_init
ramdisk_init none fresh size_bytes ramdisk_id name block_size =
    if ltb ramdisk_count ramdisk_id
    then pure tt
    else put_ramdisk ramdisk_id
        (sized fresh (if size_bytes == 0 then default_ramdisk_size else size_bytes) block_size name)
ramdisk_init (some image) fresh size_bytes ramdisk_id name block_size =
    if ltb ramdisk_count ramdisk_id then pure tt else ramdisk_disk_image_init image ramdisk_id name
