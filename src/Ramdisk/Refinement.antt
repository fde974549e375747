-- ===== src/Ramdisk/Refinement.antt =====
-- The ramdisk driver behind `block_device_ops`, and the file system's model of a device.
use dionys_os.Prelude.{
  ℕ, ◌+◌, ◌*◌, ◌/◌, ◌^◌, ◌<◌, ◌≤◌, ◌≡◌, ◌≢◌, inl, inr, ltb, arith, ok, ap, ◌∙◌, Bool-cases, fun_ext,
  subst, sym,
}
use dionys_os.Ramdisk.{
  Machine, Ramdisk, ramdisk_read, ramdisk_write, block_address, page_size, u64, kern_success,
  ramdisk_device_ops_read, ramdisk_device_ops_write, block_out_of_range, read_size_out_of_bounds,
}
use dionys_os.Ramdisk.Copying.{Apart, copied}
use dionys_os.Ramdisk.Transfer.{InLimit, ramdisk_read-copied, ramdisk_write-copied}
use dionys_os.Diosfs.Device.{
  Device, Buffer, Status, success, block_read, block_write, max_transfer, copy_in, copy_out,
}
use dionys_os.Diosfs.Device as Dev

-- The device that a ramdisk of 1024-byte blocks stands for.
abbrev pub device_of : Ramdisk → (ℕ → ℕ) → Device
device_of r byte = record {
  byte = λ i. byte (r.ramdisk_start + i);
  last_block = r.ramdisk_size_pages * page_size / 1024;
}

-- The bytes from an address on.
abbrev pub bytes_at : ℕ → (ℕ → ℕ) → Buffer
bytes_at buffer byte i = byte (buffer + i)

abbrev pub code : Status → ℕ
code success = kern_success
code Dev.read_size_out_of_bounds = read_size_out_of_bounds
code Dev.block_out_of_range = block_out_of_range

module _ (block count buffer id : ℕ) (s : Machine) (id_ok : id < 5)
    (b : (s.ramdisk id).block_size ≡ 1024)
    (w : (s.ramdisk id).ramdisk_start + (s.ramdisk id).ramdisk_size_pages * page_size
      < 2 ^ 64) where
  abbrev r : Ramdisk
  r = s.ramdisk id

  -- The largest block number that the driver lets through.
  abbrev limit : ℕ
  limit = r.ramdisk_size_pages * page_size / 1024

  abbrev bytes : ℕ
  bytes = count * 1024

  abbrev from : ℕ
  from = r.ramdisk_start + block * 1024

  bytes-u64 : bytes < 2 ^ 64 → u64 (count * r.block_size) ≡ bytes
  bytes-u64 c = ap (λ k. u64 (count * k)) b ∙ omega arith

  limit-div : u64 (r.ramdisk_size_pages * page_size) / r.block_size ≡ limit
  limit-div = ap (λ k. u64 (r.ramdisk_size_pages * page_size) / k) b ∙ omega arith

  from-block_address : block ≤ limit → block_address r block 0 ≡ from
  from-block_address h = ap (λ k. u64 (r.ramdisk_start + block * k + 0)) b ∙ omega arith

  nonzero : r.block_size ≢ 0
  nonzero = omega arith

  InLimit-limit : block ≤ limit → InLimit r block
  InLimit-limit h = subst (λ k. block ≤ k) (sym limit-div) h

  read-big :
      max_transfer < bytes
      → ramdisk_read buffer block 0 bytes (page_size * 100) id s ≡ ok read_size_out_of_bounds s
  unfolding ramdisk_read
  read-big h = ground arith

  read-far :
      bytes ≤ max_transfer
      → limit < block
      → ramdisk_read buffer block 0 bytes (page_size * 100) id s ≡ ok block_out_of_range s
  unfolding ramdisk_read
  read-far h far = ground (arith, limit-div, nonzero)

  read-near :
      bytes ≤ max_transfer
      → block ≤ limit
      → Apart bytes buffer from
      → ramdisk_read buffer block 0 bytes (page_size * 100) id s
        ≡ ok kern_success (record s { byte = copied 0 bytes buffer from s.byte })
  read-near h near apart =
      subst
        (λ a.
          Apart bytes buffer a
          → ramdisk_read buffer block 0 bytes (page_size * 100) id s
            ≡ ok kern_success (record s { byte = copied 0 bytes buffer a s.byte }))
        (from-block_address near)
        (ramdisk_read-copied buffer block 0 bytes (page_size * 100) id s id_ok nonzero (omega arith)
          h (InLimit-limit near))
        apart

  write-far :
      limit < block
      → ramdisk_write buffer block 0 bytes (page_size * 100) id s ≡ ok block_out_of_range s
  unfolding ramdisk_write
  write-far far = ground (arith, limit-div, nonzero)

  write-near :
      bytes ≤ max_transfer
      → block ≤ limit
      → Apart bytes from buffer
      → ramdisk_write buffer block 0 bytes (page_size * 100) id s
        ≡ ok kern_success (record s { byte = copied 0 bytes from buffer s.byte })
  write-near h near apart =
      subst
        (λ a.
          Apart bytes a buffer
          → ramdisk_write buffer block 0 bytes (page_size * 100) id s
            ≡ ok kern_success (record s { byte = copied 0 bytes a buffer s.byte }))
        (from-block_address near)
        (ramdisk_write-copied buffer block 0 bytes (page_size * 100) id s id_ok nonzero
          (omega arith) h (InLimit-limit near))
        apart

  -- For a ramdisk in the table with blocks of 1024 bytes, whose addresses and whose transfer size
  -- do not wrap around, and a buffer apart from the bytes read, the driver's read returns the
  -- status, and leaves the buffer, that the file system's model of a device gives.
  pub ramdisk_device_ops_read-refines :
      count * 1024 < 2 ^ 64
      → Apart (count * 1024) buffer (r.ramdisk_start + block * 1024)
      → (s' : Machine) × (ramdisk_device_ops_read block count buffer r id s
          ≡ ok (code (block_read block count (bytes_at buffer s.byte) (device_of r s.byte)).0) s')
        × (bytes_at buffer s'.byte
            ≡ (block_read block count (bytes_at buffer s.byte) (device_of r s.byte)).1)
  unfolding ramdisk_device_ops_read block_read
  ramdisk_device_ops_read-refines c apart =
      let e = ap (λ z. ramdisk_read buffer block 0 z (page_size * 100) id s) (bytes-u64 c) in
      elim (Bool-cases (ltb max_transfer bytes)) [
        | inl big ↦
            (s, e ∙ read-big (ground (arith, big)) ∙ ground (arith, big), ground (arith, big))
        | inr fits ↦ elim (Bool-cases (ltb limit block)) [
          | inl far ↦ (
            s,
            e ∙ read-far (ground (arith, fits)) (ground (arith, far)) ∙ ground (arith, fits, far),
            ground (arith, fits, far),
          )
          | inr near ↦ (
            record s { byte = copied 0 bytes buffer from s.byte },
            e
                ∙ read-near (ground (arith, fits)) (ground (arith, near)) apart
                ∙ ground (arith, fits, near),
            fun_ext λ i. ground (arith, fits, near),
          )
        ]
      ]

  view-copied :
      bytes_at r.ramdisk_start (copied 0 bytes from buffer s.byte)
      ≡ copy_out (bytes_at r.ramdisk_start s.byte) (block * 1024) bytes (bytes_at buffer s.byte)
  view-copied = fun_ext λ i. ground arith

  -- For a ramdisk in the table with blocks of 1024 bytes, whose addresses do not wrap around, at
  -- most 400 blocks, and a buffer apart from the bytes written, the driver's write returns the
  -- status, and leaves the device, that the file system's model of a device gives.
  pub ramdisk_device_ops_write-refines :
      count ≤ 400
      → Apart (count * 1024) (r.ramdisk_start + block * 1024) buffer
      → (s' : Machine) × (ramdisk_device_ops_write block count buffer r id s
          ≡ ok (code (block_write block count (bytes_at buffer s.byte) (device_of r s.byte)).0) s')
        × (device_of r s'.byte
            ≡ (block_write block count (bytes_at buffer s.byte) (device_of r s.byte)).1)
  unfolding ramdisk_device_ops_write block_write
  ramdisk_device_ops_write-refines c apart =
      let e =
        ap (λ z. ramdisk_write buffer block 0 z (page_size * 100) id s) (bytes-u64 (omega arith)) in
      elim (Bool-cases (ltb limit block)) [
        | inl far ↦
            (s, e ∙ write-far (ground (arith, far)) ∙ ground (arith, far), ground (arith, far))
        | inr near ↦ (
          record s { byte = copied 0 bytes from buffer s.byte },
          e ∙ write-near (omega arith) (ground (arith, near)) apart ∙ ground (arith, near),
          ap (λ (x : Buffer). record (device_of r s.byte) { byte = x }) view-copied
              ∙ ground (arith, near),
        )
      ]
