-- ===== src/Examples/Disks.antt =====
-- A ramdisk of four pages at address 10000.
use dionys_os.Prelude.{◌≡◌, arith, refl, ok, inl, inr}
use dionys_os.Diosfs.Device.{block_read, block_write}
use dionys_os.Ramdisk.{Machine, Ramdisk, ramdisk_device_ops_read, ramdisk_device_ops_write}
use dionys_os.Ramdisk.Refinement.{
  device_of, bytes_at, code, ramdisk_device_ops_read-refines, ramdisk_device_ops_write-refines,
}

abbrev disk : Ramdisk
disk = record {
  ramdisk_start = 10000;
  ramdisk_end = 26384;
  ramdisk_size_pages = 4;
  block_size = 1024;
  ramdisk_name = 0;
}

abbrev machine : Machine
machine = record { byte = λ i. i; ramdisk = λ _. disk }

ramdisk_device_ops_read-refines_example :
    (s' : Machine) × (ramdisk_device_ops_read 3 2 100 disk 1 machine
      ≡ ok (code (block_read 3 2 (bytes_at 100 machine.byte) (device_of disk machine.byte)).0) s')
    × (bytes_at 100 s'.byte
        ≡ (block_read 3 2 (bytes_at 100 machine.byte) (device_of disk machine.byte)).1)
ramdisk_device_ops_read-refines_example =
    ramdisk_device_ops_read-refines 3 2 100 1 machine (omega arith) refl (omega arith) (omega arith)
      (inl (omega arith))

ramdisk_device_ops_write-refines_example :
    (s' : Machine) × (ramdisk_device_ops_write 3 2 100 disk 1 machine
      ≡ ok (code (block_write 3 2 (bytes_at 100 machine.byte) (device_of disk machine.byte)).0) s')
    × (device_of disk s'.byte
        ≡ (block_write 3 2 (bytes_at 100 machine.byte) (device_of disk machine.byte)).1)
ramdisk_device_ops_write-refines_example =
    ramdisk_device_ops_write-refines 3 2 100 1 machine (omega arith) refl (omega arith)
      (omega arith) (inr (omega arith))
