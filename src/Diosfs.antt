-- ===== src/Diosfs.antt =====
-- kernel/src/filesystem/diosfs.c
pub mod Index
pub mod Device
pub mod Resolve
pub mod Bitmap
pub mod InodeTable
pub mod Content
