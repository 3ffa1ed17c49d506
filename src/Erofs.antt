-- ===== src/Erofs.antt =====
-- pkg/erofs: the superblock of an image.
pub mod Crc
pub mod Superblock
