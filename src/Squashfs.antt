-- ===== src/Squashfs.antt =====
-- pkg/squashfs: the superblock of an image.
pub mod Flags
pub mod Superblock
