-- ===== src/Tests/Formats.antt =====
-- The superblocks.
use Prim.Native.Nat.{bit_and}
use atomfs.Base.{
  ◌≡◌, ◌-◌, ◌%◌, ◌^◌, ◌↔◌, true, false, [], ◌∷◌, ◌++◌, arith, replicate, length, drop,
}
use atomfs.Text.{Bytes}
use atomfs.System.{ok, panic}
use atomfs.Squashfs.Flags.{SuperblockFlags}
use atomfs.Squashfs.Superblock as Squash
use atomfs.Squashfs.Superblock.RoundTrip.{IsInRange, parse_superblock-to_bytes}
use atomfs.Erofs.Crc.{crc_run}
use atomfs.Erofs.Superblock as Erofs
use atomfs.Erofs.Superblock.Checks.{
  IsLaidOut, number_at, parse_superblock_iff, verify_checksum_iff, huge_block_panics,
}

abbrev flags : SuperblockFlags
flags = record {
  uncompressed_inodes = false;
  uncompressed_data = false;
  uncompressed_fragments = false;
  no_fragments = true;
  always_fragments = false;
  dedup = true;
  exportable = true;
  uncompressed_xattrs = false;
  no_xattrs = false;
  compressor_options = true;
  uncompressed_ids = false;
}

abbrev squash : Squash.Superblock
squash = record {
  inodes = 12;
  mod_time = 1700000000;
  blocksize = 131072;
  fragment_count = 1;
  compression = 6;
  id_count = 1;
  version_major = 4;
  version_minor = 0;
  root_inode = record { block = 70; offset = 32 };
  size = 5000;
  id_table_start = 4900;
  xattr_table_start = 4950;
  inode_table_start = 4000;
  directory_table_start = 4200;
  fragment_table_start = 4400;
  export_table_start = 4600;
  flags = flags;
}

squash-IsInRange : IsInRange squash
squash-IsInRange = record {
  inodes = omega arith;
  mod_time = omega arith;
  blocksize = omega arith;
  fragment_count = omega arith;
  compression = omega arith;
  id_count = omega arith;
  block = omega arith;
  offset = omega arith;
  size = omega arith;
  id_table_start = omega arith;
  xattr_table_start = omega arith;
  inode_table_start = omega arith;
  directory_table_start = omega arith;
  fragment_table_start = omega arith;
  export_table_start = omega arith;
}

parse_superblock-to_bytes_example :
    Squash.parse_superblock 0 (Squash.to_bytes 0 squash)
    ≡ ok (record squash { version_major = 4; version_minor = 0 })
parse_superblock-to_bytes_example =
    parse_superblock-to_bytes 0 squash (omega arith) squash-IsInRange

-- A superblock with a checksum, whose block size has 64 bits.
abbrev erofs : Erofs.Superblock
erofs = record {
  magic = 0xe0f5e1e2;
  checksum = 0;
  feature_compat = 1;
  block_size_bits = 64;
  ext_slots = 0;
  root_nid = 0;
  inodes = 1;
  build_time = 0;
  build_time_nsec = 0;
  blocks = 1;
  meta_block_addr = 0;
  xattr_block_addr = 0;
  uuid = [];
  volume_name = [];
  feature_incompat = 0;
  union1 = 0;
  extra_devices = 0;
  dev_table_slot_off = 0;
  reserved = [];
}

-- The 128 bytes of a superblock without features and with blocks of 4096 bytes.
abbrev raw : Bytes
raw = 0xe2 ∷ 0xe1 ∷ 0xf5 ∷ 0xe0 ∷ (replicate 8 0 ++ (12 ∷ replicate 115 0))

parse_superblock_iff_example : (Erofs.parse_superblock 4096 raw ≡ ok (Erofs.fields_of raw)) ↔ (
    (length raw ≡ 128)
    × IsLaidOut raw (Erofs.fields_of raw)
    × (number_at 0 4 raw ≡ Erofs.superblock_magic)
    × (bit_and (number_at 80 4 raw) (2 ^ 32 - 1) ≡ 0)
    × (Erofs.one_shifted (number_at 12 1 raw) % 4096 ≡ 0))
parse_superblock_iff_example = parse_superblock_iff 4096 raw (Erofs.fields_of raw)

abbrev block : Bytes
block = replicate 1152 0

verify_checksum_iff_example :
    (Erofs.verify_checksum erofs block ≡ ok tt)
    ↔ (crc_run (2 ^ 32 - 1) (drop 1024 (Erofs.zeroed block)) ≡ erofs.checksum)
verify_checksum_iff_example =
    verify_checksum_iff erofs block (λ e. absurd (omega (arith, e))) (omega arith)

huge_block_panics_example :
    (Erofs.one_shifted 64 % 4096 ≡ 0)
    × (Erofs.read_block block 65536 (Erofs.one_shifted 64) ≡ ok [])
    × (Erofs.verify_checksum erofs [] ≡ panic)
huge_block_panics_example =
    huge_block_panics 4096 65536 erofs block (omega arith) (λ e. absurd (omega (arith, e)))
