-- ===== src/Erofs/Superblock.antt =====
-- pkg/erofs/superblock.go and pkg/erofs/verity.go.
pub mod Checks
use Prim.Native.Nat.{bit_and}
use atomfs.Base.{
  ℕ, zero, suc, ◌+◌, ◌-◌, ◌*◌, ◌/◌, ◌%◌, ◌^◌, Bool, true, false, not, ◌||◌, List, [], ◌∷◌, ◌++◌,
  ◌==◌, leb, ltb, if◌then◌else◌, length, take, drop,
}
use atomfs.Text.{Bytes}
use atomfs.Wire.{get_le, slice, overwrite}
use atomfs.System.{
  Result, ok, err, panic, bad_length, bad_magic, unsupported_features, unsupported_block_size,
  bad_checksum, short_read, Exec, pure, crash, lift, known, ◌>>=◌, ◌>>◌, ask_text, read_file,
}
use atomfs.Erofs.Crc.{crc_update, crc_checksum, not32}

abbrev pub superblock_magic : ℕ
superblock_magic = 0xe0f5e1e2

abbrev pub superblock_offset : ℕ
superblock_offset = 1024

abbrev pub superblock_size : ℕ
superblock_size = 128

abbrev pub feature_compat_checksum : ℕ
feature_compat_checksum = 1

abbrev pub feature_incompat_supported : ℕ
feature_incompat_supported = 0

pub record Superblock : Type 0 where
  pub magic : ℕ
  pub checksum : ℕ
  pub feature_compat : ℕ
  pub block_size_bits : ℕ
  pub ext_slots : ℕ
  pub root_nid : ℕ
  pub inodes : ℕ
  pub build_time : ℕ
  pub build_time_nsec : ℕ
  pub blocks : ℕ
  pub meta_block_addr : ℕ
  pub xattr_block_addr : ℕ
  pub uuid : Bytes
  pub volume_name : Bytes
  pub feature_incompat : ℕ
  pub union1 : ℕ
  pub extra_devices : ℕ
  pub dev_table_slot_off : ℕ
  pub reserved : Bytes

-- `1 << n` on a 64-bit integer, as a bit pattern.
unfoldable pub one_shifted : ℕ → ℕ
one_shifted n = if ltb n 64 then 2 ^ n else 0

-- The record that `parseSuperblock` fills.
abbrev pub fields_of : Bytes → Superblock
fields_of b = record {
  magic = get_le (slice 0 4 b);
  checksum = get_le (slice 4 8 b);
  feature_compat = get_le (slice 8 12 b);
  block_size_bits = get_le (slice 12 13 b);
  ext_slots = get_le (slice 13 14 b);
  root_nid = get_le (slice 14 16 b);
  inodes = get_le (slice 16 24 b);
  build_time = get_le (slice 24 32 b);
  build_time_nsec = get_le (slice 32 36 b);
  blocks = get_le (slice 36 40 b);
  meta_block_addr = get_le (slice 40 44 b);
  xattr_block_addr = get_le (slice 44 48 b);
  uuid = slice 48 64 b;
  volume_name = slice 64 80 b;
  feature_incompat = get_le (slice 80 84 b);
  union1 = get_le (slice 84 86 b);
  extra_devices = get_le (slice 86 88 b);
  dev_table_slot_off = get_le (slice 88 90 b);
  reserved = slice 90 128 b;
}

-- The tests behind the magic number; `page_size` is `os.Getpagesize()`. Of the mask
-- `^FeatureIncompatSupported` every bit is set.
unfoldable pub check_fields : ℕ → Superblock → Result Superblock
check_fields page_size sb =
    if not (bit_and sb.feature_incompat (2 ^ 32 - 1 - feature_incompat_supported) == 0)
    then err unsupported_features
    else if not (one_shifted sb.block_size_bits % page_size == 0)
    then err unsupported_block_size
    else ok sb

unfoldable pub parse_superblock : ℕ → Bytes → Result Superblock
parse_superblock page_size b =
    if not (length b == superblock_size)
    then err bad_length
    else if not (get_le (slice 0 4 b) == superblock_magic)
    then err bad_magic
    else check_fields page_size (fields_of b)

-- The block with the field of the checksum set to zero.
abbrev pub zeroed : Bytes → Bytes
zeroed block = overwrite 1028 (0 ∷ 0 ∷ 0 ∷ 0 ∷ []) block

unfoldable pub computed_checksum : Bytes → ℕ
computed_checksum block = not32 (
    crc_update
      (crc_checksum (slice superblock_offset (superblock_offset + superblock_size) (zeroed block)))
      (drop (superblock_offset + superblock_size) (zeroed block)))

-- `verifyChecksum` writes and slices the block without a look at its length: a block that ends
-- before the superblock does is a panic.
unfoldable pub verify_checksum : Superblock → Bytes → Result (Unit {0})
verify_checksum sb block =
    if bit_and sb.feature_compat feature_compat_checksum == 0
    then ok tt
    else if ltb (length block) (superblock_offset + superblock_size)
    then panic
    else if computed_checksum block == sb.checksum
    then ok tt
    else err bad_checksum

-- The bytes of one block: `make` panics if the length is negative or more than it grants.
unfoldable pub read_block : Bytes → ℕ → ℕ → Result Bytes
read_block content max_slice len =
    if ltb max_slice len
    then panic
    else if ltb (length content) len
    then err short_read
    else ok (take len content)

-- `readSuperblock`: the superblock, and then the whole block for its checksum.
unfoldable pub read_superblock : Bytes → Exec Superblock
read_superblock path = do
  start ← ask_text (read_file path)
  page_size ← known (λ k. k.page_size)
  max_slice ← known (λ k. k.max_slice)
  sb ← lift (
      if ltb (length start) (superblock_offset + superblock_size)
      then err short_read
      else parse_superblock page_size
          (slice superblock_offset (superblock_offset + superblock_size) start))
  content ← ask_text (read_file path)
  block ← lift (read_block content max_slice (one_shifted sb.block_size_bits))
  lift (verify_checksum sb block)
  pure sb

-- `verityDataLocation`, on a `uint64`.
unfoldable pub verity_data_location : Superblock → ℕ
verity_data_location sb = (sb.blocks * one_shifted sb.block_size_bits) % 2 ^ 64
