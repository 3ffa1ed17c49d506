-- ===== src/Squashfs/Superblock.antt =====
-- pkg/squashfs/superblock.go and pkg/squashfs/verity.go.
pub mod RoundTrip
pub mod Bounds
use atomfs.Base.{
  ℕ, zero, suc, ◌+◌, ◌-◌, ◌*◌, ◌/◌, ◌%◌, ◌^◌, Bool, true, false, not, ◌&&◌, ◌||◌, List, [], ◌∷◌,
  ◌==◌, ltb, if◌then◌else◌, length, take, drop, replicate,
}
use atomfs.Text.{Bytes}
use atomfs.Wire.{get_le, put_le, slice, overwrite}
use atomfs.System.{
  Result, ok, err, and_then, bad_length, bad_magic, bad_version, bad_block_log, short_read, Exec,
  pure, lift, ◌>>=◌, ask_text, read_file,
}
use atomfs.Squashfs.Flags.{SuperblockFlags, same_flags, flag_bytes, parse_flags}

abbrev pub superblock_magic : ℕ
superblock_magic = 0x73717368

abbrev pub superblock_size : ℕ
superblock_size = 96

pub record InodeRef : Type 0 where
  pub block : ℕ
  pub offset : ℕ

-- `uint64(block)<<16 | uint64(offset)`: the two parts share no bit.
unfoldable pub to_uint64 : InodeRef → ℕ
to_uint64 i = (i.block * 2 ^ 16) + i.offset

-- The masks keep the low 32 and the low 16 bits.
unfoldable pub parse_root_inode : ℕ → InodeRef
parse_root_inode u = record { block = (u / 2 ^ 16) % 2 ^ 32; offset = u % 2 ^ 16 }

-- `mod_time` counts seconds, as `time.Unix` does.
pub record Superblock : Type 0 where
  pub inodes : ℕ
  pub mod_time : ℕ
  pub blocksize : ℕ
  pub fragment_count : ℕ
  pub compression : ℕ
  pub id_count : ℕ
  pub version_major : ℕ
  pub version_minor : ℕ
  pub root_inode : InodeRef
  pub size : ℕ
  pub id_table_start : ℕ
  pub xattr_table_start : ℕ
  pub inode_table_start : ℕ
  pub directory_table_start : ℕ
  pub fragment_table_start : ℕ
  pub export_table_start : ℕ
  pub flags : SuperblockFlags

-- `superblock.equal`: the time of the last change does not count.
unfoldable pub equal : Superblock → Superblock → Bool
equal s a =
    (s.root_inode.block == a.root_inode.block && s.root_inode.offset == a.root_inode.offset)
    && (s.inodes == a.inodes
        && s.blocksize == a.blocksize
        && s.fragment_count == a.fragment_count
        && s.compression == a.compression
        && s.id_count == a.id_count
        && s.version_major == a.version_major
        && s.version_minor == a.version_minor
        && s.size == a.size
        && s.id_table_start == a.id_table_start
        && s.xattr_table_start == a.xattr_table_start
        && s.inode_table_start == a.inode_table_start
        && s.directory_table_start == a.directory_table_start
        && s.fragment_table_start == a.fragment_table_start
        && s.export_table_start == a.export_table_start
        && same_flags s.flags a.flags)

-- The whole part of the binary logarithm; fuel for the bits of the number.
unfoldable pub log2 : ℕ → ℕ → ℕ
log2 zero n = 0
log2 (suc fuel) n = let rest = log2 fuel (n / 2) in if ltb n 2 then 0 else suc rest

-- The record that `parseSuperblock` fills.
abbrev pub fields_of : Bytes → SuperblockFlags → Superblock
fields_of b flags = record {
  inodes = get_le (slice 4 8 b);
  mod_time = get_le (slice 8 12 b);
  blocksize = get_le (slice 12 16 b);
  fragment_count = get_le (slice 16 20 b);
  compression = get_le (slice 20 22 b);
  id_count = get_le (slice 26 28 b);
  version_major = get_le (slice 28 30 b);
  version_minor = get_le (slice 30 32 b);
  root_inode = parse_root_inode (get_le (slice 32 40 b));
  size = get_le (slice 40 48 b);
  id_table_start = get_le (slice 48 56 b);
  xattr_table_start = get_le (slice 56 64 b);
  inode_table_start = get_le (slice 64 72 b);
  directory_table_start = get_le (slice 72 80 b);
  fragment_table_start = get_le (slice 80 88 b);
  export_table_start = get_le (slice 88 96 b);
  flags = flags;
}

module _ (minus_infinity : ℕ) where
  -- `uint16(math.Log2(float64(n)))` for a `uint32`. A double holds every such number, and no
  -- logarithm of one is so near above its whole part or below the next one that rounding matters.
  -- What the conversion makes of the infinity that stands for 0 depends on the machine.
  unfoldable pub block_log : ℕ → ℕ
  block_log n = if n == 0 then minus_infinity else log2 32 n

  -- `toBytes`: the writes in the order of the code. It writes the supported version.
  unfoldable pub to_bytes : Superblock → Bytes
  to_bytes s = overwrite 88 (put_le 8 s.export_table_start) (
      overwrite 80 (put_le 8 s.fragment_table_start) (
        overwrite 72 (put_le 8 s.directory_table_start) (
          overwrite 64 (put_le 8 s.inode_table_start) (
            overwrite 56 (put_le 8 s.xattr_table_start) (
              overwrite 48 (put_le 8 s.id_table_start) (
                overwrite 40 (put_le 8 s.size) (
                  overwrite 32 (put_le 8 (to_uint64 s.root_inode)) (
                    overwrite 30 (put_le 2 0) (
                      overwrite 28 (put_le 2 4) (
                        overwrite 26 (put_le 2 s.id_count) (
                          overwrite 24 (flag_bytes s.flags) (
                            overwrite 22 (put_le 2 (block_log s.blocksize)) (
                              overwrite 20 (put_le 2 s.compression) (
                                overwrite 16 (put_le 4 s.fragment_count) (
                                  overwrite 12 (put_le 4 s.blocksize) (
                                    overwrite 8 (put_le 4 (s.mod_time % 2 ^ 32)) (
                                      overwrite 4 (put_le 4 s.inodes) (
                                        overwrite 0 (put_le 4 superblock_magic)
                                          (replicate superblock_size 0)))))))))))))))))))

  unfoldable pub parse_superblock : Bytes → Result Superblock
  parse_superblock b =
      if not (length b == superblock_size)
      then err bad_length
      else if not (get_le (slice 0 4 b) == superblock_magic)
      then err bad_magic
      else if not (get_le (slice 28 30 b) == 4) || not (get_le (slice 30 32 b) == 0)
      then err bad_version
      else if not (block_log (get_le (slice 12 16 b)) == get_le (slice 22 24 b))
      then err bad_block_log
      else and_then (parse_flags (slice 24 26 b)) (λ flags. ok (fields_of b flags))

  -- `readSuperblock`: `io.ReadFull` fails on a shorter file.
  unfoldable pub read_superblock : Bytes → Exec Superblock
  read_superblock path = do
    content ← ask_text (read_file path)
    lift (
        if ltb (length content) superblock_size
        then err short_read
        else parse_superblock (take superblock_size content))

-- `verityDataLocation`, on a `uint64`.
unfoldable pub verity_data_location : Superblock → ℕ
verity_data_location s =
    if not (s.size % 4096 == 0) then (s.size + (4096 - s.size % 4096)) % 2 ^ 64 else s.size
