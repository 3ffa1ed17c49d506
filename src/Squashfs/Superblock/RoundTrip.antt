-- ===== src/Squashfs/Superblock/RoundTrip.antt =====
-- A superblock that is written is read back.
use atomfs.Base.{
  ℕ, ◌^◌, ◌%◌, ◌/◌, ◌<◌, ◌≤◌, ◌≡◌, refl, ap, sym, ◌∙◌, ==_iff, zero, suc, arith, length,
}
use native.Mathlib.Nat.{mod-eq_of_lt}
use atomfs.Text.{Bytes}
use atomfs.Wire.{get_le, put_le, slice}
use atomfs.Wire.Laws.{get_le-put_le}
use atomfs.System.{ok}
use atomfs.Squashfs.Flags.{SuperblockFlags, parse_flags, flag_bytes}
use atomfs.Squashfs.Flags.Laws.{parse_flags-flag_bytes}
use atomfs.Squashfs.Superblock.{
  Superblock, InodeRef, superblock_magic, superblock_size, to_uint64, parse_root_inode, block_log,
  log2, to_bytes, fields_of, parse_superblock,
}

-- Each field fits the type that it has in the code, and so does the time.
pub record IsInRange (s : Superblock) : Type 0 where
  pub inodes : s.inodes < 2 ^ 32
  pub mod_time : s.mod_time < 2 ^ 32
  pub blocksize : s.blocksize < 2 ^ 32
  pub fragment_count : s.fragment_count < 2 ^ 32
  pub compression : s.compression < 2 ^ 16
  pub id_count : s.id_count < 2 ^ 16
  pub block : s.root_inode.block < 2 ^ 32
  pub offset : s.root_inode.offset < 2 ^ 16
  pub size : s.size < 2 ^ 64
  pub id_table_start : s.id_table_start < 2 ^ 64
  pub xattr_table_start : s.xattr_table_start < 2 ^ 64
  pub inode_table_start : s.inode_table_start < 2 ^ 64
  pub directory_table_start : s.directory_table_start < 2 ^ 64
  pub fragment_table_start : s.fragment_table_start < 2 ^ 64
  pub export_table_start : s.export_table_start < 2 ^ 64

pub parse_root_inode-to_uint64 :
    (i : InodeRef)
    → i.block < 2 ^ 32
    → i.offset < 2 ^ 16
    → (parse_root_inode (to_uint64 i) ≡ i) × (to_uint64 i < 2 ^ 64)
unfolding parse_root_inode to_uint64
parse_root_inode-to_uint64 i b o = (ground arith, omega arith)

module _ (m : ℕ) where
  -- The tests of the parser, one premise for each.
  parse_superblock-ok :
      (b : Bytes) (flags : SuperblockFlags)
      → length b ≡ superblock_size
      → get_le (slice 0 4 b) ≡ superblock_magic
      → get_le (slice 28 30 b) ≡ 4
      → get_le (slice 30 32 b) ≡ 0
      → block_log m (get_le (slice 12 16 b)) ≡ get_le (slice 22 24 b)
      → parse_flags (slice 24 26 b) ≡ ok flags
      → parse_superblock m b ≡ ok (fields_of b flags)
  unfolding parse_superblock
  parse_superblock-ok b flags l g v w e f =
      rw (l, g, v, w, ← e, f)
        (rw (
          (==_iff (block_log m (get_le (slice 12 16 b))) (block_log m (get_le (slice 12 16 b)))).1
            refl))

log2-le : (fuel n : ℕ) → log2 fuel n ≤ fuel
unfolding log2
log2-le zero n = omega arith
log2-le (suc fuel) n = ground (arith, log2-le fuel (n / 2))

block_log-lt : (m n : ℕ) → m < 2 ^ 16 → block_log m n < 2 ^ 16
unfolding block_log
block_log-lt m n h = ground (arith, log2-le 32 n)

module _ (m : ℕ) (s : Superblock) (m_fits : m < 2 ^ 16) (h : IsInRange s) where
  fields_of-to_bytes :
      fields_of (to_bytes m s) s.flags ≡ record s { version_major = 4; version_minor = 0 }
  unfolding to_bytes get_le put_le flag_bytes
  fields_of-to_bytes = λ i. record {
    inodes = get_le-put_le 4 s.inodes h.inodes i;
    mod_time = (get_le-put_le 4 (s.mod_time % 2 ^ 32) (omega arith) ∙ mod-eq_of_lt h.mod_time) i;
    blocksize = get_le-put_le 4 s.blocksize h.blocksize i;
    fragment_count = get_le-put_le 4 s.fragment_count h.fragment_count i;
    compression = get_le-put_le 2 s.compression h.compression i;
    id_count = get_le-put_le 2 s.id_count h.id_count i;
    version_major = 4;
    version_minor = 0;
    root_inode = root_back i;
    size = get_le-put_le 8 s.size h.size i;
    id_table_start = get_le-put_le 8 s.id_table_start h.id_table_start i;
    xattr_table_start = get_le-put_le 8 s.xattr_table_start h.xattr_table_start i;
    inode_table_start = get_le-put_le 8 s.inode_table_start h.inode_table_start i;
    directory_table_start = get_le-put_le 8 s.directory_table_start h.directory_table_start i;
    fragment_table_start = get_le-put_le 8 s.fragment_table_start h.fragment_table_start i;
    export_table_start = get_le-put_le 8 s.export_table_start h.export_table_start i;
    flags = s.flags;
  }
    where
      root_back : parse_root_inode (get_le (put_le 8 (to_uint64 s.root_inode))) ≡ s.root_inode
      root_back =
          rw
            (get_le-put_le 8 (to_uint64 s.root_inode)
              (parse_root_inode-to_uint64 s.root_inode h.block h.offset).1)
            (parse_root_inode-to_uint64 s.root_inode h.block h.offset).0

  log_back : block_log m (get_le (slice 12 16 (to_bytes m s))) ≡ get_le (slice 22 24 (to_bytes m s))
  unfolding to_bytes get_le put_le flag_bytes
  log_back =
      ap (block_log m) (get_le-put_le 4 s.blocksize h.blocksize)
      ∙ sym (get_le-put_le 2 (block_log m s.blocksize) (block_log-lt m s.blocksize m_fits))

  length-to_bytes : length (to_bytes m s) ≡ superblock_size
  unfolding to_bytes put_le flag_bytes
  length-to_bytes = refl

  fixed_fields :
      (get_le (slice 0 4 (to_bytes m s)) ≡ superblock_magic)
      × (get_le (slice 28 30 (to_bytes m s)) ≡ 4)
      × (get_le (slice 30 32 (to_bytes m s)) ≡ 0)
  unfolding to_bytes get_le put_le flag_bytes
  fixed_fields = (refl, refl, refl)

  flags_field : slice 24 26 (to_bytes m s) ≡ flag_bytes s.flags
  unfolding to_bytes put_le flag_bytes
  flags_field = refl

  -- Of a superblock whose fields fit their types, the bytes are read back as that superblock with
  -- the supported version.
  pub parse_superblock-to_bytes :
      parse_superblock m (to_bytes m s) ≡ ok (record s { version_major = 4; version_minor = 0 })
  parse_superblock-to_bytes =
      let (g, v, w) = fixed_fields in
      parse_superblock-ok m (to_bytes m s) s.flags length-to_bytes g v w log_back
        (rw flags_field (parse_flags-flag_bytes s.flags))
      ∙ ap ok fields_of-to_bytes
