-- ===== src/Squashfs/Flags.antt =====
-- The flags of pkg/squashfs/superblock.go, as booleans and as two bytes.
pub mod Laws
use Prim.Native.Nat.{bit_and, bit_or}
use atomfs.Base.{ℕ, ◌+◌, Bool, true, false, ◌&&◌, List, ◌==◌, if◌then◌else◌, not, length}
use atomfs.Text.{Bytes}
use atomfs.Wire.{get_le, put_le}
use atomfs.System.{Result, ok, err, bad_length}

pub record SuperblockFlags : Type 0 where
  pub uncompressed_inodes : Bool
  pub uncompressed_data : Bool
  pub uncompressed_fragments : Bool
  pub no_fragments : Bool
  pub always_fragments : Bool
  pub dedup : Bool
  pub exportable : Bool
  pub uncompressed_xattrs : Bool
  pub no_xattrs : Bool
  pub compressor_options : Bool
  pub uncompressed_ids : Bool

abbrev pub same_bool : Bool → Bool → Bool
same_bool true b = b
same_bool false b = not b

abbrev pub same_flags : SuperblockFlags → SuperblockFlags → Bool
same_flags s a =
    same_bool s.uncompressed_inodes a.uncompressed_inodes
    && same_bool s.uncompressed_data a.uncompressed_data
    && same_bool s.uncompressed_fragments a.uncompressed_fragments
    && same_bool s.no_fragments a.no_fragments
    && same_bool s.always_fragments a.always_fragments
    && same_bool s.dedup a.dedup
    && same_bool s.exportable a.exportable
    && same_bool s.uncompressed_xattrs a.uncompressed_xattrs
    && same_bool s.no_xattrs a.no_xattrs
    && same_bool s.compressor_options a.compressor_options
    && same_bool s.uncompressed_ids a.uncompressed_ids

-- `if set { flags |= mask }`
abbrev pub set_if : Bool → ℕ → ℕ → ℕ
set_if b mask flags = if b then bit_or flags mask else flags

unfoldable pub flag_bits : SuperblockFlags → ℕ
flag_bits s = set_if s.uncompressed_ids 0x0800 (
    set_if s.compressor_options 0x0400 (
      set_if s.no_xattrs 0x0200 (
        set_if s.uncompressed_xattrs 0x0100 (
          set_if s.exportable 0x0080 (
            set_if s.dedup 0x0040 (
              set_if s.always_fragments 0x0020 (
                set_if s.no_fragments 0x0010 (
                  set_if s.uncompressed_fragments 0x0008 (
                    set_if s.uncompressed_data 0x0002
                      (set_if s.uncompressed_inodes 0x0001 0))))))))))

-- `superblockFlags.bytes`
unfoldable pub flag_bytes : SuperblockFlags → Bytes
flag_bytes s = put_le 2 (flag_bits s)

abbrev pub has_flag : ℕ → ℕ → Bool
has_flag flags mask = bit_and flags mask == mask

unfoldable pub flags_of : ℕ → SuperblockFlags
flags_of flags = record {
  uncompressed_inodes = has_flag flags 0x0001;
  uncompressed_data = has_flag flags 0x0002;
  uncompressed_fragments = has_flag flags 0x0008;
  no_fragments = has_flag flags 0x0010;
  always_fragments = has_flag flags 0x0020;
  dedup = has_flag flags 0x0040;
  exportable = has_flag flags 0x0080;
  uncompressed_xattrs = has_flag flags 0x0100;
  no_xattrs = has_flag flags 0x0200;
  compressor_options = has_flag flags 0x0400;
  uncompressed_ids = has_flag flags 0x0800;
}

unfoldable pub parse_flags : Bytes → Result SuperblockFlags
parse_flags b = if not (length b == 2) then err bad_length else ok (flags_of (get_le b))
