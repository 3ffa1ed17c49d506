-- ===== src/Erofs/Superblock/Checks.antt =====
-- What an accepted superblock satisfies, and which ones crash the reader.
use Prim.Native.Nat.{bit_and}
use atomfs.Base.{
  ℕ, zero, suc, ◌-◌, ◌%◌, ◌^◌, ◌≤◌, ◌≡◌, ◌≢◌, ◌↔◌, refl, sym, ap, ==_iff, false, [], ◌==◌, ltb,
  if◌then◌else◌, arith, length, Bool-cases, inl, inr, take-append-drop, drop-drop, drop, take,
}
use atomfs.Text.{Bytes}
use atomfs.Wire.{get_le, slice}
use atomfs.System.{Result, ok, err, panic}
use atomfs.Erofs.Crc.{crc_run, not32-crc_update}
use atomfs.Erofs.Superblock.{
  Superblock, fields_of, one_shifted, check_fields, parse_superblock, computed_checksum,
  verify_checksum, zeroed, superblock_magic, superblock_size, read_block,
}
use atomfs.System.{bad_checksum}

value_or : Superblock → Result Superblock → Superblock
value_or d (ok s) = s
value_or d _ = d

same_value : (s sb : Superblock) → Path (Result Superblock) (ok s) (ok sb) → s ≡ sb
unfolding value_or
same_value s sb e = ap (value_or s) e

check_fields_iff :
    (page_size : ℕ) (s sb : Superblock)
    → (check_fields page_size s ≡ ok sb) ↔ (
        (sb ≡ s)
        × (bit_and s.feature_incompat (2 ^ 32 - 1) ≡ 0)
        × (one_shifted s.block_size_bits % page_size ≡ 0))
unfolding check_fields
check_fields_iff page_size s sb = elim (Bool-cases (bit_and s.feature_incompat (2 ^ 32 - 1) == 0)) [
  | inl e ↦ elim (Bool-cases (one_shifted s.block_size_bits % page_size == 0)) [
    | inl f ↦
        rw (e, f)
          (
            (λ g. (sym (same_value s sb g), (==_iff _ _).0 e, (==_iff _ _).0 f)),
            (λ (g, _, _). ap ok (sym g)),
          )
    | inr f ↦ rw (e, f) ((λ g. absurd (cc g)), (λ (_, _, g). absurd (cc ((==_iff _ _).1 g, f))))
  ]
  | inr e ↦ rw e ((λ g. absurd (cc g)), (λ (_, g, _). absurd (cc ((==_iff _ _).1 g, e))))
]

parse_superblock-tests :
    (page_size : ℕ) (b : Bytes) (sb : Superblock)
    → (parse_superblock page_size b ≡ ok sb) ↔ (
        (length b ≡ superblock_size)
        × (get_le (slice 0 4 b) ≡ superblock_magic)
        × (check_fields page_size (fields_of b) ≡ ok sb))
unfolding parse_superblock
parse_superblock-tests page_size b sb = elim (Bool-cases (length b == superblock_size)) [
  | inl e ↦ elim (Bool-cases (get_le (slice 0 4 b) == superblock_magic)) [
    | inl f ↦ rw (e, f) ((λ g. ((==_iff _ _).0 e, (==_iff _ _).0 f, g)), (λ (_, _, g). g))
    | inr f ↦ rw (e, f) ((λ g. absurd (cc g)), (λ (_, g, _). absurd (cc ((==_iff _ _).1 g, f))))
  ]
  | inr e ↦ rw e ((λ g. absurd (cc g)), (λ (g, _, _). absurd (cc ((==_iff _ _).1 g, e))))
]

-- The bytes at an offset, and the little-endian number there.
abbrev pub bytes_at : ℕ → ℕ → Bytes → Bytes
bytes_at offset width b = take width (drop offset b)

abbrev pub number_at : ℕ → ℕ → Bytes → ℕ
number_at offset width b = get_le (bytes_at offset width b)

-- The superblock of the EROFS format: at which offset each field is, and how wide.
pub record IsLaidOut (b : Bytes) (sb : Superblock) : Type 0 where
  pub magic : sb.magic ≡ number_at 0 4 b
  pub checksum : sb.checksum ≡ number_at 4 4 b
  pub feature_compat : sb.feature_compat ≡ number_at 8 4 b
  pub block_size_bits : sb.block_size_bits ≡ number_at 12 1 b
  pub ext_slots : sb.ext_slots ≡ number_at 13 1 b
  pub root_nid : sb.root_nid ≡ number_at 14 2 b
  pub inodes : sb.inodes ≡ number_at 16 8 b
  pub build_time : sb.build_time ≡ number_at 24 8 b
  pub build_time_nsec : sb.build_time_nsec ≡ number_at 32 4 b
  pub blocks : sb.blocks ≡ number_at 36 4 b
  pub meta_block_addr : sb.meta_block_addr ≡ number_at 40 4 b
  pub xattr_block_addr : sb.xattr_block_addr ≡ number_at 44 4 b
  pub uuid : sb.uuid ≡ bytes_at 48 16 b
  pub volume_name : sb.volume_name ≡ bytes_at 64 16 b
  pub feature_incompat : sb.feature_incompat ≡ number_at 80 4 b
  pub union1 : sb.union1 ≡ number_at 84 2 b
  pub extra_devices : sb.extra_devices ≡ number_at 86 2 b
  pub dev_table_slot_off : sb.dev_table_slot_off ≡ number_at 88 2 b
  pub reserved : sb.reserved ≡ bytes_at 90 38 b

IsLaidOut-fields : (b : Bytes) (sb : Superblock) → IsLaidOut b sb → sb ≡ fields_of b
IsLaidOut-fields b sb l = λ i. record {
  magic = l.magic i;
  checksum = l.checksum i;
  feature_compat = l.feature_compat i;
  block_size_bits = l.block_size_bits i;
  ext_slots = l.ext_slots i;
  root_nid = l.root_nid i;
  inodes = l.inodes i;
  build_time = l.build_time i;
  build_time_nsec = l.build_time_nsec i;
  blocks = l.blocks i;
  meta_block_addr = l.meta_block_addr i;
  xattr_block_addr = l.xattr_block_addr i;
  uuid = l.uuid i;
  volume_name = l.volume_name i;
  feature_incompat = l.feature_incompat i;
  union1 = l.union1 i;
  extra_devices = l.extra_devices i;
  dev_table_slot_off = l.dev_table_slot_off i;
  reserved = l.reserved i;
}

fields-IsLaidOut : (b : Bytes) (sb : Superblock) → sb ≡ fields_of b → IsLaidOut b sb
fields-IsLaidOut b sb e = record {
  magic = ap (λ (s : Superblock). s.magic) e;
  checksum = ap (λ (s : Superblock). s.checksum) e;
  feature_compat = ap (λ (s : Superblock). s.feature_compat) e;
  block_size_bits = ap (λ (s : Superblock). s.block_size_bits) e;
  ext_slots = ap (λ (s : Superblock). s.ext_slots) e;
  root_nid = ap (λ (s : Superblock). s.root_nid) e;
  inodes = ap (λ (s : Superblock). s.inodes) e;
  build_time = ap (λ (s : Superblock). s.build_time) e;
  build_time_nsec = ap (λ (s : Superblock). s.build_time_nsec) e;
  blocks = ap (λ (s : Superblock). s.blocks) e;
  meta_block_addr = ap (λ (s : Superblock). s.meta_block_addr) e;
  xattr_block_addr = ap (λ (s : Superblock). s.xattr_block_addr) e;
  uuid = ap (λ (s : Superblock). s.uuid) e;
  volume_name = ap (λ (s : Superblock). s.volume_name) e;
  feature_incompat = ap (λ (s : Superblock). s.feature_incompat) e;
  union1 = ap (λ (s : Superblock). s.union1) e;
  extra_devices = ap (λ (s : Superblock). s.extra_devices) e;
  dev_table_slot_off = ap (λ (s : Superblock). s.dev_table_slot_off) e;
  reserved = ap (λ (s : Superblock). s.reserved) e;
}

-- The parser accepts exactly 128 bytes with the magic number, no incompatible feature, and a block
-- size that is a multiple of the page size as a 64-bit integer; every field of the result is the one
-- at its offset in the format.
pub parse_superblock_iff :
    (page_size : ℕ) (b : Bytes) (sb : Superblock)
    → (parse_superblock page_size b ≡ ok sb) ↔ (
        (length b ≡ 128)
        × IsLaidOut b sb
        × (number_at 0 4 b ≡ superblock_magic)
        × (bit_and (number_at 80 4 b) (2 ^ 32 - 1) ≡ 0)
        × (one_shifted (number_at 12 1 b) % page_size ≡ 0))
parse_superblock_iff page_size b sb =
    let (p, q) = parse_superblock-tests page_size b sb in
    let (r, s) = check_fields_iff page_size (fields_of b) sb in
    (
      λ e.
          let (l, m, c) = p e in let (same, f, o) = r c in (l, fields-IsLaidOut b sb same, m, f, o),
      λ (l, laid, m, f, o). q (l, m, s (IsLaidOut-fields b sb laid, f, o)),
    )

computed_checksum-run :
    (block : Bytes) → computed_checksum block ≡ crc_run (2 ^ 32 - 1) (drop 1024 (zeroed block))
unfolding computed_checksum
computed_checksum-run block =
    rw (drop-drop 1024 128 (zeroed block), not32-crc_update)
      (rw (take-append-drop 128 (drop 1024 (zeroed block))))

accepts :
    (a b : ℕ)
    → (Path (Result (Unit {0})) (if a == b then ok tt else err bad_checksum) (ok tt)) ↔ (a ≡ b)
accepts a b = elim (Bool-cases (a == b)) [
  | inl e ↦ rw e ((λ _. (==_iff a b).0 e), (λ _. refl))
  | inr e ↦ rw e ((λ g. absurd (cc g)), (λ g. absurd (cc ((==_iff a b).1 g, e))))
]

-- Of a block that holds a superblock with the checksum feature, the test compares the stored number
-- with one run of CRC-32C over the block behind its first 1024 bytes, the stored number zeroed.
pub verify_checksum_iff :
    (sb : Superblock) (block : Bytes)
    → bit_and sb.feature_compat 1 ≢ 0
    → 1152 ≤ length block
    → (verify_checksum sb block ≡ ok tt)
      ↔ (crc_run (2 ^ 32 - 1) (drop 1024 (zeroed block)) ≡ sb.checksum)
unfolding verify_checksum
verify_checksum_iff sb block f l =
    let g : bit_and sb.feature_compat 1 == 0 ≡ false = ground arith in
    let m : ltb (length block) 1152 ≡ false = ground arith in
    rw (g, m, computed_checksum-run block)
      (accepts (crc_run (2 ^ 32 - 1) (drop 1024 (zeroed block))) sb.checksum)

one_shifted_wraps : (n : ℕ) → 64 ≤ n → one_shifted n ≡ 0
unfolding one_shifted
one_shifted_wraps n h = ground arith

zero_mod : (n : ℕ) → 0 % n ≡ 0
zero_mod zero = refl
zero_mod (suc n) = omega arith

-- From 64 bits on the block size wraps to zero and passes the test of the parser, for any page
-- size; with the checksum feature the reader then panics.
pub huge_block_panics :
    (page_size max_slice : ℕ) (sb : Superblock) (content : Bytes)
    → 64 ≤ sb.block_size_bits
    → bit_and sb.feature_compat 1 ≢ 0
    → (one_shifted sb.block_size_bits % page_size ≡ 0)
      × (read_block content max_slice (one_shifted sb.block_size_bits) ≡ ok [])
      × (verify_checksum sb [] ≡ panic)
unfolding verify_checksum read_block
huge_block_panics page_size max_slice sb content h f =
    let wraps : one_shifted sb.block_size_bits ≡ 0 = one_shifted_wraps sb.block_size_bits h in
    let g : bit_and sb.feature_compat 1 == 0 ≡ false = ground arith in
    let none_granted : ltb max_slice 0 ≡ false = ground arith in
    let none_left : ltb (length content) 0 ≡ false = ground arith in
    rw (wraps, g, none_granted, none_left) (zero_mod page_size, refl, refl)
