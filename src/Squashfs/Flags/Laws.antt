-- ===== src/Squashfs/Flags/Laws.antt =====
-- Writing the flags and reading them back, by a table of all values.
use atomfs.Base.{ℕ, ◌<◌, ◌≡◌, refl, Bool, true, false, ◌&&◌, arith, ltb, ap}
use atomfs.System.{ok}
use atomfs.Wire.Laws.{get_le-put_le, length-put_le}
use atomfs.Squashfs.Flags.{SuperblockFlags, flag_bits, flag_bytes, flags_of, parse_flags}

-- The flags as eleven arguments.
abbrev pub flags :
    Bool → Bool → Bool → Bool → Bool → Bool → Bool → Bool → Bool → Bool → Bool → SuperblockFlags
flags a b c d e f g h i j l = record {
  uncompressed_inodes = a;
  uncompressed_data = b;
  uncompressed_fragments = c;
  no_fragments = d;
  always_fragments = e;
  dedup = f;
  exportable = g;
  uncompressed_xattrs = h;
  no_xattrs = i;
  compressor_options = j;
  uncompressed_ids = l;
}

both : (Bool → Bool) → Bool
both p = p true && p false

both_sound : (p : Bool → Bool) (b : Bool) → both p ≡ true → p b ≡ true
unfolding both
both_sound p true h = ground arith
both_sound p false h = ground arith

same : Bool → Bool → Bool
same true b = b
same false true = false
same false false = true

same_sound : (a b : Bool) → same a b ≡ true → a ≡ b
unfolding same
same_sound a b h = ground arith

and_1 : (a b : Bool) → a && b ≡ true → a ≡ true
and_1 a b h = ground arith

and_2 : (a b : Bool) → a && b ≡ true → b ≡ true
and_2 a b h = ground arith

-- The flags agree, field by field.
abbrev all_same : SuperblockFlags → SuperblockFlags → Bool
all_same t s =
    same t.uncompressed_inodes s.uncompressed_inodes
    && (same t.uncompressed_data s.uncompressed_data
        && (same t.uncompressed_fragments s.uncompressed_fragments
            && (same t.no_fragments s.no_fragments
                && (same t.always_fragments s.always_fragments
                    && (same t.dedup s.dedup
                        && (same t.exportable s.exportable
                            && (same t.uncompressed_xattrs s.uncompressed_xattrs
                                && (same t.no_xattrs s.no_xattrs
                                    && (same t.compressor_options s.compressor_options
                                        && (same t.uncompressed_ids s.uncompressed_ids))))))))))

all_same_sound : (t s : SuperblockFlags) → all_same t s ≡ true → t ≡ s
all_same_sound t s r0 =
    let r1 = and_2 _ _ r0 in
    let r2 = and_2 _ _ r1 in
    let r3 = and_2 _ _ r2 in
    let r4 = and_2 _ _ r3 in
    let r5 = and_2 _ _ r4 in
    let r6 = and_2 _ _ r5 in
    let r7 = and_2 _ _ r6 in
    let r8 = and_2 _ _ r7 in
    let r9 = and_2 _ _ r8 in
    let r10 = and_2 _ _ r9 in
    λ i. record {
      uncompressed_inodes = same_sound t.uncompressed_inodes s.uncompressed_inodes (and_1 _ _ r0) i;
      uncompressed_data = same_sound t.uncompressed_data s.uncompressed_data (and_1 _ _ r1) i;
      uncompressed_fragments =
          same_sound t.uncompressed_fragments s.uncompressed_fragments (and_1 _ _ r2) i;
      no_fragments = same_sound t.no_fragments s.no_fragments (and_1 _ _ r3) i;
      always_fragments = same_sound t.always_fragments s.always_fragments (and_1 _ _ r4) i;
      dedup = same_sound t.dedup s.dedup (and_1 _ _ r5) i;
      exportable = same_sound t.exportable s.exportable (and_1 _ _ r6) i;
      uncompressed_xattrs = same_sound t.uncompressed_xattrs s.uncompressed_xattrs (and_1 _ _ r7) i;
      no_xattrs = same_sound t.no_xattrs s.no_xattrs (and_1 _ _ r8) i;
      compressor_options = same_sound t.compressor_options s.compressor_options (and_1 _ _ r9) i;
      uncompressed_ids = same_sound t.uncompressed_ids s.uncompressed_ids r10 i;
    }

-- Every field is read back, and the bits fit two bytes.
abbrev reads_back : SuperblockFlags → Bool
reads_back s = ltb (flag_bits s) 65536 && all_same (flags_of (flag_bits s)) s

table :
    both (λ a. both (λ b. both (λ c. both (λ d. both (λ e. both (λ f. both (λ g.
      both
        (λ h. both (λ i. both (λ j. both (λ l. reads_back (flags a b c d e f g h i j l))))))))))))
    ≡ true
unfolding both same flags_of flag_bits
table = refl

checked : (a b c d e f g h i j l : Bool) → reads_back (flags a b c d e f g h i j l) ≡ true
checked a b c d e f g h i j l = both_sound _ l (
    both_sound _ j (
      both_sound _ i (
        both_sound _ h (
          both_sound _ g (
            both_sound _ f (
              both_sound _ e
                (both_sound _ d (both_sound _ c (both_sound _ b (both_sound _ a table))))))))))

below : (n : ℕ) → ltb n 65536 ≡ true → n < 65536
below n h = ground arith

reads_back_sound :
    (s : SuperblockFlags)
    → reads_back s ≡ true
    → (flags_of (flag_bits s) ≡ s) × (flag_bits s < 65536)
reads_back_sound s r =
    (all_same_sound (flags_of (flag_bits s)) s (and_2 _ _ r), below (flag_bits s) (and_1 _ _ r))

flags_back : (s : SuperblockFlags) → (flags_of (flag_bits s) ≡ s) × (flag_bits s < 65536)
flags_back s = reads_back_sound s (
    checked s.uncompressed_inodes s.uncompressed_data s.uncompressed_fragments s.no_fragments
      s.always_fragments s.dedup s.exportable s.uncompressed_xattrs s.no_xattrs s.compressor_options
      s.uncompressed_ids)

-- The flags that are written in two bytes are read back, each of them.
pub parse_flags-flag_bytes : (s : SuperblockFlags) → parse_flags (flag_bytes s) ≡ ok s
unfolding parse_flags flag_bytes
parse_flags-flag_bytes s =
    rw (length-put_le 2 (flag_bits s), get_le-put_le 2 (flag_bits s) (flags_back s).1)
      (ap ok (flags_back s).0)
