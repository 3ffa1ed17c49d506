-- ===== src/Erofs/Crc.antt =====
-- CRC-32C as `hash/crc32` computes it, bit by bit: the polynomial is reflected, and the register is
-- inverted before and after each run over bytes.
use Prim.Native.Nat.{bit_xor}
use atomfs.Base.{
  ℕ, zero, suc, ◌-◌, ◌/◌, ◌%◌, ◌^◌, ◌<◌, ◌≡◌, refl, [], ◌∷◌, ◌++◌, ◌==◌, if◌then◌else◌, arith,
}
use atomfs.Text.{Bytes}

-- `crc32.Castagnoli`
abbrev pub castagnoli : ℕ
castagnoli = 0x82f63b78

-- One bit out of the register.
unfoldable pub crc_bit : ℕ → ℕ
crc_bit c = (if c % 2 == 1 then bit_xor (c / 2) castagnoli else c / 2) % 2 ^ 32

abbrev pub times : ℕ → (ℕ → ℕ) → ℕ → ℕ
times zero f c = c
times (suc n) f c = times n f (f c)

unfoldable pub crc_byte : ℕ → ℕ → ℕ
unfolding crc_bit
crc_byte c b = times 8 crc_bit (bit_xor c b % 2 ^ 32)

-- The register after some bytes.
unfoldable pub crc_run : ℕ → Bytes → ℕ
crc_run c [] = c
crc_run c (b ∷ bs) = crc_run (crc_byte c b) bs

-- `^x` on a `uint32`.
unfoldable pub not32 : ℕ → ℕ
not32 x = 2 ^ 32 - 1 - x % 2 ^ 32

-- `crc32.Update(crc, table, bs)`
unfoldable pub crc_update : ℕ → Bytes → ℕ
crc_update crc bs = not32 (crc_run (not32 crc) bs)

-- `crc32.Checksum(bs, table)`
unfoldable pub crc_checksum : Bytes → ℕ
crc_checksum bs = crc_update 0 bs

pub crc_run-append : (c : ℕ) (xs ys : Bytes) → crc_run c (xs ++ ys) ≡ crc_run (crc_run c xs) ys
unfolding crc_run
crc_run-append c [] ys = refl
crc_run-append c (x ∷ xs) ys = crc_run-append (crc_byte c x) xs ys

crc_byte-lt : (c b : ℕ) → crc_byte c b < 2 ^ 32
unfolding crc_byte
crc_byte-lt c b = omega arith

crc_run-lt : (c : ℕ) (bs : Bytes) → c < 2 ^ 32 → crc_run c bs < 2 ^ 32
unfolding crc_run
crc_run-lt c [] h = h
crc_run-lt c (b ∷ bs) h = crc_run-lt (crc_byte c b) bs (crc_byte-lt c b)

not32-not32 : (x : ℕ) → x < 2 ^ 32 → not32 (not32 x) ≡ x
unfolding not32
not32-not32 x h = omega arith

not32-lt : (x : ℕ) → not32 x < 2 ^ 32
unfolding not32
not32-lt x = omega arith

-- The two calls of the code, inverted, are one run over all bytes from a register of ones.
pub not32-crc_update :
    (xs ys : Bytes) → not32 (crc_update (crc_checksum xs) ys) ≡ crc_run (2 ^ 32 - 1) (xs ++ ys)
unfolding crc_update crc_checksum
not32-crc_update xs ys =
    rw (crc_run-append, not32-not32 (crc_run (not32 0) xs) (crc_run-lt (not32 0) xs (not32-lt 0)))
      (rw
        (not32-not32 (crc_run (crc_run (not32 0) xs) ys)
          (crc_run-lt (crc_run (not32 0) xs) ys (crc_run-lt (not32 0) xs (not32-lt 0))))
        (unfold not32 in refl))
