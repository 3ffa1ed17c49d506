-- ===== src/Squashfs/Superblock/Bounds.antt =====
-- What the tests of the parser say, and where the verity data begins.
use native.Mathlib.Nat.{pow-suc}
use atomfs.Base.{
  ℕ, zero, suc, ◌^◌, ◌%◌, ◌/◌, ◌+◌, ◌<◌, ◌≤◌, ◌≡◌, false, ◌==◌, arith, Bool-cases, inl, inr, ltb,
}
use atomfs.Squashfs.Superblock.{Superblock, log2, block_log, verity_data_location}

small : (n : ℕ) → 0 < n → n < 2 → (2 ^ 0 ≤ n) × (n < 2 ^ 1)
small n p h = (omega arith, omega arith)

doubled :
    (r n : ℕ) → (2 ^ r ≤ n / 2) × (n / 2 < 2 ^ suc r) → (2 ^ suc r ≤ n) × (n < 2 ^ suc (suc r))
doubled r n (a, b) =
    (omega (arith, pow-suc 2 r, a), omega (arith, pow-suc 2 r, pow-suc 2 (suc r), b))

log2_bounds :
    (fuel n : ℕ) → 0 < n → n < 2 ^ fuel → (2 ^ log2 fuel n ≤ n) × (n < 2 ^ suc (log2 fuel n))
unfolding log2
log2_bounds zero n p h = absurd (omega arith)
log2_bounds (suc fuel) n p h = elim (Bool-cases (ltb n 2)) [
  | inl e ↦ rw e (small n p (ground arith))
  | inr e ↦ rw e (
      doubled (log2 fuel (n / 2)) n
        (log2_bounds fuel (n / 2) (ground arith) (omega (arith, pow-suc 2 fuel))))
]

-- The logarithm that the parser compares with is that of the block size: the size lies between the
-- power of two and the next one.
block_log_bounds :
    (m n : ℕ) → 0 < n → n < 2 ^ 32 → (2 ^ block_log m n ≤ n) × (n < 2 ^ suc (block_log m n))
unfolding block_log
block_log_bounds m n p h =
    let not_zero : (n == 0) ≡ false = ground arith in rw not_zero (log2_bounds 32 n p h)

-- The verity data begins at the first multiple of 4096 from the end of the file system on, unless
-- that lies beyond 64 bits.
verity_data_location_bounds :
    (s : Superblock)
    → s.size + 4096 ≤ 2 ^ 64
    → (verity_data_location s % 4096 ≡ 0)
      × (s.size ≤ verity_data_location s)
      × (verity_data_location s < s.size + 4096)
unfolding verity_data_location
verity_data_location_bounds s h = ground arith
