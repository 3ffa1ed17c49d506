-- ===== src/Wire.antt =====
-- Little-endian numbers in byte slices, as `encoding/binary` reads and writes them.
pub mod Laws
use atomfs.Base.{ℕ, zero, suc, ◌+◌, ◌-◌, ◌*◌, ◌/◌, ◌%◌, List, [], ◌∷◌, ◌++◌, take, drop, length}
use atomfs.Text.{Bytes}

-- `binary.LittleEndian.Uint16(b)` and its like, for a slice of the right length.
unfoldable pub get_le : Bytes → ℕ
get_le [] = 0
get_le (b ∷ bs) = b + 256 * get_le bs

-- The bytes of a number of this width.
unfoldable pub put_le : ℕ → ℕ → Bytes
put_le zero n = []
put_le (suc w) n = (n % 256) ∷ put_le w (n / 256)

-- `b[lo:hi]`
abbrev pub slice : ℕ → ℕ → Bytes → Bytes
slice lo hi b = take (hi - lo) (drop lo b)

-- Writing over the bytes from an offset on.
abbrev pub overwrite : ℕ → Bytes → Bytes → Bytes
overwrite off new b = take off b ++ (new ++ drop (off + length new) b)
