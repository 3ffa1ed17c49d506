-- ===== src/Numeral.antt =====
-- Numbers in text: decimal as `strconv.ParseInt` reads and `%d` writes it, hexadecimal as
-- `hex.DecodeString` reads and `%x` writes it.
pub mod Hex
use atomfs.Base.{
  ℕ, zero, suc, ◌+◌, ◌-◌, ◌*◌, ◌/◌, ◌%◌, ◌^◌, Bool, true, false, ◌&&◌, Option, none, some, List, [],
  ◌∷◌, ◌++◌, ◌==◌, leb, ltb, if◌then◌else◌,
}
use atomfs.Text.{Bytes, bytes, is_empty}

abbrev pub or_none {ℓ κ} : {A : Type ℓ} {B : Type κ} → (A → Option B) → Option A → Option B
or_none f none = none
or_none f (some a) = f a

unfoldable pub digits_value : ℕ → Bytes → Option ℕ
digits_value n [] = some n
digits_value n (c ∷ s) = elim (leb b'0' c && leb c b'9') [
  | true ↦ digits_value (n * 10 + (c - 48)) s
  | false ↦ none
]

unfoldable pub unsigned : Bytes → Option ℕ
unsigned s = if is_empty s then none else digits_value 0 s

abbrev pub at_most : ℕ → Option ℕ → Option ℕ
at_most m none = none
at_most m (some n) = if leb n m then some n else none

abbrev pub negated : Option ℕ → Option ℕ
negated none = none
negated (some n) = some ((2 ^ 64 - n) % 2 ^ 64)

-- `uint64(n)` for the `n` of `strconv.ParseInt(s, 10, 64)`.
unfoldable pub parse_int : Bytes → Option ℕ
parse_int [] = none
parse_int (c ∷ s) =
    if c == b'-'
    then negated (at_most (2 ^ 63) (unsigned s))
    else if c == b'+'
    then at_most (2 ^ 63 - 1) (unsigned s)
    else at_most (2 ^ 63 - 1) (unsigned (c ∷ s))

-- `%d`; the fuel bounds the number of digits.
unfoldable pub decimal : ℕ → ℕ → Bytes
decimal zero n = []
decimal (suc fuel) n =
    let front = decimal fuel (n / 10) in
    if ltb n 10 then (48 + n) ∷ [] else front ++ ((48 + n % 10) ∷ [])
