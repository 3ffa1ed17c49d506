-- ===== src/Numeral/Hex.antt =====
-- `hex.DecodeString` and `fmt.Sprintf("%x")`, which carry a root hash from the place where it is
-- made to the place where it is used.
use atomfs.Base.{
  ℕ, suc, ◌+◌, ◌-◌, ◌*◌, ◌/◌, ◌%◌, ◌<◌, ◌≡◌, refl, ap, sym, ◌&&◌, Option, none, some, [], ◌∷◌, leb,
  ltb, if◌then◌else◌, All, arith, length,
}
use mathlib.Core.Option.{some-injective}
use atomfs.Text.{Bytes}

unfoldable pub hex_digit : ℕ → ℕ
hex_digit d = if ltb d 10 then 48 + d else 87 + d

unfoldable pub hex_value : ℕ → Option ℕ
hex_value c =
    if leb b'0' c && leb c b'9'
    then some (c - 48)
    else if leb b'a' c && leb c b'f'
    then some (c - 87)
    else if leb b'A' c && leb c b'F'
    then some (c - 55)
    else none

unfoldable pub hex_encode : Bytes → Bytes
hex_encode [] = []
hex_encode (b ∷ bs) = hex_digit (b / 16) ∷ hex_digit (b % 16) ∷ hex_encode bs

abbrev pub pair : Option ℕ → Option ℕ → Option Bytes → Option Bytes
pair (some a) (some b) (some bs) = some ((a * 16 + b) ∷ bs)
pair _ _ _ = none

-- An odd length or another character is an error.
unfoldable pub hex_decode : Bytes → Option Bytes
hex_decode [] = some []
hex_decode (c ∷ []) = none
hex_decode (c ∷ d ∷ s) = pair (hex_value c) (hex_value d) (hex_decode s)

hex_value-hex_digit : (d : ℕ) → d < 16 → hex_value (hex_digit d) ≡ some d
unfolding hex_value hex_digit
hex_value-hex_digit d h = ground arith

-- A root hash that was written in hexadecimal is read back, byte for byte.
pub hex_decode-hex_encode :
    (bs : Bytes) → All (λ b. b < 256) bs → hex_decode (hex_encode bs) ≡ some bs
unfolding hex_decode hex_encode
hex_decode-hex_encode [] h = refl
hex_decode-hex_encode (b ∷ bs) (h, hs) =
    rw
      (
        hex_value-hex_digit (b / 16) (omega arith),
        hex_value-hex_digit (b % 16) (omega arith),
        hex_decode-hex_encode bs hs,
      )
      (ap (λ c. some (c ∷ bs)) (omega arith))

pair-some :
    (a b : Option ℕ) (o : Option Bytes) (bs : Bytes)
    → pair a b o ≡ some bs
    → (rest : Bytes) × (o ≡ some rest) × (length bs ≡ suc (length rest))
pair-some (some a) (some b) (some rest) bs h =
    (rest, refl, sym (ap (λ (l : Bytes). length l) (some-injective _ _ h)))
pair-some (some a) (some b) none bs h = cc
pair-some (some a) none o bs h = cc
pair-some none b o bs h = cc

-- What is decoded has one byte for two characters.
pub length-hex_decode : (s bs : Bytes) → hex_decode s ≡ some bs → length s ≡ length bs + length bs
unfolding hex_decode
length-hex_decode [] bs h = omega (arith, ap (λ (l : Bytes). length l) (some-injective _ _ h))
length-hex_decode (c ∷ []) bs h = cc
length-hex_decode (c ∷ d ∷ s) bs h =
    let (rest, e, l) = pair-some (hex_value c) (hex_value d) (hex_decode s) bs h in
    omega (arith, length-hex_decode s rest e)
