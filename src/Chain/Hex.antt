-- ===== src/Chain/Hex.antt =====
-- Hexadecimal texts: the two patterns of internal/chain/profiles.go, and the numbers that strconv and
-- math/big read.
use Prim.Native.Char.{Char, code}
use Prim.Native.String.{String, [], ◌∷◌}
use Prim.Native.Nat.{ℕ, zero, suc, ◌+◌, ◌-◌, ◌*◌, ◌^◌}
use mathlib.Core.Bool.{Bool, true, false, ◌&&◌}
use mathlib.Core.Option.{Option, none, some}
use de_box_asset_alert.Prelude.Tests.{ltb, leb, ◌==◌, if◌then◌else◌}
use de_box_asset_alert.Prelude.Int.{ℤ, pos, sub_ℕ}

-- The value of a digit, up to 15, in either letter case.
unfoldable pub digit_value : ℕ → Option ℕ
digit_value c =
    if leb b'0' c && leb c b'9'
    then some (c - b'0')
    else if leb b'a' c && leb c b'f'
    then some (c - b'a' + 10)
    else if leb b'A' c && leb c b'F'
    then some (c - b'A' + 10)
    else none

unfoldable pub is_hex_digit : Char → Bool
unfolding digit_value
is_hex_digit c = elim (digit_value (code c)) [ none ↦ false | some _ ↦ true ]

-- [a-fA-F0-9]{n}, to the end of the text
unfoldable pub has_hex_digits : ℕ → String → Bool
unfolding is_hex_digit
has_hex_digits zero [] = true
has_hex_digits zero (c ∷ s) = false
has_hex_digits (suc n) [] = false
has_hex_digits (suc n) (c ∷ s) = is_hex_digit c && has_hex_digits n s

-- What follows 0x.
unfoldable pub after_0x : String → Option String
after_0x [] = none
after_0x (c ∷ []) = none
after_0x (c ∷ d ∷ s) = if (code c == b'0') && (code d == b'x') then some s else none

-- The digits of ^0x[a-fA-F0-9]{n}$.
unfoldable pub hex_text : ℕ → String → Option String
unfolding has_hex_digits after_0x
hex_text n s = elim (after_0x s) [
  | none ↦ none
  | some digits ↦ if has_hex_digits n digits then some digits else none
]

-- The digits of a base up to 16, from the left.
unfoldable pub read_digits : ℕ → ℕ → String → Option ℕ
unfolding digit_value
read_digits base n [] = some n
read_digits base n (c ∷ s) = elim (digit_value (code c)) [
  | none ↦ none
  | some d ↦ if ltb d base then read_digits base (n * base + d) s else none
]

-- At least one digit.
unfoldable pub read_natural : ℕ → String → Option ℕ
unfolding read_digits
read_natural base [] = none
read_natural base (c ∷ s) = read_digits base 0 (c ∷ s)

below : ℕ → Option ℕ → Option ℕ
below bound none = none
below bound (some n) = if ltb n bound then some n else none

-- strconv.ParseUint(s, base, 64)
unfoldable pub parse_uint : ℕ → String → Option ℕ
unfolding read_natural below
parse_uint base s = below (2 ^ 64) (read_natural base s)

unfoldable pub signed : Bool → Option ℕ → Option ℤ
signed minus none = none
signed minus (some n) = some (if minus then sub_ℕ 0 n else pos n)

-- new(big.Int).SetString(s, 16), with its optional sign
unfoldable pub parse_big : String → Option ℤ
unfolding read_natural signed
parse_big [] = none
parse_big (c ∷ s) =
    if code c == b'-'
    then signed true (read_natural 16 s)
    else if code c == b'+'
    then signed false (read_natural 16 s)
    else signed false (read_natural 16 (c ∷ s))
