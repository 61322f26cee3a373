-- ===== src/Prelude/Rat.antt =====
-- Fractions, as math/big computes with them, and their decimal texts. math/big keeps them in lowest
-- terms, which no operation here depends on.
use Prim.Native.Nat.{ℕ, ◌+◌, ◌*◌, ◌/◌, ◌%◌, ◌^◌}
use Prim.Native.String.{String}
use mathlib.Core.Bool.{Bool, ◌&&◌}
use mathlib.Core.Path.{◌≡◌, refl}
use mathlib.Core.List.{List, [], ◌∷◌}
use text.Mathlib.Text.{◌==◌ as str_eq}
use de_box_asset_alert.Prelude.Tests.{◌==◌, if◌then◌else◌}
use de_box_asset_alert.Prelude.Int.{
  ℤ, pos, negsuc, ◌*ℤ◌, ◌-ℤ◌, ◌+ℤ◌, leb_ℤ, ltb_ℤ, pos_part, neg_part, sub_ℕ,
}
use de_box_asset_alert.Prelude.Strings.{append, show_ℕ, show_padded, trim_right_char}

-- A fraction, of a denominator that is not 0.
pub record Rat : Type 0 where
  pub num : ℤ
  pub den : ℕ

-- a.Cmp(b) <= 0 and a.Cmp(b) < 0
unfoldable pub leb_ℚ : Rat → Rat → Bool
unfolding ◌*ℤ◌
leb_ℚ a b = leb_ℤ (a.num *ℤ pos b.den) (b.num *ℤ pos a.den)

unfoldable pub ltb_ℚ : Rat → Rat → Bool
unfolding ◌*ℤ◌
ltb_ℚ a b = ltb_ℤ (a.num *ℤ pos b.den) (b.num *ℤ pos a.den)

-- a.Sign() == 0 and a.Sign() <= 0
unfoldable pub is_zero_ℚ : Rat → Bool
is_zero_ℚ a = (pos_part a.num == 0) && (neg_part a.num == 0)

unfoldable pub is_nonpos_ℚ : Rat → Bool
is_nonpos_ℚ a = pos_part a.num == 0

unfoldable pub add_ℚ : Rat → Rat → Rat
unfolding ◌*ℤ◌ ◌+ℤ◌
add_ℚ a b = record { num = a.num *ℤ pos b.den +ℤ b.num *ℤ pos a.den; den = a.den * b.den }

unfoldable pub sub_ℚ : Rat → Rat → Rat
unfolding ◌*ℤ◌ ◌-ℤ◌
sub_ℚ a b = record { num = a.num *ℤ pos b.den -ℤ b.num *ℤ pos a.den; den = a.den * b.den }

unfoldable pub neg_ℚ : Rat → Rat
neg_ℚ a = record { num = sub_ℕ (neg_part a.num) (pos_part a.num); den = a.den }

-- new(big.Rat).SetInt64(n)
abbrev pub of_ℕ : ℕ → Rat
of_ℕ n = record { num = pos n; den = 1 }

unfoldable pub mul_ℚ : Rat → Rat → Rat
unfolding ◌*ℤ◌
mul_ℚ a b = record { num = a.num *ℤ b.num; den = a.den * b.den }

-- a.Quo(a, b), of a b that is not 0: the sign of b moves to the numerator.
unfoldable pub quo_ℚ : Rat → Rat → Rat
unfolding ◌*ℤ◌
quo_ℚ a b = record {
  num = a.num *ℤ (if ltb_ℤ b.num (pos 0) then sub_ℕ 0 b.den else pos b.den);
  den = a.den * (pos_part b.num + neg_part b.num);
}

-- x.FloatString(8): rounded to 8 places, halves away from zero.
float_string : Rat → String
float_string x =
    let size = pos_part x.num + neg_part x.num in
    let units = (2 * size * 10 ^ 8 + x.den) / (2 * x.den) in
    append (if ltb_ℤ x.num (pos 0) then "-" else "")
      (append (show_ℕ (units / 10 ^ 8)) (append "." (show_padded 8 (units % 10 ^ 8) "")))

-- Without the zeros and the point at the end.
unfoldable pub decimal_string : Rat → String
unfolding float_string trim_right_char
decimal_string x =
    let text = trim_right_char b'.' (trim_right_char b'0' (float_string x)) in
    if str_eq text "" then "0" else if str_eq text "-0" then "0" else text

decimal_string_example : decimal_string (record { num = negsuc 24; den = 10 }) ≡ "-2.5"
unfolding decimal_string append show_ℕ show_padded
decimal_string_example = refl

unfoldable pub concat : List String → String
unfolding append
concat [] = ""
concat (s ∷ ss) = append s (concat ss)
