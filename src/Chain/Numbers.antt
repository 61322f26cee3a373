-- ===== src/Chain/Numbers.antt =====
-- The hexadecimal digits of a number read back as the number.
use Prim.Native.Char.{Char, code}
use Prim.Native.String.{[], ◌∷◌}
use native.Mathlib.Nat.{pow-suc, mul_assoc}
use de_box_asset_alert.Prelude.{
  append, ℕ, zero, suc, ◌+◌, ◌*◌, ◌/◌, ◌%◌, ◌^◌, ◌<◌, ◌≤◌, String, ◌≡◌, refl, ap, ◌∙◌, Bool, true,
  false, ◌&&◌, Option, none, some, arith, rune_count, ltb, ◌==◌, leb, le→leb,
}
use de_box_asset_alert.Prelude.Strings.{char_at}
use de_box_asset_alert.Chain.Hex.{digit_value, read_digits}
use de_box_asset_alert.Chain.Transfer.{show_hex, hex_count, padded_hex}
use de_box_asset_alert.Chain.Digits.{all_codes, is_lower_hex, char_at-all}

has_value : ℕ → Option ℕ → Bool
has_value n none = false
has_value n (some m) = m == n

-- The letters of a text are the digits from a value on, in their order.
counts_from : ℕ → String → Bool
unfolding has_value
counts_from i [] = true
counts_from i (c ∷ s) = has_value i (digit_value (code c)) && counts_from (suc i) s

has_value-some : (n : ℕ) (o : Option ℕ) → has_value n o ≡ true → o ≡ some n
unfolding has_value
has_value-some n none h = absurd (cc)
has_value-some n (some m) h = let e : m ≡ n = ground arith in ap some e

char_at-digit :
    (s : String) (from i : ℕ) (d : Char)
    → i < rune_count s
    → counts_from from s ≡ true
    → digit_value (code (char_at s i d)) ≡ some (from + i)
unfolding counts_from rune_count char_at
char_at-digit [] from i d b h = absurd (omega arith)
char_at-digit (c ∷ s) from zero d b h =
    let first : has_value from (digit_value (code c)) ≡ true = ground arith in
    let none_yet : from + 0 ≡ from = omega arith in
    rw (none_yet) (has_value-some from (digit_value (code c)) first)
char_at-digit (c ∷ s) from (suc i) d b h =
    let rest : counts_from (suc from) s ≡ true = ground arith in
    let shift : from + suc i ≡ suc from + i = omega arith in
    rw (shift) (char_at-digit s (suc from) i d (omega arith) rest)

hex_digit : (n : ℕ) → digit_value (code (char_at "0123456789abcdef" (n % 16) "0")) ≡ some (n % 16)
unfolding counts_from digit_value rune_count has_value
hex_digit n =
    let value : 0 + n % 16 ≡ n % 16 = omega arith in
    char_at-digit "0123456789abcdef" 0 (n % 16) "0" (omega arith) refl ∙ ap some value

hex_digit-lower_hex : (n : ℕ) → is_lower_hex (code (char_at "0123456789abcdef" (n % 16) "0")) ≡ true
unfolding append rune_count all_codes is_lower_hex
hex_digit-lower_hex n =
    char_at-all is_lower_hex "0123456789abcdef" "" (n % 16) "0" (omega arith) refl

read_step :
    (base acc d : ℕ) (c : Char) (s : String)
    → digit_value (code c) ≡ some d
    → ltb d base ≡ true
    → read_digits base acc (c ∷ s) ≡ read_digits base (acc * base + d) s
unfolding read_digits
read_step base acc d c s e b = rw (e, b, read_digits) refl

-- The digits shown of a number that they are enough for are read as it.
pub read_digits-show_hex :
    (width n acc : ℕ) (out : String)
    → n < 16 ^ width
    → read_digits 16 acc (show_hex width n out) ≡ read_digits 16 (acc * 16 ^ width + n) out
unfolding show_hex read_digits
read_digits-show_hex zero n acc out b =
    let same : acc * 16 ^ 0 + n ≡ acc = omega arith in rw (same) refl
read_digits-show_hex (suc w) n acc out b =
    let few : n / 16 < 16 ^ w = omega (arith, pow-suc 16 w) in
    let small : ltb (n % 16) 16 ≡ true = ground arith in
    let same : (acc * 16 ^ w + n / 16) * 16 + n % 16 ≡ acc * 16 ^ suc w + n =
      rw (pow-suc 16 w) (omega (arith, mul_assoc acc (16 ^ w) 16)) in
    read_digits-show_hex w (n / 16) acc (_ ∷ out) few
    ∙ read_step 16 (acc * 16 ^ w + n / 16) (n % 16) (char_at "0123456789abcdef" (n % 16) "0") out
        (hex_digit n) small
    ∙ ap (λ (m : ℕ). read_digits 16 m out) same

pub show_hex-lower_hex :
    (width n : ℕ) (out : String)
    → all_codes is_lower_hex out ≡ true
    → all_codes is_lower_hex (show_hex width n out) ≡ true
unfolding show_hex all_codes
show_hex-lower_hex zero n out h = h
show_hex-lower_hex (suc w) n out h =
    show_hex-lower_hex w (n / 16) (_ ∷ out) (ground (arith, hex_digit-lower_hex n, h))

pub rune_count-show_hex :
    (width n : ℕ) (out : String) → rune_count (show_hex width n out) ≡ width + rune_count out
unfolding show_hex rune_count
rune_count-show_hex zero n out = omega arith
rune_count-show_hex (suc w) n out = omega (arith, rune_count-show_hex w (n / 16) (_ ∷ out))

-- A number has no more digits than those that are enough for it.
hex_count-bound : (width fuel n : ℕ) → n < 16 ^ suc width → hex_count fuel n ≤ suc width
unfolding hex_count
hex_count-bound w zero n b = omega arith
hex_count-bound zero (suc fuel) n b = ground arith
hex_count-bound (suc w) (suc fuel) n b =
    let few : n / 16 < 16 ^ suc w = omega (arith, pow-suc 16 (suc w)) in
    ground (arith, hex_count-bound w fuel (n / 16) few)

-- The number fits the width.
pub padded_hex-fits :
    (width n : ℕ) → n < 16 ^ suc width → padded_hex (suc width) n ≡ show_hex (suc width) n ""
unfolding padded_hex
padded_hex-fits w n b =
    let fits : leb (hex_count n n) (suc w) ≡ true = le→leb _ _ (hex_count-bound w n n b) in
    rw (fits) refl
