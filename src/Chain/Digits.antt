-- ===== src/Chain/Digits.antt =====
-- Lower case hexadecimal texts: what trimming, lowering, reading and cutting do to them.
use Prim.Native.Char.{Char, code}
use Prim.Native.String.{[], ◌∷◌}
use de_box_asset_alert.Prelude.{
  ℕ, zero, suc, ◌+◌, ◌<◌, String, ◌≡◌, refl, ap, ◌∙◌, Bool, true, false, ◌&&◌, ◌||◌, arith,
  trim_space, to_lower, take_runes, drop_runes, rune_count, append, leb, Bool-cases, inl, inr, ◌-◌,
}
use de_box_asset_alert.Prelude.Strings.{char_at, lower_char, is_space, trim_left, trim_right}
use de_box_asset_alert.Chain.Hex.{digit_value, is_hex_digit, has_hex_digits}

unfoldable pub all_codes : (ℕ → Bool) → String → Bool
all_codes test [] = true
all_codes test (c ∷ s) = test (code c) && all_codes test s

-- What the texts of the chain consist of: no white space, no capital.
unfoldable pub is_plain : ℕ → Bool
is_plain c = leb b'0' c && (leb c b'9' || (leb b'a' c && leb c b'z'))

unfoldable pub is_lower_hex : ℕ → Bool
is_lower_hex c = leb b'0' c && (leb c b'9' || (leb b'a' c && leb c b'f'))

and_true : (a b : Bool) → (a && b) ≡ true → (a ≡ true) × (b ≡ true)
and_true a b h = (ground arith, ground arith)

cong2 : {c d : Char} {s t : String} → c ≡ d → s ≡ t → (c ∷ s) ≡ (d ∷ t)
cong2 {c} {d} {s} {t} p q = cc

lower_char-plain : (c : Char) → is_plain (code c) ≡ true → lower_char c ≡ c
unfolding lower_char is_plain
lower_char-plain c h = ground arith

pub to_lower-plain : (s : String) → all_codes is_plain s ≡ true → to_lower s ≡ s
unfolding to_lower all_codes
to_lower-plain [] h = refl
to_lower-plain (c ∷ s) h =
    let (first, rest) = and_true (is_plain (code c)) _ h in
    cong2 (lower_char-plain c first) (to_lower-plain s rest)

trim_left-plain : (s : String) → all_codes is_plain s ≡ true → trim_left s ≡ s
unfolding trim_left all_codes is_plain is_space
trim_left-plain [] h = refl
trim_left-plain (c ∷ s) h =
    let (first, rest) = and_true (is_plain (code c)) _ h in
    let visible : is_space (code c) ≡ false = ground arith in rw (visible) refl

trim_right-plain : (s : String) → all_codes is_plain s ≡ true → trim_right s ≡ s
unfolding trim_right all_codes is_plain is_space
trim_right-plain [] h = refl
trim_right-plain (c ∷ s) h =
    let (first, rest) = and_true (is_plain (code c)) _ h in
    let visible : is_space (code c) ≡ false = ground arith in
    let tail : trim_right s ≡ s = trim_right-plain s rest in rw (visible, tail) refl

pub trim_space-plain : (s : String) → all_codes is_plain s ≡ true → trim_space s ≡ s
unfolding trim_space all_codes
trim_space-plain s h = ap trim_right (trim_left-plain s h) ∙ trim_right-plain s h

-- The letters of the first part of a text satisfy what all of that part do.
pub char_at-all :
    (test : ℕ → Bool) (s t : String) (i : ℕ) (d : Char)
    → i < rune_count s
    → all_codes test s ≡ true
    → test (code (char_at (append s t) i d)) ≡ true
unfolding char_at rune_count all_codes append
char_at-all test [] t i d b h = ground arith
char_at-all test (c ∷ s) t zero d b h = ground arith
char_at-all test (c ∷ s) t (suc i) d b h =
    let (first, rest) = and_true (test (code c)) _ h in
    let below : i < rune_count s = omega arith in char_at-all test s t i d below rest

lower_char-lower_hex :
    (c : Char) → is_hex_digit c ≡ true → is_lower_hex (code (lower_char c)) ≡ true
unfolding is_hex_digit digit_value is_lower_hex lower_char all_codes append rune_count
lower_char-lower_hex c h = elim (Bool-cases (leb b'A' (code c) && leb (code c) b'F')) [
  | inl capital ↦
      let letter : is_lower_hex (code (char_at "abcdefghijklmnopqrstuvwxyz" (code c - b'A') c))
          ≡ true =
        char_at-all is_lower_hex "abcdef" "ghijklmnopqrstuvwxyz" (code c - b'A') c (ground arith)
          refl in
      ground arith
  | inr other ↦ ground arith
]

-- What lowering makes of hexadecimal digits.
pub to_lower-lower_hex :
    (n : ℕ) (s : String)
    → has_hex_digits n s ≡ true
    → (all_codes is_lower_hex (to_lower s) ≡ true) × (rune_count (to_lower s) ≡ n)
unfolding has_hex_digits to_lower all_codes rune_count
to_lower-lower_hex zero [] h = (refl, refl)
to_lower-lower_hex zero (c ∷ s) h = absurd (cc)
to_lower-lower_hex (suc n) [] h = absurd (cc)
to_lower-lower_hex (suc n) (c ∷ s) h =
    let (first, rest) = and_true (is_hex_digit c) _ h in
    let (tail, size) = to_lower-lower_hex n s rest in
    (ground (arith, lower_char-lower_hex c first, tail), ap suc size)

lower_hex-digit : (c : Char) → is_lower_hex (code c) ≡ true → is_hex_digit c ≡ true
unfolding is_lower_hex is_hex_digit digit_value
lower_hex-digit c h = ground arith

-- A lower case text is one of so many hexadecimal digits as it has letters.
pub has_hex_digits-lower_hex :
    (s : String) → all_codes is_lower_hex s ≡ true → has_hex_digits (rune_count s) s ≡ true
unfolding has_hex_digits all_codes rune_count
has_hex_digits-lower_hex [] h = refl
has_hex_digits-lower_hex (c ∷ s) h =
    let (first, rest) = and_true (is_lower_hex (code c)) _ h in
    ground (arith, lower_hex-digit c first, has_hex_digits-lower_hex s rest)

pub lower_hex-plain : (s : String) → all_codes is_lower_hex s ≡ true → all_codes is_plain s ≡ true
unfolding is_lower_hex is_plain all_codes
lower_hex-plain [] h = refl
lower_hex-plain (c ∷ s) h =
    let (first, rest) = and_true (is_lower_hex (code c)) _ h in
    let plain : is_plain (code c) ≡ true = ground arith in
    ground (arith, plain, lower_hex-plain s rest)

pub all_codes-append :
    (test : ℕ → Bool) (s t : String)
    → all_codes test s ≡ true
    → all_codes test t ≡ true
    → all_codes test (append s t) ≡ true
unfolding all_codes append
all_codes-append test [] t h k = k
all_codes-append test (c ∷ s) t h k =
    let (first, rest) = and_true (test (code c)) _ h in
    ground (arith, first, all_codes-append test s t rest k)

pub rune_count-append : (s t : String) → rune_count (append s t) ≡ rune_count s + rune_count t
unfolding rune_count append
rune_count-append [] t = omega arith
rune_count-append (c ∷ s) t = omega (arith, rune_count-append s t)

pub take_runes-append : (s t : String) → take_runes (rune_count s) (append s t) ≡ s
unfolding rune_count append take_runes
take_runes-append [] t = refl
take_runes-append (c ∷ s) t = ap (λ (r : String). c ∷ r) (take_runes-append s t)

pub drop_runes-append : (s t : String) → drop_runes (rune_count s) (append s t) ≡ t
unfolding rune_count append drop_runes
drop_runes-append [] t = refl
drop_runes-append (c ∷ s) t = drop_runes-append s t
