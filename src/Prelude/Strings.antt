-- ===== src/Prelude/Strings.antt =====
-- What the program uses of Go's package strings, on texts whose letters are ASCII.
use Prim.Native.Char.{Char, code}
use Prim.Native.Nat.{ℕ, zero, suc, ◌-◌, ◌/◌, ◌%◌}
use Prim.Native.String.{String, [], ◌∷◌}
use mathlib.Core.Bool.{Bool, true, false, ◌&&◌, ◌||◌}
use mathlib.Core.Path.{◌≡◌, refl}
use text.Mathlib.Text.{◌==◌ as str_eq}
use de_box_asset_alert.Prelude.Tests.{ltb, leb, ◌==◌, if◌then◌else◌}

-- The character at an index of a text, or a default.
unfoldable pub char_at : String → ℕ → Char → Char
char_at [] i d = d
char_at (c ∷ s) zero d = c
char_at (c ∷ s) (suc i) d = char_at s i d

-- unicode.ToLower on ASCII
unfoldable pub lower_char : Char → Char
unfolding char_at
lower_char c =
    if leb b'A' (code c) && leb (code c) b'Z'
    then char_at "abcdefghijklmnopqrstuvwxyz" (code c - b'A') c
    else c

-- strings.ToLower
unfoldable pub to_lower : String → String
unfolding lower_char
to_lower [] = []
to_lower (c ∷ s) = lower_char c ∷ to_lower s

-- unicode.IsSpace on ASCII: tab, newline, vertical tab, form feed, return and the space
unfoldable pub is_space : ℕ → Bool
is_space c = c == 32 || (leb 9 c && leb c 13)

unfoldable pub trim_left : String → String
trim_left [] = []
trim_left (c ∷ s) = if is_space (code c) then trim_left s else c ∷ s

-- Drops the white space at the end.
unfoldable pub trim_right : String → String
trim_right [] = []
trim_right (c ∷ s) =
    let rest = trim_right s in if is_space (code c) && str_eq rest "" then [] else c ∷ rest

-- strings.TrimSpace
unfoldable pub trim_space : String → String
unfolding trim_left trim_right is_space
trim_space s = trim_right (trim_left s)

-- strings.EqualFold
unfoldable pub equal_fold : String → String → Bool
unfolding to_lower
equal_fold s t = str_eq (to_lower s) (to_lower t)

-- The first runes of a text, `string(runes[:limit])`.
unfoldable pub take_runes : ℕ → String → String
take_runes zero s = []
take_runes (suc n) [] = []
take_runes (suc n) (c ∷ s) = c ∷ take_runes n s

trim_space_example : trim_space " \t Pro plan\n" ≡ "Pro plan"
unfolding trim_space
trim_space_example = refl

to_lower_example : to_lower "0xAbC Z" ≡ "0xabc z"
unfolding to_lower
to_lower_example = refl

-- `s[n:]`
unfoldable pub drop_runes : ℕ → String → String
drop_runes zero s = s
drop_runes (suc n) [] = []
drop_runes (suc n) (c ∷ s) = drop_runes n s

-- len(s), of an ASCII text
unfoldable pub rune_count : String → ℕ
rune_count [] = 0
rune_count (c ∷ s) = suc (rune_count s)

unfoldable pub append : String → String → String
append [] t = t
append (c ∷ s) t = c ∷ append s t

-- strings.HasPrefix(s, prefix)
unfoldable pub has_prefix : String → String → Bool
has_prefix s [] = true
has_prefix [] (d ∷ t) = false
has_prefix (c ∷ s) (d ∷ t) = (code c == code d) && has_prefix s t

-- strings.Contains(s, part)
unfoldable pub contains : String → String → Bool
unfolding has_prefix
contains [] part = has_prefix [] part
contains (c ∷ s) part = has_prefix (c ∷ s) part || contains s part

-- strings.TrimRight(s, cutset) of one character
unfoldable pub trim_right_char : ℕ → String → String
trim_right_char d [] = []
trim_right_char d (c ∷ s) =
    let rest = trim_right_char d s in if (code c == d) && str_eq rest "" then [] else c ∷ rest

-- The decimal digits of a number before a text, with at least so many of them.
unfoldable pub show_padded : ℕ → ℕ → String → String
unfolding char_at
show_padded zero n out = out
show_padded (suc digits) n out =
    show_padded digits (n / 10) (char_at "0123456789" (n % 10) "0" ∷ out)

-- How many digits a number has; as much fuel as the number itself is enough.
digit_count : ℕ → ℕ → ℕ
digit_count zero n = 1
digit_count (suc fuel) n = let rest = digit_count fuel (n / 10) in if ltb n 10 then 1 else suc rest

-- strconv.FormatInt(n, 10)
unfoldable pub show_ℕ : ℕ → String
unfolding show_padded digit_count
show_ℕ n = show_padded (digit_count n n) n ""

-- strings.SplitN(s, mark, 2)[0], of a mark of one character
unfoldable pub cut_before : ℕ → String → String
cut_before d [] = []
cut_before d (c ∷ s) = if code c == d then [] else c ∷ cut_before d s
