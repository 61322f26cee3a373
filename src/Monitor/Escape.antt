-- ===== src/Monitor/Escape.antt =====
-- What internal/monitor/executor.go uses of Go's package html.
use Prim.Native.Char.{Char, code}
use Prim.Native.String.{[], ◌∷◌}
use de_box_asset_alert.Prelude.{
  ℕ, String, Bool, true, not, ◌||◌, ◌≡◌, refl, append, arith, ◌==◌, if◌then◌else◌,
}
use de_box_asset_alert.Chain.Digits.{all_codes}

-- html.EscapeString, of one letter before a text
unfoldable pub escape_char : Char → String → String
unfolding append
escape_char c out =
    if code c == b'&'
    then append "&amp;" out
    else if code c == 39
    then append "&#39;" out
    else if code c == b'<'
    then append "&lt;" out
    else if code c == b'>'
    then append "&gt;" out
    else if code c == 34
    then append "&#34;" out
    else c ∷ out

unfoldable pub escape_string : String → String
unfolding escape_char
escape_string [] = []
escape_string (c ∷ s) = escape_char c (escape_string s)

-- A letter that opens, closes or quotes a tag.
abbrev pub is_markup : ℕ → Bool
is_markup c = (c == b'<') || ((c == b'>') || ((c == 34) || (c == 39)))

escape_char-safe :
    (c : Char) (out : String)
    → all_codes (λ d. not (is_markup d)) out ≡ true
    → all_codes (λ d. not (is_markup d)) (escape_char c out) ≡ true
unfolding escape_char all_codes append
escape_char-safe c out h = ground (arith, h)

-- No text that was escaped contains an angle bracket or a quote.
pub escape_string-safe : (s : String) → all_codes (λ d. not (is_markup d)) (escape_string s) ≡ true
unfolding escape_string all_codes
escape_string-safe [] = refl
escape_string-safe (c ∷ s) = escape_char-safe c (escape_string s) (escape_string-safe s)
