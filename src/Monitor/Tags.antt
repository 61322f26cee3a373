-- ===== src/Monitor/Tags.antt =====
-- internal/monitor/executor.go: what a text of an alert is made of.
use Prim.Native.Char.{code}
use Prim.Native.String.{[], ◌∷◌}
use de_box_asset_alert.Prelude.{
  ℕ, suc, ◌+◌, String, true, not, ◌≡◌, refl, append, ◌==◌, arith, if◌then◌else◌,
}
use de_box_asset_alert.Monitor.Escape.{escape_string, is_markup, escape_string-safe}
use de_box_asset_alert.Chain.Digits.{all_codes}

-- How many tags begin in a text.
unfoldable pub tag_count : String → ℕ
tag_count [] = 0
tag_count (c ∷ s) = let rest = tag_count s in if code c == b'<' then suc rest else rest

pub tag_count-append : (s t : String) → tag_count (append s t) ≡ tag_count s + tag_count t
unfolding tag_count append
tag_count-append [] t = omega arith
tag_count-append (c ∷ s) t = ground (arith, tag_count-append s t)

tag_count-safe : (s : String) → all_codes (λ d. not (is_markup d)) s ≡ true → tag_count s ≡ 0
unfolding tag_count all_codes
tag_count-safe [] h = refl
tag_count-safe (c ∷ s) h =
    let rest : all_codes (λ d. not (is_markup d)) s ≡ true = ground arith in
    ground (arith, h, tag_count-safe s rest)

pub tag_count-escape_string : (s : String) → tag_count (escape_string s) ≡ 0
tag_count-escape_string s = tag_count-safe (escape_string s) (escape_string-safe s)
