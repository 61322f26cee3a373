-- ===== src/Chain/RoundTrip.antt =====
-- The call that internal/chain/units.go writes, cut into its parts.
use Prim.Native.Char.{code}
use Prim.Native.String.{[], ◌∷◌}
use de_box_asset_alert.Prelude.{
  ℕ, suc, ◌+◌, ◌*◌, ◌<◌, ◌^◌, String, ◌≡◌, refl, ap, ◌∙◌, true, false, some, arith, rune_count,
  take_runes, drop_runes, append, trim_space, to_lower, ok, subst, Option-cases, Bool-cases, inl,
  inr, ◌==◌,
}
use de_box_asset_alert.Prelude.Int.{pos}
use de_box_asset_alert.Chain.Hex.{
  hex_text, after_0x, has_hex_digits, read_digits, read_natural, parse_big, signed,
}
use de_box_asset_alert.Chain.Profiles.{invalid_address, validate_address, or_invalid}
use de_box_asset_alert.Chain.Digits.{
  all_codes, is_lower_hex, is_plain, to_lower-plain, trim_space-plain, to_lower-lower_hex,
  has_hex_digits-lower_hex, lower_hex-plain,
}
use de_box_asset_alert.Chain.Transfer.{
  show_hex, padded_text, zeros, encode_amount, transfer_selector, encode_erc20_transfer,
}
use de_box_asset_alert.Chain.Numbers.{
  read_digits-show_hex, show_hex-lower_hex, rune_count-show_hex, padded_hex-fits,
}

-- The text of an address: its forty digits, in lower case.
pub record AddressDigits (recipient : String) : Type 0 where
  pub digits : String
  pub text : recipient ≡ append "0x" digits
  pub lower : all_codes is_lower_hex digits ≡ true
  pub size : rune_count digits ≡ 40

pub validate_address-digits :
    (address recipient : String) → validate_address address ≡ ok recipient → AddressDigits recipient
unfolding validate_address hex_text
validate_address-digits address recipient h = elim (Option-cases (after_0x (trim_space address))) [
  | inl e ↦ absurd (cc)
  | inr (d, e) ↦ elim (Bool-cases (has_hex_digits 40 d)) [
    | inr f ↦ absurd (cc)
    | inl t ↦
        let (lower, size) = to_lower-lower_hex 40 d t in
        let text : recipient ≡ append "0x" (to_lower d) = cc in
        record { digits = to_lower d; text = text; lower = lower; size = size }
  ]
]

-- An address that was written by the chain package is an address, the same one.
pub validate_address-again :
    (digits : String)
    → all_codes is_lower_hex digits ≡ true
    → rune_count digits ≡ 40
    → validate_address (append "0x" digits) ≡ ok (append "0x" digits)
unfolding validate_address hex_text append after_0x all_codes is_plain or_invalid
validate_address-again digits lower size =
    let plain = lower_hex-plain digits lower in
    let form : has_hex_digits 40 digits ≡ true =
      subst (λ n. has_hex_digits n digits ≡ true) size (has_hex_digits-lower_hex digits lower) in
    let trimmed : trim_space (append "0x" digits) ≡ append "0x" digits =
      trim_space-plain (append "0x" digits) plain in
    ap (λ (s : String). or_invalid invalid_address (hex_text 40 s)) trimmed
    ∙ rw (form, to_lower-plain digits plain) refl

parse_big-lower_hex :
    (s : String)
    → 0 < rune_count s
    → all_codes is_lower_hex s ≡ true
    → parse_big s ≡ signed false (read_digits 16 0 s)
unfolding parse_big read_natural rune_count all_codes is_lower_hex
parse_big-lower_hex [] positive h = absurd (omega arith)
parse_big-lower_hex (c ∷ s) positive h =
    let no_minus : (code c == b'-') ≡ false = ground arith in
    let no_plus : (code c == b'+') ≡ false = ground arith in rw (no_minus, no_plus) refl

-- The digits of an amount are read as the amount.
pub parse_big-show_hex :
    (width n : ℕ) → n < 16 ^ suc width → parse_big (show_hex (suc width) n "") ≡ some (pos n)
unfolding rune_count all_codes signed read_digits
parse_big-show_hex width n b =
    let digits = show_hex-lower_hex (suc width) n "" refl in
    let size = rune_count-show_hex (suc width) n "" in
    let value : 0 * 16 ^ suc width + n ≡ n = omega arith in
    parse_big-lower_hex _ (omega (arith, size)) digits
    ∙ ap (signed false) (read_digits-show_hex (suc width) n 0 "" b ∙ ap some value)
    ∙ refl

-- The call, from its selector and the zeros before the recipient's digits on.
unfoldable pub call_text : String → String → String
call_text digits amount = append "0xa9059cbb000000000000000000000000" (append digits amount)

pub encode-call_text :
    (address recipient : String) (n : ℕ) (d : AddressDigits recipient)
    → validate_address address ≡ ok recipient
    → n < 16 ^ 64
    → encode_erc20_transfer address (some (pos n)) ≡ ok (call_text d.digits (show_hex 64 n ""))
unfolding encode_erc20_transfer encode_amount call_text padded_text zeros append transfer_selector
    drop_runes
encode-call_text address recipient n d h b =
    let digits : drop_runes 2 recipient ≡ d.digits = ap (drop_runes 2) d.text in
    rw (h, digits, d.size, padded_hex-fits 63 n b) refl

-- A text is what so many of its letters as it has are.
pub take_runes-whole : (s : String) → take_runes (rune_count s) s ≡ s
unfolding take_runes rune_count
take_runes-whole [] = refl
take_runes-whole (c ∷ s) = ap (λ (r : String). c ∷ r) (take_runes-whole s)
