-- ===== src/Payment/RoundTrip.antt =====
-- What internal/chain writes as a token's call, the payment service reads back.
use de_box_asset_alert.Prelude.{
  ℕ, ◌<◌, ◌^◌, String, ◌≡◌, refl, ap, sym, ◌∙◌, subst, true, some, arith, rune_count, take_runes,
  drop_runes, append, trim_space, to_lower, ok,
}
use de_box_asset_alert.Prelude.Int.{ℤ, pos}
use de_box_asset_alert.Chain.Hex.{parse_big}
use de_box_asset_alert.Chain.Profiles.{validate_address}
use de_box_asset_alert.Chain.Digits.{
  all_codes, is_plain, to_lower-plain, trim_space-plain, lower_hex-plain, all_codes-append,
  rune_count-append, take_runes-append, drop_runes-append,
}
use de_box_asset_alert.Chain.Numbers.{show_hex-lower_hex, rune_count-show_hex}
use de_box_asset_alert.Chain.Transfer.{show_hex, encode_erc20_transfer}
use de_box_asset_alert.Chain.RoundTrip.{
  call_text, encode-call_text, validate_address-digits, validate_address-again, parse_big-show_hex,
  take_runes-whole,
}
use de_box_asset_alert.Payment.Evidence.{text, value_string, transfer_of, decode_erc20_transfer}

module _ (digits amount : String) (size : rune_count digits ≡ 40)
    (width : rune_count amount ≡ 64) where
  call_text-count : rune_count (call_text digits amount) ≡ 138
  unfolding call_text append rune_count
  call_text-count = omega (arith, rune_count-append digits amount)

  call_text-recipient :
      take_runes 64 (drop_runes 10 (call_text digits amount))
      ≡ append "000000000000000000000000" digits
  unfolding call_text append take_runes drop_runes
  call_text-recipient = ap (append "000000000000000000000000") (
      subst (λ k. take_runes k (append digits amount) ≡ digits) size
        (take_runes-append digits amount))

  call_text-amount : take_runes 64 (drop_runes 74 (call_text digits amount)) ≡ amount
  unfolding call_text append drop_runes
  call_text-amount =
      ap (take_runes 64) (
        subst (λ k. drop_runes k (append digits amount) ≡ amount) size
          (drop_runes-append digits amount))
      ∙ subst (λ k. take_runes k amount ≡ amount) width (take_runes-whole amount)

  call_text-plain :
      all_codes is_plain digits ≡ true
      → all_codes is_plain amount ≡ true
      → all_codes is_plain (call_text digits amount) ≡ true
  unfolding call_text all_codes is_plain
  call_text-plain d a =
      all_codes-append is_plain "0xa9059cbb000000000000000000000000" _ refl
        (all_codes-append is_plain digits amount d a)

  call_text-selector : take_runes 10 (call_text digits amount) ≡ "0xa9059cbb"
  unfolding call_text append take_runes
  call_text-selector = refl

  word_zeros : take_runes 24 (append "000000000000000000000000" digits) ≡ "000000000000000000000000"
  unfolding append take_runes
  word_zeros = refl

  word_digits : drop_runes 24 (append "000000000000000000000000" digits) ≡ digits
  unfolding append drop_runes
  word_digits = refl

  -- A call with these parts is decoded into what the parts are read as.
  decode-call_text :
      {a : String} {n : ℤ}
      → all_codes is_plain digits ≡ true
      → all_codes is_plain amount ≡ true
      → validate_address (append "0x" digits) ≡ ok a
      → parse_big amount ≡ some n
      → decode_erc20_transfer (text (call_text digits amount))
        ≡ ok (record { recipient = a; amount = n })
  unfolding decode_erc20_transfer transfer_of value_string
  decode-call_text {a} {n} plain_d plain_a read_d read_a =
      let plain = call_text-plain plain_d plain_a in
      let value : to_lower (trim_space (call_text digits amount)) ≡ call_text digits amount =
        ap to_lower (trim_space-plain _ plain) ∙ to_lower-plain _ plain in
      rw
        (
          value, call_text-count, call_text-selector, call_text-recipient, word_zeros, word_digits,
          read_d, call_text-amount, read_a,
        )
        refl

-- A transfer of fewer than 2 ^ 256 units to a valid address is written, and the payment service reads
-- from what is written the address, in its normal form, and the same number of units.
pub decode_encode_transfer :
    (address recipient : String) (n : ℕ)
    → validate_address address ≡ ok recipient
    → n < 2 ^ 256
    → (call : String) × (encode_erc20_transfer address (some (pos n)) ≡ ok call)
      × (decode_erc20_transfer (text call) ≡ ok (record { recipient = recipient; amount = pos n }))
unfolding all_codes rune_count
decode_encode_transfer address recipient n h b =
    let d = validate_address-digits address recipient h in
    let amount = show_hex-lower_hex 64 n "" refl in
    let width = rune_count-show_hex 64 n "" in
    (
      call_text d.digits (show_hex 64 n ""),
      encode-call_text address recipient n d h b,
      decode-call_text d.digits (show_hex 64 n "") d.size (omega (arith, width))
          (lower_hex-plain d.digits d.lower) (lower_hex-plain _ amount)
          (validate_address-again d.digits d.lower d.size ∙ ap ok (sym d.text))
          (parse_big-show_hex 63 n b),
    )
