-- ===== src/Cansend/RoundTrip.antt =====
-- The frame that `parse_cansend_frame` makes of an identifier and data bytes in hexadecimal.
use win_can_utils.Base.{
  ℕ, suc, ◌*◌, ◌%◌, ◌/◌, ◌^◌, ◌≤◌, ◌<◌, ◌≡◌, refl, ap, ◌∙◌, ltb, ◌==◌, if◌then◌else◌, false, List,
  [], ◌∷◌, ◌++◌, length, All, All-append, some, value, Bool-cases, inl, inr, arith,
}
use win_can_utils.Base.Bytes.{IsBytes}
use win_can_utils.Base.Hex.{hex_upper, from_str_radix, format_hex, fixed_hex}
use win_can_utils.Base.Hex.Laws.{
  IsHexUpper, fixed_hex-IsHexUpper, from_str_radix-fixed_hex, format_hex_lem,
}
use win_can_utils.Base.Text.{Text, split}
use win_can_utils.Can.{CanApi, IsDataFrame, DataFrameLaws}
use win_can_utils.Slcan.Lines.{hex_bytes}
use win_can_utils.Cansend.{
  len_utf8, text_len, with_byte, read_pairs, parse_parts, parse_cansend_frame,
}

digit_ne_hash : (d : ℕ) → d < 16 → (hex_upper d == b'#') ≡ false
unfolding hex_upper
digit_ne_hash d h = ground arith

len_utf8-hex_upper : (d : ℕ) → d < 16 → len_utf8 (hex_upper d) ≡ 1
unfolding hex_upper len_utf8
len_utf8-hex_upper d h = ground arith

-- Digits are one part.
split-digits : (s : Text) → All IsHexUpper s → split b'#' s ≡ s ∷ []
unfolding split
split-digits [] all = refl
split-digits (c ∷ s) ((d, small, e), all) =
    let differs : (c == b'#') ≡ false = ap (λ y. y == b'#') e ∙ digit_ne_hash d small in
    rw (split-digits s all, differs) refl

split-hash :
    (s t : Text) → All IsHexUpper s → All IsHexUpper t → split b'#' (s ++ (b'#' ∷ t)) ≡ s ∷ t ∷ []
unfolding split
split-hash [] t all_s all_t = rw (split-digits t all_t) refl
split-hash (c ∷ s) t ((d, small, e), all_s) all_t =
    let differs : (c == b'#') ≡ false = ap (λ y. y == b'#') e ∙ digit_ne_hash d small in
    rw (split-hash s t all_s all_t, differs) refl

-- A printed byte is two digits.
byte_digits : (b : ℕ) → b < 256 → format_hex 2 b ≡ hex_upper (b / 16 % 16) ∷ hex_upper (b % 16) ∷ []
unfolding fixed_hex
byte_digits b h = format_hex_lem 1 b (omega arith) (omega arith)

hex_bytes-IsHexUpper : (bytes : List ℕ) → IsBytes bytes → All IsHexUpper (hex_bytes bytes)
unfolding hex_bytes
hex_bytes-IsHexUpper [] all = tt
hex_bytes-IsHexUpper (b ∷ bytes) (small, all) =
    All-append IsHexUpper (format_hex 2 b) (hex_bytes bytes)
      (rw (byte_digits b small)
        ((b / 16 % 16, omega arith, refl), ((b % 16, omega arith, refl), tt)))
      (hex_bytes-IsHexUpper bytes all)

text_len-hex_bytes :
    (bytes : List ℕ) → IsBytes bytes → text_len (hex_bytes bytes) ≡ length bytes * 2
unfolding hex_bytes text_len
text_len-hex_bytes [] all = refl
text_len-hex_bytes (b ∷ bytes) (small, all) =
    rw
      (
        byte_digits b small,
        len_utf8-hex_upper (b / 16 % 16) (omega arith),
        len_utf8-hex_upper (b % 16) (omega arith),
      )
      (omega (arith, text_len-hex_bytes bytes all))

read_byte :
    (b : ℕ)
    → b < 256
    → from_str_radix (2 ^ 8) (hex_upper (b / 16 % 16) ∷ hex_upper (b % 16) ∷ []) ≡ some b
unfolding fixed_hex
read_byte b h = from_str_radix-fixed_hex (2 ^ 8) 1 b (omega arith) (omega arith)

read_pairs-hex_bytes :
    (bytes : List ℕ) → IsBytes bytes → read_pairs (hex_bytes bytes) ≡ value (some bytes)
unfolding hex_bytes read_pairs with_byte
read_pairs-hex_bytes [] all = refl
read_pairs-hex_bytes (b ∷ bytes) (small, all) =
    ap (λ t. read_pairs (t ++ hex_bytes bytes)) (byte_digits b small)
    ∙ rw
        (
          len_utf8-hex_upper (b / 16 % 16) (omega arith),
          len_utf8-hex_upper (b % 16) (omega arith),
          read_byte b small,
          read_pairs-hex_bytes bytes all,
          read_pairs,
        )
        refl

parse_two :
    (can : CanApi) (input id_str data_str : Text) (i : ℕ) (d : List ℕ)
    → split b'#' input ≡ id_str ∷ data_str ∷ []
    → from_str_radix (2 ^ 32) id_str ≡ some i
    → text_len data_str % 2 ≡ 0
    → read_pairs data_str ≡ value (some d)
    → parse_cansend_frame can input ≡ value (if ltb 0x7FF i then can.new_eff i d else can.new i d)
unfolding parse_cansend_frame parse_parts
parse_two can input id_str data_str i d parts id_read even read =
    rw (parts, id_read, even, read, parse_cansend_frame, parse_parts) refl

module _ (can : CanApi) (laws : DataFrameLaws can) (i : ℕ) (d : List ℕ) (bytes : IsBytes d)
    (small : length d ≤ 8) (fits : i < 2 ^ 29) where
  made :
      (g : can.CanFrame) × ((if ltb 0x7FF i then can.new_eff i d else can.new i d) ≡ some g)
      × IsDataFrame can g i d (ltb 0x7FF i)
  made = elim (Bool-cases (ltb 0x7FF i)) [
    | inl e ↦ rw e (laws.new_eff_accepts i d (omega arith) small)
    | inr e ↦ rw e (laws.new_accepts i d (ground arith) small)
  ]

  -- An identifier below 2 ^ 29 that is printed in enough places, a `#`, and at most eight bytes in two
  -- digits each make the data frame with these, extended if the identifier is above 0x7FF.
  pub parse_cansend_frame-print :
      (w : ℕ)
      → i < 16 ^ suc w
      → (g : can.CanFrame) × (parse_cansend_frame can (format_hex (suc w) i ++ (b'#' ∷ hex_bytes d))
          ≡ value (some g))
        × IsDataFrame can g i d (ltb 0x7FF i)
  parse_cansend_frame-print w room =
      let (g, e, is) = made in
      let printed = format_hex_lem w i room (omega arith) in
      let parts =
        split-hash (fixed_hex (suc w) i) (hex_bytes d) (fixed_hex-IsHexUpper (suc w) i)
          (hex_bytes-IsHexUpper d bytes) in
      (
        g,
        rw printed (
            parse_two can (fixed_hex (suc w) i ++ (b'#' ∷ hex_bytes d)) (fixed_hex (suc w) i)
              (hex_bytes d) i d parts (from_str_radix-fixed_hex (2 ^ 32) w i room (omega arith))
              (omega (arith, text_len-hex_bytes d bytes)) (read_pairs-hex_bytes d bytes)
            ∙ ap (λ f. value f) e),
        is,
      )
