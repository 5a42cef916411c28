-- ===== src/Candump/Filter/Read.antt =====
-- Filters as `parse_and_connect` reads them back from the text a user writes.
use win_can_utils.Base.{
  ℕ, ◌^◌, ◌<◌, ◌≡◌, ◌≢◌, ◌⊎◌, inl, inr, refl, sym, ap, ◌∙◌, ◌==◌, false, [], ◌∷◌, ◌++◌, append-nil,
  none, some, All, arith,
}
use win_can_utils.Base.Hex.{hex_upper, format_hex, fixed_hex, from_str_radix}
use win_can_utils.Base.Hex.Laws.{
  IsHexUpper, fixed_hex-IsHexUpper, fixed_hex-ne-nil, from_str_radix-fixed_hex, format_hex_lem,
}
use win_can_utils.Base.Text.{
  Text, codes, text_eq, split_once, strip_prefix, to_ascii_lower, eq_ignore_ascii_case,
}
use win_can_utils.Candump.Filter.{Filter, match, not_match, parse_hex, ok, parse_pair, parse_token}

-- A character that is no digit of a number in print.
abbrev NotDigit : ℕ → Type 0
NotDigit c = ((c < 48) ⊎ (57 < c)) × ((c < 65) ⊎ (70 < c))

digit_differs : (d c : ℕ) → d < 16 → NotDigit c → (hex_upper d == c) ≡ false
unfolding hex_upper
digit_differs d c h out = ground arith

split_once-append :
    (s t : Text) (c : ℕ) → NotDigit c → All IsHexUpper s → split_once c (s ++ (c ∷ t)) ≡ some (s, t)
unfolding split_once
split_once-append [] t c out all = ground arith
split_once-append (x ∷ s) t c out ((d, small, e), all) =
    let other : (x == c) ≡ false = ap (λ y. y == c) e ∙ digit_differs d c small out in
    rw (split_once-append s t c out all, other)

split_once-absent :
    (s t : Text) (c : ℕ)
    → NotDigit c
    → All IsHexUpper s
    → split_once c t ≡ none
    → split_once c (s ++ t) ≡ none
unfolding split_once
split_once-absent [] t c out all absent = absent
split_once-absent (x ∷ s) t c out ((d, small, e), all) absent =
    let other : (x == c) ≡ false = ap (λ y. y == c) e ∙ digit_differs d c small out in
    rw (split_once-absent s t c out all absent, other)

-- A printed number has no prefix of two characters whose second is no digit.
strip_prefix-digits :
    (s : Text) (p c : ℕ) → NotDigit c → All IsHexUpper s → strip_prefix (p ∷ c ∷ []) s ≡ none
unfolding strip_prefix
strip_prefix-digits [] p c out all = refl
strip_prefix-digits (x ∷ []) p c out all = ground arith
strip_prefix-digits (x ∷ y ∷ s) p c out (first, ((d, small, e), all)) =
    let other : (y == c) ≡ false = ap (λ t. t == c) e ∙ digit_differs d c small out in
    ground (arith, other)

parse_hex-digits : (s : Text) → All IsHexUpper s → parse_hex s ≡ from_str_radix (2 ^ 32) s
unfolding parse_hex
parse_hex-digits s all =
    rw
      (
        strip_prefix-digits s b'0' b'x' (inr (omega arith), inr (omega arith)) all,
        strip_prefix-digits s b'0' b'X' (inr (omega arith), inr (omega arith)) all,
        parse_hex,
      )
      refl

-- A number printed in eight places is read back.
parse_hex-format_hex : (n : ℕ) → n < 2 ^ 32 → parse_hex (format_hex 8 n) ≡ some n
parse_hex-format_hex n h = rw (format_hex_lem 7 n (omega arith) h) (
    parse_hex-digits (fixed_hex 8 n) (fixed_hex-IsHexUpper 8 n)
    ∙ from_str_radix-fixed_hex (2 ^ 32) 7 n (omega arith) h)

format_hex-IsHexUpper : (n : ℕ) → n < 2 ^ 32 → All IsHexUpper (format_hex 8 n)
format_hex-IsHexUpper n h = rw (format_hex_lem 7 n (omega arith) h) (fixed_hex-IsHexUpper 8 n)

format_hex-ne-nil : (n : ℕ) → n < 2 ^ 32 → format_hex 8 n ≢ []
format_hex-ne-nil n h e = fixed_hex-ne-nil 7 n (sym (format_hex_lem 7 n (omega arith) h) ∙ e)

-- A text that starts with a digit is neither `j` nor the start of an error mask.
not_j : (s t : Text) → s ≢ [] → All IsHexUpper s → eq_ignore_ascii_case (s ++ t) (codes "j") ≡ false
unfolding eq_ignore_ascii_case text_eq to_ascii_lower hex_upper
not_j [] t h all = absurd (h refl)
not_j (c ∷ s) t h ((d, small, e), all) = ground arith

not_mask : (s t : Text) → s ≢ [] → All IsHexUpper s → strip_prefix (codes "#") (s ++ t) ≡ none
unfolding strip_prefix hex_upper
not_mask [] t h all = absurd (h refl)
not_mask (c ∷ s) t h ((d, small, e), all) = ground arith

parse_pair-format_hex :
    (make : ℕ → ℕ → Filter) (id mask : ℕ)
    → id < 2 ^ 32
    → mask < 2 ^ 32
    → parse_pair make (format_hex 8 id) (format_hex 8 mask) ≡ ok (make id mask)
unfolding parse_pair
parse_pair-format_hex make id mask hi hm =
    rw (parse_hex-format_hex id hi, parse_hex-format_hex mask hm, parse_pair) refl

-- A printed number behind a `~` has no colon.
no_colon : (t : Text) → All IsHexUpper t → split_once b':' (b'~' ∷ t) ≡ none
unfolding split_once
no_colon t all =
    let e = split_once-absent t [] b':' (inr (omega arith), inl (omega arith)) all refl in
    rw (sym (append-nil t)) (rw (e, split_once) refl)

-- Two printed numbers with a separator between them make a filter with a mask, the one or the other
-- kind by the separator.
pub parse_token-format_hex :
    (id mask : ℕ)
    → id < 2 ^ 32
    → mask < 2 ^ 32
    → (parse_token (format_hex 8 id ++ (b':' ∷ format_hex 8 mask)) ≡ ok (match id mask))
      × (parse_token (format_hex 8 id ++ (b'~' ∷ format_hex 8 mask)) ≡ ok (not_match id mask))
unfolding parse_token
parse_token-format_hex id mask hi hm =
    let digits_i = format_hex-IsHexUpper id hi in
    let digits_m = format_hex-IsHexUpper mask hm in
    let ne = format_hex-ne-nil id hi in
    let s = format_hex 8 id in
    let t = format_hex 8 mask in
    let colon : NotDigit b':' = (inr (omega arith), inl (omega arith)) in
    let tilde : NotDigit b'~' = (inr (omega arith), inr (omega arith)) in
    let pair : (make : ℕ → ℕ → Filter) → parse_pair make s t ≡ ok (make id mask) =
      λ make. parse_pair-format_hex make id mask hi hm in
    (
      rw
          (
            not_j s (b':' ∷ t) ne digits_i,
            not_mask s (b':' ∷ t) ne digits_i,
            split_once-append s t b':' colon digits_i,
            parse_token,
          )
          (pair match),
      rw
          (
            not_j s (b'~' ∷ t) ne digits_i,
            not_mask s (b'~' ∷ t) ne digits_i,
            split_once-absent s (b'~' ∷ t) b':' colon digits_i (no_colon t digits_m),
            split_once-append s t b'~' tilde digits_i,
            parse_token,
          )
          (pair not_match),
    )
