-- ===== src/Base/Hex/Laws.antt =====
-- Printing a number and reading it back.
use native.Mathlib.Nat.{pow-suc}
use win_can_utils.Base.{
  ℕ, zero, suc, ◌+◌, ◌-◌, ◌*◌, ◌/◌, ◌%◌, ◌^◌, ◌≤◌, ◌<◌, ◌≡◌, ◌≢◌, refl, sym, ap, ◌∙◌, ltb, ltb→lt,
  ◌==◌, true, false, List, [], ◌∷◌, ◌++◌, append_assoc, append-nil, length, length-append,
  replicate, All, All-append, some, arith, Bool-cases, inl, inr,
}
use win_can_utils.Base.Hex.{
  hex_value, read_hex, from_str_radix, hex_upper, hex_digits, format_hex, fixed_hex,
}

pub hex_value-hex_upper : (d : ℕ) → d < 16 → hex_value (hex_upper d) ≡ some d
unfolding hex_value hex_upper
hex_value-hex_upper d h = ground arith

sixteen : (a w : ℕ) → a * 16 ^ suc w ≡ 16 * (a * 16 ^ w)
sixteen a w = omega (arith, ap (λ (t : ℕ). a * t) (pow-suc 16 w))

pub length-fixed_hex : (w n : ℕ) → length (fixed_hex w n) ≡ w
unfolding fixed_hex
length-fixed_hex zero n = refl
length-fixed_hex (suc w) n = omega (
  arith,
  length-append (fixed_hex w (n / 16)) (hex_upper (n % 16) ∷ []),
  length-fixed_hex w (n / 16),
)

read_digit :
    (limit d acc : ℕ) (rest : List ℕ)
    → d < 16
    → acc * 16 + d < limit
    → read_hex limit (hex_upper d ∷ rest) acc ≡ read_hex limit rest (acc * 16 + d)
unfolding read_hex
read_digit limit d acc rest h fits = ground (arith, hex_value-hex_upper d h)

-- Reading `w` digits moves the number read so far `w` places up.
pub read_hex-fixed_hex :
    (limit w n acc : ℕ) (rest : List ℕ)
    → n < 16 ^ w
    → acc * 16 ^ w + n < limit
    → read_hex limit (fixed_hex w n ++ rest) acc ≡ read_hex limit rest (acc * 16 ^ w + n)
unfolding fixed_hex
read_hex-fixed_hex limit zero n acc rest h fits =
    let e : acc ≡ acc * 16 ^ 0 + n = omega arith in ap (read_hex limit rest) e
read_hex-fixed_hex limit (suc w) n acc rest h fits =
    let high = acc * 16 ^ w + n / 16 in
    let smaller : n / 16 < 16 ^ w = omega (arith, pow-suc 16 w) in
    let e : high * 16 + n % 16 ≡ acc * 16 ^ suc w + n = omega (arith, sixteen acc w) in
    rw append_assoc (
      read_hex-fixed_hex limit w (n / 16) acc (hex_upper (n % 16) ∷ rest) smaller (omega arith)
      ∙ read_digit limit (n % 16) high rest (omega arith) (omega arith)
      ∙ ap (read_hex limit rest) e)

-- Hexadecimal digits: neither a sign nor a separator.
abbrev pub IsHexUpper : ℕ → Type 0
IsHexUpper c = (d : ℕ) × (d < 16) × (c ≡ hex_upper d)

pub fixed_hex-IsHexUpper : (w n : ℕ) → All IsHexUpper (fixed_hex w n)
unfolding fixed_hex
fixed_hex-IsHexUpper zero n = tt
fixed_hex-IsHexUpper (suc w) n =
    All-append IsHexUpper (fixed_hex w (n / 16)) (hex_upper (n % 16) ∷ [])
      (fixed_hex-IsHexUpper w (n / 16)) ((n % 16, omega arith, refl), tt)

digit-ne-sign : (d : ℕ) → d < 16 → ((hex_upper d == b'+') ≡ false) × ((hex_upper d == b'-') ≡ false)
unfolding hex_upper
digit-ne-sign d h = (ground arith, ground arith)

from_str_radix-read_hex :
    (limit : ℕ) (s : List ℕ)
    → s ≢ []
    → All IsHexUpper s
    → from_str_radix limit s ≡ read_hex limit s 0
unfolding from_str_radix
from_str_radix-read_hex limit [] h all = absurd (h refl)
from_str_radix-read_hex limit (c ∷ []) h ((d, small, e), all) =
    let (plus, minus) = digit-ne-sign d small in rw (e, plus, minus)
from_str_radix-read_hex limit (c ∷ c' ∷ s) h ((d, small, e), all) =
    let (plus, minus) = digit-ne-sign d small in rw (e, plus)

pub fixed_hex-ne-nil : (w n : ℕ) → fixed_hex (suc w) n ≢ []
fixed_hex-ne-nil w n e = absurd (omega (arith, length-fixed_hex (suc w) n, ap length e))

-- Printed digits are read back.
pub from_str_radix-fixed_hex :
    (limit w n : ℕ)
    → n < 16 ^ suc w
    → n < limit
    → from_str_radix limit (fixed_hex (suc w) n) ≡ some n
unfolding read_hex
from_str_radix-fixed_hex limit w n h fits =
    let whole = read_hex-fixed_hex limit (suc w) n 0 [] h (omega arith) in
    let e : 0 * 16 ^ suc w + n ≡ n = omega arith in
    from_str_radix-read_hex limit _ (fixed_hex-ne-nil w n) (fixed_hex-IsHexUpper (suc w) n)
    ∙ ap (λ t. read_hex limit t 0) (sym (append-nil (fixed_hex (suc w) n)))
    ∙ whole
    ∙ ap some e

replicate-snoc : (w c : ℕ) → replicate w c ++ (c ∷ []) ≡ c ∷ replicate w c
replicate-snoc zero c = refl
replicate-snoc (suc w) c = ap (λ t. c ∷ t) (replicate-snoc w c)

fixed_hex-zero : (w : ℕ) → fixed_hex w 0 ≡ replicate w b'0'
unfolding fixed_hex hex_upper
fixed_hex-zero zero = refl
fixed_hex-zero (suc w) = rw (fixed_hex-zero w) (replicate-snoc w b'0')

one_digit : (w n : ℕ) → n < 16 → replicate w b'0' ++ (hex_upper n ∷ []) ≡ fixed_hex (suc w) n
unfolding fixed_hex
one_digit w n h =
    let top : n / 16 ≡ 0 = omega arith in
    let low : n % 16 ≡ n = omega arith in rw (top, low, fixed_hex-zero w)

abbrev IsPadded : ℕ → ℕ → List ℕ → Type 0
IsPadded w n digits =
    (length digits ≤ suc w)
    × (replicate (suc w - length digits) b'0' ++ digits ≡ fixed_hex (suc w) n)

more_digits :
    (w n : ℕ) (front : List ℕ)
    → IsPadded w (n / 16) front
    → IsPadded (suc w) n (front ++ (hex_upper (n % 16) ∷ []))
unfolding fixed_hex
more_digits w n front (short, padded) =
    let count = length-append front (hex_upper (n % 16) ∷ []) in
    let room : suc (suc w) - length (front ++ (hex_upper (n % 16) ∷ [])) ≡ suc w - length front =
      omega (arith, count) in
    (
      omega (arith, count),
      rw room (
          sym (append_assoc _ front (hex_upper (n % 16) ∷ []))
          ∙ ap (λ t. t ++ (hex_upper (n % 16) ∷ [])) padded),
    )

one_digit-IsPadded : (w n : ℕ) → n < 16 → IsPadded w n (hex_upper n ∷ [])
one_digit-IsPadded w n h =
    let e : suc w - 1 ≡ w = omega arith in (omega arith, rw e (one_digit w n h))

hex_digits-IsPadded : (k w n : ℕ) → n < 16 ^ suc k → n < 16 ^ suc w → IsPadded w n (hex_digits k n)
unfolding hex_digits
hex_digits-IsPadded zero w n hk hw =
    let low : n % 16 ≡ n = omega arith in rw low (one_digit-IsPadded w n (omega arith))
hex_digits-IsPadded (suc k) zero n hk hw =
    let small : ltb n 16 ≡ true = ground arith in rw small (one_digit-IsPadded zero n (omega arith))
hex_digits-IsPadded (suc k) (suc v) n hk hw =
    let fits_k : n / 16 < 16 ^ suc k = omega (arith, pow-suc 16 (suc k)) in
    let fits_v : n / 16 < 16 ^ suc v = omega (arith, pow-suc 16 (suc v)) in
    let longer =
      more_digits v n (hex_digits k (n / 16)) (hex_digits-IsPadded k v (n / 16) fits_k fits_v) in
    elim (Bool-cases (ltb n 16)) [
      | inl small ↦ rw small (one_digit-IsPadded (suc v) n (ltb→lt n 16 small))
      | inr large ↦ rw large longer
    ]

-- A print of `w + 1` places is that of exactly so many digits, if the number fits.
pub format_hex_lem :
    (w n : ℕ) → n < 16 ^ suc w → n < 2 ^ 32 → format_hex (suc w) n ≡ fixed_hex (suc w) n
unfolding format_hex
format_hex_lem w n h fits = (hex_digits-IsPadded 7 w n (omega arith) h).1
