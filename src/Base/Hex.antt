-- ===== src/Base/Hex.antt =====
-- Hexadecimal numbers as Rust's standard library reads and prints them: `from_str_radix(_, 16)` of
-- an unsigned type, and the formats `{:0wX}`. Texts are lists of code points.
pub mod Laws
use native.Mathlib.Nat.{pow-suc}
use win_can_utils.Base.{
  ℕ, zero, suc, ◌+◌, ◌-◌, ◌*◌, ◌/◌, ◌%◌, ◌^◌, ◌≤◌, ◌<◌, ◌≡◌, ◌≢◌, refl, ap, ◌∙◌, ltb, leb, ◌==◌,
  if◌then◌else◌, ◌&&◌, ◌||◌, Bool, true, false, List, [], ◌∷◌, ◌++◌, append_assoc, length,
  length-append, length-replicate, replicate, All, Option, none, some, arith,
}

pub hex_value : ℕ → Option ℕ
hex_value c =
    if leb b'0' c && leb c b'9'
    then some (c - b'0')
    else if leb b'a' c && leb c b'f'
    then some (c - b'a' + 10)
    else if leb b'A' c && leb c b'F'
    then some (c - b'A' + 10)
    else none

-- The checked product and the checked sum fail together when the number does not fit.
pub read_hex : ℕ → List ℕ → ℕ → Option ℕ
read_hex limit [] acc = some acc
read_hex limit (c ∷ cs) acc = elim (hex_value c) [
  | none ↦ none
  | some d ↦ let next = acc * 16 + d in if ltb next limit then read_hex limit cs next else none
]

-- A leading `+` is allowed in front of a digit; a `-` is not, for an unsigned type.
unfoldable pub from_str_radix : ℕ → List ℕ → Option ℕ
unfolding read_hex hex_value
from_str_radix limit [] = none
from_str_radix limit (c ∷ []) = if c == b'+' || c == b'-' then none else read_hex limit (c ∷ []) 0
from_str_radix limit (c ∷ d ∷ cs) =
    if c == b'+' then read_hex limit (d ∷ cs) 0 else read_hex limit (c ∷ d ∷ cs) 0

-- `to_digit(10)`
unfoldable pub to_digit : ℕ → Option ℕ
to_digit c = if leb b'0' c && leb c b'9' then some (c - b'0') else none

unfoldable pub hex_upper : ℕ → ℕ
hex_upper d = if ltb d 10 then b'0' + d else b'A' + (d - 10)

-- The digits of a number below 16 ^ (k + 1), without leading zeros.
pub hex_digits : ℕ → ℕ → List ℕ
hex_digits zero n = hex_upper (n % 16) ∷ []
hex_digits (suc k) n =
    let front = hex_digits k (n / 16) in
    if ltb n 16 then hex_upper n ∷ [] else front ++ (hex_upper (n % 16) ∷ [])

-- `{:0wX}` of a `u32`
unfoldable pub format_hex : ℕ → ℕ → List ℕ
unfolding hex_digits hex_upper
format_hex w n = let digits = hex_digits 7 n in replicate (w - length digits) b'0' ++ digits

-- Exactly `w` digits.
unfoldable pub fixed_hex : ℕ → ℕ → List ℕ
fixed_hex zero n = []
fixed_hex (suc w) n = fixed_hex w (n / 16) ++ (hex_upper (n % 16) ∷ [])
