-- ===== src/Base/Text.antt =====
-- The operations on `str` that the programs call. A text is the list of its code points.
use Prim.Native.Char.{code}
use Prim.Native.String.{String}
use win_can_utils.Base.{
  ℕ, zero, suc, ◌+◌, ◌-◌, ◌*◌, ◌/◌, ◌%◌, ◌<◌, ◌≡◌, ltb, leb, ◌==◌, if◌then◌else◌, ◌&&◌, ◌||◌, Bool,
  true, false, List, [], ◌∷◌, ◌++◌, Option, none, some, map, length, replicate, arith,
}
use mathlib.Core.List.{reverse}

abbrev pub Text : Type 0
Text = List ℕ

-- A literal.
abbrev pub codes : String → Text
codes String.[] = []
codes (String.◌∷◌ c s) = code c ∷ codes s

unfoldable pub text_eq : Text → Text → Bool
text_eq [] [] = true
text_eq [] (d ∷ t) = false
text_eq (c ∷ s) [] = false
text_eq (c ∷ s) (d ∷ t) = (c == d) && text_eq s t

-- `split`: the parts between the separators, one more than there are separators
unfoldable pub split : ℕ → Text → List Text
split sep [] = [] ∷ []
split sep (c ∷ s) = elim (split sep s) [
  | [] ↦ [] ∷ []
  | part ∷ parts ↦ if c == sep then [] ∷ part ∷ parts else (c ∷ part) ∷ parts
]

unfoldable pub split_once : ℕ → Text → Option (Text × Text)
split_once sep [] = none
split_once sep (c ∷ s) =
    let rest = split_once sep s in
    if c == sep then some ([], s) else elim rest [ none ↦ none | some (a, b) ↦ some (c ∷ a, b) ]

unfoldable pub strip_prefix : Text → Text → Option Text
strip_prefix [] s = some s
strip_prefix (p ∷ ps) [] = none
strip_prefix (p ∷ ps) (c ∷ s) = if c == p then strip_prefix ps s else none

-- The code points of Unicode's property White_Space.
unfoldable pub is_whitespace : ℕ → Bool
is_whitespace c =
    (leb 0x09 c && leb c 0x0D)
    || (c == 0x20)
    || (c == 0x85)
    || (c == 0xA0)
    || (c == 0x1680)
    || (leb 0x2000 c && leb c 0x200A)
    || (c == 0x2028)
    || (c == 0x2029)
    || (c == 0x202F)
    || (c == 0x205F)
    || (c == 0x3000)

unfoldable pub trim_start : Text → Text
trim_start [] = []
trim_start (c ∷ s) = if is_whitespace c then trim_start s else c ∷ s

unfoldable pub trim : Text → Text
unfolding trim_start is_whitespace
trim s = reverse (trim_start (reverse (trim_start s)))

unfoldable pub to_ascii_lower : ℕ → ℕ
to_ascii_lower c = if leb b'A' c && leb c b'Z' then c + 32 else c

unfoldable pub eq_ignore_ascii_case : Text → Text → Bool
unfolding text_eq to_ascii_lower
eq_ignore_ascii_case s t = text_eq (map to_ascii_lower s) (map to_ascii_lower t)

unfoldable pub is_ascii_hexdigit : ℕ → Bool
is_ascii_hexdigit c =
    (leb b'0' c && leb c b'9') || (leb b'a' c && leb c b'f') || (leb b'A' c && leb c b'F')

dec_digits : ℕ → ℕ → Text
dec_digits zero n = (b'0' + n % 10) ∷ []
dec_digits (suc k) n =
    let front = dec_digits k (n / 10) in
    if ltb n 10 then (b'0' + n) ∷ [] else front ++ ((b'0' + n % 10) ∷ [])

-- `{}` of a `u32`
unfoldable pub format_decimal : ℕ → Text
unfolding dec_digits
format_decimal n = dec_digits 9 n

-- `{:0w}` of a `u64`
unfoldable pub format_padded_64 : ℕ → ℕ → Text
unfolding dec_digits
format_padded_64 w n = let digits = dec_digits 19 n in replicate (w - length digits) b'0' ++ digits

unfoldable pub to_ascii_upper : ℕ → ℕ
to_ascii_upper c = if leb b'a' c && leb c b'z' then c - 32 else c

-- `{:0w}` of a `u32`
unfoldable pub format_padded : ℕ → ℕ → Text
format_padded w n = let digits = format_decimal n in replicate (w - length digits) b'0' ++ digits

unfoldable pub read_decimal : ℕ → Text → ℕ → Option ℕ
read_decimal limit [] acc = some acc
read_decimal limit (c ∷ cs) acc =
    let next = acc * 10 + (c - b'0') in
    let rest = read_decimal limit cs next in
    if leb b'0' c && leb c b'9' then if ltb next limit then rest else none else none

-- `parse` of an unsigned type: a leading `+` is allowed in front of a digit.
unfoldable pub parse_decimal : ℕ → Text → Option ℕ
parse_decimal limit [] = none
parse_decimal limit (c ∷ []) = read_decimal limit (c ∷ []) 0
parse_decimal limit (c ∷ d ∷ cs) =
    if c == b'+' then read_decimal limit (d ∷ cs) 0 else read_decimal limit (c ∷ d ∷ cs) 0

pub format_decimal-digit : (n : ℕ) → n < 10 → format_decimal n ≡ (b'0' + n) ∷ []
unfolding format_decimal
format_decimal-digit n h = ground arith
