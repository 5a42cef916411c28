-- ===== src/Cansend/Panics.antt =====
-- Where the slices of `parse_cansend_frame` stay in range.
use win_can_utils.Base.{
  ℕ, ◌%◌, ◌^◌, ◌<◌, ◌≡◌, refl, ltb, ◌==◌, if◌then◌else◌, inl, inr, List, [], ◌∷◌, length, All,
  Option, none, some, Option-cases, Bool-cases, Outcome, value, panic, Returns, Returns-option,
  arith,
}
use win_can_utils.Base.Hex.{from_str_radix}
use win_can_utils.Base.Text.{Text, split}
use win_can_utils.Can.{CanApi}
use win_can_utils.Cansend.{
  len_utf8, text_len, with_byte, read_pairs, parse_parts, parse_cansend_frame,
}

-- ASCII text: each character is one byte.
abbrev pub IsAscii : Text → Type 0
IsAscii = All (λ c. c < 0x80)

len_utf8-ascii : (c : ℕ) → c < 0x80 → len_utf8 c ≡ 1
unfolding len_utf8
len_utf8-ascii c h = ground arith

text_len-ascii : (s : Text) → IsAscii s → text_len s ≡ length s
unfolding text_len
text_len-ascii [] all = refl
text_len-ascii (c ∷ s) (h, all) = omega (arith, len_utf8-ascii c h, text_len-ascii s all)

with_byte-Returns :
    (b : ℕ) (rest : Outcome (Option (List ℕ))) → Returns rest → Returns (with_byte b rest)
unfolding with_byte
with_byte-Returns b panic (a, e) = absurd cc
with_byte-Returns b (value none) h = (_, refl)
with_byte-Returns b (value (some bytes)) h = (_, refl)

read_pairs-ascii : (s : Text) → IsAscii s → length s % 2 ≡ 0 → Returns (read_pairs s)
unfolding read_pairs
read_pairs-ascii [] all even = (some [], refl)
read_pairs-ascii (c ∷ []) all even = absurd (omega arith)
read_pairs-ascii (c ∷ d ∷ s) (hc, (hd, all)) even =
    let rest = read_pairs-ascii s all (omega arith) in
    rw (len_utf8-ascii c hc, len_utf8-ascii d hd)
      (elim (Option-cases (from_str_radix (2 ^ 8) (c ∷ d ∷ []))) [
        | inl bad ↦ rw bad (none, refl)
        | inr (b, good) ↦ rw good (with_byte-Returns b (read_pairs s) rest)
      ])

-- A character in front of the parts of the rest.
split_front :
    (c : ℕ) (parts : List Text)
    → c < 0x80
    → All IsAscii parts
    → All IsAscii (elim parts [
      | [] ↦ [] ∷ []
      | part ∷ parts ↦ if c == b'#' then [] ∷ part ∷ parts else (c ∷ part) ∷ parts
    ])
split_front c [] h all = (tt, tt)
split_front c (part ∷ parts) h (first, all) = elim (Bool-cases (c == b'#')) [
  | inl e ↦ rw e (tt, (first, all))
  | inr e ↦ rw e ((h, first), all)
]

split-IsAscii : (s : Text) → IsAscii s → All IsAscii (split b'#' s)
unfolding split
split-IsAscii [] all = (tt, tt)
split-IsAscii (c ∷ s) (h, all) = split_front c (split b'#' s) h (split-IsAscii s all)

module _ (can : CanApi) where
  made :
      (i : ℕ) (o : Outcome (Option (List ℕ)))
      → Returns o
      → Returns (elim o [
        | panic ↦ panic
        | value none ↦ value none
        | value (some bytes) ↦ value (if ltb 0x7FF i then can.new_eff i bytes else can.new i bytes)
      ])
  made i panic (a, e) = absurd cc
  made i (value none) h = (none, refl)
  made i (value (some bytes)) h = (_, refl)

  parse_parts-ascii :
      (id_str data_str : Text) → IsAscii data_str → Returns (parse_parts can id_str data_str)
  unfolding parse_parts
  parse_parts-ascii id_str data_str all =
      Returns-option (from_str_radix (2 ^ 32) id_str) none _ (λ i.
        elim (Bool-cases (text_len data_str % 2 == 0)) [
          | inr odd ↦ rw odd (none, refl)
          | inl even ↦
              let pairs =
                read_pairs-ascii data_str all (ground (arith, text_len-ascii data_str all)) in
              rw even (made i (read_pairs data_str) pairs)
        ])

  of_parts :
      (parts : List Text)
      → All IsAscii parts
      → Returns
          (elim parts [ id_str ∷ data_str ∷ [] ↦ parse_parts can id_str data_str | _ ↦ value none ])
  of_parts [] all = (none, refl)
  of_parts (a ∷ []) all = (none, refl)
  of_parts (a ∷ b ∷ []) (first, (second, all)) = parse_parts-ascii a b second
  of_parts (a ∷ b ∷ c ∷ parts) all = (none, refl)

  -- An argument in ASCII never makes the parser panic.
  pub parse_cansend_frame-ascii :
      (input : Text) → IsAscii input → Returns (parse_cansend_frame can input)
  unfolding parse_cansend_frame
  parse_cansend_frame-ascii input all = of_parts (split b'#' input) (split-IsAscii input all)
