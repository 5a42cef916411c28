-- ===== src/Cansend.antt =====
-- bin/cansend.rs: the frame argument and the retried connection.
pub mod RoundTrip
pub mod Retry
pub mod Panics
mod Tests
use win_can_utils.Base.{
  ℕ, zero, suc, ◌+◌, ◌%◌, ◌^◌, ltb, leb, ◌==◌, ◌&&◌, not, if◌then◌else◌, Bool, true, false, List,
  [], ◌∷◌, Option, none, some, Outcome, value, panic,
}
use win_can_utils.Base.Hex.{from_str_radix}
use win_can_utils.Base.Text.{Text, split}
use win_can_utils.Can.{CanApi}
use win_can_utils.Io.{IoResult, ok, err}

-- How many bytes a character takes in a `str`.
unfoldable pub len_utf8 : ℕ → ℕ
len_utf8 c = if ltb c 0x80 then 1 else if ltb c 0x800 then 2 else if ltb c 0x1_0000 then 3 else 4

-- `len()` of a `str`, in bytes
unfoldable pub text_len : Text → ℕ
unfolding len_utf8
text_len [] = 0
text_len (c ∷ s) = len_utf8 c + text_len s

-- A byte in front of the ones that the rest gives, if it gives any.
unfoldable pub with_byte : ℕ → Outcome (Option (List ℕ)) → Outcome (Option (List ℕ))
with_byte byte panic = panic
with_byte byte (value none) = value none
with_byte byte (value (some bytes)) = value (some (byte ∷ bytes))

-- The bytes that `&data_str[i..i + 2]` and `from_str_radix` give for `i` = 0, 2, …, as `collect` takes
-- them: the first failure ends it. A slice that would cut a character, or reach behind the end,
-- panics; one that holds a character of two bytes is no number.
unfoldable pub read_pairs : Text → Outcome (Option (List ℕ))
read_pairs [] = value (some [])
read_pairs (c ∷ []) = if len_utf8 c == 2 then value none else panic
read_pairs (c ∷ d ∷ s) =
    let rest = read_pairs s in
    if len_utf8 c == 1
    then if len_utf8 d == 1
      then elim (from_str_radix (2 ^ 8) (c ∷ d ∷ [])) [
        | none ↦ value none
        | some byte ↦ with_byte byte rest
      ]
      else panic
    else if len_utf8 c == 2
    then value none
    else panic

module _ (can : CanApi) where
  open can use {CanFrame, new, new_eff}

  -- The two parts of the argument.
  unfoldable pub parse_parts : Text → Text → Outcome (Option CanFrame)
  parse_parts id_str data_str = elim (from_str_radix (2 ^ 32) id_str) [
    | none ↦ value none
    | some id ↦
        if text_len data_str % 2 == 0
        then elim (read_pairs data_str) [
          | panic ↦ panic
          | value none ↦ value none
          | value (some bytes) ↦ value (if ltb 0x7FF id then new_eff id bytes else new id bytes)
        ]
        else value none
  ]

  unfoldable pub parse_cansend_frame : Text → Outcome (Option CanFrame)
  parse_cansend_frame input = elim (split b'#' input) [
    | id_str ∷ data_str ∷ [] ↦ parse_parts id_str data_str
    | _ ↦ value none
  ]

-- `connect_pipe_retry`: the k-th call of `open_write_only`, from 0, answers `opens k`. `none` if the
-- fuel does not suffice.
pub connect_pipe_retry : {P : Type 0} → (ℕ → IoResult P) → ℕ → ℕ → ℕ → Option (Option P)
connect_pipe_retry opens max_attempts zero attempts = none
connect_pipe_retry opens max_attempts (suc fuel) attempts = elim (opens attempts) [
  | ok pipe ↦ some (some pipe)
  | err kind ↦
      let rest = connect_pipe_retry opens max_attempts fuel (attempts + 1) in
      if leb max_attempts (attempts + 1) then some none else rest
]
