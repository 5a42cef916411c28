-- ===== src/Candump/Filter.antt =====
-- bin/candump.rs: `Filter`, `CandumpInterface::parse_and_connect` up to the connection, and
-- `filter_check`.
pub mod Check
pub mod Read
mod Tests
use win_can_utils.Base.{
  ℕ, ◌^◌, ◌≡◌, bit_and, ◌==◌, not, ◌&&◌, ◌||◌, if◌then◌else◌, Bool, true, false, List, [], ◌∷◌,
  ◌++◌, Option, none, some,
}
use win_can_utils.Base.Hex.{from_str_radix}
use win_can_utils.Base.Text.{
  Text, codes, split, split_once, strip_prefix, trim, eq_ignore_ascii_case, is_ascii_hexdigit,
}

pub data Filter : Type 0 where
  match : ℕ → ℕ → Filter
  not_match : ℕ → ℕ → Filter
  error_mask : ℕ → Filter
  join : Filter

-- Identifiers and masks are `u32`, as `(id, mask)`.
unfoldable pub matches : Filter → ℕ → Bool
matches (match id mask) can_id = bit_and can_id mask == bit_and id mask
matches (not_match id mask) can_id = not (bit_and can_id mask == bit_and id mask)
matches (error_mask mask) can_id = false
matches join can_id = true

-- The loop of `filter_check`, with its two flags.
unfoldable pub check_loop : List Filter → ℕ → Bool → Bool → Bool
check_loop [] can_id matched join_mode = matched
check_loop (join ∷ fs) can_id matched join_mode = check_loop fs can_id matched true
check_loop (error_mask m ∷ fs) can_id matched join_mode = check_loop fs can_id matched join_mode
check_loop (match i m ∷ fs) can_id matched join_mode =
    let hit = matches (match i m) can_id in
    check_loop fs can_id (if join_mode then matched && hit else matched || hit) join_mode
check_loop (not_match i m ∷ fs) can_id matched join_mode =
    let hit = matches (not_match i m) can_id in
    check_loop fs can_id (if join_mode then matched && hit else matched || hit) join_mode

unfoldable pub filter_check : List Filter → ℕ → Bool
filter_check fs can_id = check_loop fs can_id false false

-- `interface.filters.len() > 0 && !interface.filter_check(frame.id())` of `run_interfaces`
unfoldable pub is_dropped : List Filter → ℕ → Bool
is_dropped [] can_id = false
is_dropped (f ∷ fs) can_id = not (filter_check (f ∷ fs) can_id)

pub parse_hex : Text → Option ℕ
parse_hex s = elim (strip_prefix (codes "0x") s) [
  | some rest ↦ from_str_radix (2 ^ 32) rest
  | none ↦ elim (strip_prefix (codes "0X") s) [
    | some rest ↦ from_str_radix (2 ^ 32) rest
    | none ↦ from_str_radix (2 ^ 32) s
  ]
]

pub is_hex : Text → Bool
is_hex [] = true
is_hex (c ∷ s) = is_ascii_hexdigit c && is_hex s

-- The messages of `Err`, without the texts in them.
pub data SpecError : Type 0 where
  empty_specification invalid_error_mask invalid_can_id invalid_can_mask invalid_hex_id
        unrecognized :
      SpecError

pub data SpecResult (A : Type 0) : Type 0 where
  ok : A → SpecResult A
  err : SpecError → SpecResult A

infixl 5 ◌>>=◌
abbrev pub ◌>>=◌ : {A B : Type 0} → SpecResult A → (A → SpecResult B) → SpecResult B
r >>= k = elim r [ ok a ↦ k a | err e ↦ err e ]

or_error : Option ℕ → SpecError → SpecResult ℕ
or_error none e = err e
or_error (some v) e = ok v

-- `<can_id>:<can_mask>` or `<can_id>~<can_mask>`
pub parse_pair : (ℕ → ℕ → Filter) → Text → Text → SpecResult Filter
unfolding or_error
parse_pair make a b = do
  id ← or_error (parse_hex a) invalid_can_id
  mask ← or_error (parse_hex b) invalid_can_mask
  ok (make id mask)

parse_error_mask : Text → SpecResult Filter
unfolding or_error
parse_error_mask rest = do val ← or_error (parse_hex rest) invalid_error_mask; ok (error_mask val)

parse_plain : Text → SpecResult Filter
unfolding or_error
parse_plain token =
    if is_hex token
    then (do id ← or_error (parse_hex token) invalid_hex_id; ok (match id 0xFFFF_FFFF))
    else err unrecognized

-- One trimmed token that is not empty.
pub parse_token : Text → SpecResult Filter
unfolding parse_error_mask parse_plain
parse_token token =
    if eq_ignore_ascii_case token (codes "j")
    then ok join
    else elim (strip_prefix (codes "#") token) [
      | some rest ↦ parse_error_mask rest
      | none ↦ elim (split_once b':' token) [
        | some (a, b) ↦ parse_pair match a b
        | none ↦ elim (split_once b'~' token) [
          | some (a, b) ↦ parse_pair not_match a b
          | none ↦ parse_plain token
        ]
      ]
    ]

-- A token that is empty once trimmed is skipped.
parse_tokens : List Text → List Filter → SpecResult (List Filter)
parse_tokens [] filters = ok filters
parse_tokens (token ∷ tokens) filters = elim (trim token) [
  | [] ↦ parse_tokens tokens filters
  | c ∷ s ↦ parse_token (c ∷ s) >>= λ f. parse_tokens tokens (filters ++ (f ∷ []))
]

pub record InterfaceSpec : Type 0 where
  pub ifname : Text
  pub filters : List Filter

-- `ifname[,filter]*`
pub parse_interface : Text → SpecResult InterfaceSpec
unfolding parse_tokens
parse_interface spec = elim (split b',' spec) [
  | [] ↦ err empty_specification
  | ifname ∷ parts ↦ do
    filters ← parse_tokens parts []
    ok (record { ifname = ifname; filters = filters })
]
