-- ===== src/Candump/Filter/Tests.antt =====
-- The filters of `candump` at concrete identifiers.
use win_can_utils.Base.{ℕ, ◌≡◌, ◌↔◌, refl, ◌&&◌, true, [], ◌∷◌, ◌++◌, arith}
use win_can_utils.Base.Hex.{format_hex, from_str_radix}
use win_can_utils.Base.Text.{
  codes, split, trim, eq_ignore_ascii_case, strip_prefix, split_once, is_ascii_hexdigit,
}
use win_can_utils.Candump.Filter.{
  Filter, match, not_match, error_mask, join, matches, filter_check, is_dropped, ok, err,
  parse_interface, invalid_can_id, parse_token, is_hex, parse_hex, parse_pair,
}
use win_can_utils.Candump.Filter.Check.{
  any_match, all_match, filter_check_lem, matches_plain, is_dropped-join,
}
use win_can_utils.Candump.Filter.Read.{parse_token-format_hex}

abbrev engine : Filter
engine = match 0x100 0x700

abbrev not_diagnosis : Filter
not_diagnosis = not_match 0x7DF 0x7FF

filter_check_lem_example :
    (filter_check (engine ∷ []) 0x123 ≡ any_match (engine ∷ []) 0x123)
    × (filter_check (engine ∷ join ∷ not_diagnosis ∷ []) 0x123
        ≡ (any_match (engine ∷ []) 0x123 && all_match (not_diagnosis ∷ []) 0x123))
filter_check_lem_example = filter_check_lem (engine ∷ []) (not_diagnosis ∷ []) 0x123 tt

is_dropped-join_example : is_dropped (join ∷ engine ∷ []) 0x123 ≡ true
is_dropped-join_example = is_dropped-join (engine ∷ []) 0x123

matches_one : (matches (match 0x123 0xFFFF_FFFF) 0x124 ≡ true) ↔ (◌≡◌ {A = ℕ} 0x124 0x123)
matches_one = matches_plain 0x123 0x124 (omega arith) (omega arith)

parse_token-format_hex_example :
    (parse_token (format_hex 8 0x123 ++ (b':' ∷ format_hex 8 0x7FF)) ≡ ok (match 0x123 0x7FF))
    × (parse_token (format_hex 8 0x123 ++ (b'~' ∷ format_hex 8 0x7FF)) ≡ ok (not_match 0x123 0x7FF))
parse_token-format_hex_example = parse_token-format_hex 0x123 0x7FF (omega arith) (omega arith)

whole_specification :
    parse_interface (codes "can0,123, 100:700,,7DF~7ff,j,#0x1F")
    ≡ ok (record {
      ifname = codes "can0";
      filters =
          match 0x123 0xFFFF_FFFF
          ∷ match 0x100 0x700
          ∷ not_match 0x7DF 0x7FF
          ∷ join
          ∷ error_mask 0x1F
          ∷ [];
    })
unfolding parse_interface split trim parse_token eq_ignore_ascii_case strip_prefix split_once is_hex
    is_ascii_hexdigit parse_hex from_str_radix parse_pair
whole_specification = refl

invalid_specification : parse_interface (codes "can0,-1:700") ≡ err invalid_can_id
unfolding parse_interface split trim parse_token eq_ignore_ascii_case strip_prefix split_once is_hex
    is_ascii_hexdigit parse_hex from_str_radix parse_pair
invalid_specification = refl
