-- ===== src/Candump/Output/Tests.antt =====
-- Lines that candump prints.
use win_can_utils.Base.{◌≡◌, refl, false, [], ◌∷◌, some}
use win_can_utils.Base.Hex.{format_hex}
use win_can_utils.Base.Text.{codes, format_decimal, format_padded, format_padded_64}
use win_can_utils.Can.Plain.{plain_can, data_frame}
use win_can_utils.Io.{ok, err, other}
use win_can_utils.Candump.Filter.{match, is_dropped, filter_check, check_loop, matches}
use win_can_utils.Candump.Stamps.{zero_based, new_ctx, get_timestamp, by_mode, micros_since}
use win_can_utils.Candump.Output.{
  stamp_text, pad_left_8, join_bytes, print_id, print_line, run_interface,
}

one_line :
    print_line plain_can
      (codes "can0")
      (some 12_000_034)
      (data_frame 0x123 (0x0A ∷ 0xFF ∷ []) false)
    ≡ codes "(012.000034) can0      123   [2]  0A FF"
unfolding print_line print_id stamp_text pad_left_8 join_bytes format_hex format_decimal
    format_padded format_padded_64
one_line = refl

filtered :
    run_interface plain_can (codes "can0") (match 0x123 0x7FF ∷ []) (new_ctx zero_based false 0) (
      (5_000, 0, ok (data_frame 0x124 [] false))
      ∷ (9_000, 0, ok (data_frame 0x123 [] false))
      ∷ (9_500, 0, err other)
      ∷ (9_900, 0, ok (data_frame 0x123 [] false))
      ∷ [])
    ≡ codes "(000.000009) can0      123   [0]  " ∷ []
unfolding run_interface is_dropped filter_check check_loop matches get_timestamp by_mode
    micros_since print_line print_id stamp_text pad_left_8 join_bytes format_hex format_decimal
    format_padded format_padded_64
filtered = refl
