-- ===== src/Cansend/Tests.antt =====
-- Arguments of `cansend`, and a pipe that opens at the third attempt.
use win_can_utils.Base.{
  ℕ, ◌≡◌, refl, ltb, if◌then◌else◌, true, false, [], ◌∷◌, ◌++◌, some, value, panic, Returns, arith,
}
use win_can_utils.Base.Hex.{format_hex, from_str_radix}
use win_can_utils.Base.Text.{codes, split}
use win_can_utils.Can.{IsDataFrame}
use win_can_utils.Can.Plain.{plain_can, PlainFrame, plain_can_laws, data_frame}
use win_can_utils.Io.{IoResult, ok, err, not_found}
use win_can_utils.Slcan.Lines.{hex_bytes}
use win_can_utils.Cansend.{
  parse_cansend_frame, parse_parts, read_pairs, with_byte, text_len, len_utf8, connect_pipe_retry,
}
use win_can_utils.Cansend.Panics.{parse_cansend_frame-ascii}
use win_can_utils.Cansend.RoundTrip.{parse_cansend_frame-print}

parse_cansend_frame-print_example :
    (g : PlainFrame) × (parse_cansend_frame plain_can
        (format_hex 3 0x123 ++ (b'#' ∷ hex_bytes (0x11 ∷ 0xAB ∷ [])))
      ≡ value (some g))
    × IsDataFrame plain_can g 0x123 (0x11 ∷ 0xAB ∷ []) false
parse_cansend_frame-print_example =
    parse_cansend_frame-print plain_can plain_can_laws 0x123 (0x11 ∷ 0xAB ∷ [])
      (omega arith, (omega arith, tt)) (omega arith) (omega arith) 2 (omega arith)

parse_cansend_frame-ascii_example : Returns (parse_cansend_frame plain_can (codes "1#zz"))
parse_cansend_frame-ascii_example =
    parse_cansend_frame-ascii plain_can (codes "1#zz")
      (omega arith, (omega arith, (omega arith, (omega arith, tt))))

extended_argument :
    parse_cansend_frame plain_can (codes "1ABCDEFC#11aa22")
    ≡ value (some (data_frame 0x1ABC_DEFC (0x11 ∷ 0xAA ∷ 0x22 ∷ []) true))
unfolding parse_cansend_frame parse_parts split from_str_radix read_pairs with_byte text_len
    len_utf8
extended_argument = refl

-- The second character takes two bytes, and the first slice ends inside it.
accented_argument : parse_cansend_frame plain_can (codes "1#0é0") ≡ panic
unfolding parse_cansend_frame parse_parts split from_str_radix read_pairs with_byte text_len
    len_utf8
accented_argument = refl

abbrev slow_server : ℕ → IoResult ℕ
slow_server k = if ltb k 2 then err not_found else ok k

third_attempt : connect_pipe_retry slow_server 5 5 0 ≡ some (some 2)
unfolding connect_pipe_retry
third_attempt = refl
