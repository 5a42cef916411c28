-- ===== src/Slcan/Tests.antt =====
-- The serial protocol and its driver at concrete bytes.
use mathlib.Core.List.{Memᴰ}
use win_can_utils.Base.{
  ℕ, ◌+◌, ◌≤◌, ◌≡◌, ◌⊎◌, ◌↔◌, refl, true, false, List, [], ◌∷◌, ◌++◌, none, some, value, panic, All,
  get_elem?, arith,
}
use win_can_utils.Base.Bytes.{from_le_bytes}
use win_can_utils.Base.Hex.{format_hex}
use win_can_utils.Base.Text.{codes, format_decimal, trim}
use win_can_utils.Can.Plain.{plain_can, PlainFrame, plain_can_laws, data_frame, data_frame_fields}
use win_can_utils.Io.{IoResult, ok, err, invalid_input, broken_pipe, timed_out}
use win_can_utils.Slcan.Lines.{
  parse_slcan_line_bytes, parse_kind, has_timestamp, frame_text, send_frame, hex_bytes,
}
use win_can_utils.Slcan.Lines.Panics.{is_truncated, parse_slcan_line_bytes-panic}
use win_can_utils.Slcan.Lines.Reads.{stamp_text}
use win_can_utils.Slcan.Lines.RoundTrip.{MakesFrame, parse_slcan_line_bytes-frame_text}
use win_can_utils.Slcan.Driver.{
  SlcanDriver, read_all, read_frames, set_bitrate, closest_bitrate, supported_bitrates, distance,
  open_driver, memchr, finish_read, line_loop, get_measured_bitrate, collect, get_version,
  version_loop, read, elapsed,
}
use win_can_utils.Slcan.Driver.Chunks.{
  delivered, read_all-delivered, read_frames-IsSettled, IsSettled,
}
use win_can_utils.Slcan.Driver.Bitrates.{closest_bitrate_lem, set_bitrate_lem}

abbrev fresh : SlcanDriver
fresh = record { leftover = []; timestamp_high = 7; configured_bitrate = none }

parse_slcan_line_bytes-panic_example :
    (parse_slcan_line_bytes plain_can 0 (codes "t\r") ≡ panic) ↔ (is_truncated (codes "t\r") ≡ true)
parse_slcan_line_bytes-panic_example = parse_slcan_line_bytes-panic plain_can 0 (codes "t\r")

abbrev sample : PlainFrame
sample = data_frame 0x123 (0x11 ∷ 0xAB ∷ []) false

sample_line : send_frame plain_can sample ≡ codes "t123211AB\r"
unfolding send_frame frame_text hex_bytes format_hex format_decimal
sample_line = refl

parse_slcan_line_bytes-frame_text_example :
    MakesFrame plain_can plain_can_laws 0x123
      (0x11 ∷ 0xAB ∷ [])
      (omega arith, (omega arith, tt))
      (omega arith)
      7
      (some 0xDEAD_BEEF)
      (omega arith)
      false
      (frame_text plain_can sample ++ stamp_text (some 0xDEAD_BEEF))
parse_slcan_line_bytes-frame_text_example =
    parse_slcan_line_bytes-frame_text plain_can plain_can_laws 0x123 (0x11 ∷ 0xAB ∷ [])
      (omega arith, (omega arith, tt)) (omega arith) 7 (some 0xDEAD_BEEF) (omega arith) sample false
      (data_frame_fields 0x123 (0x11 ∷ 0xAB ∷ []) false) (omega arith)

abbrev cut_line : List (IoResult (List ℕ))
cut_line =
    ok (codes "t1232") ∷ ok (codes "11AB\rT") ∷ ok [] ∷ err broken_pipe ∷ ok (codes "lost\r") ∷ []

read_all-delivered_example :
    read_all plain_can fresh cut_line
    ≡ read_all plain_can fresh (ok (delivered plain_can cut_line) ∷ [])
unfolding memchr
read_all-delivered_example = read_all-delivered plain_can fresh cut_line refl

set_bitrate_lem_example :
    ((k : ℕ) × (get_elem? supported_bitrates k ≡ some 500_000)
      × (set_bitrate fresh 500_000 (ok tt) ≡ (
        ok tt,
        record fresh { configured_bitrate = some 500_000 },
        b'S' ∷ (b'0' + k) ∷ b'\r' ∷ [],
      )))
    ⊎ ((Memᴰ 500_000 supported_bitrates → ⊥)
        × (set_bitrate fresh 500_000 (ok tt) ≡ (err invalid_input, fresh, [])))
set_bitrate_lem_example = set_bitrate_lem fresh 500_000 (ok tt)

closest_bitrate_lem_example :
    (r : ℕ) × (closest_bitrate 240_000 ≡ ok r)
    × Memᴰ r supported_bitrates
    × All (λ rate. distance r 240_000 ≤ distance rate 240_000) supported_bitrates
closest_bitrate_lem_example = closest_bitrate_lem 240_000 (omega arith)

measured_rate : closest_bitrate 240_000 ≡ ok 250_000
unfolding closest_bitrate
measured_rate = refl

abbrev behind : SlcanDriver
behind = record { leftover = codes "t1"; timestamp_high = 8; configured_bitrate = none }

counted : read_frames plain_can fresh (ok (codes "J\rt1")) ≡ some (value (ok [], behind))
unfolding read_frames line_loop memchr finish_read parse_slcan_line_bytes parse_kind has_timestamp
counted = refl

read_frames-IsSettled_example : IsSettled plain_can behind
unfolding memchr
read_frames-IsSettled_example =
    read_frames-IsSettled plain_can fresh behind (codes "J\rt1") [] refl counted

-- Two reads bring the four bytes; the rate 0x3D090 is 250000.
measured_from_reads :
    get_measured_bitrate fresh
      (read (ok (0x90 ∷ 0xD0 ∷ [])) ∷ read (ok []) ∷ read (ok (3 ∷ 0 ∷ [])) ∷ [])
    ≡ some (ok 250_000, fresh)
unfolding get_measured_bitrate collect closest_bitrate from_le_bytes
measured_from_reads = refl

measured_too_late :
    get_measured_bitrate behind (read (ok (0x90 ∷ [])) ∷ elapsed ∷ [])
    ≡ some (err timed_out, record behind { leftover = [] })
unfolding get_measured_bitrate collect
measured_too_late = refl

-- Lines of frames are passed over.
version_behind_frames :
    get_version fresh
      (λ line. line)
      (read (ok (codes "T1ABCDEF00\r")) ∷ read (ok (codes "V1013\r")) ∷ [])
    ≡ (some (ok (codes "V1013")), fresh)
unfolding get_version version_loop trim
version_behind_frames = refl

open_driver-IsSettled : IsSettled plain_can open_driver
unfolding memchr
open_driver-IsSettled = refl
