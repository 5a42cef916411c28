-- ===== src/Pcan/Tests.antt =====
-- Messages of the PCAN driver.
use win_can_utils.Base.Text.{
  codes, trim, trim_start, is_whitespace, to_ascii_upper, strip_prefix, parse_decimal, read_decimal,
}
use win_can_utils.Pcan.Channels.{
  PeakChannels, take_idx, in_bus, or_else, without_prefix, parse_channel, open_pcan_channel,
  close_pcan_channel,
}
use win_can_utils.Base.{
  ◌+◌, ◌*◌, ◌^◌, ◌≡◌, refl, true, false, List, [], ◌∷◌, ◌++◌, none, some, arith,
}
use win_can_utils.Can.{IsDataFrame}
use win_can_utils.Can.Plain.{plain_can, PlainFrame, plain_can_laws, data_frame, data_frame_fields}
use win_can_utils.Io.{ok, err, not_found, invalid_data, invalid_input, other}
use win_can_utils.Pcan.{
  Peak, Message, Timestamp, queue_empty, timestamp_us, message_of, frame_of, read_frames,
  set_bitrate, open_channel, has_constant,
}
use win_can_utils.Pcan.Messages.{
  timestamp_us_lem, frames_of, answers_of, read_frames-frames_of, frame_of-message_of,
}

abbrev header_values : Peak
header_values = record { message_standard = 0; message_extended = 2 }

abbrev sample : PlainFrame
sample = data_frame 0x1ABC_DEF0 (0x11 ∷ 0x22 ∷ []) true

abbrev late : Timestamp
late = record { millis = 5; millis_overflow = 1; micros = 250 }

time_of_message : timestamp_us late ≡ (1 * 2 ^ 32 + 5) * 1000 + 250
time_of_message = timestamp_us_lem late (omega arith) (omega arith) (omega arith)

frame_of-message_of_example :
    (g : PlainFrame) × (frame_of plain_can header_values
        (message_of plain_can header_values sample)
        late
      ≡ some g)
    × IsDataFrame plain_can g 0x1ABC_DEF0 (0x11 ∷ 0x22 ∷ []) true
    × (g.stamp ≡ some (timestamp_us late))
frame_of-message_of_example =
    frame_of-message_of plain_can header_values sample 0x1ABC_DEF0 (0x11 ∷ 0x22 ∷ []) (omega arith)
      (refl, refl) late true plain_can_laws (data_frame_fields 0x1ABC_DEF0 (0x11 ∷ 0x22 ∷ []) true)
      (omega arith)

abbrev waiting : List (Message × Timestamp)
waiting =
    (
      record { msg_id = 0x7FF; msg_type = 0; len = 1; bytes = 9 ∷ 0 ∷ 0 ∷ 0 ∷ 0 ∷ 0 ∷ 0 ∷ 0 ∷ [] },
      late,
    )
    ∷ []

read_frames-frames_of_example :
    read_frames plain_can header_values
      (answers_of plain_can header_values waiting ++ (queue_empty ∷ []))
    ≡ some (elim (frames_of plain_can header_values waiting) [
      | none ↦ err invalid_data
      | some frames ↦ ok frames
    ])
read_frames-frames_of_example = read_frames-frames_of plain_can header_values waiting []

odd_bitrate : set_bitrate (some 5_000) 123_456 ≡ (err invalid_input, some 5_000)
unfolding set_bitrate has_constant
odd_bitrate = refl

no_bitrate : open_channel none true ≡ err other
unfolding open_channel
no_bitrate = refl

abbrev buses : PeakChannels
buses = record { usbbus1 = 0x51; pcibus1 = 0x41; lanbus1 = 0x801 }

named :
    (parse_channel buses (codes " pcan_usbbus2 ") ≡ some 0x52)
    × (parse_channel buses (codes "LANBUS16") ≡ some 0x810)
    × (parse_channel buses (codes "USBBUS17") ≡ none)
unfolding parse_channel without_prefix or_else in_bus take_idx trim trim_start is_whitespace
    to_ascii_upper strip_prefix parse_decimal read_decimal
named = (refl, refl, refl)

not_opened :
    (open_pcan_channel buses false (codes "USBBUS1") ≡ err not_found)
    × (close_pcan_channel true false ≡ err other)
unfolding open_pcan_channel close_pcan_channel
not_opened = (refl, refl)
