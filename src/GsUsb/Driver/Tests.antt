-- ===== src/GsUsb/Driver/Tests.antt =====
-- Frames sent to a device that refuses padding.
use win_can_utils.Base.{
  ℕ, ◌≡◌, ◌⊎◌, ◌==◌, refl, if◌then◌else◌, true, false, [], ◌∷◌, length, none, some,
}
use win_can_utils.Base.Bytes.{to_le_bytes}
use win_can_utils.Can.Plain.{plain_can, PlainFrame, data_frame}
use win_can_utils.Io.{ok, err, broken_pipe, invalid_input}
use win_can_utils.GsUsb.Requests.{control_out, Device}
use win_can_utils.GsUsb.Encode.{
  echo_id, next_counter, maybe_pad_tx, tx_can_id, encode_frame, encode_frame_minimal,
}
use win_can_utils.GsUsb.Driver.{
  GsUsbDriver, encode, count_up, judge_write, write_again, fall_back, try_tx, transmit,
  is_broken_pipe, open_channel, open_if, open_channel_inner, close_channel_inner, request_unit,
  mode_request, mode_flags, enable_timestamp,
}
use win_can_utils.GsUsb.Driver.Channel.{reset_request, start_request, open_channel-ok}
use win_can_utils.GsUsb.Driver.Sent.{
  first_write, second_write, first_log, second_log, unpadded, transmit-ok,
}

-- Padded writes stall, those of 20 bytes succeed.
abbrev unpadding : Device
unpadding = record {
  answer = λ log. if length log == 1 then err broken_pipe else ok 20;
  filled = λ log. [];
}

abbrev padding : GsUsbDriver
padding = record {
  interface_number = 0;
  out_ep = 2;
  channel_index = 0;
  bt_const = none;
  configured_bitrate = none;
  timestamp_enabled = true;
  tx_counter = 3;
  features = 0x80;
  out_wmax = 32;
  pad_pkts = true;
}

abbrev sample : PlainFrame
sample = data_frame 0x123 (0x11 ∷ 0x22 ∷ []) false

sent_unpadded : transmit plain_can unpadding padding sample [] ≡ (
  ok tt,
  count_up plain_can unpadding (unpadded plain_can unpadding padding sample []),
  second_log plain_can unpadding padding sample [],
)
unfolding transmit try_tx fall_back write_again judge_write count_up encode is_broken_pipe
    maybe_pad_tx encode_frame_minimal encode_frame echo_id next_counter tx_can_id to_le_bytes
sent_unpadded = refl

transmit-ok_example :
    ((unpadding.answer (first_log plain_can unpadding padding sample [])
        ≡ ok (length (first_write plain_can unpadding padding sample [])))
      × (count_up plain_can unpadding (unpadded plain_can unpadding padding sample [])
          ≡ count_up plain_can unpadding padding)
      × (second_log plain_can unpadding padding sample []
          ≡ first_log plain_can unpadding padding sample []))
    ⊎ ((padding.pad_pkts ≡ true)
        × (unpadding.answer (first_log plain_can unpadding padding sample []) ≡ err broken_pipe)
        × (unpadding.answer (second_log plain_can unpadding padding sample [])
            ≡ ok (length (second_write plain_can unpadding padding sample [])))
        × (count_up plain_can unpadding (unpadded plain_can unpadding padding sample [])
            ≡ count_up plain_can unpadding (unpadded plain_can unpadding padding sample []))
        × (second_log plain_can unpadding padding sample []
            ≡ second_log plain_can unpadding padding sample []))
transmit-ok_example =
    transmit-ok plain_can unpadding padding sample []
      (count_up plain_can unpadding (unpadded plain_can unpadding padding sample []))
      (second_log plain_can unpadding padding sample []) sent_unpadded

not_yet : open_channel plain_can unpadding padding [] ≡ (err invalid_input, padding, [])
unfolding open_channel open_if
not_yet = refl

flags_at_start : mode_flags plain_can unpadding padding ≡ 0x90
unfolding mode_flags
flags_at_start = refl

abbrev ready : GsUsbDriver
ready = record padding { configured_bitrate = some 500_000 }

abbrev accepting : Device
accepting = record { answer = λ log. ok 8; filled = λ log. [] }

opened : open_channel plain_can accepting ready [] ≡ (
  ok tt,
  ready,
  reset_request plain_can accepting ready [] ∷ start_request plain_can accepting ready [] ∷ [],
)
unfolding open_channel open_if open_channel_inner request_unit mode_request mode_flags
opened = refl

open_channel-ok_example :
    ((bitrate : ℕ) × (ready.configured_bitrate ≡ some bitrate))
    × ((n : ℕ) × (accepting.answer (reset_request plain_can accepting ready [] ∷ []) ≡ ok n))
    × ((n : ℕ) × (accepting.answer (
            reset_request plain_can accepting ready []
            ∷ start_request plain_can accepting ready []
            ∷ [])
          ≡ ok n))
    × (ready ≡ ready)
    × ((reset_request plain_can accepting ready []
          ∷ start_request plain_can accepting ready []
          ∷ [])
        ≡ reset_request plain_can accepting ready []
          ∷ start_request plain_can accepting ready []
          ∷ [])
open_channel-ok_example =
    open_channel-ok plain_can accepting ready [] ready
      (reset_request plain_can accepting ready [] ∷ start_request plain_can accepting ready [] ∷ [])
      opened

closed_again :
    close_channel_inner plain_can accepting ready []
    ≡ (ok tt, ready, mode_request plain_can accepting ready 0 0 ∷ [])
unfolding close_channel_inner request_unit
closed_again = refl

stamped_anyway :
    enable_timestamp plain_can unpadding ready []
    ≡ (ok tt, ready, control_out 0x41 6 0 0 (1 ∷ 0 ∷ 0 ∷ 0 ∷ []) ∷ [])
unfolding enable_timestamp to_le_bytes
stamped_anyway = refl
