-- ===== src/GsUsb/Encode.antt =====
-- drivers/gs_usb/driver.rs: the host frames that `GsUsbDriver` sends.
-- A buffer of zeros that is filled front to back is the list of its parts.

pub mod RoundTrip
mod Tests
use win_can_utils.Base.{
  ℕ, ◌+◌, ◌-◌, ◌%◌, ◌^◌, min, bit_and, bit_or, ltb, ◌==◌, if◌then◌else◌, Bool, List, ◌∷◌, ◌++◌,
  length, take, replicate,
}
use win_can_utils.Base.Bytes.{to_le_bytes}
use win_can_utils.Can.{CanApi}
use win_can_utils.GsUsb.Constants.{
  can_eff_flag, can_rtr_flag, can_err_flag, can_sff_mask, can_eff_mask,
}

-- `tx_counter.fetch_add(1) % 16`, and the counter behind it
unfoldable pub echo_id : ℕ → ℕ
echo_id tx_counter = tx_counter % 16

unfoldable pub next_counter : ℕ → ℕ
next_counter tx_counter = (tx_counter + 1) % 2 ^ 32

-- `GsUsbDriver::maybe_pad_tx`
unfoldable pub maybe_pad_tx : Bool → ℕ → List ℕ → List ℕ
maybe_pad_tx pad_pkts out_wmax buf =
    if pad_pkts
    then (if ltb 0 out_wmax
        then (let rem = length buf % out_wmax in
            if rem == 0 then buf else buf ++ replicate (out_wmax - rem) 0)
        else buf)
    else buf

module _ (can : CanApi) where
  open can use {CanFrame, id, payload, dlc, is_extended, is_rtr, is_error}

  unfoldable pub tx_can_id : CanFrame → ℕ
  tx_can_id frame =
      let plain =
        if is_extended frame
        then bit_and (id frame) can_eff_mask
        else bit_and (id frame) can_sff_mask in
      let with_eff = if is_extended frame then bit_or plain can_eff_flag else plain in
      let with_rtr = if is_rtr frame then bit_or with_eff can_rtr_flag else with_eff in
      if is_error frame then bit_or with_rtr can_err_flag else with_rtr

  -- Both encoders, for `room` data bytes: the header, and the data padded with zeros.
  unfoldable pub encode_frame : ℕ → ℕ → ℕ → CanFrame → List ℕ
  encode_frame room tx_counter channel_index frame =
      let n = min (length (payload frame)) room in
      to_le_bytes 4 (echo_id tx_counter)
      ++ (to_le_bytes 4 (tx_can_id frame)
          ++ ((dlc frame % 256)
              ∷ channel_index
              ∷ 0
              ∷ 0
              ∷ (take n (payload frame) ++ replicate (room - n) 0)))

  pub encode_frame_tx_76 : ℕ → ℕ → CanFrame → List ℕ
  encode_frame_tx_76 = encode_frame 64

  unfoldable pub encode_frame_minimal : ℕ → ℕ → CanFrame → List ℕ
  encode_frame_minimal = encode_frame 8
