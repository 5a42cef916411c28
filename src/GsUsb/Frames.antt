-- ===== src/GsUsb/Frames.antt =====
-- drivers/gs_usb/frames.rs: one host frame at the front of the receive buffer.
-- `usize` has 64 bits. The frame's debug and trace messages are left out.

pub mod Bounds
pub mod Reads
pub mod Safety
pub mod Append
pub mod Timestamp
pub mod Waiting
pub mod Refused
pub mod Shape
pub mod Tests
use win_can_utils.Base.{
  ℕ, ◌+◌, ◌-◌, ◌*◌, ◌/◌, ◌%◌, ◌^◌, min, bit_and, bit_or, ltb, leb, ◌==◌, not, ◌&&◌, ◌||◌,
  if◌then◌else◌, Bool, false, List, length, Option, none, some, Outcome, value, ◌>>=◌, index, slice,
}
use win_can_utils.Base.Bytes.{from_le_bytes}
use win_can_utils.Can.{CanApi}
use win_can_utils.GsUsb.Constants.{
  gs_header_len, gs_can_echo_id_unused, can_eff_flag, can_rtr_flag, can_err_flag, can_sff_mask,
  can_eff_mask, can_err_mask,
}

pub dlc_to_len : ℕ → ℕ
dlc_to_len dlc =
    if leb dlc 8
    then dlc
    else if dlc == 9
    then 12
    else if dlc == 10
    then 16
    else if dlc == 11
    then 20
    else if dlc == 12
    then 24
    else if dlc == 13
    then 32
    else if dlc == 14
    then 48
    else if dlc == 15
    then 64
    else 0

-- `(x + 7) & !7`
pub roundup8 : ℕ → ℕ
roundup8 x = bit_and ((x + 7) % 2 ^ 64) (2 ^ 64 - 1 - 7)

pub align_up : ℕ → ℕ → ℕ
align_up x m = if m == 0 then x else (x + (m - 1)) / m * m

pub plausible_header : List ℕ → ℕ → Outcome Bool
plausible_header bytes expected_chan = if ltb (length bytes) gs_header_len then value false else (do
  dlc ← index bytes 8
  chan ← index bytes 9
  value (if ltb 15 dlc then false else chan == expected_chan))

-- The offset of the timestamp and the bytes that the frame takes, or `none` to wait for more.
pub aligned_payload : ℕ → ℕ
aligned_payload data_len = if leb data_len 8 then 8 else roundup8 data_len

pub base_at : ℕ → ℕ → Option ℕ
unfolding aligned_payload
base_at data_len have =
    if data_len == 0
    then (if leb 20 have then some 20 else none)
    else some (gs_header_len + aligned_payload data_len)

pub stamped_at : Bool → ℕ → ℕ → Option ℕ
stamped_at timestamp_enabled base have =
    if timestamp_enabled then (if ltb have (base + 4) then none else some (base + 4)) else some base

pub padded_at : Bool → ℕ → ℕ → ℕ → Option ℕ
padded_at pad_pkts_enabled out_wmax consumed have =
    if pad_pkts_enabled && ltb 0 out_wmax
    then (let padded = align_up consumed out_wmax in if ltb have padded then none else some padded)
    else some consumed

pub record Extent : Type 0 where
  pub ts_off : ℕ
  pub consumed : ℕ

pub extent_at : ℕ → ℕ → Bool → ℕ → Bool → Option Extent
extent_at data_len have timestamp_enabled out_wmax pad_pkts_enabled = elim (base_at data_len have) [
  | none ↦ none
  | some base ↦ elim (stamped_at timestamp_enabled base have) [
    | none ↦ none
    | some consumed ↦ elim (padded_at pad_pkts_enabled out_wmax consumed have) [
      | none ↦ none
      | some total ↦ some (record { ts_off = base; consumed = total })
    ]
  ]
]

-- A 32-bit device time after the last 64-bit time.
pub unwrap_ts : Option ℕ → ℕ → ℕ
unwrap_ts none ts32 = ts32
unwrap_ts (some prev) ts32 =
    let prev32 = bit_and prev 0xffff_ffff in
    let base64 = bit_and prev (2 ^ 64 - 1 - 0xffff_ffff) in
    bit_or (if ltb ts32 prev32 then (base64 + 2 ^ 32) % 2 ^ 64 else base64) ts32

-- `u32::from_le_bytes(bytes[i..i + 4])`
pub u32_at : List ℕ → ℕ → Outcome ℕ
u32_at bytes i = do b ← slice bytes i (i + 4); value (from_le_bytes b)

pub record Header : Type 0 where
  pub echo_id : ℕ
  pub raw_id : ℕ
  pub dlc : ℕ
  pub chan : ℕ

pub read_header : List ℕ → Outcome Header
read_header bytes = do
  echo_id ← u32_at bytes 0
  raw_id ← u32_at bytes 4
  dlc ← index bytes 8
  chan ← index bytes 9
  value (record { echo_id = echo_id; raw_id = raw_id; dlc = dlc; chan = chan })

module _ (can : CanApi) where
  open can use {CanFrame, new, new_eff, new_remote, new_error, set_timestamp}

  unfoldable pub build_frame : ℕ → ℕ → List ℕ → Option CanFrame
  build_frame raw_id dlc payload =
      let extended = not (bit_and raw_id can_eff_flag == 0) in
      if not (bit_and raw_id can_err_flag == 0)
      then new_error (bit_and raw_id can_err_mask)
      else if not (bit_and raw_id can_rtr_flag == 0)
      then new_remote (bit_and raw_id (if extended then can_eff_mask else can_sff_mask)) (min dlc 8)
          extended
      else if extended
      then new_eff (bit_and raw_id can_eff_mask) payload
      else new (bit_and raw_id can_sff_mask) payload

  -- The call's result, and `last_ts64` behind it. The result is `none` to wait for more bytes, or
  -- the frame, if there is one to hand on, and the number of bytes to drop.
  abbrev pub Parsed : Type 0
  Parsed = Option (Option CanFrame × ℕ) × Option ℕ

  -- A frame that its constructor refused ends the call; else the timestamp is added.
  pub stamp_frame : List ℕ → Bool → Option ℕ → Extent → Option CanFrame → Outcome Parsed
  stamp_frame bytes timestamp_enabled last_ts64 extent none = value (none, last_ts64)
  stamp_frame bytes timestamp_enabled last_ts64 extent (some frame) =
      if timestamp_enabled
      then (do
        ts32 ← u32_at bytes extent.ts_off
        let ts64 = unwrap_ts last_ts64 ts32
        value (some (some (set_timestamp frame (some ts64)), extent.consumed), some ts64))
      else value (some (some frame, extent.consumed), last_ts64)

  pub accept_frame : List ℕ → ℕ → ℕ → Bool → Option ℕ → Extent → Outcome Parsed
  accept_frame bytes raw_id dlc timestamp_enabled last_ts64 extent = do
    payload ← slice bytes gs_header_len (gs_header_len + dlc_to_len dlc)
    stamp_frame bytes timestamp_enabled last_ts64 extent (build_frame raw_id dlc payload)

  -- Out of step: drop one byte. An echo of an own frame: drop it. Else hand the frame on.
  pub judge_frame : List ℕ → ℕ → Bool → Option ℕ → Header → Extent → Bool → Outcome Parsed
  judge_frame bytes channel_index timestamp_enabled last_ts64 h e plausible =
      if not plausible
      then value (some (none, 1), last_ts64)
      else if not (h.echo_id == gs_can_echo_id_unused) || not (h.chan == channel_index)
      then value (some (none, e.consumed), last_ts64)
      else accept_frame bytes h.raw_id h.dlc timestamp_enabled last_ts64 e

  -- The header's fields are read; `extent` decides whether the rest has arrived.
  pub parse_fields : List ℕ → ℕ → Bool → Option ℕ → ℕ → Bool → Header → Outcome Parsed
  parse_fields bytes channel_index timestamp_enabled last_ts64 out_wmax pad_pkts_enabled h =
      let extent =
        extent_at (dlc_to_len h.dlc) (length bytes) timestamp_enabled out_wmax pad_pkts_enabled in
      if ltb 15 h.dlc then value (some (none, 1), last_ts64) else elim extent [
        | none ↦ value (none, last_ts64)
        | some e ↦ do
          plausible ← plausible_header bytes channel_index
          judge_frame bytes channel_index timestamp_enabled last_ts64 h e plausible
      ]

  pub parse_host_frame_at : List ℕ → ℕ → Bool → Option ℕ → ℕ → Bool → Outcome Parsed
  parse_host_frame_at bytes channel_index timestamp_enabled last_ts64 out_wmax pad_pkts_enabled =
      if ltb (length bytes) gs_header_len then value (none, last_ts64) else (do
        h ← read_header bytes
        parse_fields bytes channel_index timestamp_enabled last_ts64 out_wmax pad_pkts_enabled h)
