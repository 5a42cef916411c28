-- ===== src/GsUsb/Encode/RoundTrip.antt =====
-- What the parser of drivers/gs_usb/frames.rs reads in the bytes of the encoders.
use win_can_utils.Base.{
  ℕ, ◌+◌, ◌-◌, ◌%◌, ◌^◌, ◌≤◌, ◌<◌, ◌≡◌, refl, Bool, true, false, List, ◌++◌, length, length-append,
  length-replicate, drop, replicate, take-length, Option, none, some, value, min, arith,
}
use win_can_utils.Base.Bits.{and_mask, and_flag, or_flag}
use win_can_utils.Base.Bytes.{to_le_bytes}
use win_can_utils.Can.{CanApi, IsDataFrame, DataFrameLaws, max_id}
use win_can_utils.GsUsb.Constants.{gs_can_echo_id_unused}
use win_can_utils.GsUsb.Frames.{build_frame, parse_host_frame_at, unwrap_ts}
use win_can_utils.GsUsb.Frames.Shape.{host_frame, parse_stamped_echo, parse_stamped_host}
use win_can_utils.GsUsb.Encode.{echo_id, tx_can_id, encode_frame, encode_frame_minimal}

-- The bytes that a device sends when it receives the encoded frame from the bus: no echo, and a
-- timestamp behind.
abbrev pub as_received : List ℕ → ℕ → List ℕ
as_received bytes ts32 = to_le_bytes 4 gs_can_echo_id_unused ++ (drop 4 bytes ++ to_le_bytes 4 ts32)

-- The identifier with its flag on the wire.
abbrev wire_id : ℕ → Bool → ℕ
wire_id i true = i + 2 ^ 31
wire_id i false = i

module _ (can : CanApi) where
  module _ (f : can.CanFrame) (i : ℕ) (d : List ℕ) (eff : Bool)
      (is : IsDataFrame can f i d eff) where
    tx_can_id_lem : i ≤ max_id eff → tx_can_id can f ≡ wire_id i eff
    unfolding tx_can_id
    tx_can_id_lem h = go eff is.extended_eq h
      where
        go : (e : Bool) → can.is_extended f ≡ e → i ≤ max_id e → tx_can_id can f ≡ wire_id i e
        go true ext hi =
            ground (arith, is.id_eq, is.rtr_eq, is.error_eq, and_mask 29 i, or_flag 31 i)
        go false ext hi = ground (arith, is.id_eq, is.rtr_eq, is.error_eq, and_mask 11 i)

    encode_frame_minimal_lem :
        (tx_counter chan : ℕ)
        → i ≤ max_id eff
        → length d ≤ 8
        → encode_frame_minimal can tx_counter chan f
          ≡ host_frame
              (echo_id tx_counter)
              (wire_id i eff)
              (length d)
              chan
              (d ++ replicate (8 - length d) 0)
    unfolding encode_frame_minimal encode_frame
    encode_frame_minimal_lem tx_counter chan hi hd =
        let dlc : can.dlc f % 256 ≡ length d = omega (arith, is.dlc_eq) in
        let room : min (length d) 8 ≡ length d = omega arith in
        rw (tx_can_id_lem hi, is.payload_eq, dlc, room, take-length d)

  build_wire :
      (i : ℕ) (d : List ℕ) (eff : Bool)
      → DataFrameLaws can
      → i ≤ max_id eff
      → length d ≤ 8
      → (g : can.CanFrame) × (build_frame can (wire_id i eff) (length d) d ≡ some g)
        × IsDataFrame can g i d eff
  unfolding build_frame
  build_wire i d true laws hi hd =
      let (g, made, is) = laws.new_eff_accepts i d hi hd in
      (
        g,
        ground (
          arith,
          made,
          and_flag 29 (i + 2 ^ 31),
          and_flag 30 (i + 2 ^ 31),
          and_flag 31 (i + 2 ^ 31),
          and_mask 29 (i + 2 ^ 31),
        ),
        is,
      )
  build_wire i d false laws hi hd =
      let (g, made, is) = laws.new_accepts i d hi hd in
      (g, ground (arith, made, and_flag 29 i, and_flag 30 i, and_flag 31 i, and_mask 11 i), is)

  module _ (f : can.CanFrame) (i : ℕ) (d : List ℕ) (eff : Bool) (is : IsDataFrame can f i d eff)
      (small : i ≤ max_id eff) (classic : length d ≤ 8) (tx_counter chan wmax : ℕ) (last : Option ℕ)
      (ts32 : ℕ) (fits : ts32 < 2 ^ 32) where
    zeros : List ℕ
    zeros = replicate (8 - length d) 0

    filled : length (d ++ zeros) ≡ 8
    unfolding zeros
    filled = omega (arith, length-append d zeros, length-replicate {A = ℕ} (8 - length d) 0)

    wire_fits : wire_id i eff < 2 ^ 32
    wire_fits = go eff small
      where
        go : (e : Bool) → i ≤ max_id e → wire_id i e < 2 ^ 32
        go true h = omega arith
        go false h = omega arith

    -- A classic data frame that the driver encodes in 20 bytes and that the device then echoes, a
    -- timestamp added, is dropped whole by the parser, and the timestamp state is kept.
    pub parse_host_frame_at-echo :
        parse_host_frame_at can
          (encode_frame_minimal can tx_counter chan f ++ to_le_bytes 4 ts32)
          chan
          true
          last
          wmax
          false
        ≡ value (some (none, 24), last)
    unfolding zeros echo_id to_le_bytes
    parse_host_frame_at-echo =
        rw (encode_frame_minimal_lem f i d eff is tx_counter chan small classic) (
          parse_stamped_echo (tx_counter % 16) (wire_id i eff) chan d zeros ts32 classic filled fits
            can last wmax wire_fits (omega arith))

    -- The same bytes as a device sends them for a frame that it received: the parser hands on a frame
    -- with the identifier, the format and the data of the encoded one, stamped with the 64-bit time,
    -- which it keeps, and takes the 24 bytes.
    pub parse_host_frame_at-encode :
        DataFrameLaws can
        → (g : can.CanFrame) × (parse_host_frame_at can
              (as_received (encode_frame_minimal can tx_counter chan f) ts32)
              chan
              true
              last
              wmax
              false
            ≡ value (some (some g, 24), some (unwrap_ts last ts32)))
          × IsDataFrame can g i d eff
          × (can.timestamp g ≡ some (unwrap_ts last ts32))
    unfolding zeros to_le_bytes
    parse_host_frame_at-encode laws =
        let (g, built, same) = build_wire i d eff laws small classic in
        let (kept, stamp) = laws.set_timestamp_keeps g (some (unwrap_ts last ts32)) i d eff same in
        (
          can.set_timestamp g (some (unwrap_ts last ts32)),
          rw (encode_frame_minimal_lem f i d eff is tx_counter chan small classic) (
              parse_stamped_host gs_can_echo_id_unused (wire_id i eff) chan d zeros ts32 classic
                filled fits can last wmax wire_fits g refl built),
          kept,
          stamp,
        )
