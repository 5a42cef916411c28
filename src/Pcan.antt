-- ===== src/Pcan.antt =====
-- drivers/pcan.rs: messages and frames, the receive loop and the bitrate. The functions of
-- PCANBasic.dll are given by what they answer, and its message types by `Peak`.
pub mod Messages
pub mod Channels
mod Tests
use win_can_utils.Base.{
  ℕ, ◌+◌, ◌-◌, ◌*◌, ◌%◌, ◌^◌, min, ◌==◌, not, if◌then◌else◌, bit_and, bit_or, Bool, true, false,
  List, [], ◌∷◌, ◌++◌, length, take, replicate, Option, none, some,
}
use win_can_utils.Can.{CanApi}
use win_can_utils.Io.{IoResult, ok, err, ErrorKind, other, invalid_data, invalid_input}

-- The values of PEAK_MESSAGE_STANDARD and PEAK_MESSAGE_EXTENDED in the library's header.
pub record Peak : Type 0 where
  pub message_standard : ℕ
  pub message_extended : ℕ

-- `tagCANTPMsg`, of eight data bytes
pub record Message : Type 0 where
  pub msg_id : ℕ
  pub msg_type : ℕ
  pub len : ℕ
  pub bytes : List ℕ

-- `tagCANTPTimestamp`
pub record Timestamp : Type 0 where
  pub millis : ℕ
  pub millis_overflow : ℕ
  pub micros : ℕ

-- What `CAN_Read` answers: no message is waiting, another status, or a message.
pub data ReadAnswer : Type 0 where
  queue_empty : ReadAnswer
  failed : ReadAnswer
  received : Message → Timestamp → ReadAnswer

-- The time in microseconds, in 64 bits.
unfoldable pub timestamp_us : Timestamp → ℕ
timestamp_us ts =
    (bit_or (ts.millis_overflow * 2 ^ 32 % 2 ^ 64) ts.millis * 1000 + ts.micros) % 2 ^ 64

-- The bitrates that `map_bitrate_to_const` has a constant for.
abbrev pub pcan_bitrates : List ℕ
pcan_bitrates =
    5_000 ∷ 10_000 ∷ 20_000 ∷ 33_333 ∷ 47_619 ∷ 50_000 ∷ 83_333 ∷ 95_238 ∷ 100_000 ∷ 125_000
    ∷ 250_000 ∷ 500_000 ∷ 800_000 ∷ 1_000_000 ∷ []

pub has_constant : ℕ → List ℕ → Bool
has_constant bps [] = false
has_constant bps (rate ∷ rates) = if rate == bps then true else has_constant bps rates

-- `set_bitrate`, with the configured bitrate behind
pub set_bitrate : Option ℕ → ℕ → IoResult {0} Unit × Option ℕ
unfolding has_constant
set_bitrate configured bitrate =
    if has_constant bitrate pcan_bitrates
    then (ok tt, some bitrate)
    else (err invalid_input, configured)

-- `open_channel`: an error without a bitrate; else `initialized` tells whether CAN_Initialize
-- succeeded.
pub open_channel : Option ℕ → Bool → IoResult {0} Unit
unfolding has_constant
open_channel none initialized = err other
open_channel (some bitrate) initialized =
    if has_constant bitrate pcan_bitrates
    then if initialized then ok tt else err other
    else err other

module _ (can : CanApi) (peak : Peak) where
  open can use {CanFrame, new, new_eff, set_timestamp, id, payload, dlc, is_extended}

  -- The message of `send_frame`.
  pub message_of : CanFrame → Message
  message_of frame =
      let copy_len = min (length (payload frame)) 8 in
      record {
        msg_id = id frame;
        msg_type = if is_extended frame then peak.message_extended else peak.message_standard;
        len = dlc frame % 256;
        bytes = take copy_len (payload frame) ++ replicate (8 - copy_len) 0;
      }

  pub stamp : Timestamp → Option CanFrame → Option CanFrame
  stamp ts none = none
  stamp ts (some frame) = some (set_timestamp frame (some (timestamp_us ts)))

  -- The frame of a message, or `none` if its constructor refuses it.
  pub frame_of : Message → Timestamp → Option CanFrame
  unfolding stamp
  frame_of msg ts =
      let extended = not (bit_and msg.msg_type peak.message_extended == 0) in
      let bytes = take (min msg.len 8) msg.bytes in
      stamp ts (if extended then new_eff msg.msg_id bytes else new msg.msg_id bytes)

  -- The loop of `read_frames`; `none` if the answers end before it does.
  pub read_loop : List CanFrame → List ReadAnswer → Option (IoResult (List CanFrame))
  read_loop frames [] = none
  read_loop frames (queue_empty ∷ answers) = some (ok frames)
  read_loop frames (failed ∷ answers) = some (err other)
  read_loop frames (received msg ts ∷ answers) = elim (frame_of msg ts) [
    | none ↦ some (err invalid_data)
    | some frame ↦ read_loop (frames ++ (frame ∷ [])) answers
  ]

  pub read_frames : List ReadAnswer → Option (IoResult (List CanFrame))
  read_frames answers = read_loop [] answers
