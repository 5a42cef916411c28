-- ===== src/Candump/Stamps.antt =====
-- bin/candump.rs: `TimestampMode` and `TimestampCtx`. An instant is a number of nanoseconds; the
-- clocks' readings are arguments, the system's already in microseconds since the epoch.
pub mod Deltas
mod Tests
use win_can_utils.Base.{
  ℕ, ◌+◌, ◌-◌, ◌/◌, ◌%◌, ◌^◌, ◌==◌, if◌then◌else◌, Bool, true, false, List, [], ◌∷◌, Option, none,
  some,
}
use win_can_utils.Can.{CanApi}

pub data TimestampMode : Type 0 where
  no_timestamp absolute absolute_date delta zero_based : TimestampMode

pub from_char : ℕ → Option TimestampMode
from_char c =
    if c == b'a'
    then some absolute
    else if c == b'A'
    then some absolute_date
    else if c == b'd'
    then some delta
    else if c == b'z'
    then some zero_based
    else none

pub record TimestampCtx : Type 0 where
  pub mode : TimestampMode
  pub hardware : Bool
  pub start_instant : ℕ
  pub last_instant : Option ℕ

-- `TimestampCtx::new`, at an instant
abbrev pub new_ctx : TimestampMode → Bool → ℕ → TimestampCtx
new_ctx mode hardware now = record {
  mode = mode;
  hardware = hardware;
  start_instant = now;
  last_instant = none;
}

-- `duration_since(earlier).as_micros() as u64`; a duration is never negative.
unfoldable pub micros_since : ℕ → ℕ → ℕ
micros_since now earlier = (now - earlier) / 1000 % 2 ^ 64

pub since_last : ℕ → Option ℕ → ℕ
since_last now none = 0
since_last now (some last) = micros_since now last

pub or_zero : Option ℕ → ℕ
or_zero none = 0
or_zero (some t) = t

-- By the mode, for software timestamps.
unfoldable pub by_mode : TimestampMode → TimestampCtx → ℕ → ℕ → Option ℕ × TimestampCtx
unfolding since_last
by_mode no_timestamp ctx now epoch = (none, ctx)
by_mode absolute ctx now epoch = (some epoch, ctx)
by_mode absolute_date ctx now epoch = (some epoch, ctx)
by_mode delta ctx now epoch =
    (some (since_last now ctx.last_instant), record ctx { last_instant = some now })
by_mode zero_based ctx now epoch = (some (micros_since now ctx.start_instant), ctx)

module _ (can : CanApi) where
  -- `get_timestamp`, with the context behind
  unfoldable pub get_timestamp : TimestampCtx → ℕ → ℕ → can.CanFrame → Option ℕ × TimestampCtx
  unfolding or_zero
  get_timestamp ctx now epoch frame =
      if ctx.hardware
      then (some (or_zero (can.timestamp frame)), ctx)
      else by_mode ctx.mode ctx now epoch

  -- The timestamps of frames that are printed one after the other, each with the instant and the
  -- system time of its print.
  pub timestamps : TimestampCtx → List (ℕ × ℕ × can.CanFrame) → List (Option ℕ)
  timestamps ctx [] = []
  timestamps ctx ((now, epoch, frame) ∷ rest) =
      let (stamp, ctx') = get_timestamp ctx now epoch frame in stamp ∷ timestamps ctx' rest
