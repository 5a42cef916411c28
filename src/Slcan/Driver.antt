-- ===== src/Slcan/Driver.antt =====
-- drivers/slcan.rs: the state of `SlcanDriver` and its operations. What a call writes to the port and
-- what it reads from it are arguments and results.
pub mod Scan
pub mod Settled
pub mod Chunks
pub mod Bitrates
use win_can_utils.Base.{
  ℕ, zero, suc, ◌+◌, ◌-◌, ◌*◌, ltb, leb, ◌==◌, if◌then◌else◌, Bool, true, false, List, [], ◌∷◌,
  ◌++◌, length, drop, take, Option, none, some, Outcome, value, panic,
}
use win_can_utils.Base.Bytes.{from_le_bytes}
use win_can_utils.Base.Text.{Text, codes, trim}
use win_can_utils.Can.{CanApi}
use win_can_utils.Io.{IoResult, ok, err, ErrorKind, timed_out, other, invalid_input, unexpected_eof}
use win_can_utils.Slcan.Lines.{parse_slcan_line_bytes}

-- The fields; the two halves of the port have no place here.
pub record SlcanDriver : Type 0 where
  pub leftover : List ℕ
  pub timestamp_high : ℕ
  pub configured_bitrate : Option ℕ

-- `SlcanDriver::open`, once the port is open
abbrev pub open_driver : SlcanDriver
open_driver = record { leftover = []; timestamp_high = 0; configured_bitrate = none }

-- `memchr`: the first place of a byte
unfoldable pub memchr : ℕ → List ℕ → Option ℕ
memchr x [] = none
memchr x (b ∷ bs) =
    if b == x then some 0 else elim (memchr x bs) [ none ↦ none | some k ↦ some (suc k) ]

module _ (can : CanApi) where
  open can use {CanFrame}

  pub record LineLoop : Type 0 where
    pub processed : ℕ
    pub high : ℕ
    pub frames : List CanFrame

  abbrev pub push : List CanFrame → Option CanFrame → List CanFrame
  push frames none = frames
  push frames (some frame) = frames ++ (frame ∷ [])

  -- The `while` loop of `read_frames`; a place that `memchr` finds is in range. `none` if the fuel
  -- does not suffice.
  unfoldable pub line_loop : List ℕ → ℕ → LineLoop → Option (Outcome LineLoop)
  line_loop leftover zero r = none
  line_loop leftover (suc fuel) r = elim (memchr b'\r' (drop r.processed leftover)) [
    | none ↦ some (value r)
    | some relative_pos ↦
        elim (parse_slcan_line_bytes can r.high
          (take (relative_pos + 1) (drop r.processed leftover))) [
            | panic ↦ some panic
            | value (frame, high) ↦ line_loop leftover fuel (record {
              processed = r.processed + relative_pos + 1;
              high = high;
              frames = push r.frames frame;
            })
          ]
  ]

  unfoldable pub finish_read :
      SlcanDriver → List ℕ → LineLoop → IoResult (List CanFrame) × SlcanDriver
  finish_read s leftover r = (
    ok r.frames,
    record s {
      leftover = if ltb 0 r.processed then drop r.processed leftover else leftover;
      timestamp_high = r.high;
    },
  )

  -- `read_frames`, with what the port's `read` gave. A round takes a byte at least.
  unfoldable pub read_frames :
      SlcanDriver → IoResult (List ℕ) → Option (Outcome (IoResult (List CanFrame) × SlcanDriver))
  read_frames s (err kind) = some (value (err kind, s))
  read_frames s (ok bytes) =
      let leftover = s.leftover ++ bytes in
      elim (line_loop leftover (suc (length leftover))
        (record { processed = 0; high = s.timestamp_high; frames = [] })) [
          | none ↦ none
          | some panic ↦ some panic
          | some (value r) ↦ some (value (finish_read s leftover r))
        ]

  then_frames :
      List CanFrame
      → Option (Outcome (List CanFrame × SlcanDriver))
      → Option (Outcome (List CanFrame × SlcanDriver))
  then_frames frames none = none
  then_frames frames (some panic) = some panic
  then_frames frames (some (value (later, s))) = some (value (frames ++ later, s))

  -- The calls of `read_frames` that `forward_can_to_pipe` of bin/canserver.rs makes: an error ends
  -- its loop. The frames are those of all calls, in order.
  pub read_all :
      SlcanDriver → List (IoResult (List ℕ)) → Option (Outcome (List CanFrame × SlcanDriver))
  read_all s [] = some (value ([], s))
  read_all s (result ∷ results) = elim (read_frames s result) [
    | none ↦ none
    | some panic ↦ some panic
    | some (value (err kind, s')) ↦ some (value ([], s'))
    | some (value (ok frames, s')) ↦ then_frames frames (read_all s' results)
  ]

-- The commands with no argument: the bytes that each writes.
abbrev pub enable_timestamp_bytes : Text
enable_timestamp_bytes = codes "Z1\r"

abbrev pub open_channel_bytes : Text
open_channel_bytes = codes "O\r"

abbrev pub close_channel_bytes : Text
close_channel_bytes = codes "C\r"

unfoldable pub lookup : ℕ → List (ℕ × Text) → Option Text
lookup bitrate [] = none
lookup bitrate ((rate, cmd) ∷ table) = if rate == bitrate then some cmd else lookup bitrate table

-- The arms of the `match` in `set_bitrate`.
abbrev pub bitrate_commands : List (ℕ × Text)
bitrate_commands =
    (10_000, codes "S0\r")
    ∷ (20_000, codes "S1\r")
    ∷ (50_000, codes "S2\r")
    ∷ (100_000, codes "S3\r")
    ∷ (125_000, codes "S4\r")
    ∷ (250_000, codes "S5\r")
    ∷ (500_000, codes "S6\r")
    ∷ (800_000, codes "S7\r")
    ∷ (1_000_000, codes "S8\r")
    ∷ []

-- `set_bitrate`: the result, the state and the bytes that are written. `written` is the result of the
-- port's `write_all`.
pub set_bitrate : SlcanDriver → ℕ → IoResult {0} Unit → IoResult {0} Unit × SlcanDriver × List ℕ
set_bitrate s bitrate written = elim (lookup bitrate bitrate_commands) [
  | none ↦ (err invalid_input, s, [])
  | some cmd ↦ (written, record s { configured_bitrate = some bitrate }, cmd)
]

-- `get_bitrate`
abbrev pub get_bitrate : SlcanDriver → Option ℕ
get_bitrate s = s.configured_bitrate

-- A round of a waiting loop: the time is over, or a read ended.
pub data Poll : Type 0 where
  elapsed : Poll
  read : IoResult (List ℕ) → Poll

-- The loop that waits for four bytes; `read` fills at most what is left of the buffer. `none` if the
-- polls end before the loop does.
unfoldable pub collect : List ℕ → List Poll → Option (IoResult (List ℕ))
collect received [] = if ltb (length received) 4 then none else some (ok received)
collect received (elapsed ∷ polls) =
    if ltb (length received) 4 then some (err timed_out) else some (ok received)
collect received (read (err kind) ∷ polls) =
    if ltb (length received) 4 then some (err kind) else some (ok received)
collect received (read (ok bytes) ∷ polls) =
    let next = collect (received ++ take (4 - length received) bytes) polls in
    if ltb (length received) 4 then next else some (ok received)

-- The first of the rates with the smallest key, as `min_by_key` finds it.
unfoldable pub min_by_key : (ℕ → ℕ) → ℕ → List ℕ → ℕ
min_by_key key best [] = best
min_by_key key best (rate ∷ rates) =
    min_by_key key (if ltb (key rate) (key best) then rate else best) rates

abbrev pub supported_bitrates : List ℕ
supported_bitrates =
    10_000 ∷ 20_000 ∷ 50_000 ∷ 100_000 ∷ 125_000 ∷ 250_000 ∷ 500_000 ∷ 800_000 ∷ 1_000_000 ∷ []

-- `(a as i64 - b as i64).abs()` of two `u32`
abbrev pub distance : ℕ → ℕ → ℕ
distance a b = (a - b) + (b - a)

unfoldable pub closest_bitrate : ℕ → IoResult ℕ
unfolding min_by_key
closest_bitrate actual =
    if ltb actual 5000
    then err other
    else ok (min_by_key (λ rate. distance rate actual) 10_000 supported_bitrates)

-- `get_measured_bitrate`, behind the writes: the result, and the state with the buffer cleared.
unfoldable pub get_measured_bitrate : SlcanDriver → List Poll → Option (IoResult ℕ × SlcanDriver)
get_measured_bitrate s polls = elim (collect [] polls) [
  | none ↦ none
  | some (err kind) ↦ some (err kind, record s { leftover = [] })
  | some (ok buf) ↦ some (closest_bitrate (from_le_bytes buf), record s { leftover = [] })
]

-- The loop of `get_version`: the first line that is no frame. `lossy` is `String::from_utf8_lossy`.
unfoldable pub version_loop : (List ℕ → Text) → List Poll → Option (IoResult Text)
version_loop lossy [] = none
version_loop lossy (elapsed ∷ polls) = some (err timed_out)
version_loop lossy (read (err kind) ∷ polls) = some (err kind)
version_loop lossy (read (ok []) ∷ polls) = some (err unexpected_eof)
version_loop lossy (read (ok (c ∷ line)) ∷ polls) =
    let next = version_loop lossy polls in
    if c == b'T' then next else some (ok (trim (lossy (c ∷ line))))

unfoldable pub get_version :
    SlcanDriver → (List ℕ → Text) → List Poll → Option (IoResult Text) × SlcanDriver
get_version s lossy polls = (version_loop lossy polls, record s { leftover = [] })
