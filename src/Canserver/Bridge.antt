-- ===== src/Canserver/Bridge.antt =====
-- bin/canserver.rs, `forward_can_to_pipe` and `forward_pipe_to_can`: frames become messages for the
-- pipe, and messages frames for the driver. The coder is bincode's, a parameter.
pub mod Queue
pub mod Messages
mod Tests
use win_can_utils.Base.{
  ℕ, suc, ◌+◌, ltb, leb, if◌then◌else◌, Bool, true, false, List, [], ◌∷◌, ◌++◌, length, take, drop,
  Option, none, some,
}
use win_can_utils.Io.{IoResult, ok, err}

-- `encode_to_vec` and `decode_from_slice`; a decoded frame comes with the number of bytes read.
pub record Coder (Frame : Type 0) : Type 0 where
  pub encode : Frame → Option (List ℕ)
  pub decode : List ℕ → Option (Frame × ℕ)

-- `mpsc::channel(100)`
abbrev pub capacity : ℕ
capacity = 100

-- `try_send`, whose error is ignored: a message for a full channel is dropped.
unfoldable pub try_send : List (List ℕ) → List ℕ → List (List ℕ)
try_send queue msg = if ltb (length queue) capacity then queue ++ (msg ∷ []) else queue

module _ {Frame : Type 0} (coder : Coder Frame) where
  open coder use {encode, decode}

  unfoldable pub with_length : List ℕ → Option (List ℕ)
  with_length bytes = if ltb 255 (length bytes) then none else some (length bytes ∷ bytes)

  -- The message of a frame, its length in front; `none` if it is not encoded or too large.
  unfoldable pub message : Frame → Option (List ℕ)
  unfolding with_length
  message frame = elim (encode frame) [ none ↦ none | some bytes ↦ with_length bytes ]

  unfoldable pub send_if : Option (List ℕ) → List (List ℕ) → List (List ℕ)
  send_if none queue = queue
  send_if (some msg) queue = try_send queue msg

  unfoldable pub forward_frames : List Frame → List (List ℕ) → List (List ℕ)
  unfolding send_if
  forward_frames [] queue = queue
  forward_frames (frame ∷ frames) queue = forward_frames frames (send_if (message frame) queue)

  -- The channel to the pipe's writer: what is in it, what the writer has taken, and whether the task
  -- that polls the driver still runs.
  pub record Bridge : Type 0 where
    pub queue : List (List ℕ)
    pub written : List (List ℕ)
    pub polling : Bool

  pub data BridgeEvent : Type 0 where
    polls : IoResult (List Frame) → BridgeEvent
    takes : BridgeEvent

  -- One poll of `forward_can_to_pipe`; an error ends it.
  unfoldable pub poll : IoResult (List Frame) → Bridge → Bridge
  poll (err kind) b = record b { polling = false }
  poll (ok frames) b = if b.polling then record b { queue = forward_frames frames b.queue } else b

  -- The writer receives the oldest message.
  unfoldable pub take_one : List (List ℕ) → Bridge → Bridge
  take_one [] b = b
  take_one (msg ∷ msgs) b = record b { queue = msgs; written = b.written ++ (msg ∷ []) }

  unfoldable pub bridge_step : BridgeEvent → Bridge → Bridge
  unfolding poll take_one
  bridge_step (polls result) b = poll result b
  bridge_step takes b = take_one b.queue b

  unfoldable pub bridge_run : List BridgeEvent → Bridge → Bridge
  unfolding bridge_step
  bridge_run [] b = b
  bridge_run (event ∷ events) b = bridge_run events (bridge_step event b)

  unfoldable pub decoded : Option (Frame × ℕ) → List Frame
  decoded none = []
  decoded (some (frame, consumed)) = frame ∷ []

  -- `forward_pipe_to_can`: the frames that are given to the driver's `send_frame`, whose errors are
  -- only printed.
  unfoldable pub forward_lines : List (List ℕ) → List Frame
  unfolding decoded
  forward_lines [] = []
  forward_lines (line ∷ lines) = decoded (decode line) ++ forward_lines lines
