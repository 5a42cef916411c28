-- ===== src/GsUsb/Run.antt =====
-- drivers/gs_usb/driver.rs, `UsbEventLoop::run`: commands of the driver and completed reads, in the
-- order in which `select!` takes them.
pub mod Slots
pub mod Frames
mod Tests
use win_can_utils.Base.{
  ℕ, zero, suc, ◌+◌, if◌then◌else◌, Bool, true, false, List, [], ◌∷◌, ◌++◌, Option, none, some,
  Outcome, value, panic,
}
use win_can_utils.Can.{CanApi}
use win_can_utils.Io.{IoResult, ok, err}
use win_can_utils.GsUsb.Requests.{Device}
use win_can_utils.GsUsb.EventLoop.{UsbEventLoop, process_rx_chunk}
use win_can_utils.GsUsb.Commands.{Log, UsbCommand, Reply, Handled, handle_command}

-- `0..NUM_RX_TRANSFERS`
abbrev pub rx_slots : List ℕ
rx_slots = 0 ∷ 1 ∷ 2 ∷ 3 ∷ 4 ∷ 5 ∷ 6 ∷ 7 ∷ []

-- The transfer of a place among those in flight, and the others.
unfoldable pub take_slot : ℕ → List ℕ → Option (ℕ × List ℕ)
take_slot k [] = none
take_slot zero (idx ∷ rest) = some (idx, rest)
take_slot (suc k) (idx ∷ rest) = elim (take_slot k rest) [
  | none ↦ none
  | some (found, others) ↦ some (found, idx ∷ others)
]

-- A command, the end of the command channel, or the read of a place among those in flight with its
-- result.
pub data RunEvent : Type 0 where
  commanded : UsbCommand → RunEvent
  closed : RunEvent
  completed : ℕ → IoResult (List ℕ) → RunEvent

module _ (can : CanApi) (device : Device) where
  open can use {CanFrame}

  pub record Run : Type 0 where
    pub loop : UsbEventLoop
    pub requests : Log
    pub replies : List Reply
    pub in_flight : List ℕ
    pub sent : List CanFrame
    pub running : Bool

  unfoldable pub start_run : UsbEventLoop → Run
  start_run loop = record {
    loop = loop;
    requests = [];
    replies = [];
    in_flight = rx_slots;
    sent = [];
    running = true;
  }

  unfoldable pub note_handled : Handled device → Run → Run
  note_handled h r = record r {
    loop = h.state;
    requests = h.requests;
    replies = r.replies ++ (h.reply ∷ []);
    running = h.running;
  }

  unfoldable pub received :
      Option (Outcome (UsbEventLoop × List CanFrame)) → Run → Option (Outcome Run)
  received none r = none
  received (some panic) r = some panic
  received (some (value (loop', frames))) r =
      some (value (record r { loop = loop'; sent = r.sent ++ frames }))

  -- The bytes of a read that succeeded become frames; another is only logged.
  unfoldable pub receive : IoResult (List ℕ) → Run → Option (Outcome Run)
  unfolding received
  receive (err kind) r = some (value r)
  receive (ok chunk) r = received (process_rx_chunk can r.loop chunk) r

  -- The slot is submitted again behind the others.
  unfoldable pub resubmit : ℕ → List ℕ → Option (Outcome Run) → Option (Outcome Run)
  resubmit idx others none = none
  resubmit idx others (some panic) = some panic
  resubmit idx others (some (value r)) =
      some (value (record r { in_flight = others ++ (idx ∷ []) }))

  unfoldable pub complete_slot :
      Option (ℕ × List ℕ) → IoResult (List ℕ) → Run → Option (Outcome Run)
  complete_slot none result r = some (value r)
  complete_slot (some (idx, others)) result r = resubmit idx others (receive result r)

  -- One round of the loop: `none` is a lack of fuel.
  unfoldable pub run_step : RunEvent → Run → Option (Outcome Run)
  run_step (commanded command) r =
      some (value (note_handled (handle_command device r.loop r.requests command) r))
  run_step closed r = some (value (record r { running = false }))
  run_step (completed k result) r = complete_slot (take_slot k r.in_flight) result r

  unfoldable pub while_running : Bool → RunEvent → Run → Option (Outcome Run)
  while_running true event r = run_step event r
  while_running false event r = some (value r)

  unfoldable pub and_run :
      Option (Outcome Run) → (Run → Option (Outcome Run)) → Option (Outcome Run)
  and_run none next = none
  and_run (some panic) next = some panic
  and_run (some (value r)) next = next r

  -- Events of a loop that has ended are not taken any more.
  unfoldable pub run_events : List RunEvent → Run → Option (Outcome Run)
  unfolding and_run
  run_events [] r = some (value r)
  run_events (event ∷ events) r = and_run (while_running r.running event r) (run_events events)
