-- ===== src/GsUsb/Run/Tests.antt =====
-- The event loop with commands and reads, of which one fails.
use mathlib.Core.List.{Perm}
use win_can_utils.Base.{◌≡◌, refl, true, false, List, [], ◌∷◌, some, value, arith}
use win_can_utils.Can.Plain.{plain_can}
use win_can_utils.Io.{ok, err, other}
use win_can_utils.GsUsb.Requests.{Device}
use win_can_utils.GsUsb.EventLoop.{
  drain_front, rx_loop, finish_rx, process_rx_chunk, process_rx_chunks,
}
use win_can_utils.GsUsb.EventLoop.Tests.{stamping, first_part, second_part}
use win_can_utils.GsUsb.Commands.{handle_command, update_config, no_reply}
use win_can_utils.GsUsb.Run.{
  rx_slots, take_slot, RunEvent, commanded, closed, completed, Run, start_run, note_handled,
  received, receive, resubmit, complete_slot, run_step, while_running, and_run, run_events,
}
use win_can_utils.GsUsb.Run.Slots.{run_events-slots}
use win_can_utils.GsUsb.Run.Frames.{Reads, read_events, outcome, run_events-buffers}

abbrev quiet : Device
quiet = record { answer = λ log. ok 0; filled = λ log. [] }

abbrev events : List RunEvent
events =
    completed 3 (ok first_part)
    ∷ commanded (update_config 64 true)
    ∷ completed 0 (err other)
    ∷ closed
    ∷ completed 0 (ok second_part)
    ∷ []

abbrev stopped : Run plain_can quiet
stopped = record {
  loop = record (stamping first_part) { pad_pkts_enabled = true };
  requests = [];
  replies = no_reply ∷ [];
  in_flight = 1 ∷ 2 ∷ 4 ∷ 5 ∷ 6 ∷ 7 ∷ 3 ∷ 0 ∷ [];
  sent = [];
  running = false;
}

runs :
    run_events plain_can quiet events (start_run plain_can quiet (stamping []))
    ≡ some (value stopped)
unfolding run_events and_run while_running run_step complete_slot resubmit receive received
    take_slot start_run note_handled handle_command process_rx_chunk rx_loop finish_rx drain_front
runs = refl

run_events-slots_example : Perm rx_slots stopped.in_flight
run_events-slots_example = run_events-slots plain_can quiet events (stamping []) stopped runs

abbrev reads : Reads
reads = (3, ok first_part) ∷ (0, err other) ∷ (7, ok second_part) ∷ []

run_events-buffers_example :
    outcome plain_can quiet
      (run_events plain_can quiet (read_events reads) (start_run plain_can quiet (stamping [])))
    ≡ process_rx_chunks plain_can (stamping []) (first_part ∷ second_part ∷ [])
run_events-buffers_example =
    run_events-buffers plain_can quiet reads (stamping [])
      (omega arith, (omega arith, (omega arith, tt)))
