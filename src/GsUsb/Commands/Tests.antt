-- ===== src/GsUsb/Commands/Tests.antt =====
-- Commands of the event loop to a device that stalls.
use win_can_utils.Base.{
  ℕ, ◌≡◌, ◌⊎◌, ◌==◌, refl, if◌then◌else◌, true, false, List, [], ◌∷◌, length, none,
}
use win_can_utils.Io.{ok, err, ErrorKind, broken_pipe}
use win_can_utils.GsUsb.Requests.{Request, bulk_write, clear_halt, Device}
use win_can_utils.GsUsb.EventLoop.{UsbEventLoop}
use win_can_utils.GsUsb.Commands.{
  write_bulk, handle_write_error, after_stall, stall_result, recover_after_stall, handle_command,
  do_control_out, shutdown, note_mode, note_timestamp, first_is_set, mode_request,
}
use win_can_utils.GsUsb.Commands.Recovery.{IsRepair, write_bulk-IsRepair}

-- The first request fails, all others succeed.
abbrev stalling : Device
stalling = record {
  answer = λ log. if length log == 1 then err broken_pipe else ok 8;
  filled = λ log. [];
}

abbrev idle : UsbEventLoop
idle = record {
  iface = 0;
  in_ep = 0x81;
  rx_buffer = [];
  last_timestamp64 = none;
  channel_index = 0;
  timestamp_enabled = false;
  out_wmax = 64;
  pad_pkts_enabled = false;
}

write_bulk-IsRepair_example :
    ((n : ℕ) × (stalling.answer (bulk_write 2 (1 ∷ []) ∷ []) ≡ ok n)
      × (write_bulk stalling idle 2 (1 ∷ []) [] ≡ (ok n, bulk_write 2 (1 ∷ []) ∷ [])))
    ⊎ ((kind : ErrorKind) × (calls : List Request) × IsRepair stalling idle 2 calls
        × (write_bulk stalling idle 2 (1 ∷ []) [] ≡ (err kind, bulk_write 2 (1 ∷ []) ∷ calls)))
write_bulk-IsRepair_example = write_bulk-IsRepair stalling idle 2 (1 ∷ []) []

restarted : write_bulk stalling idle 2 (1 ∷ []) [] ≡ (
  err broken_pipe,
  bulk_write 2 (1 ∷ [])
      ∷ clear_halt 2
      ∷ mode_request stalling idle 0
      ∷ mode_request stalling idle 1
      ∷ [],
)
unfolding write_bulk handle_write_error after_stall stall_result recover_after_stall
restarted = refl

-- The loop notes the channel and the timestamps even of a request that fails.
noted :
    (handle_command stalling idle [] (do_control_out 0x41 6 0 0 (1 ∷ 0 ∷ 0 ∷ 0 ∷ []))).state
    ≡ record idle { timestamp_enabled = true }
unfolding handle_command note_mode note_timestamp first_is_set
noted = refl

stopped : (handle_command stalling idle [] shutdown).running ≡ false
unfolding handle_command
stopped = refl
