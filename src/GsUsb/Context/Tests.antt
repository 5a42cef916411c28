-- ===== src/GsUsb/Context/Tests.antt =====
-- Transfers that end, and the memory that a failing loop read keeps.
use win_can_utils.Base.{◌≡◌, refl, true, false, List, [], ◌∷◌, some}
use win_can_utils.Io.{ok, err, would_block, broken_pipe, interrupted, not_found}
use win_can_utils.GsUsb.Context.{
  done, failed, map_libusb_error, map_transfer_status, duration_to_timeout, unit_result,
  set_auto_detach_kernel_driver, bulk_write_blocking, bulk_read_blocking, control_blocking,
  count_result, read_result, loop_read_bytes,
}
use win_can_utils.GsUsb.Context.Transfers.{
  free, touch, Owned, hand_over, use_box, use_transfer, drop_box, take_read, bulk_read_callback,
  bulk_write_callback, take_loop_read, resubmit_read, submit, alloc_transfer, free_transfer,
  submit_bulk_transfer, loop_read_callback, live, freed, corrupt, one_read, one_write, loop_read,
  start, call_back, complete, work, at_place, pool_step, works, TransferEvent, starts, completes,
  pool_run,
}
use win_can_utils.GsUsb.Context.Memory.{AreSound, pool_run-AreSound}

abbrev events : List TransferEvent
events =
    starts one_write true (done 0)
    ∷ starts loop_read true (done 0)
    ∷ starts one_read true (failed 4)
    ∷ works 0
    ∷ works 1
    ∷ completes 0 0 8 (done 0)
    ∷ completes 0 0 8 (done 0)
    ∷ completes 1 0 24 (done 0)
    ∷ completes 1 3 0 (failed 4)
    ∷ []

pool_run-AreSound_example : AreSound (pool_run events [])
pool_run-AreSound_example = pool_run-AreSound events [] tt

abbrev leaked : Owned
leaked = record { kind = loop_read; boxed = live; transfer = freed; in_flight = false }

-- The box is never given back when a loop read cannot be submitted, at first or again.
leaks_at_first : (submit_bulk_transfer true (failed 4)).0 ≡ leaked
unfolding submit_bulk_transfer hand_over use_box use_transfer alloc_transfer free_transfer free
    touch
leaks_at_first = refl

leaks_later :
    at_place 1 (complete 3 0 (failed 4)) (pool_run events [])
    ≡ record leaked { kind = one_write; boxed = freed }
      ∷ leaked
      ∷ record leaked { kind = one_read; boxed = freed }
      ∷ []
unfolding pool_run pool_step at_place complete call_back start submit work loop_read_callback
    bulk_write_callback take_loop_read resubmit_read submit_bulk_transfer hand_over use_box
    use_transfer alloc_transfer free_transfer drop_box free touch
leaks_later = refl

-- A box that is given back too early is noticed.
too_early : (bulk_read_callback 0 (drop_box (submit one_read true (done 0)).0)).boxed ≡ corrupt
unfolding bulk_read_callback take_read submit hand_over use_box use_transfer alloc_transfer
    free_transfer drop_box free touch
too_early = refl

handed_on : loop_read_bytes 0 2 (1 ∷ 2 ∷ 3 ∷ []) ≡ some (1 ∷ 2 ∷ [])
unfolding loop_read_bytes
handed_on = refl

timed_out_late : (map_libusb_error 7 ≡ would_block) × (map_transfer_status 2 ≡ would_block)
unfolding map_libusb_error map_transfer_status
timed_out_late = (refl, refl)

waits_a_little : (duration_to_timeout 1 ≡ 1) × (duration_to_timeout 20_000_000 ≡ 20)
unfolding duration_to_timeout
waits_a_little = (refl, refl)

claims :
    (unit_result (failed 9) ≡ err broken_pipe) × (set_auto_detach_kernel_driver (failed 12) ≡ ok tt)
unfolding unit_result set_auto_detach_kernel_driver map_libusb_error
claims = (refl, refl)

blocks :
    (bulk_write_blocking (done 0) 20 ≡ ok 20)
    × (bulk_read_blocking (done 0) 1 (7 ∷ 0 ∷ []) ≡ ok (7 ∷ []))
    × (control_blocking (failed 5) ≡ err not_found)
unfolding bulk_write_blocking bulk_read_blocking control_blocking map_libusb_error
blocks = (refl, refl, refl)

calls_back : (count_result 3 0 ≡ err interrupted) × (read_result 0 1 (7 ∷ 0 ∷ []) ≡ ok (7 ∷ []))
unfolding count_result read_result map_transfer_status
calls_back = (refl, refl)
