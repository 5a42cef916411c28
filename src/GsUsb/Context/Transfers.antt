-- ===== src/GsUsb/Context/Transfers.antt =====
-- drivers/gs_usb/context.rs, the memory of asynchronous transfers: who owns it, and each use of it.
use win_can_utils.Base.{
  ℕ, zero, suc, ◌==◌, ltb, if◌then◌else◌, Bool, true, false, List, [], ◌∷◌, ◌++◌, Option, none,
  some,
}
use win_can_utils.Io.{ErrorKind, other}
use win_can_utils.GsUsb.Context.{Rc, done, failed, map_libusb_error}

-- A piece of memory: not there yet, in use, given back, or touched when it must not be.
pub data Cell : Type 0 where
  absent live freed corrupt : Cell

unfoldable pub free : Cell → Cell
free live = freed
free absent = corrupt
free freed = corrupt
free corrupt = corrupt

-- A read or a write.
unfoldable pub touch : Cell → Cell
touch live = live
touch absent = corrupt
touch freed = corrupt
touch corrupt = corrupt

-- The callbacks: `bulk_read_callback`, `bulk_write_callback` and `control_callback`, which handle
-- memory alike, and `loop_read_callback`.
pub data TransferKind : Type 0 where
  one_read one_write loop_read : TransferKind

-- The boxed state of a transfer with its buffer, libusb's own structure, and whether libusb works on
-- them.
pub record Owned : Type 0 where
  pub kind : TransferKind
  pub boxed : Cell
  pub transfer : Cell
  pub in_flight : Bool

-- `Box::new`
abbrev pub boxed_state : TransferKind → Owned
boxed_state kind = record { kind = kind; boxed = live; transfer = absent; in_flight = false }

unfoldable pub drop_box : Owned → Owned
drop_box m = record m { boxed = free m.boxed }

unfoldable pub alloc_transfer : Owned → Owned
alloc_transfer m = record m { transfer = live }

unfoldable pub free_transfer : Owned → Owned
free_transfer m = record m { transfer = free m.transfer }

unfoldable pub use_box : Owned → Owned
use_box m = record m { boxed = touch m.boxed }

unfoldable pub use_transfer : Owned → Owned
use_transfer m = record m { transfer = touch m.transfer }

-- The fields of a new transfer are set, with the buffer's address from the box, and libusb is given it.
unfoldable pub hand_over : Owned → Owned
hand_over m = use_transfer (use_box (use_transfer (alloc_transfer m)))

-- `bulk_write`, `bulk_read` and `control_out` up to the wait, with the result where they end at once.
-- The flag tells whether the transfer is allocated.
unfoldable pub submit : TransferKind → Bool → Rc → Owned × Option ErrorKind
submit kind false rc = (drop_box (boxed_state kind), some other)
submit kind true (failed code) =
    (free_transfer (drop_box (hand_over (boxed_state kind))), some (map_libusb_error code))
submit kind true (done n) = (record (hand_over (boxed_state kind)) { in_flight = true }, none)

-- `submit_bulk_transfer`: the box becomes raw behind the allocation, and stays so.
unfoldable pub submit_bulk_transfer : Bool → Rc → Owned × Option ErrorKind
submit_bulk_transfer false rc = (drop_box (boxed_state loop_read), some other)
submit_bulk_transfer true (failed code) =
    (free_transfer (hand_over (boxed_state loop_read)), some (map_libusb_error code))
submit_bulk_transfer true (done n) =
    (record (hand_over (boxed_state loop_read)) { in_flight = true }, none)

-- The buffer and the length, for a transfer that is completed.
unfoldable pub take_read : ℕ → Owned → Owned
take_read status m = if status == 0 then use_transfer (use_box m) else m

-- Reads `user_data` and the status, takes the buffer and then the sender from the box, and drops the box
-- at its end.
unfoldable pub bulk_read_callback : ℕ → Owned → Owned
unfolding take_read
bulk_read_callback status m =
    drop_box (free_transfer (use_box (take_read status (use_transfer (use_transfer m)))))

-- Here the length or once more the status is read, and the buffer is taken whatever the status.
unfoldable pub bulk_write_callback : Owned → Owned
bulk_write_callback m =
    drop_box (free_transfer (use_box (use_box (use_transfer (use_transfer (use_transfer m))))))

-- The buffer is copied for a transfer that is completed with some bytes.
unfoldable pub take_loop_read : ℕ → ℕ → Owned → Owned
take_loop_read status actual m =
    if status == 0
    then if ltb 0 actual then use_box (use_transfer m) else use_transfer m
    else use_transfer m

-- With what submitting the transfer again returns.
unfoldable pub resubmit_read : Rc → Owned → Owned
resubmit_read (failed code) m = free_transfer m
resubmit_read (done n) m = record m { in_flight = true }

unfoldable pub loop_read_callback : Rc → ℕ → ℕ → Owned → Owned
unfolding take_loop_read resubmit_read
loop_read_callback rc status actual m =
    resubmit_read rc (use_transfer (take_loop_read status actual (use_transfer (use_transfer m))))

-- What happens to the transfers of a handle, which have places in the order of their start: libusb
-- works on one, or has completed it, with a status, a length and what submitting it again would return.
pub data TransferEvent : Type 0 where
  starts : TransferKind → Bool → Rc → TransferEvent
  works : ℕ → TransferEvent
  completes : ℕ → ℕ → ℕ → Rc → TransferEvent

unfoldable pub start : TransferKind → Bool → Rc → Owned
unfolding submit submit_bulk_transfer
start one_read allocated rc = (submit one_read allocated rc).0
start one_write allocated rc = (submit one_write allocated rc).0
start loop_read allocated rc = (submit_bulk_transfer allocated rc).0

unfoldable pub call_back : TransferKind → ℕ → ℕ → Rc → Owned → Owned
unfolding bulk_read_callback bulk_write_callback loop_read_callback
call_back one_read status actual rc m = bulk_read_callback status m
call_back one_write status actual rc m = bulk_write_callback m
call_back loop_read status actual rc m = loop_read_callback rc status actual m

-- libusb calls back for a transfer in flight only, which then is not in flight any more.
unfoldable pub complete : ℕ → ℕ → Rc → Owned → Owned
complete status actual rc m =
    if m.in_flight then call_back m.kind status actual rc (record m { in_flight = false }) else m

-- libusb reads its structure and reads or fills the buffer.
unfoldable pub work : Owned → Owned
work m = if m.in_flight then use_box (use_transfer m) else m

unfoldable pub at_place : ℕ → (Owned → Owned) → List Owned → List Owned
at_place k f [] = []
at_place zero f (m ∷ pool) = f m ∷ pool
at_place (suc k) f (m ∷ pool) = m ∷ at_place k f pool

unfoldable pub pool_step : TransferEvent → List Owned → List Owned
pool_step (starts kind allocated rc) pool = pool ++ (start kind allocated rc ∷ [])
pool_step (works k) pool = at_place k work pool
pool_step (completes k status actual rc) pool = at_place k (complete status actual rc) pool

unfoldable pub pool_run : List TransferEvent → List Owned → List Owned
pool_run [] pool = pool
pool_run (event ∷ events) pool = pool_run events (pool_step event pool)
