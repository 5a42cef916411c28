-- ===== src/GsUsb/Context/Memory.antt =====
-- The memory of transfers: what libusb works on is in use, and what it does not work on is not touched.
use win_can_utils.Base.{
  ℕ, zero, suc, ◌==◌, ltb, ◌≡◌, refl, inl, inr, Bool, true, false, Bool-cases, List, [], ◌∷◌, All,
  All-append,
}
use win_can_utils.GsUsb.Context.{Rc, done, failed}
use win_can_utils.GsUsb.Context.Transfers.{
  free, touch, TransferKind, Owned, submit, submit_bulk_transfer, hand_over, use_box, use_transfer,
  drop_box, alloc_transfer, free_transfer, take_read, bulk_read_callback, bulk_write_callback,
  take_loop_read, resubmit_read, loop_read_callback, absent, live, freed, one_read, one_write,
  loop_read, TransferEvent, starts, works, completes, start, call_back, complete, work, at_place,
  pool_step, pool_run,
}

-- In flight with both pieces in use, or at rest: with the box given back, and the transfer given back or
-- never made, or, for a loop read alone, with the transfer given back and the box kept.
pub data IsSound : Owned → Type 0 where
  flies :
      (kind : TransferKind)
      → IsSound (record { kind = kind; boxed = live; transfer = live; in_flight = true })
  is_over :
      (kind : TransferKind)
      → IsSound (record { kind = kind; boxed = freed; transfer = freed; in_flight = false })
  not_begun :
      (kind : TransferKind)
      → IsSound (record { kind = kind; boxed = freed; transfer = absent; in_flight = false })
  keeps_box :
      IsSound (record { kind = loop_read; boxed = live; transfer = freed; in_flight = false })

abbrev pub AreSound : List Owned → Type 0
AreSound = All IsSound

submit-IsSound :
    (kind : TransferKind) (allocated : Bool) (rc : Rc) → IsSound (submit kind allocated rc).0
unfolding submit hand_over use_box use_transfer drop_box alloc_transfer free_transfer free touch
submit-IsSound kind false rc = not_begun kind
submit-IsSound kind true (failed code) = is_over kind
submit-IsSound kind true (done n) = flies kind

start-IsSound :
    (kind : TransferKind) (allocated : Bool) (rc : Rc) → IsSound (start kind allocated rc)
unfolding start submit_bulk_transfer hand_over use_box use_transfer drop_box alloc_transfer
    free_transfer free touch
start-IsSound one_read allocated rc = submit-IsSound one_read allocated rc
start-IsSound one_write allocated rc = submit-IsSound one_write allocated rc
start-IsSound loop_read false rc = not_begun loop_read
start-IsSound loop_read true (failed code) = keeps_box
start-IsSound loop_read true (done n) = flies loop_read

-- A transfer whose callback runs.
abbrev called : TransferKind → Owned
called kind = record { kind = kind; boxed = live; transfer = live; in_flight = false }

take_read-called : (status : ℕ) → take_read status (called one_read) ≡ called one_read
unfolding take_read use_box use_transfer touch
take_read-called status = elim (Bool-cases (status == 0)) [
  | inl completed ↦ rw completed refl
  | inr broken ↦ rw broken refl
]

take_loop_read-called :
    (status actual : ℕ) → take_loop_read status actual (called loop_read) ≡ called loop_read
unfolding take_loop_read use_box use_transfer touch
take_loop_read-called status actual = elim (Bool-cases (status == 0)) [
  | inr broken ↦ rw broken refl
  | inl completed ↦ elim (Bool-cases (ltb 0 actual)) [
    | inl some_bytes ↦ rw (completed, some_bytes) refl
    | inr no_bytes ↦ rw (completed, no_bytes) refl
  ]
]

resubmit_read-IsSound : (rc : Rc) → IsSound (resubmit_read rc (called loop_read))
unfolding resubmit_read free_transfer free
resubmit_read-IsSound (failed code) = keeps_box
resubmit_read-IsSound (done n) = flies loop_read

call_back-IsSound :
    (kind : TransferKind) (status actual : ℕ) (rc : Rc)
    → IsSound (call_back kind status actual rc (called kind))
unfolding call_back bulk_read_callback bulk_write_callback loop_read_callback use_box use_transfer
    drop_box free_transfer free touch
call_back-IsSound one_read status actual rc = rw (take_read-called status) (is_over one_read)
call_back-IsSound one_write status actual rc = is_over one_write
call_back-IsSound loop_read status actual rc =
    rw (take_loop_read-called status actual) (resubmit_read-IsSound rc)

complete-IsSound :
    (status actual : ℕ) (rc : Rc) (m : Owned) → IsSound m → IsSound (complete status actual rc m)
unfolding complete
complete-IsSound status actual rc _ (flies kind) = call_back-IsSound kind status actual rc
complete-IsSound status actual rc _ (is_over kind) = is_over kind
complete-IsSound status actual rc _ (not_begun kind) = not_begun kind
complete-IsSound status actual rc _ keeps_box = keeps_box

work-IsSound : (m : Owned) → IsSound m → IsSound (work m)
unfolding work use_box use_transfer touch
work-IsSound _ (flies kind) = flies kind
work-IsSound _ (is_over kind) = is_over kind
work-IsSound _ (not_begun kind) = not_begun kind
work-IsSound _ keeps_box = keeps_box

at_place-AreSound :
    (k : ℕ) (f : Owned → Owned) (pool : List Owned)
    → ((m : Owned) → IsSound m → IsSound (f m))
    → AreSound pool
    → AreSound (at_place k f pool)
unfolding at_place
at_place-AreSound k f [] keeps sound = tt
at_place-AreSound zero f (m ∷ pool) keeps (one, sound) = (keeps m one, sound)
at_place-AreSound (suc k) f (m ∷ pool) keeps (one, sound) =
    (one, at_place-AreSound k f pool keeps sound)

pool_step-AreSound :
    (event : TransferEvent) (pool : List Owned) → AreSound pool → AreSound (pool_step event pool)
unfolding pool_step
pool_step-AreSound (starts kind allocated rc) pool sound =
    All-append IsSound pool (start kind allocated rc ∷ []) sound
      (start-IsSound kind allocated rc, tt)
pool_step-AreSound (works k) pool sound = at_place-AreSound k work pool work-IsSound sound
pool_step-AreSound (completes k status actual rc) pool sound =
    at_place-AreSound k (complete status actual rc) pool (complete-IsSound status actual rc) sound

-- However starts, work and completions of one-shot transfers and of loop reads follow each other, and
-- however they fail: no memory is touched or given back that is not in use; a transfer in flight has
-- its box and its structure; one at rest has neither, but a loop read may keep its box.
pub pool_run-AreSound :
    (events : List TransferEvent) (pool : List Owned)
    → AreSound pool
    → AreSound (pool_run events pool)
unfolding pool_run
pool_run-AreSound [] pool sound = sound
pool_run-AreSound (event ∷ events) pool sound =
    pool_run-AreSound events (pool_step event pool) (pool_step-AreSound event pool sound)
