-- ===== src/GsUsb/Run/Slots.antt =====
-- The read slots of the event loop: none is lost and none doubled.
use mathlib.Core.List.{Perm, perm_append_singleton}
use mathlib.Core.List.Perm
use mathlib.Core.Path.{subst}
use win_can_utils.Base.{
  ℕ, zero, suc, ◌≡◌, inl, inr, Bool, true, false, List, [], ◌∷◌, Option, none, some, Option-cases,
  Outcome, value, panic,
}
use win_can_utils.Can.{CanApi}
use win_can_utils.Io.{IoResult, ok, err}
use win_can_utils.GsUsb.Requests.{Device}
use win_can_utils.GsUsb.EventLoop.{UsbEventLoop, process_rx_chunk}
use win_can_utils.GsUsb.Run.{
  rx_slots, take_slot, RunEvent, commanded, closed, completed, Run, start_run, note_handled,
  received, receive, resubmit, and_run, complete_slot, run_step, while_running, run_events,
}

TakenSlot : ℕ → List ℕ → Option (ℕ × List ℕ) → Type 0
TakenSlot k slots none = Unit
TakenSlot k slots (some (idx, others)) = Perm slots (idx ∷ others)

take_slot-Perm : (k : ℕ) (slots : List ℕ) → TakenSlot k slots (take_slot k slots)
unfolding TakenSlot take_slot
take_slot-Perm k [] = tt
take_slot-Perm zero (s ∷ slots) = Perm.refl (s ∷ slots)
take_slot-Perm (suc k) (s ∷ slots) = elim (Option-cases (take_slot k slots)) [
  | inl absent ↦ rw (absent, take_slot) tt
  | inr ((idx, others), found) ↦
      let smaller = subst (TakenSlot k slots) found (take_slot-Perm k slots) in
      rw (found, take_slot) (Perm.trans (Perm.cons s smaller) (Perm.swap idx s others))
]

module _ (can : CanApi) (device : Device) where
  -- The result's slots are those given, in some order.
  pub HasSlots : List ℕ → Option (Outcome (Run can device)) → Type 0
  HasSlots slots none = Unit
  HasSlots slots (some panic) = Unit
  HasSlots slots (some (value r)) = Perm slots r.in_flight

  received-HasSlots :
      (found : Option (Outcome (UsbEventLoop × List can.CanFrame))) (r : Run can device)
      → HasSlots r.in_flight (received can device found r)
  unfolding HasSlots received
  received-HasSlots none r = tt
  received-HasSlots (some panic) r = tt
  received-HasSlots (some (value (loop', frames))) r = Perm.refl r.in_flight

  receive-HasSlots :
      (result : IoResult (List ℕ)) (r : Run can device)
      → HasSlots r.in_flight (receive can device result r)
  unfolding HasSlots receive
  receive-HasSlots (err kind) r = Perm.refl r.in_flight
  receive-HasSlots (ok chunk) r = received-HasSlots (process_rx_chunk can r.loop chunk) r

  resubmit-HasSlots :
      (idx : ℕ) (slots others : List ℕ) (result : Option (Outcome (Run can device)))
      → Perm slots (idx ∷ others)
      → HasSlots slots (resubmit can device idx others result)
  unfolding HasSlots resubmit
  resubmit-HasSlots idx slots others none same = tt
  resubmit-HasSlots idx slots others (some panic) same = tt
  resubmit-HasSlots idx slots others (some (value r)) same =
      Perm.trans same (Perm.symm (perm_append_singleton idx others))

  complete_slot-HasSlots :
      (found : Option (ℕ × List ℕ)) (k : ℕ) (result : IoResult (List ℕ)) (r : Run can device)
      → TakenSlot k r.in_flight found
      → HasSlots r.in_flight (complete_slot can device found result r)
  unfolding HasSlots complete_slot TakenSlot
  complete_slot-HasSlots none k result r same = Perm.refl r.in_flight
  complete_slot-HasSlots (some (idx, others)) k result r same =
      resubmit-HasSlots idx r.in_flight others (receive can device result r) same

  run_step-HasSlots :
      (event : RunEvent) (r : Run can device) → HasSlots r.in_flight (run_step can device event r)
  unfolding HasSlots run_step note_handled
  run_step-HasSlots (commanded command) r = Perm.refl r.in_flight
  run_step-HasSlots closed r = Perm.refl r.in_flight
  run_step-HasSlots (completed k result) r =
      complete_slot-HasSlots (take_slot k r.in_flight) k result r (take_slot-Perm k r.in_flight)

  while_running-HasSlots :
      (running : Bool) (event : RunEvent) (r : Run can device)
      → HasSlots r.in_flight (while_running can device running event r)
  unfolding HasSlots while_running
  while_running-HasSlots true event r = run_step-HasSlots event r
  while_running-HasSlots false event r = Perm.refl r.in_flight

  and_run-HasSlots :
      (slots : List ℕ) (first : Option (Outcome (Run can device))) (events : List RunEvent)
      → HasSlots slots first
      → ((r : Run can device)
          → Perm slots r.in_flight
          → HasSlots slots (run_events can device events r))
      → HasSlots slots (and_run can device first (run_events can device events))
  unfolding HasSlots and_run
  and_run-HasSlots slots none events h later = tt
  and_run-HasSlots slots (some panic) events h later = tt
  and_run-HasSlots slots (some (value r)) events h later = later r h

  widen :
      (slots others : List ℕ) (result : Option (Outcome (Run can device)))
      → Perm slots others
      → HasSlots others result
      → HasSlots slots result
  unfolding HasSlots
  widen slots others none same h = tt
  widen slots others (some panic) same h = tt
  widen slots others (some (value r)) same h = Perm.trans same h

  run_events-HasSlots_from :
      (slots : List ℕ) (events : List RunEvent) (r : Run can device)
      → Perm slots r.in_flight
      → HasSlots slots (run_events can device events r)
  unfolding HasSlots run_events
  run_events-HasSlots_from slots [] r same = same
  run_events-HasSlots_from slots (event ∷ events) r same =
      and_run-HasSlots slots (while_running can device r.running event r) events
        (widen slots r.in_flight (while_running can device r.running event r) same
          (while_running-HasSlots r.running event r))
        (run_events-HasSlots_from slots events)

  -- After any commands and completed reads, with any results, each of the eight read slots is in flight
  -- exactly once: the loop always has reads to wait for.
  pub run_events-slots :
      (events : List RunEvent) (loop : UsbEventLoop) (r : Run can device)
      → run_events can device events (start_run can device loop) ≡ some (value r)
      → Perm rx_slots r.in_flight
  unfolding HasSlots start_run
  run_events-slots events loop r h =
      subst (HasSlots rx_slots) h
        (run_events-HasSlots_from rx_slots events (start_run can device loop) (Perm.refl rx_slots))
