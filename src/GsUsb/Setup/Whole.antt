-- ===== src/GsUsb/Setup/Whole.antt =====
-- A gs_usb driver from its handshake on, through all the calls that set its channel up.
use mathlib.Core.Path.{subst}
use win_can_utils.Base.{ℕ, ◌≡◌, refl, sym, inl, ◌∙◌, none, List, [], ◌∷◌, ◌++◌, value}
use win_can_utils.Can.{CanApi}
use win_can_utils.Io.{IoResult, ok, err}
use win_can_utils.GsUsb.Requests.{Request, control_out, control_in, bulk_write, clear_halt, Device}
use win_can_utils.GsUsb.BitTiming.{Scores}
use win_can_utils.GsUsb.Discovery.{InterfaceInfo}
use win_can_utils.GsUsb.EventLoop.{UsbEventLoop}
use win_can_utils.GsUsb.Driver.{GsUsbDriver, Log}
use win_can_utils.GsUsb.Setup.{note_requests}
use win_can_utils.GsUsb.Setup.Open.{negotiate}
use win_can_utils.GsUsb.Setup.Session.{
  Situation, Call, Adapter, fresh, told, hear, hear_all, adapter_at, session,
}
use win_can_utils.GsUsb.Setup.InStep.{IsTimingOf, IsInStep, session-AreInStep}
use win_can_utils.GsUsb.Setup.Agreement.{Agrees, session-Agree}
use win_can_utils.GsUsb.Setup.Quiet.{IsHandshake, AreHandshake, note_handshake}
use win_can_utils.GsUsb.Setup.Opened.{IsOpened, IsReady, started, negotiate-IsOpened}

unheard : (answer : IoResult ℕ) (r : Request) (a : Adapter) → IsHandshake r → hear answer r a ≡ a
unfolding hear told IsHandshake
unheard (err kind) r a one = refl
unheard (ok n) (control_out request_type request word index bytes) a one = rw one refl
unheard (ok n) (control_in request_type request word index len) a one = refl
unheard (ok n) (bulk_write endpoint bytes) a one = absurd one
unheard (ok n) (clear_halt endpoint) a one = absurd one

-- The device takes neither a timing nor a mode from the handshake.
hear_handshake :
    (device : Device) (before log : Log) (a : Adapter)
    → AreHandshake log
    → hear_all device before log a ≡ a
unfolding hear_all hear told IsHandshake
hear_handshake device before [] a quiet = refl
hear_handshake device before (r ∷ log) a (one, quiet) =
    hear_handshake device (before ++ (r ∷ [])) log (hear (device.answer (before ++ (r ∷ []))) r a)
      quiet
    ∙ unheard (device.answer (before ++ (r ∷ []))) r a one

-- In step with the device, and agreeing with the event loop `s`, which passes on all requests.
abbrev pub IsWhole : Device → Scores → UsbEventLoop → Situation → Type 0
IsWhole device scores s (d, log) =
    IsInStep scores d (adapter_at device log) × Agrees d (note_requests device log s)

module _ (can : CanApi) (device : Device) (scores : Scores) (info : InterfaceInfo) where
  ready-IsWhole :
      (d : GsUsbDriver) (s : UsbEventLoop) (log : Log)
      → IsReady device d s log
      → IsWhole device scores s (d, log)
  unfolding adapter_at IsTimingOf
  ready-IsWhole d s log h =
      let heard : fresh ≡ adapter_at device log =
        sym (hear_handshake device [] log fresh h.handshake_only) in
      (
        subst (IsInStep scores d) heard (record {
          rate_told = subst (IsTimingOf scores d.bt_const none) (sym h.no_rate) tt;
          timed = inl refl;
        }),
        subst (Agrees d) (sym (note_handshake device log s h.handshake_only)) h.agrees,
      )

  -- After a handshake that gives a driver, all calls that set the channel up, in any order and whatever
  -- the device answers, keep driver and device in step and driver and event loop in agreement.
  pub session-IsWhole :
      (calls : List Call) (d : GsUsbDriver) (s : UsbEventLoop) (log : Log)
      → negotiate device info (started device info) [] ≡ value (ok (d, s), log)
      → IsWhole device scores s (session can device scores calls (d, log))
  unfolding IsOpened
  session-IsWhole calls d s log opened =
      let (in_step, agrees) =
        ready-IsWhole d s log (subst (IsOpened device) opened (negotiate-IsOpened device info)) in
      (
        session-AreInStep can device scores calls (d, log) in_step,
        session-Agree can device scores s calls (d, log) agrees,
      )
