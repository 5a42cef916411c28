-- ===== src/GsUsb/Setup/InStep.antt =====
-- The device against the driver while a channel is set up: its bit timing, and when it runs.
use win_can_utils.Base.{
  ℕ, ◌≡◌, inl, inr, refl, sym, ap, ◌∙◌, true, false, List, [], ◌∷◌, ◌++◌, append-nil, append_assoc,
  Option, none, some, ◌⊎◌,
}
use mathlib.Core.Path.{subst}
use win_can_utils.Base.Bytes.{to_le_bytes}
use win_can_utils.Can.{CanApi}
use win_can_utils.Io.{ok, err, ErrorKind, IoResult-cases}
use win_can_utils.GsUsb.Constants.{
  gs_can_mode_reset, gs_can_mode_start, gs_usb_breq_timestamp, request_type_out,
}
use win_can_utils.GsUsb.Requests.{Request, Device, encode_mode, control_out}
use win_can_utils.GsUsb.BitTiming.{GsBtConst, GsDeviceBitTiming, Scores, to_bytes, calc_bit_timing}
use win_can_utils.GsUsb.Driver.{GsUsbDriver, Log, mode_request}
use win_can_utils.GsUsb.Setup.Channel.{timing_request}
use win_can_utils.GsUsb.Setup.Session.{
  Situation, Call, Adapter, fresh, is_start, told, hear, hear_all, adapter_at, session, Step,
  resets, starts, refuses, programs, stamps, Reach, here, next,
}
use win_can_utils.GsUsb.Setup.Steps.{session-Reach}

hear_all-append :
    (device : Device) (before log : Log) (r : Request) (a : Adapter)
    → hear_all device before (log ++ (r ∷ [])) a
      ≡ hear (device.answer ((before ++ log) ++ (r ∷ []))) r (hear_all device before log a)
unfolding hear_all
hear_all-append device before [] r a = rw append-nil refl
hear_all-append device before (x ∷ log) r a =
    let moved : (before ++ (x ∷ [])) ++ log ≡ before ++ (x ∷ log) =
      append_assoc before (x ∷ []) log in
    let a' = hear (device.answer (before ++ (x ∷ []))) x a in
    hear_all-append device (before ++ (x ∷ [])) log r a'
    ∙ ap (λ l. hear (device.answer (l ++ (r ∷ []))) r (hear_all device (before ++ (x ∷ [])) log a'))
        moved

pub adapter_at-append :
    (device : Device) (log : Log) (r : Request)
    → adapter_at device (log ++ (r ∷ []))
      ≡ hear (device.answer (log ++ (r ∷ []))) r (adapter_at device log)
unfolding adapter_at
adapter_at-append device log r = hear_all-append device [] log r fresh

-- What holds in both cases of an answer holds of the device after the request.
after_request :
    (device : Device) (log : Log) (r : Request) (P : Adapter → Type 0)
    → ((kind : ErrorKind) → device.answer (log ++ (r ∷ [])) ≡ err kind → P (adapter_at device log))
    → ((n : ℕ) → device.answer (log ++ (r ∷ [])) ≡ ok n → P (hear (ok n) r (adapter_at device log)))
    → P (adapter_at device (log ++ (r ∷ [])))
unfolding hear
after_request device log r P refused accepted =
    let same = adapter_at-append device log r in
    elim (IoResult-cases (device.answer (log ++ (r ∷ [])))) [
      | inl (n, e) ↦
          subst P (ap (λ x. hear x r (adapter_at device log)) (sym e) ∙ sym same) (accepted n e)
      | inr (kind, e) ↦
          subst P (ap (λ x. hear x r (adapter_at device log)) (sym e) ∙ sym same) (refused kind e)
    ]

-- The timing of a rate, found within the known limits.
unfoldable pub IsTimingOf : Scores → Option GsBtConst → Option (List ℕ) → Option ℕ → Type 0
IsTimingOf scores limits told_bytes none = Unit
IsTimingOf scores limits told_bytes (some bitrate) =
    (caps : GsBtConst) × (timing : GsDeviceBitTiming) × (limits ≡ some caps)
    × (calc_bit_timing scores bitrate caps ≡ some timing)
    × (told_bytes ≡ some (to_bytes timing))

-- The rate that the driver keeps, if it keeps one, is the one whose timing the device took last, and a
-- device that runs has taken a timing.
pub record IsInStep (scores : Scores) (d : GsUsbDriver) (a : Adapter) : Type 0 where
  pub rate_told : IsTimingOf scores d.bt_const a.timing d.configured_bitrate
  pub timed : (a.running ≡ false) ⊎ ((bytes : List ℕ) × (a.timing ≡ some bytes))

module _ (can : CanApi) (device : Device) (scores : Scores) where
  abbrev pub AreInStep : Situation → Type 0
  AreInStep (d, log) = IsInStep scores d (adapter_at device log)

  -- A request that changes neither the timing nor what runs.
  told_other :
      (d : GsUsbDriver) (log : Log) (r : Request)
      → ((n : ℕ) → hear (ok n) r (adapter_at device log) ≡ adapter_at device log)
      → IsInStep scores d (adapter_at device log)
      → IsInStep scores d (adapter_at device (log ++ (r ∷ [])))
  told_other d log r same h =
      after_request device log r (IsInStep scores d) (λ kind e. h)
        (λ n e. subst (IsInStep scores d) (sym (same n)) h)

  some_timing :
      (limits : Option GsBtConst) (told_bytes : Option (List ℕ)) (rate : Option ℕ) (bitrate : ℕ)
      → rate ≡ some bitrate
      → IsTimingOf scores limits told_bytes rate
      → (bytes : List ℕ) × (told_bytes ≡ some bytes)
  unfolding IsTimingOf
  some_timing limits told_bytes none bitrate set h = absurd cc
  some_timing limits told_bytes (some b) bitrate set (caps, timing, known, found, taken) =
      (to_bytes timing, taken)

  Step-AreInStep : {s t : Situation} → Step can device scores s t → AreInStep s → AreInStep t
  unfolding IsTimingOf hear told is_start mode_request timing_request encode_mode to_le_bytes
  Step-AreInStep (resets d log) h =
      after_request device log (mode_request can device d gs_can_mode_reset 0) (IsInStep scores d)
        (λ kind e. h) (λ n e. record { rate_told = h.rate_told; timed = inl refl })
  Step-AreInStep (starts d log bitrate flags set) h =
      after_request device log (mode_request can device d gs_can_mode_start flags)
        (IsInStep scores d) (λ kind e. h)
        (λ n e. record {
          rate_told = h.rate_told;
          timed = inr (
              some_timing d.bt_const (adapter_at device log).timing d.configured_bitrate bitrate set
                h.rate_told);
        })
  Step-AreInStep (refuses d log timing kind e) h =
      after_request device log (timing_request can device d timing) (IsInStep scores d)
        (λ kind e. h) (λ n e'. absurd cc)
  Step-AreInStep (programs d log caps timing bitrate n known found e) h =
      after_request device log (timing_request can device d timing)
        (IsInStep scores (record d { configured_bitrate = some bitrate })) (λ kind e'. absurd cc)
        (λ m e'. record {
          rate_told = (caps, timing, known, found, refl);
          timed = inr (to_bytes timing, refl);
        })
  Step-AreInStep (stamps d log) h =
      let stamped : IsInStep scores (record d { timestamp_enabled = true })
          (adapter_at device log) =
        record { rate_told = h.rate_told; timed = h.timed } in
      told_other (record d { timestamp_enabled = true }) log
        (control_out request_type_out gs_usb_breq_timestamp d.channel_index d.interface_number
          (to_le_bytes 4 1))
        (λ n. refl) stamped

  pub Reach-AreInStep : {s t : Situation} → Reach can device scores s t → AreInStep s → AreInStep t
  Reach-AreInStep here h = h
  Reach-AreInStep (next r step) h = Step-AreInStep step (Reach-AreInStep r h)

  -- Calls that set a channel up, in any order and whatever the device answers, keep the driver and the
  -- device in step: the rate that the driver keeps is the one whose timing the device took last, and a
  -- device that runs has taken a timing.
  pub session-AreInStep :
      (calls : List Call) (s : Situation)
      → AreInStep s
      → AreInStep (session can device scores calls s)
  session-AreInStep calls s h = Reach-AreInStep (session-Reach can device scores calls s) h
