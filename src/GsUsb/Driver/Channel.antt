-- ===== src/GsUsb/Driver/Channel.antt =====
-- When the channel of the gs_usb driver is opened, and what opening it asks for.
use win_can_utils.Base.{
  ℕ, ◌+◌, ◌≡◌, inl, inr, refl, sym, ap, ◌∙◌, if◌then◌else◌, Bool, true, false, [], ◌∷◌, ◌++◌,
  append_assoc, some, Option-cases,
}
use win_can_utils.Can.{CanApi}
use win_can_utils.Io.{ok, err, IoResult-cases, invalid_input}
use win_can_utils.GsUsb.Constants.{gs_can_mode_reset, gs_can_mode_start}
use win_can_utils.GsUsb.Requests.{Request, Device}
use win_can_utils.GsUsb.Driver.{
  GsUsbDriver, Log, Driven, mode_request, mode_flags, request_unit, open_channel_inner, open_if,
  open_channel,
}

-- A flag's value.
abbrev worth : Bool → ℕ → ℕ
worth b n = if b then n else 0

module _ (can : CanApi) (device : Device) where
  mode_flags_lem :
      (d : GsUsbDriver)
      → mode_flags can device d ≡ worth d.timestamp_enabled 16 + worth d.pad_pkts 128
  unfolding mode_flags
  mode_flags_lem d = by_flags d.timestamp_enabled d.pad_pkts d refl refl
    where
      by_flags :
          (ts pad : Bool) (d : GsUsbDriver)
          → d.timestamp_enabled ≡ ts
          → d.pad_pkts ≡ pad
          → mode_flags can device d ≡ worth d.timestamp_enabled 16 + worth d.pad_pkts 128
      by_flags true true d a b = rw (a, b) refl
      by_flags true false d a b = rw (a, b) refl
      by_flags false true d a b = rw (a, b) refl
      by_flags false false d a b = rw (a, b) refl

  request_unit-ok :
      (d d' : GsUsbDriver) (r : Request) (log log' : Log)
      → request_unit can device d r log ≡ (ok tt, d', log')
      → ((n : ℕ) × (device.answer (log ++ (r ∷ [])) ≡ ok n)) × (d' ≡ d) × (log' ≡ log ++ (r ∷ []))
  unfolding request_unit
  request_unit-ok d d' r log log' h = elim (IoResult-cases (device.answer (log ++ (r ∷ [])))) [
    | inr (kind, e) ↦
        let h' : ◌≡◌ {A = Driven can device} (err kind, d, log ++ (r ∷ [])) (ok tt, d', log') =
          sym (rw (e, request_unit) refl) ∙ h in
        absurd cc
    | inl (n, e) ↦
        let h' : ◌≡◌ {A = Driven can device} (ok tt, d, log ++ (r ∷ [])) (ok tt, d', log') =
          sym (rw (e, request_unit) refl) ∙ h in
        ((n, e), cc, cc)
  ]

module _ (can : CanApi) (device : Device) (d : GsUsbDriver) (log : Log) where
  abbrev pub reset_request : Request
  reset_request = mode_request can device d gs_can_mode_reset 0

  -- START with the flag of 16 for timestamps and that of 128 for padding, each if it is on.
  abbrev pub start_request : Request
  start_request =
      mode_request can device d gs_can_mode_start
        ((if d.timestamp_enabled then 16 else 0) + (if d.pad_pkts then 128 else 0))

  -- A channel opens only with a bitrate set, by a RESET and then a START, both accepted, the latter
  -- with exactly the flags of the features that are on; the driver's state stays.
  pub open_channel-ok :
      (d' : GsUsbDriver) (log' : Log)
      → open_channel can device d log ≡ (ok tt, d', log')
      → ((bitrate : ℕ) × (d.configured_bitrate ≡ some bitrate))
        × ((n : ℕ) × (device.answer (log ++ (reset_request ∷ [])) ≡ ok n))
        × ((n : ℕ) × (device.answer (log ++ (reset_request ∷ start_request ∷ [])) ≡ ok n))
        × (d' ≡ d)
        × (log' ≡ log ++ (reset_request ∷ start_request ∷ []))
  unfolding open_channel open_if open_channel_inner
  open_channel-ok d' log' h = elim (Option-cases d.configured_bitrate) [
    | inl absent ↦
        let h' : ◌≡◌ {A = Driven can device} (err invalid_input, d, log) (ok tt, d', log') =
          sym (ap (λ o. open_if can device o d log) absent) ∙ h in
        absurd cc
    | inr (bitrate, set) ↦ elim (IoResult-cases (device.answer (log ++ (reset_request ∷ [])))) [
      | inr (kind, e) ↦
          let h' : ◌≡◌ {A = Driven can device} (err kind, d, log ++ (reset_request ∷ []))
              (ok tt, d', log') =
            sym (ap (λ o. open_if can device o d log) set ∙ rw (e, open_channel_inner) refl) ∙ h in
          absurd cc
      | inl (n, e) ↦
          let start = mode_request can device d gs_can_mode_start (mode_flags can device d) in
          let same : start ≡ start_request =
            ap (mode_request can device d gs_can_mode_start) (mode_flags_lem can device d) in
          let logged : (log ++ (reset_request ∷ [])) ++ (start ∷ [])
              ≡ log ++ (reset_request ∷ start_request ∷ []) =
            append_assoc log (reset_request ∷ []) (start ∷ [])
            ∙ ap (λ r. log ++ (reset_request ∷ r ∷ [])) same in
          let ((m, accepted), kept, ends) =
            request_unit-ok can device d d' start (log ++ (reset_request ∷ [])) log' (
              sym (ap (λ o. open_if can device o d log) set ∙ rw (e, open_channel_inner) refl)
              ∙ h) in
          (
            (bitrate, set),
            (n, e),
            (m, sym (ap device.answer logged) ∙ accepted),
            kept,
            ends ∙ logged,
          )
    ]
  ]
