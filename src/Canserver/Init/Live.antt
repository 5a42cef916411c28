-- ===== src/Canserver/Init/Live.antt =====
-- canserver's set-up of a gs_usb adapter, from the handshake to the running channel.
use mathlib.Core.Path.{subst}
use win_can_utils.Base.{
  ℕ, ◌≡◌, inl, inr, refl, sym, ap, ◌∙◌, ◌+◌, if◌then◌else◌, true, List, [], ◌∷◌, ◌++◌, append_assoc,
  Option, none, some, value,
}
use win_can_utils.Base.Bytes.{to_le_bytes}
use win_can_utils.Can.{CanApi}
use win_can_utils.Io.{IoResult, ok, err, IoResult-cases}
use win_can_utils.Canserver.Init.{CanDriver, and_call, bring_up, bring_up_if, init_gsusb}
use win_can_utils.GsUsb.Constants.{gs_can_mode_reset, gs_can_mode_start}
use win_can_utils.GsUsb.Requests.{Device, encode_mode}
use win_can_utils.GsUsb.BitTiming.{GsBtConst, GsDeviceBitTiming, Scores, calc_bit_timing}
use win_can_utils.GsUsb.Discovery.{InterfaceInfo}
use win_can_utils.GsUsb.EventLoop.{UsbEventLoop}
use win_can_utils.GsUsb.Driver.{
  GsUsbDriver, Log, Driven, mode_request, open_channel, close_channel_inner, enable_timestamp,
}
use win_can_utils.GsUsb.Driver.Channel.{reset_request, start_request, open_channel-ok}
use win_can_utils.GsUsb.Setup.Open.{negotiate}
use win_can_utils.GsUsb.Setup.Opened.{started}
use win_can_utils.GsUsb.Setup.Channel.{
  timing_request, send_timing, program, program_if, set_bitrate_if, set_bitrate,
}
use win_can_utils.GsUsb.Setup.Session.{
  Situation, Call, call_set_bitrate, call_enable_timestamp, call_open_channel, call_close_channel,
  hear, told, is_start, adapter_at, situation, perform, session,
}
use win_can_utils.GsUsb.Setup.InStep.{adapter_at-append}
use win_can_utils.GsUsb.Setup.Whole.{IsWhole, session-IsWhole}

module _ {D : Type 0} (driver : CanDriver D) where
  and_call-ok :
      (called : IoResult {0} Unit × D) (next : D → IoResult {0} Unit × D) (d' : D)
      → and_call driver called next ≡ (ok tt, d')
      → (d : D) × (called ≡ (ok tt, d)) × (next d ≡ (ok tt, d'))
  unfolding and_call
  and_call-ok (err kind, d) next d' h = absurd cc
  and_call-ok (ok _, d) next d' h = (d, refl, h)

module _ (can : CanApi) (device : Device) (scores : Scores) where
  unfoldable pub as_call : Driven can device → IoResult {0} Unit × Situation
  as_call (result, d, log) = (result, (d, log))

  as_call-ok :
      (driven : Driven can device) (s : Situation)
      → as_call driven ≡ (ok tt, s)
      → driven ≡ (ok tt, s.0, s.1)
  unfolding as_call
  as_call-ok (err kind, d, log) s h = absurd cc
  as_call-ok (ok _, d, log) s h = let same = ap (λ p. p.1) h in ap (λ t. (ok tt, t.0, t.1)) same

  -- The gs_usb driver with the requests that it has made.
  abbrev pub gs_usb : CanDriver Situation
  gs_usb = record {
    close_channel = λ s. as_call (close_channel_inner can device s.0 s.1);
    set_bitrate = λ bitrate s. as_call (set_bitrate can device scores bitrate s.0 s.1);
    enable_timestamp = λ s. as_call (enable_timestamp can device s.0 s.1);
    open_channel = λ s. as_call (open_channel can device s.0 s.1);
  }

  RateIs : Option ℕ → Driven can device → Type 0
  RateIs rate (err kind, d, log) = Unit
  RateIs rate (ok _, d, log) = d.configured_bitrate ≡ rate

  send_timing-rate :
      (bitrate : ℕ) (timing : GsDeviceBitTiming) (d : GsUsbDriver) (log : Log)
      → RateIs (some bitrate) (send_timing can device bitrate timing d log)
  unfolding RateIs send_timing
  send_timing-rate bitrate timing d log =
      elim (IoResult-cases (device.answer (log ++ (timing_request can device d timing ∷ [])))) [
        | inl (n, e) ↦ rw (e, send_timing) refl
        | inr (kind, e) ↦ rw (e, send_timing) tt
      ]

  program_if-rate :
      (bitrate : ℕ) (timing : Option GsDeviceBitTiming) (d : GsUsbDriver) (log : Log)
      → RateIs (some bitrate) (program_if can device bitrate timing d log)
  unfolding RateIs program_if program
  program_if-rate bitrate none d log = tt
  program_if-rate bitrate (some timing) d log =
      let reset = log ++ (mode_request can device d gs_can_mode_reset 0 ∷ []) in
      elim (IoResult-cases (device.answer reset)) [
        | inl (n, e) ↦ rw (e, program) (send_timing-rate bitrate timing d reset)
        | inr (kind, e) ↦ rw (e, program) tt
      ]

  set_bitrate_if-rate :
      (bitrate : ℕ) (limits : Option GsBtConst) (d : GsUsbDriver) (log : Log)
      → RateIs (some bitrate) (set_bitrate_if can device scores bitrate limits d log)
  unfolding RateIs set_bitrate_if
  set_bitrate_if-rate bitrate none d log = tt
  set_bitrate_if-rate bitrate (some caps) d log =
      program_if-rate bitrate (calc_bit_timing scores bitrate caps) d log

  set_bitrate-ok :
      (bitrate : ℕ) (s : Situation) (d' : GsUsbDriver) (log' : Log)
      → set_bitrate can device scores bitrate s.0 s.1 ≡ (ok tt, d', log')
      → d'.configured_bitrate ≡ some bitrate
  unfolding RateIs set_bitrate
  set_bitrate-ok bitrate (d, log) d' log' h =
      subst (RateIs (some bitrate)) h (set_bitrate_if-rate bitrate d.bt_const d log)

  -- The device runs once a START is accepted.
  runs :
      (d : GsUsbDriver) (log : Log) (flags n : ℕ)
      → device.answer (log ++ (mode_request can device d gs_can_mode_start flags ∷ [])) ≡ ok n
      → (adapter_at device
          (log ++ (mode_request can device d gs_can_mode_start flags ∷ []))).running
        ≡ true
  unfolding hear told is_start mode_request encode_mode to_le_bytes
  runs d log flags n e =
      ap (λ a. a.running)
        (adapter_at-append device log (mode_request can device d gs_can_mode_start flags)
          ∙ ap
              (λ x.
                hear x (mode_request can device d gs_can_mode_start flags) (adapter_at device log))
              e)

  -- A set-up that ends well leaves the requested rate configured, timestamps on and the device running.
  pub record IsLive (bitrate : Option ℕ) (s : Situation) : Type 0 where
    pub requested : (b : ℕ) × (bitrate ≡ some b) × (s.0.configured_bitrate ≡ some b)
    pub stamped : s.0.timestamp_enabled ≡ true
    pub running : (adapter_at device s.1).running ≡ true

  enable_timestamp-on :
      (s t : Situation)
      → as_call (enable_timestamp can device s.0 s.1) ≡ (ok tt, t)
      → (t.0.timestamp_enabled ≡ true) × (t.0.configured_bitrate ≡ s.0.configured_bitrate)
  unfolding as_call enable_timestamp
  enable_timestamp-on (d, log) t h =
      let same = ap (λ p. p.1.0) h in
      (sym (ap (λ e. e.timestamp_enabled) same), sym (ap (λ e. e.configured_bitrate) same))

  situation-as_call :
      (driven : Driven can device) (s : Situation)
      → as_call driven ≡ (ok tt, s)
      → situation can device scores driven ≡ s
  unfolding as_call situation
  situation-as_call (result, d, log) s h = ap (λ p. p.1) h

  session_step :
      (call : Call) (calls : List Call) (s t : Situation)
      → as_call (perform can device scores call s.0 s.1) ≡ (ok tt, t)
      → session can device scores (call ∷ calls) s ≡ session can device scores calls t
  unfolding session
  session_step call calls (d, log) t h =
      ap (session can device scores calls)
        (situation-as_call (perform can device scores call d log) t h)

  abbrev pub set_up_calls : ℕ → List Call
  set_up_calls bitrate =
      call_close_channel ∷ call_set_bitrate bitrate ∷ call_enable_timestamp ∷ call_open_channel ∷ []

  opened-running :
      (s t : Situation)
      → as_call (open_channel can device s.0 s.1) ≡ (ok tt, t)
      → ((adapter_at device t.1).running ≡ true) × (t.0 ≡ s.0)
  opened-running s t h =
      let d = s.0 in
      let log = s.1 in
      let (rate, reset_taken, start_taken, kept, ends) =
        open_channel-ok can device d log t.0 t.1 (as_call-ok (open_channel can device d log) t h) in
      let reset = reset_request can device d log in
      let start = start_request can device d log in
      let apart : (log ++ (reset ∷ [])) ++ (start ∷ []) ≡ log ++ (reset ∷ start ∷ []) =
        append_assoc log (reset ∷ []) (start ∷ []) in
      let flags = (if d.timestamp_enabled then 16 else 0) + (if d.pad_pkts then 128 else 0) in
      let on =
        runs d (log ++ (reset ∷ [])) flags start_taken.0 (ap device.answer apart ∙ start_taken.1) in
      (ap (λ l. (adapter_at device l).running) (ends ∙ sym apart) ∙ on, kept)

  init_gsusb_lem :
      (bitrate : Option ℕ) (s t : Situation)
      → init_gsusb gs_usb bitrate s ≡ (ok tt, t)
      → IsLive bitrate t × ((b : ℕ) × (session can device scores (set_up_calls b) s ≡ t))
  unfolding init_gsusb bring_up_if bring_up perform session
  init_gsusb_lem none s t h =
      let (s1, closed, rest) =
        and_call-ok gs_usb (gs_usb.close_channel s) (bring_up_if gs_usb none) t h in
      absurd cc
  init_gsusb_lem (some b) s t h =
      let (s1, closed, rest) =
        and_call-ok gs_usb (gs_usb.close_channel s) (bring_up_if gs_usb (some b)) t h in
      let (s3, two, opened) =
        and_call-ok gs_usb (and_call gs_usb (gs_usb.set_bitrate b s1) gs_usb.enable_timestamp)
          gs_usb.open_channel t rest in
      let (s2, set, stamped) =
        and_call-ok gs_usb (gs_usb.set_bitrate b s1) gs_usb.enable_timestamp s3 two in
      let rate =
        set_bitrate-ok b s1 s2.0 s2.1
          (as_call-ok (set_bitrate can device scores b s1.0 s1.1) s2 set) in
      let (on, same) = enable_timestamp-on s2 s3 stamped in
      let (running, kept) = opened-running s3 t opened in
      (
        record {
          requested = (b, refl, ap (λ d. d.configured_bitrate) kept ∙ same ∙ rate);
          stamped = ap (λ d. d.timestamp_enabled) kept ∙ on;
          running = running;
        },
        (
          b,
          session_step call_close_channel
                (call_set_bitrate b ∷ call_enable_timestamp ∷ call_open_channel ∷ []) s s1 closed
              ∙ session_step (call_set_bitrate b) (call_enable_timestamp ∷ call_open_channel ∷ [])
                  s1 s2 set
              ∙ session_step call_enable_timestamp (call_open_channel ∷ []) s2 s3 stamped
              ∙ session_step call_open_channel [] s3 t opened,
        ),
      )

  -- Once the handshake has given a driver, a set-up by canserver that ends well, whatever the device
  -- answered, had a bitrate requested, and leaves it configured, timestamps on, the device running with
  -- the timing of that rate, and the event loop in agreement with the driver.
  pub init_gsusb-IsLive :
      (info : InterfaceInfo) (d : GsUsbDriver) (s : UsbEventLoop) (log : Log) (bitrate : Option ℕ)
      (t : Situation)
      → negotiate device info (started device info) [] ≡ value (ok (d, s), log)
      → init_gsusb gs_usb bitrate (d, log) ≡ (ok tt, t)
      → IsLive bitrate t × IsWhole device scores s t
  init_gsusb-IsLive info d s log bitrate t opened h =
      let (live, (b, same)) = init_gsusb_lem bitrate (d, log) t h in
      (
        live,
        subst (IsWhole device scores s) same
            (session-IsWhole can device scores info (set_up_calls b) d s log opened),
      )
