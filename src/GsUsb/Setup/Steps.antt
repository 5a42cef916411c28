-- ===== src/GsUsb/Setup/Steps.antt =====
-- The calls that set a channel up are steps of the session.
use win_can_utils.Base.{ℕ, ◌≡◌, inl, inr, refl, List, [], ◌∷◌, ◌++◌, Option, none, some}
use win_can_utils.Can.{CanApi}
use win_can_utils.Io.{IoResult-cases}
use win_can_utils.GsUsb.Constants.{gs_can_mode_reset, gs_can_mode_start, gs_can_mode_listen_only}
use win_can_utils.GsUsb.Requests.{Request, Device}
use win_can_utils.GsUsb.BitTiming.{GsBtConst, GsDeviceBitTiming, Scores, calc_bit_timing}
use win_can_utils.GsUsb.Driver.{
  GsUsbDriver, Log, Driven, mode_request, mode_flags, request_unit, open_channel_inner, open_if,
  open_channel, close_channel_inner, enable_timestamp,
}
use win_can_utils.GsUsb.Setup.Channel.{
  timing_request, send_timing, program, program_if, set_bitrate_if, set_bitrate, with_extra,
  open_channel_with_flags, listen_if, open_listen_only,
}
use win_can_utils.GsUsb.Setup.Session.{
  Situation, Call, call_set_bitrate, call_enable_timestamp, call_open_channel,
  call_open_listen_only, call_close_channel, perform, situation, session, Step, resets, starts,
  refuses, programs, stamps, Reach, here, next,
}

module _ (can : CanApi) (device : Device) (scores : Scores) where
  abbrev Reaches : Situation → Driven can device → Type 0
  Reaches s driven = Reach can device scores s (situation can device scores driven)

  situation-request_unit :
      (d : GsUsbDriver) (r : Request) (log : Log)
      → situation can device scores (request_unit can device d r log) ≡ (d, log ++ (r ∷ []))
  unfolding request_unit situation
  situation-request_unit d r log = elim (IoResult-cases (device.answer (log ++ (r ∷ [])))) [
    | inl (n, e) ↦ rw (e, request_unit)
    | inr (kind, e) ↦ rw (e, request_unit)
  ]

  module _ (s : Situation) (d : GsUsbDriver) (log : Log)
      (so_far : Reach can device scores s (d, log)) where
    request_unit-Reach :
        (r : Request)
        → Step can device scores (d, log) (d, log ++ (r ∷ []))
        → Reaches s (request_unit can device d r log)
    request_unit-Reach r step = rw (situation-request_unit d r log) (next so_far step)

    send_timing-Reach :
        (caps : GsBtConst) (timing : GsDeviceBitTiming) (bitrate : ℕ)
        → d.bt_const ≡ some caps
        → calc_bit_timing scores bitrate caps ≡ some timing
        → Reaches s (send_timing can device bitrate timing d log)
    unfolding send_timing situation
    send_timing-Reach caps timing bitrate known found =
        elim (IoResult-cases (device.answer (log ++ (timing_request can device d timing ∷ [])))) [
          | inl (n, e) ↦
              rw (e, send_timing) (next so_far (programs d log caps timing bitrate n known found e))
          | inr (kind, e) ↦ rw (e, send_timing) (next so_far (refuses d log timing kind e))
        ]

    start-Reach :
        (flags bitrate : ℕ)
        → d.configured_bitrate ≡ some bitrate
        → Reaches s
            (request_unit can device d (mode_request can device d gs_can_mode_start flags) log)
    start-Reach flags bitrate set =
        request_unit-Reach (mode_request can device d gs_can_mode_start flags)
          (starts d log bitrate flags set)

  module _ (s : Situation) (d : GsUsbDriver) (log : Log)
      (so_far : Reach can device scores s (d, log)) where
    abbrev reset : Log
    reset = log ++ (mode_request can device d gs_can_mode_reset 0 ∷ [])

    after_reset : Reach can device scores s (d, reset)
    after_reset = next so_far (resets d log)

    program_if-Reach :
        (caps : GsBtConst) (bitrate : ℕ) (timing : Option GsDeviceBitTiming)
        → d.bt_const ≡ some caps
        → calc_bit_timing scores bitrate caps ≡ timing
        → Reaches s (program_if can device bitrate timing d log)
    unfolding program_if program situation
    program_if-Reach caps bitrate none known found = so_far
    program_if-Reach caps bitrate (some timing) known found =
        elim (IoResult-cases (device.answer reset)) [
          | inl (n, e) ↦
              rw (e, program)
                (send_timing-Reach s d reset after_reset caps timing bitrate known found)
          | inr (kind, e) ↦ rw (e, program) after_reset
        ]

    set_bitrate_if-Reach :
        (bitrate : ℕ) (limits : Option GsBtConst)
        → d.bt_const ≡ limits
        → Reaches s (set_bitrate_if can device scores bitrate limits d log)
    unfolding set_bitrate_if situation
    set_bitrate_if-Reach bitrate none known = so_far
    set_bitrate_if-Reach bitrate (some caps) known =
        program_if-Reach caps bitrate (calc_bit_timing scores bitrate caps) known refl

    open_if-Reach :
        (rate : Option ℕ) → d.configured_bitrate ≡ rate → Reaches s (open_if can device rate d log)
    unfolding open_if open_channel_inner situation
    open_if-Reach none set = so_far
    open_if-Reach (some bitrate) set = elim (IoResult-cases (device.answer reset)) [
      | inl (n, e) ↦
          rw (e, open_channel_inner)
            (start-Reach s d reset after_reset (mode_flags can device d) bitrate set)
      | inr (kind, e) ↦ rw (e, open_channel_inner) after_reset
    ]

    listen_if-Reach :
        (rate : Option ℕ)
        → d.configured_bitrate ≡ rate
        → Reaches s (listen_if can device rate d log)
    unfolding listen_if open_channel_with_flags situation
    listen_if-Reach none set = so_far
    listen_if-Reach (some bitrate) set = elim (IoResult-cases (device.answer reset)) [
      | inl (n, e) ↦
          rw (e, open_channel_with_flags)
            (start-Reach s d reset after_reset
              (with_extra can device (some gs_can_mode_listen_only) (mode_flags can device d))
              bitrate set)
      | inr (kind, e) ↦ rw (e, open_channel_with_flags) after_reset
    ]

    perform-Reach : (call : Call) → Reaches s (perform can device scores call d log)
    unfolding perform set_bitrate open_channel open_listen_only close_channel_inner enable_timestamp
        situation
    perform-Reach (call_set_bitrate bitrate) = set_bitrate_if-Reach bitrate d.bt_const refl
    perform-Reach call_enable_timestamp = next so_far (stamps d log)
    perform-Reach call_open_channel = open_if-Reach d.configured_bitrate refl
    perform-Reach call_open_listen_only = listen_if-Reach d.configured_bitrate refl
    perform-Reach call_close_channel =
        request_unit-Reach s d log so_far (mode_request can device d gs_can_mode_reset 0)
          (resets d log)

  session-Reach_from :
      (calls : List Call) (s t : Situation)
      → Reach can device scores s t
      → Reach can device scores s (session can device scores calls t)
  unfolding session
  session-Reach_from [] s t so_far = so_far
  session-Reach_from (call ∷ calls) s (d, log) so_far =
      session-Reach_from calls s
        (situation can device scores (perform can device scores call d log))
        (perform-Reach s d log so_far call)

  -- Whatever the device answers, the calls that set a channel up amount to steps: a START only with a
  -- bitrate set, and a bitrate kept only with its timing, found within the known limits and accepted.
  pub session-Reach :
      (calls : List Call) (s : Situation)
      → Reach can device scores s (session can device scores calls s)
  session-Reach calls s = session-Reach_from calls s s here
