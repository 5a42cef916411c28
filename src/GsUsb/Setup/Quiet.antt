-- ===== src/GsUsb/Setup/Quiet.antt =====
-- The handshake of the gs_usb driver: its requests, and that its reads do not panic.
use win_can_utils.Base.{
  ℕ, ◌≤◌, ◌≡◌, inl, inr, refl, arith, leb, ltb, Bool-cases, List, [], ◌∷◌, ◌++◌, All, All-append,
  length, take, length-take, Outcome, value, panic, slice_in_range,
}
use win_can_utils.Io.{ok, err}
use win_can_utils.GsUsb.Constants.{
  gs_usb_breq_host_format, gs_usb_breq_bt_const, gs_usb_breq_bt_const_ext, request_type_in,
}
use win_can_utils.GsUsb.Requests.{Request, control_out, control_in, bulk_write, clear_halt, Device}
use win_can_utils.GsUsb.BitTiming.Layout.{parse_bt_const-Returns}
use win_can_utils.GsUsb.EventLoop.{UsbEventLoop}
use win_can_utils.GsUsb.Commands.{note_mode, note_timestamp}
use win_can_utils.GsUsb.Driver.{GsUsbDriver, Log}
use win_can_utils.GsUsb.Setup.{
  Asked, note_request, note_requests, cmd_control_in, parse_front, whole_limits, read_plain,
  or_plain, read_bt_const, whole_word, plain_features, or_plain_features, read_features,
}

-- The requests of the handshake: the host format, and reads.
unfoldable pub IsHandshake : Request → Type 0
IsHandshake (control_out request_type request word index bytes) = request ≡ gs_usb_breq_host_format
IsHandshake (control_in request_type request word index len) = Unit
IsHandshake (bulk_write endpoint bytes) = ⊥
IsHandshake (clear_halt endpoint) = ⊥

abbrev pub AreHandshake : Log → Type 0
AreHandshake = All IsHandshake

-- A call that returns, with handshake requests only.
unfoldable pub IsQuiet : {A : Type 0} → Outcome (Asked A) → Type 0
IsQuiet panic = ⊥
IsQuiet (value (result, log)) = AreHandshake log

module _ (device : Device) where
  module _ (log : Log) (quiet : AreHandshake log) where
    pub after_read :
        (request word index len : ℕ)
        → AreHandshake (log ++ (control_in request_type_in request word index len ∷ []))
    unfolding IsHandshake
    after_read request word index len =
        All-append IsHandshake log (control_in request_type_in request word index len ∷ []) quiet
          (tt, tt)

    parse_front-IsQuiet : (buf : List ℕ) → 40 ≤ length buf → IsQuiet (parse_front device buf log)
    unfolding IsQuiet parse_front
    parse_front-IsQuiet buf h =
        let cut = slice_in_range buf 0 40 (omega arith) h in
        let (caps, parsed) =
          parse_bt_const-Returns (take 40 buf) (omega (arith, length-take 40 buf)) in
        rw (cut, parsed) quiet

  whole_limits-IsQuiet :
      (asked : Asked (List ℕ)) → AreHandshake asked.1 → IsQuiet (whole_limits device asked)
  unfolding IsQuiet whole_limits
  whole_limits-IsQuiet (err kind, log) quiet = quiet
  whole_limits-IsQuiet (ok buf, log) quiet = elim (Bool-cases (ltb (length buf) 40)) [
    | inl short ↦ rw short quiet
    | inr enough ↦ rw enough (parse_front-IsQuiet log quiet buf (ground arith))
  ]

  module _ (d : GsUsbDriver) where
    read_plain-IsQuiet : (log : Log) → AreHandshake log → IsQuiet (read_plain device d log)
    unfolding read_plain cmd_control_in
    read_plain-IsQuiet log quiet =
        whole_limits-IsQuiet
          (cmd_control_in device request_type_in gs_usb_breq_bt_const 0 d.interface_number 40 log)
          (after_read log quiet gs_usb_breq_bt_const 0 d.interface_number 40)

    or_plain-IsQuiet :
        (asked : Asked (List ℕ)) → AreHandshake asked.1 → IsQuiet (or_plain device d asked)
    unfolding IsQuiet or_plain
    or_plain-IsQuiet (err kind, log) quiet = read_plain-IsQuiet log quiet
    or_plain-IsQuiet (ok buf, log) quiet = elim (Bool-cases (leb 40 (length buf))) [
      | inl enough ↦ rw enough (parse_front-IsQuiet log quiet buf (ground arith))
      | inr short ↦ rw short (read_plain-IsQuiet log quiet)
    ]

    pub read_bt_const-IsQuiet :
        (log : Log) → AreHandshake log → IsQuiet (read_bt_const device d log)
    unfolding read_bt_const cmd_control_in
    read_bt_const-IsQuiet log quiet =
        or_plain-IsQuiet
          (cmd_control_in device request_type_in gs_usb_breq_bt_const_ext 0 d.interface_number 52
            log)
          (after_read log quiet gs_usb_breq_bt_const_ext 0 d.interface_number 52)

    whole_word-AreHandshake :
        (asked : Asked (List ℕ)) → AreHandshake asked.1 → AreHandshake (whole_word device asked).1
    unfolding whole_word
    whole_word-AreHandshake (err kind, log) quiet = quiet
    whole_word-AreHandshake (ok b, log) quiet = quiet

    plain_features-IsQuiet : (log : Log) → AreHandshake log → IsQuiet (plain_features device d log)
    unfolding IsQuiet plain_features cmd_control_in
    plain_features-IsQuiet log quiet =
        whole_word-AreHandshake
          (cmd_control_in device request_type_in gs_usb_breq_bt_const 0 d.interface_number 4 log)
          (after_read log quiet gs_usb_breq_bt_const 0 d.interface_number 4)

    or_plain_features-IsQuiet :
        (asked : Asked (List ℕ)) → AreHandshake asked.1 → IsQuiet (or_plain_features device d asked)
    unfolding IsQuiet or_plain_features
    or_plain_features-IsQuiet (err kind, log) quiet = plain_features-IsQuiet log quiet
    or_plain_features-IsQuiet (ok buf, log) quiet = elim (Bool-cases (leb 4 (length buf))) [
      | inl enough ↦ rw (enough, slice_in_range buf 0 4 (omega arith) (ground arith)) quiet
      | inr short ↦ rw short (plain_features-IsQuiet log quiet)
    ]

    pub read_features-IsQuiet :
        (log : Log) → AreHandshake log → IsQuiet (read_features device d log)
    unfolding read_features cmd_control_in
    read_features-IsQuiet log quiet =
        or_plain_features-IsQuiet
          (cmd_control_in device request_type_in gs_usb_breq_bt_const_ext 0 d.interface_number 52
            log)
          (after_read log quiet gs_usb_breq_bt_const_ext 0 d.interface_number 52)

  pub note_handshake :
      (log : Log) (s : UsbEventLoop) → AreHandshake log → note_requests device log s ≡ s
  unfolding note_requests note_request note_mode note_timestamp IsHandshake
  note_handshake [] s quiet = refl
  note_handshake (control_out request_type request word index bytes ∷ log) s (same, quiet) =
      rw same (note_handshake log s quiet)
  note_handshake (control_in request_type request word index len ∷ log) s (_, quiet) =
      note_handshake log s quiet
  note_handshake (bulk_write endpoint bytes ∷ log) s (impossible, quiet) = absurd impossible
  note_handshake (clear_halt endpoint ∷ log) s (impossible, quiet) = absurd impossible
