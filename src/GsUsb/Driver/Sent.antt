-- ===== src/GsUsb/Driver/Sent.antt =====
-- When `send_frame` of the gs_usb driver succeeds.
use win_can_utils.Base.{
  ℕ, ◌≡◌, ◌⊎◌, inl, inr, refl, sym, ap, ◌∙◌, ◌==◌, ◌&&◌, true, false, List, [], ◌∷◌, ◌++◌, length,
  Bool-cases, arith,
}
use win_can_utils.Can.{CanApi}
use win_can_utils.Io.{
  ok, err, IoResult-cases, ErrorKind, would_block, broken_pipe, not_connected, not_found,
  interrupted, other, invalid_input, invalid_data, timed_out, unexpected_eof,
}
use win_can_utils.GsUsb.Requests.{bulk_write, Device}
use win_can_utils.GsUsb.Encode.{maybe_pad_tx}
use win_can_utils.GsUsb.Driver.{
  GsUsbDriver, Log, is_broken_pipe, Driven, encode, count_up, judge_write, write_again, fall_back,
  try_tx, transmit,
}

is_broken_pipe_lem : (kind : ErrorKind) → is_broken_pipe kind ≡ true → kind ≡ broken_pipe
unfolding is_broken_pipe
is_broken_pipe_lem would_block h = absurd cc
is_broken_pipe_lem broken_pipe h = refl
is_broken_pipe_lem not_connected h = absurd cc
is_broken_pipe_lem not_found h = absurd cc
is_broken_pipe_lem interrupted h = absurd cc
is_broken_pipe_lem other h = absurd cc
is_broken_pipe_lem invalid_input h = absurd cc
is_broken_pipe_lem invalid_data h = absurd cc
is_broken_pipe_lem timed_out h = absurd cc
is_broken_pipe_lem unexpected_eof h = absurd cc

module _ (can : CanApi) (device : Device) where
  judge_write-ok :
      (d' d'' : GsUsbDriver) (buf : List ℕ) (n : ℕ) (l l' : Log)
      → judge_write can device d' buf n l ≡ (ok tt, d'', l')
      → (n ≡ length buf) × (d'' ≡ d') × (l' ≡ l)
  unfolding judge_write
  judge_write-ok d' d'' buf n l l' h = elim (Bool-cases (n == length buf)) [
    | inl e ↦ (ground arith, cc, cc)
    | inr e ↦
        let h' : ◌≡◌ {A = Driven can device} (err other, d', l) (ok tt, d'', l') =
          sym (rw (e, judge_write) refl) ∙ h in
        absurd cc
  ]

  write_again-ok :
      (d' d'' : GsUsbDriver) (buf : List ℕ) (l l' : Log)
      → write_again can device d' buf l ≡ (ok tt, d'', l')
      → (device.answer (l ++ (bulk_write d'.out_ep buf ∷ [])) ≡ ok (length buf))
        × (d'' ≡ d')
        × (l' ≡ l ++ (bulk_write d'.out_ep buf ∷ []))
  unfolding write_again
  write_again-ok d' d'' buf l l' h =
      elim (IoResult-cases (device.answer (l ++ (bulk_write d'.out_ep buf ∷ [])))) [
        | inr (kind, e) ↦
            let h' : ◌≡◌ {A = Driven can device}
                (err kind, d', l ++ (bulk_write d'.out_ep buf ∷ [])) (ok tt, d'', l') =
              sym (rw (e, write_again) refl) ∙ h in
            absurd cc
        | inl (n, e) ↦
            let (size, same, logged) =
              judge_write-ok d' d'' buf n _ l' (sym (rw (e, write_again) refl) ∙ h) in
            (e ∙ ap (λ k. ok k) size, same, logged)
      ]

module _ (can : CanApi) (device : Device) (d : GsUsbDriver) (frame : can.CanFrame) (buf : List ℕ)
    (log : Log) where
  abbrev after : Log
  after = log ++ (bulk_write d.out_ep buf ∷ [])

  try_written :
      (n : ℕ)
      → device.answer after ≡ ok n
      → try_tx can device d frame buf log ≡ judge_write can device d buf n after
  unfolding try_tx
  try_written n e = rw (e, try_tx) refl

  try_again :
      (kind : ErrorKind)
      → device.answer after ≡ err kind
      → (is_broken_pipe kind && d.pad_pkts) ≡ true
      → try_tx can device d frame buf log ≡ fall_back can device d frame after
  unfolding try_tx
  try_again kind e again = rw (e, try_tx, again) refl

  try_failed :
      (kind : ErrorKind)
      → device.answer after ≡ err kind
      → (is_broken_pipe kind && d.pad_pkts) ≡ false
      → try_tx can device d frame buf log ≡ (err kind, d, after)
  unfolding try_tx
  try_failed kind e stop = rw (e, try_tx, stop) refl

module _ (can : CanApi) (device : Device) (d : GsUsbDriver) (frame : can.CanFrame) (log : Log) where
  -- The first write, and the one without padding.
  abbrev pub first_write : List ℕ
  first_write = maybe_pad_tx d.pad_pkts d.out_wmax (encode can device d frame)

  abbrev pub second_write : List ℕ
  second_write = encode can device (count_up can device d) frame

  abbrev pub first_log : Log
  first_log = log ++ (bulk_write d.out_ep first_write ∷ [])

  abbrev pub second_log : Log
  second_log = first_log ++ (bulk_write d.out_ep second_write ∷ [])

  abbrev pub unpadded : GsUsbDriver
  unpadded = record (count_up can device d) { pad_pkts = false }

  -- If a frame is sent, the device took the whole host frame: the first that is written, or, when
  -- padding was on and the device stalled, the one without padding; padding is off from then on.
  pub transmit-ok :
      (d' : GsUsbDriver) (log' : Log)
      → transmit can device d frame log ≡ (ok tt, d', log')
      → ((device.answer first_log ≡ ok (length first_write))
          × (d' ≡ count_up can device d)
          × (log' ≡ first_log))
        ⊎ ((d.pad_pkts ≡ true)
            × (device.answer first_log ≡ err broken_pipe)
            × (device.answer second_log ≡ ok (length second_write))
            × (d' ≡ count_up can device unpadded)
            × (log' ≡ second_log))
  unfolding transmit try_tx fall_back count_up
  transmit-ok d' log' h = elim (IoResult-cases (device.answer first_log)) [
    | inl (n, e) ↦
        let (size, same, logged) =
          judge_write-ok can device (count_up can device d) d' first_write n first_log log'
            (sym (try_written can device (count_up can device d) frame first_write log n e) ∙ h) in
        inl (e ∙ ap (λ k. ok k) size, same, logged)
    | inr (kind, e) ↦ elim (Bool-cases (is_broken_pipe kind && d.pad_pkts)) [
      | inl again ↦
          let padded : d.pad_pkts ≡ true = ground arith in
          let stalled : is_broken_pipe kind ≡ true = ground arith in
          let (size, same, logged) =
            write_again-ok can device (count_up can device unpadded) d' second_write first_log log'
              (sym (try_again can device (count_up can device d) frame first_write log kind e again)
                ∙ h) in
          inr (padded, e ∙ ap (λ k. err k) (is_broken_pipe_lem kind stalled), size, same, logged)
      | inr stop ↦
          let h' : ◌≡◌ {A = Driven can device} (err kind, count_up can device d, first_log)
              (ok tt, d', log') =
            sym (try_failed can device (count_up can device d) frame first_write log kind e stop)
            ∙ h in
          absurd cc
    ]
  ]
