-- ===== src/GsUsb/Commands/Recovery.antt =====
-- What `bulk_write` of the event loop asks of the device.
use win_can_utils.Base.{
  ℕ, ◌≡◌, ◌⊎◌, inl, inr, refl, sym, ap, ◌∙◌, List, [], ◌∷◌, ◌++◌, append_assoc, append-nil,
}
use win_can_utils.Io.{
  IoResult, ok, err, IoResult-cases, ErrorKind, would_block, broken_pipe, not_connected, not_found,
  interrupted, other, invalid_input, invalid_data, timed_out, unexpected_eof,
}
use win_can_utils.GsUsb.Constants.{gs_can_mode_reset, gs_can_mode_start}
use win_can_utils.GsUsb.Requests.{Request, bulk_write, clear_halt, Device}
use win_can_utils.GsUsb.EventLoop.{UsbEventLoop}
use win_can_utils.GsUsb.Commands.{
  Log, mode_request, recover_after_stall, stall_result, after_stall, handle_write_error, write_bulk,
}

module _ (device : Device) (s : UsbEventLoop) (endpoint : ℕ) where
  -- The requests that repair a failed transfer, in the only order they are made.
  pub data IsRepair : List Request → Type 0 where
    nothing : IsRepair []
    halt : IsRepair (clear_halt endpoint ∷ [])
    reset : IsRepair (clear_halt endpoint ∷ mode_request device s gs_can_mode_reset ∷ [])
    restart : IsRepair (
        clear_halt endpoint
        ∷ mode_request device s gs_can_mode_reset
        ∷ mode_request device s gs_can_mode_start
        ∷ [])

  -- What is known of a result and of the requests behind `log`.
  abbrev IsRepaired : Log → IoResult ℕ × Log → Type 0
  IsRepaired log outcome =
      (kind : ErrorKind) × (calls : List Request) × IsRepair calls
      × (outcome ≡ (err kind, log ++ calls))

  after_stall-IsRepaired :
      (log : Log) → IsRepaired log (after_stall device s (log ++ (clear_halt endpoint ∷ [])))
  unfolding after_stall recover_after_stall stall_result
  after_stall-IsRepaired log =
      let halted = log ++ (clear_halt endpoint ∷ []) in
      let first = halted ++ (mode_request device s gs_can_mode_reset ∷ []) in
      let second = first ++ (mode_request device s gs_can_mode_start ∷ []) in
      let shift : second
          ≡ log
            ++ (clear_halt endpoint
                ∷ mode_request device s gs_can_mode_reset
                ∷ mode_request device s gs_can_mode_start
                ∷ []) =
        append_assoc halted _ _ ∙ append_assoc log _ _ in
      elim (IoResult-cases (device.answer first)) [
        | inr (kind, e) ↦
            let ends : recover_after_stall device s halted ≡ (err kind, first) =
              rw (e, recover_after_stall) refl in
            (
              kind,
              _,
              reset,
              ap (stall_result device) ends ∙ (ap (λ l. (err kind, l)) (append_assoc log _ _)),
            )
        | inl (n, e) ↦ elim (IoResult-cases (device.answer second)) [
          | inr (kind, e') ↦
              let ends : recover_after_stall device s halted ≡ (err kind, second) =
                rw (e, e', recover_after_stall) refl in
              (kind, _, restart, ap (stall_result device) ends ∙ (ap (λ l. (err kind, l)) shift))
          | inl (m, e') ↦
              let ends : recover_after_stall device s halted ≡ (ok tt, second) =
                rw (e, e', recover_after_stall) refl in
              (
                broken_pipe,
                _,
                restart,
                ap (stall_result device) ends ∙ (ap (λ l. (err broken_pipe, l)) shift),
              )
        ]
      ]

  unrepaired : (kind : ErrorKind) (log : Log) → IsRepaired log (err kind, log)
  unrepaired kind log = (kind, [], nothing, ap (λ l. (err kind, l)) (sym (append-nil log)))

  handle_write_error-IsRepaired :
      (kind : ErrorKind) (log : Log)
      → IsRepaired log (handle_write_error device s endpoint kind log)
  unfolding handle_write_error
  handle_write_error-IsRepaired would_block log = (would_block, _, halt, refl)
  handle_write_error-IsRepaired broken_pipe log = after_stall-IsRepaired log
  handle_write_error-IsRepaired not_connected log = unrepaired not_connected log
  handle_write_error-IsRepaired not_found log = unrepaired not_found log
  handle_write_error-IsRepaired interrupted log = unrepaired interrupted log
  handle_write_error-IsRepaired other log = unrepaired other log
  handle_write_error-IsRepaired invalid_input log = unrepaired invalid_input log
  handle_write_error-IsRepaired invalid_data log = unrepaired invalid_data log
  handle_write_error-IsRepaired timed_out log = unrepaired timed_out log
  handle_write_error-IsRepaired unexpected_eof log = unrepaired unexpected_eof log

  -- A bulk write asks for the write once. Either the device wrote, which is the result, and nothing
  -- more is asked; or the result is an error, and what follows is nothing, the release of the
  -- endpoint, or that and a RESET, with or without a START behind.
  pub write_bulk-IsRepair :
      (bytes : List ℕ) (log : Log)
      → ((n : ℕ) × (device.answer (log ++ (bulk_write endpoint bytes ∷ [])) ≡ ok n)
          × (write_bulk device s endpoint bytes log
              ≡ (ok n, log ++ (bulk_write endpoint bytes ∷ []))))
        ⊎ ((kind : ErrorKind) × (calls : List Request) × IsRepair calls
            × (write_bulk device s endpoint bytes log
                ≡ (err kind, log ++ (bulk_write endpoint bytes ∷ calls))))
  unfolding write_bulk
  write_bulk-IsRepair bytes log =
      let written = log ++ (bulk_write endpoint bytes ∷ []) in
      elim (IoResult-cases (device.answer written)) [
        | inl (n, e) ↦ inl (n, e, rw (e, write_bulk) refl)
        | inr (kind, e) ↦
            let (kind', calls, repair, same) = handle_write_error-IsRepaired kind written in
            inr (
              kind',
              calls,
              repair,
              rw (e, write_bulk)
                  (same
                    ∙ ap (λ l. (err kind', l))
                        (append_assoc log (bulk_write endpoint bytes ∷ []) calls)),
            )
      ]
