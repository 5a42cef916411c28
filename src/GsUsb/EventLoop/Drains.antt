-- ===== src/GsUsb/EventLoop/Drains.antt =====
-- What a receive buffer holds, as a relation, and that the loop of `process_rx_chunk` computes it.
use win_can_utils.Base.{
  ℕ, ◌≤◌, ◌≡◌, refl, ap, ◌∙◌, List, [], ◌++◌, append_assoc, length, length-append, drop,
  drop-append_le, Option, none, some, Outcome, value, arith,
}
use win_can_utils.Can.{CanApi}
use win_can_utils.GsUsb.Frames.{Parsed, parse_host_frame_at}
use win_can_utils.GsUsb.Frames.Bounds.{IsChecked}
use win_can_utils.GsUsb.Frames.Append.{parse_host_frame_at-append}
use win_can_utils.GsUsb.EventLoop.{UsbEventLoop, emit}

-- The length checks of the parser are on in this state.
abbrev pub IsCheckedLoop : UsbEventLoop → Type 0
IsCheckedLoop s = IsChecked s.timestamp_enabled s.out_wmax s.pad_pkts_enabled

module _ (can : CanApi) (s : UsbEventLoop) where
  abbrev pub parse : List ℕ → Option ℕ → Outcome (Parsed can)
  parse bytes last =
      parse_host_frame_at can bytes s.channel_index s.timestamp_enabled last s.out_wmax
        s.pad_pkts_enabled

  -- `bytes` hold the frames `sent`, and then `rest`, whose front is not complete.
  pub data Drains : List ℕ → Option ℕ → List can.CanFrame → List ℕ → Option ℕ → Type 0 where
    stop :
        {bytes : List ℕ} {last : Option ℕ}
        → parse bytes last ≡ value (none, last)
        → Drains bytes last [] bytes last
    step :
        {bytes : List ℕ} {last : Option ℕ} {sent all : List can.CanFrame} {rest : List ℕ}
        {final : Option ℕ} (frame : Option can.CanFrame) (n : ℕ) (next : Option ℕ)
        → n ≤ length bytes
        → parse bytes last ≡ value (some (frame, n), next)
        → Drains (drop n bytes) next sent rest final
        → all ≡ emit can frame ++ sent
        → Drains bytes last all rest final

  -- Bytes that arrive later are read from where the first reading stopped.
  pub Drains-append :
      {bytes : List ℕ} {last : Option ℕ} {sent sent' : List can.CanFrame} {rest rest' : List ℕ}
      {final final' : Option ℕ} (more : List ℕ)
      → Drains bytes last sent rest final
      → Drains (rest ++ more) final sent' rest' final'
      → Drains (bytes ++ more) last (sent ++ sent') rest' final'
  Drains-append more (stop e) d = d
  Drains-append {sent' = sent'} more (step {bytes = b} {sent = tail} frame n next fits e first all)
        d =
      step frame n next (omega (arith, length-append b more))
        (parse_host_frame_at-append can b more s.timestamp_enabled _ s.channel_index s.out_wmax
          s.pad_pkts_enabled e)
        (rw (drop-append_le n b more fits) (Drains-append more first d))
        (ap (λ t. t ++ sent') all ∙ append_assoc (emit can frame) tail sent')

  -- The outcome of a reading is one.
  abbrev Same :
      List can.CanFrame → List can.CanFrame → List ℕ → List ℕ → Option ℕ → Option ℕ → Type 0
  Same sent sent' rest rest' final final' = (sent ≡ sent') × (rest ≡ rest') × (final ≡ final')

  pub Drains-unique :
      {bytes : List ℕ} {last : Option ℕ} {sent sent' : List can.CanFrame} {rest rest' : List ℕ}
      {final final' : Option ℕ}
      → Drains bytes last sent rest final
      → Drains bytes last sent' rest' final'
      → Same sent sent' rest rest' final final'
  Drains-unique (stop e) (stop e') = (refl, refl, refl)
  Drains-unique (stop e) (step frame n next fits e' d all) = cc
  Drains-unique (step frame n next fits e d all) (stop e') = cc
  Drains-unique (step {bytes = b} {sent = t} frame n next fits e d all)
        (step {sent = t'} frame' n' next' fits' e' d' all') =
      let same_n : n' ≡ n = cc in
      let same_next : next' ≡ next = cc in
      let same_frame : frame' ≡ frame = cc in
      let (ts, rs, fs) = Drains-unique d (rw same_n at (rw same_next at d')) in (cc, rs, fs)

-- Only the configuration matters, not what the state's buffer holds.
pub Drains-config :
    (can : CanApi) (s : UsbEventLoop) (buffer : List ℕ) (stamp : Option ℕ) {bytes : List ℕ}
    {last : Option ℕ} {sent : List can.CanFrame} {rest : List ℕ} {final : Option ℕ}
    → Drains can
        (record s { rx_buffer = buffer; last_timestamp64 = stamp })
        bytes
        last
        sent
        rest
        final
    → Drains can s bytes last sent rest final
Drains-config can s buffer stamp (stop e) = stop e
Drains-config can s buffer stamp (step frame n next fits e d all) =
    step frame n next fits e (Drains-config can s buffer stamp d) all
