-- ===== src/Pcan/Messages.antt =====
-- Frames as messages and back, and the messages of one call of `read_frames`.
use win_can_utils.Base.{
  ℕ, ◌+◌, ◌-◌, ◌*◌, ◌%◌, ◌^◌, ◌≤◌, ◌<◌, ◌≡◌, refl, sym, ap, ◌∙◌, min, ◌==◌, not, if◌then◌else◌,
  bit_and, Bool, true, false, List, [], ◌∷◌, ◌++◌, append_assoc, append-nil, length, take,
  take-length, take-length-append, replicate, Option, none, some, Option-cases, inl, inr, arith,
}
use win_can_utils.Base.Bits.{or_disjoint}
use win_can_utils.Can.{CanApi, IsDataFrame, DataFrameLaws, max_id}
use win_can_utils.Io.{IoResult, ok, err, invalid_data}
use win_can_utils.Pcan.{
  Peak, Message, Timestamp, ReadAnswer, queue_empty, received, timestamp_us, message_of, stamp,
  frame_of, read_loop, read_frames,
}

-- The fields of a timestamp have 32, 16 and 16 bits; then the time is exact and nothing overflows.
pub timestamp_us_lem :
    (ts : Timestamp)
    → ts.millis < 2 ^ 32
    → ts.millis_overflow < 2 ^ 16
    → ts.micros < 2 ^ 16
    → timestamp_us ts ≡ (ts.millis_overflow * 2 ^ 32 + ts.millis) * 1000 + ts.micros
unfolding timestamp_us
timestamp_us_lem ts h k l = ground (arith, or_disjoint 32 ts.millis_overflow ts.millis h)

-- The two message types differ in a bit.
abbrev pub IsPeak : Peak → Type 0
IsPeak peak =
    (bit_and peak.message_standard peak.message_extended ≡ 0)
    × ((bit_and peak.message_extended peak.message_extended == 0) ≡ false)

module _ (can : CanApi) (peak : Peak) where
  open can use {CanFrame}

  -- The frames of messages, or none if one of them is refused.
  pub frames_of : List (Message × Timestamp) → Option (List CanFrame)
  frames_of [] = some []
  frames_of ((msg, ts) ∷ rest) = elim (frame_of can peak msg ts) [
    | none ↦ none
    | some frame ↦ elim (frames_of rest) [ none ↦ none | some frames ↦ some (frame ∷ frames) ]
  ]

  abbrev pub answers_of : List (Message × Timestamp) → List ReadAnswer
  answers_of [] = []
  answers_of ((msg, ts) ∷ rest) = received msg ts ∷ answers_of rest

  abbrev ends_with : List CanFrame → Option (List CanFrame) → IoResult (List CanFrame)
  ends_with frames none = err invalid_data
  ends_with frames (some more) = ok (frames ++ more)

  read_loop-frames_of :
      (frames : List CanFrame) (msgs : List (Message × Timestamp)) (later : List ReadAnswer)
      → read_loop can peak frames (answers_of msgs ++ (queue_empty ∷ later))
        ≡ some (ends_with frames (frames_of msgs))
  unfolding read_loop frames_of
  read_loop-frames_of frames [] later = ap (λ f. some (ok f)) (sym (append-nil frames))
  read_loop-frames_of frames ((msg, ts) ∷ rest) later =
      elim (Option-cases (frame_of can peak msg ts)) [
        | inl refused ↦ rw (refused, read_loop, frames_of) refl
        | inr (frame, made) ↦
            let next = read_loop-frames_of (frames ++ (frame ∷ [])) rest later in
            elim (Option-cases (frames_of rest)) [
              | inl refused ↦ rw (made, read_loop, frames_of, refused) (next ∙ rw refused refl)
              | inr (more, all_made) ↦
                  rw (made, read_loop, frames_of, all_made)
                    (next
                      ∙ rw all_made (ap (λ f. some (ok f)) (append_assoc frames (frame ∷ []) more)))
            ]
      ]

  -- The messages that wait are all handed on, in order, as frames; if one of them is refused, the call
  -- is an error.
  pub read_frames-frames_of :
      (msgs : List (Message × Timestamp)) (later : List ReadAnswer)
      → read_frames can peak (answers_of msgs ++ (queue_empty ∷ later))
        ≡ some (elim (frames_of msgs) [ none ↦ err invalid_data | some frames ↦ ok frames ])
  unfolding read_frames
  read_frames-frames_of msgs later =
      read_loop-frames_of [] msgs later ∙ ap (λ r. some r) (whole (frames_of msgs))
    where
      whole :
          (o : Option (List CanFrame))
          → ends_with [] o ≡ elim o [ none ↦ err invalid_data | some frames ↦ ok frames ]
      whole none = refl
      whole (some frames) = refl

  module _ (f : CanFrame) (i : ℕ) (d : List ℕ) (small : length d ≤ 8) (distinct : IsPeak peak)
      (ts : Timestamp) where
    -- The bytes of the message that count.
    sent_bytes :
        (eff : Bool)
        → IsDataFrame can f i d eff
        → take (min (message_of can peak f).len 8) (message_of can peak f).bytes ≡ d
    unfolding message_of
    sent_bytes eff is =
        let len : min (can.dlc f % 256) 8 ≡ length d = omega (arith, is.dlc_eq) in
        let room : min (length (can.payload f)) 8 ≡ length d =
          omega (arith, ap length is.payload_eq) in
        rw (len, room, is.payload_eq, take-length d)
          (take-length-append d (replicate (8 - length d) 0))

    sent_kind :
        (eff : Bool)
        → IsDataFrame can f i d eff
        → not (bit_and (message_of can peak f).msg_type peak.message_extended == 0) ≡ eff
    unfolding message_of
    sent_kind true is = let (standard, extended) = distinct in rw (is.extended_eq, extended) refl
    sent_kind false is = let (standard, extended) = distinct in rw (is.extended_eq, standard) refl

    -- A classic data frame that is sent and read back has the same identifier, format and data, and
    -- the time of the message.
    pub frame_of-message_of :
        (eff : Bool)
        → DataFrameLaws can
        → IsDataFrame can f i d eff
        → i ≤ max_id eff
        → (g : CanFrame) × (frame_of can peak (message_of can peak f) ts ≡ some g)
          × IsDataFrame can g i d eff
          × (can.timestamp g ≡ some (timestamp_us ts))
    unfolding frame_of stamp message_of
    frame_of-message_of true laws is h =
        let (g, made, same) = laws.new_eff_accepts i d h small in
        let (kept, stamped) = laws.set_timestamp_keeps g (some (timestamp_us ts)) i d true same in
        let msg = message_of can peak f in
        let bytes = take (min msg.len 8) msg.bytes in
        (
          can.set_timestamp g (some (timestamp_us ts)),
          ap
                (λ b.
                  stamp can peak ts
                    (if b then can.new_eff msg.msg_id bytes else can.new msg.msg_id bytes))
                (sent_kind true is)
              ∙ ap (λ e. stamp can peak ts (can.new_eff msg.msg_id e)) (sent_bytes true is)
              ∙ ap (λ j. stamp can peak ts (can.new_eff j d)) is.id_eq
              ∙ ap (stamp can peak ts) made,
          kept,
          stamped,
        )
    frame_of-message_of false laws is h =
        let (g, made, same) = laws.new_accepts i d h small in
        let (kept, stamped) = laws.set_timestamp_keeps g (some (timestamp_us ts)) i d false same in
        let msg = message_of can peak f in
        let bytes = take (min msg.len 8) msg.bytes in
        (
          can.set_timestamp g (some (timestamp_us ts)),
          ap
                (λ b.
                  stamp can peak ts
                    (if b then can.new_eff msg.msg_id bytes else can.new msg.msg_id bytes))
                (sent_kind false is)
              ∙ ap (λ e. stamp can peak ts (can.new msg.msg_id e)) (sent_bytes false is)
              ∙ ap (λ j. stamp can peak ts (can.new j d)) is.id_eq
              ∙ ap (stamp can peak ts) made,
          kept,
          stamped,
        )
