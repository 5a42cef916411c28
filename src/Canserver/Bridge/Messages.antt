-- ===== src/Canserver/Bridge/Messages.antt =====
-- What a client reads from the pipe: messages by the length in front of each.
use mathlib.Core.List.{flatten, map}
use mathlib.Core.Path.{subst}
use win_can_utils.Base.{
  ℕ, zero, suc, ◌≤◌, ◌≡◌, inl, inr, refl, ap, ◌∙◌, ltb, false, if◌then◌else◌, Bool-cases, List, [],
  ◌∷◌, ◌++◌, length, length-append, take, drop, take-length-append, drop-length-append, Option,
  none, some, Option-cases, arith,
}
use win_can_utils.Io.{ok, err}
use win_can_utils.Canserver.Bridge.{
  Coder, with_length, message, Bridge, BridgeEvent, polls, takes, bridge_run,
}
use win_can_utils.Canserver.Bridge.Queue.{
  IsPart, nothing, keeps, drops, IsPart-trans, IsPart-front, one, messages, polled, idle,
  bridge_run-IsFaithful,
}

abbrev pub framed : List ℕ → List ℕ
framed bytes = length bytes ∷ bytes

cons_if : List ℕ → Option (List (List ℕ)) → Option (List (List ℕ))
cons_if bytes none = none
cons_if bytes (some rest) = some (bytes ∷ rest)

-- The payloads of a stream; `none` if it ends inside a message or the fuel does not suffice.
unfoldable pub unframe : ℕ → List ℕ → Option (List (List ℕ))
unfolding cons_if
unframe fuel [] = some []
unframe zero (n ∷ rest) = none
unframe (suc fuel) (n ∷ rest) =
    let later = unframe fuel (drop n rest) in
    if ltb (length rest) n then none else cons_if (take n rest) later

unframe-framed : (ps : List (List ℕ)) → unframe (length ps) (flatten (map framed ps)) ≡ some ps
unfolding unframe cons_if flatten
unframe-framed [] = refl
unframe-framed (p ∷ ps) =
    let rest = flatten (map framed ps) in
    let whole : ltb (length (p ++ rest)) (length p) ≡ false =
      ground (arith, length-append p rest) in
    rw (whole, take-length-append p rest, drop-length-append p rest, unframe-framed ps) refl

IsPart-map :
    (ms : List (List ℕ)) (ps : List (List ℕ))
    → IsPart ms (map framed ps)
    → (qs : List (List ℕ)) × (ms ≡ map framed qs) × IsPart qs ps
IsPart-map ms [] nothing = ([], refl, nothing)
IsPart-map ms (p ∷ ps) (drops _ part) =
    let (qs, same, part') = IsPart-map ms ps part in (qs, same, drops p part')
IsPart-map _ (p ∷ ps) (keeps {xs = ms} _ part) =
    let (qs, same, part') = IsPart-map ms ps part in
    (p ∷ qs, ap (λ l. framed p ∷ l) same, keeps p part')

module _ {Frame : Type 0} (coder : Coder Frame) where
  abbrev pub small : Option (List ℕ) → List (List ℕ)
  small none = []
  small (some bytes) = if ltb 255 (length bytes) then [] else bytes ∷ []

  -- The frames' encodings of at most 255 bytes, and those of all frames that are polled.
  abbrev pub encodings : List Frame → List (List ℕ)
  encodings [] = []
  encodings (frame ∷ frames) = small (coder.encode frame) ++ encodings frames

  abbrev pub payloads : List (BridgeEvent coder) → List (List ℕ)
  payloads [] = []
  payloads (polls (ok frames) ∷ events) = encodings frames ++ payloads events
  payloads (polls (err kind) ∷ events) = payloads events
  payloads (takes ∷ events) = payloads events

  message-small :
      (frame : Frame) → one coder (message coder frame) ≡ map framed (small (coder.encode frame))
  unfolding message with_length
  message-small frame = elim (Option-cases (coder.encode frame)) [
    | inl absent ↦ rw (absent, message) refl
    | inr (bytes, encoded) ↦ elim (Bool-cases (ltb 255 (length bytes))) [
      | inl large ↦ rw (encoded, message, large) refl
      | inr fits ↦ rw (encoded, message, fits) refl
    ]
  ]

  map-append : (xs ys : List (List ℕ)) → map framed (xs ++ ys) ≡ map framed xs ++ map framed ys
  map-append [] ys = refl
  map-append (x ∷ xs) ys = ap (λ l. framed x ∷ l) (map-append xs ys)

  messages-encodings : (frames : List Frame) → messages coder frames ≡ map framed (encodings frames)
  messages-encodings [] = refl
  messages-encodings (frame ∷ frames) =
      rw
        (
          message-small frame,
          messages-encodings frames,
          map-append (small (coder.encode frame)) (encodings frames),
        )
        refl

  polled-payloads :
      (events : List (BridgeEvent coder)) → polled coder events ≡ map framed (payloads events)
  polled-payloads [] = refl
  polled-payloads (polls (ok frames) ∷ events) =
      rw
        (
          messages-encodings frames,
          polled-payloads events,
          map-append (encodings frames) (payloads events),
        )
        refl
  polled-payloads (polls (err kind) ∷ events) = polled-payloads events
  polled-payloads (takes ∷ events) = polled-payloads events

  -- The channel's bound, and what a client reads of the written bytes: a part of the payloads.
  pub record IsDelivered (events : List (BridgeEvent coder)) (b : Bridge coder) : Type 0 where
    pub bounded : length b.queue ≤ 100
    pub read : List (List ℕ)
    pub reads : unframe (length read) (flatten b.written) ≡ some read
    pub in_order : IsPart read (payloads events)

  -- For all polls of the driver and all receptions by the pipe's writer, in any order, the channel
  -- stays within its bound, and a client that reads message by message gets encodings of polled frames,
  -- in order, whole and unchanged, some of them maybe missing.
  pub bridge_run-IsDelivered :
      (events : List (BridgeEvent coder))
      → IsDelivered events (bridge_run coder events (idle coder))
  bridge_run-IsDelivered events =
      let b = bridge_run coder events (idle coder) in
      let faithful = bridge_run-IsFaithful coder events in
      let part = IsPart-trans (IsPart-front b.written b.queue) faithful.in_order in
      let (read, same, in_order) =
        IsPart-map b.written (payloads events)
          (subst (IsPart b.written) (polled-payloads events) part) in
      record {
        bounded = faithful.bounded;
        read = read;
        reads = ap (λ l. unframe (length read) (flatten l)) same ∙ unframe-framed read;
        in_order = in_order;
      }
