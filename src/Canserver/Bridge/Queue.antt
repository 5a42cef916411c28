-- ===== src/Canserver/Bridge/Queue.antt =====
-- What the pipe's writer takes from the channel, against the frames that were polled.
use win_can_utils.Base.{
  ℕ, ◌≤◌, ◌≡◌, inl, inr, refl, sym, ap, ◌∙◌, ltb, Bool, true, false, if◌then◌else◌, suc, Bool-cases,
  List, [], ◌∷◌, ◌++◌, append-nil, append_assoc, length, length-append, Option, none, some, arith,
}
use mathlib.Core.Path.{subst}
use win_can_utils.Io.{ok, err}
use win_can_utils.Canserver.Bridge.{
  Coder, capacity, try_send, message, send_if, forward_frames, Bridge, BridgeEvent, polls, takes,
  poll, take_one, bridge_step, bridge_run,
}

-- A list with some items left out.
pub data IsPart {A : Type 0} : List A → List A → Type 0 where
  nothing : IsPart [] []
  keeps : {xs ys : List A} (x : A) → IsPart xs ys → IsPart (x ∷ xs) (x ∷ ys)
  drops : {xs ys : List A} (y : A) → IsPart xs ys → IsPart xs (y ∷ ys)

module _ {A : Type 0} where
  pub IsPart-refl : (xs : List A) → IsPart xs xs
  IsPart-refl [] = nothing
  IsPart-refl (x ∷ xs) = keeps x (IsPart-refl xs)

  IsPart-none : (xs : List A) → IsPart [] xs
  IsPart-none [] = nothing
  IsPart-none (x ∷ xs) = drops x (IsPart-none xs)

  IsPart-trans_from : {ys zs : List A} → IsPart ys zs → (xs : List A) → IsPart xs ys → IsPart xs zs
  IsPart-trans_from nothing xs p = p
  IsPart-trans_from (drops y q) xs p = drops y (IsPart-trans_from q xs p)
  IsPart-trans_from (keeps x q) _ (keeps {xs = xs} _ p) = keeps x (IsPart-trans_from q xs p)
  IsPart-trans_from (keeps x q) _ (drops {xs = xs} _ p) = drops x (IsPart-trans_from q xs p)

  pub IsPart-trans : {xs ys zs : List A} → IsPart xs ys → IsPart ys zs → IsPart xs zs
  IsPart-trans {xs} p q = IsPart-trans_from q xs p

  pub IsPart-append :
      {ws xs ys zs : List A} → IsPart ws xs → IsPart ys zs → IsPart (ws ++ ys) (xs ++ zs)
  IsPart-append nothing q = q
  IsPart-append (keeps x p) q = keeps x (IsPart-append p q)
  IsPart-append (drops x p) q = drops x (IsPart-append p q)

  pub IsPart-front : (xs ys : List A) → IsPart xs (xs ++ ys)
  IsPart-front [] ys = IsPart-none ys
  IsPart-front (x ∷ xs) ys = keeps x (IsPart-front xs ys)

try_send-le :
    (queue : List (List ℕ)) (msg : List ℕ) → length queue ≤ 100 → length (try_send queue msg) ≤ 100
unfolding try_send
try_send-le queue msg h = elim (Bool-cases (ltb (length queue) capacity)) [
  | inl room ↦ rw room (ground (arith, length-append queue (msg ∷ [])))
  | inr full ↦ rw full h
]

try_send-IsPart :
    (queue : List (List ℕ)) (msg : List ℕ) → IsPart (try_send queue msg) (queue ++ (msg ∷ []))
unfolding try_send
try_send-IsPart queue msg = elim (Bool-cases (ltb (length queue) capacity)) [
  | inl room ↦ rw room (IsPart-refl (queue ++ (msg ∷ [])))
  | inr full ↦ rw full (IsPart-front queue (msg ∷ []))
]

module _ {Frame : Type 0} (coder : Coder Frame) where
  abbrev pub one : Option (List ℕ) → List (List ℕ)
  one none = []
  one (some msg) = msg ∷ []

  -- The messages of frames that are encoded and not too large, and of the frames that are polled.
  abbrev pub messages : List Frame → List (List ℕ)
  messages [] = []
  messages (frame ∷ frames) = one (message coder frame) ++ messages frames

  abbrev pub polled : List (BridgeEvent coder) → List (List ℕ)
  polled [] = []
  polled (polls (ok frames) ∷ events) = messages frames ++ polled events
  polled (polls (err kind) ∷ events) = polled events
  polled (takes ∷ events) = polled events

  -- Both at once: the channel's bound, and messages in order with none made up.
  abbrev Keeps : List (List ℕ) → List (List ℕ) → Type 0
  Keeps queue all = (length queue ≤ 100) × IsPart queue all

  send_if-Keeps :
      (msg : Option (List ℕ)) (queue : List (List ℕ))
      → length queue ≤ 100
      → Keeps (send_if coder msg queue) (queue ++ one msg)
  unfolding send_if
  send_if-Keeps none queue h =
      (h, subst (IsPart queue) (sym (append-nil queue)) (IsPart-refl queue))
  send_if-Keeps (some msg) queue h = (try_send-le queue msg h, try_send-IsPart queue msg)

  forward_frames-Keeps :
      (frames : List Frame) (queue : List (List ℕ))
      → length queue ≤ 100
      → Keeps (forward_frames coder frames queue) (queue ++ messages frames)
  unfolding forward_frames
  forward_frames-Keeps [] queue h =
      (h, subst (IsPart queue) (sym (append-nil queue)) (IsPart-refl queue))
  forward_frames-Keeps (frame ∷ frames) queue h =
      let msg = message coder frame in
      let (h', part) = send_if-Keeps msg queue h in
      let (h'', rest) = forward_frames-Keeps frames (send_if coder msg queue) h' in
      let wider = IsPart-append part (IsPart-refl (messages frames)) in
      (
        h'',
        IsPart-trans rest (
            subst (IsPart (send_if coder msg queue ++ messages frames))
              (append_assoc queue (one msg) (messages frames)) wider),
      )

  -- The channel has room for 100 messages at most, and what was taken from it and what is in it are
  -- the given messages in order, some of them left out.
  pub record IsFaithful (b : Bridge coder) (given : List (List ℕ)) : Type 0 where
    pub bounded : length b.queue ≤ 100
    pub in_order : IsPart (b.written ++ b.queue) given

  either-IsFaithful :
      (runs : Bool) (b c : Bridge coder) (given : List (List ℕ))
      → IsFaithful b given
      → IsFaithful c given
      → IsFaithful (if runs then b else c) given
  either-IsFaithful true b c given h k = h
  either-IsFaithful false b c given h k = k

  poll-IsFaithful :
      (frames : List Frame) (b : Bridge coder) (given : List (List ℕ))
      → IsFaithful b given
      → IsFaithful (poll coder (ok frames) b) (given ++ messages frames)
  unfolding poll
  poll-IsFaithful frames b given h =
      let queue = forward_frames coder frames b.queue in
      let (bound, part) = forward_frames-Keeps frames b.queue h.bounded in
      let in_order = IsPart-trans (IsPart-append (IsPart-refl b.written) part) (
        subst (λ l. IsPart l (given ++ messages frames))
          (append_assoc b.written b.queue (messages frames))
          (IsPart-append h.in_order (IsPart-refl (messages frames)))) in
      either-IsFaithful b.polling (record b { queue = queue }) b (given ++ messages frames)
        (record { bounded = bound; in_order = in_order })
        (record {
          bounded = h.bounded;
          in_order = IsPart-trans h.in_order (IsPart-front given (messages frames));
        })

  take_one-IsFaithful :
      (queue : List (List ℕ)) (b : Bridge coder) (given : List (List ℕ))
      → b.queue ≡ queue
      → IsFaithful b given
      → IsFaithful (take_one coder queue b) given
  unfolding take_one
  take_one-IsFaithful [] b given same h = h
  take_one-IsFaithful (msg ∷ msgs) b given same h =
      let moved : b.written ++ b.queue ≡ (b.written ++ (msg ∷ [])) ++ msgs =
        ap (λ q. b.written ++ q) same ∙ sym (append_assoc b.written (msg ∷ []) msgs) in
      let size : length b.queue ≡ suc (length msgs) = ap length same in
      record {
        bounded = omega (arith, h.bounded, size);
        in_order = subst (λ l. IsPart l given) moved h.in_order;
      }

  bridge_run-IsFaithful_from :
      (events : List (BridgeEvent coder)) (b : Bridge coder) (given : List (List ℕ))
      → IsFaithful b given
      → IsFaithful (bridge_run coder events b) (given ++ polled events)
  unfolding bridge_run bridge_step
  bridge_run-IsFaithful_from [] b given h = subst (IsFaithful b) (sym (append-nil given)) h
  bridge_run-IsFaithful_from (polls (ok frames) ∷ events) b given h =
      subst (IsFaithful (bridge_run coder events (poll coder (ok frames) b)))
        (append_assoc given (messages frames) (polled events))
        (bridge_run-IsFaithful_from events (poll coder (ok frames) b) (given ++ messages frames)
          (poll-IsFaithful frames b given h))
  bridge_run-IsFaithful_from (polls (err kind) ∷ events) b given h =
      bridge_run-IsFaithful_from events (record b { polling = false }) given
        (record { bounded = h.bounded; in_order = h.in_order })
  bridge_run-IsFaithful_from (takes ∷ events) b given h =
      bridge_run-IsFaithful_from events (take_one coder b.queue b) given
        (take_one-IsFaithful b.queue b given refl h)

  abbrev pub idle : Bridge coder
  idle = record { queue = []; written = []; polling = true }

  pub bridge_run-IsFaithful :
      (events : List (BridgeEvent coder))
      → IsFaithful (bridge_run coder events idle) (polled events)
  bridge_run-IsFaithful events =
      bridge_run-IsFaithful_from events idle []
        (record { bounded = omega arith; in_order = nothing })
