-- ===== src/Slcan/Driver/Scan.antt =====
-- The loop of `read_frames` against a reader that takes one byte after the other.
use win_can_utils.Base.{
  ℕ, zero, suc, ◌<◌, ◌≡◌, refl, sym, ap, ◌∙◌, ◌==◌, true, false, List, [], ◌∷◌, ◌++◌, append-nil,
  append_assoc, length, drop, take, Option, none, some, Outcome, value, panic, inl, inr, Bool-cases,
  Option-cases, arith, ◌>>=◌,
}
use win_can_utils.Can.{CanApi}
use win_can_utils.Slcan.Lines.{parse_slcan_line_bytes}
use win_can_utils.Slcan.Driver.{memchr, push}

pub bind_ext :
    {A B : Type 0} (o : Outcome A) (f g : A → Outcome B)
    → ((a : A) → f a ≡ g a)
    → (o >>= f) ≡ (o >>= g)
bind_ext panic f g h = refl
bind_ext (value a) f g h = h a

pub bind_assoc :
    {A B C : Type 0} (o : Outcome A) (f : A → Outcome B) (g : B → Outcome C)
    → ((o >>= f) >>= g) ≡ (o >>= λ a. f a >>= g)
bind_assoc panic f g = refl
bind_assoc (value a) f g = refl

memchr-none :
    (b : ℕ) (bs : List ℕ)
    → memchr b'\r' (b ∷ bs) ≡ none
    → ((b == b'\r') ≡ false) × (memchr b'\r' bs ≡ none)
unfolding memchr
memchr-none b bs h = (ground arith, ground arith)

pub memchr-snoc :
    (bs : List ℕ) (b : ℕ)
    → memchr b'\r' bs ≡ none
    → (b == b'\r') ≡ false
    → memchr b'\r' (bs ++ (b ∷ [])) ≡ none
unfolding memchr
memchr-snoc [] b quiet e = rw e refl
memchr-snoc (a ∷ bs) b quiet e =
    let (other, rest) = memchr-none a bs quiet in rw (other, memchr-snoc bs b rest e) refl

pub memchr_lt : (bs : List ℕ) (k : ℕ) → memchr b'\r' bs ≡ some k → k < length bs
unfolding memchr
memchr_lt [] k h = absurd cc
memchr_lt (b ∷ bs) k h = elim (Bool-cases (b == b'\r')) [
  | inl e ↦ ground arith
  | inr e ↦ elim (Option-cases (memchr b'\r' bs)) [
    | inl absent ↦ absurd (ground arith)
    | inr (j, found) ↦ ground (arith, memchr_lt bs j found)
  ]
]

module _ (can : CanApi) where
  open can use {CanFrame}

  -- The line begun, the upper timestamp and the frames so far.
  pub record Scanned : Type 0 where
    pub begun : List ℕ
    pub upper : ℕ
    pub found : List CanFrame

  abbrev pub next_line : Scanned → Option CanFrame × ℕ → Scanned
  next_line z (frame, high) = record { begun = []; upper = high; found = push can z.found frame }

  abbrev pub keep : Scanned → List ℕ → Scanned
  keep z bs = record z { begun = z.begun ++ bs }

  -- A byte is kept; a carriage return ends the line, which is parsed.
  unfoldable pub scan : List ℕ → Scanned → Outcome Scanned
  scan [] z = value z
  scan (b ∷ bs) z = elim (b == b'\r') [
    | true ↦
        parse_slcan_line_bytes can z.upper (z.begun ++ (b ∷ [])) >>= λ r. scan bs (next_line z r)
    | false ↦ scan bs (keep z (b ∷ []))
  ]

  pub scan_end :
      (b : ℕ) (bs : List ℕ) (z : Scanned)
      → (b == b'\r') ≡ true
      → scan (b ∷ bs) z ≡ (
          parse_slcan_line_bytes can z.upper (z.begun ++ (b ∷ [])) >>= λ r. scan bs (next_line z r))
  unfolding scan
  scan_end b bs z e = rw (e, scan) refl

  pub scan-keep :
      (b : ℕ) (bs : List ℕ) (z : Scanned)
      → (b == b'\r') ≡ false
      → scan (b ∷ bs) z ≡ scan bs (keep z (b ∷ []))
  unfolding scan
  scan-keep b bs z e = rw (e, scan) refl

  pub scan-append :
      (front bs : List ℕ) (z : Scanned) → scan (front ++ bs) z ≡ (scan front z >>= scan bs)
  unfolding scan
  scan-append [] bs z = refl
  scan-append (a ∷ front) bs z = elim (Bool-cases (a == b'\r')) [
    | inr e ↦
        scan-keep a (front ++ bs) z e
        ∙ scan-append front bs (keep z (a ∷ []))
        ∙ ap (λ o. o >>= scan bs) (sym (scan-keep a front z e))
    | inl e ↦
        let parsed = parse_slcan_line_bytes can z.upper (z.begun ++ (a ∷ [])) in
        scan_end a (front ++ bs) z e
        ∙ bind_ext parsed _ _ (λ r. scan-append front bs (next_line z r))
        ∙ sym (bind_assoc parsed (λ r. scan front (next_line z r)) (scan bs))
        ∙ ap (λ o. o >>= scan bs) (sym (scan_end a front z e))
  ]

  -- Without a carriage return all bytes are kept.
  pub scan_quiet :
      (bs : List ℕ) (z : Scanned) → memchr b'\r' bs ≡ none → scan bs z ≡ value (keep z bs)
  unfolding scan
  scan_quiet [] z h = ap (λ t. value (record z { begun = t })) (sym (append-nil z.begun))
  scan_quiet (b ∷ bs) z h =
      let (other, rest) = memchr-none b bs h in
      scan-keep b bs z other
      ∙ scan_quiet bs (keep z (b ∷ [])) rest
      ∙ ap (λ t. value (record z { begun = t })) (append_assoc z.begun (b ∷ []) bs)

  -- The first line is parsed with what was begun.
  pub scan_line :
      (bs : List ℕ) (z : Scanned) (k : ℕ)
      → memchr b'\r' bs ≡ some k
      → scan bs z ≡ (
          parse_slcan_line_bytes can z.upper (z.begun ++ take (suc k) bs) >>= λ r.
          scan (drop (suc k) bs) (next_line z r))
  unfolding memchr
  scan_line [] z k h = absurd cc
  scan_line (b ∷ bs) z zero h = elim (Bool-cases (b == b'\r')) [
    | inl e ↦ scan_end b bs z e
    | inr e ↦ absurd (ground arith)
  ]
  scan_line (b ∷ bs) z (suc j) h = elim (Bool-cases (b == b'\r')) [
    | inl e ↦ absurd (ground arith)
    | inr e ↦
        let found : memchr b'\r' bs ≡ some j = ground arith in
        scan-keep b bs z e
        ∙ scan_line bs (keep z (b ∷ [])) j found
        ∙ ap
            (λ t.
              parse_slcan_line_bytes can z.upper t >>= λ r. scan (drop (suc j) bs) (next_line z r))
            (append_assoc z.begun (b ∷ []) (take (suc j) bs))
  ]
