-- ===== src/Slcan/Driver/Settled.antt =====
-- What the reader that takes one byte after the other keeps, and what stays in front of it.
use win_can_utils.Base.{
  ℕ, ◌≡◌, refl, sym, ap, ◌∙◌, ◌==◌, List, [], ◌∷◌, ◌++◌, append_assoc, Option, none, some, value,
  panic, inl, inr, Bool-cases, Outcome-cases, ◌>>=◌,
}
use win_can_utils.Can.{CanApi}
use win_can_utils.Slcan.Lines.{parse_slcan_line_bytes}
use win_can_utils.Slcan.Driver.{memchr, push}
use win_can_utils.Slcan.Driver.Scan.{
  Scanned, next_line, scan, memchr-snoc, keep, scan-keep, scan_end, bind_ext, bind_assoc,
}

module _ (can : CanApi) where
  open can use {CanFrame}

  abbrev pub deliver : List CanFrame → Scanned can → Scanned can
  deliver frames z = record z { found = frames ++ z.found }

  push-append :
      (frames more : List CanFrame) (f : Option CanFrame)
      → push can (frames ++ more) f ≡ frames ++ push can more f
  push-append frames more none = refl
  push-append frames more (some f) = append_assoc frames more (f ∷ [])

  -- Frames found before stay in front.
  pub scan-deliver :
      (bs : List ℕ) (frames : List CanFrame) (z : Scanned can)
      → scan can bs (deliver frames z) ≡ (scan can bs z >>= λ z'. value (deliver frames z'))
  unfolding scan
  scan-deliver [] frames z = refl
  scan-deliver (b ∷ bs) frames z = elim (Bool-cases (b == b'\r')) [
    | inr e ↦
        scan-keep can b bs (deliver frames z) e
        ∙ scan-deliver bs frames (keep can z (b ∷ []))
        ∙ ap (λ o. o >>= λ z'. value (deliver frames z')) (sym (scan-keep can b bs z e))
    | inl e ↦
        let parsed = parse_slcan_line_bytes can z.upper (z.begun ++ (b ∷ [])) in
        scan_end can b bs (deliver frames z) e
        ∙ bind_ext parsed _ _ (λ (f, high).
          ap (λ t. scan can bs ((record { begun = []; upper = high; found = t })))
            (push-append frames z.found f)
          ∙ scan-deliver bs frames (next_line can z (f, high)))
        ∙ sym (
            bind_assoc parsed (λ r. scan can bs (next_line can z r))
              (λ z'. value (deliver frames z')))
        ∙ ap (λ o. o >>= λ z'. value (deliver frames z')) (sym (scan_end can b bs z e))
  ]

  -- What is begun has no carriage return.
  pub scan-quiet :
      (bs : List ℕ) (z z' : Scanned can)
      → memchr b'\r' z.begun ≡ none
      → scan can bs z ≡ value z'
      → memchr b'\r' z'.begun ≡ none
  unfolding scan memchr
  scan-quiet [] z z' quiet h = cc
  scan-quiet (b ∷ bs) z z' quiet h = elim (Bool-cases (b == b'\r')) [
    | inr e ↦
        scan-quiet bs (keep can z (b ∷ [])) z' (memchr-snoc z.begun b quiet e)
          (sym (scan-keep can b bs z e) ∙ h)
    | inl e ↦ elim (Outcome-cases (parse_slcan_line_bytes can z.upper (z.begun ++ (b ∷ [])))) [
      | inl p ↦
          let e' : value z' ≡ panic = sym h ∙ scan_end can b bs z e ∙ rw (p, ◌>>=◌) refl in
          absurd cc
      | inr (r, p) ↦
          let e' : scan can bs (next_line can z r) ≡ value z' =
            sym (scan_end can b bs z e ∙ rw (p, ◌>>=◌) refl) ∙ h in
          scan-quiet bs (next_line can z r) z' refl e'
    ]
  ]
