-- ===== src/Slcan/Driver/Chunks.antt =====
-- Reads of `read_frames` one after the other.
use win_can_utils.Base.{
  ℕ, zero, suc, ◌+◌, ◌<◌, ◌≡◌, refl, sym, ap, ◌∙◌, ltb, List, [], ◌∷◌, ◌++◌, append-nil, length,
  length-drop, drop, take, drop-drop, Option, none, some, Outcome, value, panic, inl, inr,
  Bool-cases, Option-cases, Outcome-cases, arith, ◌>>=◌,
}
use win_can_utils.Can.{CanApi}
use win_can_utils.Io.{IoResult, ok, err}
use win_can_utils.Slcan.Lines.{parse_slcan_line_bytes}
use win_can_utils.Slcan.Driver.{
  SlcanDriver, memchr, LineLoop, push, line_loop, finish_read, read_frames, then_frames, read_all,
}
use win_can_utils.Slcan.Driver.Settled.{deliver, scan-deliver, scan-quiet}
use win_can_utils.Slcan.Driver.Scan.{Scanned, scan, scan-append, scan_quiet, scan_line, memchr_lt}

module _ (can : CanApi) where
  open can use {CanFrame}

  abbrev start : ℕ → List CanFrame → Scanned can
  start high frames = record { begun = []; upper = high; found = frames }

  abbrev view : List ℕ → LineLoop can → Scanned can
  view l r = record { begun = drop r.processed l; upper = r.high; found = r.frames }

  -- A fuel above the number of bytes left is enough for the loop, which ends where the reader does
  -- that takes one byte after the other.
  line_loop-scan :
      (l : List ℕ) (fuel : ℕ) (r : LineLoop can)
      → length (drop r.processed l) < fuel
      → (o : Outcome (LineLoop can)) × (line_loop can l fuel r ≡ some o)
        × ((o >>= λ r'. value (view l r')) ≡ scan can (drop r.processed l) (start r.high r.frames))
  unfolding line_loop
  line_loop-scan l zero r h = absurd (omega arith)
  line_loop-scan l (suc fuel) r h = elim (Option-cases (memchr b'\r' (drop r.processed l))) [
    | inl quiet ↦ (
      value r,
      rw (quiet, line_loop) refl,
      sym (scan_quiet can (drop r.processed l) (start r.high r.frames) quiet),
    )
    | inr (k, found) ↦
        let next : k + 1 ≡ suc k = omega arith in
        let first = scan_line can (drop r.processed l) (start r.high r.frames) k found in
        elim (Outcome-cases
          (parse_slcan_line_bytes can r.high (take (k + 1) (drop r.processed l)))) [
            | inl p ↦
                let p' : parse_slcan_line_bytes can r.high (take (suc k) (drop r.processed l))
                    ≡ panic =
                  ap (λ n. parse_slcan_line_bytes can r.high (take n (drop r.processed l)))
                    (sym next)
                  ∙ p in
                (panic, rw (found, p, line_loop) refl, sym (first ∙ rw p' refl))
            | inr ((frame, high), p) ↦
                let p' : parse_slcan_line_bytes can r.high (take (suc k) (drop r.processed l))
                    ≡ value (frame, high) =
                  ap (λ n. parse_slcan_line_bytes can r.high (take n (drop r.processed l)))
                    (sym next)
                  ∙ p in
                let moved : drop (suc k) (drop r.processed l) ≡ drop (r.processed + k + 1) l =
                  drop-drop r.processed (suc k) l ∙ ap (λ n. drop n l) (omega arith) in
                let r' : LineLoop can = record {
                  processed = r.processed + k + 1;
                  high = high;
                  frames = push can r.frames frame;
                } in
                let shorter : length (drop (r.processed + k + 1) l) < fuel = omega (
                  arith,
                  memchr_lt (drop r.processed l) k found,
                  length-drop r.processed l,
                  length-drop (r.processed + k + 1) l,
                ) in
                let (o, e, same) = line_loop-scan l fuel r' shorter in
                (
                  o,
                  rw (found, p, line_loop) e,
                  same
                      ∙ sym (
                          first
                          ∙ rw p'
                              (ap (λ t. scan can t (start high (push can r.frames frame))) moved)),
                )
          ]
  ]

  -- Between two reads the buffer holds no whole line.
  abbrev pub IsSettled : SlcanDriver → Type 0
  IsSettled s = memchr b'\r' s.leftover ≡ none

  abbrev begin : SlcanDriver → Scanned can
  begin s = record { begun = s.leftover; upper = s.timestamp_high; found = [] }

  abbrev end : SlcanDriver → Scanned can → IoResult (List CanFrame) × SlcanDriver
  end s z = (ok z.found, record s { leftover = z.begun; timestamp_high = z.upper })

  finish_read_lem :
      (s : SlcanDriver) (l : List ℕ) (r : LineLoop can) → finish_read can s l r ≡ end s (view l r)
  unfolding finish_read
  finish_read_lem s l r = elim (Bool-cases (ltb 0 r.processed)) [
    | inl some_lines ↦ rw some_lines refl
    | inr no_line ↦ let p : r.processed ≡ 0 = ground arith in rw (no_line, p) refl
  ]

  read_frames-scan :
      (s : SlcanDriver) (bytes : List ℕ)
      → IsSettled s
      → read_frames can s (ok bytes) ≡ some (scan can bytes (begin s) >>= λ z. value (end s z))
  unfolding read_frames
  read_frames-scan s bytes quiet =
      let l = s.leftover ++ bytes in
      let (o, e, same) =
        line_loop-scan l (suc (length l))
          (record { processed = 0; high = s.timestamp_high; frames = [] }) (omega arith) in
      let kept : scan can l (start s.timestamp_high []) ≡ scan can bytes (begin s) =
        scan-append can s.leftover bytes (start s.timestamp_high [])
        ∙ ap (λ t. t >>= scan can bytes)
            (scan_quiet can s.leftover (start s.timestamp_high []) quiet) in
      rw (e, read_frames)
        (finished s l o ∙ ap (λ t. some (t >>= λ z. value (end s z))) (same ∙ kept))
    where
      finished :
          (s : SlcanDriver) (l : List ℕ) (o : Outcome (LineLoop can))
          → elim (some o) [
            | none ↦ none
            | some panic ↦ some panic
            | some (value r) ↦ some (value (finish_read can s l r))
          ]
            ≡ some ((o >>= λ r. value (view l r)) >>= λ z. value (end s z))
      finished s l panic = refl
      finished s l (value r) = ap (λ t. some (value t)) (finish_read_lem s l r)

  -- The bytes of the reads before the first error.
  pub delivered : List (IoResult (List ℕ)) → List ℕ
  delivered [] = []
  delivered (ok bytes ∷ results) = bytes ++ delivered results
  delivered (err kind ∷ results) = []

  abbrev leave : SlcanDriver → Scanned can → SlcanDriver
  leave s z = record s { leftover = z.begun; timestamp_high = z.upper }

  abbrev report : SlcanDriver → Outcome (Scanned can) → Outcome (List CanFrame × SlcanDriver)
  report s o = o >>= λ z. value (z.found, leave s z)

  then_frames-report :
      (s : SlcanDriver) (frames : List CanFrame) (o : Outcome (Scanned can))
      → then_frames can frames (some (report s o))
        ≡ some (report s (o >>= λ z. value (deliver can frames z)))
  unfolding then_frames
  then_frames-report s frames panic = refl
  then_frames-report s frames (value z) = refl

  -- One read that succeeds, and the reads behind it.
  read_all-ok :
      (s : SlcanDriver) (bytes : List ℕ) (results : List (IoResult (List ℕ)))
      → IsSettled s
      → ((s' : SlcanDriver)
          → IsSettled s'
          → read_all can s' results ≡ some (report s' (scan can (delivered results) (begin s'))))
      → read_all can s (ok bytes ∷ results)
        ≡ some (report s (scan can (bytes ++ delivered results) (begin s)))
  unfolding read_all
  read_all-ok s bytes results quiet later =
      let first = read_frames-scan s bytes quiet in
      let split = scan-append can bytes (delivered results) (begin s) in
      elim (Outcome-cases (scan can bytes (begin s))) [
        | inl p ↦
            rw (first, p, read_all)
              (ap (λ o. some (report s o))
                (sym (split ∙ ap (λ o. o >>= scan can (delivered results)) p)))
        | inr (z, p) ↦
            let quiet' = scan-quiet can bytes (begin s) z quiet p in
            let rest = later (leave s z) quiet' in
            let front : record z { found = z.found ++ [] } ≡ z =
              ap (λ t. record z { found = t }) (append-nil z.found) in
            rw (first, p, read_all)
              (ap (then_frames can z.found) rest
                ∙ then_frames-report s z.found (scan can (delivered results) (begin (leave s z)))
                ∙ ap (λ o. some (report s o))
                    (sym (scan-deliver can (delivered results) z.found (begin (leave s z)))
                      ∙ ap (scan can (delivered results)) front
                      ∙ sym (split ∙ ap (λ o. o >>= scan can (delivered results)) p)))
      ]

  -- The reads up to an error find the frames that one reader of all their bytes finds, in order, and
  -- leave the same state, wherever the reads cut the bytes; a line that makes the parser panic does
  -- so for both. The buffer is assumed to start without a carriage return, as it does when opened.
  pub read_all-scan :
      (s : SlcanDriver) (results : List (IoResult (List ℕ)))
      → IsSettled s
      → read_all can s results ≡ some (report s (scan can (delivered results) (begin s)))
  unfolding read_all read_frames delivered scan
  read_all-scan s [] quiet = refl
  read_all-scan s (err kind ∷ results) quiet = refl
  read_all-scan s (ok bytes ∷ results) quiet =
      read_all-ok s bytes results quiet (λ s' quiet'. read_all-scan s' results quiet')

  -- So they do what one read of all these bytes does.
  pub read_all-delivered :
      (s : SlcanDriver) (results : List (IoResult (List ℕ)))
      → IsSettled s
      → read_all can s results ≡ read_all can s (ok (delivered results) ∷ [])
  unfolding delivered
  read_all-delivered s results quiet =
      read_all-scan s results quiet
      ∙ ap (λ t. some (report s (scan can t (begin s)))) (sym (append-nil (delivered results)))
      ∙ sym (read_all-scan s (ok (delivered results) ∷ []) quiet)

  -- A read leaves a buffer without a carriage return.
  pub read_frames-IsSettled :
      (s s' : SlcanDriver) (bytes : List ℕ) (frames : List CanFrame)
      → IsSettled s
      → read_frames can s (ok bytes) ≡ some (value (ok frames, s'))
      → IsSettled s'
  read_frames-IsSettled s s' bytes frames quiet h =
      elim (Outcome-cases (scan can bytes (begin s))) [
        | inl p ↦
            let e : ◌≡◌ {A = Option (Outcome (IoResult (List CanFrame) × SlcanDriver))} (some panic)
                (some (value (ok frames, s'))) =
              sym (read_frames-scan s bytes quiet ∙ ap (λ o. some (o >>= λ z. value (end s z))) p)
              ∙ h in
            absurd cc
        | inr (z, p) ↦
            let e : some (value (end s z)) ≡ some (value (ok frames, s')) =
              sym (read_frames-scan s bytes quiet ∙ ap (λ o. some (o >>= λ z. value (end s z))) p)
              ∙ h in
            let same : s'.leftover ≡ z.begun = cc in
            ap (memchr b'\r') same ∙ scan-quiet can bytes (begin s) z quiet p
      ]
