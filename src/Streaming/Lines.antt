-- ===== src/Streaming/Lines.antt =====
-- The loop over the lines of a buffer does what the byte machine does.
use inference_perf.Prelude.{
  ℕ, zero, suc, ◌≡◌, ◌≤◌, ◌<◌, inl, inr, refl, ap, sym, ◌∙◌, Bool, true, false, ◌&&◌, not, Option,
  none, some, [], ◌∷◌, Result, ok, err, is_empty, length, nat_beq, if◌then◌else◌, arith, Bool-cases,
  Option-cases,
}
use mathlib.Core.Path.{subst}
use inference_perf.Streaming.Framing.{Bytes, Frame, next_line, take_line, scan}
use inference_perf.Streaming.Invariants.{Result-cases}
use inference_perf.Streaming.Machine.{
  step, steps, settle, steps-done, steps-line, after_line, line-other, and_then,
}

-- What follows the first line is shorter, and after a lone carriage return it starts with no line feed.
abbrev starts_with_lf : Bytes → Bool
starts_with_lf [] = false
starts_with_lf (c ∷ t) = nat_beq c b'\n'

abbrev IsRest : Bytes → Option (Bytes × Bool × Bytes) → Type 0
IsRest rest none = Unit
IsRest rest (some (l, lone, rest')) =
    (length rest' < length rest) × ((lone && starts_with_lf rest') ≡ false)

IsRest-cons :
    (c : ℕ) (t : Bytes) (found : Option (Bytes × Bool × Bytes))
    → IsRest t found
    → IsRest (c ∷ t) (elim found [ none ↦ none | some (l, lone, rest) ↦ some (c ∷ l, lone, rest) ])
IsRest-cons c t none h = tt
IsRest-cons c t (some (l, lone, rest)) h = (omega (arith, h.0), h.1)

IsRest-next_line : (rest : Bytes) → IsRest rest (next_line rest)
unfolding next_line
IsRest-next_line [] = tt
IsRest-next_line (c ∷ []) = elim (Bool-cases (nat_beq c b'\n')) [
  | inl lf ↦ rw lf (omega arith, refl)
  | inr no_lf ↦ elim (Bool-cases (nat_beq c b'\r')) [
    | inl cr ↦ rw (no_lf, cr) (omega arith, refl)
    | inr other ↦ rw (no_lf, other) tt
  ]
]
IsRest-next_line (c ∷ d ∷ t) = elim (Bool-cases (nat_beq c b'\n')) [
  | inl lf ↦ rw lf (omega arith, refl)
  | inr no_lf ↦ elim (Bool-cases (nat_beq c b'\r')) [
    | inl cr ↦ elim (Bool-cases (nat_beq d b'\n')) [
      | inl pair ↦ rw (no_lf, cr, pair) (omega arith, refl)
      | inr lone ↦ rw (no_lf, cr, lone) (omega arith, lone)
    ]
    | inr other ↦
        rw (no_lf, other) (IsRest-cons c (d ∷ t) (next_line (d ∷ t)) (IsRest-next_line (d ∷ t)))
  ]
]

module _ (S E : Type 0) (deliver : S → Bytes → Result E S) where
  abbrev Out : Type 0
  Out = Result E (Frame × S)

  -- The mark for a line feed makes no difference where none follows, or where nothing follows.
  steps-mark :
      (g : Frame) (s : S) (lone : Bool) (rest : Bytes)
      → g.done ≡ false
      → (lone && starts_with_lf rest) ≡ false
      → steps S E deliver (record g { buffer = []; skip_lf = lone && is_empty rest }) s rest
        ≡ steps S E deliver (record g { buffer = []; skip_lf = lone }) s rest
  unfolding steps step
  steps-mark g s false rest h k = refl
  steps-mark g s true [] h k = refl
  steps-mark g s true (c ∷ t) h k = rw (h, k) refl

  -- One turn of the loop, once its line has been taken.
  after_scan : (fuel : ℕ) → Bytes → Out → Out
  after_scan fuel rest' (err e) = err e
  after_scan fuel rest' (ok (f', s')) =
      if f'.done
      then ok (record f' { buffer = rest' }, s')
      else scan S E deliver (λ x. x) fuel f' s' rest'

  scan-line :
      (fuel : ℕ) (f : Frame) (s : S) (rest : Bytes) (l : Bytes) (lone : Bool) (rest' : Bytes)
      → next_line rest ≡ some (l, lone, rest')
      → scan S E deliver (λ x. x) (suc fuel) f s rest
        ≡ after_scan fuel rest'
            (take_line S E deliver (λ x. x) (record f { skip_lf = lone && is_empty rest' }) s l)
  unfolding scan after_scan
  scan-line fuel f s rest l lone rest' q = rw (scan, q) refl

  settled :
      (f : Frame) (s : S)
      → f.done ≡ true
      → settle S E deliver (ok (f, s))
        ≡ ok (record { buffer = []; data_lines = []; skip_lf = false; done = true }, s)
  unfolding settle
  settled f s h =
      ap
        (λ d.
          if d
          then ok (record { buffer = []; data_lines = []; skip_lf = false; done = true }, s)
          else ok (f, s))
        h

  scan-end :
      (fuel : ℕ) (f : Frame) (s : S) (rest : Bytes)
      → next_line rest ≡ none
      → scan S E deliver (λ x. x) (suc fuel) f s rest ≡ ok (record f { buffer = rest }, s)
  unfolding scan
  scan-end fuel f s rest q = rw (scan, q) refl

  -- Both sides take the line alike, and then go on alike.
  turn :
      (fuel : ℕ) (f : Frame) (s : S) (l : Bytes) (lone : Bool) (rest' : Bytes)
      → (lone && starts_with_lf rest') ≡ false
      → ((g : Frame) (s' : S)
          → g.done ≡ false
          → settle S E deliver (
              scan S E deliver
                (λ x. x)
                fuel
                (record g { skip_lf = lone && is_empty rest' })
                s'
                rest')
            ≡ settle S E deliver (
                steps S E deliver
                  (record g { buffer = []; skip_lf = lone && is_empty rest' })
                  s'
                  rest'))
      → settle S E deliver (
          after_scan fuel rest'
            (take_line S E deliver (λ x. x) (record f { skip_lf = lone && is_empty rest' }) s l))
        ≡ settle S E deliver (
            and_then S E deliver
              (take_line S E deliver (λ x. x) (record f { buffer = []; skip_lf = lone }) s l)
              (λ f' s'. steps S E deliver f' s' rest'))
  unfolding after_scan and_then
  turn fuel f s l lone rest' k ih =
      let b = lone && is_empty rest' in
      elim (Result-cases (take_line S E deliver (λ x. x) f s l)) [
        | inr (e, q) ↦
            rw (line-other S E deliver f s l f.buffer b, line-other S E deliver f s l [] lone, q)
              refl
        | inl ((g, s'), q) ↦
            rw (line-other S E deliver f s l f.buffer b, line-other S E deliver f s l [] lone, q)
              (elim (Bool-cases g.done) [
                | inl ends ↦
                    ap
                      (λ d. settle S E deliver (
                        if d
                        then ok (record g { buffer = rest'; skip_lf = b }, s')
                        else scan S E deliver (λ x. x) fuel
                            (record g { buffer = f.buffer; skip_lf = b }) s' rest'))
                      ends
                    ∙ settled (record g { buffer = rest'; skip_lf = b }) s' ends
                    ∙ sym (
                        ap (settle S E deliver) (
                          steps-done S E deliver (record g { buffer = []; skip_lf = lone }) s' rest'
                            ends)
                        ∙ settled (record g { buffer = []; skip_lf = lone }) s' ends)
                | inr goes_on ↦
                    ap
                      (λ d. settle S E deliver (
                        if d
                        then ok (record g { buffer = rest'; skip_lf = b }, s')
                        else scan S E deliver (λ x. x) fuel
                            (record g { buffer = f.buffer; skip_lf = b }) s' rest'))
                      goes_on
                    ∙ ih (record g { buffer = f.buffer }) s' goes_on
                    ∙ ap (settle S E deliver) (steps-mark g s' lone rest' goes_on k)
              ])
      ]

  mark_at_end :
      (lone : Bool) (rest : Bytes) → ((lone && is_empty rest) && not (is_empty rest)) ≡ false
  mark_at_end lone rest = ground arith

  -- Where reading the clock has no effect: from a frame that is not done and has no mark for a line feed
  -- unless nothing follows, with at least as much fuel as there are bytes, the loop over the lines of
  -- the buffer hands over the same messages
  -- to the same effect as a machine that reads the buffer byte by byte, and leaves the same frame
  -- unless the stream is then done.
  pub scan-steps :
      (fuel : ℕ) (f : Frame) (s : S) (rest : Bytes)
      → f.done ≡ false
      → (f.skip_lf && not (is_empty rest)) ≡ false
      → length rest ≤ fuel
      → settle S E deliver (scan S E deliver (λ x. x) fuel f s rest)
        ≡ settle S E deliver (steps S E deliver (record f { buffer = [] }) s rest)
  unfolding scan steps after_line
  scan-steps zero f s [] h k n = refl
  scan-steps (suc fuel) f s [] h k n = refl
  scan-steps zero f s (c ∷ t) h k n = absurd (omega arith)
  scan-steps (suc fuel) f s (c ∷ t) h k n =
      let mark : f.skip_lf ≡ false = ground arith in
      let rest = c ∷ t in
      let unmarked =
        ap
          (λ b.
            settle S E deliver (steps S E deliver (record f { buffer = []; skip_lf = b }) s rest))
          mark
        ∙ steps-line S E deliver f s [] rest h in
      elim (Option-cases (next_line rest)) [
        | inl no_line ↦
            ap (settle S E deliver) (scan-end fuel f s rest no_line)
            ∙ ap (λ b. settle S E deliver (ok (record f { buffer = rest; skip_lf = b }, s))) mark
            ∙ sym (
                unmarked
                ∙ ap (λ o. settle S E deliver (after_line S E deliver f s [] rest o)) no_line)
        | inr ((l, lone, rest'), q) ↦
            let (shorter, no_lf) = subst (IsRest rest) q (IsRest-next_line rest) in
            ap (settle S E deliver) (scan-line fuel f s rest l lone rest' q)
            ∙ turn fuel f s l lone rest' no_lf (λ g s' goes_on.
              scan-steps fuel (record g { skip_lf = lone && is_empty rest' }) s' rest' goes_on
                (mark_at_end lone rest') (omega (arith, shorter)))
            ∙ sym (unmarked ∙ ap (λ o. settle S E deliver (after_line S E deliver f s [] rest o)) q)
      ]
