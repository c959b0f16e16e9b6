-- ===== src/Streaming/Machine.antt =====
-- The framing of a stream as a machine that reads one byte at a time.
use inference_perf.Prelude.{
  ℕ, ◌≡◌, inl, inr, refl, ap, sym, ◌∙◌, Bool, true, false, ◌&&◌, Option, none, some, [], ◌∷◌, ◌++◌,
  Result, ok, err, is_empty, append_assoc, append-nil, nat_beq, if◌then◌else◌, arith, Bool-cases,
}
use inference_perf.Prelude.Text.{text_beq, before_colon, codes}
use inference_perf.Streaming.Framing.{
  Bytes, Frame, next_line, take_line, take_field, hand_over, is_done_mark, join_lines,
}
use inference_perf.Streaming.Invariants.{Result-cases}

module _ (S E : Type 0) (deliver : S → Bytes → Result E S) where
  abbrev Outcome : Type 0
  Outcome = Result E (Frame × S)

  abbrev line : Frame → S → Bytes → Outcome
  line f s l = take_line S E deliver (λ x. x) f s l

  unfoldable pub and_then : Outcome → (Frame → S → Outcome) → Outcome
  and_then (err e) k = err e
  and_then (ok (f, s)) k = k f s

  -- One byte. Once the stream is done the machine stands still.
  unfoldable pub step : Frame → S → ℕ → Outcome
  step f s c =
      if f.done
      then ok (f, s)
      else if f.skip_lf && nat_beq c b'\n'
      then ok (record f { skip_lf = false }, s)
      else if nat_beq c b'\n'
      then line (record f { buffer = []; skip_lf = false }) s f.buffer
      else if nat_beq c b'\r'
      then line (record f { buffer = []; skip_lf = true }) s f.buffer
      else ok (record f { buffer = f.buffer ++ c ∷ []; skip_lf = false }, s)

  unfoldable pub steps : Frame → S → Bytes → Outcome
  steps f s [] = ok (f, s)
  steps f s (c ∷ t) = and_then (step f s c) (λ f' s'. steps f' s' t)

  -- What is left of a frame once the stream is done is forgotten.
  unfoldable pub settle : Outcome → Outcome
  settle (err e) = err e
  settle (ok (f, s)) =
      if f.done
      then ok (record { buffer = []; data_lines = []; skip_lf = false; done = true }, s)
      else ok (f, s)

  step-done : (f : Frame) (s : S) (c : ℕ) → f.done ≡ true → step f s c ≡ ok (f, s)
  unfolding step
  step-done f s c h = simp h

  pub steps-done : (f : Frame) (s : S) (t : Bytes) → f.done ≡ true → steps f s t ≡ ok (f, s)
  unfolding steps step and_then
  steps-done f s [] h = refl
  steps-done f s (c ∷ t) h =
      ap (λ o. and_then o (λ f' s'. steps f' s' t)) (step-done f s c h) ∙ steps-done f s t h

  -- A line does not read the buffer or the mark for a line feed, and leaves them.
  pub line-other :
      (f : Frame) (s : S) (l : Bytes) (u : Bytes) (b : Bool)
      → line (record f { buffer = u; skip_lf = b }) s l
        ≡ and_then (line f s l) (λ f' s'. ok (record f' { buffer = u; skip_lf = b }, s'))
  unfolding take_line hand_over take_field and_then
  line-other f s (c ∷ l) u b = elim (Bool-cases (text_beq (before_colon (c ∷ l)) (codes "data"))) [
    | inl field ↦ rw field refl
    | inr other ↦ rw other refl
  ]
  line-other f s [] u b = elim (Bool-cases (is_empty f.data_lines)) [
    | inl none_yet ↦ rw none_yet refl
    | inr some_yet ↦ elim (Bool-cases (is_done_mark (join_lines f.data_lines))) [
      | inl ends ↦ rw (some_yet, ends) refl
      | inr goes_on ↦ elim (Result-cases (deliver s (join_lines f.data_lines))) [
        | inl (s', q) ↦ rw (some_yet, goes_on, q) refl
        | inr (e, q) ↦ rw (some_yet, goes_on, q) refl
      ]
    ]
  ]

  -- What the machine has done after the bytes of which `found` is the first line.
  unfoldable pub after_line :
      Frame → S → (acc rest : Bytes) → Option (Bytes × Bool × Bytes) → Outcome
  after_line f s acc rest none = ok (record f { buffer = acc ++ rest; skip_lf = false }, s)
  after_line f s acc rest (some (l, lone, rest')) =
      and_then (line (record f { buffer = []; skip_lf = lone }) s (acc ++ l))
        (λ f' s'. steps f' s' rest')

  pub same_settled :
      (g : Frame) (s : S) (b c : Bool)
      → g.done ≡ true
      → settle (ok (record g { buffer = []; skip_lf = b }, s))
        ≡ settle (ok (record g { buffer = []; skip_lf = c }, s))
  unfolding settle
  same_settled g s b c h = rw h refl

  step-swallowed :
      (g : Frame) (s : S)
      → g.done ≡ false
      → step (record g { buffer = []; skip_lf = true }) s b'\n'
        ≡ ok (record g { buffer = []; skip_lf = false }, s)
  unfolding step
  step-swallowed g s h = simp h

  swallow :
      (g : Frame) (s : S) (t : Bytes)
      → settle (steps (record g { buffer = []; skip_lf = true }) s (b'\n' ∷ t))
        ≡ settle (steps (record g { buffer = []; skip_lf = false }) s t)
  unfolding steps and_then
  swallow g s t = elim (Bool-cases g.done) [
    | inl ends ↦
        ap settle (steps-done (record g { buffer = []; skip_lf = true }) s (b'\n' ∷ t) ends)
        ∙ same_settled g s true false ends
        ∙ sym (ap settle (steps-done (record g { buffer = []; skip_lf = false }) s t ends))
    | inr goes_on ↦
        ap (λ o. settle (and_then o (λ f' s'. steps f' s' t))) (step-swallowed g s goes_on)
  ]

  -- A line feed after a carriage return changes nothing but the mark for it.
  steps-lf :
      (f : Frame) (s : S) (l t : Bytes)
      → settle (
          and_then
            (line (record f { buffer = []; skip_lf = true }) s l)
            (λ f' s'. steps f' s' (b'\n' ∷ t)))
        ≡ settle (
            and_then
              (line (record f { buffer = []; skip_lf = false }) s l)
              (λ f' s'. steps f' s' t))
  unfolding and_then settle
  steps-lf f s l t = elim (Result-cases (line f s l)) [
    | inr (e, q) ↦ rw (line-other f s l [] true, line-other f s l [] false, q) refl
    | inl ((g, s'), q) ↦
        rw (line-other f s l [] true, line-other f s l [] false, q) (swallow g s' t)
  ]

  step-lf :
      (f : Frame) (s : S) (acc : Bytes) (c : ℕ)
      → f.done ≡ false
      → nat_beq c b'\n' ≡ true
      → step (record f { buffer = acc; skip_lf = false }) s c
        ≡ line (record f { buffer = []; skip_lf = false }) s acc
  unfolding step
  step-lf f s acc c h q = simp (h, q)

  step-cr :
      (f : Frame) (s : S) (acc : Bytes) (c : ℕ)
      → f.done ≡ false
      → nat_beq c b'\n' ≡ false
      → nat_beq c b'\r' ≡ true
      → step (record f { buffer = acc; skip_lf = false }) s c
        ≡ line (record f { buffer = []; skip_lf = true }) s acc
  unfolding step
  step-cr f s acc c h q q' = simp (h, q, q')

  step-other :
      (f : Frame) (s : S) (acc : Bytes) (c : ℕ)
      → f.done ≡ false
      → nat_beq c b'\n' ≡ false
      → nat_beq c b'\r' ≡ false
      → step (record f { buffer = acc; skip_lf = false }) s c
        ≡ ok (record f { buffer = acc ++ c ∷ []; skip_lf = false }, s)
  unfolding step
  step-other f s acc c h q q' = simp (h, q, q')

  and_steps : Outcome → Bytes → Outcome
  and_steps o t = and_then o (λ f s. steps f s t)

  -- What a byte at the start of the rest makes of the first line, if it ends no line.
  later_line :
      (f : Frame) (s : S) (acc : Bytes) (c : ℕ) (t : Bytes) (found : Option (Bytes × Bool × Bytes))
      → after_line f s (acc ++ c ∷ []) t found
        ≡ after_line f s acc
            (c ∷ t)
            (elim found [ none ↦ none | some (l, lone, rest) ↦ some (c ∷ l, lone, rest) ])
  unfolding after_line
  later_line f s acc c t none = rw (append_assoc acc (c ∷ []) t) refl
  later_line f s acc c t (some (l, lone, rest)) = rw (append_assoc acc (c ∷ []) l) refl

  is_lf : (d : ℕ) → nat_beq d b'\n' ≡ true → d ≡ b'\n'
  is_lf d h = ground arith

  -- From a frame that is not done, the machine does what the first line asks for.
  pub steps-line :
      (f : Frame) (s : S) (acc rest : Bytes)
      → f.done ≡ false
      → settle (steps (record f { buffer = acc; skip_lf = false }) s rest)
        ≡ settle (after_line f s acc rest (next_line rest))
  unfolding steps and_then after_line next_line and_steps
  steps-line f s acc [] h = rw (append-nil acc) refl
  steps-line f s acc (c ∷ []) h = elim (Bool-cases (nat_beq c b'\n')) [
    | inl lf ↦
        ap (λ o. settle (and_steps o [])) (step-lf f s acc c h lf) ∙ rw (lf, append-nil acc) refl
    | inr no_lf ↦ elim (Bool-cases (nat_beq c b'\r')) [
      | inl cr ↦
          ap (λ o. settle (and_steps o [])) (step-cr f s acc c h no_lf cr)
          ∙ rw (no_lf, cr, append-nil acc) refl
      | inr other ↦
          ap (λ o. settle (and_steps o [])) (step-other f s acc c h no_lf other)
          ∙ rw (no_lf, other) refl
    ]
  ]
  steps-line f s acc (c ∷ d ∷ t) h = elim (Bool-cases (nat_beq c b'\n')) [
    | inl lf ↦
        ap (λ o. settle (and_steps o (d ∷ t))) (step-lf f s acc c h lf)
        ∙ rw (lf, append-nil acc) refl
    | inr no_lf ↦ elim (Bool-cases (nat_beq c b'\r')) [
      | inl cr ↦
          ap (λ o. settle (and_steps o (d ∷ t))) (step-cr f s acc c h no_lf cr)
          ∙ elim (Bool-cases (nat_beq d b'\n')) [
            | inl pair ↦
                ap
                  (λ x.
                    settle
                      (and_steps (line (record f { buffer = []; skip_lf = true }) s acc) (x ∷ t)))
                  (is_lf d pair)
                ∙ steps-lf f s acc t
                ∙ rw (no_lf, cr, pair, append-nil acc) refl
            | inr lone ↦ rw (no_lf, cr, lone, append-nil acc) refl
          ]
      | inr other ↦
          ap (λ o. settle (and_steps o (d ∷ t))) (step-other f s acc c h no_lf other)
          ∙ steps-line f s (acc ++ c ∷ []) (d ∷ t) h
          ∙ ap settle (later_line f s acc c (d ∷ t) (next_line (d ∷ t)))
          ∙ rw (no_lf, other) refl
    ]
  ]
