-- ===== src/Streaming/Invariants.antt =====
-- What holds of the parser whatever chunks come.
use inference_perf.Prelude.{
  ℕ, zero, suc, ◌≡◌, ◌⊎◌, refl, ◌&&◌, List, [], ◌∷◌, ◌++◌, Result, ok, err, is_empty, length,
  Bool-cases, Option-cases, inl, inr,
}
use mathlib.Core.Path.{subst}
use inference_perf.Streaming.Framing.{
  Bytes, Frame, next_line, is_done_mark, is_fresh, single_message, hand_over, take_line, scan,
  drop_lf, fall_back, take_chunk, take_chunks, join_lines,
}

-- A property of what a call leaves, if it raises nothing.
abbrev pub After {ℓ} : {E A : Type ℓ} → (A → Type ℓ) → Result E A → Type ℓ
After P (err e) = Unit
After P (ok a) = P a

pub Result-cases {ℓ} :
    {E A : Type ℓ} (x : Result E A) → ((a : A) × (x ≡ ok a)) ⊎ ((e : E) × (x ≡ err e))
Result-cases (ok a) = inl (a, refl)
Result-cases (err e) = inr (e, refl)

pub After-ok {ℓ} :
    {E A : Type ℓ} (P : A → Type ℓ) (x : Result E A) (a : A) → After P x → x ≡ ok a → P a
After-ok P x a h q = subst (After P) q h

module _ (S E : Type 0) (deliver : S → Bytes → Result E S) (read_clock : S → S) (P : S → Type 0)
    (delivers : (s : S) (m : Bytes) → P s → After P (deliver s m))
    (reads : (s : S) → P s → P (read_clock s)) where
  abbrev Kept : Result E (Frame × S) → Type 0
  Kept = After (λ r. P r.1)

  hand_over-After :
      (f : Frame) (s : S) (m : Bytes) → P s → Kept (hand_over S E deliver read_clock f s m)
  unfolding hand_over
  hand_over-After f s m p = elim (Bool-cases (is_done_mark m)) [
    | inl ends ↦ rw ends p
    | inr goes_on ↦ elim (Result-cases (deliver s m)) [
      | inl (s', q) ↦ rw (goes_on, q) (After-ok P (deliver s m) s' (delivers s m p) q)
      | inr (e, q) ↦ rw (goes_on, q) tt
    ]
  ]

  take_line-After :
      (f : Frame) (s : S) (line : Bytes) → P s → Kept (take_line S E deliver read_clock f s line)
  unfolding take_line
  take_line-After f s (c ∷ line) p = p
  take_line-After f s [] p = elim (Bool-cases (is_empty f.data_lines)) [
    | inl none_yet ↦ rw none_yet p
    | inr some_yet ↦ rw some_yet (
        hand_over-After (record f { data_lines = [] }) (read_clock s) (join_lines f.data_lines)
          (reads s p))
  ]

  scan-After :
      (fuel : ℕ) (f : Frame) (s : S) (rest : Bytes)
      → P s
      → Kept (scan S E deliver read_clock fuel f s rest)
  unfolding scan
  scan-After zero f s rest p = p
  scan-After (suc fuel) f s rest p = elim (Option-cases (next_line rest)) [
    | inl no_line ↦ rw (scan, no_line) p
    | inr ((line, lone, rest'), found) ↦
        let g : Frame = record f { skip_lf = lone && is_empty rest' } in
        elim (Result-cases (take_line S E deliver read_clock g s line)) [
          | inr (e, q) ↦ rw (scan, found, q) tt
          | inl ((f', s'), q) ↦
              let p' =
                After-ok (λ r. P r.1) (take_line S E deliver read_clock g s line) (f', s')
                  (take_line-After g s line p) q in
              elim (Bool-cases f'.done) [
                | inl ends ↦ rw (scan, found, q, ends) p'
                | inr goes_on ↦ rw (scan, found, q) (simp goes_on (scan-After fuel f' s' rest' p'))
              ]
        ]
  ]

  take_chunk-After :
      (f : Frame) (s : S) (chunk : Bytes) → P s → Kept (take_chunk S E deliver read_clock f s chunk)
  unfolding take_chunk fall_back
  take_chunk-After f s chunk p =
      let slow =
        scan-After (length (drop_lf S E deliver read_clock f.skip_lf (f.buffer ++ chunk)))
          (record f { skip_lf = f.skip_lf && is_empty (f.buffer ++ chunk) }) s
          (drop_lf S E deliver read_clock f.skip_lf (f.buffer ++ chunk)) p in
      elim (Bool-cases (is_fresh S E deliver read_clock f chunk)) [
        | inr old ↦ rw old slow
        | inl fresh ↦ elim (Option-cases (single_message chunk)) [
          | inl several ↦ rw (fresh, several) slow
          | inr (m, single) ↦ rw (fresh, single) (hand_over-After f s m p)
        ]
      ]

  -- A property that every message and every reading of the clock keep holds at the end of the stream.
  pub take_chunks-After :
      (f : Frame) (s : S) (raw chunks : List Bytes)
      → P s
      → After (λ r. P r.1) (take_chunks S E deliver read_clock f s raw chunks)
  unfolding take_chunks
  take_chunks-After f s raw [] p = p
  take_chunks-After f s raw (chunk ∷ chunks) p =
      let kept = raw ++ chunk ∷ [] in
      elim (Bool-cases f.done) [
        | inl ends ↦ simp ends (take_chunks-After f s kept chunks p)
        | inr goes_on ↦
            elim (Result-cases (take_chunk S E deliver read_clock f (read_clock s) chunk)) [
              | inr (e, q) ↦ rw q (simp goes_on tt)
              | inl ((f', s'), q) ↦ rw q (
                  simp goes_on (
                    take_chunks-After f' s' kept chunks (
                      After-ok (λ r. P r.1)
                        (take_chunk S E deliver read_clock f (read_clock s) chunk) (f', s')
                        (take_chunk-After f (read_clock s) chunk (reads s p)) q)))
            ]
      ]
