-- ===== src/Load/Teardown/Ends.antt =====
-- The wait of a teardown ends.
use inference_perf.Prelude.{
  ℕ, suc, ◌+◌, ◌-◌, ◌≤◌, ◌≡◌, ◌⊎◌, refl, inl, inr, some, List, [], ◌∷◌, length, leb, arith,
  Bool-cases,
}
use inference_perf.Load.Teardown.{View, graceful, forcing, Ending, clean, forced, wait}

-- The clock of each round is later than that of the round before; the first is at least `t`.
abbrev pub Ticks : ℕ → List View → Type 0
Ticks t [] = Unit
Ticks t (v ∷ views) = (t ≤ v.now) × Ticks (suc v.now) views

List-cases : (xs : List ℕ) → (xs ≡ []) ⊎ ((x : ℕ) × (rest : List ℕ) × (xs ≡ x ∷ rest))
List-cases [] = inl refl
List-cases (x ∷ rest) = inr (x, rest, refl)

module _ (grace_deadline reap : ℕ) where
  wait-forcing :
      (deadline t : ℕ) (views : List View)
      → Ticks t views
      → deadline - t + 1 ≤ length views
      → (ending : Ending) × (wait grace_deadline reap (forcing deadline) views ≡ some ending)
  unfolding wait
  wait-forcing deadline t [] c h = absurd (omega arith)
  wait-forcing deadline t (v ∷ views) (le, later) h = elim (List-cases v.pending) [
    | inl e ↦ (clean, rw (wait, e) refl)
    | inr (w, ws, e) ↦ elim (Bool-cases (leb deadline v.now)) [
      | inl over ↦ (forced (w ∷ ws), rw (wait, e, over) refl)
      | inr before ↦
          let (ending, q) = wait-forcing deadline (suc v.now) views later (ground arith) in
          (ending, rw (wait, e, before) q)
    ]
  ]

  -- The wait of a teardown ends, whatever the workers do: if the clock moves by a tick or more in each
  -- round, it ends within the ticks up to the grace deadline, those that forced workers are given, and
  -- two rounds.
  pub wait_ends :
      (t : ℕ) (views : List View)
      → Ticks t views
      → grace_deadline - t + reap + 2 ≤ length views
      → (ending : Ending) × (wait grace_deadline reap graceful views ≡ some ending)
  unfolding wait
  wait_ends t [] c h = absurd (omega arith)
  wait_ends t (v ∷ views) (le, later) h = elim (List-cases v.pending) [
    | inl e ↦ (clean, rw (wait, e) refl)
    | inr (w, ws, e) ↦ elim (Bool-cases (leb grace_deadline v.now)) [
      | inl over ↦
          let (ending, q) = wait-forcing (v.now + reap) (suc v.now) views later (omega arith) in
          (ending, rw (wait, e, over) q)
      | inr before ↦
          let (ending, q) = wait_ends (suc v.now) views later (ground arith) in
          (ending, rw (wait, e, before) q)
    ]
  ]
