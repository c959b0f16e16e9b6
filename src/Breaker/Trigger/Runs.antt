-- ===== src/Breaker/Trigger/Runs.antt =====
-- The `Consecutive` trigger against runs of hits in the history of its samples.
use inference_perf.Prelude.{
  ℕ, suc, ◌+◌, ◌≤◌, ◌<◌, ◌≡◌, refl, ap, sym, ◌∙◌, ◌↔◌, ◌⊎◌, inl, inr, true, false, List, [], ◌∷◌,
  ◌++◌, append_assoc, All, length, length-append, arith, Bool-cases, leb,
}
use inference_perf.Breaker.Trigger.{
  HitSample, is_hit, Consecutive, consecutive_init, consecutive_update,
}

-- The samples of a history, oldest first.
unfoldable pub consecutive_updates : Consecutive → List HitSample → Consecutive
consecutive_updates t [] = t
consecutive_updates t (s ∷ ss) = consecutive_updates (consecutive_update t s) ss

abbrev pub AllHits : List HitSample → Type 0
AllHits = All (λ s. is_hit s ≡ true)

-- At least `n` hits in a row, with nothing between them.
pub record HasRun (n : ℕ) (history : List HitSample) : Type 0 where
  pub before : List HitSample
  pub run : List HitSample
  pub after : List HitSample
  pub split : history ≡ before ++ (run ++ after)
  pub hits : AllHits run
  pub long : n ≤ length run

AllHits-snoc :
    (xs : List HitSample) (s : HitSample) → AllHits xs → is_hit s ≡ true → AllHits (xs ++ s ∷ [])
AllHits-snoc [] s h e = (e, tt)
AllHits-snoc (x ∷ xs) s h e = (h.0, AllHits-snoc xs s h.1 e)

HasRun-prepend :
    {n : ℕ} {xs : List HitSample} (pre : List HitSample) → HasRun n xs → HasRun n (pre ++ xs)
HasRun-prepend pre r = record {
  before = pre ++ r.before;
  run = r.run;
  after = r.after;
  split = ap (◌++◌ pre) r.split ∙ sym (append_assoc pre r.before (r.run ++ r.after));
  hits = r.hits;
  long = r.long;
}

updates-append :
    (t : Consecutive) (xs ys : List HitSample)
    → consecutive_updates t (xs ++ ys) ≡ consecutive_updates (consecutive_updates t xs) ys
unfolding consecutive_updates
updates-append t [] ys = refl
updates-append t (x ∷ xs) ys = updates-append (consecutive_update t x) xs ys

updates_n : (t : Consecutive) (xs : List HitSample) → (consecutive_updates t xs).n ≡ t.n
unfolding consecutive_updates consecutive_update
updates_n t [] = refl
updates_n t (x ∷ xs) = updates_n (consecutive_update t x) xs

updates_sticky :
    (t : Consecutive) (xs : List HitSample)
    → t.has_fired ≡ true
    → (consecutive_updates t xs).has_fired ≡ true
unfolding consecutive_updates consecutive_update
updates_sticky t [] h = h
updates_sticky t (x ∷ xs) h = updates_sticky (consecutive_update t x) xs (ground arith)

updates_run :
    (t : Consecutive) (x : HitSample) (xs : List HitSample)
    → AllHits (x ∷ xs)
    → t.n ≤ t.c + suc (length xs)
    → (consecutive_updates t (x ∷ xs)).has_fired ≡ true
unfolding consecutive_updates consecutive_update
updates_run t x [] h le = ground arith
updates_run t x (y ∷ ys) h le = updates_run (consecutive_update t x) y ys h.1 (ground arith)

fires_of_hits :
    (t : Consecutive) (run after : List HitSample)
    → 0 < t.n
    → AllHits run
    → t.n ≤ length run
    → (consecutive_updates t (run ++ after)).has_fired ≡ true
fires_of_hits t [] after pos h le = absurd (omega arith)
fires_of_hits t (x ∷ xs) after pos h le =
    rw (updates-append t (x ∷ xs) after)
      (updates_sticky (consecutive_updates t (x ∷ xs)) after (updates_run t x xs h (omega arith)))

fires_of_run :
    (t : Consecutive) (xs : List HitSample)
    → 0 < t.n
    → HasRun t.n xs
    → (consecutive_updates t xs).has_fired ≡ true
fires_of_run t xs pos r =
    rw (r.split, updates-append t r.before (r.run ++ r.after))
      (fires_of_hits (consecutive_updates t r.before) r.run r.after
        (omega (arith, updates_n t r.before)) r.hits (rw (updates_n t r.before) r.long))

module _ (t : Consecutive) (trail : List HitSample) (x : HitSample) (xs : List HitSample)
    (trail_hits : AllHits trail) (counted : t.c ≡ length trail) where
  run_step_hit :
      is_hit x ≡ true
      → ((consecutive_update t x).has_fired ≡ true) ⊎ HasRun t.n ((trail ++ x ∷ []) ++ xs)
      → (t.has_fired ≡ true) ⊎ HasRun t.n (trail ++ x ∷ xs)
  unfolding consecutive_update
  run_step_hit hit (inr r) = inr (rw append_assoc at r)
  run_step_hit hit (inl f) = elim (Bool-cases (leb t.n (t.c + 1))) [
    | inl enough ↦ inr (record {
      before = [];
      run = trail ++ x ∷ [];
      after = xs;
      split = sym (append_assoc trail (x ∷ []) xs);
      hits = AllHits-snoc trail x trail_hits hit;
      long = ground (arith, length-append trail (x ∷ []));
    })
    | inr few ↦ inl (ground arith)
  ]

  run_step_miss :
      0 < t.n
      → is_hit x ≡ false
      → ((consecutive_update t x).has_fired ≡ true) ⊎ HasRun t.n xs
      → (t.has_fired ≡ true) ⊎ HasRun t.n (trail ++ x ∷ xs)
  unfolding consecutive_update
  run_step_miss pos miss (inl f) = inl (ground arith)
  run_step_miss pos miss (inr r) = inr (rw append_assoc at (HasRun-prepend (trail ++ x ∷ []) r))

run_of_fires :
    (t : Consecutive) (trail xs : List HitSample)
    → 0 < t.n
    → AllHits trail
    → t.c ≡ length trail
    → (consecutive_updates t xs).has_fired ≡ true
    → (t.has_fired ≡ true) ⊎ HasRun t.n (trail ++ xs)
unfolding consecutive_updates consecutive_update
run_of_fires t trail [] pos h c f = inl f
run_of_fires t trail (x ∷ xs) pos h c f = elim (Bool-cases (is_hit x)) [
  | inl hit ↦ run_step_hit t trail x xs h c hit (
      run_of_fires (consecutive_update t x) (trail ++ x ∷ []) xs pos (AllHits-snoc trail x h hit)
        (ground (arith, length-append trail (x ∷ []))) f)
  | inr miss ↦
      run_step_miss t trail x xs h c pos miss
        (run_of_fires (consecutive_update t x) [] xs pos tt (ground arith) f)
]

-- The trigger has fired exactly when the samples since its construction hold a run of at least
-- `threshold` consecutive hits, for a positive threshold.
pub fired_iff_HasRun :
    (threshold : ℕ) (history : List HitSample)
    → 0 < threshold
    → ((consecutive_updates (consecutive_init threshold) history).has_fired ≡ true)
      ↔ HasRun threshold history
unfolding consecutive_init
fired_iff_HasRun threshold history pos = (
  λ f. never_fired (run_of_fires (consecutive_init threshold) [] history pos tt refl f),
  fires_of_run (consecutive_init threshold) history pos,
)
  where
    never_fired : (false ≡ true) ⊎ HasRun threshold history → HasRun threshold history
    never_fired (inl e) = cc
    never_fired (inr r) = r
