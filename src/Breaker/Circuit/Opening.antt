-- ===== src/Breaker/Circuit/Opening.antt =====
-- When a breaker is open: its flag against its triggers, and against the hits of its history.
use inference_perf.Prelude.{
  ℕ, ◌<◌, ◌≡◌, refl, ap, sym, ◌∙◌, ◌↔◌, Bool, true, false, ◌||◌, List, [], ◌∷◌, any, arith,
  if◌then◌else◌, Bool-cases, inl, inr,
}
use inference_perf.Breaker.Trigger.{
  Floats, HitSample, Trigger, Consecutive, consecutive, rate_over_window, update, fired,
  consecutive_init, consecutive_update, window_update,
}
use inference_perf.Breaker.Trigger.Runs.{HasRun, consecutive_updates, fired_iff_HasRun}
use inference_perf.Breaker.Circuit.{
  Query, Config, CircuitBreaker, init, search_any, feed_triggers, hit_of, feed, reset, is_open,
}

or_false : (b : Bool) → (b || false) ≡ b
or_false b = ground arith

module _ (fl : Floats) (Metric : Type 0) where
  -- The metrics of a run with the times at which they came, oldest first.
  unfoldable pub feeds : CircuitBreaker fl Metric → List (ℕ × Metric) → CircuitBreaker fl Metric
  feeds b [] = b
  feeds b ((now, m) ∷ ms) = feeds (feed fl Metric now m b) ms

  abbrev pub some_fired : List (Trigger fl) → Bool
  some_fired = any (fired fl)

  fired-update :
      (t : Trigger fl) (s : HitSample) → fired fl t ≡ true → fired fl (update fl t s) ≡ true
  unfolding fired update consecutive_update window_update
  fired-update (consecutive t) s h = ground arith
  fired-update (rate_over_window t) s h = ground arith

  some_fired-feed_triggers :
      (ts : List (Trigger fl)) (s : HitSample)
      → (feed_triggers fl ts s).1 ≡ some_fired (feed_triggers fl ts s).0
  unfolding feed_triggers
  some_fired-feed_triggers [] s = refl
  some_fired-feed_triggers (t ∷ ts) s =
      ap (λ b. fired fl (update fl t s) || b) (some_fired-feed_triggers ts s)

  feed_triggers_sticky :
      (ts : List (Trigger fl)) (s : HitSample)
      → some_fired ts ≡ true
      → (feed_triggers fl ts s).1 ≡ true
  unfolding feed_triggers
  feed_triggers_sticky [] s h = h
  feed_triggers_sticky (t ∷ ts) s h = ground (arith, feed_triggers_sticky ts s, fired-update t s)

  module _ (now : ℕ) (m : Metric) (b : CircuitBreaker fl Metric) where
    feed_skipped : search_any fl Metric b.matches m ≡ false → feed fl Metric now m b ≡ b
    unfolding feed
    feed_skipped e = rw e

    feed_matched :
        (t : Consecutive)
        → search_any fl Metric b.matches m ≡ true
        → b.triggers ≡ consecutive t ∷ []
        → feed fl Metric now m b ≡ record b {
          triggers =
              consecutive
                (consecutive_update t (record { ts = now; hit = hit_of fl Metric b.rules m }))
              ∷ [];
          opened =
              if (consecutive_update t
                (record { ts = now; hit = hit_of fl Metric b.rules m })).has_fired
              then true
              else b.opened;
        }
    unfolding feed feed_triggers update fired
    feed_matched t e h = rw (e, h) (ground arith)

  -- The flag agrees with the triggers.
  abbrev IsSettled : CircuitBreaker fl Metric → Type 0
  IsSettled b = b.opened ≡ some_fired b.triggers

  feed-IsSettled :
      (now : ℕ) (m : Metric) (b : CircuitBreaker fl Metric)
      → IsSettled b
      → IsSettled (feed fl Metric now m b)
  unfolding feed
  feed-IsSettled now m b h = elim (Bool-cases (search_any fl Metric b.matches m)) [
    | inr skipped ↦ rw skipped h
    | inl matched ↦
        let s : HitSample = record { ts = now; hit = hit_of fl Metric b.rules m } in
        rw matched
          (ground (arith, some_fired-feed_triggers b.triggers s, feed_triggers_sticky b.triggers s))
  ]

  feeds-IsSettled :
      (b : CircuitBreaker fl Metric) (ms : List (ℕ × Metric)) → IsSettled b → IsSettled (feeds b ms)
  unfolding feeds
  feeds-IsSettled b [] h = h
  feeds-IsSettled b ((now, m) ∷ ms) h =
      feeds-IsSettled (feed fl Metric now m b) ms (feed-IsSettled now m b h)

  -- A breaker that was built with no trigger fired is open, after any metrics, exactly when some
  -- trigger of it has fired.
  pub is_open-eq-some_fired :
      (c : Config fl Metric) (ms : List (ℕ × Metric))
      → some_fired c.triggers ≡ false
      → is_open fl Metric (feeds (init fl Metric c) ms)
        ≡ some_fired (feeds (init fl Metric c) ms).triggers
  unfolding is_open init
  is_open-eq-some_fired c ms h = feeds-IsSettled (init fl Metric c) ms (sym h)

  -- The samples that a breaker's triggers see: one for each metric that matches.
  pub samples : (matches rules : List (Query fl Metric)) → List (ℕ × Metric) → List HitSample
  samples matches rules [] = []
  samples matches rules ((now, m) ∷ ms) =
      let rest = samples matches rules ms in
      if search_any fl Metric matches m
      then record { ts = now; hit = hit_of fl Metric rules m } ∷ rest
      else rest

  feeds-consecutive :
      (ms : List (ℕ × Metric)) (b : CircuitBreaker fl Metric) (t : Consecutive)
      → b.triggers ≡ consecutive t ∷ []
      → (feeds b ms).triggers
        ≡ consecutive (consecutive_updates t (samples b.matches b.rules ms)) ∷ []
  unfolding feeds samples consecutive_updates
  feeds-consecutive [] b t e = e
  feeds-consecutive ((now, m) ∷ ms) b t e = elim (Bool-cases (search_any fl Metric b.matches m)) [
    | inr skipped ↦
        rw (skipped, samples)
          (rw (feed_skipped now m b skipped, feeds) (feeds-consecutive ms b t e))
    | inl matched ↦
        rw (matched, samples)
          (rw (feed_matched now m b t matched e, feeds)
            (feeds-consecutive ms _ (consecutive_update t _) refl))
  ]

  -- A breaker whose only trigger counts consecutive hits is open, after any metrics, exactly when the
  -- metrics that matched hold a run of `threshold` hits, for a positive threshold.
  pub is_open_iff_HasRun :
      (c : Config fl Metric) (threshold : ℕ) (ms : List (ℕ × Metric))
      → 0 < threshold
      → c.triggers ≡ consecutive (consecutive_init threshold) ∷ []
      → (is_open fl Metric (feeds (init fl Metric c) ms) ≡ true)
        ↔ HasRun threshold (samples c.matches c.rules ms)
  unfolding init consecutive_init fired
  is_open_iff_HasRun c threshold ms pos e =
      let t = consecutive_init threshold in
      let history = samples c.matches c.rules ms in
      let iff = fired_iff_HasRun threshold history pos in
      let flag =
        is_open-eq-some_fired c ms (ap some_fired e)
        ∙ ap some_fired (feeds-consecutive ms (init fl Metric c) t e)
        ∙ or_false (consecutive_updates t history).has_fired in
      (λ opened. iff.0 (sym flag ∙ opened), λ run. flag ∙ iff.1 run)

  -- After `reset` a breaker one of whose triggers has fired opens again at the next metric that
  -- matches, whether or not that metric is a hit: `reset` leaves the triggers as they are.
  pub feed-reset_reopens :
      (b : CircuitBreaker fl Metric) (now : ℕ) (m : Metric)
      → some_fired b.triggers ≡ true
      → search_any fl Metric b.matches m ≡ true
      → is_open fl Metric (feed fl Metric now m (reset fl Metric b)) ≡ true
  unfolding feed reset is_open
  feed-reset_reopens b now m f matched = ground (
    arith,
    feed_triggers_sticky b.triggers (record { ts = now; hit = hit_of fl Metric b.rules m }),
  )
