-- ===== src/Breaker/Tests.antt =====
-- Runs of the triggers and the breaker, and the theorems at concrete inputs.
use inference_perf.Prelude.{
  ℕ, ◌*◌, ◌≡◌, refl, ◌↔◌, true, ◌||◌, none, some, List, [], ◌∷◌, leb, nat_beq, arith,
}
use inference_perf.Breaker.Trigger.{
  Floats, HitSample, consecutive, consecutive_init, consecutive_update, window_init, window_update,
  evict, rate_of, crosses, update, fired,
}
use inference_perf.Breaker.Trigger.Runs.{HasRun, consecutive_updates, fired_iff_HasRun}
use inference_perf.Breaker.Trigger.Window.{recent, window_updates, window_decides}
use inference_perf.Breaker.Circuit.{
  Config, CircuitBreaker, init, search_any, hit_of, feed, reset, is_open, Registry, feed_triggers,
  add_all, init_circuit_breakers, get_circuit_breaker,
}
use inference_perf.Breaker.Circuit.Opening.{
  feeds, some_fired, is_open-eq-some_fired, samples, is_open_iff_HasRun, feed-reset_reopens,
}
use inference_perf.Breaker.Circuit.Registry.{
  last_named, feed_all, expected, built, get-feed_all-init,
}

-- Fractions of natural numbers stand for floats.
abbrev fractions : Floats
fractions = record {
  Float = ℕ × ℕ;
  zero_float = (0, 1);
  div = λ a b. (a, b);
  le_float = λ p q. leb (p.0 * q.1) (q.0 * p.1);
}

abbrev at_time : ℕ → ℕ → HitSample
at_time t h = record { ts = t; hit = h }

abbrev history : List HitSample
history = at_time 1 1 ∷ at_time 2 0 ∷ at_time 3 1 ∷ at_time 4 1 ∷ []

fired_iff_HasRun_example :
    ((consecutive_updates (consecutive_init 2) history).has_fired ≡ true) ↔ HasRun 2 history
fired_iff_HasRun_example = fired_iff_HasRun 2 history (omega arith)

-- Half of the samples of the last two ticks are hits.
abbrev earlier : List HitSample
earlier = at_time 1 1 ∷ at_time 2 0 ∷ at_time 3 1 ∷ []

window_decides_example :
    ((window_updates fractions (window_init fractions 2 (2, 3) 2) history).buf ≡ recent 2 4 history)
    × ((window_updates fractions (window_init fractions 2 (2, 3) 2) history).has_fired ≡ (
        (window_updates fractions (window_init fractions 2 (2, 3) 2) earlier).has_fired
        || crosses fractions (window_init fractions 2 (2, 3) 2) (recent 2 4 history)))
window_decides_example = window_decides fractions 2 (2, 3) 2 earlier (at_time 4 1) (omega arith)

window_fires :
    (window_updates fractions (window_init fractions 2 (2, 3) 2) history).has_fired ≡ true
unfolding window_updates window_update window_init evict crosses rate_of
window_fires = refl

-- A metric is a number: 3 and more match, and 5 is a hit.
abbrev config : Config fractions ℕ
config = record {
  name = "errors";
  matches = (λ m. some (leb 3 m)) ∷ [];
  rules = (λ m. some (nat_beq m 5)) ∷ [];
  triggers = consecutive (consecutive_init 2) ∷ [];
}

abbrev metrics : List (ℕ × ℕ)
metrics = (1, 5) ∷ (2, 1) ∷ (3, 5) ∷ []

opens : is_open fractions ℕ (feeds fractions ℕ (init fractions ℕ config) metrics) ≡ true
unfolding is_open feeds init feed search_any hit_of feed_triggers update fired consecutive_update
    consecutive_init
opens = refl

is_open-eq-some_fired_example :
    is_open fractions ℕ (feeds fractions ℕ (init fractions ℕ config) metrics)
    ≡ some_fired fractions ℕ (feeds fractions ℕ (init fractions ℕ config) metrics).triggers
unfolding fired consecutive_init
is_open-eq-some_fired_example = is_open-eq-some_fired fractions ℕ config metrics refl

is_open_iff_HasRun_example :
    (is_open fractions ℕ (feeds fractions ℕ (init fractions ℕ config) metrics) ≡ true)
    ↔ HasRun 2 (samples fractions ℕ config.matches config.rules metrics)
is_open_iff_HasRun_example = is_open_iff_HasRun fractions ℕ config 2 metrics (omega arith) refl

abbrev tripped : CircuitBreaker fractions ℕ
tripped = feeds fractions ℕ (init fractions ℕ config) metrics

feed-reset_reopens_example :
    is_open fractions ℕ (feed fractions ℕ 9 4 (reset fractions ℕ tripped)) ≡ true
unfolding feeds init feed search_any hit_of feed_triggers update fired consecutive_update
    consecutive_init
feed-reset_reopens_example = feed-reset_reopens fractions ℕ tripped 9 4 refl refl

abbrev registry : Registry fractions ℕ
registry = add_all fractions ℕ [] (config ∷ [])

get-feed_all-init_example :
    get_circuit_breaker fractions ℕ (feed_all fractions ℕ registry metrics) "errors"
    ≡ expected fractions ℕ "errors" metrics
        (built fractions ℕ (last_named fractions ℕ "errors" (config ∷ [])) none)
unfolding init_circuit_breakers
get-feed_all-init_example =
    get-feed_all-init fractions ℕ (config ∷ []) registry metrics "errors" refl
