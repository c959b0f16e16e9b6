-- ===== src/Breaker/Circuit/Registry.antt =====
-- The registry of circuit_breaker/__init__.py against the list of configurations that filled it.
use Prim.Native.String.{String}
use inference_perf.Prelude.{
  ℕ, ◌≡◌, refl, ap, ◌∙◌, Option, none, some, List, [], ◌∷◌, arith, if◌then◌else◌, text_key, ◌==◌,
  ok, err, Result,
}
use inference_perf.Prelude.Dict
use inference_perf.Prelude.Dict.{Dict, dict_laws, get-put}
use inference_perf.Breaker.Trigger.{Floats}
use inference_perf.Breaker.Circuit.{
  Config, CircuitBreaker, init, feed, Registry, RegistryError, unknown_breaker, add_all,
  init_circuit_breakers, feed_breakers, get_circuit_breaker,
}
use inference_perf.Breaker.Circuit.Opening.{feeds}

module _ (fl : Floats) (Metric : Type 0) where
  -- The last configuration of a name.
  pub last_named : String → List (Config fl Metric) → Option (Config fl Metric)
  last_named name [] = none
  last_named name (c ∷ cs) = elim (last_named name cs) [
    | some later ↦ some later
    | none ↦ if c.name == name then some c else none
  ]

  -- Metrics fed to every breaker of the registry, oldest first.
  pub feed_all : Registry fl Metric → List (ℕ × Metric) → Registry fl Metric
  feed_all r [] = r
  feed_all r ((now, m) ∷ ms) = feed_all (feed_breakers fl Metric now m r) ms

  -- What a lookup should return: the breaker that `feeds` gives, or the error.
  pub expected :
      String
      → List (ℕ × Metric)
      → Option (CircuitBreaker fl Metric)
      → Result RegistryError (CircuitBreaker fl Metric)
  expected name ms none = err (unknown_breaker name)
  expected name ms (some b) = ok (feeds fl Metric b ms)

  -- The breaker of a configuration, or the one that was there before.
  pub built :
      Option (Config fl Metric)
      → Option (CircuitBreaker fl Metric)
      → Option (CircuitBreaker fl Metric)
  built none before = before
  built (some c) before = some (init fl Metric c)

  get-add_all :
      (r : Registry fl Metric) (cs : List (Config fl Metric)) (name : String)
      → Dict.get (add_all fl Metric r cs) name ≡ built (last_named name cs) (Dict.get r name)
  unfolding add_all last_named built
  get-add_all r [] name = refl
  get-add_all r (c ∷ cs) name =
      get-add_all (Dict.put r c.name (init fl Metric c)) cs name
      ∙ ground (arith, get-put r c.name name (init fl Metric c))

  fed : ℕ → Metric → Option (CircuitBreaker fl Metric) → Option (CircuitBreaker fl Metric)
  fed now m none = none
  fed now m (some b) = some (feed fl Metric now m b)

  get-feed_breakers :
      (now : ℕ) (m : Metric) (r : Registry fl Metric) (name : String)
      → Dict.get (feed_breakers fl Metric now m r) name ≡ fed now m (Dict.get r name)
  unfolding feed_breakers Dict.get fed
  get-feed_breakers now m [] name = refl
  get-feed_breakers now m ((j, b) ∷ r) name = ground (arith, get-feed_breakers now m r name)

  expected-fed :
      (name : String) (now : ℕ) (m : Metric) (ms : List (ℕ × Metric))
      (o : Option (CircuitBreaker fl Metric))
      → expected name ms (fed now m o) ≡ expected name ((now, m) ∷ ms) o
  unfolding expected fed feeds
  expected-fed name now m ms none = refl
  expected-fed name now m ms (some b) = refl

  init-eq-add_all :
      (configs : List (Config fl Metric)) (r : Registry fl Metric)
      → init_circuit_breakers fl Metric [] configs ≡ ok r
      → r ≡ add_all fl Metric [] configs
  unfolding init_circuit_breakers
  init-eq-add_all configs r e = ground arith

  get-feed_all :
      (r : Registry fl Metric) (ms : List (ℕ × Metric)) (name : String)
      → get_circuit_breaker fl Metric (feed_all r ms) name ≡ expected name ms (Dict.get r name)
  unfolding feed_all get_circuit_breaker expected feeds
  get-feed_all r [] name = ground arith
  get-feed_all r ((now, m) ∷ ms) name =
      get-feed_all (feed_breakers fl Metric now m r) ms name
      ∙ ap (expected name ms) (get-feed_breakers now m r name)
      ∙ expected-fed name now m ms (Dict.get r name)

  -- Once filled from the empty registry, and after any metrics fed to all, looking a name up gives the
  -- breaker of the last configuration of that name, fed those metrics in order, and the error for a
  -- name that no configuration has.
  pub get-feed_all-init :
      (configs : List (Config fl Metric)) (r : Registry fl Metric) (ms : List (ℕ × Metric))
      (name : String)
      → init_circuit_breakers fl Metric [] configs ≡ ok r
      → get_circuit_breaker fl Metric (feed_all r ms) name
        ≡ expected name ms (built (last_named name configs) none)
  unfolding Dict.get
  get-feed_all-init configs r ms name e =
      get-feed_all r ms name
      ∙ ap (λ d. expected name ms (Dict.get d name)) (init-eq-add_all configs r e)
      ∙ ap (expected name ms) (get-add_all [] configs name)
