-- ===== src/Breaker/Circuit.antt =====
-- circuit_breaker/base.py and simple_breaker.py (`SimpleCircuitBreaker`), and the registry of
-- circuit_breaker/__init__.py.
-- JMESPath is a parameter: a compiled expression is its search function, and `none` is the
-- exception that `_search` passes over. `datetime.now()` is an argument of `feed`.
pub mod Opening
pub mod Registry
use Prim.Native.String.{String}
use inference_perf.Prelude.{
  text_key, ℕ, Bool, true, false, Option, none, some, List, [], ◌∷◌, is_empty, if◌then◌else◌, ◌||◌,
  Result, ok, err,
}
use inference_perf.Prelude.Dict
use inference_perf.Prelude.Dict.{Dict}
use inference_perf.Breaker.Trigger.{Floats, HitSample, Trigger, update, fired}

pub data RegistryError : Type 0 where
  already_initialized : RegistryError
  unknown_breaker : String → RegistryError

module _ (fl : Floats) where
  -- The loop over the triggers: the updated triggers, and whether one of them has fired.
  unfoldable pub feed_triggers : List (Trigger fl) → HitSample → List (Trigger fl) × Bool
  feed_triggers [] s = ([], false)
  feed_triggers (t ∷ ts) s =
      let (ts', later) = feed_triggers ts s in
      let t' = update fl t s in (t' ∷ ts', fired fl t' || later)

module _ (fl : Floats) (Metric : Type 0) where
  abbrev pub Query : Type 0
  Query = Metric → Option Bool

  pub record Config : Type 0 where
    pub name : String
    pub matches : List Query
    pub rules : List Query
    pub triggers : List (Trigger fl)

  pub record CircuitBreaker : Type 0 where
    pub name : String
    pub matches : List Query
    pub rules : List Query
    pub triggers : List (Trigger fl)
    pub opened : Bool

  unfoldable pub init : Config → CircuitBreaker
  init c = record {
    name = c.name;
    matches = c.matches;
    rules = c.rules;
    triggers = c.triggers;
    opened = false;
  }

  -- `_search`: whether some expression holds; one that raises is passed over.
  unfoldable pub search_any : List Query → Metric → Bool
  search_any [] metric = false
  search_any (q ∷ qs) metric =
      let rest = search_any qs metric in
      elim (q metric) [ none ↦ rest | some b ↦ if b then true else rest ]

  unfoldable pub hit_of : List Query → Metric → ℕ
  hit_of rules metric = if is_empty rules || search_any rules metric then 1 else 0

  unfoldable pub feed : ℕ → Metric → CircuitBreaker → CircuitBreaker
  feed now metric b =
      let s : HitSample = record { ts = now; hit = hit_of b.rules metric } in
      let (triggers, some_fired) = feed_triggers fl b.triggers s in
      if search_any b.matches metric
      then record b { triggers = triggers; opened = if some_fired then true else b.opened }
      else b

  unfoldable pub is_open : CircuitBreaker → Bool
  is_open b = b.opened

  unfoldable pub reset : CircuitBreaker → CircuitBreaker
  reset b = record b { opened = false }

  abbrev pub Registry : Type 0
  Registry = Dict String CircuitBreaker

  -- The module's dictionary is filled once. A name that comes twice keeps the later breaker.
  unfoldable pub add_all : Registry → List Config → Registry
  add_all r [] = r
  add_all r (c ∷ cs) = add_all (Dict.put r c.name (init c)) cs

  unfoldable pub init_circuit_breakers : Registry → List Config → Result RegistryError Registry
  init_circuit_breakers r configs =
      if is_empty r then ok (add_all r configs) else err already_initialized

  unfoldable pub feed_breakers : ℕ → Metric → Registry → Registry
  feed_breakers now metric [] = []
  feed_breakers now metric ((name, b) ∷ r) = (name, feed now metric b) ∷ feed_breakers now metric r

  unfoldable pub get_circuit_breaker : Registry → String → Result RegistryError CircuitBreaker
  get_circuit_breaker r name = elim (Dict.get r name) [
    | none ↦ err (unknown_breaker name)
    | some b ↦ ok b
  ]
