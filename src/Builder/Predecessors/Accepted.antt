-- ===== src/Builder/Predecessors/Accepted.antt =====
-- What the loop over the earlier calls accepts: the calls that feed the current one, less those that
-- are ancestors of an accepted one.
use inference_perf.Prelude.{
  ℕ, suc, ◌<◌, ◌≡◌, refl, ◌≢◌, inl, inr, Bool, true, false, ◌||◌, Option, none, some, List, [], ◌∷◌,
  get_elem?, nat_beq, arith, Option-cases, number_key,
}
use inference_perf.Prelude.Dict
use inference_perf.Prelude.Dict.{Dict, contains, contains-add}
use inference_perf.Builder.Calls.{Message, MessageInfo, Part, RawCall}
use inference_perf.Builder.Causal.{
  DependencyType, temporal, causal_dep, dependency, match_parts, split_match, full_match,
}
use inference_perf.Builder.Ancestors.{Edge, Ancestor, direct, beyond}
use inference_perf.Builder.Predecessors.{is_temporal, Predecessors, causal_keys, add_all}

abbrev pub IsCausal : Option DependencyType → Type 0
IsCausal dep = dep ≢ some temporal

split_match-IsCausal : (parts : List Part) (ms : List Message) → IsCausal (split_match parts ms)
unfolding split_match
split_match-IsCausal [] ms = λ e. cc
split_match-IsCausal (p ∷ parts) ms = ground arith

match_parts-IsCausal :
    (info : Option MessageInfo) (ms : List Message) → IsCausal (match_parts info ms)
unfolding match_parts
match_parts-IsCausal none ms = λ e. cc
match_parts-IsCausal (some info) ms = elim (Option-cases info.parts) [
  | inl e ↦ rw (match_parts, e) (λ q. cc)
  | inr (parts, e) ↦ rw (match_parts, e) (ground (arith, split_match-IsCausal parts ms))
]

dependency-IsCausal :
    (out : Message) (ms : List Message) (i : Option ℕ) → IsCausal (dependency out ms i)
unfolding dependency
dependency-IsCausal out ms (some i) = λ e. cc
dependency-IsCausal out ms none = match_parts-IsCausal out.message_info ms

pub is_temporal-false : (dep : DependencyType) → some dep ≢ some temporal → is_temporal dep ≡ false
unfolding is_temporal
is_temporal-false temporal h = absurd (h refl)
is_temporal-false _ h = refl

pub contains-causal_keys-put :
    (d : Predecessors) (j : ℕ) (dep : DependencyType) (v : ℕ)
    → is_temporal dep ≡ false
    → contains (causal_keys (Dict.put d j dep)) v ≡ (contains (causal_keys d) v || nat_beq j v)
unfolding causal_keys Dict.put contains
contains-causal_keys-put [] j dep v h = ground arith
contains-causal_keys-put ((k, e) ∷ d) j dep v h = ground (arith, contains-causal_keys-put d j dep v)

pub contains-causal_keys-put_temporal :
    (d : Predecessors) (j v : ℕ)
    → Dict.get d j ≡ none
    → contains (causal_keys (Dict.put d j temporal)) v ≡ contains (causal_keys d) v
unfolding causal_keys Dict.put Dict.get contains is_temporal
contains-causal_keys-put_temporal [] j v h = refl
contains-causal_keys-put_temporal ((k, e) ∷ d) j v h =
    ground (arith, contains-causal_keys-put_temporal d j v)

pub contains-add_all :
    (set nodes : List ℕ) (v : ℕ)
    → contains (add_all set nodes) v ≡ (contains set v || contains nodes v)
unfolding add_all contains
contains-add_all set [] v = ground arith
contains-add_all set (u ∷ nodes) v =
    ground (arith, contains-add set u v, contains-add_all (Dict.add set u) nodes v)

-- Edges lead to earlier calls.
abbrev pub Down : List (List ℕ) → Type 0
Down edges = (u v : ℕ) → Edge edges u v → v < u

pub Ancestor-lt : {edges : List (List ℕ)} {u v : ℕ} → Down edges → Ancestor edges u v → v < u
Ancestor-lt h (direct {v} e) = h _ _ e
Ancestor-lt h (beyond {v} {w} a e) = omega (arith, Ancestor-lt h a, h v w e)

module _ (Json Float : Type 0) where
  abbrev pub is_some : Option DependencyType → Bool
  is_some none = false
  is_some (some dep) = true

  -- Call `j` feeds the call `curr`.
  abbrev pub feeds : List (RawCall Json Float) → RawCall Json Float → ℕ → Bool
  feeds calls curr j = elim (get_elem? calls j) [
    | none ↦ false
    | some call ↦ is_some (causal_dep Json Float call curr)
  ]

  -- The calls before call `n`, the latest first.
  abbrev pub Indexed : List (RawCall Json Float) → ℕ → List (ℕ × RawCall Json Float) → Type 0
  Indexed calls n [] = n ≡ 0
  Indexed calls n ((j, call) ∷ earlier) =
      (n ≡ suc j) × (get_elem? calls j ≡ some call) × Indexed calls j earlier

  pub causal_dep-IsCausal : (a b : RawCall Json Float) → IsCausal (causal_dep Json Float a b)
  unfolding causal_dep
  causal_dep-IsCausal a b = elim (Option-cases a.out_message) [
    | inl e ↦ rw (causal_dep, e) (λ q. cc)
    | inr (out, e) ↦
        rw (causal_dep, e) (dependency-IsCausal out b.messages (full_match 0 out.text b.messages))
  ]
