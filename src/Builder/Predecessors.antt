-- ===== src/Builder/Predecessors.antt =====
-- `find_predecessors_by_text_matching` of datagen/replay/otel_trace_to_replay_graph.py.
pub mod Accepted
pub mod Closure
pub mod Finder
pub mod Reduced
pub mod Scanning
use inference_perf.Prelude.{
  ℕ, suc, Bool, true, false, not, Option, none, some, List, [], ◌∷◌, ◌++◌, map, get_or, leb, ltb,
  if◌then◌else◌, number_key,
}
use inference_perf.Prelude.Dict
use inference_perf.Prelude.Dict.{Dict}
use inference_perf.Builder.Calls.{RawCall}
use inference_perf.Builder.Causal.{DependencyType, temporal, OutputMatches, get_causal_dep}
use inference_perf.Builder.Ancestors.{ancestors}

unfoldable pub is_temporal : DependencyType → Bool
is_temporal temporal = true
is_temporal _ = false

-- `predecessor_indices` of one call: the type of the dependency on each predecessor.
abbrev pub Predecessors : Type 0
Predecessors = Dict ℕ DependencyType

-- The predecessors by edges that are not temporal.
unfoldable pub causal_keys : Predecessors → List ℕ
causal_keys [] = []
causal_keys ((j, dep) ∷ preds) =
    let rest = causal_keys preds in if is_temporal dep then rest else j ∷ rest

abbrev pub causal_edges : List Predecessors → List (List ℕ)
causal_edges = map causal_keys

unfoldable pub get_causal_ancestors : List Predecessors → ℕ → List ℕ
get_causal_ancestors predecessor_indices node = ancestors (causal_edges predecessor_indices) node

-- `transitive_preds.update(nodes)`.
unfoldable pub add_all : List ℕ → List ℕ → List ℕ
add_all set [] = set
add_all set (v ∷ nodes) = add_all (Dict.add set v) nodes

-- What the loop over the earlier calls keeps.
pub record Scan : Type 0 where
  pub curr_causal_preds : Predecessors
  pub transitive_preds : List ℕ
  pub output_matches : OutputMatches

unfoldable pub accept : List Predecessors → ℕ → Scan → Option DependencyType × OutputMatches → Scan
unfolding get_causal_ancestors add_all
accept indices j s (none, cache) = record s { output_matches = cache }
accept indices j s (some dep, cache) = record {
  curr_causal_preds = Dict.put s.curr_causal_preds j dep;
  transitive_preds = add_all s.transitive_preds (get_causal_ancestors indices j);
  output_matches = cache;
}

module _ (Json Float : Type 0) where
  unfoldable pub check_call :
      List Predecessors → RawCall Json Float → Scan → ℕ × RawCall Json Float → Scan
  unfolding accept
  check_call indices curr s (j, call) =
      if Dict.contains s.transitive_preds j
      then s
      else accept indices j s (get_causal_dep Json Float call curr s.output_matches)

  -- The loop over the earlier calls, the latest first.
  unfoldable pub scan_calls :
      List Predecessors → RawCall Json Float → List (ℕ × RawCall Json Float) → Scan → Scan
  unfolding check_call
  scan_calls indices curr [] s = s
  scan_calls indices curr (c ∷ earlier) s =
      scan_calls indices curr earlier (check_call indices curr s c)

  unfoldable pub is_valid_predecessor : RawCall Json Float → RawCall Json Float → Bool
  is_valid_predecessor candidate curr = not (ltb curr.t_start_ms candidate.t_end_ms)

  unfoldable pub closest_valid : RawCall Json Float → List (ℕ × RawCall Json Float) → Option ℕ
  closest_valid curr [] = none
  closest_valid curr ((j, call) ∷ earlier) =
      let rest = closest_valid curr earlier in
      if is_valid_predecessor call curr then some j else rest

  -- The type that is there stays; a predecessor that is new is temporal.
  unfoldable pub add_temporal : Predecessors → Option ℕ → Predecessors
  add_temporal preds none = preds
  add_temporal preds (some j) = elim (Dict.get preds j) [
    | some dep ↦ preds
    | none ↦ Dict.put preds j temporal
  ]

  unfoldable pub predecessors_of :
      List Predecessors
      → RawCall Json Float
      → List (ℕ × RawCall Json Float)
      → OutputMatches
      → Predecessors × OutputMatches
  unfolding scan_calls closest_valid add_temporal
  predecessors_of indices curr earlier cache =
      let s =
        scan_calls indices curr earlier
          (record { curr_causal_preds = []; transitive_preds = []; output_matches = cache }) in
      (add_temporal s.curr_causal_preds (closest_valid curr earlier), s.output_matches)

  -- The loop over the calls, which gives call `i` its predecessors: `earlier` are the calls before
  -- it, the latest first.
  unfoldable pub find_from :
      ℕ
      → List (ℕ × RawCall Json Float)
      → List Predecessors
      → OutputMatches
      → List (RawCall Json Float)
      → List Predecessors × OutputMatches
  unfolding predecessors_of
  find_from i earlier indices cache [] = (indices, cache)
  find_from i earlier indices cache (curr ∷ calls) =
      let (preds, cache') = predecessors_of indices curr earlier cache in
      find_from (suc i) ((i, curr) ∷ earlier) (indices ++ preds ∷ []) cache' calls

  unfoldable pub find_predecessors_by_text_matching :
      List (RawCall Json Float) → List Predecessors × OutputMatches
  unfolding find_from
  find_predecessors_by_text_matching calls = find_from 0 [] [] [] calls
