-- ===== src/Builder/Predecessors/Closure.antt =====
-- The edges that `find_predecessors_by_text_matching` keeps, against all pairs of calls of which one
-- feeds the other.
use inference_perf.Prelude.{
  ℕ, zero, suc, ◌∷◌, ◌≤◌, ltb, Bool-cases, ◌<◌, ◌≡◌, refl, ◌↔◌, ◌∙◌, inl, inr, true, false, none,
  List, [], length, get_elem?, arith, number_key,
}
use inference_perf.Prelude.Dict.{contains}
use inference_perf.Builder.Calls.{RawCall}
use inference_perf.Builder.Ancestors.{Edge, Ancestor, direct, beyond}
use inference_perf.Builder.Predecessors.{
  causal_keys, causal_edges, find_from, find_predecessors_by_text_matching,
}
use inference_perf.Builder.Predecessors.Reduced.{feeds_at, IsReduction}
use inference_perf.Builder.Predecessors.Finder.{length-map, find_from-IsReduction}

get_elem?-none {ℓ} : {A : Type ℓ} (xs : List A) (i : ℕ) → length xs ≤ i → get_elem? xs i ≡ none
get_elem?-none [] i h = refl
get_elem?-none (x ∷ xs) zero h = absurd (omega arith)
get_elem?-none (x ∷ xs) (suc i) h = get_elem?-none xs i (omega arith)

module _ (Json Float : Type 0) (calls : List (RawCall Json Float)) where
  -- Call `j` feeds call `i` by way of other calls, each one earlier than the one that it feeds.
  pub data Chain (i : ℕ) : ℕ → Type 0 where
    link : {j : ℕ} → j < i → feeds_at Json Float calls j i ≡ true → Chain i j
    then : {j k : ℕ} → Chain i j → k < j → feeds_at Json Float calls k j ≡ true → Chain i k

  -- The causal edges that the search for predecessors gives.
  abbrev pub found_edges : List (List ℕ)
  found_edges = causal_edges (find_predecessors_by_text_matching Json Float calls).0

  found : IsReduction Json Float calls found_edges × (length found_edges ≡ length calls)
  unfolding find_predecessors_by_text_matching contains
  found =
      let (p, size) =
        find_from-IsReduction Json Float calls [] calls [] [] [] refl refl refl (record {
          down = λ u v e. cc;
          caused = λ i j e. cc;
          covers = λ i j h. absurd (omega arith);
          reduced = λ i j k e. cc;
        }) in
      (p, length-map causal_keys (find_from Json Float 0 [] [] [] calls).0 ∙ size)

  feeds_at-lt : (j i : ℕ) → feeds_at Json Float calls j i ≡ true → i < length calls
  feeds_at-lt j i h = elim (Bool-cases (ltb i (length calls))) [
    | inl small ↦ ground arith
    | inr large ↦
        let none_there : get_elem? calls i ≡ none = get_elem?-none calls i (ground arith) in
        let h' : false ≡ true = rw (none_there, feeds_at) at h in cc
  ]

  chain : {i j : ℕ} → Ancestor found_edges i j → Chain i j
  chain (direct e) = link (found.0.down _ _ e) (found.0.caused _ _ e)
  chain (beyond a e) = then (chain a) (found.0.down _ _ e) (found.0.caused _ _ e)

  append-Ancestor :
      {i j k : ℕ} → Ancestor found_edges i j → Ancestor found_edges j k → Ancestor found_edges i k
  append-Ancestor a (direct e) = beyond a e
  append-Ancestor a (beyond b e) = beyond (append-Ancestor a b) e

  feeds_at-Ancestor :
      (i j : ℕ) → j < i → feeds_at Json Float calls j i ≡ true → Ancestor found_edges i j
  feeds_at-Ancestor i j lt fed =
      found.0.covers i j (omega (arith, feeds_at-lt j i fed, found.1)) lt fed

  unchain : {i j : ℕ} → Chain i j → Ancestor found_edges i j
  unchain (link {j} lt fed) = feeds_at-Ancestor _ j lt fed
  unchain (then {j} {k} c lt fed) = append-Ancestor (unchain c) (feeds_at-Ancestor j k lt fed)

  -- The search for predecessors forgets no cause and makes up none: by the causal edges that it
  -- keeps, one call is an ancestor of another exactly if there is a chain of calls from the one to
  -- the other, each one earlier in the list than the next and feeding it by the match of its output.
  pub found_edges-Chain : (i j : ℕ) → Ancestor found_edges i j ↔ Chain i j
  found_edges-Chain i j = (chain, unchain)

  -- The search for predecessors keeps no edge that follows from others: a causal predecessor of a
  -- call is earlier in the list than the call, feeds it, and is no ancestor of another causal
  -- predecessor of the same call.
  pub found_edges-minimal :
      (i j : ℕ)
      → Edge found_edges i j
      → (j < i)
        × (feeds_at Json Float calls j i ≡ true)
        × ((k : ℕ) → Edge found_edges i k → ¬ Ancestor found_edges k j)
  found_edges-minimal i j e =
      (found.0.down i j e, found.0.caused i j e, λ k f. found.0.reduced i j k e f)
