-- ===== src/Builder/Predecessors/Finder.antt =====
-- `find_predecessors_by_text_matching` gives the transitive reduction of what feeds what.
use inference_perf.Prelude.{
  ℕ, suc, ◌≡◌, refl, sym, ap, ◌∙◌, inl, inr, some, List, [], ◌∷◌, ◌++◌, map, length, length-append,
  get_elem?, arith, Option-cases, append_assoc, append-nil, number_key, Option, none,
}
use inference_perf.Prelude.Dict
use inference_perf.Prelude.Dict.{contains}
use inference_perf.Builder.Calls.{RawCall}
use inference_perf.Builder.Causal.{OutputMatches}
use inference_perf.Builder.Predecessors.{
  Predecessors, causal_keys, causal_edges, scan_calls, closest_valid, add_temporal, predecessors_of,
  find_from,
}
use inference_perf.Builder.Predecessors.Accepted.{feeds, Indexed, contains-causal_keys-put_temporal}
use inference_perf.Builder.Predecessors.Scanning.{Inv-scan_calls, Inv-start, start}
use inference_perf.Builder.Predecessors.Reduced.{feeds_at, IsReduction, IsNext, IsReduction-append}

at-length {ℓ} :
    {A : Type ℓ} (xs ys : List A) (a : A) → get_elem? (xs ++ a ∷ ys) (length xs) ≡ some a
at-length [] ys a = refl
at-length (x ∷ xs) ys a = at-length xs ys a

pub length-map {ℓ κ} :
    {A : Type ℓ} {B : Type κ} (f : A → B) (xs : List A) → length (map f xs) ≡ length xs
length-map f [] = refl
length-map f (x ∷ xs) = ap suc (length-map f xs)

map-snoc {ℓ κ} :
    {A : Type ℓ} {B : Type κ} (f : A → B) (xs : List A) (a : A)
    → map f (xs ++ a ∷ []) ≡ map f xs ++ f a ∷ []
map-snoc f [] a = refl
map-snoc f (x ∷ xs) a = ap (◌∷◌ (f x)) (map-snoc f xs a)

module _ (Json Float : Type 0) where
  causal_keys-add_temporal :
      (preds : Predecessors) (j : Option ℕ) (v : ℕ)
      → contains (causal_keys (add_temporal Json Float preds j)) v ≡ contains (causal_keys preds) v
  unfolding add_temporal
  causal_keys-add_temporal preds none v = refl
  causal_keys-add_temporal preds (some j) v = elim (Option-cases (Dict.get preds j)) [
    | inl e ↦ rw (add_temporal, e) (contains-causal_keys-put_temporal preds j v e)
    | inr (dep, e) ↦ rw (add_temporal, e) refl
  ]

  module _ (calls : List (RawCall Json Float)) where
    predecessors_of-IsNext :
        (indices : List Predecessors) (curr : RawCall Json Float)
        (earlier : List (ℕ × RawCall Json Float)) (cache : OutputMatches)
        → IsReduction Json Float calls (causal_edges indices)
        → get_elem? calls (length indices) ≡ some curr
        → Indexed Json Float calls (length indices) earlier
        → IsNext Json Float calls
            (causal_edges indices)
            (causal_keys (predecessors_of Json Float indices curr earlier cache).0)
    unfolding predecessors_of start
    predecessors_of-IsNext indices curr earlier cache p at earlier_at =
        let s =
          scan_calls Json Float indices curr earlier
            (start Json Float calls indices curr (length indices) cache) in
        let q =
          Inv-scan_calls Json Float calls indices curr (length indices) (length indices) earlier _
            p.down (omega arith) earlier_at
            (Inv-start Json Float calls indices curr (length indices) cache) in
        let now = λ (v : ℕ).
          causal_keys-add_temporal s.curr_causal_preds (closest_valid Json Float curr earlier) v in
        let size : length (causal_edges indices) ≡ length indices =
          length-map causal_keys indices in
        let fed_at : (j : ℕ)
            → feeds_at Json Float calls j (length (causal_edges indices))
              ≡ feeds Json Float calls curr j =
          λ j. rw (size, feeds_at, at) refl in
        record {
          caused = λ j m.
              let (le, lt, fed) = q.later j (sym (now j) ∙ m) in (omega arith, fed_at j ∙ fed);
          covers = λ j lt fed.
              elim (q.covers j (omega arith) (omega arith) (sym (fed_at j) ∙ fed)) [
                | inl a ↦ inl (now j ∙ a)
                | inr t ↦ let (k, a, path) = q.transitive j t in inr (k, now k ∙ a, path)
              ];
          reduced = λ j k m l. q.reduced j k (sym (now j) ∙ m) (sym (now k) ∙ l);
        }

    pub find_from-IsReduction :
        (seen rest : List (RawCall Json Float)) (earlier : List (ℕ × RawCall Json Float))
        (indices : List Predecessors) (cache : OutputMatches)
        → calls ≡ seen ++ rest
        → length indices ≡ length seen
        → Indexed Json Float calls (length indices) earlier
        → IsReduction Json Float calls (causal_edges indices)
        → IsReduction Json Float calls
            (causal_edges (find_from Json Float (length indices) earlier indices cache rest).0)
          × (length (find_from Json Float (length indices) earlier indices cache rest).0
              ≡ length calls)
    unfolding find_from
    find_from-IsReduction seen [] earlier indices cache e size at p =
        (p, size ∙ ap length (sym (e ∙ append-nil seen)))
    find_from-IsReduction seen (curr ∷ rest) earlier indices cache e size at p =
        let here : get_elem? calls (length indices) ≡ some curr =
          rw (e, size) (at-length seen rest curr) in
        let (preds, cache') = predecessors_of Json Float indices curr earlier cache in
        let next = predecessors_of-IsNext indices curr earlier cache p here at in
        let size' : length (indices ++ preds ∷ []) ≡ suc (length indices) =
          omega (arith, length-append indices (preds ∷ [])) in
        let size'' : length (seen ++ curr ∷ []) ≡ suc (length seen) =
          omega (arith, length-append seen (curr ∷ [])) in
        let q : IsReduction Json Float calls (causal_edges (indices ++ preds ∷ [])) =
          rw (map-snoc causal_keys indices preds) (
            IsReduction-append Json Float calls (causal_edges indices) (causal_keys preds) p
              next) in
        let rest_done =
          find_from-IsReduction (seen ++ curr ∷ []) rest ((length indices, curr) ∷ earlier)
            (indices ++ preds ∷ []) cache' (e ∙ sym (append_assoc seen (curr ∷ []) rest))
            (omega arith) (rw size' (refl, here, at)) q in
        rw size' at rest_done
