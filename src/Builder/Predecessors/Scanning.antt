-- ===== src/Builder/Predecessors/Scanning.antt =====
-- The loop over the earlier calls of one call, the latest first: its invariant, and the causal
-- predecessors that it leaves.
use inference_perf.Prelude.{
  ℕ, suc, ◌≤◌, ◌<◌, ◌≡◌, ap, ◌≢◌, ◌⊎◌, inl, inr, true, false, ◌||◌, Option, none, some, List, [],
  ◌∷◌, get_elem?, nat_beq, arith, Bool-cases, Option-cases, number_key,
}
use inference_perf.Prelude.Dict.{contains}
use inference_perf.Builder.Calls.{RawCall}
use inference_perf.Builder.Causal.{
  DependencyType, OutputMatches, causal_dep, cached, get_causal_dep,
}
use inference_perf.Builder.Ancestors.{Ancestor, contains-ancestors}
use inference_perf.Builder.Predecessors.{
  Predecessors, causal_keys, causal_edges, get_causal_ancestors, Scan, accept, check_call,
  scan_calls,
}
use inference_perf.Builder.Predecessors.Accepted.{
  Down, Ancestor-lt, feeds, is_some, Indexed, causal_dep-IsCausal, is_temporal-false,
  contains-causal_keys-put, contains-add_all,
}

abbrev pub Accepts : Scan → ℕ → Type 0
Accepts s j = contains (causal_keys s.curr_causal_preds) j ≡ true

module _ (Json Float : Type 0) (calls : List (RawCall Json Float)) (indices : List Predecessors)
    (curr : RawCall Json Float) (i : ℕ) where
  abbrev edges : List (List ℕ)
  edges = causal_edges indices

  -- The calls from `n` on, and before `i`, have been looked at.
  pub record Inv (n : ℕ) (s : Scan) : Type 0 where
    pub transitive :
        (v : ℕ) → contains s.transitive_preds v ≡ true → (k : ℕ) × Accepts s k × Ancestor edges k v
    pub covers_transitive :
        (k v : ℕ) → Accepts s k → Ancestor edges k v → contains s.transitive_preds v ≡ true
    pub later : (j : ℕ) → Accepts s j → (n ≤ j) × (j < i) × (feeds Json Float calls curr j ≡ true)
    pub reduced : (j k : ℕ) → Accepts s j → Accepts s k → ¬ Ancestor edges k j
    pub covers :
        (j : ℕ)
        → n ≤ j
        → j < i
        → feeds Json Float calls curr j ≡ true
        → Accepts s j ⊎ (contains s.transitive_preds j ≡ true)

  Inv-skip :
      (j : ℕ) (s : Scan)
      → ((feeds Json Float calls curr j ≡ false) ⊎ (contains s.transitive_preds j ≡ true))
      → Inv (suc j) s
      → Inv j s
  Inv-skip j s h p = record {
    transitive = p.transitive;
    covers_transitive = p.covers_transitive;
    later = λ k q. ground (arith, p.later k q);
    reduced = p.reduced;
    covers = λ k le lt q. elim (Bool-cases (nat_beq j k)) [
      | inl same ↦ let e : j ≡ k = ground arith in rw (← e) (ground arith)
      | inr other ↦ p.covers k (ground arith) lt q
    ];
  }

  accepted-accept :
      (j : ℕ) (s : Scan) (dep : DependencyType) (cache : OutputMatches) (v : ℕ)
      → some dep ≢ some DependencyType.temporal
      → contains (causal_keys (accept indices j s (some dep, cache)).curr_causal_preds) v
        ≡ (contains (causal_keys s.curr_causal_preds) v || nat_beq j v)
  unfolding accept
  accepted-accept j s dep cache v h =
      contains-causal_keys-put s.curr_causal_preds j dep v (is_temporal-false dep h)

  transitive-accept :
      (j : ℕ) (s : Scan) (dep : DependencyType) (cache : OutputMatches) (v : ℕ)
      → contains (accept indices j s (some dep, cache)).transitive_preds v
        ≡ (contains s.transitive_preds v || contains (get_causal_ancestors indices j) v)
  unfolding accept
  transitive-accept j s dep cache v =
      contains-add_all s.transitive_preds (get_causal_ancestors indices j) v

  Inv-accept :
      (j : ℕ) (s : Scan) (dep : DependencyType) (cache : OutputMatches)
      → Down edges
      → j < i
      → feeds Json Float calls curr j ≡ true
      → contains s.transitive_preds j ≡ false
      → some dep ≢ some DependencyType.temporal
      → Inv (suc j) s
      → Inv j (accept indices j s (some dep, cache))
  unfolding get_causal_ancestors
  Inv-accept j s dep cache down lt fed new causal p =
      let now = λ (v : ℕ). accepted-accept j s dep cache v causal in
      let reach = λ (v : ℕ). transitive-accept j s dep cache v in
      let after = accept indices j s (some dep, cache) in
      let was : (v : ℕ) → Accepts after v → Accepts s v ⊎ (j ≡ v) = λ v q. ground (arith, now v) in
      let kept : (v : ℕ) → Accepts s v → Accepts after v = λ v q. ground (arith, now v) in
      let here : Accepts after j = ground (arith, now j) in
      let was_reached : (v : ℕ)
          → contains after.transitive_preds v ≡ true
          → (contains s.transitive_preds v ≡ true) ⊎ Ancestor edges j v =
        λ v q. ground (arith, reach v, contains-ancestors edges j v) in
      record {
        transitive = λ v q. elim (was_reached v q) [
          | inl old ↦ let (k, a, path) = p.transitive v old in (k, kept k a, path)
          | inr path ↦ (j, here, path)
        ];
        covers_transitive = λ k v q path. elim (was k q) [
          | inl old ↦ ground (arith, reach v, p.covers_transitive k v old path)
          | inr e ↦
              let path' : Ancestor edges j v = rw (← e) at path in
              ground (arith, reach v, contains-ancestors edges j v)
        ];
        later = λ k q. ground (arith, now k, p.later k);
        reduced = λ v k q r path. elim (was v q) [
          | inl v_old ↦ elim (was k r) [
            | inl k_old ↦ p.reduced v k v_old k_old path
            | inr e ↦
                let below = Ancestor-lt down path in let above = p.later v v_old in omega arith
          ]
          | inr e ↦ elim (was k r) [
            | inl k_old ↦
                let path' : Ancestor edges k j = rw (← e) at path in
                let seen = p.covers_transitive k j k_old path' in cc
            | inr f ↦ let below = Ancestor-lt down path in omega arith
          ]
        ];
        covers = λ k le lt q. ground (arith, now k, reach k, p.covers k);
      }

  Inv-cache :
      (n : ℕ) (s : Scan) (cache : OutputMatches)
      → Inv n s
      → Inv n (record s { output_matches = cache })
  Inv-cache n s cache p = record {
    transitive = p.transitive;
    covers_transitive = p.covers_transitive;
    later = p.later;
    reduced = p.reduced;
    covers = p.covers;
  }

  feeds-at :
      (j : ℕ) (call : RawCall Json Float) (dep : Option DependencyType)
      → get_elem? calls j ≡ some call
      → causal_dep Json Float call curr ≡ dep
      → feeds Json Float calls curr j ≡ is_some Json Float dep
  feeds-at j call dep at e = rw (at, feeds) (ap (is_some Json Float) e)

  Inv-check_call :
      (j : ℕ) (call : RawCall Json Float) (s : Scan)
      → Down edges
      → j < i
      → get_elem? calls j ≡ some call
      → Inv (suc j) s
      → Inv j (check_call Json Float indices curr s (j, call))
  unfolding check_call get_causal_dep accept
  Inv-check_call j call s down lt at p = elim (Bool-cases (contains s.transitive_preds j)) [
    | inl seen ↦ rw (check_call, seen) (Inv-skip j s (inr seen) p)
    | inr new ↦ elim (Option-cases (causal_dep Json Float call curr)) [
      | inl e ↦
          let fed : feeds Json Float calls curr j ≡ false = feeds-at j call none at e in
          rw (check_call, new, e)
            (Inv-cache j s (cached Json Float s.output_matches call curr)
              (Inv-skip j s (inl fed) p))
      | inr (dep, e) ↦
          let fed : feeds Json Float calls curr j ≡ true = feeds-at j call (some dep) at e in
          let causal = causal_dep-IsCausal Json Float call curr in
          let causal' : some dep ≢ some DependencyType.temporal = rw e at causal in
          rw (check_call, new, e)
            (Inv-accept j s dep (cached Json Float s.output_matches call curr) down lt fed new
              causal' p)
    ]
  ]

  pub Inv-scan_calls :
      (n : ℕ) (earlier : List (ℕ × RawCall Json Float)) (s : Scan)
      → Down edges
      → n ≤ i
      → Indexed Json Float calls n earlier
      → Inv n s
      → Inv 0 (scan_calls Json Float indices curr earlier s)
  unfolding scan_calls
  Inv-scan_calls n [] s down le at p = rw at at p
  Inv-scan_calls n ((j, call) ∷ earlier) s down le (e, at, rest) p =
      let q = Inv-check_call j call s down (omega arith) at (rw e at p) in
      Inv-scan_calls j earlier _ down (omega arith) rest q

  unfoldable pub start : OutputMatches → Scan
  start cache = record { curr_causal_preds = []; transitive_preds = []; output_matches = cache }

  pub Inv-start : (cache : OutputMatches) → Inv i (start cache)
  unfolding start contains causal_keys
  Inv-start cache = record {
    transitive = λ v q. cc;
    covers_transitive = λ k v q. cc;
    later = λ j q. cc;
    reduced = λ j k q. cc;
    covers = λ j le lt q. absurd (omega arith);
  }
