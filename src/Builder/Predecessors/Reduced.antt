-- ===== src/Builder/Predecessors/Reduced.antt =====
-- The causal predecessors of a call are its causes, less those that are ancestors of another.
use inference_perf.Prelude.{
  ℕ, zero, suc, ◌≤◌, ◌<◌, ◌≡◌, refl, ◌⊎◌, inl, inr, Bool, true, false, none, some, List, [], ◌∷◌,
  ◌++◌, length, length-append, get_or, get_elem?, nat_beq, ltb, arith, Bool-cases, number_key,
}
use inference_perf.Prelude.Dict.{contains}
use inference_perf.Builder.Calls.{RawCall}
use inference_perf.Builder.Ancestors.{Edge, Ancestor, direct, beyond}
use inference_perf.Builder.Predecessors.Accepted.{Down, Ancestor-lt, feeds}

get_or-append :
    (edges : List (List ℕ)) (es : List ℕ) (u : ℕ)
    → u < length edges
    → get_or (edges ++ es ∷ []) u [] ≡ get_or edges u []
get_or-append [] es u h = absurd (omega arith)
get_or-append (x ∷ edges) es zero h = refl
get_or-append (x ∷ edges) es (suc u) h = get_or-append edges es u (omega arith)

get_or-last :
    (edges : List (List ℕ)) (es : List ℕ) (u : ℕ)
    → u ≡ length edges
    → get_or (edges ++ es ∷ []) u [] ≡ es
get_or-last [] es zero h = refl
get_or-last [] es (suc u) h = absurd (omega arith)
get_or-last (x ∷ edges) es zero h = absurd (omega arith)
get_or-last (x ∷ edges) es (suc u) h = get_or-last edges es u (omega arith)

get_or-beyond : (edges : List (List ℕ)) (u : ℕ) → length edges ≤ u → get_or edges u [] ≡ []
get_or-beyond [] u h = refl
get_or-beyond (x ∷ edges) zero h = absurd (omega arith)
get_or-beyond (x ∷ edges) (suc u) h = get_or-beyond edges u (omega arith)

-- More calls do not change the ancestors of the earlier ones.
module _ (edges : List (List ℕ)) (es : List ℕ) (down : Down edges) where
  Ancestor-before :
      {u v : ℕ} → u < length edges → Ancestor (edges ++ es ∷ []) u v → Ancestor edges u v
  Ancestor-before {u} h (direct {v} e) = direct (rw (get_or-append edges es u h) at e)
  Ancestor-before {u} h (beyond {v} {w} a e) =
      let b = Ancestor-before h a in
      beyond b (rw (get_or-append edges es v (omega (arith, Ancestor-lt down b))) at e)

  Ancestor-after :
      {u v : ℕ} → u < length edges → Ancestor edges u v → Ancestor (edges ++ es ∷ []) u v
  Ancestor-after {u} h (direct {v} e) = direct (rw (get_or-append edges es u h) e)
  Ancestor-after {u} h (beyond {v} {w} a e) =
      beyond (Ancestor-after h a)
        (rw (get_or-append edges es v (omega (arith, Ancestor-lt down a))) e)

  Edge-old : (u v : ℕ) → u < length edges → Edge edges u v → Edge (edges ++ es ∷ []) u v
  Edge-old u v h e = rw (get_or-append edges es u h) e

  Edge-new : (u v : ℕ) → u ≡ length edges → contains es v ≡ true → Edge (edges ++ es ∷ []) u v
  Edge-new u v h e = rw (get_or-last edges es u h) e

  Edge-cases :
      (u v : ℕ)
      → Edge (edges ++ es ∷ []) u v
      → ((u < length edges) × Edge edges u v) ⊎ ((u ≡ length edges) × (contains es v ≡ true))
  unfolding contains
  Edge-cases u v e = elim (Bool-cases (ltb u (length edges))) [
    | inl small ↦
        let h : u < length edges = ground arith in inl (h, rw (get_or-append edges es u h) at e)
    | inr large ↦ elim (Bool-cases (nat_beq u (length edges))) [
      | inl last ↦
          let h : u ≡ length edges = ground arith in inr (h, rw (get_or-last edges es u h) at e)
      | inr past ↦
          let nothing =
            get_or-beyond (edges ++ es ∷ []) u (ground (arith, length-append edges (es ∷ []))) in
          let e' : contains [] v ≡ true = rw nothing at e in cc
    ]
  ]

module _ (Json Float : Type 0) (calls : List (RawCall Json Float)) where
  -- Call `j` feeds call `i`.
  abbrev pub feeds_at : ℕ → ℕ → Bool
  feeds_at j i = elim (get_elem? calls i) [
    | none ↦ false
    | some curr ↦ feeds Json Float calls curr j
  ]

  -- The edges are those of the calls that feed one another, less those that follow from others.
  pub record IsReduction (edges : List (List ℕ)) : Type 0 where
    pub down : Down edges
    pub caused : (i j : ℕ) → Edge edges i j → feeds_at j i ≡ true
    pub covers : (i j : ℕ) → i < length edges → j < i → feeds_at j i ≡ true → Ancestor edges i j
    pub reduced : (i j k : ℕ) → Edge edges i j → Edge edges i k → ¬ Ancestor edges k j

  -- What the loop over the earlier calls gives for the next call.
  pub record IsNext (edges : List (List ℕ)) (es : List ℕ) : Type 0 where
    pub caused :
        (j : ℕ) → contains es j ≡ true → (j < length edges) × (feeds_at j (length edges) ≡ true)
    pub covers :
        (j : ℕ)
        → j < length edges
        → feeds_at j (length edges) ≡ true
        → (contains es j ≡ true) ⊎ ((k : ℕ) × (contains es k ≡ true) × Ancestor edges k j)
    pub reduced : (j k : ℕ) → contains es j ≡ true → contains es k ≡ true → ¬ Ancestor edges k j

  pub through :
      {edges : List (List ℕ)} {u v w : ℕ} → Edge edges u v → Ancestor edges v w → Ancestor edges u w
  through e (direct f) = beyond (direct e) f
  through e (beyond a f) = beyond (through e a) f

  pub IsReduction-append :
      (edges : List (List ℕ)) (es : List ℕ)
      → IsReduction edges
      → IsNext edges es
      → IsReduction (edges ++ es ∷ [])
  IsReduction-append edges es p q =
      let size : length (edges ++ es ∷ []) ≡ suc (length edges) =
        omega (arith, length-append edges (es ∷ [])) in
      record {
        down = λ u v e. elim (Edge-cases edges es p.down u v e) [
          | inl (h, old) ↦ p.down u v old
          | inr (h, new) ↦ rw h (q.caused v new).0
        ];
        caused = λ u v e. elim (Edge-cases edges es p.down u v e) [
          | inl (h, old) ↦ p.caused u v old
          | inr (h, new) ↦ rw h (q.caused v new).1
        ];
        covers = λ i j h lt fed. elim (Bool-cases (ltb i (length edges))) [
          | inl old ↦
              let h' : i < length edges = ground arith in
              Ancestor-after edges es p.down h' (p.covers i j h' lt fed)
          | inr new ↦
              let last : i ≡ length edges = ground arith in
              let fed' : feeds_at j (length edges) ≡ true = rw last at fed in
              elim (q.covers j (omega arith) fed') [
                | inl mem ↦ direct (Edge-new edges es p.down i j last mem)
                | inr (k, mem, a) ↦
                    through (Edge-new edges es p.down i k last mem)
                      (Ancestor-after edges es p.down (q.caused k mem).0 a)
              ]
        ];
        reduced = λ i j k e f path. elim (Edge-cases edges es p.down i j e) [
          | inl (h, old) ↦ elim (Edge-cases edges es p.down i k f) [
            | inl (g, old') ↦
                p.reduced i j k old old'
                  (Ancestor-before edges es p.down (omega (arith, p.down i k old')) path)
            | inr (g, new') ↦ absurd (omega arith)
          ]
          | inr (h, new) ↦ elim (Edge-cases edges es p.down i k f) [
            | inl (g, old') ↦ absurd (omega arith)
            | inr (g, new') ↦
                q.reduced j k new new' (Ancestor-before edges es p.down (q.caused k new').0 path)
          ]
        ];
      }
