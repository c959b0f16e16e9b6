-- ===== src/Builder/Order/Visits.antt =====
-- `_topo_order` ends, and visits each event that can be reached from a root exactly once.
use inference_perf.Prelude.{
  ℕ, zero, suc, ◌+◌, ◌≤◌, ◌≡◌, refl, ◌↔◌, inl, inr, true, false, ◌||◌, some, List, [], ◌∷◌, ◌++◌,
  length, length-append, if◌then◌else◌, arith, Bool-cases,
}
use inference_perf.Prelude.Dict
use inference_perf.Prelude.Dict.{Dict, contains, contains-snoc}
use inference_perf.Prelude.Text.{Text, code_points_key}
use inference_perf.Replay.Graph.{ReplayGraph}
use inference_perf.Builder.Order.{
  Successors, successors_at, visit_queue, successor_count, successor_map, topo_order,
}

-- The ids that can be reached from the roots.
pub data Reached (d : Successors) (roots : List Text) : Text → Type 0 where
  root : {id : Text} → contains roots id ≡ true → Reached d roots id
  next :
      {id succ : Text}
      → Reached d roots id
      → contains (successors_at d id) succ ≡ true
      → Reached d roots succ

-- The edges out of what is not visited.
work : Successors → List Text → ℕ
work [] order = 0
work ((k, ids) ∷ d) order = (if contains order k then 0 else length ids) + work d order

work-visit-le :
    (d : Successors) (order : List Text) (id : Text) → work d (order ++ id ∷ []) ≤ work d order
unfolding work
work-visit-le [] order id = omega arith
work-visit-le ((k, ids) ∷ d) order id =
    ground (arith, contains-snoc order id k, work-visit-le d order id)

work-visit :
    (d : Successors) (order : List Text) (id : Text)
    → contains order id ≡ false
    → work d (order ++ id ∷ []) + length (successors_at d id) ≤ work d order
unfolding work successors_at Dict.get
work-visit [] order id h = omega arith
work-visit ((k, ids) ∷ d) order id h = ground (
  arith,
  contains-snoc order id k,
  code_points_key.test_iff k id,
  code_points_key.test_iff id k,
  work-visit-le d order id,
  work-visit d order id h,
)

contains-append :
    (xs ys : List Text) (k : Text) → contains (xs ++ ys) k ≡ (contains xs k || contains ys k)
unfolding contains
contains-append [] ys k = refl
contains-append (x ∷ xs) ys k = ground (arith, contains-append xs ys k)

-- No id twice.
abbrev pub IsDistinct : List Text → Type 0
IsDistinct [] = Unit
IsDistinct (x ∷ xs) = (contains xs x ≡ false) × IsDistinct xs

IsDistinct-snoc :
    (xs : List Text) (k : Text) → IsDistinct xs → contains xs k ≡ false → IsDistinct (xs ++ k ∷ [])
unfolding contains
IsDistinct-snoc [] k h e = (refl, tt)
IsDistinct-snoc (x ∷ xs) k (h, rest) e = (
  ground (arith, contains-snoc xs k x, code_points_key.test_iff x k, code_points_key.test_iff k x),
  IsDistinct-snoc xs k rest (ground arith),
)

module _ (d : Successors) (roots : List Text) where
  record Inv (queue order : List Text) : Type 0 where
    sound : (id : Text) → (contains queue id || contains order id) ≡ true → Reached d roots id
    closed :
        (id succ : Text)
        → contains order id ≡ true
        → contains (successors_at d id) succ ≡ true
        → (contains queue succ || contains order succ) ≡ true
    first : (id : Text) → contains roots id ≡ true → (contains queue id || contains order id) ≡ true
    distinct : IsDistinct order

  Inv-skip :
      (id : Text) (queue order : List Text)
      → contains order id ≡ true
      → Inv (id ∷ queue) order
      → Inv queue order
  unfolding contains
  Inv-skip id queue order h p = record {
    sound = λ k q. p.sound k (ground arith);
    closed = λ k succ q e.
        let seen = p.closed k succ q e in ground (arith, code_points_key.test_iff id succ);
    first = λ k e. let seen = p.first k e in ground (arith, code_points_key.test_iff id k);
    distinct = p.distinct;
  }

  Inv-visit :
      (id : Text) (queue order : List Text)
      → contains order id ≡ false
      → Inv (id ∷ queue) order
      → Inv (queue ++ successors_at d id) (order ++ id ∷ [])
  unfolding contains
  Inv-visit id queue order h p =
      let now = λ (k : Text). contains-append queue (successors_at d id) k in
      let seen = λ (k : Text). contains-snoc order id k in
      let it : (contains (id ∷ queue) id || contains order id) ≡ true =
        ground (arith, code_points_key.test_iff id id) in
      record {
        sound = λ k q. ground (
          arith,
          now k,
          seen k,
          p.sound k,
          next {id = id} {succ = k} (p.sound id it),
          code_points_key.test_iff id k,
        );
        closed = λ k succ q e. ground (
          arith,
          now succ,
          seen succ,
          seen k,
          p.closed k succ,
          code_points_key.test_iff id k,
          code_points_key.test_iff id succ,
        );
        first = λ k e. ground (arith, now k, seen k, p.first k e, code_points_key.test_iff id k);
        distinct = IsDistinct-snoc order id p.distinct h;
      }

  visits :
      (fuel : ℕ) (queue order : List Text)
      → work d order + length queue ≤ fuel
      → Inv queue order
      → (result : List Text) × (visit_queue fuel d queue order ≡ some result) × Inv [] result
  unfolding visit_queue
  visits fuel [] order h p = (order, refl, p)
  visits zero (id ∷ queue) order h p = absurd (omega arith)
  visits (suc fuel) (id ∷ queue) order h p = elim (Bool-cases (contains order id)) [
    | inl seen ↦
        rw (seen, visit_queue)
          (visits fuel queue order (omega arith) (Inv-skip id queue order seen p))
    | inr new ↦
        rw (new, visit_queue)
          (visits fuel (queue ++ successors_at d id) (order ++ id ∷ [])
            (omega (arith, length-append queue (successors_at d id), work-visit d order id new))
            (Inv-visit id queue order new p))
  ]

  closes :
      (result : List Text)
      → Inv [] result
      → {id : Text} → Reached d roots id
      → contains result id ≡ true
  unfolding contains
  closes result p (root {id} e) = p.first id e
  closes result p (next {id} {succ} r e) = p.closed id succ (closes result p r) e

work-nothing : (d : Successors) → work d [] ≡ successor_count d
unfolding work successor_count contains
work-nothing [] = refl
work-nothing ((k, ids) ∷ d) = omega (arith, work-nothing d)

module _ (Json Float : Type 0) where
  -- The walk over a graph ends, cycles included, and its order has each event id that can be reached
  -- from the roots by the successor map exactly once, and no other.
  pub topo_order_visits :
      (graph : ReplayGraph Json Float)
      → (order : List Text) × (topo_order Json Float graph ≡ some order)
        × IsDistinct order
        × ((id : Text)
            → (contains order id ≡ true)
              ↔ Reached (successor_map Json Float graph) graph.root_event_ids id)
  unfolding topo_order contains
  topo_order_visits graph =
      let d = successor_map Json Float graph in
      let roots = graph.root_event_ids in
      let (order, e, p) =
        visits d roots (successor_count d + length roots) roots [] (omega (arith, work-nothing d))
          (record {
            sound = λ id q. root (ground arith);
            closed = λ id succ q. cc;
            first = λ id q. ground arith;
            distinct = tt;
          }) in
      (order, e, p.distinct, λ id. (p.sound id, closes d roots order p))
