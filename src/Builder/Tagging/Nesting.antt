-- ===== src/Builder/Tagging/Nesting.antt =====
-- A span is nested under the execution of a tool if one of the spans above it executes a tool.
use inference_perf.Prelude.{
  ℕ, zero, suc, ◌+◌, ◌≤◌, ◌<◌, ◌≡◌, refl, ◌↔◌, ◌⊎◌, inl, inr, Bool, true, false, Option, none, some,
  List, [], ◌∷◌, length, if◌then◌else◌, arith, Bool-cases, Option-cases,
}
use mathlib.Core.Path.{subst}
use inference_perf.Prelude.Dict
use inference_perf.Prelude.Dict.{Dict, contains, add, contains-add}
use inference_perf.Prelude.Text.{Text, code_points_key}
use inference_perf.Builder.Tagging.{
  Span, tool_exec_span_ids, span_by_id, truthy, parent_of, walk_up, or_false, is_nested,
}

-- The ids above one, by way of the spans' parents.
pub data Above (spans : Dict Text Span) (start : Text) : Text → Type 0 where
  here : Above spans start start
  up :
      {id next : Text}
      → Above spans start id
      → parent_of spans id ≡ some next
      → Above spans start next

-- The entries that are not visited.
free : Dict Text Span → List Text → ℕ
free [] visited = 0
free ((k, s) ∷ d) visited = (if contains visited k then 0 else 1) + free d visited

free-add-le :
    (d : Dict Text Span) (visited : List Text) (id : Text)
    → free d (add visited id) ≤ free d visited
unfolding free
free-add-le [] visited id = omega arith
free-add-le ((k, s) ∷ d) visited id =
    ground (arith, contains-add visited id k, free-add-le d visited id)

free-add :
    (d : Dict Text Span) (visited : List Text) (id : Text) (s : Span)
    → Dict.get d id ≡ some s
    → contains visited id ≡ false
    → free d (add visited id) < free d visited
unfolding free Dict.get
free-add [] visited id s e h = cc
free-add ((k, t) ∷ d) visited id s e h = ground (
  arith,
  contains-add visited id k,
  code_points_key.test_iff k id,
  code_points_key.test_iff id k,
  free-add-le d visited id,
  free-add d visited id s,
)

length-put : (d : Dict Text Span) (k : Text) (s : Span) → length (Dict.put d k s) ≤ suc (length d)
unfolding Dict.put
length-put [] k s = omega arith
length-put ((j, t) ∷ d) k s = ground (arith, length-put d k s)

length-span_by_id :
    (d : Dict Text Span) (spans : List Span) → length (span_by_id d spans) ≤ length d + length spans
unfolding span_by_id
length-span_by_id d [] = omega arith
length-span_by_id d (s ∷ spans) =
    omega (arith, length-span_by_id (Dict.put d s.span_id s) spans, length-put d s.span_id s)

free-nothing : (d : Dict Text Span) → free d [] ≡ length d
unfolding free contains
free-nothing [] = refl
free-nothing ((k, s) ∷ d) = omega (arith, free-nothing d)

module _ (spans : Dict Text Span) (tools : List Text) (start : Text) where
  abbrev pub IsTool : Text → Type 0
  IsTool id = contains tools id ≡ true

  -- The walk stands at `current`; what is visited executes no tool and has its parents visited, but
  -- for the one that is next.
  record Walk (visited : List Text) (current : Option Text) : Type 0 where
    sound : (id : Text) → current ≡ some id → Above spans start id
    first : (contains visited start ≡ true) ⊎ (current ≡ some start)
    closed :
        (id next : Text)
        → contains visited id ≡ true
        → parent_of spans id ≡ some next
        → (contains visited next ≡ true) ⊎ (current ≡ some next)
    none_found : (id : Text) → contains visited id ≡ true → contains tools id ≡ false

  -- Where the walk ends without a tool, all that is above has been visited.
  all_visited :
      (visited : List Text) (current : Option Text)
      → Walk visited current
      → ((id : Text) → current ≡ some id → contains visited id ≡ true)
      → (id : Text) → Above spans start id
      → contains visited id ≡ true
  all_visited visited current w ended id here = elim w.first [ inl e ↦ e | inr e ↦ ended id e ]
  all_visited visited current w ended id (up {id = before} a e) =
      elim (w.closed before id (all_visited visited current w ended before a) e) [
        | inl seen ↦ seen
        | inr now ↦ ended id now
      ]

  Walk-step :
      (visited : List Text) (id : Text)
      → Walk visited (some id)
      → contains tools id ≡ false
      → Walk (add visited id) (parent_of spans id)
  Walk-step visited id w no_tool = record {
    sound = λ next e. up (w.sound id refl) e;
    first = elim w.first [
      | inl old ↦ inl (ground (arith, contains-add visited id start))
      | inr now ↦
          inl (ground (arith, contains-add visited id start, code_points_key.test_iff id start))
    ];
    closed = λ k next h e. elim (was k h) [
      | inl old ↦ elim (w.closed k next old e) [
        | inl seen ↦ inl (ground (arith, contains-add visited id next))
        | inr now ↦
            inl (ground (arith, contains-add visited id next, code_points_key.test_iff id next))
      ]
      | inr same ↦ inr (rw same e)
    ];
    none_found =
        λ k h. elim (was k h) [ inl old ↦ w.none_found k old | inr same ↦ rw (← same) no_tool ];
  }
    where
      was : (k : Text) → contains (add visited id) k ≡ true → (contains visited k ≡ true) ⊎ (id ≡ k)
      was k h = ground (arith, contains-add visited id k, code_points_key.test_iff id k)

  abbrev Decides : Option Bool → Type 0
  Decides o =
      ((o ≡ some true) × (id : Text) × Above spans start id × IsTool id)
      ⊎ ((o ≡ some false) × ((id : Text) → Above spans start id → ¬ IsTool id))

  -- The walk ends at what it has seen, or at the top.
  ends :
      (visited : List Text) (current : Option Text)
      → Walk visited current
      → ((id : Text) → current ≡ some id → contains visited id ≡ true)
      → Decides (some false)
  ends visited current w ended = inr (
    refl,
    λ id a tool. let no_tool = w.none_found id (all_visited visited current w ended id a) in cc,
  )

  walk_up-Decides :
      (fuel : ℕ) (visited : List Text) (current : Option Text)
      → free spans visited < fuel
      → Walk visited current
      → Decides (walk_up fuel spans tools visited current)
  unfolding walk_up
  walk_up-Decides fuel visited none h w = ends visited none w (λ id e. cc)
  walk_up-Decides zero visited (some id) h w = absurd (omega arith)
  walk_up-Decides (suc fuel) visited (some id) h w = elim (Bool-cases (contains visited id)) [
    | inl seen ↦ rw (seen, walk_up) (ends visited (some id) w (λ k e. ground arith))
    | inr new ↦ elim (Bool-cases (contains tools id)) [
      | inl tool ↦ rw (new, walk_up, tool) (inl (refl, id, w.sound id refl, tool))
      | inr other ↦
          let next = Walk-step visited id w other in
          elim (Option-cases (Dict.get spans id)) [
            | inl e ↦
                let top : parent_of spans id ≡ none = rw (parent_of, e) refl in
                let next' : Walk (add visited id) none = rw top at next in
                let top_walk : walk_up fuel spans tools (add visited id) none ≡ some false = refl in
                rw (new, walk_up, other, top) (ends (add visited id) none next' (λ k q. cc))
            | inr (s, e) ↦
                rw (new, walk_up, other)
                  (walk_up-Decides fuel (add visited id) (parent_of spans id)
                    (omega (arith, free-add spans visited id s e new)) next)
          ]
    ]
  ]

-- A span counts as nested under the execution of a tool exactly if its parent, or a span above that
-- by the spans' parents, executes one; the chain of parents may be of any length, and may have a
-- cycle.
pub is_nested_iff :
    (spans : List Span) (s : Span)
    → (is_nested spans s ≡ true) ↔ (
        (parent : Text) × (truthy s.parent_span_id ≡ some parent)
        × (id : Text) × Above (span_by_id [] spans) parent id
        × (contains (tool_exec_span_ids spans) id ≡ true))
unfolding is_nested or_false walk_up contains
is_nested_iff spans s = elim (Option-cases (truthy s.parent_span_id)) [
  | inl e ↦ rw (e, is_nested) (λ q. cc, λ found. cc)
  | inr (parent, e) ↦
      let d = span_by_id [] spans in
      let tools = tool_exec_span_ids spans in
      let start : Walk d tools parent [] (some parent) = record {
        sound = λ id q. let same : parent ≡ id = cc in subst (Above d parent) same here;
        first = inr refl;
        closed = λ id next h. cc;
        none_found = λ id h. cc;
      } in
      let decided =
        walk_up-Decides d tools parent (suc (suc (length spans))) [] (some parent)
          (omega (arith, free-nothing d, length-span_by_id [] spans)) start in
      elim decided [
        | inl (found, id, a, tool) ↦
            rw (e, is_nested, found) (λ q. (parent, refl, id, a, tool), λ q. refl)
        | inr (not_found, nothing) ↦
            rw (e, is_nested, not_found)
              (
                λ q. cc,
                λ (p, same, id, a, tool).
                    let back : p ≡ parent = cc in
                    absurd (nothing id (subst (λ q. Above d q id) back a) tool),
              )
      ]
]
