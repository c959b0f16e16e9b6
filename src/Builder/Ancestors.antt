-- ===== src/Builder/Ancestors.antt =====
-- The search with a stack that `get_causal_ancestors` and `all_ancestor_indices` of
-- datagen/replay/otel_trace_to_replay_graph.py run, over the predecessors of each node, and what it
-- finds. The head of the stack is its top.
use inference_perf.Prelude.{
  ℕ, zero, suc, ◌+◌, ◌≤◌, ◌≡◌, refl, ◌↔◌, inl, inr, true, false, ◌||◌, Option, none, some, List, [],
  ◌∷◌, length, get_or, if◌then◌else◌, arith, Bool-cases, number_key,
}
use inference_perf.Prelude.Dict.{contains, add, contains-add, contains-add_self}

-- `stack.extend(nodes)`.
unfoldable pub extend : List ℕ → List ℕ → List ℕ
extend stack [] = stack
extend stack (v ∷ nodes) = extend (v ∷ stack) nodes

unfoldable pub search : ℕ → List (List ℕ) → (stack visited : List ℕ) → Option (List ℕ)
search zero edges [] visited = some visited
search zero edges (v ∷ stack) visited = none
search (suc fuel) edges [] visited = some visited
search (suc fuel) edges (v ∷ stack) visited = elim (contains visited v) [
  | true ↦ search fuel edges stack visited
  | false ↦ search fuel edges (extend stack (get_or edges v [])) (add visited v)
]

-- A node enters the stack once for each edge out of a visited node.
unfoldable pub edge_count : List (List ℕ) → ℕ
edge_count [] = 0
edge_count (es ∷ edges) = length es + edge_count edges

unfoldable pub visited_or_none : Option (List ℕ) → List ℕ
visited_or_none none = []
visited_or_none (some visited) = visited

unfoldable pub ancestors : List (List ℕ) → ℕ → List ℕ
unfolding search edge_count visited_or_none extend
ancestors edges i =
    let stack = extend [] (get_or edges i []) in
    visited_or_none (search (edge_count edges + length stack) edges stack [])

-- `v` is a predecessor of `u`.
abbrev pub Edge : List (List ℕ) → ℕ → ℕ → Type 0
Edge edges u v = contains (get_or edges u []) v ≡ true

-- The transitive closure of the predecessors.
pub data Ancestor (edges : List (List ℕ)) (u : ℕ) : ℕ → Type 0 where
  direct : {v : ℕ} → Edge edges u v → Ancestor edges u v
  beyond : {v w : ℕ} → Ancestor edges u v → Edge edges v w → Ancestor edges u w

-- The edges out of the nodes from `i` on that are not visited.
work : ℕ → List (List ℕ) → List ℕ → ℕ
work i [] visited = 0
work i (es ∷ edges) visited =
    (if contains visited i then 0 else length es) + work (suc i) edges visited

work-past :
    (i : ℕ) (edges : List (List ℕ)) (visited : List ℕ) (v : ℕ)
    → suc v ≤ i
    → work i edges (add visited v) ≡ work i edges visited
unfolding work
work-past i [] visited v h = refl
work-past i (es ∷ edges) visited v h =
    ground (arith, contains-add visited v i, work-past (suc i) edges visited v)

work-add :
    (i k v : ℕ) (edges : List (List ℕ)) (visited : List ℕ)
    → i + k ≡ v
    → contains visited v ≡ false
    → work i edges (add visited v) + length (get_or edges k []) ≡ work i edges visited
unfolding work
work-add i k v [] visited e h = ground arith
work-add i zero v (es ∷ edges) visited e h =
    let same : v ≡ i = omega arith in
    let here : contains (add visited v) i ≡ true = rw same (contains-add_self visited i) in
    let before : contains visited i ≡ false = rw same at h in
    ground (arith, work-past (suc i) edges visited v)
work-add i (suc k) v (es ∷ edges) visited e h =
    ground (arith, contains-add visited v i, work-add (suc i) k v edges visited)

length-extend : (stack nodes : List ℕ) → length (extend stack nodes) ≡ length stack + length nodes
unfolding extend
length-extend stack [] = omega arith
length-extend stack (v ∷ nodes) = omega (arith, length-extend (v ∷ stack) nodes)

contains-extend :
    (stack nodes : List ℕ) (v : ℕ)
    → contains (extend stack nodes) v ≡ (contains stack v || contains nodes v)
unfolding extend contains
contains-extend stack [] v = ground arith
contains-extend stack (u ∷ nodes) v = ground (arith, contains-extend (u ∷ stack) nodes v)

work-nothing : (i : ℕ) (edges : List (List ℕ)) → work i edges [] ≡ edge_count edges
unfolding work edge_count contains
work-nothing i [] = refl
work-nothing i (es ∷ edges) = omega (arith, work-nothing (suc i) edges)

module _ (edges : List (List ℕ)) (i : ℕ) where
  -- What the search knows: the nodes that it has seen are ancestors, and an edge out of a visited
  -- node leads to a node that it has seen.
  record Inv (stack visited : List ℕ) : Type 0 where
    sound : (v : ℕ) → (contains stack v || contains visited v) ≡ true → Ancestor edges i v
    closed :
        (u v : ℕ)
        → contains visited u ≡ true
        → Edge edges u v
        → (contains stack v || contains visited v) ≡ true
    complete : (v : ℕ) → Edge edges i v → (contains stack v || contains visited v) ≡ true

  Inv-skip :
      (v : ℕ) (stack visited : List ℕ)
      → contains visited v ≡ true
      → Inv (v ∷ stack) visited
      → Inv stack visited
  unfolding contains
  Inv-skip v stack visited h p = record {
    sound = λ w q. p.sound w (ground arith);
    closed = λ u w q e. let seen = p.closed u w q e in ground (arith, number_key.test_iff v w);
    complete = λ w e. let seen = p.complete w e in ground (arith, number_key.test_iff v w);
  }

  Inv-visit :
      (v : ℕ) (stack visited : List ℕ)
      → Inv (v ∷ stack) visited
      → Inv (extend stack (get_or edges v [])) (add visited v)
  unfolding contains
  Inv-visit v stack visited p =
      let nodes = get_or edges v [] in
      let now = λ (w : ℕ). contains-extend stack nodes w in
      let seen = λ (w : ℕ). contains-add visited v w in
      let it : (contains (v ∷ stack) v || contains visited v) ≡ true =
        ground (arith, number_key.test_iff v v) in
      record {
        sound = λ w q. ground (
          arith,
          now w,
          seen w,
          p.sound w,
          beyond {v = v} {w = w} (p.sound v it),
          number_key.test_iff v w,
        );
        closed = λ u w q e. ground (
          arith,
          now w,
          seen w,
          seen u,
          p.closed u w,
          number_key.test_iff v u,
          number_key.test_iff v w,
        );
        complete = λ w e. ground (arith, now w, seen w, p.complete w e, number_key.test_iff v w);
      }

search-finds :
    (edges : List (List ℕ)) (i fuel : ℕ) (stack visited : List ℕ)
    → work 0 edges visited + length stack ≤ fuel
    → Inv edges i stack visited
    → (found : List ℕ) × (search fuel edges stack visited ≡ some found) × Inv edges i [] found
unfolding search
search-finds edges i zero [] visited h p = (visited, refl, p)
search-finds edges i zero (v ∷ stack) visited h p = absurd (omega arith)
search-finds edges i (suc fuel) [] visited h p = (visited, refl, p)
search-finds edges i (suc fuel) (v ∷ stack) visited h p = elim (Bool-cases (contains visited v)) [
  | inl seen ↦
      rw (seen, search)
        (search-finds edges i fuel stack visited (omega arith)
          (Inv-skip edges i v stack visited seen p))
  | inr new ↦
      rw (new, search)
        (search-finds edges i fuel (extend stack (get_or edges v [])) (add visited v)
          (omega (
            arith,
            length-extend stack (get_or edges v []),
            work-add 0 v v edges visited (omega arith) new,
          ))
          (Inv-visit edges i v stack visited p))
]

ancestors-finds :
    (edges : List (List ℕ)) (i : ℕ)
    → (found : List ℕ) × (search
          (edge_count edges + length (extend [] (get_or edges i [])))
          edges
          (extend [] (get_or edges i []))
          []
        ≡ some found)
      × Inv edges i [] found
unfolding contains
ancestors-finds edges i =
    let nodes = get_or edges i [] in
    let now = λ (v : ℕ). contains-extend [] nodes v in
    search-finds edges i _ (extend [] nodes) [] (omega (arith, work-nothing 0 edges)) (record {
      sound = λ v q. direct (ground (arith, now v));
      closed = λ u v q e. cc;
      complete = λ v e. ground (arith, now v);
    })

closes :
    (edges : List (List ℕ)) (i : ℕ) (found : List ℕ)
    → Inv edges i [] found
    → {v : ℕ} → Ancestor edges i v
    → contains found v ≡ true
unfolding contains
closes edges i found p (direct {v} e) = p.complete v e
closes edges i found p (beyond {v} {w} a e) = p.closed v w (closes edges i found p a) e

-- The search with a stack ends, whatever the edges between the nodes, cycles included: for a step for
-- each edge and each node that it starts with it returns a set, the one that `ancestors` gives, and
-- its nodes are exactly the ancestors of the node that the search started from.
pub search_decides :
    (edges : List (List ℕ)) (i : ℕ)
    → (found : List ℕ) × (search
          (edge_count edges + length (get_or edges i []))
          edges
          (extend [] (get_or edges i []))
          []
        ≡ some found)
      × (ancestors edges i ≡ found)
      × ((v : ℕ) → (contains found v ≡ true) ↔ Ancestor edges i v)
unfolding ancestors visited_or_none contains
search_decides edges i =
    let (found, e, p) = ancestors-finds edges i in
    let size : length (extend [] (get_or edges i [])) ≡ length (get_or edges i []) =
      omega (arith, length-extend [] (get_or edges i [])) in
    (found, rw size at e, rw (ancestors, e) refl, λ v. (p.sound v, closes edges i found p))

pub contains-ancestors :
    (edges : List (List ℕ)) (i v : ℕ) → (contains (ancestors edges i) v ≡ true) ↔ Ancestor edges i v
contains-ancestors edges i v =
    let (found, e, same, decides) = search_decides edges i in rw same (decides v)
