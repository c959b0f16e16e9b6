-- ===== src/Prelude/Dict.antt =====
-- Python's `dict` and `set`, as association lists and lists over keys with an equality test.
-- A write to a key that is there keeps the key's place, as Python does; a new key goes last.
use Prim.Native.Nat.{suc}
use inference_perf.Prelude.Lists.{length, length-append}
use inference_perf.Prelude.Tests.{Eq, ◌==◌, if◌then◌else◌}
use mathlib.Core.Path.{◌≡◌, refl}
use mathlib.Core.Bool.{Bool, true, false, ◌||◌}
use mathlib.Core.List.{List, [], ◌∷◌, ◌++◌}
use mathlib.Core.Option.{Option, none, some}
use native.Mathlib.Omega.{arith}

abbrev pub Dict {ℓ} : Type ℓ → Type ℓ → Type ℓ
Dict K V = List (K × V)

module _ {ℓ} {K V : Type ℓ} ⦃e : Eq K⦄ where
  unfoldable pub get : Dict K V → K → Option V
  get [] k = none
  get ((j, v) ∷ d) k = if j == k then some v else get d k

  unfoldable pub put : Dict K V → K → V → Dict K V
  put [] k v = (k, v) ∷ []
  put ((j, w) ∷ d) k v = if j == k then (j, v) ∷ d else (j, w) ∷ put d k v

  -- `pop(k, None)`.
  unfoldable pub pop : Dict K V → K → Dict K V
  pop [] k = []
  pop ((j, w) ∷ d) k = let rest = pop d k in if j == k then rest else (j, w) ∷ rest

  pub get-put :
      (d : Dict K V) (k j : K) (v : V) → get (put d k v) j ≡ (if k == j then some v else get d j)
  unfolding get put
  get-put [] k j v = refl
  get-put ((i, w) ∷ d) k j v =
      ground (arith, get-put d k j v, e.test_iff i k, e.test_iff i j, e.test_iff k j)

  pub get-put_self : (d : Dict K V) (k : K) (v : V) → get (put d k v) k ≡ some v
  get-put_self d k v = ground (arith, get-put d k k v, e.test_iff k k)

  pub length-put_new :
      (d : Dict K V) (k : K) (v : V) → get d k ≡ none → length (put d k v) ≡ suc (length d)
  unfolding get put
  length-put_new [] k v h = refl
  length-put_new ((j, w) ∷ d) k v h = ground (arith, length-put_new d k v)

  pub get-pop : (d : Dict K V) (k j : K) → get (pop d k) j ≡ (if k == j then none else get d j)
  unfolding get pop
  get-pop [] k j = ground arith
  get-pop ((i, w) ∷ d) k j =
      ground (arith, get-pop d k j, e.test_iff i k, e.test_iff i j, e.test_iff k j)

module _ {ℓ} {K : Type ℓ} ⦃e : Eq K⦄ where
  unfoldable pub contains : List K → K → Bool
  contains [] k = false
  contains (x ∷ xs) k = x == k || contains xs k

  unfoldable pub add : List K → K → List K
  add xs k = if contains xs k then xs else xs ++ k ∷ []

  unfoldable pub discard : List K → K → List K
  discard [] k = []
  discard (x ∷ xs) k = let rest = discard xs k in if x == k then rest else x ∷ rest

  pub contains-snoc :
      (xs : List K) (k j : K) → contains (xs ++ k ∷ []) j ≡ (contains xs j || k == j)
  unfolding contains
  contains-snoc [] k j = ground arith
  contains-snoc (x ∷ xs) k j = ground (arith, contains-snoc xs k j)

  contains-eq :
      (xs : List K) (k j : K) → contains xs k ≡ true → (k == j) ≡ true → contains xs j ≡ true
  unfolding contains
  contains-eq [] k j h q = cc
  contains-eq (x ∷ xs) k j h q =
      ground (arith, contains-eq xs k j, e.test_iff x k, e.test_iff k j, e.test_iff x j)

  pub contains-add : (xs : List K) (k j : K) → contains (add xs k) j ≡ (contains xs j || k == j)
  unfolding add
  contains-add xs k j = ground (arith, contains-snoc xs k j, contains-eq xs k j)

  pub contains-add_self : (xs : List K) (k : K) → contains (add xs k) k ≡ true
  contains-add_self xs k = ground (arith, contains-add xs k k, e.test_iff k k)

  pub length-add_new :
      (xs : List K) (k : K) → contains xs k ≡ false → length (add xs k) ≡ suc (length xs)
  unfolding add
  length-add_new xs k h = ground (arith, length-append xs (k ∷ []))

  pub contains-discard :
      (xs : List K) (k j : K)
      → contains (discard xs k) j ≡ (if k == j then false else contains xs j)
  unfolding contains discard
  contains-discard [] k j = ground arith
  contains-discard (x ∷ xs) k j =
      ground (arith, contains-discard xs k j, e.test_iff x k, e.test_iff x j, e.test_iff k j)

pub ruleset dict_laws = (get-put, get-pop, contains-add, contains-discard)
