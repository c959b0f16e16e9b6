-- ===== src/Load/Pool/Accounts.antt =====
-- How often a session is in each place of the pool, as sessions leave it.
use inference_perf.Prelude.{
  ℕ, suc, ◌+◌, ◌≤◌, ◌≡◌, refl, Bool, true, List, [], ◌∷◌, ◌++◌, length, length-append, nat_beq,
  is_empty, if◌then◌else◌, Eq, arith, number_key,
}
use inference_perf.Prelude.Dict.{contains, discard, add}
use inference_perf.Prelude.Text.{Text, code_points_key}
use inference_perf.Load.Pool.{Pool, collect, retire}

-- How often a number is in a list.
unfoldable pub occurs : ℕ → List ℕ → ℕ
occurs j [] = 0
occurs j (i ∷ is) = (if nat_beq i j then 1 else 0) + occurs j is

pub occurs-append : (j : ℕ) (xs ys : List ℕ) → occurs j (xs ++ ys) ≡ occurs j xs + occurs j ys
unfolding occurs
occurs-append j [] ys = omega arith
occurs-append j (x ∷ xs) ys = omega (arith, occurs-append j xs ys)

pub occurs-discard :
    (j k : ℕ) (xs : List ℕ) → occurs j (discard xs k) ≡ (if nat_beq k j then 0 else occurs j xs)
unfolding occurs discard
occurs-discard j k [] = ground arith
occurs-discard j k (x ∷ xs) = ground (arith, occurs-discard j k xs)

pub length-discard : (k : ℕ) (xs : List ℕ) → length (discard xs k) + occurs k xs ≡ length xs
unfolding occurs discard
length-discard k [] = omega arith
length-discard k (x ∷ xs) = ground (arith, length-discard k xs)

pub contains-occurs : (j : ℕ) (xs : List ℕ) → contains xs j ≡ true → 1 ≤ occurs j xs
unfolding occurs contains
contains-occurs j [] h = cc
contains-occurs j (x ∷ xs) h = ground (arith, contains-occurs j xs)

pub occurs-add :
    (j k : ℕ) (xs : List ℕ)
    → occurs k xs ≡ 0
    → occurs j (add xs k) ≡ occurs j xs + (if nat_beq k j then 1 else 0)
unfolding occurs add
occurs-add j k xs h = ground (arith, contains-occurs k xs, occurs-append j xs (k ∷ []))

pub nil_of_length : (xs : List ℕ) → length xs ≡ 0 → xs ≡ []
nil_of_length [] h = refl
nil_of_length (x ∷ xs) h = absurd (omega arith)

pub is_empty-length : (xs : List ℕ) → is_empty xs ≡ true → length xs ≡ 0
is_empty-length [] h = refl
is_empty-length (x ∷ xs) h = cc

pub length-add_absent :
    (k : ℕ) (xs : List ℕ) → occurs k xs ≡ 0 → length (add xs k) ≡ suc (length xs)
unfolding add
length-add_absent k xs h = ground (arith, contains-occurs k xs, length-append xs (k ∷ []))

pub length-add-le {ℓ} :
    {K : Type ℓ} ⦃e : Eq K⦄ (xs : List K) (k : K) → length (add xs k) ≤ suc (length xs)
unfolding add
length-add-le xs k = ground (arith, length-append xs (k ∷ []))

module _ (id_of : ℕ → Text) (buildable : ℕ → Bool) (concurrent_sessions : ℕ) where
  -- All the places where a session can be.
  abbrev pub places : ℕ → Pool → ℕ
  places j s = occurs j s.pending + occurs j s.active + occurs j s.measured + occurs j s.skipped

  pub collect-occurs :
      (done : ℕ → Bool) (ids : List Text) (active : List ℕ) (j : ℕ)
      → occurs j (collect id_of buildable concurrent_sessions done ids active).1 ≤ occurs j active
  unfolding collect occurs
  collect-occurs done ids [] j = omega arith
  collect-occurs done ids (i ∷ active) j =
      ground
        (arith, collect-occurs done (add ids (id_of i)) active j, collect-occurs done ids active j)

  pub collect-ids :
      (done : ℕ → Bool) (ids : List Text) (active : List ℕ)
      → length (collect id_of buildable concurrent_sessions done ids active).0
        ≤ length ids + length (collect id_of buildable concurrent_sessions done ids active).1
  unfolding collect
  collect-ids done ids [] = omega arith
  collect-ids done ids (i ∷ active) = ground (
    arith,
    collect-ids done (add ids (id_of i)) active,
    collect-ids done ids active,
    length-add-le ids (id_of i),
  )

  abbrev pub retired : Pool → List ℕ → Pool
  retired = retire id_of buildable concurrent_sessions

  pub retire-counts :
      (newly : List ℕ) (s : Pool)
      → ((j : ℕ) → occurs j newly ≤ occurs j s.active)
      → ((j : ℕ) → occurs j s.active ≤ 1)
      → ((j : ℕ) → places j (retired s newly) ≡ places j s)
        × (length (retired s newly).pending
              + length (retired s newly).active
              + length (retired s newly).measured
              + length (retired s newly).skipped
            ≡ length s.pending + length s.active + length s.measured + length s.skipped)
        × (length (retired s newly).measured ≡ length s.measured + length newly)
        × (length (retired s newly).active ≤ length s.active)
  unfolding retire occurs
  retire-counts [] s h k = (λ j. refl, refl, omega arith, omega arith)
  retire-counts (i ∷ newly) s h k =
      let next = record s { active = discard s.active i; measured = s.measured ++ i ∷ [] } in
      let (p, q, r, t) =
        retire-counts newly next (λ j. ground (arith, h j, k j, occurs-discard j i s.active))
          (λ j. ground (arith, k j, occurs-discard j i s.active)) in
      (
        λ j. ground (
          arith,
          p j,
          h j,
          k j,
          occurs-discard j i s.active,
          occurs-append j s.measured (i ∷ []),
        ),
        ground (arith, h i, k i, length-discard i s.active, length-append s.measured (i ∷ [])),
        omega (arith, length-append s.measured (i ∷ [])),
        omega (arith, length-discard i s.active),
      )

  pub retire-keeps :
      (newly : List ℕ) (s : Pool)
      → ((retired s newly).completed_session_ids ≡ s.completed_session_ids)
        × ((retired s newly).skipped ≡ s.skipped)
        × ((retired s newly).pending ≡ s.pending)
  unfolding retire
  retire-keeps [] s = (refl, refl, refl)
  retire-keeps (i ∷ newly) s =
      retire-keeps newly (record s { active = discard s.active i; measured = s.measured ++ i ∷ [] })
