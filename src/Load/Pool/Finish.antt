-- ===== src/Load/Pool/Finish.antt =====
-- A stage whose sessions all come to an end is completed.
use inference_perf.Prelude.{
  ℕ, suc, ◌+◌, ◌≤◌, ◌<◌, ◌≡◌, refl, ap, ◌⊎◌, inl, inr, Bool, true, false, ◌&&◌, not, List, [], ◌∷◌,
  ◌++◌, length, All, arith, Bool-cases, number_key,
}
use mathlib.Core.Logic.{⊎_elim}
use inference_perf.Prelude.Dict.{contains, discard, add, contains-add}
use inference_perf.Prelude.Text.{Text, code_points_key}
use inference_perf.Load.Pool.{
  completed, Observation, Pool, collect, retire, check_completed, dispatch_session, has_room, fill,
  work, is_finished, round, rounds, resume,
}
use inference_perf.Load.Pool.Accounts.{occurs, occurs-discard, occurs-add, retired, retire-keeps}
use inference_perf.Load.Pool.Rounds.{
  Sound, check_completed-Sound, dispatch_session-Sound, work-Sound,
}

-- Nothing cuts the round short, every active session is completed, and the rate holds none back.
pub record IsQuiet (o : Observation) : Type 0 where
  pub no_interrupt : o.interrupt_sig ≡ false
  pub no_breaker : o.breaker_open ≡ false
  pub in_time : o.out_of_time ≡ false
  pub all_alive : o.worker_dead ≡ false
  pub all_completed : (i : ℕ) → o.session_completed i ≡ true
  pub rate_free : (n : ℕ) → o.rate_allows n ≡ true

none_there : (j : ℕ) → ¬ (1 ≤ occurs j [])
unfolding occurs
none_there j q = omega arith

nil_of_occurs : (xs : List ℕ) → ((j : ℕ) → occurs j xs ≡ 0) → xs ≡ []
unfolding occurs
nil_of_occurs [] h = refl
nil_of_occurs (x ∷ xs) h = absurd (ground (arith, h x))

module _ (id_of : ℕ → Text) (buildable : ℕ → Bool) (concurrent_sessions : ℕ)
    (injective : (i j : ℕ) → id_of i ≡ id_of j → i ≡ j) where
  -- No session that is active or pending has its id among the completed ones.
  abbrev pub Fresh : List Text → List ℕ → Type 0
  Fresh ids js = (j : ℕ) → 1 ≤ occurs j js → contains ids (id_of j) ≡ false

  Fresh-add :
      (ids : List Text) (i : ℕ) (js : List ℕ)
      → occurs i js ≡ 0
      → Fresh ids js
      → Fresh (add ids (id_of i)) js
  Fresh-add ids i js h p j q = ground (
    arith,
    contains-add ids (id_of i) (id_of j),
    code_points_key.test_iff (id_of i) (id_of j),
    injective i j,
    p j q,
  )

  -- Where all the active sessions are completed, all of them are new, and the others stay fresh.
  collect-all :
      (done : ℕ → Bool) (ids : List Text) (active others : List ℕ)
      → ((i : ℕ) → done i ≡ true)
      → ((j : ℕ) → occurs j active + occurs j others ≤ 1)
      → Fresh ids active
      → Fresh ids others
      → ((collect id_of buildable concurrent_sessions done ids active).1 ≡ active)
        × Fresh (collect id_of buildable concurrent_sessions done ids active).0 others
  unfolding collect occurs
  collect-all done ids [] others d h p q = (refl, q)
  collect-all done ids (i ∷ active) others d h p q =
      let new : (done i && not (contains ids (id_of i))) ≡ true = ground (arith, d i, p i) in
      let (same, fresh) =
        collect-all done (add ids (id_of i)) active others d (λ j. ground (arith, h j))
          (Fresh-add ids i active (ground (arith, h i)) (λ j r. p j (ground arith)))
          (Fresh-add ids i others (ground (arith, h i)) q) in
      rw (new, collect) (ap (◌∷◌ i) same, fresh)

  retire-all :
      (newly : List ℕ) (s : Pool)
      → ((j : ℕ) → occurs j s.active ≤ occurs j newly)
      → ((j : ℕ) → occurs j s.active ≤ 1)
      → (retired id_of buildable concurrent_sessions s newly).active ≡ []
  unfolding retire occurs
  retire-all [] s h k = nil_of_occurs s.active (λ j. omega (arith, h j))
  retire-all (i ∷ newly) s h k =
      retire-all newly (record s { active = discard s.active i; measured = s.measured ++ i ∷ [] })
        (λ j. ground (arith, h j, occurs-discard j i s.active))
        (λ j. ground (arith, k j, occurs-discard j i s.active))

  module _ (slice : List ℕ) (distinct : (j : ℕ) → occurs j slice ≤ 1) where
    check-all :
        (done : ℕ → Bool) (s : Pool)
        → ((i : ℕ) → done i ≡ true)
        → Sound id_of buildable concurrent_sessions slice s
        → Fresh s.completed_session_ids s.active
        → Fresh s.completed_session_ids s.pending
        → ((check_completed id_of buildable concurrent_sessions done s).active ≡ [])
          × ((check_completed id_of buildable concurrent_sessions done s).pending ≡ s.pending)
          × Fresh
              (check_completed id_of buildable concurrent_sessions done s).completed_session_ids
              s.pending
    unfolding check_completed
    check-all done s d p f g =
        let all =
          collect id_of buildable concurrent_sessions done s.completed_session_ids s.active in
        let (same, fresh) =
          collect-all done s.completed_session_ids s.active s.pending d
            (λ j. omega (arith, p.placed j, distinct j)) f g in
        let s' = record s { completed_session_ids = all.0 } in
        let (ids, skipped, pending) = retire-keeps id_of buildable concurrent_sessions all.1 s' in
        (
          retire-all all.1 s' (λ j. rw same (omega arith))
              (λ j. omega (arith, p.placed j, distinct j)),
          pending,
          rw ids fresh,
        )

    -- Both the active and the pending sessions are fresh.
    abbrev pub AreFresh : Pool → Type 0
    AreFresh s = Fresh s.completed_session_ids s.active × Fresh s.completed_session_ids s.pending

    dispatch-AreFresh :
        (i : ℕ) (pending : List ℕ) (s : Pool)
        → Sound id_of buildable concurrent_sessions slice (record s { pending = i ∷ pending })
        → AreFresh (record s { pending = i ∷ pending })
        → AreFresh (record (dispatch_session id_of buildable concurrent_sessions s i) {
          pending = pending;
        })
    unfolding dispatch_session occurs
    dispatch-AreFresh i pending s p (f, g) =
        let alone : (occurs i s.active ≡ 0) × (occurs i pending ≡ 0) =
          ground (arith, p.placed i, distinct i) in
        elim (Bool-cases (buildable i)) [
          | inl built ↦
              rw (built, dispatch_session)
                (
                  λ j q. ground (arith, occurs-add j i s.active alone.0, f j, g j),
                  λ j q. g j (ground arith),
                )
          | inr unbuilt ↦
              rw (unbuilt, dispatch_session)
                (
                  Fresh-add s.completed_session_ids i s.active alone.0 f,
                  Fresh-add s.completed_session_ids i pending alone.1 (λ j q. g j (ground arith)),
                )
        ]

    fill-AreFresh :
        (rate_allows : ℕ → Bool) (pending : List ℕ) (s : Pool)
        → Sound id_of buildable concurrent_sessions slice (record s { pending = pending })
        → AreFresh (record s { pending = pending })
        → AreFresh (fill id_of buildable concurrent_sessions rate_allows pending s)
          × (length (fill id_of buildable concurrent_sessions rate_allows pending s).pending
              ≤ length pending)
    unfolding fill
    fill-AreFresh rate_allows [] s p f = (f, omega arith)
    fill-AreFresh rate_allows (i ∷ pending) s p f =
        elim (Bool-cases (
          has_room id_of buildable concurrent_sessions s.active
          && rate_allows (suc (length pending)))) [
            | inl go ↦
                let next = dispatch_session id_of buildable concurrent_sessions s i in
                let (fresh, fewer) =
                  fill-AreFresh rate_allows pending next
                    (dispatch_session-Sound id_of buildable concurrent_sessions slice distinct i
                      pending s (ground arith) p)
                    (dispatch-AreFresh i pending s p f) in
                rw (go, fill) (fresh, omega arith)
            | inr stop ↦ rw (stop, fill) (f, omega arith)
          ]

    -- An empty pool starts a session if there is one.
    fill-progress :
        (rate_allows : ℕ → Bool) (i : ℕ) (pending : List ℕ) (s : Pool)
        → s.active ≡ []
        → ((n : ℕ) → rate_allows n ≡ true)
        → Sound id_of buildable concurrent_sessions slice (record s { pending = i ∷ pending })
        → AreFresh (record s { pending = i ∷ pending })
        → length (fill id_of buildable concurrent_sessions rate_allows (i ∷ pending) s).pending
          ≤ length pending
    unfolding fill has_room
    fill-progress rate_allows i pending s e r p f =
        let room : has_room id_of buildable concurrent_sessions s.active ≡ true =
          rw e (ground arith) in
        let free = r (suc (length pending)) in
        let next = dispatch_session id_of buildable concurrent_sessions s i in
        rw (room, free, fill)
          (fill-AreFresh rate_allows pending next
            (dispatch_session-Sound id_of buildable concurrent_sessions slice distinct i pending s
              room p)
            (dispatch-AreFresh i pending s p f)).1

    fill-steps :
        (rate_allows : ℕ → Bool) (pending : List ℕ) (s : Pool)
        → s.active ≡ []
        → ((n : ℕ) → rate_allows n ≡ true)
        → Sound id_of buildable concurrent_sessions slice (record s { pending = pending })
        → AreFresh (record s { pending = pending })
        → (is_finished id_of buildable concurrent_sessions
              (length slice)
              (fill id_of buildable concurrent_sessions rate_allows pending s)
            ≡ true)
          ⊎ (length (fill id_of buildable concurrent_sessions rate_allows pending s).pending
              < length pending)
    unfolding fill is_finished
    fill-steps rate_allows [] s e r p f = inl (rw e (ground arith))
    fill-steps rate_allows (i ∷ pending) s e r p f =
        inr (omega (arith, fill-progress rate_allows i pending s e r p f))

    work-steps :
        (o : Observation) (s : Pool)
        → IsQuiet o
        → Sound id_of buildable concurrent_sessions slice s
        → AreFresh s
        → AreFresh (work id_of buildable concurrent_sessions o s)
          × ((is_finished id_of buildable concurrent_sessions
                  (length slice)
                  (work id_of buildable concurrent_sessions o s)
                ≡ true)
              ⊎ (length (work id_of buildable concurrent_sessions o s).pending < length s.pending))
    unfolding work
    work-steps o s quiet p (f, g) =
        let t = check_completed id_of buildable concurrent_sessions o.session_completed s in
        let (no_active, same, fresh) = check-all o.session_completed s quiet.all_completed p f g in
        let sound =
          (check_completed-Sound id_of buildable concurrent_sessions slice distinct
            o.session_completed s p).0 in
        let fresh' : AreFresh t = (rw no_active (λ j q. absurd (none_there j q)), rw same fresh) in
        (
          (fill-AreFresh o.rate_allows t.pending t sound fresh').0,
          ⊎_elim inl (λ h. inr (omega (arith, h, ap length same)))
              (fill-steps o.rate_allows t.pending t no_active quiet.rate_free sound fresh'),
        )

    -- Rounds that are quiet, more of them than there are sessions, complete the stage.
    pub rounds_complete :
        (observations : List Observation) (s : Pool)
        → All IsQuiet observations
        → Sound id_of buildable concurrent_sessions slice s
        → AreFresh s
        → length s.pending < length observations
        → (rounds id_of buildable concurrent_sessions (length slice) observations s).1 ≡ completed
    unfolding rounds round resume
    rounds_complete [] s q p f h = absurd (omega arith)
    rounds_complete (o ∷ observations) s (quiet, rest) p f h =
        let (fresh, step) = work-steps o s quiet p f in
        let sound = work-Sound id_of buildable concurrent_sessions slice distinct o s p in
        let after = work id_of buildable concurrent_sessions o s in
        elim (Bool-cases (is_finished id_of buildable concurrent_sessions (length slice) after)) [
          | inl done ↦
              rw (quiet.no_interrupt, quiet.no_breaker, quiet.in_time, quiet.all_alive, done) refl
          | inr more ↦
              rw (quiet.no_interrupt, quiet.no_breaker, quiet.in_time, quiet.all_alive, more)
                (rounds_complete observations after rest sound fresh (ground arith))
        ]
