-- ===== src/Load/Pool/Rounds.antt =====
-- Through the rounds of a stage every session stays in one place, and the pool within its room; a
-- stage that completes has ended each session.
use inference_perf.Prelude.{
  ℕ, suc, ◌+◌, ◌≤◌, ◌<◌, ◌≡◌, ap, inl, inr, Bool, true, ◌&&◌, List, [], ◌∷◌, length, length-append,
  arith, Bool-cases, number_key,
}
use inference_perf.Prelude.Text.{Text, code_points_key}
use inference_perf.Load.Pool.{
  StageStatus, running, completed, failed, timed_out, interrupted, Observation, Pool, start,
  collect, check_completed, dispatch_session, has_room, fill, work, is_finished, round, rounds,
  resume,
}
use inference_perf.Load.Pool.Accounts.{
  occurs, occurs-append, occurs-add, nil_of_length, is_empty-length, length-add_absent,
  length-add-le, places, collect-occurs, collect-ids, retire-counts, retire-keeps,
}

module _ (id_of : ℕ → Text) (buildable : ℕ → Bool) (concurrent_sessions : ℕ) where
  -- No session is in two places, and each completed id is that of a session measured or skipped.
  pub record Sound (slice : List ℕ) (s : Pool) : Type 0 where
    pub placed : (j : ℕ) → places id_of buildable concurrent_sessions j s ≡ occurs j slice
    pub sized :
        length s.pending + length s.active + length s.measured + length s.skipped ≡ length slice
    pub ids : length s.completed_session_ids ≤ length s.measured + length s.skipped
    pub within : 0 < concurrent_sessions → length s.active ≤ concurrent_sessions

  module _ (slice : List ℕ) (distinct : (j : ℕ) → occurs j slice ≤ 1) where
    pub check_completed-Sound :
        (done : ℕ → Bool) (s : Pool)
        → Sound slice s
        → Sound slice (check_completed id_of buildable concurrent_sessions done s)
          × (length (check_completed id_of buildable concurrent_sessions done s).active
              ≤ length s.active)
    unfolding check_completed
    check_completed-Sound done s p =
        let (ids, newly) =
          collect id_of buildable concurrent_sessions done s.completed_session_ids s.active in
        let s' = record s { completed_session_ids = ids } in
        let (places', sizes, more, fewer) =
          retire-counts id_of buildable concurrent_sessions newly s'
            (λ j.
              collect-occurs id_of buildable concurrent_sessions done s.completed_session_ids
                s.active j)
            (λ j. omega (arith, p.placed j, distinct j)) in
        let (same_ids, same_skipped, same_pending) =
          retire-keeps id_of buildable concurrent_sessions newly s' in
        (
          record {
            placed = λ j. omega (arith, places' j, p.placed j);
            sized = omega (arith, p.sized);
            ids = omega (
              arith,
              p.ids,
              collect-ids id_of buildable concurrent_sessions done s.completed_session_ids s.active,
              ap length same_ids,
              ap length same_skipped,
            );
            within = λ pos. omega (arith, p.within pos);
          },
          omega arith,
        )

    abbrev dispatched : Pool → ℕ → Pool
    dispatched = dispatch_session id_of buildable concurrent_sessions

    pub dispatch_session-Sound :
        (i : ℕ) (pending : List ℕ) (s : Pool)
        → has_room id_of buildable concurrent_sessions s.active ≡ true
        → Sound slice (record s { pending = i ∷ pending })
        → Sound slice (record (dispatched s i) { pending = pending })
    unfolding dispatch_session occurs has_room
    dispatch_session-Sound i pending s room p = elim (Bool-cases (buildable i)) [
      | inl built ↦
          let absent : occurs i s.active ≡ 0 = ground (arith, p.placed i, distinct i) in
          rw (built, dispatch_session)
            (record {
              placed = λ j. ground (arith, p.placed j, occurs-add j i s.active absent);
              sized = omega (arith, p.sized, length-add_absent i s.active absent);
              ids = p.ids;
              within = λ pos. ground (arith, length-add_absent i s.active absent);
            })
      | inr unbuilt ↦
          rw (unbuilt, dispatch_session)
            (record {
              placed = λ j. ground (arith, p.placed j, occurs-append j s.skipped (i ∷ []));
              sized = omega (arith, p.sized, length-append s.skipped (i ∷ []));
              ids = omega (
                arith,
                p.ids,
                length-append s.skipped (i ∷ []),
                length-add-le s.completed_session_ids (id_of i),
              );
              within = p.within;
            })
    ]

    pub fill-Sound :
        (rate_allows : ℕ → Bool) (pending : List ℕ) (s : Pool)
        → Sound slice (record s { pending = pending })
        → Sound slice (fill id_of buildable concurrent_sessions rate_allows pending s)
    unfolding fill
    fill-Sound rate_allows [] s p = p
    fill-Sound rate_allows (i ∷ pending) s p =
        elim (Bool-cases (
          has_room id_of buildable concurrent_sessions s.active
          && rate_allows (suc (length pending)))) [
            | inl go ↦
                rw (go, fill)
                  (fill-Sound rate_allows pending (dispatched s i)
                    (dispatch_session-Sound i pending s (ground arith) p))
            | inr stop ↦ rw (stop, fill) p
          ]

    pub work-Sound :
        (o : Observation) (s : Pool)
        → Sound slice s
        → Sound slice (work id_of buildable concurrent_sessions o s)
    unfolding work
    work-Sound o s p =
        let checked = check_completed id_of buildable concurrent_sessions o.session_completed s in
        fill-Sound o.rate_allows checked.pending checked
          (check_completed-Sound o.session_completed s p).0

    -- All the sessions are measured or skipped.
    abbrev pub AllEnded : Pool → Type 0
    AllEnded s =
        (s.active ≡ [])
        × (s.pending ≡ [])
        × ((j : ℕ) → occurs j s.measured + occurs j s.skipped ≡ occurs j slice)

    finished-AllEnded :
        (s : Pool)
        → Sound slice s
        → is_finished id_of buildable concurrent_sessions (length slice) s ≡ true
        → AllEnded s
    unfolding is_finished occurs
    finished-AllEnded s p h =
        let nothing : length s.pending + length s.active ≡ 0 =
          ground (arith, p.sized, p.ids, is_empty-length s.pending, is_empty-length s.active) in
        let active : s.active ≡ [] = nil_of_length s.active (omega arith) in
        let pending : s.pending ≡ [] = nil_of_length s.pending (omega arith) in
        (
          active,
          pending,
          λ j. let q = p.placed j in let q' = rw (active, pending) at q in omega arith,
        )

    round-Sound :
        (o : Observation) (s : Pool)
        → Sound slice s
        → Sound slice (round id_of buildable concurrent_sessions (length slice) o s).0
    unfolding round
    round-Sound o s p = ground (arith, p, work-Sound o s p)

    -- What holds of the loop's state and of how it ends.
    abbrev pub Outcome : Pool × StageStatus → Type 0
    Outcome r = Sound slice r.0 × (r.1 ≡ completed → AllEnded r.0)

    resume-Outcome :
        (end rest : Pool × StageStatus)
        → Outcome end
        → Outcome rest
        → Outcome (resume id_of buildable concurrent_sessions end rest)
    unfolding resume
    resume-Outcome (s, running) rest h k = k
    resume-Outcome (s, completed) rest h k = h
    resume-Outcome (s, failed) rest h k = h
    resume-Outcome (s, timed_out) rest h k = h
    resume-Outcome (s, interrupted) rest h k = h

    pub round-Outcome :
        (o : Observation) (s : Pool)
        → Sound slice s
        → Outcome (round id_of buildable concurrent_sessions (length slice) o s)
    unfolding round
    round-Outcome o s p =
        let q = work-Sound o s p in
        (
          round-Sound o s p,
          ground (arith, finished-AllEnded (work id_of buildable concurrent_sessions o s) q),
        )

    pub rounds-Outcome :
        (observations : List Observation) (s : Pool)
        → Sound slice s
        → Outcome (rounds id_of buildable concurrent_sessions (length slice) observations s)
    unfolding rounds
    rounds-Outcome [] s p = (p, λ e. cc)
    rounds-Outcome (o ∷ observations) s p =
        let end = round-Outcome o s p in
        resume-Outcome _ _ end (rounds-Outcome observations _ end.0)

    pub start-Sound : Sound slice (start slice)
    unfolding start occurs
    start-Sound = record {
      placed = λ j. omega arith;
      sized = omega arith;
      ids = omega arith;
      within = λ pos. omega arith;
    }
