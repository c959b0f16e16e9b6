-- ===== src/Replay/Progress/Failures.antt =====
-- What the parent makes of the payloads that it takes from the completion queue.
use inference_perf.Prelude.{
  ℕ, ◌≡◌, refl, ap, sym, ◌∙◌, Bool, true, ◌||◌, Option, none, some, List, [], ◌∷◌, ◌==◌,
  if◌then◌else◌, arith, Bool-cases, inl, inr, any, not, is_empty, Option-cases,
}
use inference_perf.Prelude.Dict
use inference_perf.Prelude.Dict.{Dict, get-put}
use inference_perf.Prelude.Text.{Text, code_points_key, text_beq_iff}
use inference_perf.Replay.Sessions.{Completion, SessionState, Runtime}
use inference_perf.Replay.Progress.{
  merge_times, complete_state, complete_one, complete_all, process_completion_queue,
  check_processed, check_session_completed, is_shared_failure,
}

-- The payloads of one session, oldest first.
unfoldable pub payloads_of : Text → List Completion → List Completion
payloads_of s [] = []
payloads_of s (c ∷ queue) =
    let rest = payloads_of s queue in if c.session_id == s then c ∷ rest else rest

module _ (Json Float : Type 0) where
  -- The states that a session goes through as its payloads are taken.
  pub complete_states : SessionState Json Float → List Completion → SessionState Json Float
  complete_states state [] = state
  complete_states state (c ∷ cs) = complete_states (complete_state Json Float state c) cs

  map_states : Option (SessionState Json Float) → List Completion → Option (SessionState Json Float)
  map_states none cs = none
  map_states (some state) cs = some (complete_states state cs)

  map_one :
      (states : Dict Text (SessionState Json Float)) (c : Completion) (queue : List Completion)
      (s : Text)
      → map_states (Dict.get (complete_one Json Float states c) s) (payloads_of s queue)
        ≡ map_states (Dict.get states s) (payloads_of s (c ∷ queue))
  unfolding complete_one payloads_of map_states complete_states
  map_one states c queue s = elim (Option-cases (Dict.get states c.session_id)) [
    | inl absent ↦ ground (arith, text_beq_iff c.session_id s)
    | inr (state, present) ↦ ground (
      arith,
      get-put states c.session_id s (complete_state Json Float state c),
      text_beq_iff c.session_id s,
    )
  ]

  get-complete_all :
      (states : Dict Text (SessionState Json Float)) (queue : List Completion) (s : Text)
      → Dict.get (complete_all Json Float states queue) s
        ≡ map_states (Dict.get states s) (payloads_of s queue)
  unfolding complete_all complete_one payloads_of map_states complete_states
  get-complete_all states [] s = ground arith
  get-complete_all states (c ∷ queue) s =
      get-complete_all (complete_one Json Float states c) queue s ∙ map_one states c queue s

  merge_times_keeps :
      (state : SessionState Json Float) (times : Dict Text ℕ)
      → ((merge_times Json Float state times).failed ≡ state.failed)
        × ((merge_times Json Float state times).failure_reason ≡ state.failure_reason)
  unfolding merge_times
  merge_times_keeps state [] = (refl, refl)
  merge_times_keeps state ((e, t) ∷ times) =
      let h =
        merge_times_keeps
          (if Dict.contains state.completed_events e then state else record state {
            completed_events = Dict.add state.completed_events e;
            event_completion_times = Dict.put state.event_completion_times e t;
          })
          times in
      (ground (arith, h.0), ground (arith, h.1))

  -- The first reason that a payload gives, after one that was there.
  pub first_reason : Option Text → List Completion → Option Text
  first_reason (some reason) cs = some reason
  first_reason none [] = none
  first_reason none (c ∷ cs) = first_reason c.failure_reason cs

  first_reason-nil : (o : Option Text) → first_reason o [] ≡ o
  unfolding first_reason
  first_reason-nil none = refl
  first_reason-nil (some x) = refl

  complete_state_keeps :
      (state : SessionState Json Float) (c : Completion)
      → ((complete_state Json Float state c).failed ≡ (state.failed || c.failed))
        × ((complete_state Json Float state c).failure_reason
            ≡ first_reason state.failure_reason (c ∷ []))
        × ((complete_state Json Float state c).is_complete ≡ true)
  unfolding complete_state first_reason
  complete_state_keeps state c =
      let h = merge_times_keeps state c.event_completion_times in
      (ground (arith, h.0), ground (arith, h.1), ground arith)

  first_reason-cons :
      (o : Option Text) (c : Completion) (cs : List Completion)
      → first_reason (first_reason o (c ∷ [])) cs ≡ first_reason o (c ∷ cs)
  unfolding first_reason
  first_reason-cons (some reason) c cs = refl
  first_reason-cons none c cs = ap (λ o. first_reason o cs) (first_reason-nil c.failure_reason)

  -- Failure is kept, the first reason is reported, and a session is complete once it has a payload.
  complete_states_keep :
      (state : SessionState Json Float) (cs : List Completion)
      → ((complete_states state cs).failed ≡ (state.failed || any (λ c. c.failed) cs))
        × ((complete_states state cs).failure_reason ≡ first_reason state.failure_reason cs)
        × ((complete_states state cs).is_complete ≡ (state.is_complete || not (is_empty cs)))
  unfolding complete_states
  complete_states_keep state [] =
      (ground arith, sym (first_reason-nil state.failure_reason), ground arith)
  complete_states_keep state (c ∷ cs) =
      let h = complete_state_keeps state c in
      let ih = complete_states_keep (complete_state Json Float state c) cs in
      (
        ground (arith, h.0, ih.0),
        ih.1 ∙ ap (λ o. first_reason o cs) h.1 ∙ first_reason-cons state.failure_reason c cs,
        ground (arith, h.2, ih.2),
      )

  processed_parts :
      (r : Runtime Json Float) (queue : List Completion) (s : Text)
      (state : SessionState Json Float)
      → r.session_completion_queue ≡ some queue
      → Dict.get r.session_graph_state s ≡ some state
      → (Dict.get (process_completion_queue Json Float r).session_graph_state s
          ≡ some (complete_states state (payloads_of s queue)))
        × ((process_completion_queue Json Float r).shared_failed_sessions
            ≡ r.shared_failed_sessions)
  unfolding process_completion_queue map_states
  processed_parts r queue s state has_queue known =
      (ground (arith, get-complete_all r.session_graph_state queue s), ground arith)

  -- What the parent knows of a session after it has checked for its completion.
  pub record Checked (before after : Runtime Json Float) (s : Text) (answer : Bool)
      (state : SessionState Json Float) (payloads : List Completion) : Type 0 where
    pub final : SessionState Json Float
    pub stored : Dict.get after.session_graph_state s ≡ some final
    pub failed : final.failed ≡ (state.failed || any (λ c. c.failed) payloads)
    pub reason : final.failure_reason ≡ first_reason state.failure_reason payloads
    pub complete : final.is_complete ≡ answer
    pub answered : answer ≡ (
        (state.is_complete || not (is_empty payloads))
        || is_shared_failure Json Float before.shared_failed_sessions s)

  check_processed_lem :
      (r : Runtime Json Float) (s : Text) (st : SessionState Json Float)
      → Dict.get r.session_graph_state s ≡ some st
      → (final : SessionState Json Float) × (Dict.get
            (check_processed Json Float r s).0.session_graph_state
            s
          ≡ some final)
        × (final.failed ≡ st.failed)
        × (final.failure_reason ≡ st.failure_reason)
        × (final.is_complete ≡ (check_processed Json Float r s).1)
        × ((check_processed Json Float r s).1
            ≡ (st.is_complete || is_shared_failure Json Float r.shared_failed_sessions s))
  unfolding check_processed
  check_processed_lem r s st h =
      elim (Bool-cases
        (st.is_complete || not (is_shared_failure Json Float r.shared_failed_sessions s))) [
          | inl kept ↦ (st, ground arith, refl, refl, ground arith, ground arith)
          | inr shared ↦ (
            record st { is_complete = true },
            ground (
              arith,
              get-put r.session_graph_state s s (record st { is_complete = true }),
              text_beq_iff s s,
            ),
            refl,
            refl,
            ground arith,
            ground arith,
          )
        ]

  -- After the parent has asked whether a known session is complete, with `queue` the payloads that the
  -- workers had sent: the answer is yes exactly when the session was complete before, or a payload for
  -- it had come, or it is among the shared failures; the stored state says the same; the session is
  -- failed exactly when it was before or one of its payloads says so; and its reason is the one that it
  -- had, or else the first that a payload gives.
  pub check_session_completed_lem :
      (r : Runtime Json Float) (queue : List Completion) (s : Text)
      (state : SessionState Json Float)
      → r.session_completion_queue ≡ some queue
      → Dict.get r.session_graph_state s ≡ some state
      → Checked r
          (check_session_completed Json Float r s).0
          s
          (check_session_completed Json Float r s).1
          state
          (payloads_of s queue)
  unfolding check_session_completed
  check_session_completed_lem r queue s state has_queue known =
      let r' = process_completion_queue Json Float r in
      let final = complete_states state (payloads_of s queue) in
      let keep = complete_states_keep state (payloads_of s queue) in
      let p = processed_parts r queue s state has_queue known in
      let c = check_processed_lem r' s final p.0 in
      record {
        final = c.0;
        stored = c.1;
        failed = c.2 ∙ keep.0;
        reason = c.3 ∙ keep.1;
        complete = c.4;
        answered =
            c.5
            ∙ ap (λ b. b || is_shared_failure Json Float r'.shared_failed_sessions s) keep.2
            ∙ ap
                (λ f.
                  (state.is_complete || not (is_empty (payloads_of s queue)))
                  || is_shared_failure Json Float f s)
                p.1;
      }
