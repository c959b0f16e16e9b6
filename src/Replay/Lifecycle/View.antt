-- ===== src/Replay/Lifecycle/View.antt =====
-- The ends of a session's events as steps of a small machine on what the worker knows of the session.
use inference_perf.Prelude.{
  ℕ, suc, ◌<◌, ◌≡◌, refl, ap, ◌∙◌, Bool, true, false, Option, none, some, List, [], ◌∷◌, ◌++◌,
  if◌then◌else◌, arith, Bool-cases, inl, inr, length, nat_beq, leb, Option-cases,
}
use inference_perf.Prelude.Dict
use inference_perf.Prelude.Dict.{Dict, get-put, contains-add}
use inference_perf.Prelude.Text.{Text, code_points_key, text_beq_iff}
use inference_perf.Replay.Ids.{raw_event_id}
use inference_perf.Replay.Tracker.{
  SessionFailureCause, or_empty, record_event_drained, record_event_completed, mark_session_failed,
  is_session_failed, get_session_event_count, get_session_completion_times,
}
use inference_perf.Replay.Sessions.{Completion, SessionState, Runtime}
use inference_perf.Replay.Progress.Failures.{payloads_of}
use inference_perf.Replay.Lifecycle.{
  EventData, push, mark_drained_and_maybe_evict, failure_payload, completion_payload,
  notify_failure, notify_completion, mark_failed, mark_completed,
}

unfoldable pub count_sent : Text → Option (List Completion) → Option ℕ
count_sent s none = none
count_sent s (some queue) = some (length (payloads_of s queue))

unfoldable pub bump : Option ℕ → Option ℕ
bump none = none
bump (some n) = some (suc n)

payloads_of-snoc :
    (s : Text) (queue : List Completion) (c : Completion)
    → c.session_id ≡ s
    → length (payloads_of s (queue ++ c ∷ [])) ≡ suc (length (payloads_of s queue))
unfolding payloads_of
payloads_of-snoc s [] c e = ground (arith, text_beq_iff c.session_id s)
payloads_of-snoc s (q ∷ queue) c e = ground (arith, payloads_of-snoc s queue c e)

not_last : (total n : ℕ) → n < total → leb total n ≡ false
not_last total n h = ground arith

module _ (Json Float : Type 0) where
  -- What the ends of events change of one session. `sent` counts the payloads for it on the queue.
  pub record View : Type 0 where
    pub drained : List Text
    pub times : Dict Text ℕ
    pub failed : Bool
    pub sent : Option ℕ
    pub state : Option (SessionState Json Float)

  unfoldable pub view : Text → Runtime Json Float → View
  view s r = record {
    drained = or_empty (Dict.get r.worker_tracker.drained_events s);
    times = get_session_completion_times r.worker_tracker s;
    failed = is_session_failed r.worker_tracker s;
    sent = count_sent s r.session_completion_queue;
    state = Dict.get r.session_graph_state s;
  }

  -- What a completion and a failure do to the view, before they are counted as drained.
  unfoldable pub note_completed : (total : ℕ) (e : Text) → ℕ → View → View
  note_completed total e now v = record v {
    times = Dict.put v.times e now;
    sent = if nat_beq (length (Dict.put v.times e now)) total then bump v.sent else v.sent;
  }

  unfoldable pub note_failed : View → View
  note_failed v = record v { failed = true; sent = if v.failed then v.sent else bump v.sent }

  sent-push :
      (s : Text) (c : Completion) (r : Runtime Json Float)
      → c.session_id ≡ s
      → count_sent s (push Json Float c r).session_completion_queue
        ≡ bump (count_sent s r.session_completion_queue)
  unfolding push count_sent bump
  sent-push s c r e = elim (Option-cases r.session_completion_queue) [
    | inl absent ↦ ground arith
    | inr (queue, present) ↦ ground (arith, payloads_of-snoc s queue c e)
  ]

  pub view-push :
      (s : Text) (c : Completion) (r : Runtime Json Float)
      → c.session_id ≡ s
      → view s (push Json Float c r) ≡ record (view s r) { sent = bump (view s r).sent }
  unfolding view push
  view-push s c r e = ap (λ n. record (view s r) { sent = n }) (sent-push s c r e)

  -- Draining an event that is not the last changes only what is drained.
  pub view-mark_drained :
      (d : EventData) (s : Text) (r : Runtime Json Float)
      → d.has_generator ≡ true
      → length (Dict.add (view s r).drained d.event_id) < d.total_events_in_session
      → view s (mark_drained_and_maybe_evict Json Float d s r)
        ≡ record (view s r) { drained = Dict.add (view s r).drained d.event_id }
  unfolding view mark_drained_and_maybe_evict record_event_drained get_session_completion_times
      is_session_failed
  view-mark_drained d s r g few =
      rw (g, not_last d.total_events_in_session _ few)
        (ap (λ o. record (view s r) { drained = or_empty o })
          (Dict.get-put_self r.worker_tracker.drained_events s _))

  view-mark_failed :
      (d : EventData) (s : Text) (cause : SessionFailureCause) (reason : Text)
      (r : Runtime Json Float)
      → view s (mark_failed Json Float d s cause reason r) ≡ record (view s r) { failed = true }
  unfolding view mark_failed mark_session_failed is_session_failed get_session_completion_times
  view-mark_failed d s cause reason r =
      ap (λ b. record (view s r) { failed = b })
        (Dict.contains-add_self r.worker_tracker.failed_sessions s)

  view-mark_completed :
      (d : EventData) (s : Text) (now : ℕ) (r : Runtime Json Float)
      → view s (mark_completed Json Float d s now r)
        ≡ record (view s r) { times = Dict.put (view s r).times (raw_event_id d.event_id) now }
  unfolding view mark_completed record_event_completed get_session_completion_times
      is_session_failed
  view-mark_completed d s now r =
      ap (λ t. record (view s r) { times = or_empty t })
        (Dict.get-put_self r.worker_tracker.event_completions s _)

  failed-view :
      (s : Text) (r : Runtime Json Float) → is_session_failed r.worker_tracker s ≡ (view s r).failed
  unfolding view
  failed-view s r = refl

  count-view :
      (s : Text) (r : Runtime Json Float)
      → get_session_event_count r.worker_tracker s ≡ length (view s r).times
  unfolding view get_session_event_count
  count-view s r = refl

  pub view-notify_failure :
      (d : EventData) (s : Text) (cause : SessionFailureCause) (reason : Text) (now : ℕ)
      (r : Runtime Json Float)
      → view s (notify_failure Json Float d s cause reason now r) ≡ note_failed (view s r)
  unfolding notify_failure failure_payload note_failed
  view-notify_failure d s cause reason now r =
      let marked = mark_failed Json Float d s cause reason r in
      let failing : view s marked ≡ record (view s r) { failed = true } =
        view-mark_failed d s cause reason r in
      elim (Bool-cases (view s r).failed) [
        | inl was ↦ rw (failed-view s r, was) failing
        | inr new ↦
            rw (failed-view s r, new)
              (view-push s (failure_payload Json Float d s cause reason now marked) marked refl
                ∙ ap {A = View} (λ v. record v { sent = bump v.sent }) failing)
      ]

  pub view-notify_completion :
      (d : EventData) (s : Text) (now : ℕ) (r : Runtime Json Float)
      → view s (notify_completion Json Float d s now r)
        ≡ note_completed d.total_events_in_session (raw_event_id d.event_id) now (view s r)
  unfolding notify_completion completion_payload note_completed
  view-notify_completion d s now r =
      let completed = mark_completed Json Float d s now r in
      let marked : view s completed
          ≡ record (view s r) { times = Dict.put (view s r).times (raw_event_id d.event_id) now } =
        view-mark_completed d s now r in
      let count : get_session_event_count completed.worker_tracker s
          ≡ length (Dict.put (view s r).times (raw_event_id d.event_id) now) =
        count-view s completed ∙ ap {A = View} (λ v. length v.times) marked in
      elim (Bool-cases (
        nat_beq (length (Dict.put (view s r).times (raw_event_id d.event_id) now))
          d.total_events_in_session)) [
            | inl all ↦
                rw (count, all)
                  (view-push s (completion_payload Json Float s now completed) completed refl
                    ∙ ap {A = View} (λ v. record v { sent = bump v.sent }) marked)
            | inr some_left ↦ rw (count, some_left) marked
          ]
