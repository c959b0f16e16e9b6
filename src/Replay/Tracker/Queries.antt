-- ===== src/Replay/Tracker/Queries.antt =====
-- What the tracker answers after its operations: failures are kept, forgetting is complete and local.
use inference_perf.Prelude.{
  ℕ, ◌≡◌, Bool, ◌||◌, Option, none, some, List, ◌==◌, if◌then◌else◌, arith, Bool-cases, inl, inr,
}
use inference_perf.Prelude.Dict
use inference_perf.Prelude.Dict.{get-put, get-pop, contains-add, contains-discard}
use inference_perf.Prelude.Text.{Text, code_points_key, text_beq, text_beq_iff}
use inference_perf.Replay.Tracker.{
  SessionFailureCause, cause_value, Tracker, new_tracker, forget_session,
  get_session_completion_times, reason_or_value, get_session_failure, mark_session_failed,
  is_session_failed, get_session_event_count, get_session_recorded_substitution_event_ids,
}

-- The reported failure of a session after one more failure: the first one stays.
abbrev pub first_failure : Option (Text × Text) → SessionFailureCause → Option Text → Text × Text
first_failure (some earlier) cause reason = earlier
first_failure none cause reason = (cause_value cause, reason_or_value cause reason)

-- A failure with a cause marks its session failed and no other, reports the first cause that the
-- session was given, and changes the report of no other session.
pub failure-mark_session_failed :
    (t : Tracker) (s j : Text) (cause : SessionFailureCause) (reason : Option Text)
    → (is_session_failed (mark_session_failed t s (some cause) reason) j
        ≡ (is_session_failed t j || s == j))
      × (get_session_failure (mark_session_failed t s (some cause) reason) j ≡ (
          if s == j
          then some (first_failure (get_session_failure t s) cause reason)
          else get_session_failure t j))
unfolding is_session_failed mark_session_failed get_session_failure
failure-mark_session_failed t s j cause reason = (
  contains-add t.failed_sessions s j,
  ground (
    arith,
    get-put t.session_failures s j (cause_value cause, reason_or_value cause reason),
    text_beq_iff s j,
  ),
)

-- What the rest of the program can ask of a session: each query as a field.
pub record Answers : Type 0 where
  pub completion_times : List (Text × ℕ)
  pub event_count : ℕ
  pub failed : Bool
  pub failure : Option (Text × Text)
  pub substitutions : List Text
  pub drained : Option (List Text)

pub answers : Tracker → Text → Answers
answers t s = record {
  completion_times = get_session_completion_times t s;
  event_count = get_session_event_count t s;
  failed = is_session_failed t s;
  failure = get_session_failure t s;
  substitutions = get_session_recorded_substitution_event_ids t s;
  drained = Dict.get t.drained_events s;
}

-- After a session is forgotten, every query about it is answered as by a new tracker, and every query
-- about another session as before.
pub answers-forget_session :
    (t : Tracker) (s j : Text)
    → answers (forget_session t s) j ≡ (if s == j then answers new_tracker j else answers t j)
unfolding answers forget_session get_session_completion_times get_session_event_count
    is_session_failed get_session_failure get_session_recorded_substitution_event_ids Dict.get
    Dict.contains
answers-forget_session t s j = elim (Bool-cases (text_beq s j)) [
  | inl same ↦ simp (get-pop, contains-discard, same)
  | inr other ↦ simp (get-pop, contains-discard, other)
]
