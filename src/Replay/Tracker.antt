-- ===== src/Replay/Tracker.antt =====
-- `SessionFailureCause` and `WorkerSessionTracker` of datagen/replay/replay_graph_session_datagen.py.
-- A time is a number of ticks.
pub mod Queries
use inference_perf.Prelude.{
  ℕ, Bool, true, false, Option, none, some, List, [], ◌∷◌, length, is_empty, if◌then◌else◌,
}
use inference_perf.Prelude.Dict
use inference_perf.Prelude.Dict.{Dict}
use inference_perf.Prelude.Text.{Text, code_points_key, codes, sorted}

pub data SessionFailureCause : Type 0 where
  session_already_failed predecessor_failed predecessor_wait_failed : SessionFailureCause
  recorded_fallback_malformed substitution_tool_call_expected : SessionFailureCause
  request_failed unknown : SessionFailureCause

-- `cause.value`.
unfoldable pub cause_value : SessionFailureCause → Text
cause_value session_already_failed = codes "session_already_failed"
cause_value predecessor_failed = codes "predecessor_failed"
cause_value predecessor_wait_failed = codes "predecessor_wait_failed"
cause_value recorded_fallback_malformed = codes "recorded_fallback_malformed"
cause_value substitution_tool_call_expected = codes "substitution_tool_call_expected"
cause_value request_failed = codes "request_failed"
cause_value unknown = codes "unknown"

pub record Tracker : Type 0 where
  pub event_completions : Dict Text (Dict Text ℕ)
  pub failed_sessions : List Text
  pub session_failures : Dict Text (Text × Text)
  pub recorded_substitution_event_ids : Dict Text (List Text)
  pub drained_events : Dict Text (List Text)

abbrev pub new_tracker : Tracker
new_tracker = record {
  event_completions = [];
  failed_sessions = [];
  session_failures = [];
  recorded_substitution_event_ids = [];
  drained_events = [];
}

-- `d.get(key, {})` and `d.get(key, set())`.
abbrev pub or_empty {ℓ} : {A : Type ℓ} → Option (List A) → List A
or_empty none = []
or_empty (some xs) = xs

unfoldable pub record_event_drained : Tracker → (session_id event_id : Text) → Tracker × ℕ
record_event_drained t s e =
    let drained = Dict.add (or_empty (Dict.get t.drained_events s)) e in
    (record t { drained_events = Dict.put t.drained_events s drained }, length drained)

unfoldable pub forget_session : Tracker → Text → Tracker
forget_session t s = record {
  event_completions = Dict.pop t.event_completions s;
  failed_sessions = Dict.discard t.failed_sessions s;
  session_failures = Dict.pop t.session_failures s;
  recorded_substitution_event_ids = Dict.pop t.recorded_substitution_event_ids s;
  drained_events = Dict.pop t.drained_events s;
}

unfoldable pub get_session_completion_times : Tracker → Text → Dict Text ℕ
get_session_completion_times t s = or_empty (Dict.get t.event_completions s)

unfoldable pub record_event_completed : Tracker → (session_id event_id : Text) → ℕ → Tracker
unfolding get_session_completion_times
record_event_completed t s e completion_time = record t {
  event_completions =
      Dict.put t.event_completions s
        (Dict.put (get_session_completion_times t s) e completion_time);
}

unfoldable pub get_event_completion_time : Tracker → (session_id event_id : Text) → Option ℕ
unfolding get_session_completion_times
get_event_completion_time t s e = Dict.get (get_session_completion_times t s) e

unfoldable pub is_event_completed : Tracker → (session_id event_id : Text) → Bool
unfolding get_event_completion_time
is_event_completed t s e = elim (get_event_completion_time t s e) [ none ↦ false | some _ ↦ true ]

-- `reason or cause.value`: an empty reason counts as none.
unfoldable pub reason_or_value : SessionFailureCause → Option Text → Text
reason_or_value cause none = cause_value cause
reason_or_value cause (some reason) = if is_empty reason then cause_value cause else reason

unfoldable pub get_session_failure : Tracker → Text → Option (Text × Text)
get_session_failure t s = Dict.get t.session_failures s

unfoldable pub note_failure :
    Tracker → Text → Option SessionFailureCause → Option Text → Dict Text (Text × Text)
unfolding get_session_failure
note_failure t s none reason = t.session_failures
note_failure t s (some cause) reason = elim (get_session_failure t s) [
  | some _ ↦ t.session_failures
  | none ↦ Dict.put t.session_failures s (cause_value cause, reason_or_value cause reason)
]

unfoldable pub mark_session_failed :
    Tracker → Text → Option SessionFailureCause → Option Text → Tracker
unfolding note_failure
mark_session_failed t s cause reason = record t {
  failed_sessions = Dict.add t.failed_sessions s;
  session_failures = note_failure t s cause reason;
}

unfoldable pub is_session_failed : Tracker → Text → Bool
is_session_failed t s = Dict.contains t.failed_sessions s

unfoldable pub get_session_event_count : Tracker → Text → ℕ
unfolding get_session_completion_times
get_session_event_count t s = length (get_session_completion_times t s)

unfoldable pub record_recorded_substitution : Tracker → (session_id event_id : Text) → Tracker
record_recorded_substitution t s e = record t {
  recorded_substitution_event_ids =
      Dict.put t.recorded_substitution_event_ids s
        (Dict.add (or_empty (Dict.get t.recorded_substitution_event_ids s)) e);
}

unfoldable pub get_session_recorded_substitution_event_ids : Tracker → Text → List Text
get_session_recorded_substitution_event_ids t s =
    sorted (or_empty (Dict.get t.recorded_substitution_event_ids s))
