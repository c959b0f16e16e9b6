-- ===== src/Replay/Tests.antt =====
-- Small sessions, and the theorems about the replay at them. A JSON value and a float are numbers.
use inference_perf.Prelude.{
  ℕ, ◌≡◌, refl, true, false, ◌||◌, none, some, List, [], ◌∷◌, err, if◌then◌else◌, arith,
}
use inference_perf.Prelude.Dict
use inference_perf.Prelude.Dict.{Dict}
use inference_perf.Prelude.Int.{pos}
use inference_perf.Prelude.Text.{Text, code_points_key, codes, text_beq}
use inference_perf.Replay.Graph.{GraphEvent, ReplayGraph}
use inference_perf.Replay.Samples.{call_event}
use inference_perf.Replay.Ids.{qualify, extract_session_id, raw_event_id, qualify_parts}
use inference_perf.Replay.Tracker.{
  request_failed, Tracker, new_tracker, is_session_failed, get_session_failure, mark_session_failed,
  record_event_completed, forget_session, get_session_completion_times,
}
use inference_perf.Replay.Tracker.Queries.{
  first_failure, failure-mark_session_failed, answers, answers-forget_session,
}
use inference_perf.Replay.Outputs.{
  Outputs, new_outputs, require, resume, get_output_by_event_id, missing_output, record_output,
  record_failure,
}
use inference_perf.Replay.Outputs.Waiting.{
  Op, completes, fails, evicts, run, step, has_ended, outcome, waiter_wakes,
}
use inference_perf.Replay.Sessions.{Completion, SessionState, Runtime, new_runtime}
use inference_perf.Replay.Progress.{check_session_completed, drop_outputs}
use inference_perf.Replay.Progress.Failures.{payloads_of, Checked, check_session_completed_lem}
use inference_perf.Replay.Lifecycle.{EventData, process_failure}
use inference_perf.Replay.Lifecycle.View.{view, count_sent}
use inference_perf.Replay.Lifecycle.Drain.{IsEventOf, distinct, Run, begins, goes_on, request_fails}
use inference_perf.Replay.Lifecycle.Ended.{gone}
use inference_perf.Replay.Progress.Eviction.{IsForgotten, is_among}
use inference_perf.Replay.Lifecycle.Once.{fresh, reports_once, keeps_until_last}

abbrev trace : Text
trace = codes "trace"

abbrev first_call : Text
first_call = codes "a"

abbrev second_call : Text
second_call = codes "b"

qualify_parts_example :
    (extract_session_id (qualify trace first_call) ≡ trace)
    × (raw_event_id (qualify trace first_call) ≡ first_call)
qualify_parts_example = qualify_parts trace first_call (refl, (refl, (refl, (refl, (refl, tt)))))

abbrev seen_tracker : Tracker
unfolding record_event_completed
seen_tracker = record_event_completed new_tracker trace first_call 7

failure-mark_session_failed_example :
    (is_session_failed (mark_session_failed seen_tracker trace (some request_failed) none) trace
      ≡ (is_session_failed seen_tracker trace || text_beq trace trace))
    × (get_session_failure (mark_session_failed seen_tracker trace (some request_failed) none) trace
        ≡ (if text_beq trace trace
            then some (first_failure (get_session_failure seen_tracker trace) request_failed none)
            else get_session_failure seen_tracker trace))
failure-mark_session_failed_example =
    failure-mark_session_failed seen_tracker trace trace request_failed none

answers-forget_session_example :
    answers (forget_session seen_tracker trace) trace
    ≡ (if text_beq trace trace then answers new_tracker trace else answers seen_tracker trace)
answers-forget_session_example = answers-forget_session seen_tracker trace trace

-- The two events of a session.
abbrev both_events : Dict Text (GraphEvent ℕ ℕ)
both_events =
    (first_call, call_event (1 ∷ []) first_call [])
    ∷ (second_call, call_event (2 ∷ []) second_call (first_call ∷ []))
    ∷ []

abbrev two_calls : ReplayGraph ℕ ℕ
two_calls = record { events = both_events; root_event_ids = first_call ∷ []; source_file = trace }

-- The first event of an earlier session has ended, and that session was evicted.
abbrev evicted_before : List (Op ℕ ℕ)
evicted_before = fails (qualify second_call first_call) ∷ evicts second_call both_events ∷ []

abbrev waits_first : Outputs ℕ
waits_first = (require ℕ (run ℕ ℕ (new_outputs ℕ) evicted_before) first_call).0

abbrev ends_first : List (Op ℕ ℕ)
ends_first =
    fails second_call
    ∷ completes first_call second_call [] none
    ∷ evicts second_call both_events
    ∷ []

waiter_wakes_example :
    (Dict.get (run ℕ ℕ waits_first ends_first).signals first_call
      ≡ some (has_ended ℕ ℕ (run ℕ ℕ waits_first ends_first) first_call))
    × (resume ℕ (run ℕ ℕ waits_first ends_first) first_call true ≡ (
        if has_ended ℕ ℕ (run ℕ ℕ waits_first ends_first) first_call
        then outcome ℕ ℕ
            (run ℕ ℕ waits_first ends_first)
            first_call
            (get_output_by_event_id ℕ (run ℕ ℕ waits_first ends_first) first_call)
        else err (missing_output first_call)))
unfolding require run Dict.contains Dict.get is_among drop_outputs text_beq step Dict.discard
    record_failure Dict.add qualify Dict.pop
waiter_wakes_example = waiter_wakes ℕ ℕ evicted_before ends_first first_call refl refl

-- A task that is still waiting when its event, which has completed, is evicted misses the output.
evicted_too_early :
    resume ℕ
      (run ℕ ℕ waits_first
        (completes (qualify trace first_call) second_call [] none ∷ evicts trace both_events ∷ []))
      (qualify trace first_call)
      true
    ≡ err (missing_output (qualify trace first_call))
unfolding require run resume Dict.contains Dict.get drop_outputs text_beq step Dict.discard
    record_output record_failure Dict.add qualify Dict.pop Dict.put
evicted_too_early = refl

abbrev active : SessionState ℕ ℕ
active = record {
  session_id = trace;
  graph = two_calls;
  ready_events = [];
  dispatched_events = [];
  completed_events = [];
  event_completion_times = [];
  is_active = true;
  is_complete = false;
  failed = false;
  failure_reason = none;
  failure_cause = none;
  cancelled_events = pos 0;
  n_recorded_substitutions = none;
  recorded_substitution_event_ids = none;
  random_string = none;
}

abbrev lost : Completion
lost = record {
  session_id = trace;
  completion_time = 9;
  failed = true;
  failure_cause = some (codes "request_failed");
  failure_reason = some (codes "refused");
  cancelled_events = some (pos 1);
  event_completion_times = [];
  recorded_substitution_event_ids = none;
  n_recorded_substitutions = none;
}

abbrev parent : Runtime ℕ ℕ
parent = record (new_runtime ℕ ℕ none true) {
  session_completion_queue = some (lost ∷ []);
  session_graph_state = (trace, active) ∷ [];
}

check_session_completed_lem_example :
    Checked ℕ ℕ parent
      (check_session_completed ℕ ℕ parent trace).0
      trace
      (check_session_completed ℕ ℕ parent trace).1
      active
      (payloads_of trace (lost ∷ []))
unfolding Dict.get new_runtime text_beq
check_session_completed_lem_example =
    check_session_completed_lem ℕ ℕ parent (lost ∷ []) trace active refl refl

abbrev worker : Runtime ℕ ℕ
worker = record parent { session_completion_queue = some [] }

abbrev event_data : Text → EventData
event_data e = record {
  event_id = qualify trace e;
  total_events_in_session = 2;
  has_generator = true;
  skip_request = false;
}

is_event : (e : Text) → IsEventOf 2 trace e (event_data e)
is_event e = record { has_id = refl; has_total = refl; evicts = refl }

abbrev one_failed : Runtime ℕ ℕ
one_failed = process_failure ℕ ℕ (event_data first_call) (codes "refused") 3 worker

abbrev both_failed : Runtime ℕ ℕ
both_failed = process_failure ℕ ℕ (event_data second_call) (codes "refused") 5 one_failed

one_end : Run ℕ ℕ 2 trace worker (first_call ∷ []) one_failed
one_end =
    goes_on begins
      (request_fails (event_data first_call) (codes "refused") 3 worker (is_event first_call))

both_end : Run ℕ ℕ 2 trace worker (second_call ∷ first_call ∷ []) both_failed
both_end =
    goes_on one_end
      (request_fails (event_data second_call) (codes "refused") 5 one_failed (is_event second_call))

begins_fresh : view ℕ ℕ trace worker ≡ fresh ℕ ℕ 0 (some active)
unfolding view fresh Dict.get get_session_completion_times is_session_failed count_sent new_runtime
    Dict.contains payloads_of text_beq
begins_fresh = refl

reports_once_example :
    (view ℕ ℕ trace both_failed ≡ gone ℕ ℕ (some 1))
    × IsForgotten ℕ ℕ trace (some active) both_failed
unfolding distinct Dict.contains text_beq
reports_once_example =
    reports_once ℕ ℕ 0 (some active) (refl, (refl, (refl, (refl, (refl, tt))))) begins_fresh
      both_end refl

keeps_until_last_example :
    ((view ℕ ℕ trace one_failed).state ≡ some active)
    × ((view ℕ ℕ trace one_failed).sent
        ≡ some (if (view ℕ ℕ trace one_failed).failed then 1 else 0))
unfolding distinct Dict.contains text_beq
keeps_until_last_example =
    keeps_until_last ℕ ℕ 0 (some active) (refl, (refl, (refl, (refl, (refl, tt))))) begins_fresh
      one_end refl (omega arith)
