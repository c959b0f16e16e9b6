-- ===== src/Replay/Lifecycle.antt =====
-- The ends of an event on a worker, in `SessionChatCompletionAPIData`: `on_completion`,
-- `process_failure`, `_fail_and_notify`, `skip_if_session_failed`, `_mark_drained_and_maybe_evict`,
-- and `wait_for_predecessors_and_substitute` up to the substitution of messages.
-- Each takes the worker's `Runtime`, in which the event's registry, tracker, queue and generator are,
-- and the clock's reading. Putting on the queue succeeds.
pub mod Drain
pub mod Ended
pub mod Once
pub mod View
use inference_perf.Prelude.{
  ℕ, ◌+◌, Bool, true, false, ◌||◌, ◌&&◌, not, Option, none, some, List, [], ◌∷◌, ◌++◌, map_ok,
  Result, Result, ok, err, leb, nat_beq, is_empty, length, any, if◌then◌else◌,
}
use inference_perf.Prelude.Int.{sub_ℕ}
use inference_perf.Prelude.Text.{Text, codes}
use inference_perf.Replay.Graph.{SegmentType, shared, output, unique, async_report, InputSegment}
use inference_perf.Replay.Ids.{extract_session_id, raw_event_id}
use inference_perf.Replay.Tracker.{
  SessionFailureCause, session_already_failed, predecessor_failed, predecessor_wait_failed,
  request_failed, unknown, cause_value, record_event_drained, record_event_completed,
  mark_session_failed, is_session_failed, get_session_failure, get_session_event_count,
  get_session_completion_times, get_session_recorded_substitution_event_ids,
}
use inference_perf.Replay.Outputs.{OutputError, record_output, record_failure, is_event_failed}
use inference_perf.Replay.Sessions.{Completion, Runtime}
use inference_perf.Replay.Progress.{evict_worker_session}

-- `SessionChatCompletionAPIData`, as far as these methods read it.
pub record EventData : Type 0 where
  pub event_id : Text
  pub total_events_in_session : ℕ
  pub has_generator : Bool
  pub skip_request : Bool

-- What the awaited predecessors came to: `asyncio.gather` raises the first error.
pub data Wait : Type 0 where
  all_done some_failed : Wait
  timed_out : (kind : Text) → Wait

-- Without a queue nothing is put.
unfoldable pub put_nowait : Option (List Completion) → Completion → Option (List Completion)
put_nowait none c = none
put_nowait (some queue) c = some (queue ++ c ∷ [])

module _ (Json Float : Type 0) where
  unfoldable pub push : Completion → Runtime Json Float → Runtime Json Float
  unfolding put_nowait
  push c r = record r { session_completion_queue = put_nowait r.session_completion_queue c }

  unfoldable pub mark_drained_and_maybe_evict :
      EventData → Text → Runtime Json Float → Runtime Json Float
  mark_drained_and_maybe_evict d s r =
      let (tracker, drained) = record_event_drained r.worker_tracker s d.event_id in
      let marked = record r { worker_tracker = tracker } in
      if not d.has_generator
      then r
      else if leb d.total_events_in_session drained
      then evict_worker_session Json Float marked s
      else marked

  -- The payload for a session that fails now. `cancelled` is what is left of its events.
  unfoldable pub failure_payload :
      EventData → Text → SessionFailureCause → Text → ℕ → Runtime Json Float → Completion
  failure_payload d s cause reason now r = record {
    session_id = s;
    completion_time = now;
    failed = true;
    failure_cause = some (cause_value cause);
    failure_reason = some reason;
    cancelled_events =
        some (sub_ℕ d.total_events_in_session (get_session_event_count r.worker_tracker s + 1));
    event_completion_times = get_session_completion_times r.worker_tracker s;
    recorded_substitution_event_ids = none;
    n_recorded_substitutions = none;
  }

  -- What `_fail_and_notify` and `process_failure` do alike: they mark the session and the event, tell
  -- the parent if the session had not failed before, and count the event as drained.
  unfoldable pub mark_failed :
      EventData → Text → SessionFailureCause → Text → Runtime Json Float → Runtime Json Float
  mark_failed d s cause reason r = record r {
    worker_tracker = mark_session_failed r.worker_tracker s (some cause) (some reason);
    output_registry = record_failure Json r.output_registry d.event_id;
  }

  unfoldable pub notify_failure :
      EventData → Text → SessionFailureCause → Text → ℕ → Runtime Json Float → Runtime Json Float
  unfolding mark_failed
  notify_failure d s cause reason now r =
      let marked = mark_failed d s cause reason r in
      if is_session_failed r.worker_tracker s
      then marked
      else push (failure_payload d s cause reason now marked) marked

  unfoldable pub fail_event :
      EventData → Text → SessionFailureCause → Text → ℕ → Runtime Json Float → Runtime Json Float
  unfolding notify_failure mark_drained_and_maybe_evict
  fail_event d s cause reason now r =
      mark_drained_and_maybe_evict d s (notify_failure d s cause reason now r)

  -- The event's data after it, and the runtime.
  unfoldable pub fail_and_notify :
      EventData
      → Text
      → SessionFailureCause
      → Text
      → ℕ
      → Runtime Json Float
      → EventData × Runtime Json Float
  unfolding fail_event
  fail_and_notify d s cause reason now r =
      (record d { skip_request = true }, fail_event d s cause reason now r)

  unfoldable pub process_failure : EventData → Text → ℕ → Runtime Json Float → Runtime Json Float
  unfolding fail_event
  process_failure d failure_reason now r =
      fail_event d (extract_session_id d.event_id) request_failed failure_reason now r

  -- The failure keys of a payload for a session whose events have all completed.
  unfoldable pub recorded_failure : Bool → Option (Text × Text) → Option Text × Option Text
  recorded_failure false failure = (none, none)
  recorded_failure true none =
      (some (cause_value unknown), some (codes "session marked failed by worker"))
  recorded_failure true (some (cause, reason)) = (some cause, some reason)

  unfoldable pub completion_payload : Text → ℕ → Runtime Json Float → Completion
  unfolding recorded_failure
  completion_payload s now r =
      let failed = is_session_failed r.worker_tracker s in
      let (cause, reason) = recorded_failure failed (get_session_failure r.worker_tracker s) in
      let ids = get_session_recorded_substitution_event_ids r.worker_tracker s in
      record {
        session_id = s;
        completion_time = now;
        failed = failed;
        failure_cause = cause;
        failure_reason = reason;
        cancelled_events = none;
        event_completion_times = get_session_completion_times r.worker_tracker s;
        recorded_substitution_event_ids = if is_empty ids then none else some ids;
        n_recorded_substitutions = if is_empty ids then none else some (length ids);
      }

  -- What follows once the registry has taken the output.
  unfoldable pub mark_completed : EventData → Text → ℕ → Runtime Json Float → Runtime Json Float
  mark_completed d s now r = record r {
    worker_tracker = record_event_completed r.worker_tracker s (raw_event_id d.event_id) now;
  }

  unfoldable pub notify_completion : EventData → Text → ℕ → Runtime Json Float → Runtime Json Float
  unfolding mark_completed
  notify_completion d s now r =
      let completed = mark_completed d s now r in
      if nat_beq (get_session_event_count completed.worker_tracker s) d.total_events_in_session
      then push (completion_payload s now completed) completed
      else completed

  unfoldable pub finish_event : EventData → ℕ → Runtime Json Float → Runtime Json Float
  unfolding notify_completion mark_drained_and_maybe_evict
  finish_event d now r =
      let s = extract_session_id d.event_id in
      mark_drained_and_maybe_evict d s (notify_completion d s now r)

  -- A second `record` for the event raises, and nothing else is done.
  unfoldable pub on_completion :
      EventData
      → Text
      → List Json
      → Option Json
      → ℕ
      → Runtime Json Float
      → Result OutputError (Runtime Json Float)
  unfolding finish_event
  on_completion d output_text messages output_message now r =
      map_ok (λ outputs. finish_event d now (record r { output_registry = outputs }))
        (record_output Json r.output_registry d.event_id output_text messages output_message)

  -- Whether the event was skipped, with its data and the runtime after that.
  unfoldable pub skip_if_session_failed :
      EventData → Text → ℕ → Runtime Json Float → Bool × (EventData × Runtime Json Float)
  unfolding fail_and_notify
  skip_if_session_failed d context now r =
      let s = extract_session_id d.event_id in
      if is_session_failed r.worker_tracker s
      then (
        true,
        fail_and_notify d s session_already_failed
            (codes "session already failed (" ++ (context ++ codes ")")) now r,
      )
      else (false, (d, r))

  -- `wait_for_predecessors_and_substitute` from its start to the wait. `true` is its early return.
  unfoldable pub before_wait :
      EventData → ℕ → Runtime Json Float → Bool × (EventData × Runtime Json Float)
  unfolding skip_if_session_failed
  before_wait d now r = skip_if_session_failed d (codes "pre-wait check") now r

  -- The same method where its wait for the predecessors ends.
  unfoldable pub after_wait :
      EventData → Wait → ℕ → Runtime Json Float → Bool × (EventData × Runtime Json Float)
  unfolding fail_and_notify
  after_wait d all_done now r = (false, (d, r))
  after_wait d some_failed now r = (
    true,
    fail_and_notify d (extract_session_id d.event_id) predecessor_failed
        (codes "predecessor failed") now r,
  )
  after_wait d (timed_out kind) now r = (
    true,
    fail_and_notify d (extract_session_id d.event_id) predecessor_wait_failed
        (codes "predecessor wait failed: " ++ kind) now r,
  )
