-- ===== src/Replay/Progress.antt =====
-- The parent's side of a session's life in `ReplayGraphSessionGeneratorBase`: `activate_session`,
-- `_process_completion_queue`, `check_session_completed`, `cleanup_session`,
-- `evict_worker_session` (which a worker runs), and `build_session_metric`.
pub mod Eviction
pub mod Failures
use inference_perf.Prelude.{
  ℕ, suc, Bool, true, false, not, ◌||◌, ◌==◌, Option, none, some, List, [], ◌∷◌, Result, ok, err,
  is_empty, length, ltb, set, if◌then◌else◌,
}
use inference_perf.Prelude.Dict
use inference_perf.Prelude.Dict.{Dict}
use inference_perf.Prelude.Int.{ℤ, pos}
use inference_perf.Prelude.{number_key}
use inference_perf.Prelude.Text.{Text, code_points_key, codes}
use inference_perf.Replay.Graph.{GraphEvent, ReplayGraph}
use inference_perf.Replay.Ids.{qualify}
use inference_perf.Replay.Tracker.{forget_session, cause_value, unknown}
use inference_perf.Replay.Outputs.{Outputs}
use inference_perf.Replay.Sessions.{Completion, Session, SessionState, Runtime}

-- `a or b` on an optional text: an empty text counts as none.
abbrev pub text_or : Option Text → Text → Text
text_or none b = b
text_or (some a) b = if is_empty a then b else a

pub record SessionMetric : Type 0 where
  pub session_id : Text
  pub stage_id : ℕ
  pub file_path : Text
  pub start_time : ℕ
  pub end_time : ℕ
  pub num_events : ℕ
  pub num_events_completed : ℕ
  pub num_events_cancelled : ℤ
  -- The type and the message of the error.
  pub error : Option (Text × Text)
  pub n_recorded_substitutions : Option ℕ
  pub recorded_substitution_event_ids : Option (List Text)
  pub user_facing_event_ids : List Text
  pub num_structured_output_excluded : ℕ

module _ (Json Float : Type 0) where
  unfoldable pub add_roots : List Text → Dict Text (GraphEvent Json Float) → List Text
  add_roots ready [] = ready
  add_roots ready ((event_id, event) ∷ events) =
      add_roots (if is_empty event.predecessor_event_ids then Dict.add ready event_id else ready)
        events

  unfoldable pub activate_session : Runtime Json Float → Text → Runtime Json Float
  activate_session r session_id = elim (Dict.get r.session_graph_state session_id) [
    | none ↦ r
    | some state ↦ record r {
      session_graph_state = Dict.put r.session_graph_state session_id (record state {
        is_active = true;
        ready_events = add_roots state.ready_events state.graph.events;
      });
    }
  ]

  -- The completion times of a payload, merged into the events that are not yet completed.
  unfoldable pub merge_times : SessionState Json Float → Dict Text ℕ → SessionState Json Float
  merge_times state [] = state
  merge_times state ((event_id, time) ∷ times) =
      merge_times
        (if Dict.contains state.completed_events event_id then state else record state {
          completed_events = Dict.add state.completed_events event_id;
          event_completion_times = Dict.put state.event_completion_times event_id time;
        })
        times

  -- The first recorded reason wins, and brings its cause.
  unfoldable pub keep_reason : SessionState Json Float → Completion → Option Text × Option Text
  keep_reason state c = elim state.failure_reason [
    | some reason ↦ (some reason, state.failure_cause)
    | none ↦ elim c.failure_reason [
      | none ↦ (none, state.failure_cause)
      | some reason ↦ (some reason, c.failure_cause)
    ]
  ]

  unfoldable pub keep_substitutions : SessionState Json Float → Completion → SessionState Json Float
  keep_substitutions state c = elim c.n_recorded_substitutions [
    | none ↦ state
    | some n ↦ record state {
      n_recorded_substitutions = some n;
      recorded_substitution_event_ids = elim c.recorded_substitution_event_ids [
        | none ↦ some []
        | some ids ↦ some ids
      ];
    }
  ]

  unfoldable pub complete_state : SessionState Json Float → Completion → SessionState Json Float
  unfolding keep_reason keep_substitutions
  complete_state state c =
      let merged = merge_times state c.event_completion_times in
      let (reason, cause) = keep_reason merged c in
      keep_substitutions
        (record merged {
          is_complete = true;
          failed = merged.failed || c.failed;
          failure_reason = reason;
          failure_cause = cause;
          cancelled_events = elim c.cancelled_events [ none ↦ pos 0 | some n ↦ n ];
        })
        c

  -- A payload for a session that is not known is dropped.
  unfoldable pub complete_one :
      Dict Text (SessionState Json Float) → Completion → Dict Text (SessionState Json Float)
  complete_one states c = elim (Dict.get states c.session_id) [
    | none ↦ states
    | some state ↦ Dict.put states c.session_id (complete_state state c)
  ]

  unfoldable pub complete_all :
      Dict Text (SessionState Json Float) → List Completion → Dict Text (SessionState Json Float)
  complete_all states [] = states
  complete_all states (c ∷ queue) = complete_all (complete_one states c) queue

  -- The `while True` loop ends when the queue is empty.
  unfoldable pub process_completion_queue : Runtime Json Float → Runtime Json Float
  process_completion_queue r = elim r.session_completion_queue [
    | none ↦ r
    | some queue ↦ record r {
      session_completion_queue = some [];
      session_graph_state = complete_all r.session_graph_state queue;
    }
  ]

  unfoldable pub is_shared_failure : Option (List Text) → Text → Bool
  is_shared_failure none session_id = false
  is_shared_failure (some ids) session_id = Dict.contains ids session_id

  unfoldable pub check_processed : Runtime Json Float → Text → Runtime Json Float × Bool
  check_processed r session_id = elim (Dict.get r.session_graph_state session_id) [
    | none ↦ (r, false)
    | some state ↦
        if state.is_complete
        then (r, true)
        else if is_shared_failure r.shared_failed_sessions session_id
        then (
          record r {
            session_graph_state =
                Dict.put r.session_graph_state session_id (record state { is_complete = true });
          },
          true,
        )
        else (r, false)
  ]

  unfoldable pub check_session_completed : Runtime Json Float → Text → Runtime Json Float × Bool
  unfolding check_processed is_shared_failure
  check_session_completed r session_id = check_processed (process_completion_queue r) session_id

  unfoldable pub drop_outputs :
      Text → Dict Text (GraphEvent Json Float) → Outputs Json → Outputs Json
  drop_outputs session_id [] o = o
  drop_outputs session_id ((event_id, _) ∷ events) o =
      let qualified = qualify session_id event_id in
      drop_outputs session_id events (record {
        output_text = Dict.pop o.output_text qualified;
        output_message = Dict.pop o.output_message qualified;
        input_messages = Dict.pop o.input_messages qualified;
        signals = Dict.pop o.signals qualified;
        failed_event_ids = Dict.discard o.failed_event_ids qualified;
      })

  -- Frees the graph and the events of a session's slot.
  unfoldable pub free_slot : Runtime Json Float → Option ℕ → Runtime Json Float
  free_slot r none = r
  free_slot r (some idx) = record r {
    sessions = set r.sessions idx none;
    session_events = Dict.pop r.session_events idx;
  }

  unfoldable pub cleanup_session : Runtime Json Float → Text → Runtime Json Float
  unfolding free_slot
  cleanup_session r session_id = elim (Dict.get r.session_graph_state session_id) [
    | none ↦ r
    | some state ↦
        free_slot
          (record r {
            output_registry = drop_outputs session_id state.graph.events r.output_registry;
            session_graph_state = Dict.pop r.session_graph_state session_id;
          })
          (Dict.get r.session_id_to_index session_id)
  ]

  unfoldable pub evict_worker_session : Runtime Json Float → Text → Runtime Json Float
  unfolding cleanup_session
  evict_worker_session r session_id =
      let cleaned = cleanup_session r session_id in
      record cleaned { worker_tracker = forget_session cleaned.worker_tracker session_id }

  unfoldable pub source_of : List (Option (Session Json Float)) → Text → Text
  source_of [] session_id = []
  source_of (none ∷ sessions) session_id = source_of sessions session_id
  source_of (some s ∷ sessions) session_id =
      let rest = source_of sessions session_id in
      if s.session_id == session_id then s.source_id else rest

  unfoldable pub user_facing_ids : Dict Text (GraphEvent Json Float) → List Text
  user_facing_ids [] = []
  user_facing_ids ((event_id, event) ∷ events) =
      let rest = user_facing_ids events in if event.is_user_facing then event_id ∷ rest else rest

  unfoldable pub count_structured : Dict Text (GraphEvent Json Float) → ℕ
  count_structured [] = 0
  count_structured ((event_id, event) ∷ events) =
      let rest = count_structured events in
      if event.is_structured_output_call then suc rest else rest

  unfoldable pub event_total : Runtime Json Float → SessionState Json Float → Text → ℕ
  event_total r state session_id = elim (Dict.get r.session_id_to_index session_id) [
    | none ↦ length state.graph.events
    | some idx ↦ elim (Dict.get r.session_events idx) [
      | none ↦ length state.graph.events
      | some events ↦ length events
    ]
  ]

  -- The error of a metric: `state.failed` alone is enough.
  unfoldable pub metric_error : SessionState Json Float → Option (Text × Text)
  metric_error state =
      let has_reason : Bool = elim state.failure_reason [
        | none ↦ false
        | some reason ↦ not (is_empty reason)
      ] in
      if state.failed || has_reason
      then some (
        text_or state.failure_cause (cause_value unknown),
        text_or state.failure_reason (codes "session marked failed without a recorded reason"),
      )
      else none

  -- `none` is the ValueError for an unknown session.
  unfoldable pub build_session_metric :
      Runtime Json Float → Text → (stage_id start_time end_time : ℕ) → Option SessionMetric
  unfolding metric_error event_total
  build_session_metric r session_id stage_id start_time end_time =
      elim (Dict.get r.session_graph_state session_id) [
        | none ↦ none
        | some state ↦ some (record {
          session_id = session_id;
          stage_id = stage_id;
          file_path = source_of r.sessions session_id;
          start_time = start_time;
          end_time = end_time;
          num_events = event_total r state session_id;
          num_events_completed = length state.completed_events;
          num_events_cancelled = if state.failed then state.cancelled_events else pos 0;
          error = metric_error state;
          n_recorded_substitutions = state.n_recorded_substitutions;
          recorded_substitution_event_ids = state.recorded_substitution_event_ids;
          user_facing_event_ids = user_facing_ids state.graph.events;
          num_structured_output_excluded = count_structured state.graph.events;
        })
      ]
