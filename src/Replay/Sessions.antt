-- ===== src/Replay/Sessions.antt =====
-- The data of a session generator in datagen/replay/replay_graph_session_datagen.py:
-- `ReplaySessionState`, `ReplaySessionEvent`, `ReplaySession`, the payload of the completion queue,
-- and the attributes of `ReplayGraphSessionGeneratorBase` as one record, `Runtime`, with the
-- completion queue that the workers fill and the parent empties.
-- A time is a number of ticks. `SessionReplayConfig` keeps the options that these operations read.
use inference_perf.Prelude.{ℕ, Bool, true, false, Option, none, some, List, []}
use inference_perf.Prelude.Dict.{Dict}
use inference_perf.Prelude.Int.{ℤ}
use inference_perf.Prelude.Text.{Text}
use inference_perf.Replay.Graph.{InputSegment, ReplayGraph}
use inference_perf.Replay.Tracker.{Tracker, new_tracker}
use inference_perf.Replay.Outputs.{Outputs, new_outputs}

pub record ReplayConfig : Type 0 where
  pub inject_random_session_id : Bool
  pub max_wait_ms : ℕ
  pub duplicate_sessions_target : Option ℕ

-- What a worker puts on the completion queue. `none` is a key that the payload lacks.
pub record Completion : Type 0 where
  pub session_id : Text
  pub completion_time : ℕ
  pub failed : Bool
  pub failure_cause : Option Text
  pub failure_reason : Option Text
  pub cancelled_events : Option ℤ
  pub event_completion_times : Dict Text ℕ
  pub recorded_substitution_event_ids : Option (List Text)
  pub n_recorded_substitutions : Option ℕ

module _ (Json Float : Type 0) where
  pub record Session : Type 0 where
    pub session_id : Text
    pub source_id : Text
    -- `none` is the placeholder -1.
    pub session_index : Option ℕ
    pub graph : ReplayGraph Json Float
    pub start_offset_ms : ℕ

  pub record SessionEvent : Type 0 where
    pub call_id : Text
    pub event_id : Text
    pub session_index : Option ℕ
    pub t_start_ms : ℕ
    pub t_end_ms : ℕ
    pub model : Text
    pub messages : List Json
    pub expected_output : Text
    pub input_segments : List InputSegment
    pub expected_output_tokens : ℕ
    pub temperature : Option Float
    pub max_tokens_recorded : Option ℕ
    pub predecessor_event_ids : List Text
    pub wait_ms : ℕ
    pub tool_definitions : Option (List Json)

  pub record SessionState : Type 0 where
    pub session_id : Text
    pub graph : ReplayGraph Json Float
    pub ready_events : List Text
    pub dispatched_events : List Text
    pub completed_events : List Text
    pub event_completion_times : Dict Text ℕ
    pub is_active : Bool
    pub is_complete : Bool
    pub failed : Bool
    pub failure_reason : Option Text
    pub failure_cause : Option Text
    pub cancelled_events : ℤ
    pub n_recorded_substitutions : Option ℕ
    pub recorded_substitution_event_ids : Option (List Text)
    pub random_string : Option Text

  pub record Runtime : Type 0 where
    pub replay_config : Option ReplayConfig
    pub output_registry : Outputs Json
    pub worker_tracker : Tracker
    -- `none` where the generator has no manager, and so no queue.
    pub session_completion_queue : Option (List Completion)
    pub sessions : List (Option Session)
    pub session_ids : List Text
    pub session_id_to_index : Dict Text ℕ
    pub session_graph_state : Dict Text SessionState
    pub session_events : Dict ℕ (List SessionEvent)
    pub all_events : List SessionEvent
    pub skipped_session_count : ℕ
    -- An attribute that only some generators have.
    pub shared_failed_sessions : Option (List Text)

  unfoldable pub new_runtime : Option ReplayConfig → Bool → Runtime
  new_runtime config has_manager = record {
    replay_config = config;
    output_registry = new_outputs Json;
    worker_tracker = new_tracker;
    session_completion_queue = elim has_manager [ true ↦ some [] | false ↦ none ];
    sessions = [];
    session_ids = [];
    session_id_to_index = [];
    session_graph_state = [];
    session_events = [];
    all_events = [];
    skipped_session_count = 0;
    shared_failed_sessions = none;
  }
