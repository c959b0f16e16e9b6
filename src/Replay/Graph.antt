-- ===== src/Replay/Graph.antt =====
-- datagen/replay/replay_graph_types.py. A JSON value and a float are parameters.
use inference_perf.Prelude.{ℕ, Bool, Option, List}
use inference_perf.Prelude.Dict.{Dict}
use inference_perf.Prelude.Text.{Text}

pub data SegmentType : Type 0 where
  shared output unique async_report : SegmentType

pub record InputSegment : Type 0 where
  pub type : SegmentType
  pub message_count : ℕ
  pub token_count : ℕ
  pub source_event_id : Option Text

module _ (Json Float : Type 0) where
  pub record GraphCall : Type 0 where
    pub call_id : Text
    pub model : Text
    pub messages : List Json
    pub expected_output : Text
    pub input_segments : List InputSegment
    pub total_input_tokens : ℕ
    pub expected_output_tokens : ℕ
    pub temperature : Option Float
    pub max_tokens_recorded : Option ℕ
    pub tool_definitions : Option (List Json)
    pub expected_output_is_tool_call : Bool
    pub expected_output_tool_names : Option (List Text)
    pub attributes : Option (Dict Text Json)
    pub session_id_suffix : Option Text

  pub record GraphEvent : Type 0 where
    pub event_id : Text
    pub call : GraphCall
    pub predecessor_event_ids : List Text
    pub predecessor_dependency_types : Dict Text Text
    pub wait_ms : ℕ
    pub t_start_ms : ℕ
    pub t_end_ms : ℕ
    pub is_user_facing : Bool
    pub is_structured_output_call : Bool
    pub is_tool_internal : Bool

  pub record ReplayGraph : Type 0 where
    pub events : Dict Text GraphEvent
    pub root_event_ids : List Text
    pub source_file : Text
