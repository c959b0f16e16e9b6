-- ===== src/Replay/Samples.antt =====
-- Events of small graphs, for the tests. A JSON value and a float are numbers.
use inference_perf.Prelude.{ℕ, none, false, List, []}
use inference_perf.Prelude.Text.{Text}
use inference_perf.Replay.Graph.{GraphEvent}

abbrev pub call_event : List ℕ → Text → List Text → GraphEvent ℕ ℕ
call_event messages event_id predecessors = record {
  event_id = event_id;
  call = record {
    call_id = event_id;
    model = [];
    messages = messages;
    expected_output = [];
    input_segments = [];
    total_input_tokens = 0;
    expected_output_tokens = 0;
    temperature = none;
    max_tokens_recorded = none;
    tool_definitions = none;
    expected_output_is_tool_call = false;
    expected_output_tool_names = none;
    attributes = none;
    session_id_suffix = none;
  };
  predecessor_event_ids = predecessors;
  predecessor_dependency_types = [];
  wait_ms = 90;
  t_start_ms = 0;
  t_end_ms = 0;
  is_user_facing = false;
  is_structured_output_call = false;
  is_tool_internal = false;
}
