-- ===== src/Builder/Events.antt =====
-- What `build_graph` of datagen/replay/otel_trace_to_replay_graph.py makes of one call: its event id,
-- its `GraphCall` and its `GraphEvent`. The wire form of a message is a parameter.
use inference_perf.Prelude.{
  ℕ, ◌-◌, false, ◌&&◌, not, Option, none, some, List, [], ◌∷◌, ◌++◌, map, length, replicate,
  is_empty, max, get_elem?, filter,
}
use inference_perf.Prelude.Dict
use inference_perf.Prelude.Dict.{Dict}
use inference_perf.Prelude.Text.{Text, codes, code_points_key}
use inference_perf.Replay.Graph.{InputSegment, GraphCall, GraphEvent}
use inference_perf.Replay.Schedule.{decimal}
use inference_perf.Builder.Calls.{Part, ToolCall, MessageInfo, Message, RawCall, estimate_tokens}
use inference_perf.Builder.Causal.{
  DependencyType, causal_full_match, causal_tool_call_ids_matched, causal_split_parts_matched,
  causal_content_and_split_tools_match, causal_drop_content_split_parts, temporal, present,
  is_tool_call,
}
use inference_perf.Builder.Predecessors.{Predecessors}
use inference_perf.Builder.Segments.{tokens_of, flatten}

-- The `value` of a `DEPENDENCY_TYPE`.
unfoldable pub value : DependencyType → Text
value causal_full_match = codes "full_match"
value causal_tool_call_ids_matched = codes "tool_call_ids_matched"
value causal_split_parts_matched = codes "split_parts_matched"
value causal_content_and_split_tools_match = codes "content_and_split_tools_match"
value causal_drop_content_split_parts = codes "drop_content_split_parts"
value temporal = codes "temporal"

unfoldable pub pad3 : Text → Text
pad3 t = replicate (3 - length t) b'0' ++ t

-- `event_{i:03d}_{call_id}`.
unfoldable pub event_id_of : ℕ → Text → Text
unfolding pad3
event_id_of i call_id = codes "event_" ++ pad3 (decimal i) ++ b'_' ∷ call_id

unfoldable pub part_names : List Part → List Text
part_names parts = present (map (λ p. p.name) (filter is_tool_call parts))

-- The name under "function", or else the call's own.
unfoldable pub call_names : List ToolCall → List Text
call_names [] = []
call_names (c ∷ calls) = elim (present (c.function_name ∷ c.name ∷ [])) [
  | [] ↦ call_names calls
  | name ∷ rest ↦ name ∷ call_names calls
]

unfoldable pub or_nil {ℓ} : {A : Type ℓ} → Option (List A) → List A
or_nil none = []
or_nil (some xs) = xs

unfoldable pub or_none {ℓ} : {A : Type ℓ} → List A → Option (List A)
or_none [] = none
or_none (x ∷ xs) = some (x ∷ xs)

unfoldable pub tool_names_in : Option MessageInfo → List Text
unfolding part_names call_names or_nil
tool_names_in none = []
tool_names_in (some info) = elim (part_names (or_nil info.parts)) [
  | [] ↦ call_names (or_nil info.tool_calls)
  | name ∷ names ↦ name ∷ names
]

unfoldable pub tool_names : Option Message → List Text
tool_names none = []
tool_names (some out) = tool_names_in out.message_info

unfoldable pub output_text : Option Message → Text
output_text none = []
output_text (some out) = out.text

unfoldable pub keys {ℓ} : {K V : Type ℓ} → Dict K V → List K
keys [] = []
keys ((k, v) ∷ d) = k ∷ keys d

module _ (Json Float : Type 0) (expand : Message → List Json) where
  unfoldable pub expected_tokens : RawCall Json Float → ℕ
  expected_tokens rc = elim rc.completion_tokens [
    | some n ↦ n
    | none ↦ estimate_tokens (output_text rc.out_message)
  ]

  unfoldable pub graph_call : RawCall Json Float → List InputSegment → GraphCall Json Float
  unfolding tool_names output_text expected_tokens or_none or_nil flatten
  graph_call rc segments =
      let names = tool_names rc.out_message in
      record {
        call_id = rc.call_id;
        model = rc.model;
        messages = flatten expand rc.messages;
        expected_output = output_text rc.out_message;
        input_segments = segments;
        total_input_tokens = tokens_of rc.prompt_tokens rc.messages;
        expected_output_tokens = expected_tokens rc;
        temperature = rc.temperature;
        max_tokens_recorded = rc.max_tokens_recorded;
        tool_definitions = rc.tool_definitions;
        expected_output_is_tool_call =
            not (is_empty names) && not (is_empty (or_nil rc.tool_definitions));
        expected_output_tool_names = or_none names;
        attributes = or_none rc.extra_attributes;
        session_id_suffix = rc.session_id_suffix;
      }

  -- The latest end of the calls at the places; a place that is out of range has none.
  unfoldable pub last_end : List (RawCall Json Float) → List ℕ → ℕ
  last_end calls [] = 0
  last_end calls (j ∷ js) = elim (get_elem? calls j) [
    | none ↦ last_end calls js
    | some call ↦ max call.t_end_ms (last_end calls js)
  ]

  -- 0 where the call starts before the last of its predecessors ends.
  unfoldable pub wait_ms : List (RawCall Json Float) → RawCall Json Float → List ℕ → ℕ
  unfolding last_end
  wait_ms calls rc [] = 0
  wait_ms calls rc (j ∷ js) = rc.t_start_ms - last_end calls (j ∷ js)

  -- `event_ids[j]`.
  unfoldable pub id_at : List (RawCall Json Float) → ℕ → Text
  unfolding event_id_of
  id_at calls j = elim (get_elem? calls j) [ none ↦ [] | some call ↦ event_id_of j call.call_id ]

  unfoldable pub dependency_types :
      List (RawCall Json Float) → Predecessors → Dict Text Text → Dict Text Text
  unfolding id_at value
  dependency_types calls [] d = d
  dependency_types calls ((j, dep) ∷ preds) d =
      dependency_types calls preds (Dict.put d (id_at calls j) (value dep))

  unfoldable pub graph_event :
      List (RawCall Json Float)
      → ℕ
      → RawCall Json Float
      → Predecessors
      → List InputSegment
      → GraphEvent Json Float
  unfolding graph_call wait_ms dependency_types keys event_id_of
  graph_event calls i rc preds segments =
      let types = dependency_types calls preds [] in
      record {
        event_id = event_id_of i rc.call_id;
        call = graph_call rc segments;
        predecessor_event_ids = keys types;
        predecessor_dependency_types = types;
        wait_ms = wait_ms calls rc (keys preds);
        t_start_ms = rc.t_start_ms;
        t_end_ms = rc.t_end_ms;
        is_user_facing = false;
        is_structured_output_call = false;
        is_tool_internal = false;
      }
