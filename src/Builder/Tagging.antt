-- ===== src/Builder/Tagging.antt =====
-- `tag_user_facing_events` of datagen/replay/otel_trace_to_replay_graph.py. What a JSON value is as a
-- string and as a list, and `lower` of a string, are parameters. A span has the fields that the code
-- reads.
pub mod Nesting
use inference_perf.Prelude.{
  ℕ, zero, suc, Bool, true, false, ◌&&◌, ◌||◌, not, Option, none, some, List, [], ◌∷◌, ◌++◌, map,
  length, is_empty, any, if◌then◌else◌,
}
use inference_perf.Prelude.Dict
use inference_perf.Prelude.Dict.{Dict}
use inference_perf.Prelude.Text.{Text, codes, text_beq, code_points_key}
use inference_perf.Replay.Graph.{GraphCall, GraphEvent, ReplayGraph}
use inference_perf.Builder.Calls.{is_within}

pub record Span : Type 0 where
  pub span_id : Text
  pub name : Text
  pub parent_span_id : Option Text

unfoldable pub is_tool_execution : Span → Bool
is_tool_execution s =
    is_within (codes "tool.execution") s.name || is_within (codes "tool_execution") s.name

unfoldable pub tool_exec_span_ids : List Span → List Text
tool_exec_span_ids [] = []
tool_exec_span_ids (s ∷ spans) =
    let rest = tool_exec_span_ids spans in if is_tool_execution s then s.span_id ∷ rest else rest

-- `span_by_id`: the last span with an id stays.
unfoldable pub span_by_id : Dict Text Span → List Span → Dict Text Span
span_by_id d [] = d
span_by_id d (s ∷ spans) = span_by_id (Dict.put d s.span_id s) spans

-- An id that is there and not empty.
unfoldable pub truthy : Option Text → Option Text
truthy none = none
truthy (some []) = none
truthy (some (c ∷ id)) = some (c ∷ id)

unfoldable pub parent_of : Dict Text Span → Text → Option Text
unfolding truthy
parent_of spans id = elim (Dict.get spans id) [ none ↦ none | some s ↦ truthy s.parent_span_id ]

-- The walk up the chain of parents: whether it meets a span that executes a tool.
unfoldable pub walk_up :
    ℕ → Dict Text Span → List Text → (visited : List Text) → Option Text → Option Bool
unfolding parent_of
walk_up fuel spans tools visited none = some false
walk_up zero spans tools visited (some id) = none
walk_up (suc fuel) spans tools visited (some id) = elim (Dict.contains visited id) [
  | true ↦ some false
  | false ↦ elim (Dict.contains tools id) [
    | true ↦ some true
    | false ↦ walk_up fuel spans tools (Dict.add visited id) (parent_of spans id)
  ]
]

unfoldable pub or_false : Option Bool → Bool
or_false none = false
or_false (some b) = b

-- A round for each span with an id, and two more: for a parent that is no span, and for the end.
unfoldable pub is_nested : List Span → Span → Bool
unfolding walk_up or_false truthy span_by_id tool_exec_span_ids
is_nested spans s = or_false (
    walk_up (suc (suc (length spans))) (span_by_id [] spans) (tool_exec_span_ids spans) []
      (truthy s.parent_span_id))

unfoldable pub nested_ids : List Span → List Span → List Text
unfolding is_nested
nested_ids all [] = []
nested_ids all (s ∷ spans) =
    let rest = nested_ids all spans in if is_nested all s then s.span_id ∷ rest else rest

unfoldable pub tool_internal_span_ids : List Span → List Text
unfolding nested_ids
tool_internal_span_ids spans = nested_ids spans spans

module _ (Json Float : Type 0) (lower : Text → Text) (as_text : Json → Option Text)
    (as_list : Json → List Json) where
  unfoldable pub lowered : Option Text → Text
  lowered none = []
  lowered (some t) = lower t

  unfoldable pub is_structured_output : Dict Text Json → Bool
  unfolding lowered
  is_structured_output attrs = elim (Dict.get attrs (codes "gen_ai.request.output_schema")) [
    | some schema ↦ true
    | none ↦ elim (Dict.get attrs (codes "gen_ai.output.type")) [
      | none ↦ false
      | some type ↦ text_beq (lowered (as_text type)) (codes "json")
    ]
  ]

  unfoldable pub is_tool_call_reason : Option Text → Bool
  unfolding lowered
  is_tool_call_reason reason =
      text_beq (lowered reason) (codes "tool_use") || text_beq (lowered reason) (codes "tool_calls")

  -- A string stands for the list of it alone.
  unfoldable pub finish_reasons : Json → List (Option Text)
  finish_reasons raw = elim (as_text raw) [
    | some reason ↦ some reason ∷ []
    | none ↦ map as_text (as_list raw)
  ]

  unfoldable pub has_tool_call_finish_reason : Dict Text Json → Bool
  unfolding finish_reasons is_tool_call_reason
  has_tool_call_finish_reason attrs =
      elim (Dict.get attrs (codes "gen_ai.response.finish_reasons")) [
        | none ↦ false
        | some raw ↦ any is_tool_call_reason (finish_reasons raw)
      ]

  -- The types of the dependencies of other events on the event: its entry of the successor map.
  unfoldable pub successor_types : Dict Text (GraphEvent Json Float) → Text → List Text
  successor_types [] eid = []
  successor_types ((other, event) ∷ events) eid =
      let rest = successor_types events eid in
      elim (Dict.get event.predecessor_dependency_types eid) [
        | none ↦ rest
        | some dep_type ↦ dep_type ∷ rest
      ]

  unfoldable pub attributes_of : Option (Dict Text Json) → Dict Text Json
  attributes_of none = []
  attributes_of (some attrs) = attrs

  unfoldable pub tag_event :
      Dict Text (GraphEvent Json Float)
      → List Span
      → Text
      → GraphEvent Json Float
      → GraphEvent Json Float
  unfolding successor_types is_structured_output has_tool_call_finish_reason tool_internal_span_ids
      tool_exec_span_ids attributes_of
  tag_event events spans eid event =
      let gc = event.call in
      let attrs = attributes_of gc.attributes in
      let structured = is_structured_output attrs in
      let structural = Dict.contains (tool_internal_span_ids spans) gc.call_id in
      let fallback =
        gc.expected_output_is_tool_call
        && any (λ t. not (text_beq t (codes "temporal"))) (successor_types events eid) in
      let internal = structural || (is_empty (tool_exec_span_ids spans) && fallback) in
      let not_tool_call =
        not gc.expected_output_is_tool_call && not (has_tool_call_finish_reason attrs) in
      record event {
        is_structured_output_call = structured;
        is_tool_internal = internal;
        is_user_facing = not_tool_call && not structured && not internal;
      }

  unfoldable pub tag_events :
      Dict Text (GraphEvent Json Float)
      → List Span
      → Dict Text (GraphEvent Json Float)
      → Dict Text (GraphEvent Json Float)
  unfolding tag_event
  tag_events all spans [] = []
  tag_events all spans ((eid, event) ∷ events) =
      (eid, tag_event all spans eid event) ∷ tag_events all spans events

  unfoldable pub tag_user_facing_events :
      ReplayGraph Json Float → List Span → ReplayGraph Json Float
  unfolding tag_events
  tag_user_facing_events graph spans = record graph {
    events = tag_events graph.events spans graph.events;
  }
