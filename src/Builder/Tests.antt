-- ===== src/Builder/Tests.antt =====
-- Runs of the graph builder, and the theorems at concrete traces.
use inference_perf.Prelude.{
  ℕ, ◌+◌, ◌*◌, ◌/◌, ◌<◌, ◌≡◌, refl, ◌↔◌, true, none, some, List, [], ◌∷◌, map, length, get_or, All,
  number_key,
}
use inference_perf.Prelude.Dict
use inference_perf.Prelude.Dict.{contains}
use inference_perf.Prelude.Text.{Text, codes, text_beq, code_points_key}
use inference_perf.Replay.Schedule.{decimal}
use inference_perf.Builder.Calls.{Message, RawCall, is_within, starts_with, output_matches_message}
use inference_perf.Builder.Causal.{get_causal_dep, dependency, full_match}
use inference_perf.Builder.Ancestors.{
  search, extend, edge_count, ancestors, Edge, Ancestor, search_decides,
}
use inference_perf.Builder.Predecessors.{
  causal_keys, is_temporal, is_valid_predecessor, find_predecessors_by_text_matching,
}
use inference_perf.Builder.Predecessors.Reduced.{feeds_at}
use inference_perf.Builder.Predecessors.Closure.{
  Chain, found_edges, found_edges-Chain, found_edges-minimal,
}
use inference_perf.Builder.Segments.{
  rescale_segments_to_wire, map_input_from, flatten, expansion_of, decompose_input,
}
use inference_perf.Builder.Segments.Cover.{message_counts, message_counts-decompose_input}
use inference_perf.Builder.Segments.Wire.{slices, slices-rescale_segments_to_wire}
use inference_perf.Builder.Tagging.{
  Span, is_tool_execution, is_nested, span_by_id, truthy, tool_exec_span_ids,
}
use inference_perf.Builder.Tagging.Nesting.{Above, is_nested_iff}
use inference_perf.Builder.Events.{keys, event_id_of}
use inference_perf.Builder.Building.{build_graph}
use inference_perf.Builder.Building.Graph.{Covers, keys-build_graph, build_graph-Covers}

-- 0 and 1 are each other's predecessors, and 2 has both.
abbrev cycle : List (List ℕ)
cycle = (1 ∷ []) ∷ (0 ∷ []) ∷ (0 ∷ 1 ∷ []) ∷ []

ancestors-cycle : ancestors cycle 2 ≡ 1 ∷ 0 ∷ []
unfolding ancestors contains Dict.add
ancestors-cycle = refl

search_decides_example :
    (found : List ℕ) × (search
        (edge_count cycle + length (get_or cycle 2 []))
        cycle
        (extend [] (get_or cycle 2 []))
        []
      ≡ some found)
    × (ancestors cycle 2 ≡ found)
    × ((v : ℕ) → (contains found v ≡ true) ↔ Ancestor cycle 2 v)
search_decides_example = search_decides cycle 2

abbrev user : Text → Message
user t = record { role = codes "user"; text = t; message_info = none }

abbrev assistant : Text → Message
assistant t = record { role = codes "assistant"; text = t; message_info = none }

abbrev call_of : Text → ℕ → ℕ → List Message → Message → RawCall ℕ ℕ
call_of id t_start t_end messages out = record {
  call_id = id;
  t_start_ms = t_start;
  t_end_ms = t_end;
  model = codes "m";
  messages = messages;
  out_message = some out;
  prompt_tokens = none;
  completion_tokens = some 5;
  temperature = none;
  max_tokens_recorded = none;
  tool_definitions = none;
  extra_attributes = [];
  session_id_suffix = none;
}

-- A conversation of three turns: each call is given what the calls before it were given, and what
-- they answered.
abbrev turn_1 : RawCall ℕ ℕ
turn_1 = call_of (codes "a") 0 10 (user (codes "hi") ∷ []) (assistant (codes "hello"))

abbrev turn_2 : RawCall ℕ ℕ
turn_2 =
    call_of (codes "b") 20 30
      (user (codes "hi") ∷ assistant (codes "hello") ∷ user (codes "how") ∷ [])
      (assistant (codes "fine"))

abbrev turn_3 : RawCall ℕ ℕ
turn_3 =
    call_of (codes "c") 45 60
      (user (codes "hi")
        ∷ assistant (codes "hello")
        ∷ user (codes "how")
        ∷ assistant (codes "fine")
        ∷ [])
      (assistant (codes "ok"))

abbrev talk : List (RawCall ℕ ℕ)
talk = turn_1 ∷ turn_2 ∷ turn_3 ∷ []

found_edges-talk : found_edges ℕ ℕ talk ≡ [] ∷ (0 ∷ []) ∷ (1 ∷ []) ∷ []
unfolding find_predecessors_by_text_matching ancestors is_within causal_keys is_valid_predecessor
    Dict.get contains get_causal_dep dependency full_match output_matches_message text_beq Dict.put
    starts_with is_temporal Dict.add
found_edges-talk = refl

talk_linked : Edge (found_edges ℕ ℕ talk) 2 1
unfolding contains
talk_linked = rw found_edges-talk refl

found_edges-Chain_example : Ancestor (found_edges ℕ ℕ talk) 2 0 ↔ Chain ℕ ℕ talk 2 0
found_edges-Chain_example = found_edges-Chain ℕ ℕ talk 2 0

found_edges-minimal_example :
    (1 < 2)
    × (feeds_at ℕ ℕ talk 1 2 ≡ true)
    × ((k : ℕ) → Edge (found_edges ℕ ℕ talk) 2 k → ¬ Ancestor (found_edges ℕ ℕ talk) k 1)
found_edges-minimal_example = found_edges-minimal ℕ ℕ talk 2 1 talk_linked

abbrev share : ℕ → ℕ → ℕ → ℕ
share total part whole = total * part / whole

-- Each message stands for two on the wire.
abbrev twice : Message → List ℕ
twice m = length m.text ∷ 0 ∷ []

message_counts-decompose_input_example :
    message_counts
      (decompose_input ℕ ℕ share turn_3 ((turn_1, codes "e0") ∷ (turn_2, codes "e1") ∷ []) [])
    ≡ 4
message_counts-decompose_input_example =
    message_counts-decompose_input ℕ ℕ share turn_3
      ((turn_1, codes "e0") ∷ (turn_2, codes "e1") ∷ []) []

slices-rescale_segments_to_wire_example :
    slices (
      map_input_from 0
        (rescale_segments_to_wire
          (decompose_input ℕ ℕ share turn_2 ((turn_1, codes "e0") ∷ []) [])
          (expansion_of twice turn_2.messages))
        (flatten twice turn_2.messages))
    ≡ map (flatten twice) (
        slices (
          map_input_from 0
            (decompose_input ℕ ℕ share turn_2 ((turn_1, codes "e0") ∷ []) [])
            turn_2.messages))
slices-rescale_segments_to_wire_example =
    slices-rescale_segments_to_wire twice
      (decompose_input ℕ ℕ share turn_2 ((turn_1, codes "e0") ∷ []) []) turn_2.messages

keys-build_graph_example :
    keys
      (build_graph ℕ ℕ twice share
        (λ xs. xs)
        (λ t. t)
        (λ j. none)
        (λ j. [])
        talk
        (codes "f")
        none).events
    ≡ codes "event_000_a" ∷ codes "event_001_b" ∷ codes "event_002_c" ∷ []
unfolding event_id_of decimal
keys-build_graph_example =
    keys-build_graph ℕ ℕ twice share (λ xs. xs) (λ t. t) (λ j. none) (λ j. []) talk (codes "f") none

build_graph-Covers_example :
    All
      (λ p. Covers ℕ ℕ twice share (λ xs. xs) (λ t. t) (λ j. none) (λ j. []) p.1)
      (build_graph ℕ ℕ twice share
        (λ xs. xs)
        (λ t. t)
        (λ j. none)
        (λ j. [])
        talk
        (codes "f")
        none).events
build_graph-Covers_example =
    build_graph-Covers ℕ ℕ twice share (λ xs. xs) (λ t. t) (λ j. none) (λ j. []) talk (codes "f")
      none

-- A call to a model inside a tool's execution.
abbrev spans : List Span
spans =
    record { span_id = codes "t"; name = codes "x.tool_execution"; parent_span_id = none }
    ∷ record { span_id = codes "w"; name = codes "wrap"; parent_span_id = some (codes "t") }
    ∷ record { span_id = codes "c"; name = codes "chat"; parent_span_id = some (codes "w") }
    ∷ []

abbrev chat : Span
chat = record { span_id = codes "c"; name = codes "chat"; parent_span_id = some (codes "w") }

is_nested-chat : is_nested spans chat ≡ true
unfolding is_nested is_within contains is_tool_execution starts_with text_beq Dict.get Dict.put
    Dict.add
is_nested-chat = refl

is_nested_iff_example : (is_nested spans chat ≡ true) ↔ (
    (parent : Text) × (truthy chat.parent_span_id ≡ some parent)
    × (id : Text) × Above (span_by_id [] spans) parent id
    × (contains (tool_exec_span_ids spans) id ≡ true))
is_nested_iff_example = is_nested_iff spans chat
