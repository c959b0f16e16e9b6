-- ===== src/Builder/Order/Tests.antt =====
-- An order that is not topological, and the theorem at its graph.
use inference_perf.Prelude.{ℕ, ◌≡◌, refl, ◌↔◌, false, true, none, some, List, [], ◌∷◌}
use inference_perf.Prelude.Dict
use inference_perf.Prelude.Dict.{contains}
use inference_perf.Prelude.Text.{Text, codes, text_beq, code_points_key}
use inference_perf.Replay.Graph.{GraphCall, GraphEvent, ReplayGraph}
use inference_perf.Builder.Order.{successor_map, successors_at, topo_order}
use inference_perf.Builder.Order.Visits.{IsDistinct, Reached, topo_order_visits}

abbrev call : GraphCall ℕ ℕ
call = record {
  call_id = [];
  model = [];
  messages = [];
  expected_output = [];
  input_segments = [];
  total_input_tokens = 0;
  expected_output_tokens = 0;
  temperature = none;
  max_tokens_recorded = none;
  tool_definitions = none;
  expected_output_is_tool_call = false;
  expected_output_tool_names = none;
  attributes = none;
  session_id_suffix = none;
}

abbrev event : Text → List Text → GraphEvent ℕ ℕ
event id preds = record {
  event_id = id;
  call = call;
  predecessor_event_ids = preds;
  predecessor_dependency_types = [];
  wait_ms = 0;
  t_start_ms = 0;
  t_end_ms = 0;
  is_user_facing = false;
  is_structured_output_call = false;
  is_tool_internal = false;
}

-- a before b, b before c, and both a and c before d.
abbrev graph : ReplayGraph ℕ ℕ
graph = record {
  events =
      (codes "a", event (codes "a") [])
      ∷ (codes "b", event (codes "b") (codes "a" ∷ []))
      ∷ (codes "c", event (codes "c") (codes "b" ∷ []))
      ∷ (codes "d", event (codes "d") (codes "a" ∷ codes "c" ∷ []))
      ∷ [];
  root_event_ids = codes "a" ∷ [];
  source_file = [];
}

-- d comes before c, which it waits for.
not_topological : topo_order ℕ ℕ graph ≡ some (codes "a" ∷ codes "b" ∷ codes "d" ∷ codes "c" ∷ [])
unfolding topo_order successors_at contains text_beq Dict.get Dict.put
not_topological = refl

topo_order_visits_example :
    (order : List Text) × (topo_order ℕ ℕ graph ≡ some order)
    × IsDistinct order
    × ((id : Text)
        → (contains order id ≡ true) ↔ Reached (successor_map ℕ ℕ graph) graph.root_event_ids id)
topo_order_visits_example = topo_order_visits ℕ ℕ graph
