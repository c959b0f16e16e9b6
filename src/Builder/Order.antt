-- ===== src/Builder/Order.antt =====
-- `_topo_order` of datagen/replay/otel_trace_to_replay_graph.py. The set `visited` and the list `order`
-- get the same ids, so that one list stands for both.
mod Tests
pub mod Visits
use inference_perf.Prelude.{
  ℕ, zero, suc, ◌+◌, Bool, true, false, Option, none, some, List, [], ◌∷◌, ◌++◌, length,
  if◌then◌else◌,
}
use inference_perf.Prelude.Dict
use inference_perf.Prelude.Dict.{Dict}
use inference_perf.Prelude.Text.{Text, code_points_key}
use inference_perf.Replay.Graph.{GraphEvent, ReplayGraph}

abbrev pub Successors : Type 0
Successors = Dict Text (List Text)

unfoldable pub successors_at : Successors → Text → List Text
successors_at d eid = elim (Dict.get d eid) [ none ↦ [] | some ids ↦ ids ]

-- An id that is no event has no entry, and gets none.
unfoldable pub add_successor : Successors → Text → Text → Successors
add_successor d pred_id eid = elim (Dict.get d pred_id) [
  | none ↦ d
  | some ids ↦ Dict.put d pred_id (ids ++ eid ∷ [])
]

unfoldable pub add_event : Successors → Text → List Text → Successors
unfolding add_successor
add_event d eid [] = d
add_event d eid (pred_id ∷ preds) = add_event (add_successor d pred_id eid) eid preds

unfoldable pub visit_queue : ℕ → Successors → (queue order : List Text) → Option (List Text)
visit_queue fuel d [] order = some order
visit_queue zero d (eid ∷ queue) order = none
visit_queue (suc fuel) d (eid ∷ queue) order = elim (Dict.contains order eid) [
  | true ↦ visit_queue fuel d queue order
  | false ↦ visit_queue fuel d (queue ++ successors_at d eid) (order ++ eid ∷ [])
]

-- How many ids the successor map has on its right.
unfoldable pub successor_count : Successors → ℕ
successor_count [] = 0
successor_count ((k, ids) ∷ d) = length ids + successor_count d

module _ (Json Float : Type 0) where
  unfoldable pub no_successors : Dict Text (GraphEvent Json Float) → Successors
  no_successors [] = []
  no_successors ((eid, event) ∷ events) = Dict.put (no_successors events) eid []

  unfoldable pub add_events : Successors → Dict Text (GraphEvent Json Float) → Successors
  unfolding add_event
  add_events d [] = d
  add_events d ((eid, event) ∷ events) =
      add_events (add_event d eid event.predecessor_event_ids) events

  unfoldable pub successor_map : ReplayGraph Json Float → Successors
  unfolding no_successors add_events
  successor_map graph = add_events (no_successors graph.events) graph.events

  -- Each entry of the queue is a root or stands for an edge out of an event that was visited.
  unfoldable pub topo_order : ReplayGraph Json Float → Option (List Text)
  unfolding successor_map visit_queue successor_count
  topo_order graph =
      let d = successor_map graph in
      visit_queue (successor_count d + length graph.root_event_ids) d graph.root_event_ids []
