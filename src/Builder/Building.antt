-- ===== src/Builder/Building.antt =====
-- `build_graph` of datagen/replay/otel_trace_to_replay_graph.py. The order in which Python gives the
-- elements of a set of ancestors is a parameter, as are the rounded shares of `Builder.Segments` and
-- the wire form of a message.
pub mod Ids
pub mod Graph
use inference_perf.Prelude.{
  ℕ, zero, suc, Bool, true, false, Option, none, some, List, [], ◌∷◌, ◌++◌, map, get_or, get_elem?,
  is_empty, if◌then◌else◌,
}
use inference_perf.Prelude.Dict
use inference_perf.Prelude.Dict.{Dict}
use inference_perf.Prelude.Text.{Text, code_points_key}
use inference_perf.Replay.Graph.{InputSegment, GraphEvent, ReplayGraph}
use inference_perf.Builder.Calls.{Message, RawCall}
use inference_perf.Builder.Causal.{OutputMatches}
use inference_perf.Builder.Ancestors.{ancestors}
use inference_perf.Builder.Predecessors.{Predecessors, find_predecessors_by_text_matching}
use inference_perf.Builder.Segments.{decompose_input, rescale_segments_to_wire, expansion_of}
use inference_perf.Builder.Events.{keys, event_id_of, id_at, graph_event}
use inference_perf.Builder.Tagging.{tag_user_facing_events}

-- `PredecessorFinder`.
abbrev pub Finder : Type 0 → Type 0 → Type 0
Finder Json Float = List (RawCall Json Float) → List Predecessors × OutputMatches

module _ (Json Float : Type 0) (expand : Message → List Json) (share : ℕ → ℕ → ℕ → ℕ)
    (set_order : List ℕ → List ℕ) (lower : Text → Text) (as_text : Json → Option Text)
    (as_list : Json → List Json) where
  unfoldable pub all_ancestor_indices : List Predecessors → ℕ → List ℕ
  all_ancestor_indices indices i = set_order (ancestors (map keys indices) i)

  -- The calls at the places, each with its event id.
  unfoldable pub calls_at : List (RawCall Json Float) → List ℕ → List (RawCall Json Float × Text)
  calls_at calls [] = []
  calls_at calls (j ∷ js) = elim (get_elem? calls j) [
    | none ↦ calls_at calls js
    | some call ↦ (call, event_id_of j call.call_id) ∷ calls_at calls js
  ]

  unfoldable pub segments_of :
      List (RawCall Json Float)
      → List Predecessors
      → OutputMatches
      → ℕ
      → RawCall Json Float
      → List InputSegment
  unfolding all_ancestor_indices calls_at
  segments_of calls indices cache i rc =
      rescale_segments_to_wire
        (decompose_input Json Float share rc (calls_at calls (all_ancestor_indices indices i))
          cache)
        (expansion_of expand rc.messages)

  unfoldable pub event_at :
      List (RawCall Json Float)
      → List Predecessors
      → OutputMatches
      → ℕ
      → RawCall Json Float
      → GraphEvent Json Float
  unfolding segments_of
  event_at calls indices cache i rc =
      graph_event Json Float expand calls i rc (get_or indices i [])
        (segments_of calls indices cache i rc)

  -- The events of the calls from place `i` on.
  unfoldable pub put_events :
      List (RawCall Json Float)
      → List Predecessors
      → OutputMatches
      → ℕ
      → Dict Text (GraphEvent Json Float)
      → List (RawCall Json Float)
      → Dict Text (GraphEvent Json Float)
  unfolding event_at
  put_events calls indices cache i events [] = events
  put_events calls indices cache i events (rc ∷ rest) =
      put_events calls indices cache (suc i)
        (Dict.put events (event_id_of i rc.call_id) (event_at calls indices cache i rc)) rest

  unfoldable pub roots_from : List Predecessors → ℕ → List (RawCall Json Float) → List Text
  roots_from indices i [] = []
  roots_from indices i (rc ∷ rest) =
      let others = roots_from indices (suc i) rest in
      if is_empty (get_or indices i []) then event_id_of i rc.call_id ∷ others else others

  unfoldable pub find_with :
      Option (Finder Json Float) → List (RawCall Json Float) → List Predecessors × OutputMatches
  find_with none calls = find_predecessors_by_text_matching Json Float calls
  find_with (some finder) calls = finder calls

  unfoldable pub build_graph :
      List (RawCall Json Float) → Text → Option (Finder Json Float) → ReplayGraph Json Float
  unfolding put_events roots_from find_with
  build_graph calls source_file predecessor_finder =
      let (indices, cache) = find_with predecessor_finder calls in
      if is_empty calls
      then record { events = []; root_event_ids = []; source_file = source_file }
      else tag_user_facing_events Json Float lower as_text as_list
          (record {
            events = put_events calls indices cache 0 [] calls;
            root_event_ids = roots_from indices 0 calls;
            source_file = source_file;
          })
          []
