-- ===== src/Builder/Building/Graph.antt =====
-- What `build_graph` makes of the calls: one event for each, in order, whose segments cover what it
-- sends.
use inference_perf.Prelude.{
  ℕ, suc, ◌<◌, ◌≡◌, refl, sym, ap, ◌∙◌, Option, none, List, [], ◌∷◌, ◌++◌, append_assoc, append-nil,
  length, All, arith,
}
use inference_perf.Prelude.Dict
use inference_perf.Prelude.Dict.{Dict}
use inference_perf.Prelude.Text.{Text, code_points_key}
use inference_perf.Replay.Graph.{GraphEvent}
use inference_perf.Builder.Calls.{Message, RawCall}
use inference_perf.Builder.Causal.{OutputMatches}
use inference_perf.Builder.Predecessors.{Predecessors}
use inference_perf.Builder.Segments.{decompose_input}
use inference_perf.Builder.Segments.Cover.{message_counts, message_counts-decompose_input}
use inference_perf.Builder.Segments.Wire.{message_counts-rescale}
use inference_perf.Builder.Events.{keys, event_id_of, graph_event, graph_call}
use inference_perf.Builder.Tagging.{tag_event, tag_events, tag_user_facing_events}
use inference_perf.Builder.Building.{
  Finder, all_ancestor_indices, calls_at, segments_of, event_at, put_events, find_with, build_graph,
}
use inference_perf.Builder.Building.Ids.{event_id_of-injective}

module _ {V : Type 0} where
  put-new :
      (d : Dict Text V) (k : Text) (v : V) → Dict.get d k ≡ none → Dict.put d k v ≡ d ++ (k, v) ∷ []
  unfolding Dict.get Dict.put
  put-new [] k v h = refl
  put-new ((j, w) ∷ d) k v h = ground (arith, put-new d k v)

  -- The keys are event ids of calls before place `i`.
  abbrev Before : ℕ → Dict Text V → Type 0
  Before i = All (λ p. (j : ℕ) × (call_id : Text) × (j < i) × (p.0 ≡ event_id_of j call_id))

  Before-none :
      (i : ℕ) (call_id : Text) (d : Dict Text V)
      → Before i d
      → Dict.get d (event_id_of i call_id) ≡ none
  unfolding Dict.get
  Before-none i call_id [] h = refl
  Before-none i call_id ((k, v) ∷ d) ((j, id, lt, e), rest) =
      let other : k ≡ event_id_of i call_id → i ≡ j =
        λ q. event_id_of-injective i j call_id id (sym q ∙ e) in
      ground (
        arith,
        Before-none i call_id d rest,
        code_points_key.test_iff k (event_id_of i call_id),
        other,
      )

  Before-append :
      (i : ℕ) (call_id : Text) (v : V) (d : Dict Text V)
      → Before i d
      → Before (suc i) (d ++ (event_id_of i call_id, v) ∷ [])
  Before-append i call_id v [] h = ((i, call_id, omega arith, refl), tt)
  Before-append i call_id v ((k, w) ∷ d) ((j, id, lt, e), rest) =
      ((j, id, omega arith, e), Before-append i call_id v d rest)

  keys-append : (d e : Dict Text V) → keys (d ++ e) ≡ keys d ++ keys e
  unfolding keys
  keys-append [] e = refl
  keys-append ((k, v) ∷ d) e = ap (◌∷◌ k) (keys-append d e)

module _ (Json Float : Type 0) (expand : Message → List Json) (share : ℕ → ℕ → ℕ → ℕ)
    (set_order : List ℕ → List ℕ) (lower : Text → Text) (as_text : Json → Option Text)
    (as_list : Json → List Json) where
  -- The event ids of the calls from place `i` on.
  abbrev pub ids_from : ℕ → List (RawCall Json Float) → List Text
  ids_from i [] = []
  ids_from i (rc ∷ rest) = event_id_of i rc.call_id ∷ ids_from (suc i) rest

  entries :
      List (RawCall Json Float)
      → List Predecessors
      → OutputMatches
      → ℕ
      → List (RawCall Json Float)
      → Dict Text (GraphEvent Json Float)
  entries calls indices cache i [] = []
  entries calls indices cache i (rc ∷ rest) =
      (
        event_id_of i rc.call_id,
        event_at Json Float expand share set_order lower as_text as_list calls indices cache i rc,
      )
      ∷ entries calls indices cache (suc i) rest

  put_events-entries :
      (calls : List (RawCall Json Float)) (indices : List Predecessors) (cache : OutputMatches)
      (i : ℕ) (events : Dict Text (GraphEvent Json Float)) (rest : List (RawCall Json Float))
      → Before i events
      → put_events Json Float expand share set_order lower as_text as_list calls indices cache i
          events rest
        ≡ events ++ entries calls indices cache i rest
  unfolding put_events entries
  put_events-entries calls indices cache i events [] h = sym (append-nil events)
  put_events-entries calls indices cache i events (rc ∷ rest) h =
      let event =
        event_at Json Float expand share set_order lower as_text as_list calls indices cache i rc in
      let id = event_id_of i rc.call_id in
      rw (put-new events id event (Before-none i rc.call_id events h)) (
        put_events-entries calls indices cache (suc i) (events ++ (id, event) ∷ []) rest
          (Before-append i rc.call_id event events h)
        ∙ append_assoc events ((id, event) ∷ []) (entries calls indices cache (suc i) rest))

  keys-entries :
      (calls : List (RawCall Json Float)) (indices : List Predecessors) (cache : OutputMatches)
      (i : ℕ) (rest : List (RawCall Json Float))
      → keys (entries calls indices cache i rest) ≡ ids_from i rest
  unfolding keys entries
  keys-entries calls indices cache i [] = refl
  keys-entries calls indices cache i (rc ∷ rest) =
      ap (◌∷◌ (event_id_of i rc.call_id)) (keys-entries calls indices cache (suc i) rest)

  keys-tag_events :
      (all : Dict Text (GraphEvent Json Float)) (events : Dict Text (GraphEvent Json Float))
      → keys (tag_events Json Float lower as_text as_list all [] events) ≡ keys events
  unfolding keys tag_events
  keys-tag_events all [] = refl
  keys-tag_events all ((k, event) ∷ events) = ap (◌∷◌ k) (keys-tag_events all events)

  -- Each call becomes one event: the events of the graph, in their order, bear the event ids of the
  -- calls in theirs, whichever function finds the predecessors, and whether or not call ids repeat.
  pub keys-build_graph :
      (calls : List (RawCall Json Float)) (source_file : Text) (finder : Option (Finder Json Float))
      → keys
          (build_graph Json Float expand share set_order lower as_text as_list calls source_file
            finder).events
        ≡ ids_from 0 calls
  unfolding build_graph tag_user_facing_events keys
  keys-build_graph [] source_file finder = refl
  keys-build_graph (rc ∷ calls) source_file finder =
      let (indices, cache) =
        find_with Json Float expand share set_order lower as_text as_list finder (rc ∷ calls) in
      let events =
        put_events Json Float expand share set_order lower as_text as_list (rc ∷ calls) indices
          cache 0 [] (rc ∷ calls) in
      keys-tag_events events events
      ∙ ap keys (put_events-entries (rc ∷ calls) indices cache 0 [] (rc ∷ calls) tt)
      ∙ keys-entries (rc ∷ calls) indices cache 0 (rc ∷ calls)

  -- The segments of an event cover the messages that its call sends.
  abbrev pub Covers : GraphEvent Json Float → Type 0
  Covers event = message_counts event.call.input_segments ≡ length event.call.messages

  entries-Covers :
      (calls : List (RawCall Json Float)) (indices : List Predecessors) (cache : OutputMatches)
      (i : ℕ) (rest : List (RawCall Json Float))
      → All (λ p. Covers p.1) (entries calls indices cache i rest)
  unfolding entries event_at graph_event graph_call segments_of
  entries-Covers calls indices cache i [] = tt
  entries-Covers calls indices cache i (rc ∷ rest) =
      let before =
        calls_at Json Float expand share set_order lower as_text as_list calls (
          all_ancestor_indices Json Float expand share set_order lower as_text as_list indices i) in
      (
        message_counts-rescale expand (decompose_input Json Float share rc before cache) rc.messages
            (message_counts-decompose_input Json Float share rc before cache),
        entries-Covers calls indices cache (suc i) rest,
      )

  tag_events-Covers :
      (all events : Dict Text (GraphEvent Json Float))
      → All (λ p. Covers p.1) events
      → All (λ p. Covers p.1) (tag_events Json Float lower as_text as_list all [] events)
  unfolding tag_events tag_event
  tag_events-Covers all [] h = tt
  tag_events-Covers all ((k, event) ∷ events) (h, rest) = (h, tag_events-Covers all events rest)

  -- Each event of a graph has segments whose counts add up to the number of its wire messages,
  -- whatever a recorded message expands to and whichever function finds the predecessors, so that the
  -- warning of a failed validation is never given.
  pub build_graph-Covers :
      (calls : List (RawCall Json Float)) (source_file : Text) (finder : Option (Finder Json Float))
      → All
          (λ p. Covers p.1)
          (build_graph Json Float expand share set_order lower as_text as_list calls source_file
            finder).events
  unfolding build_graph tag_user_facing_events
  build_graph-Covers [] source_file finder = tt
  build_graph-Covers (rc ∷ calls) source_file finder =
      let (indices, cache) =
        find_with Json Float expand share set_order lower as_text as_list finder (rc ∷ calls) in
      let events =
        put_events Json Float expand share set_order lower as_text as_list (rc ∷ calls) indices
          cache 0 [] (rc ∷ calls) in
      tag_events-Covers events events (
        rw (put_events-entries (rc ∷ calls) indices cache 0 [] (rc ∷ calls) tt)
          (entries-Covers (rc ∷ calls) indices cache 0 (rc ∷ calls)))
