-- ===== src/Replay/Progress/Eviction.antt =====
-- What eviction leaves of a session in the registry of outputs and in the tracker.
use inference_perf.Prelude.{
  ℕ, zero, suc, set, get_or, true, number_key, ◌≡◌, refl, ◌∙◌, Bool, false, ◌||◌, Option, none,
  some, List, [], ◌∷◌, if◌then◌else◌, All, arith, Bool-cases, Option-cases, inl, inr,
}
use inference_perf.Prelude.Dict
use inference_perf.Prelude.Dict.{Dict, get-pop, contains-discard}
use inference_perf.Prelude.Text.{Text, code_points_key, text_beq, text_beq_iff}
use inference_perf.Replay.Graph.{GraphEvent}
use inference_perf.Replay.Ids.{qualify}
use inference_perf.Replay.Outputs.{Outputs, new_outputs, is_event_failed}
use inference_perf.Replay.Sessions.{Session, SessionEvent, SessionState, Runtime}
use inference_perf.Replay.Tracker.{Tracker, new_tracker, forget_session}
use inference_perf.Replay.Tracker.Queries.{answers, answers-forget_session}
use inference_perf.Replay.Progress.{drop_outputs, free_slot, cleanup_session, evict_worker_session}

module _ (Json Float : Type 0) where
  -- Whatever the registry holds of an event, table by table.
  pub record Entry : Type 0 where
    pub text : Option Text
    pub message : Option Json
    pub messages : Option (List Json)
    pub signal : Option Bool
    pub failed : Bool

  unfoldable pub entry : Outputs Json → Text → Entry
  entry o e = record {
    text = Dict.get o.output_text e;
    message = Dict.get o.output_message e;
    messages = Dict.get o.input_messages e;
    signal = Dict.get o.signals e;
    failed = is_event_failed Json o e;
  }

  -- The event is one of those that are dropped.
  unfoldable pub is_among : Text → Dict Text (GraphEvent Json Float) → Text → Bool
  is_among s [] e = false
  is_among s ((k, _) ∷ events) e = text_beq (qualify s k) e || is_among s events e

  -- Dropping one event forgets it in every table.
  abbrev without : Outputs Json → Text → Outputs Json
  without o k = record {
    output_text = Dict.pop o.output_text k;
    output_message = Dict.pop o.output_message k;
    input_messages = Dict.pop o.input_messages k;
    signals = Dict.pop o.signals k;
    failed_event_ids = Dict.discard o.failed_event_ids k;
  }

  entry-without :
      (o : Outputs Json) (k e : Text)
      → entry (without o k) e ≡ (if text_beq k e then entry (new_outputs Json) e else entry o e)
  unfolding entry is_event_failed Dict.get Dict.contains
  entry-without o k e = elim (Bool-cases (text_beq k e)) [
    | inl same ↦ simp (get-pop, contains-discard, same)
    | inr other ↦ simp (get-pop, contains-discard, other)
  ]

  -- Dropping the outputs of a session forgets its events in every table, and no other event.
  pub entry-drop_outputs :
      (s : Text) (events : Dict Text (GraphEvent Json Float)) (o : Outputs Json) (e : Text)
      → entry (drop_outputs Json Float s events o) e
        ≡ (if is_among s events e then entry (new_outputs Json) e else entry o e)
  unfolding drop_outputs is_among
  entry-drop_outputs s [] o e = refl
  entry-drop_outputs s ((k, _) ∷ events) o e =
      let dropped = entry-without o (qualify s k) e in
      let rest = entry-drop_outputs s events (without o (qualify s k)) e in
      elim (Bool-cases (text_beq (qualify s k) e)) [
        | inl same ↦ rest ∙ rw (dropped, same) (ground arith)
        | inr other ↦ rest ∙ rw (dropped, other) refl
      ]

  abbrev pub graph_events : Option (SessionState Json Float) → Dict Text (GraphEvent Json Float)
  graph_events none = []
  graph_events (some state) = state.graph.events

  -- What the slot of a session holds: its events, and the session as it was built.
  abbrev pub slot_of :
      Runtime Json Float
      → Text
      → Option (List (SessionEvent Json Float)) × Option (Session Json Float)
  slot_of r s = elim (Dict.get r.session_id_to_index s) [
    | none ↦ (none, none)
    | some i ↦ (Dict.get r.session_events i, get_or r.sessions i none)
  ]

  -- The slot of a session that has a state; one without a state was not built.
  abbrev pub built_slot :
      Option (SessionState Json Float)
      → Runtime Json Float
      → Text
      → Option (List (SessionEvent Json Float)) × Option (Session Json Float)
  built_slot none r s = (none, none)
  built_slot (some _) r s = slot_of r s

  -- Nothing is kept of a session that had this state: of each event of its graph, and in its slot.
  pub record IsForgotten (s : Text) (state : Option (SessionState Json Float))
      (r : Runtime Json Float) : Type 0 where
    pub tracker : answers r.worker_tracker s ≡ answers new_tracker s
    pub no_state : Dict.get r.session_graph_state s ≡ none
    pub outputs :
        All
          (λ event.
            entry r.output_registry (qualify s event.0)
            ≡ entry (new_outputs Json) (qualify s event.0))
          (graph_events state)
    pub slot : built_slot state r s ≡ (none, none)

  events_among :
      (s : Text) (whole events : Dict Text (GraphEvent Json Float))
      → ((e : Text) → is_among s events e ≡ true → is_among s whole e ≡ true)
      → All (λ event. is_among s whole (qualify s event.0) ≡ true) events
  unfolding is_among
  events_among s whole [] h = tt
  events_among s whole ((k, event) ∷ events) h = (
    h (qualify s k) (ground (arith, text_beq_iff (qualify s k) (qualify s k))),
    events_among s whole events (λ e among. h e (ground arith)),
  )

  events_dropped :
      (s : Text) (whole events : Dict Text (GraphEvent Json Float)) (o : Outputs Json)
      → All (λ event. is_among s whole (qualify s event.0) ≡ true) events
      → All
          (λ event.
            entry (drop_outputs Json Float s whole o) (qualify s event.0)
            ≡ entry (new_outputs Json) (qualify s event.0))
          events
  events_dropped s whole [] o h = tt
  events_dropped s whole ((k, event) ∷ events) o (among, rest) = (
    rw (entry-drop_outputs s whole o (qualify s k), among) refl,
    events_dropped s whole events o rest,
  )

  self : (s : Text) → text_beq s s ≡ true
  self s = ground (arith, text_beq_iff s s)

  emptied :
      (slots : List (Option (Session Json Float))) (i : ℕ) → get_or (set slots i none) i none ≡ none
  emptied [] i = refl
  emptied (x ∷ slots) zero = refl
  emptied (x ∷ slots) (suc i) = emptied slots i

  popped : (d : Dict ℕ (List (SessionEvent Json Float))) (i : ℕ) → Dict.get (Dict.pop d i) i ≡ none
  popped d i = ground (arith, get-pop d i i)

  -- The slot after it has been freed.
  freed :
      (r : Runtime Json Float) (s : Text) (slot : Option ℕ)
      → Dict.get r.session_id_to_index s ≡ slot
      → slot_of (free_slot Json Float r slot) s ≡ (none, none)
  unfolding free_slot
  freed r s none q = rw (slot_of, q) refl
  freed r s (some i) q = rw (slot_of, q, popped r.session_events i, emptied r.sessions i) refl

  -- Freeing a slot touches neither the tracker nor the states nor the registry.
  free_slot-keeps :
      (r : Runtime Json Float) (slot : Option ℕ)
      → ((free_slot Json Float r slot).worker_tracker ≡ r.worker_tracker)
        × ((free_slot Json Float r slot).session_graph_state ≡ r.session_graph_state)
        × ((free_slot Json Float r slot).output_registry ≡ r.output_registry)
  unfolding free_slot
  free_slot-keeps r none = (refl, refl, refl)
  free_slot-keeps r (some i) = (refl, refl, refl)

  forget : Runtime Json Float → Text → Runtime Json Float
  forget c s = record c { worker_tracker = forget_session c.worker_tracker s }

  forgotten : (t : Tracker) (s : Text) → answers (forget_session t s) s ≡ answers new_tracker s
  forgotten t s = answers-forget_session t s s ∙ rw (self s) refl

  -- A session without a state.
  forget-IsForgotten :
      (r : Runtime Json Float) (s : Text)
      → Dict.get r.session_graph_state s ≡ none
      → IsForgotten s none (forget r s)
  unfolding forget
  forget-IsForgotten r s absent = record {
    tracker = forgotten r.worker_tracker s;
    no_state = absent;
    outputs = tt;
    slot = refl;
  }

  -- A session whose graph, events and outputs were dropped.
  free_slot-IsForgotten :
      (r : Runtime Json Float) (s : Text) (state : SessionState Json Float) (slot : Option ℕ)
      → Dict.get r.session_id_to_index s ≡ slot
      → IsForgotten s (some state) (
          forget
            (free_slot Json Float
              (record r {
                output_registry = drop_outputs Json Float s state.graph.events r.output_registry;
                session_graph_state = Dict.pop r.session_graph_state s;
              })
              slot)
            s)
  unfolding forget
  free_slot-IsForgotten r s state slot q =
      let dropped : Runtime Json Float = record r {
        output_registry = drop_outputs Json Float s state.graph.events r.output_registry;
        session_graph_state = Dict.pop r.session_graph_state s;
      } in
      let keeps = free_slot-keeps dropped slot in
      record {
        tracker = forgotten (free_slot Json Float dropped slot).worker_tracker s;
        no_state = rw keeps.1 (rw (get-pop r.session_graph_state s s, self s) refl);
        outputs = rw keeps.2 (
            events_dropped s state.graph.events state.graph.events r.output_registry
              (events_among s state.graph.events state.graph.events (λ e among. among)));
        slot = freed dropped s slot q;
      }

  -- Eviction forgets a session.
  pub evict_worker_session-IsForgotten :
      (r : Runtime Json Float) (s : Text)
      → IsForgotten s (Dict.get r.session_graph_state s) (evict_worker_session Json Float r s)
  unfolding evict_worker_session forget
  evict_worker_session-IsForgotten r s = elim (Option-cases (Dict.get r.session_graph_state s)) [
    | inl absent ↦ rw (cleanup_session, absent) (forget-IsForgotten r s absent)
    | inr (state, present) ↦
        rw (cleanup_session, present)
          (free_slot-IsForgotten r s state (Dict.get r.session_id_to_index s) refl)
  ]
