-- ===== src/Replay/Schedule/Events.antt =====
-- Which events of a graph are scheduled, and under which ids and waits.
use inference_perf.Prelude.{
  ◌≡◌, ◌∙◌, ◌⊎◌, true, ◌≤◌, refl, Bool, false, ◌||◌, ◌&&◌, not, Option, some, List, [], ◌∷◌, map,
  is_empty, All, arith, Bool-cases, inl, inr,
}
use inference_perf.Prelude.Dict
use inference_perf.Prelude.Dict.{Dict}
use inference_perf.Prelude.Text.{Text, code_points_key, text_beq}
use inference_perf.Replay.Graph.{GraphEvent}
use inference_perf.Replay.Ids.{qualify, extract_session_id, HasNoColon, qualify_parts, qualify-test}
use inference_perf.Replay.Sessions.{ReplayConfig, Session, SessionEvent}
use inference_perf.Replay.Schedule.{session_event, schedule_events, limit_wait}

module _ (Json Float : Type 0) where
  -- The ids of scheduled events.
  abbrev pub event_ids : List (SessionEvent Json Float) → List Text
  event_ids [] = []
  event_ids (e ∷ es) = e.event_id ∷ event_ids es

  -- The graph has an event with this id, and that event has messages.
  abbrev pub has_runnable : Dict Text (GraphEvent Json Float) → Text → Bool
  has_runnable [] event_id = false
  has_runnable ((_, event) ∷ events) event_id =
      (not (is_empty event.call.messages) && text_beq event.event_id event_id)
      || has_runnable events event_id

  -- An id that the session gives to one of its events is the id of a scheduled event exactly when the
  -- graph has such an event with messages.
  pub contains-schedule_events :
      (config : Option ReplayConfig) (session : Session Json Float)
      (events : Dict Text (GraphEvent Json Float)) (event_id : Text)
      → Dict.contains
          (event_ids (schedule_events Json Float config session events))
          (qualify session.session_id event_id)
        ≡ has_runnable events event_id
  unfolding schedule_events session_event Dict.contains
  contains-schedule_events config session [] event_id = refl
  contains-schedule_events config session ((_, event) ∷ events) event_id = ground (
    arith,
    contains-schedule_events config session events event_id,
    qualify-test session.session_id event.event_id event_id,
  )

  -- The graph has an event that can be run for each predecessor of its events that can be run.
  abbrev pub IsClosed : (whole events : Dict Text (GraphEvent Json Float)) → Type 0
  IsClosed whole [] = Unit
  IsClosed whole ((_, event) ∷ events) =
      (is_empty event.call.messages ≡ true
        ⊎ All (λ p. has_runnable whole p ≡ true) event.predecessor_event_ids)
      × IsClosed whole events

  -- What a scheduled event carries for the worker that runs it, among the events `scheduled`.
  pub record IsOwn (config : ReplayConfig) (session : Session Json Float)
      (scheduled : List (SessionEvent Json Float)) (e : SessionEvent Json Float) : Type 0 where
    pub own_session : extract_session_id e.event_id ≡ session.session_id
    pub own_predecessors :
        All
          (λ p.
            (extract_session_id p ≡ session.session_id)
            × (Dict.contains (event_ids scheduled) p ≡ true))
          e.predecessor_event_ids
    pub bounded_wait : e.wait_ms ≤ config.max_wait_ms
    pub has_messages : is_empty e.messages ≡ false

  own-map :
      (config : Option ReplayConfig) (session : Session Json Float)
      (whole : Dict Text (GraphEvent Json Float)) (ids : List Text)
      → HasNoColon session.session_id
      → All (λ p. has_runnable whole p ≡ true) ids
      → All
          (λ p.
            (extract_session_id p ≡ session.session_id)
            × (Dict.contains (event_ids (schedule_events Json Float config session whole)) p
                ≡ true))
          (map (qualify session.session_id) ids)
  own-map config session whole [] h runnable = tt
  own-map config session whole (p ∷ ids) h (runs, runnable) = (
    (
      (qualify_parts session.session_id p h).0,
      contains-schedule_events config session whole p ∙ runs,
    ),
    own-map config session whole ids h runnable,
  )

  schedule_part-IsOwn :
      (config : ReplayConfig) (session : Session Json Float)
      (whole events : Dict Text (GraphEvent Json Float))
      → HasNoColon session.session_id
      → IsClosed whole events
      → All
          (IsOwn config session (schedule_events Json Float (some config) session whole))
          (schedule_events Json Float (some config) session events)
  unfolding schedule_events session_event limit_wait
  schedule_part-IsOwn config session whole [] h closed = tt
  schedule_part-IsOwn config session whole ((_, event) ∷ events) h (first, closed) =
      let rest = schedule_part-IsOwn config session whole events h closed in
      elim (Bool-cases (is_empty event.call.messages)) [
        | inl skipped ↦ rw skipped rest
        | inr kept ↦ elim first [
          | inl skipped ↦ absurd (ground arith)
          | inr runnable ↦ rw kept (
            record {
              own_session = (qualify_parts session.session_id event.event_id h).0;
              own_predecessors =
                  own-map (some config) session whole event.predecessor_event_ids h runnable;
              bounded_wait = omega arith;
              has_messages = kept;
            },
            rest,
          )
        ]
      ]

  -- For a session whose id has no colon, and a graph in which each predecessor of an event with
  -- messages is an event with messages: each scheduled event has messages, is read back as an event of
  -- the session, waits only for events that are scheduled for the session too, and pauses at most as
  -- long as configured.
  pub schedule_events-IsOwn :
      (config : ReplayConfig) (session : Session Json Float)
      (events : Dict Text (GraphEvent Json Float))
      → HasNoColon session.session_id
      → IsClosed events events
      → All
          (IsOwn config session (schedule_events Json Float (some config) session events))
          (schedule_events Json Float (some config) session events)
  schedule_events-IsOwn config session events h closed =
      schedule_part-IsOwn config session events events h closed
