-- ===== src/Replay/Schedule.antt =====
-- Session ids, duplication and the schedule of one session in `ReplayGraphSessionGeneratorBase`:
-- `is_duplicate_session`, `_duplicate_sessions_if_needed`, `_build_session_schedule`, and
-- `_expand_tool_call_max_tokens`, all in datagen/replay/replay_graph_session_datagen.py.
-- The digits that `\d` accepts, and the random text that `uuid4` gives for a session, are parameters.
pub mod Duplicates
pub mod Events
pub mod Limits
use inference_perf.Prelude.{
  ℕ, zero, suc, ◌+◌, ◌-◌, ◌*◌, ◌/◌, ◌%◌, Bool, true, false, ◌||◌, ◌&&◌, Option, none, some, List,
  [], ◌∷◌, ◌++◌, Result, ok, err, length, get_elem?, is_empty, map, leb, ltb, nat_beq, min, max,
  if◌then◌else◌,
}
use inference_perf.Prelude.Dict
use inference_perf.Prelude.Dict.{Dict}
use inference_perf.Prelude.Int.{pos}
use inference_perf.Prelude.Text.{Text, code_points_key, codes}
use inference_perf.Replay.Graph.{InputSegment, GraphEvent, ReplayGraph}
use inference_perf.Replay.Ids.{qualify}
use inference_perf.Replay.Sessions.{ReplayConfig, Session, SessionEvent, SessionState, Runtime}

unfoldable pub expand_tool_call_max_tokens : ℕ → ℕ
expand_tool_call_max_tokens recorded_tokens =
    if leb recorded_tokens 1024
    then max (recorded_tokens * 4) 4096
    else if leb recorded_tokens 8192
    then max ((recorded_tokens * 3 + 1) / 2) 8192
    else recorded_tokens + 4096

-- A number as Python prints it. A number has fewer digits than its successor has units, so the fuel
-- is enough.
unfoldable pub digits : (fuel : ℕ) → ℕ → Text
digits zero n = []
digits (suc fuel) n =
    let before = digits fuel (n / 10) in
    if ltb n 10 then (b'0' + n) ∷ [] else before ++ (b'0' + n % 10) ∷ []

unfoldable pub decimal : ℕ → Text
unfolding digits
decimal n = digits (suc n) n

unfoldable pub duplicate_id : Text → ℕ → Text
unfolding decimal
duplicate_id session_id n = session_id ++ (codes "_dup" ++ decimal n)

-- `$` stands at the end, and before a newline that ends the text.
abbrev pub is_at_end : Text → Bool
is_at_end [] = true
is_at_end (c ∷ []) = nat_beq c b'\n'
is_at_end (c ∷ d ∷ t) = false

-- `\d+$` matches here.
unfoldable pub matches_digits : (ℕ → Bool) → Text → Bool
matches_digits is_digit [] = false
matches_digits is_digit (c ∷ t) = is_digit c && (is_at_end t || matches_digits is_digit t)

-- `_dup\d+$` matches here.
unfoldable pub matches_dup : (ℕ → Bool) → Text → Bool
unfolding matches_digits
matches_dup is_digit (a ∷ b ∷ c ∷ d ∷ t) =
    nat_beq a b'_'
    && (nat_beq b b'd' && (nat_beq c b'u' && (nat_beq d b'p' && matches_digits is_digit t)))
matches_dup is_digit _ = false

-- `re.search`.
unfoldable pub is_duplicate_session : (ℕ → Bool) → Text → Bool
unfolding matches_dup
is_duplicate_session is_digit [] = false
is_duplicate_session is_digit (c ∷ t) =
    matches_dup is_digit (c ∷ t) || is_duplicate_session is_digit t

-- What building the sessions raises.
pub data BuildError : Type 0 where
  zero_division no_sessions no_records out_of_range no_graph : BuildError

module _ (Json Float : Type 0) where
  unfoldable pub duplicate_of : Session Json Float → ℕ → Session Json Float
  duplicate_of source n = record {
    session_id = duplicate_id source.session_id n;
    source_id = source.source_id;
    session_index = none;
    graph = source.graph;
    start_offset_ms = source.start_offset_ms;
  }

  -- The `while` loop. `originals` is the copy made before it, `i` is both counters; with no fuel left
  -- the list is as long as the loop asks for.
  unfoldable pub duplicate_loop :
      (fuel : ℕ) (originals : List (Session Json Float)) (target i : ℕ)
      → List (Session Json Float)
      → Result BuildError (List (Session Json Float))
  unfolding duplicate_of
  duplicate_loop zero originals target i sessions = ok sessions
  duplicate_loop (suc fuel) originals target i sessions =
      if ltb (length sessions) target
      then elim (get_elem? originals (i % length originals)) [
        | none ↦ err zero_division
        | some source ↦
            duplicate_loop fuel originals target (suc i)
              (sessions ++ duplicate_of source (suc i) ∷ [])
      ]
      else ok sessions

  unfoldable pub duplicate_sessions_if_needed :
      List (Session Json Float) → ℕ → Result BuildError (List (Session Json Float))
  unfolding duplicate_loop
  duplicate_sessions_if_needed sessions target_sessions =
      if leb target_sessions (length sessions)
      then ok sessions
      else duplicate_loop (target_sessions - length sessions) sessions target_sessions 0 sessions

  unfoldable pub qualify_segment : Text → InputSegment → InputSegment
  qualify_segment session_id segment = elim segment.source_event_id [
    | none ↦ segment
    | some source ↦ record segment { source_event_id = some (qualify session_id source) }
  ]

  unfoldable pub limit_wait : Option ReplayConfig → ℕ → ℕ
  limit_wait none wait_ms = wait_ms
  limit_wait (some config) wait_ms = min wait_ms config.max_wait_ms

  unfoldable pub session_event :
      Option ReplayConfig → Session Json Float → GraphEvent Json Float → SessionEvent Json Float
  unfolding qualify_segment limit_wait
  session_event config session event = record {
    call_id = event.call.call_id;
    event_id = qualify session.session_id event.event_id;
    session_index = session.session_index;
    t_start_ms = event.t_start_ms;
    t_end_ms = event.t_end_ms;
    model = event.call.model;
    messages = event.call.messages;
    expected_output = event.call.expected_output;
    input_segments = map (qualify_segment session.session_id) event.call.input_segments;
    expected_output_tokens = event.call.expected_output_tokens;
    temperature = event.call.temperature;
    max_tokens_recorded = event.call.max_tokens_recorded;
    predecessor_event_ids = map (qualify session.session_id) event.predecessor_event_ids;
    wait_ms = limit_wait config event.wait_ms;
    tool_definitions = event.call.tool_definitions;
  }

  -- An event without messages is left out.
  unfoldable pub schedule_events :
      Option ReplayConfig
      → Session Json Float
      → Dict Text (GraphEvent Json Float)
      → List (SessionEvent Json Float)
  unfolding session_event
  schedule_events config session [] = []
  schedule_events config session ((_, event) ∷ events) =
      let rest = schedule_events config session events in
      if is_empty event.call.messages then rest else session_event config session event ∷ rest

  unfoldable pub injects_random : Option ReplayConfig → Bool
  injects_random none = false
  injects_random (some config) = config.inject_random_session_id

  unfoldable pub new_state :
      (ℕ → Bool)
      → (Text → Text)
      → Option ReplayConfig
      → Session Json Float
      → SessionState Json Float
  unfolding injects_random is_duplicate_session
  new_state is_digit random_text config session = record {
    session_id = session.session_id;
    graph = session.graph;
    ready_events = [];
    dispatched_events = [];
    completed_events = [];
    event_completion_times = [];
    is_active = false;
    is_complete = false;
    failed = false;
    failure_reason = none;
    failure_cause = none;
    cancelled_events = pos 0;
    n_recorded_substitutions = none;
    recorded_substitution_event_ids = none;
    random_string =
        if injects_random config || is_duplicate_session is_digit session.session_id
        then some (random_text session.session_id)
        else none;
  }

  -- The runtime with the session's state, and its events.
  unfoldable pub build_session_schedule :
      (ℕ → Bool)
      → (Text → Text)
      → Runtime Json Float
      → Session Json Float
      → Runtime Json Float × List (SessionEvent Json Float)
  unfolding new_state schedule_events
  build_session_schedule is_digit random_text r session = (
    record r {
      session_graph_state =
          Dict.put r.session_graph_state session.session_id
            (new_state is_digit random_text r.replay_config session);
    },
    schedule_events r.replay_config session session.graph.events,
  )
