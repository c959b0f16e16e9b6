-- ===== src/Replay/Building/Tests.antt =====
-- Small corpora, and the theorems about building at them. A JSON value and a float are numbers.
use inference_perf.Prelude.{
  ℕ, suc, ◌+◌, ◌-◌, ◌≤◌, ◌≡◌, refl, Bool, true, false, ◌&&◌, Option, none, some, List, [], ◌∷◌,
  ◌++◌, ok, err, if◌then◌else◌, length, max, arith, inl, inr, leb, ltb, All,
}
use inference_perf.Prelude.Dict
use inference_perf.Prelude.Text.{Text, code_points_key, codes, text_beq}
use inference_perf.Replay.Graph.{GraphEvent}
use inference_perf.Replay.Samples.{call_event}
use inference_perf.Replay.Ids.{qualify}
use inference_perf.Replay.Sessions.{ReplayConfig, Session, Runtime, new_runtime}
use inference_perf.Replay.Schedule.{
  expand_tool_call_max_tokens, build_session_schedule, duplicate_id, is_duplicate_session,
  duplicate_sessions_if_needed, schedule_events, zero_division, no_sessions,
}
use inference_perf.Replay.Schedule.Duplicates.{
  copies, is_duplicate_session-duplicate_id, duplicate_sessions_if_needed_lem,
}
use inference_perf.Replay.Schedule.Limits.{expand_tool_call_max_tokens_lem}
use inference_perf.Replay.Schedule.Events.{
  event_ids, has_runnable, contains-schedule_events, IsOwn, schedule_events-IsOwn,
}
use inference_perf.Replay.Building.{
  initialize_sessions, duplicated, ensure_session_built, build_slot, is_session_buildable,
}
use inference_perf.Replay.Building.Slots.{ensure_session_built_twice, is_session_buildable_recounts}
use inference_perf.Replay.Building.Eager.{
  wants_duplicates, initialize_sessions-nil, Built, initialize_sessions_lem,
}

-- The ASCII digits.
abbrev ascii_digit : ℕ → Bool
ascii_digit c = leb b'0' c && leb c b'9'

accepts : (d : ℕ) → ltb d 10 ≡ true → ascii_digit (b'0' + d) ≡ true
accepts d h = ground arith

abbrev trace : Text
trace = codes "t"

abbrev two_events : List (Text × GraphEvent ℕ ℕ)
two_events =
    (codes "a", call_event (1 ∷ []) (codes "a") [])
    ∷ (codes "b", call_event [] (codes "b") (codes "a" ∷ []))
    ∷ []

abbrev one_session : Session ℕ ℕ
one_session = record {
  session_id = trace;
  source_id = [];
  session_index = none;
  graph = record { events = two_events; root_event_ids = []; source_file = [] };
  start_offset_ms = 0;
}

abbrev silent_session : Session ℕ ℕ
silent_session = record one_session {
  graph = record { events = []; root_event_ids = []; source_file = [] };
}

abbrev config : ReplayConfig
config = record {
  inject_random_session_id = false;
  max_wait_ms = 50;
  duplicate_sessions_target = some 3;
}

abbrev start : Runtime ℕ ℕ
start = new_runtime ℕ ℕ (some config) true

abbrev same_text : Text → Text
same_text s = s

abbrev no_graph_built : ℕ → Option (Session ℕ ℕ)
no_graph_built i = none

recognised_duplicate : is_duplicate_session ascii_digit (duplicate_id trace 12) ≡ true
recognised_duplicate = is_duplicate_session-duplicate_id ascii_digit (λ d h. ground arith) trace 12

duplicate_sessions_if_needed_lem_example :
    (duplicate_sessions_if_needed ℕ ℕ (one_session ∷ []) 3
      ≡ ok (one_session ∷ [] ++ copies ℕ ℕ (one_session ∷ []) (3 - length (one_session ∷ [])) 0))
    × (length (one_session ∷ [] ++ copies ℕ ℕ (one_session ∷ []) (3 - length (one_session ∷ [])) 0)
        ≡ max (length (one_session ∷ [])) 3)
duplicate_sessions_if_needed_lem_example =
    duplicate_sessions_if_needed_lem ℕ ℕ (one_session ∷ []) 3 refl

contains-schedule_events_example :
    Dict.contains
      (event_ids ℕ ℕ (schedule_events ℕ ℕ (some config) one_session two_events))
      (qualify trace (codes "b"))
    ≡ has_runnable ℕ ℕ two_events (codes "b")
contains-schedule_events_example =
    contains-schedule_events ℕ ℕ (some config) one_session two_events (codes "b")

-- An event without messages, and one that waits for the first event.
abbrev three_events : List (Text × GraphEvent ℕ ℕ)
three_events = (codes "c", call_event (3 ∷ []) (codes "c") (codes "a" ∷ [])) ∷ two_events

schedule_events-IsOwn_example :
    All
      (IsOwn ℕ ℕ config one_session (schedule_events ℕ ℕ (some config) one_session three_events))
      (schedule_events ℕ ℕ (some config) one_session three_events)
unfolding text_beq
schedule_events-IsOwn_example =
    schedule_events-IsOwn ℕ ℕ config one_session three_events (refl, tt)
      (inr (refl, tt), (inr tt, (inl refl, tt)))

initialize_sessions-nil_example :
    initialize_sessions ℕ ℕ ascii_digit same_text no_graph_built start []
    ≡ err (if wants_duplicates start.replay_config then zero_division else no_sessions)
initialize_sessions-nil_example =
    initialize_sessions-nil ℕ ℕ ascii_digit same_text no_graph_built start

-- No duplicates are asked for.
abbrev plain : Runtime ℕ ℕ
plain = new_runtime ℕ ℕ none true

initialize_sessions_lem_example :
    (r' : Runtime ℕ ℕ) × (initialize_sessions ℕ ℕ ascii_digit same_text no_graph_built plain
        (one_session ∷ [])
      ≡ ok r')
    × Built ℕ ℕ ascii_digit same_text no_graph_built plain.replay_config (one_session ∷ []) 0 r'
unfolding duplicated new_runtime
initialize_sessions_lem_example =
    initialize_sessions_lem ℕ ℕ ascii_digit same_text no_graph_built plain (one_session ∷ [])
      (one_session ∷ []) 0 refl refl

abbrev one_slot : Runtime ℕ ℕ
one_slot = record plain { sessions = none ∷ []; session_ids = trace ∷ [] }

abbrev silent_graph : ℕ → Option (Session ℕ ℕ)
silent_graph i = some silent_session

abbrev slot_built : Runtime ℕ ℕ
slot_built = build_slot ℕ ℕ ascii_digit same_text silent_graph one_slot 0 (some silent_session)

built_twice :
    ensure_session_built ℕ ℕ ascii_digit same_text silent_graph slot_built 0 ≡ ok slot_built
unfolding ensure_session_built new_runtime Dict.get
built_twice =
    ensure_session_built_twice ℕ ℕ ascii_digit same_text silent_graph one_slot slot_built 0 refl

abbrev skipped_once : Runtime ℕ ℕ
skipped_once = record slot_built { skipped_session_count = suc slot_built.skipped_session_count }

counted_again :
    is_session_buildable ℕ ℕ ascii_digit same_text silent_graph skipped_once 0
    ≡ ok (
      record skipped_once { skipped_session_count = suc skipped_once.skipped_session_count },
      false,
    )
unfolding is_session_buildable build_slot Dict.get new_runtime build_session_schedule Dict.put
counted_again =
    is_session_buildable_recounts ℕ ℕ ascii_digit same_text silent_graph one_slot skipped_once 0
      (record silent_session { session_index = some 0 }) refl refl

expand_tool_call_max_tokens_lem_example :
    (expand_tool_call_max_tokens 1024 ≤ expand_tool_call_max_tokens 1025)
    × (1024 ≤ expand_tool_call_max_tokens 1024)
    × (4096 ≤ expand_tool_call_max_tokens 1024)
    × (expand_tool_call_max_tokens 1024 ≤ 1024 + 7167)
expand_tool_call_max_tokens_lem_example = expand_tool_call_max_tokens_lem 1024 1025 (omega arith)
