-- ===== src/Replay/Building.antt =====
-- The sessions of `ReplayGraphSessionGeneratorBase` and their slots, in
-- datagen/replay/replay_graph_session_datagen.py: `initialize_sessions`, `initialize_sessions_lazy`,
-- `_ensure_session_built`, `is_session_buildable`, `_build_replay_schedule`, the getters and
-- `_resolve_event`. `_build_session`, which a subclass implements, is a parameter.
pub mod Eager
pub mod Slots
mod Tests
use inference_perf.Prelude.{
  ℕ, zero, suc, ◌+◌, ◌-◌, ◌%◌, Bool, true, false, ◌||◌, not, Option, none, some, List, [], ◌∷◌,
  ◌++◌, Result, ok, err, length, get_elem?, set, is_empty, map, map_ok, replicate, leb, ltb,
  number_key, if◌then◌else◌,
}
use inference_perf.Prelude.Dict
use inference_perf.Prelude.Dict.{Dict}
use inference_perf.Prelude.Text.{Text, code_points_key}
use inference_perf.Replay.Sessions.{ReplayConfig, Session, SessionEvent, SessionState, Runtime}
use inference_perf.Replay.Tracker.{or_empty}
use inference_perf.Replay.Schedule.{
  BuildError, no_sessions, no_records, out_of_range, no_graph, duplicate_sessions_if_needed,
  build_session_schedule,
}

-- How a queued item names its event: by session and place, or by place among all events.
pub data Address : Type 0 where
  in_session : (session_index local_event_index : ℕ) → Address
  in_all : (data_index : ℕ) → Address

-- `{sid: i for i, sid in enumerate(ids)}`, counted from `i`.
unfoldable pub index_from : ℕ → Dict Text ℕ → List Text → Dict Text ℕ
index_from i d [] = d
index_from i d (s ∷ ids) = index_from (suc i) (Dict.put d s i) ids

module _ (Json Float : Type 0) (is_digit : ℕ → Bool) (random_text : Text → Text)
    (build_session : ℕ → Option (Session Json Float)) where
  -- `sessions[i].session_index = i`, counted from `i`.
  unfoldable pub number_from : ℕ → List (Session Json Float) → List (Session Json Float)
  number_from i [] = []
  number_from i (s ∷ sessions) = record s { session_index = some i } ∷ number_from (suc i) sessions

  unfoldable pub ids_of : List (Option (Session Json Float)) → List Text
  ids_of [] = []
  ids_of (none ∷ sessions) = ids_of sessions
  ids_of (some s ∷ sessions) = s.session_id ∷ ids_of sessions

  unfoldable pub put_events :
      Dict ℕ (List (SessionEvent Json Float))
      → Option ℕ
      → List (SessionEvent Json Float)
      → Dict ℕ (List (SessionEvent Json Float))
  put_events d none events = d
  put_events d (some i) events = Dict.put d i events

  unfoldable pub schedule_one : Runtime Json Float → Session Json Float → Runtime Json Float
  unfolding put_events
  schedule_one r s =
      let (built, events) = build_session_schedule Json Float is_digit random_text r s in
      record built {
        session_events = put_events built.session_events s.session_index events;
        all_events = built.all_events ++ events;
      }

  unfoldable pub schedule_each :
      Runtime Json Float → List (Option (Session Json Float)) → Runtime Json Float
  schedule_each r [] = r
  schedule_each r (none ∷ sessions) = schedule_each r sessions
  schedule_each r (some s ∷ sessions) = schedule_each (schedule_one r s) sessions

  unfoldable pub build_replay_schedule : Runtime Json Float → Runtime Json Float
  unfolding schedule_each ids_of index_from
  build_replay_schedule r =
      let ids = ids_of r.sessions in
      schedule_each
        (record r {
          all_events = [];
          session_events = [];
          session_ids = ids;
          session_id_to_index = index_from 0 [] ids;
        })
        r.sessions

  unfoldable pub duplicated :
      Option ReplayConfig
      → List (Session Json Float)
      → Result BuildError (List (Session Json Float))
  duplicated none sessions = ok sessions
  duplicated (some config) sessions = elim config.duplicate_sessions_target [
    | none ↦ ok sessions
    | some target ↦ duplicate_sessions_if_needed Json Float sessions target
  ]

  unfoldable pub take_sessions :
      Runtime Json Float → List (Session Json Float) → Result BuildError (Runtime Json Float)
  unfolding number_from build_replay_schedule
  take_sessions r sessions =
      if is_empty sessions
      then err no_sessions
      else ok (build_replay_schedule (record r { sessions = map some (number_from 0 sessions) }))

  unfoldable pub take_result :
      Runtime Json Float
      → Result BuildError (List (Session Json Float))
      → Result BuildError (Runtime Json Float)
  unfolding take_sessions
  take_result r (err e) = err e
  take_result r (ok sessions) = take_sessions r sessions

  unfoldable pub initialize_sessions :
      Runtime Json Float → List (Session Json Float) → Result BuildError (Runtime Json Float)
  unfolding duplicated take_result
  initialize_sessions r sessions = take_result r (duplicated r.replay_config sessions)

  unfoldable pub initialize_sessions_lazy :
      Runtime Json Float → List Text → Result BuildError (Runtime Json Float)
  unfolding index_from
  initialize_sessions_lazy r session_ids =
      if is_empty session_ids
      then err no_records
      else ok (record r {
        sessions = replicate (length session_ids) none;
        session_ids = session_ids;
        session_id_to_index = index_from 0 [] session_ids;
        session_events = [];
        all_events = [];
      })

  unfoldable pub is_built : Runtime Json Float → ℕ → Option (Session Json Float) → Bool
  is_built r i (some _) = true
  is_built r i none = elim (Dict.get r.session_events i) [ none ↦ false | some _ ↦ true ]

  -- A slot without a graph gets an empty list of events, so that it is not tried again.
  unfoldable pub build_slot :
      Runtime Json Float → ℕ → Option (Session Json Float) → Runtime Json Float
  build_slot r i none = record r {
    session_events = Dict.put r.session_events i [];
    skipped_session_count = suc r.skipped_session_count;
  }
  build_slot r i (some session) =
      let numbered = record session { session_index = some i } in
      let (built, events) =
        build_session_schedule Json Float is_digit random_text
          (record r { sessions = set r.sessions i (some numbered) }) numbered in
      record built { session_events = Dict.put built.session_events i events }

  unfoldable pub ensure_slot :
      Runtime Json Float
      → ℕ
      → Option (Option (Session Json Float))
      → Result BuildError (Runtime Json Float)
  unfolding is_built build_slot
  ensure_slot r i none = err out_of_range
  ensure_slot r i (some slot) =
      ok (if is_built r i slot then r else build_slot r i (build_session i))

  unfoldable pub ensure_session_built :
      Runtime Json Float → ℕ → Result BuildError (Runtime Json Float)
  unfolding ensure_slot
  ensure_session_built r session_index =
      ensure_slot r session_index (get_elem? r.sessions session_index)

  unfoldable pub events_of : Runtime Json Float → ℕ → List (SessionEvent Json Float)
  events_of r session_index = or_empty (Dict.get r.session_events session_index)

  unfoldable pub check_slot :
      ℕ → Runtime Json Float → Option (Option (Session Json Float)) → Runtime Json Float × Bool
  unfolding events_of
  check_slot session_index r none = (r, false)
  check_slot session_index r (some none) = (r, false)
  check_slot session_index r (some (some session)) =
      if is_empty (events_of r session_index)
      then (record r { skipped_session_count = suc r.skipped_session_count }, false)
      else (r, true)

  unfoldable pub check_buildable : ℕ → Runtime Json Float → Runtime Json Float × Bool
  unfolding check_slot
  check_buildable session_index r = check_slot session_index r (get_elem? r.sessions session_index)

  unfoldable pub is_session_buildable :
      Runtime Json Float → ℕ → Result BuildError (Runtime Json Float × Bool)
  unfolding ensure_session_built check_buildable
  is_session_buildable r session_index =
      map_ok (check_buildable session_index) (ensure_session_built r session_index)

  unfoldable pub get_session_count : Runtime Json Float → ℕ
  get_session_count r = length r.session_ids

  unfoldable pub slot_session :
      ℕ → Runtime Json Float → Result BuildError (Runtime Json Float × Session Json Float)
  slot_session session_index r = elim (get_elem? r.sessions session_index) [
    | none ↦ err no_graph
    | some none ↦ err no_graph
    | some (some session) ↦ ok (r, session)
  ]

  unfoldable pub get_session :
      Runtime Json Float → ℕ → Result BuildError (Runtime Json Float × Session Json Float)
  unfolding ensure_session_built slot_session
  get_session r session_index =
      if leb (length r.session_ids) session_index
      then err out_of_range
      else elim (ensure_session_built r session_index) [
        | err e ↦ err e
        | ok built ↦ slot_session session_index built
      ]

  unfoldable pub event_at :
      ℕ
      → Runtime Json Float
      → List (SessionEvent Json Float)
      → Result BuildError (Runtime Json Float × SessionEvent Json Float)
  event_at i r events = elim (get_elem? events i) [ none ↦ err out_of_range | some e ↦ ok (r, e) ]

  unfoldable pub resolve_event :
      Runtime Json Float
      → Address
      → Result BuildError (Runtime Json Float × SessionEvent Json Float)
  unfolding ensure_session_built events_of event_at
  resolve_event r (in_session session_index local_event_index) =
      elim (ensure_session_built r session_index) [
        | err e ↦ err e
        | ok built ↦ event_at local_event_index built (events_of built session_index)
      ]
  resolve_event r (in_all data_index) = event_at data_index r r.all_events
