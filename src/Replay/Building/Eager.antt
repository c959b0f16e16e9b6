-- ===== src/Replay/Building/Eager.antt =====
-- What `initialize_sessions` makes of a corpus.
use inference_perf.Prelude.{
  ℕ, zero, suc, ◌<◌, ◌≡◌, refl, ap, sym, ◌∙◌, Bool, false, Option, none, some, List, [], ◌∷◌, ◌++◌,
  ok, err, length, is_empty, map, ltb, number_key, if◌then◌else◌, append_assoc, append-nil, arith,
  Bool-cases, Option-cases, inl, inr, nat_beq,
}
use inference_perf.Prelude.Dict
use inference_perf.Prelude.Dict.{Dict, get-put}
use inference_perf.Prelude.Text.{Text}
use inference_perf.Replay.Sessions.{ReplayConfig, Session, SessionEvent, Runtime}
use inference_perf.Replay.Schedule.{
  zero_division, no_sessions, build_session_schedule, schedule_events, duplicate_sessions_if_needed,
  duplicate_loop,
}
use inference_perf.Replay.Building.{
  number_from, ids_of, put_events, index_from, schedule_one, schedule_each, build_replay_schedule,
  duplicated, take_sessions, take_result, initialize_sessions, get_session_count,
}

-- The configuration asks for duplicates of an empty corpus.
abbrev pub wants_duplicates : Option ReplayConfig → Bool
wants_duplicates none = false
wants_duplicates (some config) = elim config.duplicate_sessions_target [
  | none ↦ false
  | some target ↦ ltb 0 target
]

module _ (Json Float : Type 0) (is_digit : ℕ → Bool) (random_text : Text → Text)
    (build_session : ℕ → Option (Session Json Float)) where
  nil_duplicates :
      (target : ℕ)
      → duplicate_sessions_if_needed Json Float [] target
        ≡ (if ltb 0 target then err zero_division else ok [])
  unfolding duplicate_sessions_if_needed duplicate_loop
  nil_duplicates zero = refl
  nil_duplicates (suc t) = ground arith

  nil_duplicated :
      (config : Option ReplayConfig)
      → duplicated Json Float is_digit random_text build_session config []
        ≡ (if wants_duplicates config then err zero_division else ok [])
  unfolding duplicated
  nil_duplicated none = refl
  nil_duplicated (some config) = elim (Option-cases config.duplicate_sessions_target) [
    | inl no_target ↦ rw no_target refl
    | inr (target, given) ↦ rw given (nil_duplicates target)
  ]

  -- An empty corpus is refused: with the error for a corpus without sessions, but with a division by
  -- zero if the configuration asks for duplicates up to a positive number.
  pub initialize_sessions-nil :
      (r : Runtime Json Float)
      → initialize_sessions Json Float is_digit random_text build_session r []
        ≡ err (if wants_duplicates r.replay_config then zero_division else no_sessions)
  unfolding initialize_sessions take_result take_sessions
  initialize_sessions-nil r = elim (Bool-cases (wants_duplicates r.replay_config)) [
    | inl wanted ↦ rw (nil_duplicated r.replay_config, wanted) refl
    | inr unwanted ↦ rw (nil_duplicated r.replay_config, unwanted) refl
  ]

  -- The events of one session.
  abbrev schedule_of : Option ReplayConfig → Session Json Float → List (SessionEvent Json Float)
  schedule_of config s = schedule_events Json Float config s s.graph.events

  abbrev all_of : Option ReplayConfig → List (Session Json Float) → List (SessionEvent Json Float)
  all_of config [] = []
  all_of config (s ∷ sessions) = schedule_of config s ++ all_of config sessions

  abbrev each : Runtime Json Float → List (Session Json Float) → Runtime Json Float
  each r ss = schedule_each Json Float is_digit random_text build_session r (map some ss)

  -- The events of slot `i`, of sessions numbered from `n` on.
  unfoldable pub slot_events :
      Option ReplayConfig
      → ℕ
      → List (Session Json Float)
      → ℕ
      → Option (List (SessionEvent Json Float))
  slot_events config n [] i = none
  slot_events config n (s ∷ ss) i =
      if nat_beq n i
      then some (schedule_of config (record s { session_index = some n }))
      else slot_events config (suc n) ss i

  schedule_each_keeps :
      (r : Runtime Json Float) (ss : List (Session Json Float))
      → ((each r ss).replay_config ≡ r.replay_config)
        × ((each r ss).session_ids ≡ r.session_ids)
        × ((each r ss).all_events ≡ r.all_events ++ all_of r.replay_config ss)
  unfolding schedule_each schedule_one build_session_schedule
  schedule_each_keeps r [] = (refl, refl, sym (append-nil r.all_events))
  schedule_each_keeps r (s ∷ ss) =
      let h =
        schedule_each_keeps (schedule_one Json Float is_digit random_text build_session r s) ss in
      (
        h.0,
        h.1,
        h.2 ∙ append_assoc r.all_events (schedule_of r.replay_config s) (all_of r.replay_config ss),
      )

  slot_events_before :
      (config : Option ReplayConfig) (n : ℕ) (ss : List (Session Json Float)) (i : ℕ)
      → i < n
      → slot_events config n ss i ≡ none
  unfolding slot_events
  slot_events_before config n [] i h = refl
  slot_events_before config n (s ∷ ss) i h = ground (arith, slot_events_before config (suc n) ss i)

  get-schedule_each :
      (r : Runtime Json Float) (n : ℕ) (ss : List (Session Json Float)) (i : ℕ)
      → Dict.get
          (each r (number_from Json Float is_digit random_text build_session n ss)).session_events
          i
        ≡ elim (slot_events r.replay_config n ss i) [
          | none ↦ Dict.get r.session_events i
          | some es ↦ some es
        ]
  unfolding schedule_each schedule_one build_session_schedule number_from slot_events put_events
  get-schedule_each r n [] i = refl
  get-schedule_each r n (s ∷ ss) i =
      let numbered = record s { session_index = some n } in
      get-schedule_each (schedule_one Json Float is_digit random_text build_session r numbered)
        (suc n) ss i
      ∙ ground (
        arith,
        slot_events_before r.replay_config (suc n) ss i,
        get-put r.session_events n i (schedule_of r.replay_config numbered),
      )

  from_nothing :
      (o : Option (List (SessionEvent Json Float))) (i : ℕ)
      → elim o [ none ↦ Dict.get {V = List (SessionEvent Json Float)} [] i | some es ↦ some es ] ≡ o
  unfolding Dict.get
  from_nothing none i = refl
  from_nothing (some es) i = refl

  length-ids :
      (n : ℕ) (ss : List (Session Json Float))
      → length (
          ids_of Json Float is_digit random_text build_session
            (map some (number_from Json Float is_digit random_text build_session n ss)))
        ≡ length ss
  unfolding ids_of number_from
  length-ids n [] = refl
  length-ids n (s ∷ ss) = ap suc (length-ids (suc n) ss)

  -- What `initialize_sessions` is to leave, of the sessions `enough`.
  pub record Built (config : Option ReplayConfig) (enough : List (Session Json Float)) (i : ℕ)
      (r' : Runtime Json Float) : Type 0 where
    pub counted : get_session_count Json Float is_digit random_text build_session r' ≡ length enough
    pub slot : Dict.get r'.session_events i ≡ slot_events config 0 enough i
    pub together :
        r'.all_events
        ≡ all_of config (number_from Json Float is_digit random_text build_session 0 enough)

  -- If the corpus has sessions once it has been filled up, then the sessions are numbered from 0 on in
  -- their order, each slot holds the events of its own session and no other slot holds any, and the
  -- list of all events holds those of all sessions in order.
  pub initialize_sessions_lem :
      (r : Runtime Json Float) (sessions enough : List (Session Json Float)) (i : ℕ)
      → duplicated Json Float is_digit random_text build_session r.replay_config sessions
        ≡ ok enough
      → is_empty enough ≡ false
      → (r' : Runtime Json Float) × (initialize_sessions Json Float is_digit random_text
            build_session r sessions
          ≡ ok r')
        × Built r.replay_config enough i r'
  unfolding initialize_sessions take_result take_sessions build_replay_schedule get_session_count
  initialize_sessions_lem r sessions enough i filled some_left =
      let numbered = number_from Json Float is_digit random_text build_session 0 enough in
      let start : Runtime Json Float = record r { sessions = map some numbered } in
      let r' = build_replay_schedule Json Float is_digit random_text build_session start in
      let begun : Runtime Json Float = record start {
        all_events = [];
        session_events = [];
        session_ids = ids_of Json Float is_digit random_text build_session start.sessions;
        session_id_to_index =
            index_from 0 [] (ids_of Json Float is_digit random_text build_session start.sessions);
      } in
      let keeps = schedule_each_keeps begun numbered in
      (
        r',
        rw (filled, some_left) refl,
        record {
          counted = ap length keeps.1 ∙ length-ids 0 enough;
          slot =
              get-schedule_each begun 0 enough i
              ∙ from_nothing (slot_events r.replay_config 0 enough i) i;
          together = keeps.2;
        },
      )
