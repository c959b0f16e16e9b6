-- ===== src/Replay/Outputs.antt =====
-- `EventOutputRegistry` of datagen/replay/replay_graph_session_datagen.py.
-- An `asyncio.Event` is its flag. `require_async` is a coroutine: `require` runs it up to its wait,
-- and `resume` from the wait to its end, once the flag is set or the time is up.
pub mod Waiting
use inference_perf.Prelude.{
  ℕ, Bool, true, false, Option, none, some, List, [], ◌∷◌, Result, ok, err, if◌then◌else◌,
}
use inference_perf.Prelude.Dict
use inference_perf.Prelude.Dict.{Dict}
use inference_perf.Prelude.Text.{Text, code_points_key}

-- What the methods raise.
pub data OutputError : Type 0 where
  already_recorded event_failed timeout missing_output : (event_id : Text) → OutputError

-- Where `require_async` stands: it has its result, or it waits.
pub data Pending : Type 0 where
  done : Result OutputError Text → Pending
  waiting : Pending

module _ (Json : Type 0) where
  pub record Outputs : Type 0 where
    pub output_text : Dict Text Text
    pub output_message : Dict Text Json
    pub input_messages : Dict Text (List Json)
    pub signals : Dict Text Bool
    pub failed_event_ids : List Text

  abbrev pub new_outputs : Outputs
  new_outputs = record {
    output_text = [];
    output_message = [];
    input_messages = [];
    signals = [];
    failed_event_ids = [];
  }

  unfoldable pub is_event_failed : Outputs → Text → Bool
  is_event_failed o e = Dict.contains o.failed_event_ids e

  unfoldable pub get_output_by_event_id : Outputs → Text → Option Text
  get_output_by_event_id o e = Dict.get o.output_text e

  -- Sets the signal of an event, where one was made.
  unfoldable pub set_signal : Dict Text Bool → Text → Dict Text Bool
  set_signal signals e = elim (Dict.get signals e) [
    | none ↦ signals
    | some _ ↦ Dict.put signals e true
  ]

  unfoldable pub put_message : Dict Text Json → Text → Option Json → Dict Text Json
  put_message d e none = d
  put_message d e (some m) = Dict.put d e m

  unfoldable pub record_output :
      Outputs → Text → Text → List Json → Option Json → Result OutputError Outputs
  unfolding set_signal put_message get_output_by_event_id
  record_output o e text messages message = elim (get_output_by_event_id o e) [
    | some _ ↦ err (already_recorded e)
    | none ↦ ok (record o {
      output_text = Dict.put o.output_text e text;
      input_messages = Dict.put o.input_messages e messages;
      output_message = put_message o.output_message e message;
      signals = set_signal o.signals e;
    })
  ]

  unfoldable pub record_failure : Outputs → Text → Outputs
  record_failure o e = record o {
    failed_event_ids = Dict.add o.failed_event_ids e;
    signals = Dict.put o.signals e true;
  }

  -- Makes the signal of an event, unless there is one.
  unfoldable pub make_signal : Dict Text Bool → Text → Dict Text Bool
  make_signal signals e = elim (Dict.get signals e) [
    | none ↦ Dict.put signals e false
    | some _ ↦ signals
  ]

  unfoldable pub require : Outputs → Text → Outputs × Pending
  unfolding make_signal is_event_failed get_output_by_event_id
  require o e =
      if is_event_failed o e
      then (o, done (err (event_failed e)))
      else elim (get_output_by_event_id o e) [
        | some output ↦ (o, done (ok output))
        | none ↦ (record o { signals = make_signal o.signals e }, waiting)
      ]

  -- After the wait: `in_time` is whether the signal came before the timeout.
  unfoldable pub resume : Outputs → Text → Bool → Result OutputError Text
  unfolding is_event_failed get_output_by_event_id
  resume o e false = err (timeout e)
  resume o e true =
      if is_event_failed o e then err (event_failed e) else elim (get_output_by_event_id o e) [
        | some output ↦ ok output
        | none ↦ err (missing_output e)
      ]
