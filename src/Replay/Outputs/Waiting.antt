-- ===== src/Replay/Outputs/Waiting.antt =====
-- The registry of outputs under the steps of a worker's tasks, evictions included, and `require_async`.
use inference_perf.Prelude.{
  ◌≡◌, refl, ap, sym, Bool-cases, ◌∙◌, Bool, true, false, ◌&&◌, ◌||◌, not, Option, none, some, List,
  [], ◌∷◌, Result, ok, err, if◌then◌else◌, arith, Option-cases, inl, inr,
}
use inference_perf.Prelude.Dict
use inference_perf.Prelude.Dict.{Dict, get-put, contains-add}
use inference_perf.Prelude.Text.{Text, code_points_key, text_beq_iff}
use mathlib.Core.Path.{subst}
use inference_perf.Replay.Graph.{GraphEvent}
use inference_perf.Replay.Progress.{drop_outputs}
use inference_perf.Replay.Progress.Eviction.{Entry, entry, is_among, entry-drop_outputs}
use inference_perf.Replay.Outputs.{
  OutputError, event_failed, missing_output, waiting, Outputs, new_outputs, is_event_failed,
  get_output_by_event_id, set_signal, record_output, record_failure, make_signal, require, resume,
}

module _ (Json Float : Type 0) where
  -- What the tasks of a worker do to the registry, in the order of their steps.
  pub data Op : Type 0 where
    completes : (e text : Text) (messages : List Json) (message : Option Json) → Op
    fails requires : (e : Text) → Op
    evicts : (session_id : Text) (events : Dict Text (GraphEvent Json Float)) → Op

  -- A `record` that raises leaves the registry as it was.
  or_same : Outputs Json → Result OutputError (Outputs Json) → Outputs Json
  or_same o (ok o') = o'
  or_same o (err _) = o

  unfoldable pub step : Outputs Json → Op → Outputs Json
  unfolding or_same
  step o (completes e text messages message) =
      or_same o (record_output Json o e text messages message)
  step o (fails e) = record_failure Json o e
  step o (requires e) = (require Json o e).0
  step o (evicts s events) = drop_outputs Json Float s events o

  unfoldable pub run : Outputs Json → List Op → Outputs Json
  run o [] = o
  run o (op ∷ ops) = run (step o op) ops

  -- Whether an event has ended, with an output or with a failure.
  pub has_ended : Outputs Json → Text → Bool
  has_ended o e =
      is_event_failed Json o e
      || elim (get_output_by_event_id Json o e) [ none ↦ false | some _ ↦ true ]

  -- A signal is set exactly when its event has ended.
  IsSynced : Outputs Json → Text → Type 0
  IsSynced o e = (b : Bool) → Dict.get o.signals e ≡ some b → b ≡ has_ended o e

  -- The same of what the registry holds of an event.
  abbrev IsSyncedEntry : Entry Json Float → Type 0
  IsSyncedEntry x =
      (b : Bool)
      → x.signal ≡ some b
      → b ≡ (x.failed || elim x.text [ none ↦ false | some _ ↦ true ])

  -- Eviction leaves no signal of an event that it drops, and the signal of any other as it is.
  evicted-IsSynced :
      (o : Outputs Json) (s : Text) (events : Dict Text (GraphEvent Json Float)) (e : Text)
      → IsSynced o e
      → IsSynced (drop_outputs Json Float s events o) e
  unfolding IsSynced has_ended get_output_by_event_id entry Dict.get
  evicted-IsSynced o s events e h =
      subst IsSyncedEntry (sym (entry-drop_outputs Json Float s events o e))
        (elim (Bool-cases (is_among Json Float s events e)) [
          | inl dropped ↦ rw dropped (λ b q. cc)
          | inr left ↦ rw left h
        ])

  step-IsSynced : (o : Outputs Json) (op : Op) (e : Text) → IsSynced o e → IsSynced (step o op) e
  unfolding IsSynced step has_ended is_event_failed get_output_by_event_id record_output
      record_failure require set_signal make_signal
  step-IsSynced o (completes j text messages message) e h b q =
      ground
        (arith, h b, get-put o.output_text j e text, get-put o.signals j e true, text_beq_iff j e)
  step-IsSynced o (fails j) e h b q = ground (
    arith,
    h b,
    get-put o.signals j e true,
    contains-add o.failed_event_ids j e,
    text_beq_iff j e,
  )
  step-IsSynced o (requires j) e h b q =
      ground (arith, h b, get-put o.signals j e false, text_beq_iff j e)
  step-IsSynced o (evicts s events) e h b q = evicted-IsSynced o s events e h b q

  run-IsSynced :
      (o : Outputs Json) (ops : List Op) (e : Text) → IsSynced o e → IsSynced (run o ops) e
  unfolding run
  run-IsSynced o [] e h = h
  run-IsSynced o (op ∷ ops) e h = run-IsSynced (step o op) ops e (step-IsSynced o op e h)

  new-IsSynced : (e : Text) → IsSynced (new_outputs Json) e
  unfolding IsSynced Dict.get
  new-IsSynced e b q = cc

  -- A signal has been made for the event.
  abbrev is_awaited : Outputs Json → Text → Bool
  is_awaited o e = elim (Dict.get o.signals e) [ none ↦ false | some _ ↦ true ]

  -- The step evicts the event. A task that waits is an event that has not ended, of the same session, so
  -- that the worker does not evict them, unless an `asyncio.gather` that has raised left the task behind.
  abbrev pub takes : Text → Op → Bool
  takes e (completes _ _ _ _) = false
  takes e (fails _) = false
  takes e (requires _) = false
  takes e (evicts s events) = is_among Json Float s events e

  -- None of the steps evicts the event.
  abbrev pub spares : Text → List Op → Bool
  spares e [] = true
  spares e (op ∷ ops) = not (takes e op) && spares e ops

  step_awaited :
      (o : Outputs Json) (op : Op) (e : Text)
      → takes e op ≡ false
      → is_awaited o e ≡ true
      → is_awaited (step o op) e ≡ true
  unfolding step record_output record_failure require set_signal make_signal entry
  step_awaited o (completes j text messages message) e spared h =
      ground (arith, get-put o.signals j e true)
  step_awaited o (fails j) e spared h = ground (arith, get-put o.signals j e true)
  step_awaited o (requires j) e spared h = ground (arith, get-put o.signals j e false)
  step_awaited o (evicts s events) e spared h =
      let kept : entry Json Float (drop_outputs Json Float s events o) e ≡ entry Json Float o e =
        entry-drop_outputs Json Float s events o e ∙ rw spared refl in
      let same = ap {A = Entry Json Float} (λ x. x.signal) kept in ground (arith, same)

  run_awaited :
      (o : Outputs Json) (ops : List Op) (e : Text)
      → spares e ops ≡ true
      → is_awaited o e ≡ true
      → is_awaited (run o ops) e ≡ true
  unfolding run
  run_awaited o [] e spared h = h
  run_awaited o (op ∷ ops) e spared h =
      run_awaited (step o op) ops e (ground arith) (step_awaited o op e (ground arith) h)

  require_awaited :
      (o : Outputs Json) (e : Text)
      → (require Json o e).1 ≡ waiting
      → is_awaited (require Json o e).0 e ≡ true
  unfolding require make_signal
  require_awaited o e w = ground (arith, get-put o.signals e e false, text_beq_iff e e)

  signal-eq-ended :
      (o : Outputs Json) (e : Text)
      → IsSynced o e
      → is_awaited o e ≡ true
      → Dict.get o.signals e ≡ some (has_ended o e)
  unfolding IsSynced
  signal-eq-ended o e h a = elim (Option-cases (Dict.get o.signals e)) [
    | inl absent ↦ ground arith
    | inr (b, present) ↦ present ∙ ap some (h b present)
  ]

  -- What a waiter is told once its signal is set.
  pub outcome : Outputs Json → Text → Option Text → Result OutputError Text
  outcome o e none = err (event_failed e)
  outcome o e (some output) = if is_event_failed Json o e then err (event_failed e) else ok output

  resume_ended :
      (o : Outputs Json) (e : Text)
      → resume Json o e true ≡ (
          if has_ended o e
          then outcome o e (get_output_by_event_id Json o e)
          else err (missing_output e))
  unfolding has_ended resume outcome
  resume_ended o e = ground arith

  -- From a new registry, whatever the tasks of a worker have done before a task begins to wait for an
  -- event, evictions included, and whatever they do after, as long as they do not evict the event: the
  -- signal that the task waits on is set exactly when the event
  -- has ended, and a task that it wakes then gets the failure if the event failed, and else the
  -- output that the registry holds, never the error for a missing output.
  pub waiter_wakes :
      (before after : List Op) (e : Text)
      → (require Json (run (new_outputs Json) before) e).1 ≡ waiting
      → spares e after ≡ true
      → (Dict.get (run (require Json (run (new_outputs Json) before) e).0 after).signals e
          ≡ some (has_ended (run (require Json (run (new_outputs Json) before) e).0 after) e))
        × (resume Json (run (require Json (run (new_outputs Json) before) e).0 after) e true ≡ (
            if has_ended (run (require Json (run (new_outputs Json) before) e).0 after) e
            then outcome (run (require Json (run (new_outputs Json) before) e).0 after) e (
                get_output_by_event_id Json
                  (run (require Json (run (new_outputs Json) before) e).0 after)
                  e)
            else err (missing_output e)))
  unfolding step
  waiter_wakes before after e w spared =
      let o = run (new_outputs Json) before in
      let started =
        step-IsSynced o (requires e) e
          (run-IsSynced (new_outputs Json) before e (new-IsSynced e)) in
      let final = run (require Json o e).0 after in
      (
        signal-eq-ended final e (run-IsSynced (require Json o e).0 after e started)
            (run_awaited (require Json o e).0 after e spared (require_awaited o e w)),
        resume_ended final e,
      )
