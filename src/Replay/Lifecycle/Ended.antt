-- ===== src/Replay/Lifecycle/Ended.antt =====
-- What the end of one event does to the view of its session, eviction included.
use inference_perf.Prelude.{
  ℕ, ◌<◌, ◌≡◌, refl, ap, sym, ◌∙◌, true, false, ◌⊎◌, Option, none, [], arith, inl, inr, length, leb,
  from_ok, Option-cases,
}
use inference_perf.Prelude.Dict
use inference_perf.Prelude.Dict.{Dict, get-put, contains-discard}
use inference_perf.Prelude.Text.{Text, code_points_key, text_beq, text_beq_iff}
use inference_perf.Replay.Ids.{qualify, extract_session_id, raw_event_id, HasNoColon, qualify_parts}
use inference_perf.Replay.Tracker.{
  request_failed, forget_session, record_event_drained, is_session_failed,
  get_session_completion_times,
}
use inference_perf.Replay.Outputs.{Outputs}
use inference_perf.Replay.Sessions.{Runtime}
use inference_perf.Replay.Progress.{evict_worker_session, cleanup_session, free_slot}
use mathlib.Core.Path.{subst}
use inference_perf.Replay.Progress.Eviction.{IsForgotten, evict_worker_session-IsForgotten}
use inference_perf.Replay.Lifecycle.{
  EventData, mark_drained_and_maybe_evict, fail_event, fail_and_notify, process_failure,
  finish_event, on_completion, notify_failure, notify_completion,
}
use inference_perf.Replay.Lifecycle.View.{
  View, view, count_sent, note_completed, note_failed, view-mark_drained, view-notify_failure,
  view-notify_completion,
}
use inference_perf.Replay.Lifecycle.Drain.{
  IsEventOf, Ends, completes, request_fails, is_skipped, drain,
}

module _ (Json Float : Type 0) where
  -- What is left of a session for which `sent` payloads are on the queue.
  unfoldable pub gone : Option ℕ → View Json Float
  gone sent = record { drained = []; times = []; failed = false; sent = sent; state = none }

  cleanup_keeps :
      (r : Runtime Json Float) (s : Text)
      → ((cleanup_session Json Float r s).worker_tracker ≡ r.worker_tracker)
        × ((cleanup_session Json Float r s).session_completion_queue ≡ r.session_completion_queue)
  unfolding cleanup_session free_slot
  cleanup_keeps r s = elim (Option-cases (Dict.get r.session_graph_state s)) [
    | inl absent ↦ rw (absent, cleanup_session) (refl, refl)
    | inr (state, present) ↦ elim (Option-cases (Dict.get r.session_id_to_index s)) [
      | inl no_slot ↦ rw (present, cleanup_session, no_slot, free_slot) (refl, refl)
      | inr (i, slot) ↦ rw (present, cleanup_session, slot, free_slot) (refl, refl)
    ]
  ]

  cleanup-state :
      (r : Runtime Json Float) (s : Text)
      → Dict.get (cleanup_session Json Float r s).session_graph_state s ≡ none
  unfolding cleanup_session free_slot
  cleanup-state r s =
      let popped : Dict.get (Dict.pop r.session_graph_state s) s ≡ none =
        ground (arith, Dict.get-pop r.session_graph_state s s, text_beq_iff s s) in
      elim (Option-cases (Dict.get r.session_graph_state s)) [
        | inl absent ↦ rw (absent, cleanup_session) absent
        | inr (state, present) ↦ elim (Option-cases (Dict.get r.session_id_to_index s)) [
          | inl no_slot ↦ rw (present, cleanup_session, no_slot, free_slot) popped
          | inr (i, slot) ↦ rw (present, cleanup_session, slot, free_slot) popped
        ]
      ]

  self : (s : Text) → text_beq s s ≡ true
  self s = ground (arith, text_beq_iff s s)

  view-evict :
      (s : Text) (r : Runtime Json Float)
      → view Json Float s (evict_worker_session Json Float r s)
        ≡ gone (count_sent s r.session_completion_queue)
  unfolding evict_worker_session gone view forget_session is_session_failed
      get_session_completion_times
  view-evict s r =
      let keeps = cleanup_keeps r s in
      simp (Dict.get-pop, contains-discard, self s, keeps.1, cleanup-state r s)

  -- What an end leaves, before it is counted as drained and after.
  pub record Noted (total : ℕ) (s e : Text) (r r' : Runtime Json Float) : Type 0 where
    pub event : EventData
    pub is_event : IsEventOf total s e event
    pub notified : Runtime Json Float
    pub then_drained : mark_drained_and_maybe_evict Json Float event s notified ≡ r'
    pub noted :
        ((now : ℕ) × (view Json Float s notified
            ≡ note_completed Json Float total e now (view Json Float s r)))
        ⊎ (view Json Float s notified ≡ note_failed Json Float (view Json Float s r))

  reads :
      (total : ℕ) (s e : Text) (d : EventData)
      → HasNoColon s
      → IsEventOf total s e d
      → (extract_session_id d.event_id ≡ s) × (raw_event_id d.event_id ≡ e)
  reads total s e d h i = rw i.has_id (qualify_parts s e h)

  view-outputs :
      (s : Text) (o : Outputs Json) (r : Runtime Json Float)
      → view Json Float s (record r { output_registry = o }) ≡ view Json Float s r
  unfolding view
  view-outputs s o r = refl

  Noted-finish_event :
      (total : ℕ) (s e : Text) (d : EventData) (now : ℕ) (o : Outputs Json)
      (r r' : Runtime Json Float)
      → HasNoColon s
      → IsEventOf total s e d
      → finish_event Json Float d now (record r { output_registry = o }) ≡ r'
      → Noted total s e r r'
  unfolding finish_event
  Noted-finish_event total s e d now o r r' h i q =
      let taken : Runtime Json Float = record r { output_registry = o } in
      let seen = reads total s e d h i in
      record {
        event = d;
        is_event = i;
        notified = notify_completion Json Float d s now taken;
        then_drained =
            ap
              (λ x.
                mark_drained_and_maybe_evict Json Float d x
                  (notify_completion Json Float d x now taken))
              (sym seen.0)
            ∙ q;
        noted = inl (
          now,
          view-notify_completion Json Float d s now taken
              ∙ ap
                  (λ t.
                    note_completed Json Float t (raw_event_id d.event_id) now
                      (view Json Float s taken))
                  i.has_total
              ∙ ap (λ f. note_completed Json Float total f now (view Json Float s taken)) seen.1
              ∙ ap (note_completed Json Float total e now) (view-outputs s o r),
        );
      }

  pub Noted-Ends :
      {total : ℕ} {s e : Text} {r r' : Runtime Json Float}
      → HasNoColon s
      → Ends Json Float total s e r r'
      → Noted total s e r r'
  unfolding on_completion process_failure fail_and_notify fail_event
  Noted-Ends {total} {s} {e} h (completes d text messages message now r r' i q) =
      let (o, taken, finished_as) =
        from_ok (λ o. finish_event Json Float d now (record r { output_registry = o })) _ r' q in
      Noted-finish_event total s e d now o r r' h i finished_as
  Noted-Ends {total} {s} {e} h (request_fails d reason now r i) = record {
    event = d;
    is_event = i;
    notified = notify_failure Json Float d s request_failed reason now r;
    then_drained =
        ap
          (λ x.
            mark_drained_and_maybe_evict Json Float d x
              (notify_failure Json Float d x request_failed reason now r))
          (sym (reads total s e d h i).0);
    noted = inr (view-notify_failure Json Float d s request_failed reason now r);
  }
  Noted-Ends {total} {s} {e} h (is_skipped d cause reason now r i) = record {
    event = d;
    is_event = i;
    notified = notify_failure Json Float d s cause reason now r;
    then_drained =
        ap
          (λ x.
            mark_drained_and_maybe_evict Json Float d x
              (notify_failure Json Float d x cause reason now r))
          (sym (reads total s e d h i).0);
    noted = inr (view-notify_failure Json Float d s cause reason now r);
  }

  -- An end that is not the last one, on the view.
  pub Noted-drain :
      (total : ℕ) (s e : Text) (r r' : Runtime Json Float) (k : Noted total s e r r')
      → length (Dict.add (view Json Float s k.notified).drained (qualify s e)) < total
      → view Json Float s r' ≡ drain Json Float s e (view Json Float s k.notified)
  unfolding drain
  Noted-drain total s e r r' k few =
      let drained = (view Json Float s k.notified).drained in
      let i = k.is_event in
      let still_few : length (Dict.add drained k.event.event_id) < k.event.total_events_in_session =
        rw (i.has_id, i.has_total) few in
      sym (ap (view Json Float s) k.then_drained)
      ∙ view-mark_drained Json Float k.event s k.notified i.evicts still_few
      ∙ ap (λ x. record (view Json Float s k.notified) { drained = Dict.add drained x }) i.has_id

  leb_self : (n m : ℕ) → n ≡ m → leb m n ≡ true
  leb_self n m h = ground arith

  view-mark_last :
      (d : EventData) (s : Text) (r : Runtime Json Float)
      → d.has_generator ≡ true
      → length (Dict.add (view Json Float s r).drained d.event_id) ≡ d.total_events_in_session
      → view Json Float s (mark_drained_and_maybe_evict Json Float d s r)
        ≡ gone (view Json Float s r).sent
  unfolding mark_drained_and_maybe_evict record_event_drained view
  view-mark_last d s r g all =
      rw (g, leb_self _ d.total_events_in_session all)
        (view-evict s
          (record r { worker_tracker = (record_event_drained r.worker_tracker s d.event_id).0 }))

  -- The last end, on the view.
  pub Noted-evict :
      (total : ℕ) (s e : Text) (r r' : Runtime Json Float) (k : Noted total s e r r')
      → length (Dict.add (view Json Float s k.notified).drained (qualify s e)) ≡ total
      → view Json Float s r' ≡ gone (view Json Float s k.notified).sent
  Noted-evict total s e r r' k all =
      let i = k.is_event in
      let all_drained : length (Dict.add (view Json Float s k.notified).drained k.event.event_id)
          ≡ k.event.total_events_in_session =
        rw (i.has_id, i.has_total) all in
      sym (ap (view Json Float s) k.then_drained)
      ∙ view-mark_last k.event s k.notified i.evicts all_drained

  evicts-mark_last :
      (d : EventData) (s : Text) (r : Runtime Json Float)
      → d.has_generator ≡ true
      → length (Dict.add (view Json Float s r).drained d.event_id) ≡ d.total_events_in_session
      → mark_drained_and_maybe_evict Json Float d s r
        ≡ evict_worker_session Json Float
            (record r { worker_tracker = (record_event_drained r.worker_tracker s d.event_id).0 })
            s
  unfolding mark_drained_and_maybe_evict record_event_drained view
  evicts-mark_last d s r g all = rw (g, leb_self _ d.total_events_in_session all) refl

  -- The last end forgets the session.
  pub Noted-forgets :
      (total : ℕ) (s e : Text) (r r' : Runtime Json Float) (k : Noted total s e r r')
      → length (Dict.add (view Json Float s k.notified).drained (qualify s e)) ≡ total
      → IsForgotten Json Float s (view Json Float s k.notified).state r'
  unfolding view
  Noted-forgets total s e r r' k all =
      let i = k.is_event in
      let all_drained : length (Dict.add (view Json Float s k.notified).drained k.event.event_id)
          ≡ k.event.total_events_in_session =
        rw (i.has_id, i.has_total) all in
      let last : Runtime Json Float = record k.notified {
        worker_tracker = (record_event_drained k.notified.worker_tracker s k.event.event_id).0;
      } in
      subst (IsForgotten Json Float s (view Json Float s k.notified).state)
        (sym (evicts-mark_last k.event s k.notified i.evicts all_drained) ∙ k.then_drained)
        (evict_worker_session-IsForgotten Json Float last s)
