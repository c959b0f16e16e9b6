-- ===== src/Replay/Lifecycle/Once.antt =====
-- Each session is reported once, and evicted with its last event.
use inference_perf.Prelude.{
  ℕ, suc, ◌<◌, ◌≡◌, refl, ap, ◌∙◌, true, false, Option, some, List, [], ◌∷◌, if◌then◌else◌, arith,
  Bool-cases, inl, inr, length,
}
use inference_perf.Prelude.Dict
use inference_perf.Prelude.Text.{Text, code_points_key}
use inference_perf.Replay.Ids.{qualify, HasNoColon}
use inference_perf.Replay.Sessions.{SessionState, Runtime}
use inference_perf.Replay.Lifecycle.View.{View, view, note_completed, note_failed}
use inference_perf.Replay.Lifecycle.Drain.{
  distinct, Run, begins, goes_on, Underway, Underway-note_completed, Underway-note_failed,
  sent-last_completed, sent-last_failed, drained_few,
}
use inference_perf.Replay.Lifecycle.Ended.{
  gone, Noted, Noted-Ends, Noted-drain, Noted-evict, Noted-forgets,
}
use inference_perf.Replay.Progress.Eviction.{IsForgotten}
use mathlib.Core.Path.{subst}

module _ (Json Float : Type 0) where
  -- A session of which no event has ended, and for which `n` payloads are on the queue.
  unfoldable pub fresh : ℕ → Option (SessionState Json Float) → View Json Float
  fresh n state = record { drained = []; times = []; failed = false; sent = some n; state = state }

  Underway-fresh :
      (n : ℕ) (state : Option (SessionState Json Float)) (s : Text)
      → Underway Json Float n state s [] (fresh n state)
  unfolding Dict.contains Dict.get fresh
  Underway-fresh n state s = record {
    counted = refl;
    new_drain = λ e h. refl;
    new_time = λ e h. refl;
    clean = λ h. (refl, refl);
    broken = λ h. cc;
    kept = refl;
  }

  notified_drained :
      (n : ℕ) (state : Option (SessionState Json Float)) (s : Text) (es : List Text) (total : ℕ)
      (e : Text) (r r' : Runtime Json Float) (k : Noted Json Float total s e r r')
      → Underway Json Float n state s es (view Json Float s r)
      → Dict.contains es e ≡ false
      → length (Dict.add (view Json Float s k.notified).drained (qualify s e)) ≡ suc (length es)
  unfolding note_completed note_failed
  notified_drained n state s es total e r r' k u new =
      let keeps : (view Json Float s k.notified).drained ≡ (view Json Float s r).drained =
        elim k.noted [
          | inl (now, q) ↦ ap {A = View Json Float} (λ v. v.drained) q
          | inr q ↦ ap {A = View Json Float} (λ v. v.drained) q
        ] in
      rw keeps (drained_few Json Float n state s es (view Json Float s r) e u new)

  Underway-Ends :
      (n : ℕ) (state : Option (SessionState Json Float)) (s : Text) (es : List Text) (total : ℕ)
      (e : Text) (r r' : Runtime Json Float)
      → Noted Json Float total s e r r'
      → Underway Json Float n state s es (view Json Float s r)
      → Dict.contains es e ≡ false
      → suc (length es) < total
      → Underway Json Float n state s (e ∷ es) (view Json Float s r')
  Underway-Ends n state s es total e r r' k u new few =
      let step =
        Noted-drain Json Float total s e r r' k
          (rw (notified_drained n state s es total e r r' k u new) few) in
      rw step (elim k.noted [
        | inl (now, q) ↦ rw q (
            Underway-note_completed Json Float n state s es (view Json Float s r) total e now u new
              few)
        | inr q ↦ rw q (Underway-note_failed Json Float n state s es (view Json Float s r) e u new)
      ])

  distinct_parts :
      (e : Text) (es : List Text)
      → distinct (e ∷ es) ≡ true
      → (Dict.contains es e ≡ false) × (distinct es ≡ true)
  unfolding distinct
  distinct_parts e es h = ground arith

  Underway-Run :
      {total : ℕ} {s : Text} {start r : Runtime Json Float} {es : List Text} (n : ℕ)
      (state : Option (SessionState Json Float))
      → HasNoColon s
      → view Json Float s start ≡ fresh n state
      → Run Json Float total s start es r
      → distinct es ≡ true
      → length es < total
      → Underway Json Float n state s es (view Json Float s r)
  Underway-Run {total} {s} n state h new begins each few = rw new (Underway-fresh n state s)
  Underway-Run {total} {s} n state h new (goes_on {es} {e} {r} {r'} run end) each few =
      let (is_new, rest) = distinct_parts e es each in
      let before = Underway-Run n state h new run rest (omega arith) in
      Underway-Ends n state s es total e r r' (Noted-Ends Json Float h end) before is_new few

  last_end :
      (n : ℕ) (state : Option (SessionState Json Float)) (s : Text) (es : List Text) (e : Text)
      (r r' : Runtime Json Float)
      → Noted Json Float (suc (length es)) s e r r'
      → Underway Json Float n state s es (view Json Float s r)
      → Dict.contains es e ≡ false
      → (view Json Float s r' ≡ gone Json Float (some (suc n))) × IsForgotten Json Float s state r'
  unfolding note_completed note_failed
  last_end n state s es e r r' k u new =
      let all = notified_drained n state s es (suc (length es)) e r r' k u new in
      let sent : (view Json Float s k.notified).sent ≡ some (suc n) = elim k.noted [
        | inl (now, q) ↦
            rw q (sent-last_completed Json Float n state s es (view Json Float s r) e now u new)
        | inr q ↦ rw q (sent-last_failed Json Float n state s es (view Json Float s r) u)
      ] in
      let kept : (view Json Float s k.notified).state ≡ state = elim k.noted [
        | inl (now, q) ↦ ap {A = View Json Float} (λ v. v.state) q ∙ u.kept
        | inr q ↦ ap {A = View Json Float} (λ v. v.state) q ∙ u.kept
      ] in
      (
        Noted-evict Json Float (suc (length es)) s e r r' k all ∙ ap (gone Json Float) sent,
        subst (λ x. IsForgotten Json Float s x r') kept
            (Noted-forgets Json Float (suc (length es)) s e r r' k all),
      )

  -- Take a session whose id has no colon, with at least one event, of which a worker with a completion
  -- queue knows nothing but its state. Once each of its events, all distinct, has ended once, whether
  -- it completed, failed or was skipped, and in whatever order, the worker has put exactly one more
  -- payload for the session on the queue and keeps nothing of the session: its state is gone, every
  -- query of the tracker about it is answered as by a new tracker, the registry of outputs has nothing
  -- of any event of its graph in any table, and its slot, if it was built, holds no events and no graph.
  pub reports_once :
      {s : Text} {start r : Runtime Json Float} {e : Text} {es : List Text} (n : ℕ)
      (state : Option (SessionState Json Float))
      → HasNoColon s
      → view Json Float s start ≡ fresh n state
      → Run Json Float (length (e ∷ es)) s start (e ∷ es) r
      → distinct (e ∷ es) ≡ true
      → (view Json Float s r ≡ gone Json Float (some (suc n))) × IsForgotten Json Float s state r
  reports_once {s} n state h new (goes_on {es} {e} {r} {r'} run end) each =
      let (is_new, rest) = distinct_parts e es each in
      let before = Underway-Run n state h new run rest (omega arith) in
      last_end n state s es e r r' (Noted-Ends Json Float h end) before is_new

  -- Of such a session, while fewer distinct events have ended than it has, the worker keeps the state,
  -- and it has put one more payload for it on the queue exactly when the session is marked failed.
  pub keeps_until_last :
      {total : ℕ} {s : Text} {start r : Runtime Json Float} {es : List Text} (n : ℕ)
      (state : Option (SessionState Json Float))
      → HasNoColon s
      → view Json Float s start ≡ fresh n state
      → Run Json Float total s start es r
      → distinct es ≡ true
      → length es < total
      → ((view Json Float s r).state ≡ state)
        × ((view Json Float s r).sent ≡ some (if (view Json Float s r).failed then suc n else n))
  keeps_until_last {s = s} {r = r} n state h new run each few =
      let u = Underway-Run n state h new run each few in
      (
        u.kept,
        elim (Bool-cases (view Json Float s r).failed) [
          | inl failing ↦ rw failing (u.broken failing).1
          | inr fine ↦ rw fine (u.clean fine).1
        ],
      )
