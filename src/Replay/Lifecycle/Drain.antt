-- ===== src/Replay/Lifecycle/Drain.antt =====
-- The life of one session on a worker: its events end, each in its own way and in any order.
use inference_perf.Prelude.{
  ℕ, suc, ◌<◌, ◌≡◌, ap, Bool, true, false, Option, none, some, List, [], ◌∷◌, if◌then◌else◌, arith,
  Bool-cases, length, ok,
}
use inference_perf.Prelude.Dict
use inference_perf.Prelude.Dict.{Dict, get-put, contains-add}
use inference_perf.Prelude.Text.{Text, code_points_key}
use inference_perf.Replay.Ids.{qualify-test, qualify, extract_session_id}
use inference_perf.Replay.Tracker.{SessionFailureCause}
use inference_perf.Replay.Sessions.{SessionState, Runtime}
use inference_perf.Replay.Lifecycle.{EventData, fail_and_notify, process_failure, on_completion}
use inference_perf.Replay.Lifecycle.View.{View, bump, note_completed, note_failed}

pub record IsEventOf (total : ℕ) (s e : Text) (d : EventData) : Type 0 where
  pub has_id : d.event_id ≡ qualify s e
  pub has_total : d.total_events_in_session ≡ total
  pub evicts : d.has_generator ≡ true

-- No text stands in the list twice.
unfoldable pub distinct : List Text → Bool
distinct [] = true
distinct (e ∷ es) = let rest = distinct es in if Dict.contains es e then false else rest

module _ (Json Float : Type 0) where
  -- An event of the session ends: it completes, its request fails, or it is skipped.
  pub data Ends (total : ℕ) (s e : Text) : Runtime Json Float → Runtime Json Float → Type 0 where
    completes :
        (d : EventData) (text : Text) (messages : List Json) (message : Option Json) (now : ℕ)
        (r r' : Runtime Json Float)
        → IsEventOf total s e d
        → on_completion Json Float d text messages message now r ≡ ok r'
        → Ends total s e r r'
    request_fails :
        (d : EventData) (reason : Text) (now : ℕ) (r : Runtime Json Float)
        → IsEventOf total s e d
        → Ends total s e r (process_failure Json Float d reason now r)
    is_skipped :
        (d : EventData) (cause : SessionFailureCause) (reason : Text) (now : ℕ)
        (r : Runtime Json Float)
        → IsEventOf total s e d
        → Ends total s e r
            (fail_and_notify Json Float d (extract_session_id d.event_id) cause reason now r).1

  -- From `start` on, the events of the list have ended, the latest first.
  pub data Run (total : ℕ) (s : Text) (start : Runtime Json Float)
      : List Text → Runtime Json Float → Type 0 where
    begins : Run total s start [] start
    goes_on :
        {es : List Text} {e : Text} {r r' : Runtime Json Float}
        → Run total s start es r
        → Ends total s e r r'
        → Run total s start (e ∷ es) r'

  -- What holds of the view while the events `es` have ended, of a session whose state is `state`,
  -- with `n` payloads for it at the start.
  pub record Underway (n : ℕ) (state : Option (SessionState Json Float)) (s : Text) (es : List Text)
      (v : View Json Float) : Type 0 where
    pub counted : length v.drained ≡ length es
    pub new_drain :
        (e : Text) → Dict.contains es e ≡ false → Dict.contains v.drained (qualify s e) ≡ false
    pub new_time : (e : Text) → Dict.contains es e ≡ false → Dict.get v.times e ≡ none
    pub clean : v.failed ≡ false → (length v.times ≡ length es) × (v.sent ≡ some n)
    pub broken : v.failed ≡ true → (length v.times < length es) × (v.sent ≡ some (suc n))
    pub kept : v.state ≡ state

  unfoldable pub drain : (s e : Text) → View Json Float → View Json Float
  drain s e v = record v { drained = Dict.add v.drained (qualify s e) }

  length-put_le :
      (d : Dict Text ℕ) (k : Text) (v : ℕ) → length (Dict.put d k v) < suc (suc (length d))
  unfolding Dict.put
  length-put_le [] k v = omega arith
  length-put_le ((j, w) ∷ d) k v = ground (arith, length-put_le d k v)

  still_new_drain :
      (s e f : Text) (es drained : List Text)
      → Dict.contains (e ∷ es) f ≡ false
      → (Dict.contains es f ≡ false → Dict.contains drained (qualify s f) ≡ false)
      → Dict.contains (Dict.add drained (qualify s e)) (qualify s f) ≡ false
  unfolding Dict.contains
  still_new_drain s e f es drained h old =
      ground (arith, contains-add drained (qualify s e) (qualify s f), qualify-test s e f)

  still_new :
      (e f : Text) (es : List Text) → Dict.contains (e ∷ es) f ≡ false → Dict.contains es f ≡ false
  unfolding Dict.contains
  still_new e f es h = ground arith

  still_new_time :
      (e f : Text) (es : List Text) (times : Dict Text ℕ) (now : ℕ)
      → Dict.contains (e ∷ es) f ≡ false
      → (Dict.contains es f ≡ false → Dict.get times f ≡ none)
      → Dict.get (Dict.put times e now) f ≡ none
  unfolding Dict.contains
  still_new_time e f es times now h old = ground (arith, get-put times e f now)

  pub Underway-note_completed :
      (n : ℕ) (state : Option (SessionState Json Float)) (s : Text) (es : List Text)
      (v : View Json Float) (total : ℕ) (e : Text) (now : ℕ)
      → Underway n state s es v
      → Dict.contains es e ≡ false
      → suc (length es) < total
      → Underway n state s (e ∷ es) (drain s e (note_completed Json Float total e now v))
  unfolding drain note_completed
  Underway-note_completed n state s es v total e now u new few = record {
    counted =
        rw (Dict.length-add_new v.drained (qualify s e) (u.new_drain e new)) (ap suc u.counted);
    new_drain = λ f h. still_new_drain s e f es v.drained h (u.new_drain f);
    new_time = λ f h. still_new_time e f es v.times now h (u.new_time f);
    clean = λ h. ground (arith, Dict.length-put_new v.times e now (u.new_time e new), u.clean);
    broken = λ h. ground (arith, length-put_le v.times e now, u.broken);
    kept = u.kept;
  }

  pub Underway-note_failed :
      (n : ℕ) (state : Option (SessionState Json Float)) (s : Text) (es : List Text)
      (v : View Json Float) (e : Text)
      → Underway n state s es v
      → Dict.contains es e ≡ false
      → Underway n state s (e ∷ es) (drain s e (note_failed Json Float v))
  unfolding drain note_failed bump
  Underway-note_failed n state s es v e u new = record {
    counted =
        rw (Dict.length-add_new v.drained (qualify s e) (u.new_drain e new)) (ap suc u.counted);
    new_drain = λ f h. still_new_drain s e f es v.drained h (u.new_drain f);
    new_time = λ f h. u.new_time f (still_new e f es h);
    clean = λ h. ground arith;
    broken = λ h. ground (arith, u.clean, u.broken, Bool-cases v.failed);
    kept = u.kept;
  }

  pub sent-last_completed :
      (n : ℕ) (state : Option (SessionState Json Float)) (s : Text) (es : List Text)
      (v : View Json Float) (e : Text) (now : ℕ)
      → Underway n state s es v
      → Dict.contains es e ≡ false
      → (note_completed Json Float (suc (length es)) e now v).sent ≡ some (suc n)
  unfolding note_completed bump
  sent-last_completed n state s es v e now u new = ground (
    arith,
    Bool-cases v.failed,
    u.clean,
    u.broken,
    Dict.length-put_new v.times e now (u.new_time e new),
    length-put_le v.times e now,
  )

  pub sent-last_failed :
      (n : ℕ) (state : Option (SessionState Json Float)) (s : Text) (es : List Text)
      (v : View Json Float)
      → Underway n state s es v
      → (note_failed Json Float v).sent ≡ some (suc n)
  unfolding note_failed bump
  sent-last_failed n state s es v u = ground (arith, Bool-cases v.failed, u.clean, u.broken)

  pub drained_few :
      (n : ℕ) (state : Option (SessionState Json Float)) (s : Text) (es : List Text)
      (v : View Json Float) (e : Text)
      → Underway n state s es v
      → Dict.contains es e ≡ false
      → length (Dict.add v.drained (qualify s e)) ≡ suc (length es)
  drained_few n state s es v e u new =
      rw (Dict.length-add_new v.drained (qualify s e) (u.new_drain e new)) (ap suc u.counted)
