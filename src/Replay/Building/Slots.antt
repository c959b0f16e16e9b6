-- ===== src/Replay/Building/Slots.antt =====
-- Theorems on the slots of sessions: building one, asking for one again, and the ones that are skipped.
use inference_perf.Prelude.{
  ℕ, zero, suc, ◌≡◌, refl, ap, sym, ◌∙◌, Bool, true, false, Option, none, some, List, [], ◌∷◌,
  Result, ok, get_elem?, set, is_empty, map_ok, from_ok, number_key, arith, Bool-cases, inl, inr,
}
use inference_perf.Prelude.Dict
use inference_perf.Prelude.Dict.{Dict, get-put}
use inference_perf.Prelude.Text.{Text}
use inference_perf.Replay.Sessions.{Session, SessionEvent, Runtime}
use inference_perf.Replay.Schedule.{BuildError, build_session_schedule}
use inference_perf.Replay.Tracker.{or_empty}
use inference_perf.Replay.Building.{
  is_built, build_slot, ensure_slot, check_slot, ensure_session_built, events_of, check_buildable,
  is_session_buildable,
}

get_elem?-set :
    {A : Type 0} (xs : List A) (i : ℕ) (v w : A)
    → get_elem? xs i ≡ some w
    → get_elem? (set xs i v) i ≡ some v
get_elem?-set [] i v w h = cc
get_elem?-set (x ∷ xs) zero v w h = refl
get_elem?-set (x ∷ xs) (suc i) v w h = get_elem?-set xs i v w h

module _ (Json Float : Type 0) (is_digit : ℕ → Bool) (random_text : Text → Text)
    (build_session : ℕ → Option (Session Json Float)) where
  abbrev ensure : Runtime Json Float → ℕ → Result BuildError (Runtime Json Float)
  ensure r i = ensure_session_built Json Float is_digit random_text build_session r i

  -- The slot is there and counts as built.
  abbrev done_with : Runtime Json Float → ℕ → Option (Option (Session Json Float)) → Bool
  done_with r i none = false
  done_with r i (some slot) = is_built Json Float is_digit random_text build_session r i slot

  attempted :
      (r : Runtime Json Float) (i : ℕ) (es : List (SessionEvent Json Float))
      → Dict.get r.session_events i ≡ some es
      → is_built Json Float is_digit random_text build_session r i none ≡ true
  unfolding is_built
  attempted r i es h = rw (is_built, h) refl

  done-build_slot :
      (r : Runtime Json Float) (i : ℕ) (slot : Option (Session Json Float))
      (o : Option (Session Json Float))
      → get_elem? r.sessions i ≡ some slot
      → is_built Json Float is_digit random_text build_session r i slot ≡ false
      → done_with
          (build_slot Json Float is_digit random_text build_session r i o)
          i
          (get_elem? (build_slot Json Float is_digit random_text build_session r i o).sessions i)
        ≡ true
  unfolding build_slot is_built build_session_schedule
  done-build_slot r i (some s) o h new = cc
  done-build_slot r i none none h new =
      ap (done_with (build_slot Json Float is_digit random_text build_session r i none) i) h
      ∙ attempted (build_slot Json Float is_digit random_text build_session r i none) i []
          (Dict.get-put_self r.session_events i [])
  done-build_slot r i none (some s) h new =
      rw (get_elem?-set r.sessions i (some (record s { session_index = some i })) none h) refl

  stays :
      (r : Runtime Json Float) (i : ℕ) (slot : Option (Option (Session Json Float)))
      → done_with r i slot ≡ true
      → ensure_slot Json Float is_digit random_text build_session r i slot ≡ ok r
  unfolding ensure_slot
  stays r i none h = cc
  stays r i (some slot) h = rw h refl

  done-ensure_slot :
      (r r' : Runtime Json Float) (i : ℕ) (slot : Option (Option (Session Json Float)))
      → get_elem? r.sessions i ≡ slot
      → ensure_slot Json Float is_digit random_text build_session r i slot ≡ ok r'
      → done_with r' i (get_elem? r'.sessions i) ≡ true
  unfolding ensure_slot
  done-ensure_slot r r' i none e h = cc
  done-ensure_slot r r' i (some slot) e h =
      elim (Bool-cases (is_built Json Float is_digit random_text build_session r i slot)) [
        | inl old ↦
            let same : r ≡ r' = cc in
            ap (λ x. done_with x i (get_elem? x.sessions i)) (sym same) ∙ ap (done_with r i) e ∙ old
        | inr new ↦
            let same : build_slot Json Float is_digit random_text build_session r i
                  (build_session i)
                ≡ r' =
              cc in
            ap (λ x. done_with x i (get_elem? x.sessions i)) (sym same)
            ∙ done-build_slot r i slot (build_session i) e new
      ]

  -- Building a slot that has been built changes nothing and raises nothing.
  pub ensure_session_built_twice :
      (r r' : Runtime Json Float) (i : ℕ)
      → ensure_session_built Json Float is_digit random_text build_session r i ≡ ok r'
      → ensure_session_built Json Float is_digit random_text build_session r' i ≡ ok r'
  unfolding ensure_session_built
  ensure_session_built_twice r r' i h =
      stays r' i (get_elem? r'.sessions i) (done-ensure_slot r r' i (get_elem? r.sessions i) refl h)

  -- What asking whether a slot is buildable leaves, when the answer is no.
  refused_keeps :
      (i : ℕ) (b r' : Runtime Json Float) (slot : Option (Option (Session Json Float)))
      → check_slot Json Float is_digit random_text build_session i b slot ≡ (r', false)
      → (b.sessions ≡ r'.sessions) × (b.session_events ≡ r'.session_events)
  unfolding check_slot
  refused_keeps i b r' none h = (ap (λ p. p.0.sessions) h, ap (λ p. p.0.session_events) h)
  refused_keeps i b r' (some none) h = (ap (λ p. p.0.sessions) h, ap (λ p. p.0.session_events) h)
  refused_keeps i b r' (some (some s)) h =
      elim (Bool-cases (is_empty (events_of Json Float is_digit random_text build_session b i))) [
        | inl empty ↦ (ground arith, ground arith)
        | inr some_events ↦ cc
      ]

  refused_empty :
      (i : ℕ) (b r' : Runtime Json Float) (s : Session Json Float)
      → check_slot Json Float is_digit random_text build_session i b (some (some s)) ≡ (r', false)
      → is_empty (events_of Json Float is_digit random_text build_session b i) ≡ true
  unfolding check_slot
  refused_empty i b r' s h =
      elim (Bool-cases (is_empty (events_of Json Float is_digit random_text build_session b i))) [
        | inl empty ↦ empty
        | inr some_events ↦ cc
      ]

  same_events :
      (i : ℕ) (b r' : Runtime Json Float)
      → b.session_events ≡ r'.session_events
      → events_of Json Float is_digit random_text build_session b i
        ≡ events_of Json Float is_digit random_text build_session r' i
  unfolding events_of
  same_events i b r' h = ap (λ d. or_empty (Dict.get d i)) h

  asked_again :
      (i : ℕ) (r' : Runtime Json Float) (s : Session Json Float)
      → is_empty (events_of Json Float is_digit random_text build_session r' i) ≡ true
      → check_slot Json Float is_digit random_text build_session i r' (some (some s))
        ≡ (record r' { skipped_session_count = suc r'.skipped_session_count }, false)
  unfolding check_slot
  asked_again i r' s h = rw h refl

  -- A session whose graph was built, but of which no event can be run, is counted as skipped again
  -- each time that it is asked for.
  pub is_session_buildable_recounts :
      (r r' : Runtime Json Float) (i : ℕ) (session : Session Json Float)
      → is_session_buildable Json Float is_digit random_text build_session r i ≡ ok (r', false)
      → get_elem? r'.sessions i ≡ some (some session)
      → is_session_buildable Json Float is_digit random_text build_session r' i
        ≡ ok (record r' { skipped_session_count = suc r'.skipped_session_count }, false)
  unfolding is_session_buildable check_buildable ensure_session_built is_built
  is_session_buildable_recounts r r' i session h present =
      let (b, taken, refused) =
        from_ok (check_buildable Json Float is_digit random_text build_session i) (ensure r i)
          (r', false) h in
      let kept = refused_keeps i b r' (get_elem? b.sessions i) refused in
      let there : get_elem? b.sessions i ≡ some (some session) =
        ap (λ xs. get_elem? xs i) kept.0 ∙ present in
      let empty =
        refused_empty i b r' session (
          ap (check_slot Json Float is_digit random_text build_session i b) (sym there)
          ∙ refused) in
      let still_empty = sym (ap is_empty (same_events i b r' kept.1)) ∙ empty in
      let again : check_slot Json Float is_digit random_text build_session i r'
            (get_elem? r'.sessions i)
          ≡ _ =
        ap (check_slot Json Float is_digit random_text build_session i r') present
        ∙ asked_again i r' session still_empty in
      let built : ensure r' i ≡ ok r' =
        ap (ensure_slot Json Float is_digit random_text build_session r' i) present
        ∙ stays r' i (some (some session)) refl in
      ap (map_ok (check_buildable Json Float is_digit random_text build_session i)) built
      ∙ ap ok again
