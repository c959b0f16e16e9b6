-- ===== src/Breaker/Trigger/Window.antt =====
-- The `RateOverWindow` trigger against the history of its samples.
use inference_perf.Prelude.{
  ℕ, ◌≤◌, ◌≡◌, refl, ap, sym, ◌∙◌, true, false, ◌||◌, not, List, [], ◌∷◌, ◌++◌, append_assoc, All,
  filter, arith, if◌then◌else◌,
}
use inference_perf.Breaker.Trigger.{
  Floats, HitSample, RateOverWindow, is_old, evict, crosses, window_init, window_update,
}

-- Time stamps do not decrease.
abbrev pub IsOrdered : List HitSample → Type 0
IsOrdered [] = Unit
IsOrdered (s ∷ ss) = All (λ (u : HitSample). s.ts ≤ u.ts) ss × IsOrdered ss

-- The samples of a history that lie in the window that ends at `now`.
abbrev pub recent : ℕ → ℕ → List HitSample → List HitSample
recent size now = filter (λ s. not (is_old size now s))

recent_keeps :
    (size now : ℕ) (s : HitSample) (ss : List HitSample)
    → All (λ (u : HitSample). s.ts ≤ u.ts) ss
    → is_old size now s ≡ false
    → recent size now ss ≡ ss
recent_keeps size now s [] h e = refl
recent_keeps size now s (u ∷ ss) h e = ground (arith, recent_keeps size now s ss h.1 e)

-- Dropping old samples from the left is filtering, since the buffer is ordered.
evict-eq-recent :
    (size now : ℕ) (ss : List HitSample) → IsOrdered ss → evict size now ss ≡ recent size now ss
unfolding evict
evict-eq-recent size now [] h = refl
evict-eq-recent size now (s ∷ ss) h =
    ground (arith, evict-eq-recent size now ss h.1, recent_keeps size now s ss h.0)

recent-append :
    (size now : ℕ) (xs ys : List HitSample)
    → recent size now (xs ++ ys) ≡ recent size now xs ++ recent size now ys
recent-append size now [] ys = refl
recent-append size now (x ∷ xs) ys = ground (arith, recent-append size now xs ys)

recent-recent :
    (size now later : ℕ) (xs : List HitSample)
    → now ≤ later
    → recent size later (recent size now xs) ≡ recent size later xs
recent-recent size now later [] h = refl
recent-recent size now later (x ∷ xs) h = ground (arith, recent-recent size now later xs h)

recent-step :
    (size : ℕ) (buf : List HitSample) (s : HitSample) (ss : List HitSample) (now : ℕ)
    → IsOrdered (buf ++ s ∷ [])
    → s.ts ≤ now
    → recent size now (evict size s.ts (buf ++ s ∷ []) ++ ss) ≡ recent size now (buf ++ s ∷ ss)
recent-step size buf s ss now h le =
    let seen = buf ++ s ∷ [] in
    rw (evict-eq-recent size s.ts seen h) (
      recent-append size now (recent size s.ts seen) ss
      ∙ ap (λ l. l ++ recent size now ss) (recent-recent size s.ts now seen le)
      ∙ sym (recent-append size now seen ss)
      ∙ ap (recent size now) (append_assoc buf (s ∷ []) ss))

All-append_left {ℓ κ} : {A : Type ℓ} (P : A → Type κ) (xs ys : List A) → All P (xs ++ ys) → All P xs
All-append_left P [] ys h = tt
All-append_left P (x ∷ xs) ys h = (h.0, All-append_left P xs ys h.1)

All-append_right {ℓ κ} :
    {A : Type ℓ} (P : A → Type κ) (xs ys : List A) → All P (xs ++ ys) → All P ys
All-append_right P [] ys h = h
All-append_right P (x ∷ xs) ys h = All-append_right P xs ys h.1

All-recent-append :
    (t size now : ℕ) (xs ys : List HitSample)
    → All (λ (u : HitSample). t ≤ u.ts) (xs ++ ys)
    → All (λ (u : HitSample). t ≤ u.ts) (recent size now xs ++ ys)
All-recent-append t size now [] ys h = h
All-recent-append t size now (x ∷ xs) ys h = ground (arith, All-recent-append t size now xs ys h.1)

IsOrdered-append_left : (xs ys : List HitSample) → IsOrdered (xs ++ ys) → IsOrdered xs
IsOrdered-append_left [] ys h = tt
IsOrdered-append_left (x ∷ xs) ys h =
    (All-append_left (λ u. x.ts ≤ u.ts) xs ys h.0, IsOrdered-append_left xs ys h.1)

IsOrdered-append_right : (xs ys : List HitSample) → IsOrdered (xs ++ ys) → IsOrdered ys
IsOrdered-append_right [] ys h = h
IsOrdered-append_right (x ∷ xs) ys h = IsOrdered-append_right xs ys h.1

IsOrdered-recent-append :
    (size now : ℕ) (xs ys : List HitSample)
    → IsOrdered (xs ++ ys)
    → IsOrdered (recent size now xs ++ ys)
IsOrdered-recent-append size now [] ys h = h
IsOrdered-recent-append size now (x ∷ xs) ys h =
    ground
      (arith, IsOrdered-recent-append size now xs ys h.1, All-recent-append x.ts size now xs ys h.0)

module _ (fl : Floats) where
  -- The samples of a history, oldest first.
  unfoldable pub window_updates : RateOverWindow fl → List HitSample → RateOverWindow fl
  window_updates t [] = t
  window_updates t (s ∷ ss) = window_updates (window_update fl t s) ss

  updates-snoc :
      (t : RateOverWindow fl) (xs : List HitSample) (s : HitSample)
      → window_updates t (xs ++ s ∷ []) ≡ window_update fl (window_updates t xs) s
  unfolding window_updates
  updates-snoc t [] s = refl
  updates-snoc t (x ∷ xs) s = updates-snoc (window_update fl t x) xs s

  updates_size : (t : RateOverWindow fl) (xs : List HitSample) → (window_updates t xs).size ≡ t.size
  unfolding window_updates window_update
  updates_size t [] = refl
  updates_size t (x ∷ xs) = updates_size (window_update fl t x) xs

  -- From a buffer that is in order with the samples to come, the buffer after the last of them holds
  -- what is recent of all.
  buf-snoc :
      (t : RateOverWindow fl) (xs : List HitSample) (s : HitSample)
      → IsOrdered (t.buf ++ (xs ++ s ∷ []))
      → (window_updates t (xs ++ s ∷ [])).buf ≡ recent t.size s.ts (t.buf ++ (xs ++ s ∷ []))
  unfolding window_updates window_update
  buf-snoc t [] s h = evict-eq-recent t.size s.ts (t.buf ++ s ∷ []) h
  buf-snoc t (x ∷ xs) s h =
      let rest = xs ++ s ∷ [] in
      let later = IsOrdered-append_right t.buf (x ∷ rest) h in
      let joined = rw (← append_assoc t.buf (x ∷ []) rest) at h in
      let seen = IsOrdered-append_left (t.buf ++ x ∷ []) rest joined in
      let kept = IsOrdered-recent-append t.size x.ts (t.buf ++ x ∷ []) rest joined in
      buf-snoc (window_update fl t x) xs s (rw (evict-eq-recent t.size x.ts _ seen) kept)
      ∙ recent-step t.size t.buf x rest s.ts seen
          (All-append_right (λ u. x.ts ≤ u.ts) xs (s ∷ []) later.0).0

  crosses-updates :
      (t : RateOverWindow fl) (xs buf : List HitSample)
      → crosses fl (window_updates t xs) buf ≡ crosses fl t buf
  unfolding window_updates window_update crosses
  crosses-updates t [] buf = refl
  crosses-updates t (x ∷ xs) buf = crosses-updates (window_update fl t x) xs buf

  has_fired-snoc :
      (t : RateOverWindow fl) (xs : List HitSample) (s : HitSample)
      → IsOrdered (t.buf ++ (xs ++ s ∷ []))
      → (window_updates t (xs ++ s ∷ [])).has_fired ≡ (
          (window_updates t xs).has_fired
          || crosses fl t (recent t.size s.ts (t.buf ++ (xs ++ s ∷ []))))
  unfolding window_update
  has_fired-snoc t xs s h =
      let u = window_updates t xs in
      let buf_eq =
        ap (λ (r : RateOverWindow fl). r.buf) (sym (updates-snoc t xs s)) ∙ buf-snoc t xs s h in
      ap (λ (r : RateOverWindow fl). r.has_fired) (updates-snoc t xs s)
      ∙ ap (λ l. if crosses fl u l then true else u.has_fired) buf_eq
      ∙ rw crosses-updates (ground arith)

  -- With time stamps that do not decrease, after a history that ends in `s` the buffer holds exactly
  -- the samples of the history in the window that ends at `s`, in order, and the trigger has fired
  -- exactly when it had fired before `s` or those samples cross the threshold.
  pub window_decides :
      (window : ℕ) (threshold : fl.Float) (min_samples : ℕ) (history : List HitSample)
      (s : HitSample)
      → IsOrdered (history ++ s ∷ [])
      → ((window_updates (window_init fl window threshold min_samples) (history ++ s ∷ [])).buf
          ≡ recent window s.ts (history ++ s ∷ []))
        × ((window_updates
              (window_init fl window threshold min_samples)
              (history ++ s ∷ [])).has_fired
            ≡ ((window_updates (window_init fl window threshold min_samples) history).has_fired
                || crosses fl
                    (window_init fl window threshold min_samples)
                    (recent window s.ts (history ++ s ∷ []))))
  unfolding window_init
  window_decides window threshold min_samples history s h =
      let t = window_init fl window threshold min_samples in
      (buf-snoc t history s h, has_fired-snoc t history s h)
