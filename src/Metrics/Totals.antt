-- ===== src/Metrics/Totals.antt =====
-- What a session is given from its requests.
use inference_perf.Prelude.{
  ℕ, ◌+◌, ◌≡◌, refl, ◌∙◌, Bool, true, false, ◌&&◌, Option, none, some, List, [], ◌∷◌, nat_beq,
  arith, inl, inr, Option-cases, Bool-cases, ap, if◌then◌else◌,
}
use inference_perf.Prelude.Dict
use inference_perf.Prelude.Dict.{Dict, get-put, get-put_self}
use inference_perf.Prelude.Text.{Text, text_beq, text_beq_iff, code_points_key}
use inference_perf.Metrics.Sessions.{
  tokens_at, or_zero, is_none, RequestMetric, SessionMetric, add_tokens, add_error, note_request,
  note_requests, error_of, enrich,
}

ap2 : {a b c d : ℕ} → a ≡ b → c ≡ d → ◌≡◌ {A = ℕ × ℕ} (a, c) (b, d)
ap2 e f = rw (e, f) refl

module _ (Error : Type 0) where
  -- Whether a request belongs to the session.
  abbrev pub is_of : Text → Option Text → Bool
  is_of s none = false
  is_of s (some id) = text_beq id s

  -- The tokens of the requests of a session.
  abbrev pub input_of : Text → List (RequestMetric Error) → ℕ
  input_of s [] = 0
  input_of s (m ∷ metrics) =
      (if is_of s m.session_id then m.input_tokens else 0) + input_of s metrics

  abbrev pub output_of : Text → List (RequestMetric Error) → ℕ
  output_of s [] = 0
  output_of s (m ∷ metrics) =
      (if is_of s m.session_id then or_zero m.output_tokens else 0) + output_of s metrics

  -- The first error among the requests of a session, after an error that is known.
  abbrev pub first_error : Text → Option Error → List (RequestMetric Error) → Option Error
  first_error s (some e) metrics = some e
  first_error s none [] = none
  first_error s none (m ∷ metrics) =
      if is_of s m.session_id then first_error s m.error metrics else first_error s none metrics

  tokens_at-put :
      (d : Dict Text (ℕ × ℕ)) (k s : Text) (v : ℕ × ℕ)
      → tokens_at (Dict.put d k v) s ≡ (if text_beq k s then v else tokens_at d s)
  unfolding tokens_at
  tokens_at-put d k s v = elim (Bool-cases (text_beq k s)) [
    | inl same ↦ rw (get-put d k s v, same, tokens_at) refl
    | inr other ↦ rw (get-put d k s v, other, tokens_at) refl
  ]

  tokens_at-add_tokens :
      (d : Dict Text (ℕ × ℕ)) (k s : Text) (inp out : ℕ)
      → tokens_at (add_tokens Error d k inp out) s ≡ (
        (tokens_at d s).0 + (if text_beq k s then inp else 0),
        (tokens_at d s).1 + (if text_beq k s then out else 0),
      )
  unfolding add_tokens
  tokens_at-add_tokens d k s inp out =
      let sums : Text → ℕ × ℕ = λ t. ((tokens_at d t).0 + inp, (tokens_at d t).1 + out) in
      let new = tokens_at-put d k s (sums k) in
      elim (Bool-cases (text_beq k s)) [
        | inl same ↦
            let e : k ≡ s = (text_beq_iff k s).0 same in
            rw same (rw same at new ∙ ap {A = Text} {B = ℕ × ℕ} sums e)
        | inr other ↦ rw other (rw other at new ∙ ap2 (omega arith) (omega arith))
      ]

  -- What one request adds to the totals of a session.
  tokens_at-note_request :
      (tables : Dict Text (ℕ × ℕ) × Dict Text Error) (id : Option Text) (m : RequestMetric Error)
      (b : ℕ) (s : Text)
      → tokens_at (note_request Error tables id m).0 (b ∷ s) ≡ (
        (tokens_at tables.0 (b ∷ s)).0 + (if is_of (b ∷ s) id then m.input_tokens else 0),
        (tokens_at tables.0 (b ∷ s)).1 + (if is_of (b ∷ s) id then or_zero m.output_tokens else 0),
      )
  unfolding note_request text_beq
  tokens_at-note_request (tokens, errors) none m b s = ap2 (omega arith) (omega arith)
  tokens_at-note_request (tokens, errors) (some []) m b s = ap2 (omega arith) (omega arith)
  tokens_at-note_request (tokens, errors) (some (c ∷ id)) m b s =
      tokens_at-add_tokens tokens (c ∷ id) (b ∷ s) m.input_tokens (or_zero m.output_tokens)

  tokens_at-note_requests :
      (tables : Dict Text (ℕ × ℕ) × Dict Text Error) (metrics : List (RequestMetric Error)) (b : ℕ)
      (s : Text)
      → tokens_at (note_requests Error tables metrics).0 (b ∷ s) ≡ (
        (tokens_at tables.0 (b ∷ s)).0 + input_of (b ∷ s) metrics,
        (tokens_at tables.0 (b ∷ s)).1 + output_of (b ∷ s) metrics,
      )
  unfolding note_requests
  tokens_at-note_requests tables [] b s = ap2 (omega arith) (omega arith)
  tokens_at-note_requests tables (m ∷ metrics) b s =
      let one = tokens_at-note_request tables m.session_id m b s in
      let rest = tokens_at-note_requests (note_request Error tables m.session_id m) metrics b s in
      rest
      ∙ ap2 (omega (arith, ap {A = ℕ × ℕ} {B = ℕ} (λ t. t.0) one))
          (omega (arith, ap {A = ℕ × ℕ} {B = ℕ} (λ t. t.1) one))

  error_of-none : (o : Option Error) → error_of Error none o ≡ o
  unfolding error_of
  error_of-none none = refl
  error_of-none (some e) = refl

  get-add_error :
      (d : Dict Text Error) (k s : Text) (e : Option Error)
      → Dict.get (add_error Error d k e) s
        ≡ (if text_beq k s then error_of Error e (Dict.get d s) else Dict.get d s)
  unfolding add_error error_of
  get-add_error d k s none = elim (Bool-cases (text_beq k s)) [
    | inl same ↦ rw (same, error_of-none (Dict.get d s)) refl
    | inr other ↦ rw other refl
  ]
  get-add_error d k s (some e) = elim (Bool-cases (text_beq k s)) [
    | inl same ↦
        let at_k : k ≡ s = (text_beq_iff k s).0 same in
        let self : text_beq s s ≡ true = (text_beq_iff s s).1 refl in
        rw at_k (elim (Option-cases (Dict.get d s)) [
          | inl none_there ↦ rw (none_there, add_error, self) (get-put_self d s e)
          | inr (old, there) ↦ rw (there, add_error, self) there
        ])
    | inr other ↦ elim (Option-cases (Dict.get d k)) [
      | inl none_there ↦ rw (other, none_there, add_error, get-put d k s e, other) refl
      | inr (old, there) ↦ rw (other, there, add_error) refl
    ]
  ]

  get-note_request :
      (tables : Dict Text (ℕ × ℕ) × Dict Text Error) (id : Option Text) (m : RequestMetric Error)
      (b : ℕ) (s : Text)
      → Dict.get (note_request Error tables id m).1 (b ∷ s) ≡ (
          if is_of (b ∷ s) id
          then error_of Error m.error (Dict.get tables.1 (b ∷ s))
          else Dict.get tables.1 (b ∷ s))
  unfolding note_request text_beq error_of
  get-note_request (tokens, errors) none m b s = refl
  get-note_request (tokens, errors) (some []) m b s = refl
  get-note_request (tokens, errors) (some (c ∷ id)) m b s =
      get-add_error errors (c ∷ id) (b ∷ s) m.error

  first-nil : (o : Option Error) (s : Text) → o ≡ first_error s o []
  first-nil none s = refl
  first-nil (some e) s = refl

  first-cons :
      (s : Text) (m : RequestMetric Error) (metrics : List (RequestMetric Error)) (o : Option Error)
      → first_error s (if is_of s m.session_id then error_of Error m.error o else o) metrics
        ≡ first_error s o (m ∷ metrics)
  unfolding error_of
  first-cons s m metrics none = elim (Bool-cases (is_of s m.session_id)) [
    | inl own ↦ rw own (ap (λ x. first_error s x metrics) refl)
    | inr other ↦ rw other refl
  ]
  first-cons s m metrics (some e) = elim (Bool-cases (is_of s m.session_id)) [
    | inl own ↦ rw own refl
    | inr other ↦ rw other refl
  ]

  get-note_requests :
      (tables : Dict Text (ℕ × ℕ) × Dict Text Error) (metrics : List (RequestMetric Error)) (b : ℕ)
      (s : Text)
      → Dict.get (note_requests Error tables metrics).1 (b ∷ s)
        ≡ first_error (b ∷ s) (Dict.get tables.1 (b ∷ s)) metrics
  unfolding note_requests
  get-note_requests tables [] b s = first-nil (Dict.get tables.1 (b ∷ s)) (b ∷ s)
  get-note_requests tables (m ∷ metrics) b s =
      get-note_requests (note_request Error tables m.session_id m) metrics b s
      ∙ rw (get-note_request tables m.session_id m b s)
          (first-cons (b ∷ s) m metrics (Dict.get tables.1 (b ∷ s)))

  -- Each session is given the tokens of its requests, those with its id and no others; its error is
  -- the first among those requests, if there is one, and else its own; and it is a success exactly if
  -- all its events were completed and it has no error. The session's id is not empty.
  pub enrich_lem :
      (sm : SessionMetric Error) (b : ℕ) (s : Text) (requests : List (RequestMetric Error))
      → sm.session_id ≡ b ∷ s
      → ((enrich Error (note_requests Error ([], []) requests) sm).total_input_tokens
          ≡ some (input_of (b ∷ s) requests))
        × ((enrich Error (note_requests Error ([], []) requests) sm).total_output_tokens
            ≡ some (output_of (b ∷ s) requests))
        × ((enrich Error (note_requests Error ([], []) requests) sm).error
            ≡ error_of Error sm.error (first_error (b ∷ s) none requests))
        × ((enrich Error (note_requests Error ([], []) requests) sm).success
            ≡ some (
                nat_beq sm.num_events_completed sm.num_events
                && is_none (error_of Error sm.error (first_error (b ∷ s) none requests))))
  unfolding enrich tokens_at Dict.get
  enrich_lem sm b s requests e =
      let sums = tokens_at-note_requests ([], []) requests b s ∙ ap2 (omega arith) (omega arith) in
      let errors = get-note_requests ([], []) requests b s in
      rw e (
        ap {A = ℕ × ℕ} {B = Option ℕ} (λ t. some t.0) sums,
        ap {A = ℕ × ℕ} {B = Option ℕ} (λ t. some t.1) sums,
        ap (error_of Error sm.error) errors,
        ap
            (λ o. some (
              nat_beq sm.num_events_completed sm.num_events && is_none (error_of Error sm.error o)))
            errors,
      )
