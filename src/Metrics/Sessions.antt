-- ===== src/Metrics/Sessions.antt =====
-- `SessionMetricsCollector` of metrics/session_collector.py. What a request reports as its error is a
-- parameter; of the metrics the fields that the collector reads and writes are modelled.
use inference_perf.Prelude.{
  ℕ, ◌+◌, Bool, true, false, ◌&&◌, Option, none, some, List, [], ◌∷◌, ◌++◌, map, nat_beq,
}
use inference_perf.Prelude.Dict
use inference_perf.Prelude.Dict.{Dict}
use inference_perf.Prelude.Text.{Text, code_points_key}

-- The table `token_by_session`, which has (0, 0) where it has no entry.
unfoldable pub tokens_at : Dict Text (ℕ × ℕ) → Text → ℕ × ℕ
tokens_at d s = elim (Dict.get d s) [ none ↦ (0, 0) | some t ↦ t ]

unfoldable pub or_zero : Option ℕ → ℕ
or_zero none = 0
or_zero (some n) = n

unfoldable pub is_none {ℓ} : {A : Type ℓ} → Option A → Bool
is_none none = true
is_none (some a) = false

module _ (Error : Type 0) where
  -- `output_tokens` is that of the response metrics, if there are any.
  pub record RequestMetric : Type 0 where
    pub session_id : Option Text
    pub input_tokens : ℕ
    pub output_tokens : Option ℕ
    pub error : Option Error

  pub record SessionMetric : Type 0 where
    pub session_id : Text
    pub num_events : ℕ
    pub num_events_completed : ℕ
    pub total_input_tokens : Option ℕ
    pub total_output_tokens : Option ℕ
    pub success : Option Bool
    pub error : Option Error

  unfoldable pub record_metric : List SessionMetric → SessionMetric → List SessionMetric
  record_metric metrics metric = metrics ++ metric ∷ []

  unfoldable pub add_tokens : Dict Text (ℕ × ℕ) → Text → ℕ → ℕ → Dict Text (ℕ × ℕ)
  unfolding tokens_at
  add_tokens d s inp out = let (i, o) = tokens_at d s in Dict.put d s (i + inp, o + out)

  -- The first error of a session stays.
  unfoldable pub add_error : Dict Text Error → Text → Option Error → Dict Text Error
  add_error d s none = d
  add_error d s (some e) = elim (Dict.get d s) [ some old ↦ d | none ↦ Dict.put d s e ]

  -- A request without a session, or with an empty session id, counts for none.
  unfoldable pub note_request :
      Dict Text (ℕ × ℕ) × Dict Text Error
      → Option Text
      → RequestMetric
      → Dict Text (ℕ × ℕ) × Dict Text Error
  unfolding add_tokens add_error or_zero
  note_request tables none m = tables
  note_request tables (some []) m = tables
  note_request (tokens, errors) (some (c ∷ s)) m = (
    add_tokens tokens (c ∷ s) m.input_tokens (or_zero m.output_tokens),
    add_error errors (c ∷ s) m.error,
  )

  unfoldable pub note_requests :
      Dict Text (ℕ × ℕ) × Dict Text Error → List RequestMetric → Dict Text (ℕ × ℕ) × Dict Text Error
  unfolding note_request
  note_requests tables [] = tables
  note_requests tables (m ∷ metrics) = note_requests (note_request tables m.session_id m) metrics

  -- The error of a request takes the place of the session's own.
  unfoldable pub error_of : Option Error → Option Error → Option Error
  error_of own none = own
  error_of own (some e) = some e

  unfoldable pub enrich : Dict Text (ℕ × ℕ) × Dict Text Error → SessionMetric → SessionMetric
  unfolding tokens_at error_of is_none
  enrich (tokens, errors) sm =
      let (inp, out) = tokens_at tokens sm.session_id in
      let error = error_of sm.error (Dict.get errors sm.session_id) in
      record sm {
        total_input_tokens = some inp;
        total_output_tokens = some out;
        error = error;
        success = some (nat_beq sm.num_events_completed sm.num_events && is_none error);
      }

  unfoldable pub enrich_metrics : List SessionMetric → List RequestMetric → List SessionMetric
  unfolding note_requests enrich
  enrich_metrics sessions requests = map (enrich (note_requests ([], []) requests)) sessions
