-- ===== src/Metrics/Tests.antt =====
-- Two sessions enriched, and the theorem at one of them.
use inference_perf.Prelude.{
  ℕ, ◌≡◌, refl, true, false, ◌&&◌, Option, none, some, List, [], ◌∷◌, nat_beq,
}
use inference_perf.Prelude.Dict
use inference_perf.Prelude.Text.{Text, codes, text_beq}
use inference_perf.Metrics.Sessions.{
  RequestMetric, SessionMetric, enrich, enrich_metrics, error_of, is_none, note_requests,
}
use inference_perf.Metrics.Totals.{input_of, output_of, first_error, enrich_lem}

abbrev request : Text → ℕ → Option ℕ → Option ℕ → RequestMetric ℕ
request s inp out e = record {
  session_id = some s;
  input_tokens = inp;
  output_tokens = out;
  error = e;
}

abbrev session : Text → SessionMetric ℕ
session s = record {
  session_id = s;
  num_events = 2;
  num_events_completed = 2;
  total_input_tokens = none;
  total_output_tokens = none;
  success = none;
  error = none;
}

abbrev requests : List (RequestMetric ℕ)
requests =
    request (codes "a") 10 (some 1) none
    ∷ request (codes "b") 20 none (some 500)
    ∷ request (codes "a") 30 (some 2) none
    ∷ request (codes "b") 40 (some 3) (some 404)
    ∷ []

enriched :
    enrich_metrics ℕ (session (codes "a") ∷ session (codes "b") ∷ []) requests
    ≡ record (session (codes "a")) {
      total_input_tokens = some 40;
      total_output_tokens = some 3;
      success = some true;
    }
      ∷ record (session (codes "b")) {
        total_input_tokens = some 60;
        total_output_tokens = some 3;
        success = some false;
        error = some 500;
      }
      ∷ []
unfolding enrich_metrics Dict.get Dict.put text_beq
enriched = refl

enrich_lem_example :
    ((enrich ℕ (note_requests ℕ ([], []) requests) (session (codes "b"))).total_input_tokens
      ≡ some (input_of ℕ (codes "b") requests))
    × ((enrich ℕ (note_requests ℕ ([], []) requests) (session (codes "b"))).total_output_tokens
        ≡ some (output_of ℕ (codes "b") requests))
    × ((enrich ℕ (note_requests ℕ ([], []) requests) (session (codes "b"))).error
        ≡ error_of ℕ none (first_error ℕ (codes "b") none requests))
    × ((enrich ℕ (note_requests ℕ ([], []) requests) (session (codes "b"))).success
        ≡ some (nat_beq 2 2 && is_none (error_of ℕ none (first_error ℕ (codes "b") none requests))))
enrich_lem_example = enrich_lem ℕ (session (codes "b")) b'b' [] requests refl
