-- ===== src/Load/Tests.antt =====
-- Runs of a session stage, and the theorems at concrete stages.
use inference_perf.Prelude.{
  ℕ, ◌+◌, ◌-◌, ◌≤◌, ◌≡◌, refl, ◌⊎◌, Bool, true, false, Option, none, some, List, [], ◌∷◌, sum,
  length, nat_beq, arith, number_key,
}
use inference_perf.Prelude.Dict
use inference_perf.Prelude.Text.{Text, text_beq}
use inference_perf.Load.Pool.{
  completed, failed, timed_out, Observation, range, recorded, start, rounds, resume,
}
use inference_perf.Load.Pool.Accounts.{occurs, places}
use inference_perf.Load.Pool.Finish.{IsQuiet}
use inference_perf.Load.Pool.Stage.{
  stage, stage-places, stage_ends, take_slices, take_slices-range, stage_completes,
}
use inference_perf.Load.Workers.{
  active_worker_count, worker_concurrency, set_worker_concurrency, routed_worker,
}
use inference_perf.Load.Workers.Shares.{sum-set_worker_concurrency}
use inference_perf.Load.Teardown.{
  View, StageView, Ending, graceful, forced, wait, wait_finished, final_status,
}
use inference_perf.Load.Teardown.Ends.{Ticks, wait_ends}
use inference_perf.Load.Queue.{new_queue, drain}
use inference_perf.Load.Queue.Puts.{put_all, drain-put_all}
use inference_perf.Load.Queue.Drained.{drain-items}
use inference_perf.Prelude.Int.{pos, negsuc}
use inference_perf.Load.Failures.{has_died, collect_worker_failures}
use inference_perf.Load.Failures.Pairing.{collect_worker_failures_lem}

abbrev id_of : ℕ → Text
id_of i = i ∷ []

-- Session 5 cannot be built.
abbrev buildable : ℕ → Bool
buildable i = elim (nat_beq i 5) [ true ↦ false | false ↦ true ]

abbrev quiet : Observation
quiet = record {
  interrupt_sig = false;
  breaker_open = false;
  out_of_time = false;
  worker_dead = false;
  session_completed = λ i. true;
  rate_allows = λ n. true;
}

abbrev idle : Observation
idle = record quiet { session_completed = λ i. false }

abbrev late : Observation
late = record quiet { out_of_time = true }

-- Sessions 4, 5 and 6, one at a time.
abbrev all_quiet : List Observation
all_quiet = quiet ∷ quiet ∷ quiet ∷ quiet ∷ []

after_all : stage id_of buildable 1 4 3 all_quiet ≡ (
  record {
    active = [];
    pending = [];
    completed_session_ids = (4 ∷ []) ∷ (5 ∷ []) ∷ (6 ∷ []) ∷ [];
    skipped = 5 ∷ [];
    measured = 4 ∷ 6 ∷ [];
  },
  completed,
)
unfolding rounds start range resume Dict.contains Dict.add Dict.discard text_beq
after_all = refl

cut_short : (stage id_of buildable 1 4 3 (idle ∷ idle ∷ late ∷ [])).1 ≡ timed_out
unfolding rounds start range resume Dict.contains Dict.add Dict.discard text_beq
cut_short = refl

abbrev one_at_a_time : ℕ
one_at_a_time = 1

stage-places_example :
    ((j : ℕ)
      → places id_of buildable 1 j (stage id_of buildable 1 4 3 (idle ∷ late ∷ [])).0
        ≡ occurs j (range 4 3))
    × ((one_at_a_time ≡ 0) ⊎ (length (stage id_of buildable 1 4 3 (idle ∷ late ∷ [])).0.active ≤ 1))
stage-places_example = stage-places id_of buildable 1 4 3 (idle ∷ late ∷ [])

completes : (stage id_of buildable 1 4 3 all_quiet).1 ≡ completed
unfolding rounds start range resume Dict.contains Dict.add Dict.discard text_beq
completes = refl

stage_ends_example :
    ((stage id_of buildable 1 4 3 all_quiet).0.active ≡ [])
    × ((stage id_of buildable 1 4 3 all_quiet).0.pending ≡ [])
    × ((j : ℕ)
        → occurs j (stage id_of buildable 1 4 3 all_quiet).0.measured
            + occurs j (stage id_of buildable 1 4 3 all_quiet).0.skipped
          ≡ occurs j (range 4 3))
stage_ends_example = stage_ends id_of buildable 1 4 3 all_quiet completes

quiet-IsQuiet : IsQuiet quiet
quiet-IsQuiet = record {
  no_interrupt = refl;
  no_breaker = refl;
  in_time = refl;
  all_alive = refl;
  all_completed = λ i. refl;
  rate_free = λ n. refl;
}

stage_completes_example : (stage id_of buildable 1 4 3 all_quiet).1 ≡ completed
stage_completes_example =
    stage_completes id_of buildable 1 4 3 all_quiet (λ i j e. cc)
      (quiet-IsQuiet, (quiet-IsQuiet, (quiet-IsQuiet, (quiet-IsQuiet, tt)))) (omega arith)

abbrev finished_all : StageView
finished_all = record {
  finished_requests = 3;
  out_of_time = false;
  interrupt_sig = false;
  breaker_open = false;
  worker_dead = false;
}

-- Stages of 2 sessions, of any number up to 10, and of what is left.
abbrev stages : List (Option ℕ)
stages = some 2 ∷ some 10 ∷ none ∷ []

take_slices-range_example :
    ((take_slices 7 0 stages).0 ≡ range 0 ((take_slices 7 0 stages).1 - 0))
    × (0 ≤ (take_slices 7 0 stages).1)
    × ((take_slices 7 0 stages).1 ≤ 7)
take_slices-range_example = take_slices-range 7 0 stages (omega arith)

shares : set_worker_concurrency 4 none 6 ≡ 2 ∷ 2 ∷ 1 ∷ 1 ∷ []
unfolding set_worker_concurrency
shares = refl

sum-set_worker_concurrency_example : sum (set_worker_concurrency 4 (some 3) 8) ≡ 8
sum-set_worker_concurrency_example = sum-set_worker_concurrency 4 (some 3) 8 (omega arith)

-- The third worker is routed to, the fourth is not.
routed :
    (routed_worker (active_worker_count 4 (some 3) (some 8)) 5 ≡ 2) × (worker_concurrency 3 8 3 ≡ 0)
unfolding routed_worker active_worker_count worker_concurrency
routed = (refl, refl)

-- Worker 2 does not come to an end: it is signalled at 12, and terminated at 17.
abbrev stuck : List View
stuck =
    record { now = 10; pending = 1 ∷ 2 ∷ [] }
    ∷ record { now = 12; pending = 2 ∷ [] }
    ∷ record { now = 15; pending = 2 ∷ [] }
    ∷ record { now = 17; pending = 2 ∷ [] }
    ∷ record { now = 18; pending = 2 ∷ [] }
    ∷ record { now = 19; pending = 2 ∷ [] }
    ∷ record { now = 20; pending = 2 ∷ [] }
    ∷ record { now = 21; pending = 2 ∷ [] }
    ∷ record { now = 22; pending = 2 ∷ [] }
    ∷ []

terminated : wait 12 5 graceful stuck ≡ some (forced (2 ∷ []))
unfolding wait
terminated = refl

Ticks-stuck : Ticks 10 stuck
Ticks-stuck = (
  omega arith,
  (
    omega arith,
    (
      omega arith,
      (omega arith, (omega arith, (omega arith, (omega arith, (omega arith, (omega arith, tt)))))),
    ),
  ),
)

wait_ends_example : (ending : Ending) × (wait 12 5 graceful stuck ≡ some ending)
wait_ends_example = wait_ends 12 5 10 stuck Ticks-stuck (omega arith)

not_clean : final_status (wait_finished 3 (finished_all ∷ [])) false ≡ failed
unfolding final_status wait_finished
not_clean = refl

-- The sessions of a stage that are handed to a collector, where there is one.
handed_over :
    (recorded true (stage id_of buildable 1 4 3 all_quiet).0 ≡ 4 ∷ 6 ∷ [])
    × (recorded false (stage id_of buildable 1 4 3 all_quiet).0 ≡ [])
unfolding recorded
handed_over = (rw after_all refl, refl)

-- Two channels with two items and one.
drained_all :
    drain ℕ (λ i. 5) (λ c. none) ((some 7 ∷ some 8 ∷ []) ∷ (some 9 ∷ []) ∷ []) none
    ≡ ((pos 3, true), [] ∷ [] ∷ [])
drained_all =
    drain-items ℕ (λ i. 5) (λ c. none) ((7 ∷ 8 ∷ []) ∷ (9 ∷ []) ∷ [])
      ((omega arith), ((omega arith), tt))

-- One item for all of three channels, and two for one of them.
drain-put_all_example :
    drain ℕ
      (λ i. 4)
      (λ c. none)
      (put_all ℕ (new_queue ℕ 3) ((7, none) ∷ (8, some 4) ∷ (9, some 1) ∷ []))
      none
    ≡ ((pos 5, true), [] ∷ [] ∷ [] ∷ [])
drain-put_all_example =
    drain-put_all ℕ (λ i. 4) (λ c. none) 3 ((7, none) ∷ (8, some 4) ∷ (9, some 1) ∷ [])
      (omega arith) (λ i. omega arith)

reported :
    collect_worker_failures
      (record { id = 0; is_alive = true; exitcode = none }
        ∷ record { id = 1; is_alive = false; exitcode = some (negsuc 8) }
        ∷ [])
      []
    ≡ record { worker_id = 1; exitcode = some (negsuc 8); crash = none } ∷ []
unfolding has_died
reported =
    collect_worker_failures_lem
      (record { id = 0; is_alive = true; exitcode = none }
        ∷ record { id = 1; is_alive = false; exitcode = some (negsuc 8) }
        ∷ [])
      []
