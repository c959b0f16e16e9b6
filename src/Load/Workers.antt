-- ===== src/Load/Workers.antt =====
-- How loadgen/load_generator.py divides a stage among the workers: `_active_worker_count`,
-- `_set_worker_concurrency`, and the routing of `dispatch_session`.
pub mod Shares
use inference_perf.Prelude.{
  ℕ, zero, suc, ◌+◌, ◌-◌, ◌/◌, ◌%◌, Option, none, some, List, map, max, min, leb, ltb, nat_beq,
  if◌then◌else◌, Bool, true, false,
}
use inference_perf.Load.Pool.{range}

-- `min(active, n)` if the number is there and not 0.
unfoldable pub limited : ℕ → Option ℕ → ℕ
limited active none = active
limited active (some zero) = active
limited active (some (suc n)) = min active (suc n)

-- `pinned` is the number of preferred workers, where the data generator asks for workers.
unfoldable pub active_worker_count : ℕ → Option ℕ → Option ℕ → ℕ
unfolding limited
active_worker_count num_workers pinned concurrency_level =
    max 1 (limited (limited num_workers concurrency_level) pinned)

-- The share of the worker with an id.
unfoldable pub worker_concurrency : (active_workers concurrency_level id : ℕ) → ℕ
worker_concurrency active_workers concurrency_level id =
    if leb active_workers id
    then 0
    else if ltb id (concurrency_level % active_workers)
    then suc (concurrency_level / active_workers)
    else concurrency_level / active_workers

unfoldable pub set_worker_concurrency : ℕ → Option ℕ → ℕ → List ℕ
unfolding active_worker_count worker_concurrency range
set_worker_concurrency num_workers pinned concurrency_level =
    map
      (worker_concurrency (active_worker_count num_workers pinned (some concurrency_level))
        concurrency_level)
      (range 0 num_workers)

-- The worker that a request with a preferred worker goes to.
unfoldable pub routed_worker : (active_workers preferred_worker_id : ℕ) → ℕ
routed_worker active_workers preferred_worker_id = preferred_worker_id % active_workers
