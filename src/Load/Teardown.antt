-- ===== src/Load/Teardown.antt =====
-- The wait of `LoadGenerator._teardown_stage` in loadgen/load_generator.py, and the end of `run_stage`.
-- A round finds the clock, in ticks, and the ids of the workers that are alive and have not reached
-- the end of the stage. Signals, joining and respawning of workers are left out.
pub mod Ends
use inference_perf.Prelude.{
  ℕ, suc, ◌+◌, Bool, true, false, Option, none, some, List, [], ◌∷◌, leb, ltb, if◌then◌else◌,
}
use inference_perf.Load.Pool.{StageStatus, running, completed, failed, timed_out, interrupted}

pub record View : Type 0 where
  pub now : ℕ
  pub pending : List ℕ

-- `force_deadline`, if it is set.
pub data Phase : Type 0 where
  graceful : Phase
  forcing : (force_deadline : ℕ) → Phase

-- All workers wound down, or some were terminated.
pub data Ending : Type 0 where
  clean : Ending
  forced : (workers : List ℕ) → Ending

pub data Step : Type 0 where
  ended : Ending → Step
  waiting : Phase → Step

module _ (grace_deadline reap : ℕ) where
  unfoldable pub check : Phase → (now : ℕ) → (pending : List ℕ) → Step
  check phase now [] = ended clean
  check graceful now (w ∷ ws) =
      if leb grace_deadline now then waiting (forcing (now + reap)) else waiting graceful
  check (forcing force_deadline) now (w ∷ ws) =
      if leb force_deadline now then ended (forced (w ∷ ws)) else waiting (forcing force_deadline)

  -- The rounds of the wait; none where it goes on after all that are observed.
  unfoldable pub wait : Phase → List View → Option Ending
  unfolding check
  wait phase [] = none
  wait phase (v ∷ views) = elim (check phase v.now v.pending) [
    | ended ending ↦ some ending
    | waiting next ↦ wait next views
  ]

-- What a turn of the wait of `run_stage` finds.
pub record StageView : Type 0 where
  pub finished_requests : ℕ
  pub out_of_time : Bool
  pub interrupt_sig : Bool
  pub breaker_open : Bool
  pub worker_dead : Bool

-- The wait for the requests of a stage to be finished; running where it goes on.
unfoldable pub wait_finished : ℕ → List StageView → StageStatus
wait_finished num_requests [] = running
wait_finished num_requests (v ∷ views) =
    let rest = wait_finished num_requests views in
    if leb num_requests v.finished_requests
    then completed
    else if v.out_of_time
    then timed_out
    else if v.interrupt_sig
    then interrupted
    else if v.breaker_open
    then failed
    else if v.worker_dead
    then failed
    else rest

-- A completed stage whose teardown was not clean has failed.
unfoldable pub final_status : StageStatus → Bool → StageStatus
final_status completed false = failed
final_status status is_clean = status
