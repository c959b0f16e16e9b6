-- ===== src/Load/Failures.antt =====
-- Dead workers in loadgen/load_generator.py: `WorkerCrash`, `WorkerFailure.cause_label` and
-- `collect_worker_failures`. The records that can be read from the crash queue are given as a list, and
-- the names of signals are a parameter; of a worker and a crash the fields that are read are modelled.
pub mod Pairing
use inference_perf.Prelude.{
  ℕ, zero, suc, Bool, true, false, ◌||◌, Option, none, some, List, [], ◌∷◌, ◌++◌, if◌then◌else◌,
  number_key,
}
use inference_perf.Prelude.Int.{ℤ, pos, negsuc}
use inference_perf.Prelude.Dict
use inference_perf.Prelude.Dict.{Dict}
use inference_perf.Prelude.Text.{Text, codes}
use inference_perf.Replay.Schedule.{decimal}

pub record WorkerCrash : Type 0 where
  pub worker_id : ℕ
  pub exc_type : Text

pub record Worker : Type 0 where
  pub id : ℕ
  pub is_alive : Bool
  pub exitcode : Option ℤ

pub record WorkerFailure : Type 0 where
  pub worker_id : ℕ
  pub exitcode : Option ℤ
  pub crash : Option WorkerCrash

-- The last record of each worker.
unfoldable pub crashes_of : Dict ℕ WorkerCrash → List WorkerCrash → Dict ℕ WorkerCrash
crashes_of d [] = d
crashes_of d (record_ ∷ records) = crashes_of (Dict.put d record_.worker_id record_) records

-- A worker that was never started has no exit code.
unfoldable pub has_died : Worker → Bool
has_died w = elim w.exitcode [ none ↦ false | some code ↦ if w.is_alive then false else true ]

unfoldable pub failures_of : Dict ℕ WorkerCrash → List Worker → List WorkerFailure
unfolding has_died
failures_of d [] = []
failures_of d (w ∷ workers) =
    let rest = failures_of d workers in
    if has_died w
    then record { worker_id = w.id; exitcode = w.exitcode; crash = Dict.get d w.id } ∷ rest
    else rest

unfoldable pub collect_worker_failures : List Worker → List WorkerCrash → List WorkerFailure
unfolding crashes_of failures_of
collect_worker_failures workers crash_queue = failures_of (crashes_of [] crash_queue) workers

module _ (signal_name : ℕ → Option Text) where
  -- `signal_{n}` where the signal has no name.
  unfoldable pub killed_by : ℕ → Text
  killed_by n = elim (signal_name n) [ some name ↦ name | none ↦ codes "signal_" ++ decimal n ]

  unfoldable pub exit_label : Option ℤ → Text
  unfolding killed_by
  exit_label none = codes "exit_None"
  exit_label (some (negsuc n)) = killed_by (suc n)
  exit_label (some (pos zero)) = codes "clean_exit"
  exit_label (some (pos (suc n))) = codes "exit_" ++ decimal (suc n)

  unfoldable pub cause_label : WorkerFailure → Text
  unfolding exit_label
  cause_label f = elim f.crash [ some crash ↦ crash.exc_type | none ↦ exit_label f.exitcode ]
