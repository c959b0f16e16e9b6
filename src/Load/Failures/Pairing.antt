-- ===== src/Load/Failures/Pairing.antt =====
-- Each worker that died is paired with the last record that it sent.
use inference_perf.Prelude.{
  ℕ, ◌≡◌, refl, ◌∙◌, ap, inl, inr, Option, none, some, List, [], ◌∷◌, map, filter, nat_beq,
  if◌then◌else◌, Bool-cases, number_key,
}
use inference_perf.Prelude.Dict
use inference_perf.Prelude.Dict.{Dict, get-put}
use inference_perf.Load.Failures.{
  WorkerCrash, Worker, WorkerFailure, crashes_of, has_died, failures_of, collect_worker_failures,
}

-- The last record of a worker, after one that is known.
abbrev pub last_record : ℕ → Option WorkerCrash → List WorkerCrash → Option WorkerCrash
last_record id known [] = known
last_record id known (r ∷ records) =
    last_record id (if nat_beq r.worker_id id then some r else known) records

get-crashes_of :
    (d : Dict ℕ WorkerCrash) (records : List WorkerCrash) (id : ℕ)
    → Dict.get (crashes_of d records) id ≡ last_record id (Dict.get d id) records
unfolding crashes_of
get-crashes_of d [] id = refl
get-crashes_of d (r ∷ records) id =
    get-crashes_of (Dict.put d r.worker_id r) records id
    ∙ ap (λ o. last_record id o records) (get-put d r.worker_id id r)

-- What is known of a worker that died.
abbrev pub failure : List WorkerCrash → Worker → WorkerFailure
failure records w = record {
  worker_id = w.id;
  exitcode = w.exitcode;
  crash = last_record w.id none records;
}

failures_of-failure :
    (records : List WorkerCrash) (workers : List Worker)
    → failures_of (crashes_of [] records) workers ≡ map (failure records) (filter has_died workers)
unfolding failures_of Dict.get
failures_of-failure records [] = refl
failures_of-failure records (w ∷ workers) =
    let known = get-crashes_of [] records w.id in
    let rest = failures_of-failure records workers in
    elim (Bool-cases (has_died w)) [
      | inl dead ↦ rw (dead, known, rest) refl
      | inr alive ↦ rw alive rest
    ]

-- The workers that died, and no others, are reported in order, each with its exit code and the last
-- record that it sent, if it sent one.
pub collect_worker_failures_lem :
    (workers : List Worker) (records : List WorkerCrash)
    → collect_worker_failures workers records ≡ map (failure records) (filter has_died workers)
unfolding collect_worker_failures
collect_worker_failures_lem workers records = failures_of-failure records workers
