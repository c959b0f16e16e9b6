-- ===== src/Load/Workers/Shares.antt =====
-- The shares of the workers add up to the concurrency of the stage.
use inference_perf.Prelude.{
  ℕ, zero, suc, ◌+◌, ◌-◌, ◌*◌, ◌/◌, ◌%◌, ◌≤◌, ◌<◌, ◌≡◌, ◌↔◌, refl, Option, none, some, map, sum,
  min, arith,
}
use native.Mathlib.Nat.{div-add-mod, le-div_iff_mul-le}
use inference_perf.Load.Pool.{range}
use inference_perf.Load.Workers.{
  limited, active_worker_count, worker_concurrency, set_worker_concurrency, routed_worker,
}

-- The sum of the shares of the first `k` workers.
total : ℕ → ℕ → ℕ → ℕ
total a c zero = 0
total a c (suc k) = total a c k + worker_concurrency a c k

total-zero : (a c : ℕ) → total a c 0 ≡ 0
unfolding total
total-zero a c = refl

sum-range :
    (a c from n : ℕ)
    → total a c from + sum (map (worker_concurrency a c) (range from n)) ≡ total a c (from + n)
unfolding range total
sum-range a c from zero = let e : from + 0 ≡ from = omega arith in rw e (omega arith)
sum-range a c from (suc n) =
    let e : from + suc n ≡ suc from + n = omega arith in
    let step : total a c (suc from) ≡ total a c from + worker_concurrency a c from = refl in
    rw e (omega (arith, sum-range a c (suc from) n))

total-below : (a c k : ℕ) → k ≤ a → total a c k ≡ k * (c / a) + min k (c % a)
unfolding total worker_concurrency
total-below a c zero h = omega arith
total-below a c (suc k) h = ground (arith, total-below a c k)

total-beyond : (a c k : ℕ) → total a c (a + k) ≡ total a c a
unfolding total worker_concurrency
total-beyond a c zero = let e : a + 0 ≡ a = omega arith in rw e refl
total-beyond a c (suc k) =
    let e : a + suc k ≡ suc (a + k) = omega arith in rw e (ground (arith, total-beyond a c k))

active_worker_count-bounds :
    (num_workers : ℕ) (pinned level : Option ℕ)
    → 0 < num_workers
    → (0 < active_worker_count num_workers pinned level)
      × (active_worker_count num_workers pinned level ≤ num_workers)
unfolding active_worker_count limited
active_worker_count-bounds num_workers none none h = omega arith
active_worker_count-bounds num_workers none (some zero) h = omega arith
active_worker_count-bounds num_workers none (some (suc n)) h = omega arith
active_worker_count-bounds num_workers (some zero) none h = omega arith
active_worker_count-bounds num_workers (some zero) (some zero) h = omega arith
active_worker_count-bounds num_workers (some zero) (some (suc n)) h = omega arith
active_worker_count-bounds num_workers (some (suc p)) none h = omega arith
active_worker_count-bounds num_workers (some (suc p)) (some zero) h = omega arith
active_worker_count-bounds num_workers (some (suc p)) (some (suc n)) h = omega arith

sum-shares : (a c n : ℕ) → 0 < a → a ≤ n → sum (map (worker_concurrency a c) (range 0 n)) ≡ c
sum-shares a c n pos le =
    let e : a + (n - a) ≡ 0 + n = omega arith in
    let beyond : total a c (0 + n) ≡ total a c a = rw (← e) (total-beyond a c (n - a)) in
    let small : c % a < a = omega arith in
    omega (
      arith,
      beyond,
      total-zero a c,
      sum-range a c 0 n,
      total-below a c a (omega arith),
      div-add-mod c a,
    )

has_share : (a c p : ℕ) → 0 < a → a ≤ c → (p % a < a) × (0 < worker_concurrency a c (p % a))
unfolding worker_concurrency
has_share a c p pos le =
    let small : p % a < a = omega arith in
    let more : (1 ≤ c / a) ↔ (1 * a ≤ c) = le-div_iff_mul-le pos in
    let one : 1 ≤ c / a = more.1 (omega arith) in ground arith

-- The shares of the workers add up to the concurrency level of the stage, whatever number of workers
-- is preferred, if there is a worker.
pub sum-set_worker_concurrency :
    (num_workers : ℕ) (pinned : Option ℕ) (concurrency_level : ℕ)
    → 0 < num_workers
    → sum (set_worker_concurrency num_workers pinned concurrency_level) ≡ concurrency_level
unfolding set_worker_concurrency
sum-set_worker_concurrency num_workers pinned c h =
    let (pos, le) = active_worker_count-bounds num_workers pinned (some c) h in
    sum-shares (active_worker_count num_workers pinned (some c)) c num_workers pos le

active_worker_count-le :
    (num_workers : ℕ) (pinned : Option ℕ) (level : ℕ)
    → 0 < level
    → active_worker_count num_workers pinned (some level) ≤ level
unfolding active_worker_count limited
active_worker_count-le num_workers pinned zero h = absurd (omega arith)
active_worker_count-le num_workers none (suc n) h = omega arith
active_worker_count-le num_workers (some zero) (suc n) h = omega arith
active_worker_count-le num_workers (some (suc p)) (suc n) h = omega arith

-- A request with a preferred worker is routed to a worker that exists and has a share of the
-- concurrency level, if there is a worker and the level is not 0.
pub routed_worker-has_share :
    (num_workers : ℕ) (pinned : Option ℕ) (concurrency_level preferred_worker_id : ℕ)
    → 0 < num_workers
    → 0 < concurrency_level
    → (routed_worker
          (active_worker_count num_workers pinned (some concurrency_level))
          preferred_worker_id
        < num_workers)
      × (0
          < worker_concurrency
              (active_worker_count num_workers pinned (some concurrency_level))
              concurrency_level
              (routed_worker
                (active_worker_count num_workers pinned (some concurrency_level))
                preferred_worker_id))
unfolding routed_worker
routed_worker-has_share num_workers pinned c p h k =
    let a = active_worker_count num_workers pinned (some c) in
    let (pos, le) = active_worker_count-bounds num_workers pinned (some c) h in
    let (small, share) = has_share a c p pos (active_worker_count-le num_workers pinned c k) in
    (omega arith, share)
