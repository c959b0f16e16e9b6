-- ===== src/Breaker/Trigger.antt =====
-- circuit_breaker/triggers: base.py, consecutive.py and rate_over_window.py.
-- A time stamp is a number of microseconds. Floats are a parameter: the code divides two integers
-- and compares the quotient with the threshold.
pub mod Runs
pub mod Window
use inference_perf.Prelude.{
  ℕ, ◌+◌, Bool, true, false, ◌||◌, not, List, [], ◌∷◌, ◌++◌, map, length, sum, ltb, leb, nat_beq,
  if◌then◌else◌, is_empty,
}

pub record Floats : Type 1 where
  pub Float : Type 0
  pub zero_float : Float
  pub div : ℕ → ℕ → Float
  pub le_float : Float → Float → Bool

pub record HitSample : Type 0 where
  pub ts : ℕ
  pub hit : ℕ

abbrev pub is_hit : HitSample → Bool
is_hit s = not (nat_beq s.hit 0)

pub record Consecutive : Type 0 where
  pub n : ℕ
  pub c : ℕ
  pub has_fired : Bool

unfoldable pub consecutive_init : ℕ → Consecutive
consecutive_init threshold = record { n = threshold; c = 0; has_fired = false }

unfoldable pub consecutive_update : Consecutive → HitSample → Consecutive
consecutive_update t s =
    let c = if is_hit s then t.c + 1 else 0 in
    record t { c = c; has_fired = if leb t.n c then true else t.has_fired }

unfoldable pub consecutive_reset : Consecutive → Consecutive
consecutive_reset t = record t { c = 0; has_fired = false }

-- `ts < now - size`, the test by which a sample leaves the buffer.
abbrev pub is_old : ℕ → ℕ → HitSample → Bool
is_old size now s = ltb (s.ts + size) now

-- The `while` loop: samples leave from the left.
unfoldable pub evict : ℕ → ℕ → List HitSample → List HitSample
evict size now [] = []
evict size now (s ∷ buf) =
    let rest = evict size now buf in if is_old size now s then rest else s ∷ buf

module _ (fl : Floats) where
  open fl use {Float, zero_float, div, le_float}

  pub record RateOverWindow : Type 0 where
    pub size : ℕ
    pub th : Float
    pub min_samples : ℕ
    pub buf : List HitSample
    pub has_fired : Bool

  unfoldable pub window_init : ℕ → Float → ℕ → RateOverWindow
  window_init window threshold min_samples = record {
    size = window;
    th = threshold;
    min_samples = min_samples;
    buf = [];
    has_fired = false;
  }

  unfoldable pub rate_of : List HitSample → Float
  rate_of buf = if is_empty buf then zero_float else div (sum (map (λ s. s.hit) buf)) (length buf)

  -- Whether a buffer crosses the threshold.
  unfoldable pub crosses : RateOverWindow → List HitSample → Bool
  crosses t buf = if leb t.min_samples (length buf) then le_float t.th (rate_of buf) else false

  unfoldable pub window_update : RateOverWindow → HitSample → RateOverWindow
  window_update t s =
      let buf = evict t.size s.ts (t.buf ++ s ∷ []) in
      record t { buf = buf; has_fired = if crosses t buf then true else t.has_fired }

  unfoldable pub window_reset : RateOverWindow → RateOverWindow
  window_reset t = record t { buf = []; has_fired = false }

  -- The classes that `build_trigger` chooses from, with the virtual methods of `Trigger`.
  pub data Trigger : Type 0 where
    consecutive : Consecutive → Trigger
    rate_over_window : RateOverWindow → Trigger

  unfoldable pub update : Trigger → HitSample → Trigger
  update (consecutive t) s = consecutive (consecutive_update t s)
  update (rate_over_window t) s = rate_over_window (window_update t s)

  unfoldable pub fired : Trigger → Bool
  fired (consecutive t) = t.has_fired
  fired (rate_over_window t) = t.has_fired

  unfoldable pub reset : Trigger → Trigger
  reset (consecutive t) = consecutive (consecutive_reset t)
  reset (rate_over_window t) = rate_over_window (window_reset t)
