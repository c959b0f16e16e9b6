-- ===== src/Load/Queue/Drained.antt =====
-- A drain that is not cut short removes all that is in the channels, and counts it.
use inference_perf.Prelude.{
  ℕ, zero, suc, ◌<◌, ◌≡◌, refl, true, Option, none, some, List, [], ◌∷◌, ◌++◌, map, length, sum,
  replicate, arith,
}
use inference_perf.Prelude.Int.{pos}
use inference_perf.Load.Queue.{Channel, read_up, drain_channel, drain_from, drain}

module _ (T : Type 0) where
  -- A channel of items alone, each of which is received in time, and so is the None after them.
  abbrev pub items : List T → Channel T
  items = map some

  read_up-items :
      (reads : ℕ) (xs : List T)
      → length xs < reads
      → read_up T reads (items xs ++ none ∷ []) ≡ (length xs, true, [])
  unfolding read_up
  read_up-items zero xs h = absurd (omega arith)
  read_up-items (suc reads) [] h = refl
  read_up-items (suc reads) (x ∷ xs) h = rw (read_up-items reads xs (omega arith)) refl

  module _ (reads : ℕ → ℕ) (qsize : Channel T → Option ℕ) where
    -- Each channel, counted from `i`, has its items received.
    abbrev pub InTime : ℕ → List (List T) → Type 0
    InTime i [] = Unit
    InTime i (xs ∷ xss) = (length xs < reads i) × InTime (suc i) xss

    drain_from-items :
        (i : ℕ) (xss : List (List T))
        → InTime i xss
        → drain_from T reads qsize i (map items xss)
          ≡ ((pos (sum (map length xss)), true), replicate (length xss) [])
    unfolding drain_from drain_channel
    drain_from-items i [] h = refl
    drain_from-items i (xs ∷ xss) (h, rest) =
        rw (read_up-items (reads i) xs h, drain_from-items (suc i) xss rest) refl

    -- A drain of all channels whose items arrive in time leaves every channel empty, and gives the
    -- number of all the items as an exact one.
    pub drain-items :
        (xss : List (List T))
        → InTime 0 xss
        → drain T reads qsize (map items xss) none
          ≡ ((pos (sum (map length xss)), true), replicate (length xss) [])
    unfolding drain
    drain-items xss h = drain_from-items 0 xss h
