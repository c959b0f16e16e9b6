-- ===== src/Load/Pool/Stage.antt =====
-- The stages of a run: their slices, and what a stage has done when its loop ends.
use inference_perf.Prelude.{
  ℕ, zero, suc, ◌+◌, ◌-◌, ◌≤◌, ◌<◌, ◌≡◌, refl, ◌⊎◌, inl, inr, Bool, Option, none, some, List, [],
  ◌∷◌, ◌++◌, ap, ◌∙◌, length, leb, arith, Bool-cases, All,
}
use inference_perf.Prelude.Dict.{contains}
use inference_perf.Prelude.Text.{Text}
use inference_perf.Load.Pool.{
  StageStatus, completed, Observation, Pool, range, effective, take_slice, start, rounds,
}
use inference_perf.Load.Pool.Accounts.{occurs, places}
use inference_perf.Load.Pool.Finish.{IsQuiet, rounds_complete}
use inference_perf.Load.Pool.Rounds.{Outcome, rounds-Outcome, start-Sound}

occurs-range-before : (from n j : ℕ) → j < from → occurs j (range from n) ≡ 0
unfolding occurs range
occurs-range-before from zero j h = refl
occurs-range-before from (suc n) j h = ground (arith, occurs-range-before (suc from) n j)

occurs-range : (from n j : ℕ) → occurs j (range from n) ≤ 1
unfolding occurs range
occurs-range from zero j = omega arith
occurs-range from (suc n) j =
    ground (arith, occurs-range (suc from) n j, occurs-range-before (suc from) n j)

length-range : (from n : ℕ) → length (range from n) ≡ n
unfolding range
length-range from zero = refl
length-range from (suc n) = ap suc (length-range (suc from) n)

range-append : (from m n : ℕ) → range from m ++ range (from + m) n ≡ range from (m + n)
unfolding range
range-append from zero n =
    let e : from + 0 ≡ from = omega arith in let f : 0 + n ≡ n = omega arith in rw (e, f) refl
range-append from (suc m) n =
    let e : from + suc m ≡ suc from + m = omega arith in
    let f : suc m + n ≡ suc (m + n) = omega arith in
    rw (e, f) (ap (◌∷◌ from) (range-append (suc from) m n))

module _ (id_of : ℕ → Text) (buildable : ℕ → Bool) (concurrent_sessions cursor n : ℕ)
    (observations : List Observation) where
  -- The pool of a stage after some rounds, and how the loop has ended.
  abbrev pub stage : Pool × StageStatus
  stage = rounds id_of buildable concurrent_sessions n observations (start (range cursor n))

  outcome :
      Outcome id_of buildable concurrent_sessions (range cursor n) (occurs-range cursor n) stage
  outcome =
      let done =
        rounds-Outcome id_of buildable concurrent_sessions (range cursor n) (occurs-range cursor n)
          observations (start (range cursor n))
          (start-Sound id_of buildable concurrent_sessions (range cursor n)
            (occurs-range cursor n)) in
      rw (length-range cursor n) at done

  -- After any rounds of a stage, each session of its slice is once among the pending, the active, the
  -- measured and the skipped ones, and no other session is; and where the stage limits its sessions,
  -- no more than that are active.
  pub stage-places :
      ((j : ℕ) → places id_of buildable concurrent_sessions j stage.0 ≡ occurs j (range cursor n))
      × ((concurrent_sessions ≡ 0) ⊎ (length stage.0.active ≤ concurrent_sessions))
  stage-places = (outcome.0.placed, ground (arith, outcome.0.within))

  -- A stage that is completed has no active and no pending session left: each session of its slice
  -- has had its metric built once, or was skipped once, and no other session.
  pub stage_ends :
      stage.1 ≡ completed
      → (stage.0.active ≡ [])
        × (stage.0.pending ≡ [])
        × ((j : ℕ)
            → occurs j stage.0.measured + occurs j stage.0.skipped ≡ occurs j (range cursor n))
  stage_ends e = outcome.1 e

effective-le :
    (num_sessions : Option ℕ) (available : ℕ) → effective num_sessions available ≤ available
unfolding effective
effective-le none available = omega arith
effective-le (some n) available = omega arith

-- What a stage takes: a slice, or nothing.
unfoldable slice_of : Option (List ℕ) → List ℕ
slice_of none = []
slice_of (some slice) = slice

-- The slices of one stage after the other, and the cursor after them.
unfoldable pub take_slices : ℕ → ℕ → List (Option ℕ) → List ℕ × ℕ
unfolding slice_of
take_slices total cursor [] = ([], cursor)
take_slices total cursor (num_sessions ∷ stages) =
    let (slice, next) = take_slice total cursor num_sessions in
    let (rest, end) = take_slices total next stages in (slice_of slice ++ rest, end)

-- The stages of a run, whatever numbers of sessions they ask for, replay the sessions of the corpus
-- one after the other without a gap and each at most once: their slices in a row are the range from
-- the first cursor to the last, which stays within the corpus.
pub take_slices-range :
    (total cursor : ℕ) (stages : List (Option ℕ))
    → cursor ≤ total
    → ((take_slices total cursor stages).0
        ≡ range cursor ((take_slices total cursor stages).1 - cursor))
      × (cursor ≤ (take_slices total cursor stages).1)
      × ((take_slices total cursor stages).1 ≤ total)
unfolding take_slices take_slice slice_of range effective
take_slices-range total cursor [] h =
    let e : cursor - cursor ≡ 0 = omega arith in (rw e refl, omega arith, h)
take_slices-range total cursor (num_sessions ∷ stages) h = elim (Bool-cases (leb total cursor)) [
  | inl spent ↦ rw (spent, take_slices, take_slice) (take_slices-range total cursor stages h)
  | inr left ↦
      let n = effective num_sessions (total - cursor) in
      let (slices, above, below) =
        take_slices-range total (cursor + n) stages
          (ground (arith, effective-le num_sessions (total - cursor))) in
      let end = (take_slices total (cursor + n) stages).1 in
      let e : n + (end - (cursor + n)) ≡ end - cursor = omega arith in
      rw (left, take_slices, take_slice)
        (
          ap (◌++◌ (range cursor n)) slices
              ∙ range-append cursor n (end - (cursor + n))
              ∙ ap (range cursor) e,
          omega arith,
          below,
        )
]

-- Rounds that nothing cuts short, in each of which the active sessions are completed and the session
-- rate holds none back, complete the stage, if there are more of them than sessions in the slice and
-- different sessions have different ids.
pub stage_completes :
    (id_of : ℕ → Text) (buildable : ℕ → Bool) (concurrent_sessions cursor n : ℕ)
    (observations : List Observation)
    → ((i j : ℕ) → id_of i ≡ id_of j → i ≡ j)
    → All IsQuiet observations
    → n < length observations
    → (stage id_of buildable concurrent_sessions cursor n observations).1 ≡ completed
unfolding start contains
stage_completes id_of buildable c cursor n observations injective quiet h =
    let distinct = occurs-range cursor n in
    let size = length-range cursor n in
    let done =
      rounds_complete id_of buildable c injective (range cursor n) distinct observations
        (start (range cursor n)) quiet (start-Sound id_of buildable c (range cursor n) distinct)
        (λ j q. refl, λ j q. refl) (omega arith) in
    rw size at done
