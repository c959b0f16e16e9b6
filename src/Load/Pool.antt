-- ===== src/Load/Pool.antt =====
-- `LoadGenerator.run_session_stage` of loadgen/load_generator.py: the slice of sessions of a stage and
-- the pool that its loop keeps. What a round of the loop sees from outside is an observation. The ids
-- of the sessions and whether a session can be built are parameters, and a set is the list of its
-- elements in the order in which they were added. What the data generator and the queue do with a
-- session that is started or ended, spans, logging and the progress bar are left out.
pub mod Accounts
pub mod Finish
pub mod Rounds
pub mod Stage
use inference_perf.Prelude.{
  ℕ, zero, suc, ◌+◌, ◌-◌, Bool, true, false, ◌&&◌, ◌||◌, not, Option, none, some, List, [], ◌∷◌,
  ◌++◌, length, min, leb, ltb, nat_beq, is_empty, if◌then◌else◌, number_key,
}
use inference_perf.Prelude.Dict
use inference_perf.Prelude.Text.{Text, code_points_key}

-- `StageStatus`.
pub data StageStatus : Type 0 where
  running completed failed timed_out interrupted : StageStatus

-- What a round finds: the signal, the breakers, the clock against the stage's longest duration, the
-- workers, which active sessions are completed, and, by the number of pending sessions, whether the
-- session rate lets the next one start.
pub record Observation : Type 0 where
  pub interrupt_sig : Bool
  pub breaker_open : Bool
  pub out_of_time : Bool
  pub worker_dead : Bool
  pub session_completed : ℕ → Bool
  pub rate_allows : ℕ → Bool

-- `measured` are the sessions whose metric was built, and `skipped` those that were counted as
-- skipped; both in order.
pub record Pool : Type 0 where
  pub active : List ℕ
  pub pending : List ℕ
  pub completed_session_ids : List Text
  pub skipped : List ℕ
  pub measured : List ℕ

-- `range(start, start + n)`.
unfoldable pub range : (start n : ℕ) → List ℕ
range start zero = []
range start (suc n) = start ∷ range (suc start) n

unfoldable pub effective : Option ℕ → ℕ → ℕ
effective none available = available
effective (some num_sessions) available = min num_sessions available

-- The slice of a stage, if there is a session left, and the cursor after it.
unfoldable pub take_slice : (total_sessions cursor : ℕ) → Option ℕ → Option (List ℕ) × ℕ
unfolding range effective
take_slice total_sessions cursor num_sessions =
    let n = effective num_sessions (total_sessions - cursor) in
    if leb total_sessions cursor then (none, cursor) else (some (range cursor n), cursor + n)

unfoldable pub start : List ℕ → Pool
start slice = record {
  active = [];
  pending = slice;
  completed_session_ids = [];
  skipped = [];
  measured = [];
}

module _ (id_of : ℕ → Text) (buildable : ℕ → Bool) (concurrent_sessions : ℕ) where
  -- The active sessions that are completed and were not before, with the ids of all that are.
  unfoldable pub collect : (ℕ → Bool) → List Text → List ℕ → List Text × List ℕ
  collect done ids [] = (ids, [])
  collect done ids (i ∷ active) =
      if done i && not (Dict.contains ids (id_of i))
      then (let (after, newly) = collect done (Dict.add ids (id_of i)) active in (after, i ∷ newly))
      else collect done ids active

  -- A session leaves the pool and its metric is built.
  unfoldable pub retire : Pool → List ℕ → Pool
  retire s [] = s
  retire s (i ∷ newly) =
      retire (record s { active = Dict.discard s.active i; measured = s.measured ++ i ∷ [] }) newly

  unfoldable pub check_completed : (ℕ → Bool) → Pool → Pool
  unfolding collect retire
  check_completed done s =
      let (ids, newly) = collect done s.completed_session_ids s.active in
      retire (record s { completed_session_ids = ids }) newly

  unfoldable pub dispatch_session : Pool → ℕ → Pool
  dispatch_session s i =
      if buildable i then record s { active = Dict.add s.active i } else record s {
        skipped = s.skipped ++ i ∷ [];
        completed_session_ids = Dict.add s.completed_session_ids (id_of i);
      }

  unfoldable pub has_room : List ℕ → Bool
  has_room active = nat_beq concurrent_sessions 0 || not (leb concurrent_sessions (length active))

  -- Sessions are started, the first that is pending first, while there is room and the rate allows.
  unfoldable pub fill : (ℕ → Bool) → List ℕ → Pool → Pool
  unfolding dispatch_session has_room
  fill rate_allows [] s = record s { pending = [] }
  fill rate_allows (i ∷ pending) s =
      if has_room s.active && rate_allows (suc (length pending))
      then fill rate_allows pending (dispatch_session s i)
      else record s { pending = i ∷ pending }

  -- A round that is not cut short.
  unfoldable pub work : Observation → Pool → Pool
  unfolding check_completed fill
  work o s =
      let checked = check_completed o.session_completed s in
      fill o.rate_allows checked.pending checked

  unfoldable pub is_finished : ℕ → Pool → Bool
  is_finished n s =
      leb n (length s.completed_session_ids) || (is_empty s.pending && is_empty s.active)

  -- One round: the pool after it, and how the loop ends, if it does.
  unfoldable pub round : ℕ → Observation → Pool → Pool × StageStatus
  unfolding work is_finished
  round n o s =
      let after = work o s in
      if o.interrupt_sig
      then (s, interrupted)
      else if o.breaker_open
      then (s, failed)
      else if o.out_of_time
      then (s, timed_out)
      else if o.worker_dead
      then (s, failed)
      else if is_finished n after
      then (after, completed)
      else (after, running)

  -- The loop goes on while the stage runs.
  unfoldable pub resume : Pool × StageStatus → Pool × StageStatus → Pool × StageStatus
  resume (s, running) rest = rest
  resume (s, status) rest = (s, status)

  -- The rounds of the loop, up to its end or as many as are observed.
  unfoldable pub rounds : ℕ → List Observation → Pool → Pool × StageStatus
  unfolding round resume
  rounds n [] s = (s, running)
  rounds n (o ∷ observations) s =
      let (after, status) = round n o s in resume (after, status) (rounds n observations after)

-- The sessions whose metric a stage hands to the collector, if the generator has one.
unfoldable pub recorded : (has_collector : Bool) → Pool → List ℕ
recorded has_collector s = if has_collector then s.measured else []
