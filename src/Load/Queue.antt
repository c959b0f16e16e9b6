-- ===== src/Load/Queue.antt =====
-- `RequestQueue` of utils/request_queue.py: the channels as lists. How many items a drain receives
-- before nothing arrives in time, and what `qsize` gives for the rest, are parameters; no channel id
-- stands for -1, all channels.
pub mod Drained
pub mod Puts
use inference_perf.Prelude.Int.{ℤ, pos, sub_ℕ, ◌+ℤ◌}
use inference_perf.Prelude.{
  ℕ, zero, suc, ◌+◌, ◌-◌, ◌%◌, Bool, true, false, ◌&&◌, ◌||◌, not, Option, none, some, List, [],
  ◌∷◌, ◌++◌, map, length, set, get_or, replicate, nat_beq, if◌then◌else◌,
}

-- `bool()` of a `Drained`.
unfoldable pub is_drained : ℤ × Bool → Bool
is_drained (pos zero, exact) = not exact
is_drained (removed, exact) = true

module _ (T : Type 0) where
  abbrev pub Channel : Type 0
  Channel = List (Option T)

  unfoldable pub new_queue : ℕ → List Channel
  new_queue num_channels = replicate num_channels []

  unfoldable pub get_channel : List Channel → ℕ → Channel
  get_channel queues channel_id = get_or queues (channel_id % length queues) []

  unfoldable pub replace_channel : List Channel → ℕ → List Channel
  replace_channel queues channel_id = set queues (channel_id % length queues) []

  unfoldable pub put : List Channel → T → Option ℕ → List Channel
  unfolding get_channel
  put queues item none = map (λ q. q ++ some item ∷ []) queues
  put queues item (some channel_id) =
      set queues (channel_id % length queues) (get_channel queues channel_id ++ some item ∷ [])

  -- The items up to a None, what is left, and whether the None was met.
  unfoldable pub read_up : ℕ → Channel → ℕ × Bool × Channel
  read_up zero channel = (0, false, channel)
  read_up (suc reads) [] = (0, false, [])
  read_up (suc reads) (none ∷ channel) = (0, true, channel)
  read_up (suc reads) (some item ∷ channel) =
      let (n, ended, left) = read_up reads channel in (suc n, ended, left)

  -- The count where no None was met: what `qsize` gives, less the None that was put. As `qsize` is not
  -- reliable, that may be -1.
  unfoldable pub count_left : Option ℕ → ℕ → ℤ × Bool
  count_left none n = (pos n, false)
  count_left (some size) n = (pos n +ℤ sub_ℕ size 1, true)

  module _ (reads : ℕ → ℕ) (qsize : Channel → Option ℕ) where
    unfoldable pub drain_channel : ℕ → Channel → (ℤ × Bool) × Channel
    unfolding read_up count_left
    drain_channel index channel =
        let (n, ended, left) = read_up (reads index) (channel ++ none ∷ []) in
        (if ended then (pos n, true) else count_left (qsize left) n, left)

    unfoldable pub drain_from : ℕ → List Channel → (ℤ × Bool) × List Channel
    unfolding drain_channel
    drain_from index [] = ((pos 0, true), [])
    drain_from index (channel ∷ queues) =
        let ((n, exact), left) = drain_channel index channel in
        let ((rest, rest_exact), rest_left) = drain_from (suc index) queues in
        ((n +ℤ rest, exact && rest_exact), left ∷ rest_left)

    unfoldable pub drain : List Channel → Option ℕ → (ℤ × Bool) × List Channel
    unfolding drain_from get_channel
    drain queues none = drain_from 0 queues
    drain queues (some channel_id) =
        let index = channel_id % length queues in
        let (drained, left) = drain_channel index (get_channel queues channel_id) in
        (drained, set queues index left)
