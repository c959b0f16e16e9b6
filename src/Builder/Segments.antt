-- ===== src/Builder/Segments.antt =====
-- `decompose_input`, `_rescale_segments_to_wire` and `map_input_seq_to_messages` of
-- datagen/replay/otel_trace_to_replay_graph.py. `share total part whole` stands for
-- `round(total * part / whole)`, in Python's floats.
pub mod Cover
pub mod Wire
use inference_perf.Prelude.{
  ℕ, zero, suc, ◌+◌, ◌-◌, Bool, true, false, ◌&&◌, not, Option, none, some, List, [], ◌∷◌, ◌++◌,
  map, length, take, drop, is_empty, sum, ltb, leb, nat_beq, if◌then◌else◌,
}
use inference_perf.Prelude.Text.{Text}
use inference_perf.Builder.Calls.{
  Message, MessageInfo, RawCall, message_tokens, messages_equal, output_matches_message,
}
use inference_perf.Builder.Causal.{
  OutputMatches, matches_of, present, part_ids, is_subset, extract_tool_call_ids,
}
use inference_perf.Replay.Graph.{InputSegment, SegmentType, shared, output, unique}

unfoldable pub rescale_from : ℕ → List InputSegment → List ℕ → List InputSegment
rescale_from cursor [] expansion = []
rescale_from cursor (seg ∷ segments) expansion =
    record seg { message_count = sum (take seg.message_count (drop cursor expansion)) }
    ∷ rescale_from (cursor + seg.message_count) segments expansion

unfoldable pub rescale_segments_to_wire : List InputSegment → List ℕ → List InputSegment
unfolding rescale_from
rescale_segments_to_wire segments expansion = rescale_from 0 segments expansion

-- The wire messages that a list of messages expands to.
unfoldable pub flatten {ℓ κ} : {A : Type ℓ} {B : Type κ} → (A → List B) → List A → List B
flatten f [] = []
flatten f (x ∷ xs) = f x ++ flatten f xs

-- How many wire messages each message expands to.
unfoldable pub expansion_of {ℓ κ} : {A : Type ℓ} {B : Type κ} → (A → List B) → List A → List ℕ
expansion_of f xs = map (λ x. length (f x)) xs

-- Each segment with its messages, from the place `curr_msg_index` on.
unfoldable pub map_input_from {ℓ} :
    {A : Type ℓ} → ℕ → List InputSegment → List A → List (InputSegment × List A)
map_input_from curr_msg_index [] messages = []
map_input_from curr_msg_index (seq ∷ segments) messages =
    (seq, take seq.message_count (drop curr_msg_index messages))
    ∷ map_input_from (curr_msg_index + seq.message_count) segments messages

-- `total_input_tokens` of a call, and `total_tokens` of `decompose_input`.
unfoldable pub tokens_of : Option ℕ → List Message → ℕ
tokens_of (some n) messages = n
tokens_of none messages = sum (map message_tokens messages)

unfoldable pub chars : List Message → ℕ
chars messages = sum (map (λ m. length m.text) messages)

unfoldable pub common_prefix : List Message → List Message → ℕ
common_prefix [] bs = 0
common_prefix (a ∷ ms) [] = 0
common_prefix (a ∷ ms) (b ∷ bs) =
    let rest = common_prefix ms bs in if messages_equal a b then suc rest else 0

-- The ids of the tool calls in the output of a predecessor.
unfoldable pub parts_ids : Option MessageInfo → List Text
parts_ids none = []
parts_ids (some info) = elim info.parts [ none ↦ [] | some parts ↦ present (part_ids parts) ]

unfoldable pub is_injected : Message → Message → Bool
unfolding parts_ids
is_injected out msg =
    let ids = parts_ids out.message_info in
    if output_matches_message false out.text msg
    then true
    else not (is_empty ids) && is_subset ids (extract_tool_call_ids msg)

-- The place, counted from `i`, of the first message that is the output.
unfoldable pub first_injected : Message → ℕ → List Message → Option ℕ
first_injected out i [] = none
first_injected out i (msg ∷ messages) =
    let rest = first_injected out (suc i) messages in if is_injected out msg then some i else rest

-- The first place of the cache that is not behind the cursor.
unfoldable pub first_cached : ℕ → ℕ → List ℕ → Option ℕ
first_cached cursor total_msgs [] = none
first_cached cursor total_msgs (i ∷ indices) =
    let rest = first_cached cursor total_msgs indices in
    if leb cursor i && ltb i total_msgs then some i else rest

module _ (Json Float : Type 0) (share : ℕ → ℕ → ℕ → ℕ) where
  unfoldable pub msgs_to_tokens : ℕ → List Message → List Message → ℕ
  msgs_to_tokens total_tokens messages msg_list =
      if nat_beq total_tokens 0
      then 0
      else if nat_beq (chars messages) 0
      then 0
      else share total_tokens (chars msg_list) (chars messages)

  -- The best match so far: its place, its predecessor and the event id of that.
  unfoldable pub nearer :
      Option (ℕ × RawCall Json Float × Text)
      → RawCall Json Float × Text
      → Option ℕ
      → Option (ℕ × RawCall Json Float × Text)
  nearer best pred none = best
  nearer none (pred, id) (some i) = some (i, pred, id)
  nearer (some (j, old, old_id)) (pred, id) (some i) =
      if ltb i j then some (i, pred, id) else some (j, old, old_id)

  unfoldable pub match_of : OutputMatches → RawCall Json Float → ℕ → RawCall Json Float → Option ℕ
  match_of cache call cursor pred = elim pred.out_message [
    | none ↦ none
    | some out ↦ elim (matches_of cache (pred.call_id, call.call_id)) [
      | some indices ↦ first_cached cursor (length call.messages) indices
      | none ↦ first_injected out cursor (drop cursor call.messages)
    ]
  ]

  -- The earliest message from the cursor on that is the output of a predecessor.
  unfoldable pub next_output :
      OutputMatches
      → RawCall Json Float
      → ℕ
      → Option (ℕ × RawCall Json Float × Text)
      → List (RawCall Json Float × Text)
      → Option (ℕ × RawCall Json Float × Text)
  unfolding nearer match_of
  next_output cache call cursor best [] = best
  next_output cache call cursor best (pred ∷ predecessors) =
      next_output cache call cursor (nearer best pred (match_of cache call cursor pred.0))
        predecessors

  -- The longest prefix that is shared with a predecessor, and the event id of that.
  unfoldable pub longest_prefix :
      List Message → ℕ × Text → List (RawCall Json Float × Text) → ℕ × Text
  longest_prefix messages best [] = best
  longest_prefix messages (count, id) ((pred, pred_id) ∷ predecessors) =
      let prefix_len = common_prefix messages pred.messages in
      if ltb count prefix_len
      then longest_prefix messages (prefix_len, pred_id) predecessors
      else longest_prefix messages (count, id) predecessors

  unfoldable pub segment : SegmentType → ℕ → ℕ → Option Text → InputSegment
  segment kind count tokens source = record {
    type = kind;
    message_count = count;
    token_count = tokens;
    source_event_id = source;
  }

  unfoldable pub output_tokens : ℕ → List Message → ℕ → RawCall Json Float → ℕ
  output_tokens total_tokens messages i pred = elim pred.completion_tokens [
    | some n ↦ n
    | none ↦ msgs_to_tokens total_tokens messages (take 1 (drop i messages))
  ]

  -- The messages before an output, if there are any, are unique.
  unfoldable pub gap : ℕ → List Message → (cursor i : ℕ) → List InputSegment
  unfolding segment
  gap total_tokens messages cursor i =
      if ltb cursor i
      then segment unique (i - cursor)
          (msgs_to_tokens total_tokens messages (take (i - cursor) (drop cursor messages))) none
        ∷ []
      else []

  -- The loop over the messages from the cursor on; each round takes at least one.
  unfoldable pub segments_from :
      ℕ
      → OutputMatches
      → RawCall Json Float
      → ℕ
      → List (RawCall Json Float × Text)
      → ℕ
      → List InputSegment
  unfolding gap next_output
  segments_from zero cache call total_tokens predecessors cursor = []
  segments_from (suc fuel) cache call total_tokens predecessors cursor =
      if ltb cursor (length call.messages)
      then elim (next_output cache call cursor none predecessors) [
        | none ↦ gap total_tokens call.messages cursor (length call.messages)
        | some (i, pred, id) ↦
            gap total_tokens call.messages cursor i
            ++ segment output 1 (output_tokens total_tokens call.messages i pred) (some id)
              ∷ segments_from fuel cache call total_tokens predecessors (suc i)
      ]
      else []

  unfoldable pub shared_prefix : ℕ → List Message → ℕ × Text → List InputSegment
  unfolding segment
  shared_prefix total_tokens messages (zero, id) = []
  shared_prefix total_tokens messages (suc n, id) =
      segment shared (suc n) (msgs_to_tokens total_tokens messages (take (suc n) messages))
        (some id)
      ∷ []

  -- At least one segment.
  unfoldable pub or_unique : ℕ → ℕ → List InputSegment → List InputSegment
  unfolding segment
  or_unique total_msgs total_tokens [] = segment unique total_msgs total_tokens none ∷ []
  or_unique total_msgs total_tokens (s ∷ segments) = s ∷ segments

  unfoldable pub decompose_input :
      RawCall Json Float → List (RawCall Json Float × Text) → OutputMatches → List InputSegment
  unfolding segments_from shared_prefix or_unique longest_prefix
  decompose_input call predecessors cache =
      let messages = call.messages in
      let total_msgs = length messages in
      let total_tokens = tokens_of call.prompt_tokens messages in
      let best = longest_prefix messages (0, []) predecessors in
      if nat_beq total_msgs 0
      then segment unique 0 0 none ∷ []
      else if is_empty predecessors
      then segment unique total_msgs total_tokens none ∷ []
      else or_unique total_msgs total_tokens (
          shared_prefix total_tokens messages best
          ++ segments_from total_msgs cache call total_tokens predecessors best.0)
