-- ===== src/Builder/Segments/Cover.antt =====
-- The segments of a call cover its messages, each one once and in order.
use inference_perf.Prelude.{
  ℕ, zero, suc, ◌+◌, ◌≤◌, ◌<◌, ◌≡◌, refl, inl, inr, Option, none, some, List, [], ◌∷◌, ◌++◌, map,
  length, drop, sum, length-drop, ltb, arith, Bool-cases, Option-cases,
}
use inference_perf.Prelude.Text.{Text}
use inference_perf.Builder.Calls.{Message, RawCall}
use inference_perf.Builder.Causal.{OutputMatches, matches_of}
use inference_perf.Replay.Graph.{InputSegment, output}
use inference_perf.Builder.Segments.{
  tokens_of, common_prefix, first_injected, first_cached, nearer, match_of, next_output,
  longest_prefix, segment, gap, segments_from, shared_prefix, or_unique, decompose_input,
  output_tokens,
}

-- How many messages the segments cover.
abbrev pub message_counts : List InputSegment → ℕ
message_counts segments = sum (map (λ s. s.message_count) segments)

sum-append : (xs ys : List ℕ) → sum (xs ++ ys) ≡ sum xs + sum ys
sum-append [] ys = omega arith
sum-append (x ∷ xs) ys = omega (arith, sum-append xs ys)

message_counts-append :
    (xs ys : List InputSegment) → message_counts (xs ++ ys) ≡ message_counts xs + message_counts ys
message_counts-append [] ys = omega arith
message_counts-append (x ∷ xs) ys = omega (arith, message_counts-append xs ys)

first_injected-bounds :
    (out : Message) (i : ℕ) (messages : List Message) (j : ℕ)
    → first_injected out i messages ≡ some j
    → (i ≤ j) × (j < i + length messages)
unfolding first_injected
first_injected-bounds out i [] j e = cc
first_injected-bounds out i (msg ∷ messages) j e =
    ground (arith, first_injected-bounds out (suc i) messages j)

first_cached-bounds :
    (cursor total : ℕ) (indices : List ℕ) (j : ℕ)
    → first_cached cursor total indices ≡ some j
    → (cursor ≤ j) × (j < total)
unfolding first_cached
first_cached-bounds cursor total [] j e = cc
first_cached-bounds cursor total (i ∷ indices) j e =
    ground (arith, first_cached-bounds cursor total indices j)

common_prefix-le : (xs ys : List Message) → common_prefix xs ys ≤ length xs
unfolding common_prefix
common_prefix-le [] ys = omega arith
common_prefix-le (x ∷ xs) [] = omega arith
common_prefix-le (x ∷ xs) (y ∷ ys) = ground (arith, common_prefix-le xs ys)

module _ (Json Float : Type 0) (share : ℕ → ℕ → ℕ → ℕ) where
  longest_prefix-le :
      (messages : List Message) (best : ℕ × Text) (preds : List (RawCall Json Float × Text))
      → best.0 ≤ length messages
      → (longest_prefix Json Float share messages best preds).0 ≤ length messages
  unfolding longest_prefix
  longest_prefix-le messages best [] h = h
  longest_prefix-le messages (count, id) ((pred, pred_id) ∷ preds) h = ground (
    arith,
    common_prefix-le messages pred.messages,
    longest_prefix-le messages (common_prefix messages pred.messages, pred_id) preds,
    longest_prefix-le messages (count, id) preds,
  )

  -- A match lies from the cursor on.
  abbrev IsWithin : RawCall Json Float → ℕ → Option ℕ → Type 0
  IsWithin call cursor o = (i : ℕ) → o ≡ some i → (cursor ≤ i) × (i < length call.messages)

  match_of-IsWithin :
      (cache : OutputMatches) (call : RawCall Json Float) (cursor : ℕ) (pred : RawCall Json Float)
      → cursor < length call.messages
      → IsWithin call cursor (match_of Json Float share cache call cursor pred)
  unfolding match_of
  match_of-IsWithin cache call cursor pred h i e = elim (Option-cases pred.out_message) [
    | inl o ↦ let e' = rw (o, match_of) at e in cc
    | inr (out, o) ↦ elim (Option-cases (matches_of cache (pred.call_id, call.call_id))) [
      | inl m ↦
          let e' : first_injected out cursor (drop cursor call.messages) ≡ some i =
            rw (o, m, match_of) at e in
          omega (
            arith,
            first_injected-bounds out cursor (drop cursor call.messages) i e',
            length-drop cursor call.messages,
          )
      | inr (indices, m) ↦
          let e' : first_cached cursor (length call.messages) indices ≡ some i =
            rw (o, m, match_of) at e in
          first_cached-bounds cursor (length call.messages) indices i e'
    ]
  ]

  abbrev IsPlace : RawCall Json Float → ℕ → Option (ℕ × RawCall Json Float × Text) → Type 0
  IsPlace call cursor none = Unit
  IsPlace call cursor (some (i, pred, id)) = (cursor ≤ i) × (i < length call.messages)

  nearer-IsPlace :
      (call : RawCall Json Float) (cursor : ℕ) (best : Option (ℕ × RawCall Json Float × Text))
      (pred : RawCall Json Float × Text) (o : Option ℕ)
      → IsPlace call cursor best
      → IsWithin call cursor o
      → IsPlace call cursor (nearer Json Float share best pred o)
  unfolding nearer
  nearer-IsPlace call cursor best pred none h p = h
  nearer-IsPlace call cursor none (pred, id) (some i) h p = p i refl
  nearer-IsPlace call cursor (some (j, old, old_id)) (pred, id) (some i) h p =
      elim (Bool-cases (ltb i j)) [ inl e ↦ rw e (p i refl) | inr e ↦ rw e h ]

  next_output-IsPlace :
      (cache : OutputMatches) (call : RawCall Json Float) (cursor : ℕ)
      (best : Option (ℕ × RawCall Json Float × Text)) (preds : List (RawCall Json Float × Text))
      → cursor < length call.messages
      → IsPlace call cursor best
      → IsPlace call cursor (next_output Json Float share cache call cursor best preds)
  unfolding next_output
  next_output-IsPlace cache call cursor best [] lt h = h
  next_output-IsPlace cache call cursor best (pred ∷ preds) lt h =
      next_output-IsPlace cache call cursor
        (nearer Json Float share best pred (match_of Json Float share cache call cursor pred.0))
        preds lt
        (nearer-IsPlace call cursor best pred _ h (match_of-IsWithin cache call cursor pred.0 lt))

  gap-counts :
      (total : ℕ) (messages : List Message) (cursor i : ℕ)
      → cursor ≤ i
      → cursor + message_counts (gap Json Float share total messages cursor i) ≡ i
  unfolding gap segment
  gap-counts total messages cursor i h = ground arith

  segments_from-counts :
      (fuel : ℕ) (cache : OutputMatches) (call : RawCall Json Float) (total : ℕ)
      (preds : List (RawCall Json Float × Text)) (cursor : ℕ)
      → cursor ≤ length call.messages
      → length call.messages ≤ fuel + cursor
      → cursor + message_counts (segments_from Json Float share fuel cache call total preds cursor)
        ≡ length call.messages
  unfolding segments_from segment
  segments_from-counts zero cache call total preds cursor h k = omega arith
  segments_from-counts (suc fuel) cache call total preds cursor h k =
      elim (Bool-cases (ltb cursor (length call.messages))) [
        | inr end ↦ rw (end, segments_from) (ground arith)
        | inl more ↦
            let lt : cursor < length call.messages = ground arith in
            let place = next_output-IsPlace cache call cursor none preds lt tt in
            elim (Option-cases (next_output Json Float share cache call cursor none preds)) [
              | inl e ↦
                  rw (more, segments_from, e)
                    (gap-counts total call.messages cursor (length call.messages) h)
              | inr ((i, pred, id), e) ↦
                  let (le, lt') = rw (e, IsPlace) at place in
                  let out =
                    segment Json Float share output 1
                      (output_tokens Json Float share total call.messages i pred) (some id) in
                  let before = gap Json Float share total call.messages cursor i in
                  let after = segments_from Json Float share fuel cache call total preds (suc i) in
                  rw (more, segments_from, e)
                    (omega (
                      arith,
                      message_counts-append before (out ∷ after),
                      gap-counts total call.messages cursor i le,
                      segments_from-counts fuel cache call total preds (suc i) (omega arith)
                          (omega arith),
                    ))
            ]
      ]

  shared_prefix-counts :
      (total : ℕ) (messages : List Message) (best : ℕ × Text)
      → message_counts (shared_prefix Json Float share total messages best) ≡ best.0
  unfolding shared_prefix segment
  shared_prefix-counts total messages (zero, id) = refl
  shared_prefix-counts total messages (suc n, id) = omega arith

  or_unique-counts :
      (total_msgs tokens : ℕ) (segments : List InputSegment)
      → message_counts segments ≡ total_msgs
      → message_counts (or_unique Json Float share total_msgs tokens segments) ≡ total_msgs
  unfolding or_unique segment
  or_unique-counts total_msgs tokens [] h = omega arith
  or_unique-counts total_msgs tokens (s ∷ segments) h = h

  -- The segments of a call cover its messages: whatever the predecessors, and the matches in the
  -- cache, the counts of the segments add up to the number of messages of the call.
  pub message_counts-decompose_input :
      (call : RawCall Json Float) (predecessors : List (RawCall Json Float × Text))
      (cache : OutputMatches)
      → message_counts (decompose_input Json Float share call predecessors cache)
        ≡ length call.messages
  unfolding decompose_input segment
  message_counts-decompose_input call predecessors cache =
      let messages = call.messages in
      let tokens = tokens_of call.prompt_tokens messages in
      let best = longest_prefix Json Float share messages (0, []) predecessors in
      let within = longest_prefix-le messages (0, []) predecessors (omega arith) in
      let before = shared_prefix Json Float share tokens messages best in
      let after =
        segments_from Json Float share (length messages) cache call tokens predecessors best.0 in
      let all = or_unique-counts (length messages) tokens (before ++ after) (
        omega (
          arith,
          message_counts-append before after,
          shared_prefix-counts tokens messages best,
          segments_from-counts (length messages) cache call tokens predecessors best.0 within
              (omega arith),
        )) in
      ground (arith, all)
