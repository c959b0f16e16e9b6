-- ===== src/Streaming/Times.antt =====
-- `ParsedSSEStream.generated_chunk_times`: the times of both channels, merged by `heapq.merge`.
use inference_perf.Prelude.{
  ℕ, suc, true, false, ◌+◌, ◌≤◌, ◌≡◌, Option, none, some, List, [], ◌∷◌, ◌++◌, Result, ok, err,
  length, leb, arith, Bool-cases, inl, inr,
}
use inference_perf.Prelude.Text.{Text}
use inference_perf.Streaming.Framing.{Bytes, Frame, new_frame}
use inference_perf.Streaming.Invariants.{After, take_chunks-After}
use inference_perf.Streaming.Channels.{IsComplete, parse-IsComplete}
use inference_perf.Streaming.Delivered.{process_data_payload-After}
use inference_perf.Streaming.Payload.{
  Library, Extractor, Seen, new_seen, read_clock, keep_usage, note_reasoning, note_chunk,
  process_data_payload, Interrupted, ParsedSseStream, finish, parse,
}

-- `heapq.merge` of two lists: of two heads that are equal, that of the first list comes first.
unfoldable pub merge : List ℕ → List ℕ → List ℕ
merge times [] = times
merge [] (u ∷ others) = u ∷ others
merge (t ∷ times) (u ∷ others) = elim (leb t u) [
  | true ↦ t ∷ merge times (u ∷ others)
  | false ↦ u ∷ merge (t ∷ times) others
]

-- The numbers do not decrease, from a lower to an upper bound.
abbrev pub Rises : ℕ → List ℕ → ℕ → Type 0
Rises low [] high = low ≤ high
Rises low (x ∷ xs) high = (low ≤ x) × Rises x xs high

Rises-snoc : (low high : ℕ) (xs : List ℕ) → Rises low xs high → Rises low (xs ++ high ∷ []) high
Rises-snoc low high [] h = (h, omega arith)
Rises-snoc low high (x ∷ xs) (h, rest) = (h, Rises-snoc x high xs rest)

Rises-later :
    (low high later : ℕ) (xs : List ℕ) → high ≤ later → Rises low xs high → Rises low xs later
Rises-later low high later [] le h = omega arith
Rises-later low high later (x ∷ xs) le (h, rest) = (h, Rises-later x high later xs le rest)

Rises-merge :
    (low high : ℕ) (xs ys : List ℕ)
    → Rises low xs high
    → Rises low ys high
    → Rises low (merge xs ys) high
unfolding merge
Rises-merge low high times [] h k = h
Rises-merge low high [] (u ∷ others) h k = k
Rises-merge low high (t ∷ times) (u ∷ others) (h, rest) (k, more) = elim (Bool-cases (leb t u)) [
  | inr later ↦
      rw (merge, later) (k, Rises-merge u high (t ∷ times) others (ground arith, rest) more)
  | inl first ↦
      rw (merge, first) (h, Rises-merge t high times (u ∷ others) rest (ground arith, more))
]

-- One time for each of both lists.
length-merge : (times others : List ℕ) → length (merge times others) ≡ length times + length others
unfolding merge
length-merge times [] = omega arith
length-merge [] (u ∷ others) = omega arith
length-merge (t ∷ times) (u ∷ others) = elim (Bool-cases (leb t u)) [
  | inr later ↦ let rest = length-merge (t ∷ times) others in rw (merge, later) (omega arith)
  | inl first ↦ let rest = length-merge times (u ∷ others) in rw (merge, first) (omega arith)
]

module _ (lib : Library) (extract_content : Extractor lib)
    (extract_reasoning : Option (Extractor lib)) where
  unfoldable pub generated_chunk_times :
      ParsedSseStream lib extract_content extract_reasoning → List ℕ
  unfolding merge
  generated_chunk_times p = merge p.chunk_times p.reasoning_chunk_times

  -- The times of each channel rise up to the last reading of the clock, which is not ahead of the next.
  record InOrder (s : Seen lib) : Type 0 where
    chunks : Rises 0 s.chunk_times s.now
    reasoning : Rises 0 s.reasoning_chunk_times s.now
    clock : s.now ≤ lib.perf_counter s.reads

  note_chunk-InOrder :
      (s : Seen lib) (content reasoning data_str : Text)
      → InOrder s
      → InOrder (note_chunk lib s content reasoning data_str)
  unfolding note_chunk
  note_chunk-InOrder s [] [] m h = h
  note_chunk-InOrder s [] (r ∷ rs) m h = record {
    chunks = h.chunks;
    reasoning = Rises-snoc 0 s.now s.reasoning_chunk_times h.reasoning;
    clock = h.clock;
  }
  note_chunk-InOrder s (c ∷ cs) r m h = record {
    chunks = Rises-snoc 0 s.now s.chunk_times h.chunks;
    reasoning = h.reasoning;
    clock = h.clock;
  }

  note_reasoning-InOrder : (s : Seen lib) (r : Text) → InOrder s → InOrder (note_reasoning lib s r)
  unfolding note_reasoning
  note_reasoning-InOrder s [] h = h
  note_reasoning-InOrder s (r ∷ rs) h = record {
    chunks = h.chunks;
    reasoning = h.reasoning;
    clock = h.clock;
  }

  keep_usage-InOrder :
      (s : Seen lib) (usage : Option (List (Text × lib.Json)))
      → InOrder s
      → InOrder (keep_usage lib s usage)
  unfolding keep_usage
  keep_usage-InOrder s none h = h
  keep_usage-InOrder s (some u) h = record {
    chunks = h.chunks;
    reasoning = h.reasoning;
    clock = h.clock;
  }

  read_clock-InOrder :
      ((n : ℕ) → lib.perf_counter n ≤ lib.perf_counter (suc n))
      → (s : Seen lib) → InOrder s
      → InOrder (read_clock lib s)
  unfolding read_clock
  read_clock-InOrder forward s h = record {
    chunks = Rises-later 0 s.now (lib.perf_counter s.reads) s.chunk_times h.clock h.chunks;
    reasoning =
        Rises-later 0 s.now (lib.perf_counter s.reads) s.reasoning_chunk_times h.clock h.reasoning;
    clock = forward s.reads;
  }

  -- The times of a result rise, and there is one for each message of either channel.
  pub IsTimed :
      Result
        (Interrupted lib extract_content extract_reasoning)
        (ParsedSseStream lib extract_content extract_reasoning)
      → Type 0
  IsTimed (err i) = Unit
  IsTimed (ok p) =
      ((last : ℕ) × Rises 0 (generated_chunk_times p) last)
      × (length (generated_chunk_times p) ≡ length p.response_chunks + length p.reasoning_chunks)

  finish-IsTimed :
      (chunks : List Bytes) (broke : Option lib.Error)
      (x : Result (lib.Error × List Bytes) (Frame × Seen lib × List Bytes))
      → After (λ r. InOrder r.1) x
      → IsComplete lib extract_content extract_reasoning chunks broke
          (finish lib extract_content extract_reasoning broke x)
      → IsTimed (finish lib extract_content extract_reasoning broke x)
  unfolding finish IsTimed IsComplete generated_chunk_times
  finish-IsTimed chunks broke (err (e, raw)) h complete = tt
  finish-IsTimed chunks (some e) (ok (f, s, raw)) h complete = tt
  finish-IsTimed chunks none (ok (f, s, raw)) h (content, reasoning, raw_content) =
      let whole = length-merge s.chunk_times s.reasoning_chunk_times in
      (
        (s.now, Rises-merge 0 s.now s.chunk_times s.reasoning_chunk_times h.chunks h.reasoning),
        omega arith,
      )

  -- Whatever chunks come: with a clock that never goes back, the generated chunk times of what `parse`
  -- returns do not decrease, and are as many as the messages of both channels together.
  pub parse-IsTimed :
      ((n : ℕ) → lib.perf_counter n ≤ lib.perf_counter (suc n))
      → (chunks : List Bytes) (broke : Option lib.Error)
      → IsTimed (parse lib extract_content extract_reasoning chunks broke)
  unfolding parse
  parse-IsTimed forward chunks broke =
      finish-IsTimed chunks broke _
        (take_chunks-After (Seen lib) lib.Error
          (process_data_payload lib extract_content extract_reasoning) (read_clock lib) InOrder
          (process_data_payload-After lib extract_content extract_reasoning InOrder
            note_chunk-InOrder note_reasoning-InOrder keep_usage-InOrder)
          (read_clock-InOrder forward) new_frame (new_seen lib) [] chunks
          (record { chunks = omega arith; reasoning = omega arith; clock = omega arith }))
        (parse-IsComplete lib extract_content extract_reasoning chunks broke)
