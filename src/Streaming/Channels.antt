-- ===== src/Streaming/Channels.antt =====
-- `parse` as a whole: the channels of its result, and the raw content that it returns or raises with.
use inference_perf.Prelude.{
  ℕ, suc, ◌<◌, ◌≡◌, ◌⊎◌, refl, ap, sym, ◌∙◌, Option, none, some, List, [], ◌∷◌, ◌++◌, Result, ok,
  err, length, length-append, append_assoc, append-nil, take, arith, Bool-cases, inl, inr,
}
use inference_perf.Prelude.Text.{Text}
use inference_perf.Streaming.Framing.{Bytes, Frame, new_frame, take_chunk, take_chunks}
use inference_perf.Streaming.Invariants.{After, Result-cases, take_chunks-After}
use inference_perf.Streaming.Delivered.{process_data_payload-After}
use inference_perf.Streaming.Payload.{
  Library, Extractor, Seen, new_seen, read_clock, keep_usage, note_reasoning, note_chunk,
  process_data_payload, Interrupted, ParsedSseStream, joined, finish, parse,
}

module _ (S E : Type 0) (deliver : S → Bytes → Result E S) (clock : S → S) where
  -- The loop's result on these chunks.
  abbrev loop :
      Frame → S → (raw chunks : List Bytes) → Result (E × List Bytes) (Frame × S × List Bytes)
  loop = take_chunks S E deliver clock

  -- What the loop has kept of a stream: all chunks, or those up to and with the first one at which it
  -- raises, so that it raises the same where the stream ends there, and raises nothing on fewer.
  AllKept :
      Frame
      → S
      → (raw chunks : List Bytes) → Result (E × List Bytes) (Frame × S × List Bytes)
      → Type 0
  AllKept f s raw chunks (ok (_, _, kept)) = kept ≡ raw ++ chunks
  AllKept f s raw chunks (err (e, kept)) =
      (k : ℕ) × (k < length chunks)
      × (kept ≡ raw ++ take (suc k) chunks)
      × ((left : Frame × S × List Bytes) × (loop f s raw (take k chunks) ≡ ok left))
      × (loop f s raw (take (suc k) chunks) ≡ err (e, kept))

  -- One chunk further.
  later-AllKept :
      (f f' : Frame) (s s' : S) (raw : List Bytes) (chunk : Bytes) (chunks : List Bytes)
      (x : Result (E × List Bytes) (Frame × S × List Bytes))
      → ((more : List Bytes) → loop f s raw (chunk ∷ more) ≡ loop f' s' (raw ++ chunk ∷ []) more)
      → AllKept f' s' (raw ++ chunk ∷ []) chunks x
      → AllKept f s raw (chunk ∷ chunks) x
  unfolding AllKept
  later-AllKept f f' s s' raw chunk chunks (ok (_, _, kept)) same h =
      h ∙ append_assoc raw (chunk ∷ []) chunks
  later-AllKept f f' s s' raw chunk chunks (err (e, kept)) same (k, few, q, (left, fine), raises) =
      (
        suc k,
        omega arith,
        q ∙ append_assoc raw (chunk ∷ []) (take (suc k) chunks),
        (left, same (take k chunks) ∙ fine),
        same (take (suc k) chunks) ∙ raises,
      )

  AllKept-take_chunks :
      (f : Frame) (s : S) (raw chunks : List Bytes) → AllKept f s raw chunks (loop f s raw chunks)
  unfolding take_chunks AllKept
  AllKept-take_chunks f s raw [] = sym (append-nil raw)
  AllKept-take_chunks f s raw (chunk ∷ chunks) =
      let kept = raw ++ chunk ∷ [] in
      elim (Bool-cases f.done) [
        | inl ends ↦ simp ends (
            later-AllKept f f s s raw chunk chunks (loop f s kept chunks) (λ more. simp ends refl)
              (AllKept-take_chunks f s kept chunks))
        | inr goes_on ↦ elim (Result-cases (take_chunk S E deliver clock f (clock s) chunk)) [
          | inr (e, q) ↦ rw q (simp goes_on (0, omega arith, refl, ((f, s, raw), refl), rw q refl))
          | inl ((f', s'), q) ↦ rw q (
              simp goes_on (
                later-AllKept f f' s s' raw chunk chunks (loop f' s' kept chunks)
                  (λ more. rw q (simp goes_on refl)) (AllKept-take_chunks f' s' kept chunks)))
        ]
      ]

module _ (lib : Library) (extract_content : Extractor lib)
    (extract_reasoning : Option (Extractor lib)) where
  -- Each chunk that is recorded has a time, a text and its message, each in its channel.
  pub record InStep (s : Seen lib) : Type 0 where
    pub texts : length s.output_text_parts ≡ length s.chunk_times
    pub chunks : length s.response_chunks ≡ length s.chunk_times
    pub reasoning : length s.reasoning_chunks ≡ length s.reasoning_chunk_times

  note_chunk-InStep :
      (s : Seen lib) (content reasoning data_str : Text)
      → InStep s
      → InStep (note_chunk lib s content reasoning data_str)
  unfolding note_chunk
  note_chunk-InStep s [] [] m h = h
  note_chunk-InStep s [] (r ∷ rs) m h = record {
    texts = h.texts;
    chunks = h.chunks;
    reasoning = omega (
      arith,
      h.reasoning,
      length-append s.reasoning_chunks (m ∷ []),
      length-append s.reasoning_chunk_times (s.now ∷ []),
    );
  }
  note_chunk-InStep s (c ∷ cs) r m h = record {
    texts = omega (
      arith,
      h.texts,
      length-append s.output_text_parts ((c ∷ cs) ∷ []),
      length-append s.chunk_times (s.now ∷ []),
    );
    chunks = omega (
      arith,
      h.chunks,
      length-append s.response_chunks (m ∷ []),
      length-append s.chunk_times (s.now ∷ []),
    );
    reasoning = h.reasoning;
  }

  note_reasoning-InStep : (s : Seen lib) (r : Text) → InStep s → InStep (note_reasoning lib s r)
  unfolding note_reasoning
  note_reasoning-InStep s [] h = h
  note_reasoning-InStep s (r ∷ rs) h = record {
    texts = h.texts;
    chunks = h.chunks;
    reasoning = h.reasoning;
  }

  keep_usage-InStep :
      (s : Seen lib) (usage : Option (List (Text × lib.Json)))
      → InStep s
      → InStep (keep_usage lib s usage)
  unfolding keep_usage
  keep_usage-InStep s none h = h
  keep_usage-InStep s (some u) h = record {
    texts = h.texts;
    chunks = h.chunks;
    reasoning = h.reasoning;
  }

  abbrev Outcome : Type 0
  Outcome =
      Result (Interrupted lib extract_content extract_reasoning)
        (ParsedSseStream lib extract_content extract_reasoning)

  -- `parse` on a stream that comes to its end.
  abbrev parse_whole : List Bytes → Outcome
  parse_whole chunks = parse lib extract_content extract_reasoning chunks none

  -- The raw content of these chunks.
  abbrev raw_of : List Bytes → Text
  raw_of chunks = lib.decode (joined lib extract_content extract_reasoning chunks)

  -- The stream broke after chunks that are parsed without an error.
  pub record IsBroken (chunks : List Bytes) (broke : Option lib.Error)
      (i : Interrupted lib extract_content extract_reasoning) : Type 0 where
    pub cause : broke ≡ some i.original
    pub raw : i.raw_content ≡ raw_of chunks
    pub parsed_before :
        (p : ParsedSseStream lib extract_content extract_reasoning) × (parse_whole chunks ≡ ok p)

  -- The chunk after the first `count` raised: a stream of those is parsed without an error, and one
  -- that ends with that chunk gives the same error.
  pub record IsStopped (chunks : List Bytes) (i : Interrupted lib extract_content extract_reasoning)
      : Type 0 where
    pub count : ℕ
    pub has_next : count < length chunks
    pub raw : i.raw_content ≡ raw_of (take (suc count) chunks)
    pub parsed_before :
        (p : ParsedSseStream lib extract_content extract_reasoning) × (parse_whole
            (take count chunks)
          ≡ ok p)
    pub raises : parse_whole (take (suc count) chunks) ≡ err i

  -- What `parse` is to give back of the chunks that came before the stream ended or broke.
  unfoldable pub IsComplete : List Bytes → Option lib.Error → Outcome → Type 0
  IsComplete chunks broke (ok p) =
      (length p.response_chunks ≡ length p.chunk_times)
      × (length p.reasoning_chunks ≡ length p.reasoning_chunk_times)
      × (p.raw_content ≡ raw_of chunks)
  IsComplete chunks broke (err i) = IsBroken chunks broke i ⊎ IsStopped chunks i

  finish-IsComplete :
      (chunks : List Bytes) (broke : Option lib.Error)
      (x : Result (lib.Error × List Bytes) (Frame × Seen lib × List Bytes))
      → After (λ r. InStep r.1) x
      → take_chunks
          (Seen lib)
          lib.Error
          (process_data_payload lib extract_content extract_reasoning)
          (read_clock lib)
          new_frame
          (new_seen lib)
          []
          chunks
        ≡ x
      → AllKept
          (Seen lib)
          lib.Error
          (process_data_payload lib extract_content extract_reasoning)
          (read_clock lib)
          new_frame
          (new_seen lib)
          []
          chunks
          x
      → IsComplete chunks broke (finish lib extract_content extract_reasoning broke x)
  unfolding finish IsComplete AllKept parse
  finish-IsComplete chunks broke (err (e, raw)) h same (k, few, q, (left, fine), raises) =
      inr (record {
        count = k;
        has_next = few;
        raw = ap raw_of q;
        parsed_before = rw fine (_, refl);
        raises = rw raises refl;
      })
  finish-IsComplete chunks none (ok (f, s, raw)) h same q = (h.chunks, h.reasoning, ap raw_of q)
  finish-IsComplete chunks (some e) (ok (f, s, raw)) h same q =
      inl (record { cause = refl; raw = ap raw_of q; parsed_before = rw same (_, refl) })

  -- Whatever chunks come and whether or not the stream then breaks: if `parse` returns, each channel
  -- has as many messages as times and the raw content is that of all chunks. If it raises, either the
  -- stream broke with that error after all chunks, which are parsed without an error, and the raw
  -- content is that of all of them; or it is that of the chunks up to and with the first one at which
  -- the parser raises, before which a stream is parsed without an error.
  pub parse-IsComplete :
      (chunks : List Bytes) (broke : Option lib.Error)
      → IsComplete chunks broke (parse lib extract_content extract_reasoning chunks broke)
  unfolding parse read_clock
  parse-IsComplete chunks broke =
      finish-IsComplete chunks broke _
        (take_chunks-After (Seen lib) lib.Error
          (process_data_payload lib extract_content extract_reasoning) (read_clock lib) InStep
          (process_data_payload-After lib extract_content extract_reasoning InStep note_chunk-InStep
            note_reasoning-InStep keep_usage-InStep)
          (λ s h. record { texts = h.texts; chunks = h.chunks; reasoning = h.reasoning }) new_frame
          (new_seen lib) [] chunks (record { texts = refl; chunks = refl; reasoning = refl }))
        refl
        (AllKept-take_chunks (Seen lib) lib.Error
          (process_data_payload lib extract_content extract_reasoning) (read_clock lib) new_frame
          (new_seen lib) [] chunks)
