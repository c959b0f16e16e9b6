-- ===== src/Streaming/Delivered.antt =====
-- What a message leaves as it was, whatever it holds.
use inference_perf.Prelude.{
  ◌||◌, Option, none, some, List, Result, ok, err, Bool-cases, Option-cases, inl, inr,
}
use inference_perf.Prelude.Text.{Text, codes}
use inference_perf.Streaming.Framing.{Bytes}
use inference_perf.Streaming.Invariants.{After}
use inference_perf.Streaming.Payload.{
  Raised, json_decode_error, index_error, other, Library, Extractor, Seen, keep_usage, note_usage,
  usage_in, note_reasoning, note_chunk, catch, text_of, reasoning_of, with_content, with_reasoning,
  with_usage, process_json, process_data_payload, is_infix,
}

-- A property that each of the three ways to note something keeps.
module _ (lib : Library) (extract_content : Extractor lib)
    (extract_reasoning : Option (Extractor lib)) (P : Seen lib → Type 0)
    (chunk_noted : (s : Seen lib) (content reasoning data_str : Text)
      → P s
      → P (note_chunk lib s content reasoning data_str))
    (reasoning_noted : (s : Seen lib) (r : Text) → P s → P (note_reasoning lib s r))
    (kept : (s : Seen lib) (usage : Option (List (Text × lib.Json)))
      → P s
      → P (keep_usage lib s usage)) where
  catch-After : (s : Seen lib) (e : Raised lib.Error) → P s → After P (catch lib s e)
  unfolding catch
  catch-After s json_decode_error h = h
  catch-After s index_error h = h
  catch-After s (other e) h = tt

  note_usage-After :
      (m : Bytes) (json : lib.Json) (s : Seen lib) → P s → After P (note_usage lib m json s)
  unfolding note_usage
  note_usage-After m json s h =
      elim (Bool-cases (is_infix (codes "usage") m || is_infix (codes "message") m)) [
        | inr without ↦ rw without h
        | inl has_one ↦ elim (Option-cases (lib.as_dict json)) [
          | inl no_dict ↦ rw (has_one, no_dict) tt
          | inr (d, q) ↦ rw (has_one, q) (kept s (usage_in lib d) h)
        ]
      ]

  with_content-After :
      (r m : Text) (s : Seen lib) (x : Result (Raised lib.Error) (Option Text))
      → P s
      → After P (with_content lib extract_content extract_reasoning r m s x)
  unfolding with_content
  with_content-After r m s (err e) h = catch-After s e h
  with_content-After r m s (ok content) h = chunk_noted s (text_of lib content) r m h

  with_reasoning-After :
      (json : lib.Json) (m : Text) (s : Seen lib) (x : Result (Raised lib.Error) (Option Text))
      → P s
      → After P (with_reasoning lib extract_content extract_reasoning json m s x)
  unfolding with_reasoning
  with_reasoning-After json m s (err e) h = catch-After s e h
  with_reasoning-After json m s (ok r) h =
      with_content-After (text_of lib r) m (note_reasoning lib s (text_of lib r))
        (extract_content json) (reasoning_noted s (text_of lib r) h)

  -- An error of the usage leaves the state as it was before the message.
  with_usage-After :
      (json : lib.Json) (m : Text) (s : Seen lib) (x : Result (Raised lib.Error) (Seen lib))
      → P s
      → After P x
      → After P (with_usage lib extract_content extract_reasoning json m s x)
  unfolding with_usage
  with_usage-After json m s (err e) h k = catch-After s e h
  with_usage-After json m s (ok noted) h k =
      with_reasoning-After json m noted (reasoning_of lib extract_content extract_reasoning json) k

  process_json-After :
      (m : Bytes) (s : Seen lib) (data_str : Text) (x : Option lib.Json)
      → P s
      → After P (process_json lib extract_content extract_reasoning m s data_str x)
  unfolding process_json
  process_json-After m s data_str none h = h
  process_json-After m s data_str (some json) h =
      with_usage-After json data_str s (note_usage lib m json s) h (note_usage-After m json s h)

  -- A message that raises nothing keeps the property.
  pub process_data_payload-After :
      (s : Seen lib) (m : Bytes)
      → P s
      → After P (process_data_payload lib extract_content extract_reasoning s m)
  unfolding process_data_payload
  process_data_payload-After s m h =
      process_json-After m s (lib.decode m) (lib.loads (lib.decode m)) h
