-- ===== src/Streaming/Payload.antt =====
-- What `_SSEStreamParser` does with a message, and the whole of `parse`. Parameters: texts and JSON
-- values with their decoder and parser, the clock, and the two functions that read a text off a JSON
-- value, which may raise. The dictionaries are those of `json.loads`.
use inference_perf.Prelude.{
  ℕ, suc, Bool, ◌||◌, not, Option, none, some, List, [], ◌∷◌, ◌++◌, Result, ok, err, is_empty,
  if◌then◌else◌,
}
use inference_perf.Prelude.Dict
use inference_perf.Prelude.Dict.{Dict}
use inference_perf.Prelude.Text.{Text, code_points_key, codes}
use inference_perf.Streaming.Framing.{Bytes, Frame, new_frame, starts_with, take_chunks}

-- What handling a message may raise: `parse` catches the first two.
pub data Raised (E : Type 0) : Type 0 where
  json_decode_error index_error : Raised E
  other : E → Raised E

pub record Library : Type 1 where
  pub Json : Type 0
  pub Error : Type 0
  -- `data_bytes.decode("utf-8", errors="ignore")`.
  pub decode : Bytes → Text
  -- `none` is JSONDecodeError.
  pub loads : Text → Option Json
  -- `none` where the value is no dictionary.
  pub as_dict : Json → Option (Dict Text Json)
  -- What `get` raises on a value that is no dictionary.
  pub attribute_error : Error
  pub perf_counter : ℕ → ℕ

unfoldable pub is_infix : Bytes → Bytes → Bool
is_infix p [] = is_empty p
is_infix p (c ∷ t) = starts_with (c ∷ t) p || is_infix p t

module _ (lib : Library) where
  abbrev pub Extractor : Type 0
  Extractor = lib.Json → Result (Raised lib.Error) (Option Text)

  -- `self`, without the frame. `now` is `message_time`, `reads` counts the readings of the clock.
  pub record Seen : Type 0 where
    pub output_text_parts : List Text
    pub chunk_times : List ℕ
    pub response_chunks : List Text
    pub server_usage : Option (Dict Text lib.Json)
    pub reasoning_text_parts : List Text
    pub reasoning_chunks : List Text
    pub reasoning_chunk_times : List ℕ
    pub now : ℕ
    pub reads : ℕ

  abbrev pub new_seen : Seen
  new_seen = record {
    output_text_parts = [];
    chunk_times = [];
    response_chunks = [];
    server_usage = none;
    reasoning_text_parts = [];
    reasoning_chunks = [];
    reasoning_chunk_times = [];
    now = 0;
    reads = 0;
  }

  unfoldable pub read_clock : Seen → Seen
  read_clock s = record s { now = lib.perf_counter s.reads; reads = suc s.reads }

  unfoldable pub update : Dict Text lib.Json → Dict Text lib.Json → Dict Text lib.Json
  update d [] = d
  update d ((k, v) ∷ more) = update (Dict.put d k v) more

  unfoldable pub merge_usage : Option (Dict Text lib.Json) → Dict Text lib.Json → Dict Text lib.Json
  unfolding update
  merge_usage none usage = usage
  merge_usage (some old) usage = update old usage

  -- The dictionary under a key, if there is one.
  unfoldable pub dict_at : Dict Text lib.Json → Text → Option (Dict Text lib.Json)
  dict_at d key = elim (Dict.get d key) [ none ↦ none | some v ↦ lib.as_dict v ]

  unfoldable pub usage_in : Dict Text lib.Json → Option (Dict Text lib.Json)
  unfolding dict_at
  usage_in d = elim (dict_at d (codes "usage")) [
    | some usage ↦ some usage
    | none ↦ elim (dict_at d (codes "message")) [
      | none ↦ none
      | some message ↦ dict_at message (codes "usage")
    ]
  ]

  unfoldable pub keep_usage : Seen → Option (Dict Text lib.Json) → Seen
  unfolding merge_usage
  keep_usage s none = s
  keep_usage s (some usage) = record s { server_usage = some (merge_usage s.server_usage usage) }

  unfoldable pub note_usage : Bytes → lib.Json → Seen → Result (Raised lib.Error) Seen
  unfolding is_infix usage_in keep_usage
  note_usage data_bytes json s =
      if is_infix (codes "usage") data_bytes || is_infix (codes "message") data_bytes
      then elim (lib.as_dict json) [
        | none ↦ err (other lib.attribute_error)
        | some d ↦ ok (keep_usage s (usage_in d))
      ]
      else ok s

  -- An empty text counts as none.
  abbrev pub text_of : Option Text → Text
  text_of none = []
  text_of (some t) = t

  unfoldable pub note_reasoning : Seen → Text → Seen
  note_reasoning s reasoning =
      if is_empty reasoning
      then s
      else record s { reasoning_text_parts = s.reasoning_text_parts ++ reasoning ∷ [] }

  unfoldable pub note_chunk : Seen → (content reasoning data_str : Text) → Seen
  note_chunk s content reasoning data_str =
      if not (is_empty content)
      then record s {
        output_text_parts = s.output_text_parts ++ content ∷ [];
        chunk_times = s.chunk_times ++ s.now ∷ [];
        response_chunks = s.response_chunks ++ data_str ∷ [];
      }
      else if not (is_empty reasoning)
      then record s {
        reasoning_chunk_times = s.reasoning_chunk_times ++ s.now ∷ [];
        reasoning_chunks = s.reasoning_chunks ++ data_str ∷ [];
      }
      else s

  -- `except (json.JSONDecodeError, IndexError): pass`, with what had been noted before.
  unfoldable pub catch : Seen → Raised lib.Error → Result lib.Error Seen
  catch s json_decode_error = ok s
  catch s index_error = ok s
  catch s (other e) = err e

  module _ (extract_content : Extractor) (extract_reasoning : Option Extractor) where
    unfoldable pub reasoning_of : lib.Json → Result (Raised lib.Error) (Option Text)
    reasoning_of json = elim extract_reasoning [ none ↦ ok none | some extract ↦ extract json ]

    -- What follows `extract_content`, `extract_reasoning` and the usage, from what each has given.
    unfoldable pub with_content :
        (reasoning data_str : Text)
        → Seen
        → Result (Raised lib.Error) (Option Text)
        → Result lib.Error Seen
    unfolding note_chunk catch
    with_content reasoning data_str s (err e) = catch s e
    with_content reasoning data_str s (ok content) =
        ok (note_chunk s (text_of content) reasoning data_str)

    unfoldable pub with_reasoning :
        lib.Json
        → (data_str : Text) → Seen
        → Result (Raised lib.Error) (Option Text)
        → Result lib.Error Seen
    unfolding with_content note_reasoning catch
    with_reasoning json data_str s (err e) = catch s e
    with_reasoning json data_str s (ok reasoning) =
        with_content (text_of reasoning) data_str (note_reasoning s (text_of reasoning))
          (extract_content json)

    unfoldable pub with_usage :
        lib.Json → (data_str : Text) → Seen → Result (Raised lib.Error) Seen → Result lib.Error Seen
    unfolding reasoning_of with_reasoning catch
    with_usage json data_str s (err e) = catch s e
    with_usage json data_str s (ok noted) = with_reasoning json data_str noted (reasoning_of json)

    unfoldable pub process_json :
        Bytes → Seen → (data_str : Text) → Option lib.Json → Result lib.Error Seen
    unfolding note_usage with_usage
    process_json data_bytes s data_str none = ok s
    process_json data_bytes s data_str (some json) =
        with_usage json data_str s (note_usage data_bytes json s)

    unfoldable pub process_data_payload : Seen → Bytes → Result lib.Error Seen
    unfolding process_json
    process_data_payload s data_bytes =
        process_json data_bytes s (lib.decode data_bytes) (lib.loads (lib.decode data_bytes))

    -- `StreamInterruptedError`: what was raised, and what had come by then.
    pub record Interrupted : Type 0 where
      pub original : lib.Error
      pub raw_content : Text

    pub record ParsedSseStream : Type 0 where
      pub output_text : Text
      pub chunk_times : List ℕ
      pub raw_content : Text
      pub response_chunks : List Text
      pub server_usage : Option (Dict Text lib.Json)
      pub reasoning_text : Text
      pub reasoning_chunks : List Text
      pub reasoning_chunk_times : List ℕ

    abbrev pub joined : List Text → Text
    joined [] = []
    joined (t ∷ ts) = t ++ joined ts

    unfoldable pub parsed : Seen → List Bytes → ParsedSseStream
    parsed s raw = record {
      output_text = joined s.output_text_parts;
      chunk_times = s.chunk_times;
      raw_content = lib.decode (joined raw);
      response_chunks = s.response_chunks;
      server_usage = s.server_usage;
      reasoning_text = joined s.reasoning_text_parts;
      reasoning_chunks = s.reasoning_chunks;
      reasoning_chunk_times = s.reasoning_chunk_times;
    }

    unfoldable pub interrupted : lib.Error → List Bytes → Interrupted
    interrupted e raw = record { original = e; raw_content = lib.decode (joined raw) }

    -- The end of `parse`, from what the loop has left and the error with which the stream broke.
    unfoldable pub finish :
        Option lib.Error
        → Result (lib.Error × List Bytes) (Frame × Seen × List Bytes)
        → Result Interrupted ParsedSseStream
    unfolding parsed interrupted
    finish broke (err (e, raw)) = err (interrupted e raw)
    finish none (ok (f, s, raw)) = ok (parsed s raw)
    finish (some e) (ok (f, s, raw)) = err (interrupted e raw)

    -- The chunks that come, and the error with which the stream breaks after them, if it does.
    unfoldable pub parse : List Bytes → Option lib.Error → Result Interrupted ParsedSseStream
    unfolding finish process_data_payload take_chunks
    parse chunks broke =
        finish broke
          (take_chunks Seen lib.Error process_data_payload read_clock new_frame new_seen [] chunks)
