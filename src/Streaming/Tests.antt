-- ===== src/Streaming/Tests.antt =====
-- A stream, and the theorems about the parser at it. The messages are read as they are: a JSON value
-- is its text.
use inference_perf.Prelude.{
  ℕ, ◌≡◌, refl, none, some, List, [], ◌∷◌, ◌++◌, Result, ok, length, arith,
}
use inference_perf.Prelude.Text.{Text, codes}
use inference_perf.Streaming.Framing.{Bytes, new_frame, scan}
use inference_perf.Streaming.Machine.{settle, steps}
use inference_perf.Streaming.Lines.{scan-steps}
use inference_perf.Streaming.Payload.{Library, Extractor, parse}
use inference_perf.Streaming.Channels.{IsComplete, parse-IsComplete}
use inference_perf.Streaming.Times.{merge, IsTimed, parse-IsTimed}

abbrev plain_texts : Library
plain_texts = record {
  Json = Text;
  Error = ℕ;
  decode = λ bytes. bytes;
  loads = λ text. some text;
  as_dict = λ json. none;
  attribute_error = 0;
  perf_counter = λ reads. reads;
}

abbrev whole_text : Extractor plain_texts
whole_text json = ok (some json)

-- One message in one chunk, one in two, and the end.
abbrev chunks : List Bytes
chunks =
    codes "data: one\n\n" ∷ codes "data: t" ∷ codes "wo\r\n\r\n" ∷ codes "data: [DONE]\n\n" ∷ []

parse-IsComplete_example :
    IsComplete plain_texts whole_text none chunks none
      (parse plain_texts whole_text none chunks none)
parse-IsComplete_example = parse-IsComplete plain_texts whole_text none chunks none

parse-IsTimed_example :
    IsTimed plain_texts whole_text none (parse plain_texts whole_text none chunks none)
parse-IsTimed_example = parse-IsTimed plain_texts whole_text none (λ n. omega arith) chunks none

merged : merge (1 ∷ 4 ∷ 4 ∷ []) (2 ∷ 4 ∷ 9 ∷ []) ≡ 1 ∷ 2 ∷ 4 ∷ 4 ∷ 4 ∷ 9 ∷ []
unfolding merge
merged = refl

-- The messages are collected.
abbrev collect : List Bytes → Bytes → Result ℕ (List Bytes)
collect seen m = ok (seen ++ m ∷ [])

abbrev two_lines : Bytes
two_lines = codes "data: a\r\ndata: b\n\nda"

scan-steps_example :
    settle
      (List Bytes)
      ℕ
      collect
      (scan (List Bytes) ℕ collect (λ x. x) (length two_lines) new_frame [] two_lines)
    ≡ settle
        (List Bytes)
        ℕ
        collect
        (steps (List Bytes) ℕ collect (record new_frame { buffer = [] }) [] two_lines)
scan-steps_example =
    scan-steps (List Bytes) ℕ collect (length two_lines) new_frame [] two_lines refl refl
      (omega arith)
