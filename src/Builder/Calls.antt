-- ===== src/Builder/Calls.antt =====
-- `RawCall` of datagen/replay/otel_trace_to_replay_graph.py, the messages of
-- datagen/replay/replay_graph_types.py, and the tests on the text of a message. A JSON value and a
-- float are parameters. The times of a call are counted from the earliest start in the trace. A part
-- holds the text that `parts_text` has for it at the same place.
use inference_perf.Prelude.{
  ℕ, ◌/◌, Bool, true, false, ◌&&◌, ◌||◌, Option, List, [], ◌∷◌, max, length, nat_beq,
}
use inference_perf.Prelude.Dict.{Dict}
use inference_perf.Prelude.Text.{Text, codes, text_beq}

pub record Part : Type 0 where
  pub type : Text
  pub id : Option Text
  pub name : Option Text
  pub text : Text

-- `function_name` is the name that a tool call has under "function".
pub record ToolCall : Type 0 where
  pub id : Option Text
  pub name : Option Text
  pub function_name : Option Text

-- What `message_info` has under "tool_calls" and under "parts".
pub record MessageInfo : Type 0 where
  pub tool_calls : Option (List ToolCall)
  pub parts : Option (List Part)

-- A `ComplexReplayMessage` is one with an info.
pub record Message : Type 0 where
  pub role : Text
  pub text : Text
  pub message_info : Option MessageInfo

module _ (Json Float : Type 0) where
  pub record RawCall : Type 0 where
    pub call_id : Text
    pub t_start_ms : ℕ
    pub t_end_ms : ℕ
    pub model : Text
    pub messages : List Message
    pub out_message : Option Message
    pub prompt_tokens : Option ℕ
    pub completion_tokens : Option ℕ
    pub temperature : Option Float
    pub max_tokens_recorded : Option ℕ
    pub tool_definitions : Option (List Json)
    pub extra_attributes : Dict Text Json
    pub session_id_suffix : Option Text

unfoldable pub estimate_tokens : Text → ℕ
estimate_tokens text = max 1 (length text / 4)

unfoldable pub message_tokens : Message → ℕ
message_tokens msg = estimate_tokens msg.text

unfoldable pub messages_equal : Message → Message → Bool
messages_equal a b = text_beq a.role b.role && text_beq a.text b.text

unfoldable pub starts_with : Text → Text → Bool
starts_with t [] = true
starts_with [] (c ∷ s) = false
starts_with (d ∷ t) (c ∷ s) = nat_beq d c && starts_with t s

-- `part in text` of two strings.
unfoldable pub is_within : Text → Text → Bool
is_within part [] = starts_with [] part
is_within part (c ∷ text) = starts_with (c ∷ text) part || is_within part text

unfoldable pub output_matches_message : Bool → Text → Message → Bool
output_matches_message allow_partial_match output_text msg =
    text_beq msg.role (codes "assistant")
    && (text_beq msg.text output_text || (allow_partial_match && is_within output_text msg.text))
