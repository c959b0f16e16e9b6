-- ===== src/Replay/Schedule/Limits.antt =====
-- The room that a recorded tool call is given.
use inference_perf.Prelude.{ℕ, ◌+◌, ◌≤◌, arith}
use inference_perf.Replay.Schedule.{expand_tool_call_max_tokens}

-- More recorded tokens never get less room, and the room is at least the recording and 4096 tokens,
-- and at most the recording and 7167 tokens more.
pub expand_tool_call_max_tokens_lem :
    (a b : ℕ)
    → a ≤ b
    → (expand_tool_call_max_tokens a ≤ expand_tool_call_max_tokens b)
      × (a ≤ expand_tool_call_max_tokens a)
      × (4096 ≤ expand_tool_call_max_tokens a)
      × (expand_tool_call_max_tokens a ≤ a + 7167)
unfolding expand_tool_call_max_tokens
expand_tool_call_max_tokens_lem a b h = (ground arith, ground arith, ground arith, ground arith)
