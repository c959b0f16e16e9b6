-- ===== src/Builder/Causal.antt =====
-- The causal dependency of one call on another, in datagen/replay/otel_trace_to_replay_graph.py:
-- `get_causal_dep`, `_try_match_tool_call_ids`, `_try_match_parts` and `_extract_tool_call_ids`.
use inference_perf.Prelude.{
  ℕ, suc, ◌+◌, Bool, true, false, ◌&&◌, ◌||◌, not, Option, none, some, List, [], ◌∷◌, ◌++◌, length,
  ltb, get_elem?, map, is_empty, any, filter, if◌then◌else◌,
}
use inference_perf.Prelude.Dict
use inference_perf.Prelude.Dict.{Dict}
use inference_perf.Prelude.Text.{Text, codes, text_beq, code_points_key}
use inference_perf.Builder.Calls.{Part, MessageInfo, Message, RawCall, output_matches_message}

pub data DependencyType : Type 0 where
  causal_full_match causal_tool_call_ids_matched causal_split_parts_matched : DependencyType
  causal_content_and_split_tools_match causal_drop_content_split_parts temporal : DependencyType

-- `output_matches_for_substitutions`, by the ids of the predecessor and of the current call.
abbrev pub OutputMatches : Type 0
OutputMatches = List ((Text × Text) × List ℕ)

unfoldable pub pair_beq : Text × Text → Text × Text → Bool
pair_beq (a, b) (c, d) = text_beq a c && text_beq b d

unfoldable pub matches_of : OutputMatches → Text × Text → Option (List ℕ)
matches_of [] key = none
matches_of ((k, indices) ∷ rest) key =
    let found = matches_of rest key in if pair_beq k key then some indices else found

unfoldable pub note_match : OutputMatches → Text × Text → ℕ → OutputMatches
note_match [] key i = (key, i ∷ []) ∷ []
note_match ((k, indices) ∷ rest) key i =
    let noted = note_match rest key i in
    if pair_beq k key then (k, indices ++ i ∷ []) ∷ rest else (k, indices) ∷ noted

unfoldable pub is_tool_call : Part → Bool
is_tool_call p = text_beq p.type (codes "tool_call")

-- The ids that are there and not empty.
unfoldable pub present : List (Option Text) → List Text
present [] = []
present (none ∷ ids) = present ids
present (some [] ∷ ids) = present ids
present (some (c ∷ id) ∷ ids) = (c ∷ id) ∷ present ids

unfoldable pub part_ids : List Part → List (Option Text)
part_ids [] = []
part_ids (p ∷ parts) = let rest = part_ids parts in if is_tool_call p then p.id ∷ rest else rest

unfoldable pub ids_in : Option MessageInfo → List Text
ids_in none = []
ids_in (some info) = elim info.tool_calls [
  | some calls ↦ present (map (λ c. c.id) calls)
  | none ↦ elim info.parts [ none ↦ [] | some parts ↦ present (part_ids parts) ]
]

unfoldable pub extract_tool_call_ids : Message → List Text
extract_tool_call_ids msg = ids_in msg.message_info

unfoldable pub all_tool_call_ids : List Message → List Text
all_tool_call_ids [] = []
all_tool_call_ids (msg ∷ messages) = extract_tool_call_ids msg ++ all_tool_call_ids messages

-- `a <= b` of two sets.
unfoldable pub is_subset : List Text → List Text → Bool
is_subset [] b = true
is_subset (x ∷ a) b = Dict.contains b x && is_subset a b

-- The ids of the tool calls among the parts, if each of them has one.
unfoldable pub every_id : List (Option Text) → Option (List Text)
every_id [] = some []
every_id (none ∷ ids) = none
every_id (some id ∷ ids) = elim (every_id ids) [ none ↦ none | some rest ↦ some (id ∷ rest) ]

unfoldable pub try_match_tool_call_ids : List Part → List Message → Bool
try_match_tool_call_ids a_parts b_messages =
    let ids = part_ids a_parts in
    if is_empty ids then false else elim (every_id ids) [
      | none ↦ false
      | some tool_call_ids ↦ is_subset tool_call_ids (all_tool_call_ids b_messages)
    ]

-- The text that is looked for: the content, if it is combined, in front of the part's.
unfoldable pub text_to_match : Option Text → Part → Text
text_to_match none p = p.text
text_to_match (some content) p = content ++ codes "\n" ++ p.text

unfoldable pub step_of : Option Text → Part → ℕ
step_of (some content) p = 2
step_of none p = if is_tool_call p then 2 else 1

unfoldable pub rest_matches : List Message → Option Text → (i offset : ℕ) → List Part → Bool
rest_matches messages content i offset [] = true
rest_matches messages content i offset (p ∷ parts) =
    let rest = rest_matches messages content i (offset + step_of content p) parts in
    elim (get_elem? messages (i + offset)) [
      | none ↦ false
      | some msg ↦ output_matches_message true (text_to_match content p) msg && rest
    ]

-- The places, counted from `i`, of the messages that match a text.
unfoldable pub candidates : ℕ → Text → List Message → List ℕ
candidates i text [] = []
candidates i text (msg ∷ messages) =
    let rest = candidates (suc i) text messages in
    if output_matches_message true text msg then i ∷ rest else rest

unfoldable pub parts_in_messages : List Message → Option Text → List Part → Bool
parts_in_messages messages content [] = false
parts_in_messages messages content (p ∷ parts) =
    any (λ i. rest_matches messages content i (step_of content p) parts)
      (candidates 0 (text_to_match content p) messages)

unfoldable pub combined_parts : List Part → List Message → Bool
combined_parts [] b_messages = false
combined_parts (first ∷ parts) b_messages =
    if is_tool_call first || is_empty parts || any (λ p. not (is_tool_call p)) parts
    then false
    else parts_in_messages b_messages (some first.text) parts

unfoldable pub try_match_parts : List Part → List Message → Bool → Bool
try_match_parts parts b_messages combine_content_with_tools =
    if combine_content_with_tools
    then combined_parts parts b_messages
    else parts_in_messages b_messages none parts

-- The place, counted from `i`, of the first message that has the output in it.
unfoldable pub full_match : ℕ → Text → List Message → Option ℕ
full_match i a_out [] = none
full_match i a_out (msg ∷ messages) =
    let rest = full_match (suc i) a_out messages in
    if output_matches_message true a_out msg then some i else rest

unfoldable pub split_match : List Part → List Message → Option DependencyType
split_match [] b_messages = none
split_match (first ∷ parts) b_messages =
    let all_parts = first ∷ parts in
    let tool_calls = filter is_tool_call all_parts in
    if is_tool_call first
    then (if try_match_parts all_parts b_messages false
        then some causal_split_parts_matched
        else none)
    else if try_match_parts all_parts b_messages false
    then some causal_split_parts_matched
    else if try_match_parts all_parts b_messages true
    then some causal_content_and_split_tools_match
    else if not (is_empty tool_calls) && try_match_parts tool_calls b_messages false
    then some causal_drop_content_split_parts
    else none

unfoldable pub has_id : Part → Bool
has_id p = is_tool_call p && not (is_empty (present (p.id ∷ [])))

unfoldable pub match_parts : Option MessageInfo → List Message → Option DependencyType
match_parts none b_messages = none
match_parts (some info) b_messages = elim info.parts [
  | none ↦ none
  | some parts ↦
      let with_ids = filter has_id parts in
      if not (is_empty with_ids) && try_match_tool_call_ids with_ids b_messages
      then some causal_tool_call_ids_matched
      else if ltb 1 (length parts)
      then split_match parts b_messages
      else none
]

-- The dependency by the message that matches the output in full, else by the parts of the output.
unfoldable pub dependency : Message → List Message → Option ℕ → Option DependencyType
dependency out b_messages (some i) = some causal_full_match
dependency out b_messages none = match_parts out.message_info b_messages

-- An exact match is kept in the cache, by its place.
unfoldable pub keep_exact :
    OutputMatches → Text × Text → Text → List Message → Option ℕ → OutputMatches
keep_exact cache key a_out b_messages none = cache
keep_exact cache key a_out b_messages (some i) = elim (get_elem? b_messages i) [
  | none ↦ cache
  | some msg ↦ if output_matches_message false a_out msg then note_match cache key i else cache
]

module _ (Json Float : Type 0) where
  -- The type of the dependency, which the cache does not decide.
  unfoldable pub causal_dep : RawCall Json Float → RawCall Json Float → Option DependencyType
  causal_dep a b = elim a.out_message [
    | none ↦ none
    | some out ↦ dependency out b.messages (full_match 0 out.text b.messages)
  ]

  unfoldable pub cached : OutputMatches → RawCall Json Float → RawCall Json Float → OutputMatches
  cached cache a b = elim a.out_message [
    | none ↦ cache
    | some out ↦
        keep_exact cache (a.call_id, b.call_id) out.text b.messages
          (full_match 0 out.text b.messages)
  ]

  unfoldable pub get_causal_dep :
      RawCall Json Float
      → RawCall Json Float
      → OutputMatches
      → Option DependencyType × OutputMatches
  unfolding causal_dep cached
  get_causal_dep a b cache = (causal_dep a b, cached cache a b)
