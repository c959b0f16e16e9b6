-- ===== src/Streaming/Framing.antt =====
-- How `_SSEStreamParser.parse` cuts the chunks of a stream into messages. What is done with a message
-- is a parameter, `deliver`, which may raise; `read_clock` is `message_time = perf_counter()`.
use inference_perf.Prelude.{
  ℕ, zero, suc, ◌-◌, Bool, true, false, ◌||◌, ◌&&◌, not, Option, none, some, List, [], ◌∷◌, ◌++◌,
  Result, ok, err, length, take, drop, is_empty, leb, nat_beq, if◌then◌else◌,
}
use inference_perf.Prelude.Text.{Text, codes, text_beq, before_colon, after_colon}

-- Bytes are numbers.
abbrev pub Bytes : Type 0
Bytes = Text

pub record Frame : Type 0 where
  pub buffer : Bytes
  pub data_lines : List Bytes
  pub skip_lf : Bool
  pub done : Bool

abbrev pub new_frame : Frame
new_frame = record { buffer = []; data_lines = []; skip_lf = false; done = false }

abbrev pub is_space : ℕ → Bool
is_space c = nat_beq c 32 || (leb 9 c && leb c 13)

unfoldable pub lstrip : Bytes → Bytes
lstrip [] = []
lstrip (c ∷ t) = let rest = lstrip t in if is_space c then rest else c ∷ t

unfoldable pub rstrip : Bytes → Bytes
rstrip [] = []
rstrip (c ∷ t) = let rest = rstrip t in if is_empty rest && is_space c then [] else c ∷ rest

unfoldable pub strip : Bytes → Bytes
unfolding lstrip rstrip
strip t = rstrip (lstrip t)

unfoldable pub is_done_mark : Bytes → Bool
unfolding strip
is_done_mark t = text_beq (strip t) (codes "[DONE]")

unfoldable pub join_lines : List Bytes → Bytes
join_lines [] = []
join_lines (line ∷ []) = line
join_lines (line ∷ next ∷ lines) = line ++ b'\n' ∷ join_lines (next ∷ lines)

abbrev pub starts_with : Bytes → Bytes → Bool
starts_with t [] = true
starts_with [] (c ∷ p) = false
starts_with (d ∷ t) (c ∷ p) = nat_beq d c && starts_with t p

abbrev pub ends_with : Bytes → Bytes → Bool
ends_with t p = leb (length p) (length t) && text_beq (drop (length t - length p) t) p

abbrev pub count_byte : ℕ → Bytes → ℕ
count_byte c [] = 0
count_byte c (d ∷ t) = let rest = count_byte c t in if nat_beq d c then suc rest else rest

-- `count(b"\r\n")`.
abbrev pub count_crlf : Bytes → ℕ
count_crlf [] = 0
count_crlf (c ∷ []) = 0
count_crlf (c ∷ d ∷ t) =
    let rest = count_crlf (d ∷ t) in if nat_beq c b'\r' && nat_beq d b'\n' then suc rest else rest

-- `chunk[from:-back]`.
abbrev pub slice : Bytes → (from back : ℕ) → Bytes
slice t from back = drop from (take (length t - back) t)

unfoldable pub value_of : Bytes → (back : ℕ) → Bytes
value_of chunk back =
    if starts_with chunk (codes "data: ") then slice chunk 6 back else slice chunk 5 back

-- The chunk is one message of one line, ended by two line feeds.
unfoldable pub is_lf_message : Bytes → Bool
is_lf_message chunk =
    ends_with chunk (b'\n' ∷ b'\n' ∷ [])
    && (nat_beq (count_byte b'\n' chunk) 2 && nat_beq (count_byte b'\r' chunk) 0)

-- The chunk is one message of one line, ended by two pairs.
unfoldable pub is_crlf_message : Bytes → Bool
is_crlf_message chunk =
    ends_with chunk (b'\r' ∷ b'\n' ∷ b'\r' ∷ b'\n' ∷ [])
    && (nat_beq (count_byte b'\r' chunk) 2
        && (nat_beq (count_byte b'\n' chunk) 2 && nat_beq (count_crlf chunk) 2))

-- The message of a chunk that starts with `data:` and is one message.
unfoldable pub single_message : Bytes → Option Bytes
unfolding value_of is_lf_message is_crlf_message
single_message chunk =
    if is_lf_message chunk
    then some (value_of chunk 2)
    else if is_crlf_message chunk
    then some (value_of chunk 4)
    else none

-- `_LINE_ENDING.search`: the line, whether its ending is a lone carriage return, and what follows.
unfoldable pub next_line : Bytes → Option (Bytes × Bool × Bytes)
next_line [] = none
next_line (c ∷ []) =
    if nat_beq c b'\n'
    then some ([], false, [])
    else if nat_beq c b'\r'
    then some ([], true, [])
    else none
next_line (c ∷ d ∷ t) =
    let later = next_line (d ∷ t) in
    if nat_beq c b'\n'
    then some ([], false, d ∷ t)
    else if nat_beq c b'\r'
    then (if nat_beq d b'\n' then some ([], false, t) else some ([], true, d ∷ t))
    else elim later [ none ↦ none | some (line, lone, rest) ↦ some (c ∷ line, lone, rest) ]

-- `value.removeprefix(b" ")`.
abbrev pub remove_space : Bytes → Bytes
remove_space [] = []
remove_space (c ∷ t) = if nat_beq c 32 then t else c ∷ t

-- Of the lines with text in them, only those of a `data` field count.
unfoldable pub take_field : Frame → Bytes → Frame
take_field f line =
    let value : Bytes = elim (after_colon line) [ none ↦ [] | some v ↦ remove_space v ] in
    if text_beq (before_colon line) (codes "data")
    then record f { data_lines = f.data_lines ++ value ∷ [] }
    else f

module _ (S E : Type 0) (deliver : S → Bytes → Result E S) (read_clock : S → S) where
  -- What a message does: the end mark ends the stream.
  unfoldable pub hand_over : Frame → S → Bytes → Result E (Frame × S)
  unfolding is_done_mark
  hand_over f s message =
      if is_done_mark message
      then ok (record f { done = true }, s)
      else elim (deliver s message) [ err e ↦ err e | ok s' ↦ ok (f, s') ]

  unfoldable pub take_line : Frame → S → Bytes → Result E (Frame × S)
  unfolding take_field hand_over join_lines
  take_line f s (c ∷ line) = ok (take_field f (c ∷ line), s)
  take_line f s [] =
      if is_empty f.data_lines
      then ok (f, s)
      else hand_over (record f { data_lines = [] }) (read_clock s) (join_lines f.data_lines)

  -- The `while` loop. Each turn consumes a byte, so that the length of the buffer is enough fuel.
  -- What the loop has not consumed stays in the buffer.
  unfoldable pub scan : (fuel : ℕ) → Frame → S → Bytes → Result E (Frame × S)
  unfolding take_line next_line
  scan zero f s rest = ok (record f { buffer = rest }, s)
  scan (suc fuel) f s rest = elim (next_line rest) [
    | none ↦ ok (record f { buffer = rest }, s)
    | some (line, lone, rest') ↦
        elim (take_line (record f { skip_lf = lone && is_empty rest' }) s line) [
          | err e ↦ err e
          | ok (f', s') ↦
              if f'.done then ok (record f' { buffer = rest' }, s') else scan fuel f' s' rest'
        ]
  ]

  -- A line feed at the start belongs to the carriage return before it.
  unfoldable pub drop_lf : Bool → Bytes → Bytes
  drop_lf false t = t
  drop_lf true [] = []
  drop_lf true (c ∷ t) = if nat_beq c b'\n' then t else c ∷ t

  unfoldable pub fall_back : Frame → S → Bytes → Result E (Frame × S)
  unfolding scan drop_lf
  fall_back f s chunk =
      let buffered = f.buffer ++ chunk in
      let buffer = drop_lf f.skip_lf buffered in
      scan (length buffer) (record f { skip_lf = f.skip_lf && is_empty buffered }) s buffer

  unfoldable pub is_fresh : Frame → Bytes → Bool
  is_fresh f chunk =
      is_empty f.buffer
      && (is_empty f.data_lines && (not f.skip_lf && starts_with chunk (codes "data:")))

  unfoldable pub take_chunk : Frame → S → Bytes → Result E (Frame × S)
  unfolding is_fresh single_message fall_back hand_over
  take_chunk f s chunk =
      if is_fresh f chunk
      then elim (single_message chunk) [
        | some message ↦ hand_over f s message
        | none ↦ fall_back f s chunk
      ]
      else fall_back f s chunk

  -- The loop over the chunks. `raw` keeps them all, also once the stream is done; what is raised comes
  -- with the chunks up to the one at which it was raised.
  unfoldable pub take_chunks :
      Frame → S → (raw : List Bytes) → List Bytes → Result (E × List Bytes) (Frame × S × List Bytes)
  take_chunks f s raw [] = ok (f, s, raw)
  take_chunks f s raw (chunk ∷ chunks) =
      let kept = raw ++ chunk ∷ [] in
      let later = take_chunks f s kept chunks in
      if f.done then later else elim (take_chunk f (read_clock s) chunk) [
        | err e ↦ err (e, kept)
        | ok (f', s') ↦ take_chunks f' s' kept chunks
      ]
