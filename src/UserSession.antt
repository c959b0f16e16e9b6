-- ===== src/UserSession.antt =====
-- `LocalUserSession` of inference_perf/apis/user_session.py, and how its `to_request_body` fits a
-- prompt into the model's context. The tokenizer and the spaces of `str.isspace` are parameters.
-- The lock is a flag, and each waiting round a number in a queue.
pub mod Fitting
mod Tests
use inference_perf.Prelude.{
  ℕ, zero, suc, ◌+◌, ◌-◌, Bool, true, false, ◌||◌, ◌&&◌, not, Option, none, some, List, [], ◌∷◌,
  ◌++◌, length, take, drop, is_empty, leb, ltb, nat_beq, if◌then◌else◌,
}
use inference_perf.Prelude.Text.{Text, codes, text_beq}

pub record Tokenizer : Type 0 where
  pub count_tokens : Text → ℕ
  pub encode : Text → List ℕ
  pub decode : List ℕ → Text
  pub is_space : ℕ → Bool

abbrev pub prompt_token_buffer : ℕ
prompt_token_buffer = 200

pub record UserSession : Type 0 where
  pub context : Text
  pub system_prompt : Text
  pub has_tokenizer : Bool
  pub max_model_len : Option ℕ
  pub accumulates_history : Bool
  pub preserves_initial_prompt_boundary : Bool
  pub history : List Text
  pub current_round : ℕ
  pub in_flight : Bool
  pub waiting_rounds : List ℕ
  pub warned_empty_budget : Bool
  pub warned_system_prompt_dropped : Bool

unfoldable pub new_session :
    (context system_prompt : Text)
    → (has_tokenizer : Bool) → Option ℕ
    → (accumulate_history : Option Bool) → (preserve_initial_prompt_boundary : Bool) → UserSession
new_session context system_prompt has_tokenizer max_model_len accumulate_history preserve = record {
  context = context;
  system_prompt = system_prompt;
  has_tokenizer = has_tokenizer;
  max_model_len = max_model_len;
  accumulates_history = elim accumulate_history [
    | none ↦ not (is_empty system_prompt)
    | some b ↦ b
  ];
  preserves_initial_prompt_boundary = preserve;
  history = [];
  current_round = 0;
  in_flight = false;
  waiting_rounds = [];
  warned_empty_budget = false;
  warned_system_prompt_dropped = false;
}

-- `get_context` up to its wait: whether the round waits, on the future that has this number.
unfoldable pub ask : UserSession → (future : ℕ) → Bool × UserSession
ask s future =
    if not (is_empty s.waiting_rounds) || s.in_flight
    then (true, record s { waiting_rounds = s.waiting_rounds ++ future ∷ [] })
    else (false, s)

-- The rest of `get_context`, which runs once the lock is free.
unfoldable pub enter : UserSession → UserSession × Text
enter s = (record s { in_flight = true; current_round = suc s.current_round }, s.context)

abbrev pub concat_texts : List Text → Text
concat_texts [] = []
concat_texts (t ∷ ts) = t ++ concat_texts ts

-- `" ".join`.
unfoldable pub join_spaced : List Text → Text
join_spaced [] = []
join_spaced (t ∷ []) = t
join_spaced (t ∷ u ∷ ts) = t ++ b' ' ∷ join_spaced (u ∷ ts)

unfoldable pub history_text : Bool → List Text → Text
unfolding join_spaced
history_text preserves history = if preserves then concat_texts history else join_spaced history

unfoldable pub context_of : (system_prompt : Text) → List Text → Text
unfolding join_spaced
context_of system_prompt history =
    if is_empty history
    then system_prompt
    else if is_empty system_prompt
    then join_spaced history
    else system_prompt ++ b' ' ∷ join_spaced history

-- The future that is woken, if a round waits; the lock is released.
unfoldable pub wake : List ℕ → UserSession → Option ℕ × UserSession
wake [] s = (none, record s { in_flight = false })
wake (future ∷ futures) s = (some future, record s { in_flight = false; waiting_rounds = futures })

unfoldable pub release : UserSession → Option ℕ × UserSession
unfolding wake
release s = wake s.waiting_rounds s

-- The limit on the context, where there is a tokenizer and the limit is not 0.
unfoldable pub limit : UserSession → Option ℕ
limit s = elim s.max_model_len [
  | none ↦ none
  | some n ↦ if s.has_tokenizer && not (nat_beq n 0) then some n else none
]

module _ (tk : Tokenizer) where
  unfoldable pub lstrip : Text → Text
  lstrip [] = []
  lstrip (c ∷ t) = let rest = lstrip t in if tk.is_space c then rest else c ∷ t

  unfoldable pub rstrip : Text → Text
  rstrip [] = []
  rstrip (c ∷ t) = let rest = rstrip t in if is_empty rest && tk.is_space c then [] else c ∷ rest

  -- What a response adds to the system prompt and the history that it starts with.
  unfoldable pub turn_content : UserSession → Text → Text
  unfolding history_text lstrip rstrip
  turn_content s response =
      let before = history_text s.preserves_initial_prompt_boundary s.history in
      let base_len =
        length s.system_prompt
        + (if is_empty before
            then 0
            else if s.preserves_initial_prompt_boundary
            then length before
            else length before + 1) in
      let turn = drop base_len response in
      if s.preserves_initial_prompt_boundary then turn else rstrip (lstrip turn)

  -- The `while` loop of `update_context`: turns leave from the front until the rest fits.
  unfoldable pub shrink_history :
      (preserves : Bool) → (system_tokens max_model_len : ℕ) → List Text → List Text
  unfolding history_text
  shrink_history preserves system_tokens max_model_len [] = []
  shrink_history preserves system_tokens max_model_len (turn ∷ turns) =
      let shorter = shrink_history preserves system_tokens max_model_len turns in
      if leb (system_tokens + tk.count_tokens (history_text preserves (turn ∷ turns))) max_model_len
      then turn ∷ turns
      else shorter

  unfoldable pub add_turn : UserSession → Text → List Text
  unfolding turn_content
  add_turn s response =
      let turn = turn_content s response in
      if is_empty turn then s.history else s.history ++ turn ∷ []

  unfoldable pub keep_turns : UserSession → (max_model_len : ℕ) → List Text → List Text
  unfolding shrink_history history_text
  keep_turns s max_model_len added =
      let system_tokens = tk.count_tokens s.system_prompt in
      let preserves = s.preserves_initial_prompt_boundary in
      if ltb max_model_len (system_tokens + tk.count_tokens (history_text preserves added))
      then shrink_history preserves system_tokens max_model_len added
      else added

  unfoldable pub accumulate : UserSession → (max_model_len : ℕ) → Text → UserSession
  unfolding add_turn keep_turns context_of
  accumulate s max_model_len response =
      let kept = keep_turns s max_model_len (add_turn s response) in
      record s {
        history = kept;
        context =
            if s.preserves_initial_prompt_boundary
            then s.system_prompt ++ concat_texts kept
            else context_of s.system_prompt kept;
      }

  unfoldable pub answered : UserSession → Text → Option ℕ → UserSession
  unfolding accumulate
  answered s response none = record s { context = response }
  answered s response (some n) =
      if s.accumulates_history then accumulate s n response else record s { context = response }

  unfoldable pub update_context : UserSession → Text → Option ℕ × UserSession
  unfolding limit answered release
  update_context s response = release (answered s response (limit s))

  -- Whether the last character of a text and the first of another leave no space between them.
  unfoldable pub needs_space : Text → Text → Bool
  needs_space [] current = false
  needs_space (c ∷ []) [] = false
  needs_space (c ∷ []) (d ∷ current) = not (tk.is_space c) && not (tk.is_space d)
  needs_space (c ∷ e ∷ t) current = needs_space (e ∷ t) current

  abbrev pub with_text : Text → List Text → List Text
  with_text [] ts = ts
  with_text (c ∷ t) ts = (c ∷ t) ∷ ts

  -- `get_text`.
  unfoldable pub get_text : (preserves : Bool) → Text → List Text → Text → Text
  unfolding join_spaced needs_space
  get_text false system_prompt history current = join_spaced (
      with_text system_prompt (
        if is_empty history
        then with_text current []
        else join_spaced history ∷ with_text current []))
  get_text true system_prompt history current =
      let so_far = system_prompt ++ concat_texts history in
      if is_empty current
      then so_far
      else if is_empty (concat_texts history)
      then so_far ++ current
      else if needs_space so_far current
      then so_far ++ b' ' ∷ current
      else so_far ++ current

  -- The `while` loop of `to_request_body`.
  unfoldable pub drop_oldest :
      (preserves : Bool) → (target_len : ℕ) → (system_prompt current : Text) → List Text → List Text
  unfolding get_text
  drop_oldest preserves target_len system_prompt current [] = []
  drop_oldest preserves target_len system_prompt current (turn ∷ turns) =
      let shorter = drop_oldest preserves target_len system_prompt current turns in
      if leb (length (tk.encode (get_text preserves system_prompt (turn ∷ turns) current)))
        target_len
      then turn ∷ turns
      else shorter

  -- What a request takes: the system prompt, the history, the prompt that is sent, and whether the
  -- system prompt was dropped although there was room for tokens.
  pub record Fitted : Type 0 where
    pub system_prompt : Text
    pub history : List Text
    pub prompt : Text
    pub dropped : Bool

  -- The history is used up, and the text is still too long.
  unfoldable pub cut :
      (preserves : Bool) → (target_len : ℕ) → (system_prompt current : Text) → Fitted
  unfolding get_text
  cut preserves target_len system_prompt current =
      let room = target_len - length (tk.encode current) in
      if ltb (length (tk.encode current)) target_len
      then (let short = tk.decode (take room (tk.encode system_prompt)) in
          record {
            system_prompt = short;
            history = [];
            prompt = get_text preserves short [] current;
            dropped = false;
          })
      else (let short = tk.decode (take target_len (tk.encode current)) in
          record {
            system_prompt = [];
            history = [];
            prompt = get_text preserves [] [] short;
            dropped = ltb 0 target_len;
          })

  unfoldable pub fit_kept :
      (preserves : Bool) → (target_len : ℕ) → (system_prompt current : Text) → List Text → Fitted
  unfolding get_text cut
  fit_kept preserves target_len system_prompt current kept =
      let text = get_text preserves system_prompt kept current in
      if leb (length (tk.encode text)) target_len
      then record { system_prompt = system_prompt; history = kept; prompt = text; dropped = false }
      else cut preserves target_len system_prompt current

  unfoldable pub fit :
      (preserves : Bool) → (target_len : ℕ) → (system_prompt current : Text) → List Text → Fitted
  unfolding drop_oldest fit_kept
  fit preserves target_len system_prompt current history =
      fit_kept preserves target_len system_prompt current
        (drop_oldest preserves target_len system_prompt current history)

  unfoldable pub take_fitted : UserSession → (target_len : ℕ) → Fitted → UserSession × Text
  unfolding context_of
  take_fitted s target_len fitted = (
    record s {
      system_prompt = fitted.system_prompt;
      history = fitted.history;
      context = context_of fitted.system_prompt fitted.history;
      warned_empty_budget = s.warned_empty_budget || nat_beq target_len 0;
      warned_system_prompt_dropped = s.warned_system_prompt_dropped || fitted.dropped;
    },
    fitted.prompt,
  )

  unfoldable pub prepare_within :
      UserSession
      → (session_context prompt : Text) → (effective_max_tokens : ℕ) → Option ℕ
      → UserSession × Text
  unfolding fit take_fitted
  prepare_within s session_context prompt effective_max_tokens none =
      (s, session_context ++ b' ' ∷ prompt)
  prepare_within s session_context prompt effective_max_tokens (some n) =
      let target_len = n - effective_max_tokens - prompt_token_buffer in
      take_fitted s target_len
        (fit s.preserves_initial_prompt_boundary target_len s.system_prompt prompt s.history)

  -- `to_request_body` up to the call of its base class: the session and the prompt.
  unfoldable pub prepare :
      UserSession
      → (session_context prompt : Text) → (effective_max_tokens : ℕ) → UserSession × Text
  unfolding limit prepare_within
  prepare s session_context prompt effective_max_tokens =
      prepare_within s session_context prompt effective_max_tokens (limit s)
