-- ===== src/UserSession/Fitting.antt =====
-- Which turns of a conversation are kept, by an answer and by a request.
use inference_perf.Prelude.{
  ℕ, ◌+◌, ◌-◌, ◌≡◌, refl, ap, sym, ◌∙◌, Bool, true, false, ◌⊎◌, inl, inr, some, List, [], ◌∷◌,
  length, leb, ltb, if◌then◌else◌, arith, Bool-cases,
}
use mathlib.Core.Path.{subst}
use inference_perf.Prelude.Text.{Text}
use inference_perf.UserSession.{
  Tokenizer, prompt_token_buffer, UserSession, limit, release, history_text, shrink_history,
  add_turn, accumulate, update_context, get_text, drop_oldest, fit_kept, cut, prepare,
  prepare_within, wake, answered, keep_turns,
}

-- The kept turns are the longest end of the turns that fits, or none.
pub data LongestEnd (fits : List Text → Bool) : List Text → List Text → Type 0 where
  nothing : LongestEnd fits [] []
  all_fit : (t : Text) (ts : List Text) → fits (t ∷ ts) ≡ true → LongestEnd fits (t ∷ ts) (t ∷ ts)
  drops :
      (t : Text) (ts kept : List Text)
      → fits (t ∷ ts) ≡ false
      → LongestEnd fits ts kept
      → LongestEnd fits (t ∷ ts) kept

LongestEnd-cases :
    (fits : List Text → Bool) (ts kept : List Text)
    → LongestEnd fits ts kept
    → (kept ≡ []) ⊎ (fits kept ≡ true)
LongestEnd-cases fits _ _ nothing = inl refl
LongestEnd-cases fits _ _ (all_fit t ts h) = inr h
LongestEnd-cases fits _ _ (drops t ts kept h l) = LongestEnd-cases fits ts kept l

module _ (tk : Tokenizer) where
  -- The system prompt and these turns are within the model's context.
  abbrev pub fits_context : UserSession → ℕ → List Text → Bool
  fits_context s n history =
      leb
        (tk.count_tokens s.system_prompt
          + tk.count_tokens (history_text s.preserves_initial_prompt_boundary history))
        n

  -- The request with these turns leaves room for the answer and the buffer.
  abbrev pub fits_request : UserSession → Text → (target_len : ℕ) → List Text → Bool
  fits_request s prompt target_len history =
      leb
        (length (
          tk.encode
            (get_text tk s.preserves_initial_prompt_boundary s.system_prompt history prompt)))
        target_len

  LongestEnd-shrink_history :
      (s : UserSession) (n : ℕ) (turns : List Text)
      → LongestEnd (fits_context s n) turns (
          shrink_history tk s.preserves_initial_prompt_boundary
            (tk.count_tokens s.system_prompt)
            n
            turns)
  unfolding shrink_history
  LongestEnd-shrink_history s n [] = nothing
  LongestEnd-shrink_history s n (t ∷ ts) = elim (Bool-cases (fits_context s n (t ∷ ts))) [
    | inl enough ↦ rw enough (all_fit t ts enough)
    | inr too_long ↦ rw too_long (
        drops t ts
          (shrink_history tk s.preserves_initial_prompt_boundary (tk.count_tokens s.system_prompt) n
            ts)
          too_long (LongestEnd-shrink_history s n ts))
  ]

  LongestEnd-fitting :
      (fits : List Text → Bool) (turns : List Text)
      → fits turns ≡ true
      → LongestEnd fits turns turns
  LongestEnd-fitting fits [] h = nothing
  LongestEnd-fitting fits (t ∷ ts) h = all_fit t ts h

  wake-history : (waiting : List ℕ) (s : UserSession) → (wake waiting s).1.history ≡ s.history
  unfolding wake
  wake-history [] s = refl
  wake-history (f ∷ fs) s = refl

  LongestEnd-keep_turns :
      (s : UserSession) (n : ℕ) (turns : List Text)
      → LongestEnd (fits_context s n) turns (keep_turns tk s n turns)
  unfolding keep_turns
  LongestEnd-keep_turns s n turns =
      elim (Bool-cases (
        ltb n (
          tk.count_tokens s.system_prompt
          + tk.count_tokens (history_text s.preserves_initial_prompt_boundary turns)))) [
            | inl too_long ↦ rw too_long (LongestEnd-shrink_history s n turns)
            | inr enough ↦ rw enough (LongestEnd-fitting (fits_context s n) turns (ground arith))
          ]

  answered-history :
      (s : UserSession) (n : ℕ) (response : Text)
      → s.accumulates_history ≡ true
      → (answered tk s response (some n)).history ≡ keep_turns tk s n (add_turn tk s response)
  unfolding answered accumulate
  answered-history s n response on =
      ap (λ b. (if b then accumulate tk s n response else record s { context = response }).history)
        on

  -- An answer to a session that accumulates its history keeps, of the turns and the new one, the
  -- longest end that is within the model's context together with the system prompt, or none.
  pub update_context-LongestEnd :
      (s : UserSession) (n : ℕ) (response : Text)
      → limit s ≡ some n
      → s.accumulates_history ≡ true
      → LongestEnd
          (fits_context s n)
          (add_turn tk s response)
          (update_context tk s response).1.history
  unfolding update_context release
  update_context-LongestEnd s n response limited on =
      let kept : (update_context tk s response).1.history
          ≡ keep_turns tk s n (add_turn tk s response) =
        wake-history (answered tk s response (limit s)).waiting_rounds
          (answered tk s response (limit s))
        ∙ ap (λ o. (answered tk s response o).history) limited
        ∙ answered-history s n response on in
      subst (LongestEnd (fits_context s n) (add_turn tk s response)) (sym kept)
        (LongestEnd-keep_turns s n (add_turn tk s response))

  LongestEnd-drop_oldest :
      (s : UserSession) (prompt : Text) (target_len : ℕ) (turns : List Text)
      → LongestEnd (fits_request s prompt target_len) turns (
          drop_oldest tk s.preserves_initial_prompt_boundary target_len s.system_prompt prompt
            turns)
  unfolding drop_oldest
  LongestEnd-drop_oldest s prompt target_len [] = nothing
  LongestEnd-drop_oldest s prompt target_len (t ∷ ts) =
      elim (Bool-cases (fits_request s prompt target_len (t ∷ ts))) [
        | inl enough ↦ rw enough (all_fit t ts enough)
        | inr too_long ↦ rw too_long (
            drops t ts
              (drop_oldest tk s.preserves_initial_prompt_boundary target_len s.system_prompt prompt
                ts)
              too_long (LongestEnd-drop_oldest s prompt target_len ts))
      ]

  cut-history :
      (preserves : Bool) (target_len : ℕ) (system_prompt current : Text)
      → (cut tk preserves target_len system_prompt current).history ≡ []
  unfolding cut
  cut-history preserves target_len system_prompt current = ground arith

  fit_kept-history :
      (s : UserSession) (prompt : Text) (target_len : ℕ) (kept : List Text)
      → (kept ≡ []) ⊎ (fits_request s prompt target_len kept ≡ true)
      → (fit_kept tk s.preserves_initial_prompt_boundary target_len s.system_prompt prompt
          kept).history
        ≡ kept
  unfolding fit_kept
  fit_kept-history s prompt target_len kept (inr fits) = rw fits refl
  fit_kept-history s prompt target_len kept (inl none_left) =
      elim (Bool-cases (fits_request s prompt target_len kept)) [
        | inl fits ↦ rw fits refl
        | inr too_long ↦ rw too_long (
            cut-history s.preserves_initial_prompt_boundary target_len s.system_prompt prompt
            ∙ sym none_left)
      ]

  -- A request keeps, of the session's turns, the longest end with which its prompt leaves room for the
  -- answer and the buffer, or none.
  pub prepare-LongestEnd :
      (s : UserSession) (n : ℕ) (session_context prompt : Text) (effective_max_tokens : ℕ)
      → limit s ≡ some n
      → LongestEnd
          (fits_request s prompt (n - effective_max_tokens - prompt_token_buffer))
          s.history
          (prepare tk s session_context prompt effective_max_tokens).0.history
  unfolding prepare
  prepare-LongestEnd s n session_context prompt effective_max_tokens limited =
      let target_len = n - effective_max_tokens - prompt_token_buffer in
      let kept =
        drop_oldest tk s.preserves_initial_prompt_boundary target_len s.system_prompt prompt
          s.history in
      let whole = LongestEnd-drop_oldest s prompt target_len s.history in
      let same : (prepare tk s session_context prompt effective_max_tokens).0.history ≡ kept =
        ap (λ o. (prepare_within tk s session_context prompt effective_max_tokens o).0.history)
          limited
        ∙ fit_kept-history s prompt target_len kept
            (LongestEnd-cases (fits_request s prompt target_len) s.history kept whole) in
      subst (LongestEnd (fits_request s prompt target_len) s.history) (sym same) whole
