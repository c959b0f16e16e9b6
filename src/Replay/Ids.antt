-- ===== src/Replay/Ids.antt =====
-- Qualified event ids, `{session_id}:{event_id}`, as `_build_session_schedule` writes them and
-- `_extract_session_id` and `on_completion` take them apart.
use inference_perf.Prelude.{◌≡◌, refl, false, none, some, [], ◌∷◌, ◌++◌, nat_beq, arith, All}
use inference_perf.Prelude.Text.{Text, colon, before_colon, after_colon, text_beq}

unfoldable pub qualify : Text → Text → Text
qualify session_id event_id = session_id ++ colon ∷ event_id

unfoldable pub extract_session_id : Text → Text
extract_session_id event_id = before_colon event_id

unfoldable pub raw_event_id : Text → Text
raw_event_id event_id = elim (after_colon event_id) [ none ↦ event_id | some raw ↦ raw ]

abbrev pub HasNoColon : Text → Type 0
HasNoColon = All (λ c. nat_beq c colon ≡ false)

extract_session_id-qualify : (s e : Text) → HasNoColon s → extract_session_id (qualify s e) ≡ s
unfolding extract_session_id qualify before_colon
extract_session_id-qualify [] e h = refl
extract_session_id-qualify (c ∷ s) e h = ground (arith, extract_session_id-qualify s e h.1)

after_colon-qualify : (s e : Text) → HasNoColon s → after_colon (qualify s e) ≡ some e
unfolding qualify after_colon
after_colon-qualify [] e h = refl
after_colon-qualify (c ∷ s) e h = ground (arith, after_colon-qualify s e h.1)

-- For a session id without a colon, a qualified id is taken apart into the two ids that it was made
-- of.
pub qualify_parts :
    (session_id event_id : Text)
    → HasNoColon session_id
    → (extract_session_id (qualify session_id event_id) ≡ session_id)
      × (raw_event_id (qualify session_id event_id) ≡ event_id)
unfolding raw_event_id
qualify_parts s e h =
    (extract_session_id-qualify s e h, rw (after_colon-qualify s e h, raw_event_id))

-- For a session id with a colon the session that is read back is never the one that was meant.
pub colon_misread :
    (before after event_id : Text)
    → HasNoColon before
    → extract_session_id (qualify (before ++ colon ∷ after) event_id) ≡ before
unfolding extract_session_id qualify before_colon
colon_misread [] after e h = refl
colon_misread (c ∷ s) after e h = ground (arith, colon_misread s after e h.1)

pub qualify-test : (s e f : Text) → text_beq (qualify s e) (qualify s f) ≡ text_beq e f
unfolding qualify text_beq
qualify-test [] e f = refl
qualify-test (c ∷ s) e f = ground (arith, qualify-test s e f)
