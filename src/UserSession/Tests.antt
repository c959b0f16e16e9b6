-- ===== src/UserSession/Tests.antt =====
-- A conversation whose tokens are its characters, and the theorems at it.
use inference_perf.Prelude.{◌-◌, ◌≡◌, refl, true, false, none, some, [], ◌∷◌, length, nat_beq}
use inference_perf.Prelude.Text.{codes}
use inference_perf.UserSession.{
  Tokenizer, prompt_token_buffer, UserSession, new_session, limit, add_turn, update_context,
  prepare,
}
use inference_perf.UserSession.Fitting.{
  LongestEnd, fits_context, fits_request, update_context-LongestEnd, prepare-LongestEnd,
}

abbrev characters : Tokenizer
characters = record {
  count_tokens = length;
  encode = λ t. t;
  decode = λ ids. ids;
  is_space = λ c. nat_beq c 32;
}

abbrev two_turns : UserSession
two_turns = record (new_session (codes "s aaa bbb") (codes "s") true (some 207) none false) {
  history = codes "aaa" ∷ codes "bbb" ∷ [];
}

update_context-LongestEnd_example :
    LongestEnd
      (fits_context characters two_turns 207)
      (add_turn characters two_turns (codes "s aaa bbb ccc"))
      (update_context characters two_turns (codes "s aaa bbb ccc")).1.history
unfolding limit new_session
update_context-LongestEnd_example =
    update_context-LongestEnd characters two_turns 207 (codes "s aaa bbb ccc") refl refl

prepare-LongestEnd_example :
    LongestEnd
      (fits_request characters two_turns (codes "p") (207 - 0 - prompt_token_buffer))
      two_turns.history
      (prepare characters two_turns two_turns.context (codes "p") 0).0.history
unfolding limit new_session
prepare-LongestEnd_example =
    prepare-LongestEnd characters two_turns 207 two_turns.context (codes "p") 0 refl

-- A request for which a turn was dropped fails: the last turn is then there twice.
failed_request :
    (update_context characters
      (prepare characters two_turns two_turns.context (codes "p") 0).0
      two_turns.context).1.history
    ≡ codes "bbb" ∷ codes "bbb" ∷ []
unfolding update_context prepare new_session
failed_request = refl
