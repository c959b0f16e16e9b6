-- ===== src/Replay/Schedule/Duplicates.antt =====
-- What duplication makes of a corpus: how many sessions, in which order, under which ids.
use inference_perf.Prelude.{
  ℕ, zero, suc, ◌+◌, ◌-◌, ◌/◌, ◌%◌, ◌≡◌, ◌<◌, refl, ap, sym, ◌∙◌, Bool, true, false, ◌||◌, none,
  some, List, [], ◌∷◌, ◌++◌, ok, length, length-append, get_elem?, append_assoc, append-nil, leb,
  ltb, max, arith, Bool-cases, inl, inr, is_empty, found,
}
use native.Mathlib.Nat.{mod-lt, zero-lt-suc}
use inference_perf.Prelude.Text.{Text, codes}
use inference_perf.Replay.Sessions.{Session}
use inference_perf.Replay.Schedule.{
  digits, decimal, duplicate_id, is_at_end, matches_digits, matches_dup, is_duplicate_session,
  duplicate_of, duplicate_loop, duplicate_sessions_if_needed,
}

-- `\d` accepts the ten digits that Python prints.
abbrev pub AcceptsDecimal : (ℕ → Bool) → Type 0
AcceptsDecimal is_digit = (d : ℕ) → d < 10 → is_digit (b'0' + d) ≡ true

module _ (is_digit : ℕ → Bool) (accepts : AcceptsDecimal is_digit) where
  -- The digits of a number, followed by what matches or by nothing.
  matches-digits :
      (fuel n : ℕ) (t : Text)
      → n < fuel
      → (is_at_end t || matches_digits is_digit t) ≡ true
      → matches_digits is_digit (digits fuel n ++ t) ≡ true
  unfolding matches_digits digits
  matches-digits zero n t h k = absurd (omega arith)
  matches-digits (suc fuel) n t h k = elim (Bool-cases (ltb n 10)) [
    | inl small ↦ rw small (ground (arith, accepts n))
    | inr large ↦ rw large (
        rw (append_assoc (digits fuel (n / 10)) ((b'0' + n % 10) ∷ []) t) (
          matches-digits fuel (n / 10) ((b'0' + n % 10) ∷ t) (ground arith)
            (ground (arith, accepts (n % 10)))))
  ]

  search-suffix :
      (s t : Text) → matches_dup is_digit t ≡ true → is_duplicate_session is_digit (s ++ t) ≡ true
  unfolding is_duplicate_session matches_dup
  search-suffix [] [] h = h
  search-suffix [] (c ∷ t) h = rw h refl
  search-suffix (c ∷ s) t h = ground (arith, search-suffix s t h)

  -- Every id that duplication makes is recognised as the id of a duplicate.
  pub is_duplicate_session-duplicate_id :
      (session_id : Text) (n : ℕ) → is_duplicate_session is_digit (duplicate_id session_id n) ≡ true
  unfolding duplicate_id decimal matches_dup
  is_duplicate_session-duplicate_id s n =
      let printed : matches_digits is_digit (decimal n ++ []) ≡ true =
        matches-digits (suc n) n [] (omega arith) refl in
      search-suffix s (codes "_dup" ++ decimal n) (rw (sym (append-nil (decimal n))) printed)

module _ (Json Float : Type 0) where
  -- The duplicates that bear the numbers from `i + 1` on, `k` of them.
  pub copies : List (Session Json Float) → (k i : ℕ) → List (Session Json Float)
  copies originals zero i = []
  copies originals (suc k) i = elim (get_elem? originals (i % length originals)) [
    | none ↦ []
    | some source ↦ duplicate_of Json Float source (suc i) ∷ copies originals k (suc i)
  ]

  turn :
      (originals : List (Session Json Float)) (i : ℕ)
      → is_empty originals ≡ false
      → (s : Session Json Float) × (get_elem? originals (i % length originals) ≡ some s)
  turn [] i h = cc
  turn (s ∷ ss) i h = found (s ∷ ss) (i % suc (length ss)) (mod-lt i (zero-lt-suc (length ss)))

  next-copies :
      (originals : List (Session Json Float)) (k i : ℕ) (source : Session Json Float)
      → get_elem? originals (i % length originals) ≡ some source
      → copies originals (suc k) i
        ≡ duplicate_of Json Float source (suc i) ∷ copies originals k (suc i)
  unfolding copies
  next-copies originals k i source q = rw (copies, q) refl

  loop-copies :
      (originals : List (Session Json Float)) (fuel target i : ℕ)
      (sessions : List (Session Json Float))
      → is_empty originals ≡ false
      → length sessions + fuel ≡ target
      → duplicate_loop Json Float fuel originals target i sessions
        ≡ ok (sessions ++ copies originals fuel i)
  unfolding duplicate_loop copies
  loop-copies originals zero target i sessions h e = ap ok (sym (append-nil sessions))
  loop-copies originals (suc fuel) target i sessions h e =
      let (source, q) = turn originals i h in
      let more : ltb (length sessions) target ≡ true = ground arith in
      let rest =
        loop-copies originals fuel target (suc i)
          (sessions ++ duplicate_of Json Float source (suc i) ∷ []) h
          (omega (arith, length-append sessions (duplicate_of Json Float source (suc i) ∷ []))) in
      rw (more, q, next-copies originals fuel i source q)
        (rest
          ∙ ap ok (
              append_assoc sessions (duplicate_of Json Float source (suc i) ∷ [])
                (copies originals fuel (suc i))))

  length-copies :
      (originals : List (Session Json Float)) (k i : ℕ)
      → is_empty originals ≡ false
      → length (copies originals k i) ≡ k
  unfolding copies
  length-copies originals zero i h = refl
  length-copies originals (suc k) i h =
      let (source, q) = turn originals i h in
      rw (next-copies originals k i source q) (ap suc (length-copies originals k (suc i) h))

  -- A corpus that is not empty, of fewer sessions than are asked for, keeps its sessions in front, and
  -- is then repeated in order, the duplicates numbered from 1 on, up to exactly the number asked for;
  -- a corpus of as many sessions or more stays as it is.
  pub duplicate_sessions_if_needed_lem :
      (sessions : List (Session Json Float)) (target : ℕ)
      → is_empty sessions ≡ false
      → (duplicate_sessions_if_needed Json Float sessions target
          ≡ ok (sessions ++ copies sessions (target - length sessions) 0))
        × (length (sessions ++ copies sessions (target - length sessions) 0)
            ≡ max (length sessions) target)
  unfolding duplicate_sessions_if_needed copies
  duplicate_sessions_if_needed_lem sessions target h = (
    elim (Bool-cases (leb target (length sessions))) [
      | inl enough ↦
          let none_left : target - length sessions ≡ 0 = ground arith in
          rw (enough, none_left) (ap ok (sym (append-nil sessions)))
      | inr few ↦
          rw few
            (loop-copies sessions (target - length sessions) target 0 sessions h (ground arith))
    ],
    omega (
      arith,
      length-append sessions (copies sessions (target - length sessions) 0),
      length-copies sessions (target - length sessions) 0 h,
    ),
  )
