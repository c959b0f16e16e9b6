-- ===== src/Builder/Building/Ids.antt =====
-- The event ids of different calls differ.
use inference_perf.Prelude.{
  ℕ, zero, suc, ◌+◌, ◌-◌, ◌*◌, ◌/◌, ◌%◌, ◌<◌, ◌≡◌, refl, sym, ap, ◌∙◌, inl, inr, false, [], ◌∷◌,
  ◌++◌, length, replicate, drop, ltb, nat_beq, if◌then◌else◌, append_assoc, arith, Bool-cases,
}
use inference_perf.Prelude.Text.{Text}
use inference_perf.Replay.Schedule.{digits, decimal}
use inference_perf.Builder.Events.{pad3, event_id_of}

-- The number that a text begins with, up to its underscore, after the digits of `n`.
read_on : ℕ → Text → ℕ
read_on n [] = n
read_on n (c ∷ t) = let rest = read_on (n * 10 + (c - b'0')) t in if nat_beq c b'_' then n else rest

read-digits : (fuel n : ℕ) (t : Text) → n < fuel → read_on 0 (digits fuel n ++ t) ≡ read_on n t
unfolding digits read_on
read-digits zero n t h = absurd (omega arith)
read-digits (suc fuel) n t h = elim (Bool-cases (ltb n 10)) [
  | inl small ↦
      let e : 0 * 10 + (b'0' + n - b'0') ≡ n = omega arith in
      let other : nat_beq (b'0' + n) b'_' ≡ false = ground arith in rw (small, other, e) refl
  | inr large ↦
      let e : n / 10 * 10 + (b'0' + n % 10 - b'0') ≡ n = omega arith in
      let other : nat_beq (b'0' + n % 10) b'_' ≡ false = ground arith in
      rw
        (
          large,
          append_assoc (digits fuel (n / 10)) ((b'0' + n % 10) ∷ []) t,
          read-digits fuel (n / 10) ((b'0' + n % 10) ∷ t) (ground arith),
        )
        (rw (other, e) refl)
]

read-zeros : (k : ℕ) (t : Text) → read_on 0 (replicate k b'0' ++ t) ≡ read_on 0 t
unfolding read_on
read-zeros zero t = refl
read-zeros (suc k) t = read-zeros k t

read-pad3 : (i : ℕ) (t : Text) → read_on 0 (pad3 (decimal i) ++ t) ≡ read_on i t
unfolding pad3 decimal
read-pad3 i t =
    let zeros : Text = replicate (3 - length (decimal i)) b'0' in
    rw (append_assoc zeros (decimal i) t, read-zeros (3 - length (decimal i)) (decimal i ++ t))
      (read-digits (suc i) i t (omega arith))

read-event_id_of : (i : ℕ) (call_id : Text) → read_on 0 (drop 6 (event_id_of i call_id)) ≡ i
unfolding event_id_of read_on
read-event_id_of i call_id = read-pad3 i (b'_' ∷ call_id)

-- Two calls at different places of the list have different event ids, even if they bear the same
-- call id.
pub event_id_of-injective : (i j : ℕ) (a b : Text) → event_id_of i a ≡ event_id_of j b → i ≡ j
event_id_of-injective i j a b e =
    sym (read-event_id_of i a) ∙ ap (λ t. read_on 0 (drop 6 t)) e ∙ read-event_id_of j b
