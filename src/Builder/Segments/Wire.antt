-- ===== src/Builder/Segments/Wire.antt =====
-- Recorded messages and the wire messages that they expand to are cut into segments at the same
-- places.
use inference_perf.Prelude.{
  ℕ, zero, suc, ◌+◌, ◌≡◌, refl, ap, ◌∙◌, List, [], ◌∷◌, ◌++◌, map, length, length-append, take,
  drop, sum, arith,
}
use inference_perf.Replay.Graph.{InputSegment}
use inference_perf.Builder.Segments.{
  rescale_from, rescale_segments_to_wire, map_input_from, flatten, expansion_of,
}
use inference_perf.Builder.Segments.Cover.{message_counts}

-- The messages of each segment.
unfoldable pub slices {ℓ} : {A : Type ℓ} → List (InputSegment × List A) → List (List A)
slices [] = []
slices ((seg, messages) ∷ rest) = messages ∷ slices rest

drop-length-append {ℓ} :
    {A : Type ℓ} (xs ys : List A) (n : ℕ) → drop (length xs + n) (xs ++ ys) ≡ drop n ys
drop-length-append [] ys n = ap (λ k. drop k ys) (omega arith)
drop-length-append (x ∷ xs) ys n =
    let e : length (x ∷ xs) + n ≡ suc (length xs + n) = omega arith in
    rw e (drop-length-append xs ys n)

take-length-append {ℓ} :
    {A : Type ℓ} (xs ys : List A) (n : ℕ) → take (length xs + n) (xs ++ ys) ≡ xs ++ take n ys
take-length-append [] ys n = ap (λ k. take k ys) (omega arith)
take-length-append (x ∷ xs) ys n =
    let e : length (x ∷ xs) + n ≡ suc (length xs + n) = omega arith in
    rw e (ap (◌∷◌ x) (take-length-append xs ys n))

module _ {ℓ κ} {A : Type ℓ} {B : Type κ} (f : A → List B) where
  take-flatten :
      (n : ℕ) (xs : List A)
      → take (sum (take n (expansion_of f xs))) (flatten f xs) ≡ flatten f (take n xs)
  unfolding flatten expansion_of
  take-flatten zero xs = refl
  take-flatten (suc n) [] = refl
  take-flatten (suc n) (x ∷ xs) =
      take-length-append (f x) (flatten f xs) (sum (take n (expansion_of f xs)))
      ∙ ap (◌++◌ (f x)) (take-flatten n xs)

  drop-flatten :
      (n : ℕ) (xs : List A)
      → drop (sum (take n (expansion_of f xs))) (flatten f xs) ≡ flatten f (drop n xs)
  unfolding flatten expansion_of
  drop-flatten zero xs = refl
  drop-flatten (suc n) [] = refl
  drop-flatten (suc n) (x ∷ xs) =
      drop-length-append (f x) (flatten f xs) (sum (take n (expansion_of f xs))) ∙ drop-flatten n xs

  drop-expansion_of :
      (n : ℕ) (xs : List A) → drop n (expansion_of f xs) ≡ expansion_of f (drop n xs)
  unfolding expansion_of
  drop-expansion_of zero xs = refl
  drop-expansion_of (suc n) [] = refl
  drop-expansion_of (suc n) (x ∷ xs) = drop-expansion_of n xs

take-nil : (n : ℕ) → take {A = ℕ} n [] ≡ []
take-nil zero = refl
take-nil (suc n) = refl

sum-take-add :
    (n k : ℕ) (xs : List ℕ) → sum (take n xs) + sum (take k (drop n xs)) ≡ sum (take (n + k) xs)
sum-take-add zero k xs = let e : 0 + k ≡ k = omega arith in rw e (omega arith)
sum-take-add (suc n) k [] = rw (take-nil k, take-nil (suc n + k)) (omega arith)
sum-take-add (suc n) k (x ∷ xs) =
    let e : suc n + k ≡ suc (n + k) = omega arith in rw e (omega (arith, sum-take-add n k xs))

module _ {ℓ κ} {A : Type ℓ} {B : Type κ} (f : A → List B) where
  slice-flatten :
      (n k : ℕ) (xs : List A)
      → take
          (sum (take k (drop n (expansion_of f xs))))
          (drop (sum (take n (expansion_of f xs))) (flatten f xs))
        ≡ flatten f (take k (drop n xs))
  slice-flatten n k xs =
      rw (drop-flatten f n xs, drop-expansion_of f n xs) (take-flatten f k (drop n xs))

  slices-rescale_from :
      (cursor : ℕ) (segments : List InputSegment) (xs : List A)
      → slices (
          map_input_from
            (sum (take cursor (expansion_of f xs)))
            (rescale_from cursor segments (expansion_of f xs))
            (flatten f xs))
        ≡ map (flatten f) (slices (map_input_from cursor segments xs))
  unfolding slices map_input_from rescale_from
  slices-rescale_from cursor [] xs = refl
  slices-rescale_from cursor (seg ∷ segments) xs =
      let next = sum-take-add cursor seg.message_count (expansion_of f xs) in
      rw (next, slice-flatten cursor seg.message_count xs)
        (ap (◌∷◌ (flatten f (take seg.message_count (drop cursor xs))))
          (slices-rescale_from (cursor + seg.message_count) segments xs))

  -- A segment that is rescaled covers exactly the wire messages that its recorded messages expand to,
  -- whatever each message expands to, and wherever the segments end.
  pub slices-rescale_segments_to_wire :
      (segments : List InputSegment) (messages : List A)
      → slices (
          map_input_from 0
            (rescale_segments_to_wire segments (expansion_of f messages))
            (flatten f messages))
        ≡ map (flatten f) (slices (map_input_from 0 segments messages))
  unfolding rescale_segments_to_wire
  slices-rescale_segments_to_wire segments messages = slices-rescale_from 0 segments messages

  rescale_from-counts :
      (cursor : ℕ) (segments : List InputSegment) (expansion : List ℕ)
      → sum (take cursor expansion) + message_counts (rescale_from cursor segments expansion)
        ≡ sum (take (cursor + message_counts segments) expansion)
  unfolding rescale_from
  rescale_from-counts cursor [] expansion =
      let e : cursor + 0 ≡ cursor = omega arith in rw e (omega arith)
  rescale_from-counts cursor (seg ∷ segments) expansion =
      let e : cursor + (seg.message_count + message_counts segments)
          ≡ (cursor + seg.message_count) + message_counts segments =
        omega arith in
      rw e (
        omega (
          arith,
          rescale_from-counts (cursor + seg.message_count) segments expansion,
          sum-take-add cursor seg.message_count expansion,
        ))

  take-expansion_of : (xs : List A) → take (length xs) (expansion_of f xs) ≡ expansion_of f xs
  unfolding expansion_of
  take-expansion_of [] = refl
  take-expansion_of (x ∷ xs) = ap (◌∷◌ (length (f x))) (take-expansion_of xs)

  length-flatten : (xs : List A) → length (flatten f xs) ≡ sum (expansion_of f xs)
  unfolding flatten expansion_of
  length-flatten [] = refl
  length-flatten (x ∷ xs) = omega (arith, length-append (f x) (flatten f xs), length-flatten xs)

  -- Segments that cover the recorded messages are rescaled to segments that cover the wire messages.
  pub message_counts-rescale :
      (segments : List InputSegment) (messages : List A)
      → message_counts segments ≡ length messages
      → message_counts (rescale_segments_to_wire segments (expansion_of f messages))
        ≡ length (flatten f messages)
  unfolding rescale_segments_to_wire
  message_counts-rescale segments messages h =
      let counts = rescale_from-counts 0 segments (expansion_of f messages) in
      let e : 0 + message_counts segments ≡ length messages = omega arith in
      let counts' = rw (e, take-expansion_of messages) at counts in
      omega (arith, length-flatten messages)
