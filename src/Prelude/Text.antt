-- ===== src/Prelude/Text.antt =====
-- Python's `str` as the list of its code points, for identifiers that the program takes apart.
use Prim.Native.Char.{code}
use Prim.Native.String.{String}
use Prim.Native.Nat.{ℕ}
use mathlib.Core.Path.{◌≡◌, refl}
use mathlib.Core.Logic.{◌↔◌}
use mathlib.Core.Bool.{Bool, true, false, ◌&&◌}
use mathlib.Core.Option.{Option, none, some}
use mathlib.Core.List.{List, [], ◌∷◌}
use native.Mathlib.Omega.{arith}
use inference_perf.Prelude.Tests.{Eq, ltb, nat_beq, if◌then◌else◌}

abbrev pub Text : Type 0
Text = List ℕ

abbrev pub codes : String → Text
codes String.[] = []
codes (String.◌∷◌ c s) = code c ∷ codes s

abbrev pub colon : ℕ
colon = b':'

-- The text before its first colon; the whole text where it has none.
unfoldable pub before_colon : Text → Text
before_colon [] = []
before_colon (c ∷ t) = let rest = before_colon t in if nat_beq c colon then [] else c ∷ rest

-- The text after its first colon.
unfoldable pub after_colon : Text → Option Text
after_colon [] = none
after_colon (c ∷ t) = let rest = after_colon t in if nat_beq c colon then some t else rest

unfoldable pub text_beq : Text → Text → Bool
text_beq [] [] = true
text_beq (x ∷ s) (y ∷ t) = nat_beq x y && text_beq s t
text_beq _ _ = false

eq_of_text_beq : (s t : Text) → text_beq s t ≡ true → s ≡ t
unfolding text_beq
eq_of_text_beq [] [] h = refl
eq_of_text_beq (x ∷ s) (y ∷ t) h = ground (arith, eq_of_text_beq s t)
eq_of_text_beq [] (y ∷ t) h = cc
eq_of_text_beq (x ∷ s) [] h = cc

text_beq_refl : (s : Text) → text_beq s s ≡ true
unfolding text_beq
text_beq_refl [] = refl
text_beq_refl (x ∷ s) = ground (arith, text_beq_refl s)

pub text_beq_iff : (s t : Text) → (text_beq s t ≡ true) ↔ (s ≡ t)
text_beq_iff s t = (eq_of_text_beq s t, λ e. rw e (text_beq_refl t))

instance abbrev pub code_points_key : Eq Text
code_points_key = record { test = text_beq; test_iff = text_beq_iff }

-- The order of `sorted` on texts: code point by code point, a prefix first.
unfoldable pub text_leb : Text → Text → Bool
text_leb [] t = true
text_leb (x ∷ s) [] = false
text_leb (x ∷ s) (y ∷ t) =
    let rest = text_leb s t in if ltb x y then true else if nat_beq x y then rest else false

unfoldable pub insert_sorted : Text → List Text → List Text
insert_sorted s [] = s ∷ []
insert_sorted s (t ∷ ts) = if text_leb s t then s ∷ t ∷ ts else t ∷ insert_sorted s ts

unfoldable pub sorted : List Text → List Text
sorted [] = []
sorted (s ∷ ts) = insert_sorted s (sorted ts)
