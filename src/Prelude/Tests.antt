-- ===== src/Prelude/Tests.antt =====
-- Boolean tests on the native numbers, the conditional, and the interface of equality.
use Prim.Native.Nat.{ℕ, ◌≤◌, ◌<◌, compare, Ordering}
use Prim.Native.String.{String}
use mathlib.Core.Path.{◌≡◌, refl}
use mathlib.Core.Logic.{◌↔◌, ◌⊎◌, inl, inr}
use mathlib.Core.Bool.{Bool, true, false}
use mathlib.Core.Option.{Option, none, some}
use native.Mathlib.Omega.{arith}
use text.Mathlib.Text.{◌==◌ as string_beq}
use text.Mathlib.TextEquality.{eq_iff}

abbrev pub ltb : ℕ → ℕ → Bool
ltb a b = elim (compare a b) [ Ordering.lt ↦ true | _ ↦ false ]

abbrev pub leb : ℕ → ℕ → Bool
leb a b = elim (compare a b) [ Ordering.gt ↦ false | _ ↦ true ]

abbrev pub nat_beq : ℕ → ℕ → Bool
nat_beq a b = elim (compare a b) [ Ordering.eq ↦ true | _ ↦ false ]

infix 1 if◌then◌else◌
abbrev pub if◌then◌else◌ {ℓ} : {A : Type ℓ} → Bool → A → A → A
if true then x else y = x
if false then x else y = y

pub ltb→lt : (a b : ℕ) → ltb a b ≡ true → a < b
ltb→lt a b h = ground arith

pub lt→ltb : (a b : ℕ) → a < b → ltb a b ≡ true
lt→ltb a b h = ground arith

pub leb→le : (a b : ℕ) → leb a b ≡ true → a ≤ b
leb→le a b h = ground arith

pub le→leb : (a b : ℕ) → a ≤ b → leb a b ≡ true
le→leb a b h = ground arith

pub nat_beq_iff : (a b : ℕ) → (nat_beq a b ≡ true) ↔ (a ≡ b)
nat_beq_iff a b = ground arith

-- What a Python dictionary or set asks of its keys.
pub record Eq {ℓ} (Key : Type ℓ) : Type ℓ where
  pub test : Key → Key → Bool
  pub test_iff : (j k : Key) → (test j k ≡ true) ↔ (j ≡ k)

abbrev pub ◌==◌ {ℓ} : {Key : Type ℓ} ⦃e : Eq Key⦄ → Key → Key → Bool
◌==◌ ⦃e⦄ j k = e.test j k

infix 50 ◌==◌
instance abbrev pub text_key : Eq String
text_key = record { test = string_beq; test_iff = eq_iff }

instance abbrev pub number_key : Eq ℕ
number_key = record { test = nat_beq; test_iff = nat_beq_iff }

-- To split on a computed value and keep the equation.
pub Bool-cases : (b : Bool) → (b ≡ true) ⊎ (b ≡ false)
Bool-cases true = inl refl
Bool-cases false = inr refl

pub Option-cases {ℓ} : {A : Type ℓ} (o : Option A) → (o ≡ none) ⊎ ((a : A) × (o ≡ some a))
Option-cases none = inl refl
Option-cases (some a) = inr (a, refl)

-- The result of code that may raise: `E` is the type of what it raises.
pub data Result {ℓ} (E : Type ℓ) (A : Type ℓ) : Type ℓ where
  ok : A → Result E A
  err : E → Result E A

abbrev pub map_ok {ℓ} : {E A B : Type ℓ} → (A → B) → Result E A → Result E B
map_ok f (err e) = err e
map_ok f (ok a) = ok (f a)

-- A result that `map_ok` gives comes from one.
pub from_ok {ℓ} :
    {E A B : Type ℓ} (f : A → B) (x : Result E A) (b : B)
    → map_ok f x ≡ ok b
    → (a : A) × (x ≡ ok a) × (f a ≡ b)
from_ok f (err e) b q = cc
from_ok f (ok a) b q = (a, refl, cc)
