-- ===== src/Common/Tests.antt =====
-- Boolean tests on numbers, the conditional, and case splits that keep their equation.
use Prim.Native.Nat.{ℕ, zero, suc, ◌<◌, compare, Ordering}
use mathlib.Core.List.{List, [], ◌∷◌}
use mathlib.Core.Path.{◌≡◌, refl}
use mathlib.Core.Logic.{◌↔◌, ◌⊎◌, inl, inr}
use mathlib.Core.Bool.{Bool, true, false}
use mathlib.Core.Option.{Option, none, some}
use native.Mathlib.Omega.{arith}

abbrev pub ltb : ℕ → ℕ → Bool
ltb a b = elim (compare a b) [ Ordering.lt ↦ true | _ ↦ false ]

abbrev pub leb : ℕ → ℕ → Bool
leb a b = elim (compare a b) [ Ordering.gt ↦ false | _ ↦ true ]

infix 50 ◌==◌
abbrev pub ◌==◌ : ℕ → ℕ → Bool
a == b = elim (compare a b) [ Ordering.eq ↦ true | _ ↦ false ]

infix 1 if◌then◌else◌
abbrev pub if◌then◌else◌ {ℓ} : {A : Type ℓ} → Bool → A → A → A
if true then x else y = x
if false then x else y = y

pub lt→ltb : (a b : ℕ) → a < b → ltb a b ≡ true
lt→ltb a b h = ground arith

pub ==_iff : (a b : ℕ) → ((a == b) ≡ true) ↔ (a ≡ b)
==_iff a b = ground arith

pub Bool-cases : (b : Bool) → (b ≡ true) ⊎ (b ≡ false)
Bool-cases true = inl refl
Bool-cases false = inr refl

pub Option-cases {ℓ} : {A : Type ℓ} (o : Option A) → (o ≡ none) ⊎ ((a : A) × (o ≡ some a))
Option-cases none = inl refl
Option-cases (some a) = inr (a, refl)

-- What a chain of fallible steps went through, if it ended well.
pub bind_inv {ℓ κ} :
    {A : Type ℓ} {C : Type κ} (o : Option A) (f : A → Option C) {r : C}
    → (elim o as (λ _. Option C) [ none ↦ none | some a ↦ f a ]) ≡ some r
    → (a : A) × (o ≡ some a) × (f a ≡ some r)
bind_inv none f e = cc
bind_inv (some a) f e = (a, refl, e)

pub some_eq {ℓ} : {A : Type ℓ} {a b : A} → some a ≡ some b → a ≡ b
some_eq e = cc

-- The same for a test that has to fail, a count that has to be positive and a list that has to have an element.
pub false_inv {ℓ} :
    {A : Type ℓ} (b : Bool) (o : Option A) {r : A}
    → (elim b as (λ _. Option A) [ true ↦ none | false ↦ o ]) ≡ some r
    → o ≡ some r
false_inv true o e = cc
false_inv false o e = e

pub suc_inv {ℓ} :
    {A : Type ℓ} (n : ℕ) (f : ℕ → Option A) {r : A}
    → (elim n as (λ _. Option A) [ zero ↦ none | suc m ↦ f m ]) ≡ some r
    → (m : ℕ) × (n ≡ suc m) × (f m ≡ some r)
suc_inv zero f e = cc
suc_inv (suc m) f e = (m, refl, e)

pub cons_inv {ℓ κ} :
    {B : Type κ} {A : Type ℓ} (xs : List B) (f : B → List B → Option A) {r : A}
    → (elim xs as (λ _. Option A) [ [] ↦ none | y ∷ ys ↦ f y ys ]) ≡ some r
    → (y : B) × (ys : List B) × (xs ≡ y ∷ ys) × (f y ys ≡ some r)
cons_inv [] f e = cc
cons_inv (y ∷ ys) f e = (y, ys, refl, e)
