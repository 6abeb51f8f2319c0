-- ===== src/Base/Equality.antt =====
-- One operator `==` for every type whose values the program compares.
use Prim.Native.Nat.{ℕ}
use mathlib.Core.Path.{◌≡◌}
use mathlib.Core.Logic.{◌↔◌}
use mathlib.Core.Bool.{Bool, true, false, ◌&&◌, ◌||◌}
use mathlib.Core.List.{List, [], ◌∷◌}
use mathlib.Core.Option.{Option, none, some}
use native.Mathlib.Omega.{arith}
use furtalk.Base.Tests.{nat_beq, nat_beq_iff}

-- A test on the values of a type that decides whether they are equal.
pub record Comparable {κ} (T : Type κ) : Type κ where
  pub same : T → T → Bool
  pub same_iff : (x y : T) → (same x y ≡ true) ↔ (x ≡ y)

instance abbrev pub nat_eq : Comparable ℕ
nat_eq = record { same = nat_beq; same_iff = nat_beq_iff }

abbrev pub ◌==◌ {κ} : {T : Type κ} ⦃c : Comparable T⦄ → T → T → Bool
◌==◌ ⦃c = c⦄ x y = c.same x y

infix 50 ◌==◌
-- Two texts, code point by code point.
abbrev pub list_beq : List ℕ → List ℕ → Bool
list_beq [] [] = true
list_beq [] (y ∷ ys) = false
list_beq (x ∷ xs) [] = false
list_beq (x ∷ xs) (y ∷ ys) = nat_beq x y && list_beq xs ys

pub list_beq_iff : (a b : List ℕ) → (list_beq a b ≡ true) ↔ (a ≡ b)
list_beq_iff [] [] = ground arith
list_beq_iff [] (y ∷ ys) = ground arith
list_beq_iff (x ∷ xs) [] = ground arith
list_beq_iff (x ∷ xs) (y ∷ ys) = ground (arith, list_beq_iff xs ys)

instance abbrev pub text_eq : Comparable (List ℕ)
text_eq = record { same = list_beq; same_iff = list_beq_iff }

abbrev pub bool_beq : Bool → Bool → Bool
bool_beq true true = true
bool_beq false false = true
bool_beq _ _ = false

pub bool_beq_iff : (a b : Bool) → (bool_beq a b ≡ true) ↔ (a ≡ b)
bool_beq_iff a b = ground arith

instance abbrev pub bool_eq : Comparable Bool
bool_eq = record { same = bool_beq; same_iff = bool_beq_iff }

-- A pointer to a number: nil is equal to nil alone.
abbrev pub pointer_beq : Option ℕ → Option ℕ → Bool
pointer_beq none none = true
pointer_beq (some a) (some b) = nat_beq a b
pointer_beq _ _ = false

pub pointer_beq_iff : (a b : Option ℕ) → (pointer_beq a b ≡ true) ↔ (a ≡ b)
pointer_beq_iff a b = ground arith

instance abbrev pub pointer_eq : Comparable (Option ℕ)
pointer_eq = record { same = pointer_beq; same_iff = pointer_beq_iff }

-- `slices.Contains`.
abbrev pub contains {κ} : {T : Type κ} ⦃c : Comparable T⦄ → List T → T → Bool
contains [] y = false
contains (x ∷ xs) y = x == y || contains xs y
