-- ===== src/Base/Assoc.antt =====
-- Go maps keyed by text as association lists: each key stands at most once.
use Prim.Native.Nat.{ℕ, suc, ◌≤◌}
use mathlib.Core.Path.{◌≡◌, refl}
use mathlib.Core.Bool.{Bool, false}
use mathlib.Core.List.{List, [], ◌∷◌}
use mathlib.Core.Option.{Option, none, some}
use native.Mathlib.Omega.{arith}
use furtalk.Base.Tests.{if◌then◌else◌, is_some}
use furtalk.Base.Lists.{length}
use furtalk.Base.Equality.{◌==◌, text_eq, list_beq, list_beq_iff}

abbrev pub Key : Type 0
Key = List ℕ

module _ {V : Type 0} where
  abbrev pub lookup : Key → List (Key × V) → Option V
  lookup key [] = none
  lookup key ((k, v) ∷ rest) = if k == key then some v else lookup key rest

  -- `m[key] = v`
  abbrev pub insert : Key → V → List (Key × V) → List (Key × V)
  insert key v [] = (key, v) ∷ []
  insert key v ((k, old) ∷ rest) = if k == key then (k, v) ∷ rest else (k, old) ∷ insert key v rest

  -- `delete(m, key)`
  abbrev pub remove : Key → List (Key × V) → List (Key × V)
  remove key [] = []
  remove key ((k, v) ∷ rest) = if k == key then remove key rest else (k, v) ∷ remove key rest

  -- The entries that pass a test.
  abbrev pub keep : (Key → V → Bool) → List (Key × V) → List (Key × V)
  keep p [] = []
  keep p ((k, v) ∷ rest) = if p k v then (k, v) ∷ keep p rest else keep p rest

  abbrev pub Distinct : List (Key × V) → Type 0
  Distinct [] = Unit {0}
  Distinct ((k, v) ∷ rest) = (lookup k rest ≡ none) × Distinct rest

  abbrev pub only : (V → Bool) → Option V → Option V
  only p none = none
  only p (some v) = if p v then some v else none

module _ {V : Type 0} where
  pub lookup-insert_self :
      (key : Key) (v : V) (m : List (Key × V)) → lookup key (insert key v m) ≡ some v
  lookup-insert_self key v [] = ground (arith, list_beq_iff key key)
  lookup-insert_self key v ((k, old) ∷ rest) =
      ground (arith, list_beq_iff k key, lookup-insert_self key v rest)

  pub lookup-insert_other :
      (key other : Key) (v : V) (m : List (Key × V))
      → list_beq key other ≡ false
      → lookup other (insert key v m) ≡ lookup other m
  lookup-insert_other key other v [] h = ground arith
  lookup-insert_other key other v ((k, old) ∷ rest) h =
      ground (arith, list_beq_iff k key, list_beq_iff k other, lookup-insert_other key other v rest)

  pub lookup-remove_self : (key : Key) (m : List (Key × V)) → lookup key (remove key m) ≡ none
  lookup-remove_self key [] = refl
  lookup-remove_self key ((k, v) ∷ rest) = ground (arith, lookup-remove_self key rest)

  pub lookup-remove_other :
      (key other : Key) (m : List (Key × V))
      → list_beq key other ≡ false
      → lookup other (remove key m) ≡ lookup other m
  lookup-remove_other key other [] h = refl
  lookup-remove_other key other ((k, v) ∷ rest) h =
      ground (arith, list_beq_iff k key, list_beq_iff k other, lookup-remove_other key other rest)

  pub lookup-keep :
      (p : Key → V → Bool) (key : Key) (m : List (Key × V))
      → Distinct m
      → lookup key (keep p m) ≡ only (p key) (lookup key m)
  lookup-keep p key [] d = refl
  lookup-keep p key ((k, v) ∷ rest) d =
      ground (arith, list_beq_iff k key, lookup-keep p key rest d.1)

  pub Distinct-insert :
      (key : Key) (v : V) (m : List (Key × V)) → Distinct m → Distinct (insert key v m)
  Distinct-insert key v [] d = (refl, tt)
  Distinct-insert key v ((k, old) ∷ rest) d = ground (
    arith,
    d,
    list_beq_iff k key,
    list_beq_iff key k,
    lookup-insert_other key k v rest,
    Distinct-insert key v rest,
  )

  pub Distinct-remove : (key : Key) (m : List (Key × V)) → Distinct m → Distinct (remove key m)
  Distinct-remove key [] d = tt
  Distinct-remove key ((k, v) ∷ rest) d = ground (
    arith,
    d,
    list_beq_iff k key,
    list_beq_iff key k,
    lookup-remove_other key k rest,
    Distinct-remove key rest,
  )

  pub Distinct-keep : (p : Key → V → Bool) (m : List (Key × V)) → Distinct m → Distinct (keep p m)
  Distinct-keep p [] d = tt
  Distinct-keep p ((k, v) ∷ rest) d = ground (arith, d, lookup-keep p k rest, Distinct-keep p rest)

  pub length-remove-le : (key : Key) (m : List (Key × V)) → length (remove key m) ≤ length m
  length-remove-le key [] = omega arith
  length-remove-le key ((k, v) ∷ rest) = ground (arith, length-remove-le key rest)

  pub length-keep-le : (p : Key → V → Bool) (m : List (Key × V)) → length (keep p m) ≤ length m
  length-keep-le p [] = omega arith
  length-keep-le p ((k, v) ∷ rest) = ground (arith, length-keep-le p rest)

  -- A write to a key that is there takes no room.
  pub length-insert :
      (key : Key) (v : V) (m : List (Key × V))
      → length (insert key v m) ≡ (if is_some (lookup key m) then length m else suc (length m))
  length-insert key v [] = refl
  length-insert key v ((k, old) ∷ rest) = ground (arith, length-insert key v rest)
