-- ===== src/Base/Counting.antt =====
-- How a count changes when the test, or some of the elements, change.
use Prim.Native.Nat.{◌+◌, ◌≤◌}
use mathlib.Core.Path.{◌≡◌, refl}
use mathlib.Core.Bool.{Bool, true, not, ◌&&◌}
use mathlib.Core.List.{List, [], ◌∷◌, ◌++◌}
use native.Mathlib.Omega.{arith}
use furtalk.Base.Lists.{count, filter, update_where}

module _ {ℓ} {A : Type ℓ} where
  pub count_mono :
      (p q : A → Bool)
      → ((x : A) → p x ≡ true → q x ≡ true)
      → (xs : List A) → count p xs ≤ count q xs
  count_mono p q k [] = omega arith
  count_mono p q k (x ∷ xs) = ground (arith, k x, count_mono p q k xs)

  -- Elements that the test leaves out of account do not matter.
  pub count-split :
      (p q : A → Bool) (xs : List A) → count p xs ≤ count (λ x. p x && not (q x)) xs + count q xs
  count-split p q [] = omega arith
  count-split p q (x ∷ xs) = ground (arith, count-split p q xs)

  -- What an update does not touch still counts.
  pub count-update_where :
      (p q : A → Bool) (f : A → A) (xs : List A)
      → count (λ x. p x && not (q x)) xs ≤ count p (update_where q f xs)
  count-update_where p q f [] = omega arith
  count-update_where p q f (x ∷ xs) = ground (arith, count-update_where p q f xs)

  pub count-update_where-kept :
      (p q : A → Bool) (f : A → A)
      → ((x : A) → q x ≡ true → p x ≡ true → p (f x) ≡ true)
      → (xs : List A) → count p xs ≤ count p (update_where q f xs)
  count-update_where-kept p q f k [] = omega arith
  count-update_where-kept p q f k (x ∷ xs) = ground (arith, k x, count-update_where-kept p q f k xs)

  -- An update that does not touch what the test reads does not change the count.
  pub count-update_where-same :
      (p q : A → Bool) (f : A → A)
      → ((x : A) → p (f x) ≡ p x)
      → (xs : List A) → count p (update_where q f xs) ≡ count p xs
  count-update_where-same p q f k [] = refl
  count-update_where-same p q f k (x ∷ xs) = ground (arith, k x, count-update_where-same p q f k xs)

  pub count-filter :
      (p q : A → Bool) (xs : List A) → count p (filter q xs) ≡ count (λ x. p x && q x) xs
  count-filter p q [] = refl
  count-filter p q (x ∷ xs) = ground (arith, count-filter p q xs)

  pub count-filter-le : (p q : A → Bool) (xs : List A) → count p (filter q xs) ≤ count p xs
  count-filter-le p q [] = omega arith
  count-filter-le p q (x ∷ xs) = ground (arith, count-filter-le p q xs)

  pub count-append : (p : A → Bool) (xs ys : List A) → count p (xs ++ ys) ≡ count p xs + count p ys
  count-append p [] ys = omega arith
  count-append p (x ∷ xs) ys = ground (arith, count-append p xs ys)
