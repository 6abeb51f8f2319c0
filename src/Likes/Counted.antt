-- ===== src/Likes/Counted.antt =====
-- The list of likes after a like or its removal.
use furtalk.Base.{
  ℕ, ◌≤◌, ◌≡◌, refl, Bool, true, false, not, List, [], ◌∷◌, ◌++◌, any, filter, count, arith,
}
use furtalk.Base.Counting.{count-append}
use furtalk.Domain.Entities.{Like}
use furtalk.Store.Likes.{is_like, like_of, with_like, without_like}
use furtalk.Base.Equality.{nat_eq}

module _ {ℓ} {A : Type ℓ} (p : A → Bool) where
  pub filter-none : (xs : List A) → any p xs ≡ false → filter (λ x. not (p x)) xs ≡ xs
  filter-none [] h = refl
  filter-none (x ∷ xs) h = ground (arith, filter-none xs)

  pub filter-append : (xs ys : List A) → filter p (xs ++ ys) ≡ filter p xs ++ filter p ys
  filter-append [] ys = refl
  filter-append (x ∷ xs) ys = ground (arith, filter-append xs ys)

  pub any-append : (xs ys : List A) → any p xs ≡ true → any p (xs ++ ys) ≡ true
  any-append [] ys h = absurd (ground arith)
  any-append (x ∷ xs) ys h = ground (arith, any-append xs ys)

  pub any-append_last : (xs : List A) (y : A) → p y ≡ true → any p (xs ++ y ∷ []) ≡ true
  any-append_last [] y h = ground arith
  any-append_last (x ∷ xs) y h = ground (arith, any-append_last xs y)

  pub count-none : (xs : List A) → any p xs ≡ false → count p xs ≡ 0
  count-none [] h = refl
  count-none (x ∷ xs) h = ground (arith, count-none xs)

append-nil {ℓ} : {A : Type ℓ} (xs : List A) → xs ++ [] ≡ xs
append-nil [] = refl
append-nil (x ∷ xs) = ground (arith, append-nil xs)

module _ (s c u : ℕ) where
  pub is_like_self : is_like s c u (like_of s c u) ≡ true
  is_like_self = ground arith

  pub any-with_like : (ls : List Like) → any (is_like s c u) (with_like s c u ls) ≡ true
  any-with_like ls =
      ground (arith, any-append_last (is_like s c u) ls (like_of s c u), is_like_self)

  -- A like that was not there is gone without a trace.
  pub without_like-with_like :
      (ls : List Like)
      → any (is_like s c u) ls ≡ false
      → without_like s c u (with_like s c u ls) ≡ ls
  without_like-with_like ls h = ground (
    arith,
    filter-append (λ l. not (is_like s c u l)) ls (like_of s c u ∷ []),
    filter-none (is_like s c u) ls,
    is_like_self,
    append-nil ls,
  )

  pub count-with_like :
      (s' c' u' : ℕ) (ls : List Like)
      → count (is_like s' c' u') ls ≤ 1
      → count (is_like s' c' u') (with_like s c u ls) ≤ 1
  count-with_like s' c' u' ls h = ground (
    arith,
    count-append (is_like s' c' u') ls (like_of s c u ∷ []),
    count-none (is_like s c u) ls,
  )
