-- ===== src/Likes/Laws.antt =====
-- Likes: what liking twice and taking a like back do, and the soundness of the table.
use furtalk.Base.{
  subst, sym, ℕ, ◌+◌, ◌≤◌, ◌≡◌, refl, Bool, true, false, not, List, [], ◌∷◌, ◌++◌, any, filter,
  count, All, All-filter, arith, if◌then◌else◌,
}
use furtalk.Base.Counting.{count-append, count-filter-le}
use furtalk.Base.Equality.{◌==◌, nat_eq}
use furtalk.Domain.{not_found, internal}
use furtalk.Domain.Entities.{Comment, Like, User}
use furtalk.Store.{Db, Result, ok, err}
use furtalk.Store.Comments.{is_row}
use furtalk.Store.Likes.{
  LikeResult, is_like, is_on, like_of, with_like, without_like, is_published_row, result_of,
  require_published_comment, insert_like, like_count, add_like, remove_like,
}
use furtalk.Likes.{like_comment, unlike_comment}
use furtalk.Likes.Counted.{any-with_like, without_like-with_like, count-with_like}
use furtalk.Moderation.Commands.{hard_delete_one}
use furtalk.Moderation.HardDelete.{hard_delete_one_exact, deleted_from, remaining}

abbrev pub is_known : ℕ → User → Bool
is_known user_id u = u.id == user_id

count-any : {A : Type 0} (p : A → Bool) (xs : List A) → any p xs ≡ true → (count p xs == 0) ≡ false
count-any p [] h = absurd (ground arith)
count-any p (x ∷ xs) h = ground (arith, count-any p xs)

module _ (s c u : ℕ) (db : Db) where
  abbrev pub liked : Db
  liked = record db { likes = with_like s c u db.likes }

  -- Every branch of a like.
  like_comment_lem : like_comment s c u db ≡ (
      if count (is_published_row s c) db.comments == 0
      then (err not_found, db)
      else if any (is_known u) db.users
      then (ok (result_of c (count (is_on s c) (with_like s c u db.likes)) true), liked)
      else (err internal, db))
  unfolding like_comment add_like require_published_comment insert_like like_count
  like_comment_lem = ground arith

  unlike_comment_lem : unlike_comment s c u db ≡ (
      if count (is_published_row s c) db.comments == 0 then (err not_found, db) else (
        ok (result_of c (count (is_on s c) (without_like s c u db.likes)) false),
        record db { likes = without_like s c u db.likes },
      ))
  unfolding unlike_comment remove_like require_published_comment like_count
  unlike_comment_lem = ground arith

  -- Liking a comment again, with the same outcome as the first time, errors included, changes
  -- nothing: neither the answer nor the database.
  pub like_comment-like_comment :
      like_comment s c u (like_comment s c u db).1 ≡ like_comment s c u db
  unfolding like_comment add_like require_published_comment insert_like like_count
  like_comment-like_comment = ground (arith, any-with_like s c u db.likes)

-- On a published comment that a known user does not like yet, taking the like back after giving it
-- leaves the database as it was, and the count that it returns is the one of before; the like itself
-- returned one more.
pub unlike_comment-like_comment :
    (s c u : ℕ) (db : Db)
    → any (is_published_row s c) db.comments ≡ true
    → any (is_known u) db.users ≡ true
    → any (is_like s c u) db.likes ≡ false
    → ((like_comment s c u db).0 ≡ ok (result_of c (count (is_on s c) db.likes + 1) true))
      × (unlike_comment s c u (like_comment s c u db).1
          ≡ (ok (result_of c (count (is_on s c) db.likes) false), db))
unlike_comment-like_comment s c u db p k n = ground (
  arith,
  like_comment_lem s c u db,
  unlike_comment_lem s c u (liked s c u db),
  without_like-with_like s c u db.likes,
  count-any (is_published_row s c) db.comments,
  count-append (is_on s c) db.likes (like_of s c u ∷ []),
)

-- No user likes a comment twice, and every like is on a comment that is there.
abbrev pub LikesSound : Db → Type 0
LikesSound db =
    ((s c u : ℕ) → count (is_like s c u) db.likes ≤ 1)
    × All (λ l. any (is_row l.site_id l.comment_id) db.comments ≡ true) db.likes

abbrev SoundAfter : {T : Type 0} → Result T × Db → Type 0
SoundAfter r = LikesSound r.1

module _ {A : Type 0} where
  All-filter_self : (p : A → Bool) (xs : List A) → All (λ x. p x ≡ true) (filter p xs)
  All-filter_self p [] = tt
  All-filter_self p (x ∷ xs) = ground (arith, All-filter_self p xs)

  All-append {κ} : (P : A → Type κ) (xs : List A) (y : A) → All P xs → P y → All P (xs ++ y ∷ [])
  All-append P [] y h k = (k, tt)
  All-append P (x ∷ xs) y h k = (h.0, All-append P xs y h.1 k)

is_row_of_published :
    (s c : ℕ) (cs : List Comment)
    → (count (is_published_row s c) cs == 0) ≡ false
    → any (is_row s c) cs ≡ true
is_row_of_published s c [] h = absurd (ground arith)
is_row_of_published s c (x ∷ xs) h = ground (arith, is_row_of_published s c xs)

-- The rows of the comments stay, and so does what the likes are on.
with_like-All :
    (s c u : ℕ) (cs : List Comment) (ls : List Like)
    → (count (is_published_row s c) cs == 0) ≡ false
    → All (λ l. any (is_row l.site_id l.comment_id) cs ≡ true) ls
    → All (λ l. any (is_row l.site_id l.comment_id) cs ≡ true) (with_like s c u ls)
with_like-All s c u cs ls h k = added (any (is_like s c u) ls)
  where
    Q : Like → Type 0
    Q l = any (is_row l.site_id l.comment_id) cs ≡ true

    added : (b : Bool) → All Q (if b then ls else ls ++ like_of s c u ∷ [])
    added true = k
    added false = All-append Q ls (like_of s c u) k (is_row_of_published s c cs h)

like-LikesSound : (s c u : ℕ) (db : Db) → LikesSound db → LikesSound (like_comment s c u db).1
like-LikesSound s c u db h =
    subst SoundAfter (sym (like_comment_lem s c u db))
      (branch (count (is_published_row s c) db.comments == 0) refl (any (is_known u) db.users))
  where
    branch :
        (hidden : Bool)
        → (count (is_published_row s c) db.comments == 0) ≡ hidden
        → (known : Bool)
        → SoundAfter {T = LikeResult} (
            if hidden
            then (err not_found, db)
            else if known
            then (
              ok (result_of c (count (is_on s c) (with_like s c u db.likes)) true),
              liked s c u db,
            )
            else (err internal, db))
    branch true e known = h
    branch false e false = h
    branch false e true = (
      λ s' c' u'. count-with_like s c u s' c' u' db.likes (h.0 s' c' u'),
      with_like-All s c u db.comments db.likes e h.1,
    )

unlike-LikesSound : (s c u : ℕ) (db : Db) → LikesSound db → LikesSound (unlike_comment s c u db).1
unlike-LikesSound s c u db h =
    subst SoundAfter (sym (unlike_comment_lem s c u db))
      (branch (count (is_published_row s c) db.comments == 0))
  where
    left : LikesSound (record db { likes = without_like s c u db.likes })
    left = (
      λ s' c' u'. omega (
        arith,
        count-filter-le (is_like s' c' u') (λ l. not (is_like s c u l)) db.likes,
        h.0 s' c' u',
      ),
      All-filter (λ l. any (is_row l.site_id l.comment_id) db.comments ≡ true) _ db.likes h.1,
    )

    branch :
        (hidden : Bool)
        → SoundAfter {T = LikeResult} (
            if hidden then (err not_found, db) else (
              ok (result_of c (count (is_on s c) (without_like s c u db.likes)) false),
              record db { likes = without_like s c u db.likes },
            ))
    branch true = h
    branch false = left

hard_delete-LikesSound : (s c : ℕ) (db : Db) → LikesSound db → LikesSound (hard_delete_one s c db).1
hard_delete-LikesSound s c db h =
    subst SoundAfter (sym (hard_delete_one_exact s c db)) (branch (any (is_row s c) db.comments))
  where
    branch :
        (found : Bool)
        → SoundAfter (if found then (ok tt, deleted_from s c db) else (err not_found, db))
    branch false = h
    branch true = (
      λ s' c' u'. omega (
        arith,
        count-filter-le (is_like s' c' u')
            (λ l. any (is_row l.site_id l.comment_id) (remaining s c db)) db.likes,
        h.0 s' c' u',
      ),
      All-filter_self (λ l. any (is_row l.site_id l.comment_id) (remaining s c db)) db.likes,
    )

-- Likes, their removal and hard deletions of comments, whatever their outcome, keep the table sound:
-- no user likes a comment twice, and every like is on a comment that is there.
pub like_comment-LikesSound :
    (s c u : ℕ) (db : Db)
    → LikesSound db
    → LikesSound (like_comment s c u db).1
      × LikesSound (unlike_comment s c u db).1
      × LikesSound (hard_delete_one s c db).1
like_comment-LikesSound s c u db h =
    (like-LikesSound s c u db h, unlike-LikesSound s c u db h, hard_delete-LikesSound s c db h)
