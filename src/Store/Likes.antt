-- ===== src/Store/Likes.antt =====
-- internal/repository/comment_like.go: the statements on `comment_likes`, a table with a unique index
-- on site, comment and user, and with a foreign key to `users`.
use furtalk.Base.{
  ℕ, Bool, true, false, not, ◌&&◌, List, [], ◌∷◌, ◌++◌, any, filter, count, if◌then◌else◌,
}
use furtalk.Base.Equality.{◌==◌, nat_eq}
use furtalk.Domain.{CommentStatus, comment_status_eq, not_found, internal}
use furtalk.Domain.Entities.{Comment, Like}
use furtalk.Store.{Action, pure, gets, raise_if, modify, run_in_tx, ◌>>=◌, ◌>>◌}
use furtalk.Store.Comments.{is_row}

pub record LikeResult : Type 0 where
  pub comment_id : ℕ
  pub like_count : ℕ
  pub liked : Bool

abbrev pub result_of : ℕ → ℕ → Bool → LikeResult
result_of comment_id n liked = record { comment_id = comment_id; like_count = n; liked = liked }

abbrev pub is_on : ℕ → ℕ → Like → Bool
is_on site_id comment_id l = l.site_id == site_id && l.comment_id == comment_id

-- `site_id = ? AND comment_id = ? AND user_id = ?`
abbrev pub is_like : ℕ → ℕ → ℕ → Like → Bool
is_like site_id comment_id user_id l = is_on site_id comment_id l && l.user_id == user_id

abbrev pub is_published_row : ℕ → ℕ → Comment → Bool
is_published_row site_id comment_id c =
    is_row site_id comment_id c && c.status == CommentStatus.published

unfoldable pub require_published_comment : ℕ → ℕ → Action (Unit {0})
require_published_comment site_id comment_id = do
  n ← gets (λ db. count (is_published_row site_id comment_id) db.comments)
  raise_if (n == 0) not_found

unfoldable pub like_count : ℕ → ℕ → Action ℕ
like_count site_id comment_id = gets (λ db. count (is_on site_id comment_id) db.likes)

abbrev pub like_of : ℕ → ℕ → ℕ → Like
like_of site_id comment_id user_id = record {
  site_id = site_id;
  comment_id = comment_id;
  user_id = user_id;
}

-- The row goes in unless the unique index has it.
abbrev pub with_like : ℕ → ℕ → ℕ → List Like → List Like
with_like site_id comment_id user_id ls =
    if any (is_like site_id comment_id user_id) ls
    then ls
    else ls ++ like_of site_id comment_id user_id ∷ []

-- INSERT … ON CONFLICT DO NOTHING; a user that is not there breaks the foreign key.
unfoldable pub insert_like : ℕ → ℕ → ℕ → Action (Unit {0})
insert_like site_id comment_id user_id = do
  known ← gets (λ db. any (λ u. u.id == user_id) db.users)
  raise_if (not known) internal
  modify (λ db. record db { likes = with_like site_id comment_id user_id db.likes })

abbrev pub without_like : ℕ → ℕ → ℕ → List Like → List Like
without_like site_id comment_id user_id = filter (λ l. not (is_like site_id comment_id user_id l))

unfoldable pub add_like : ℕ → ℕ → ℕ → Action LikeResult
unfolding require_published_comment insert_like like_count
add_like site_id comment_id user_id = run_in_tx (do
  require_published_comment site_id comment_id
  insert_like site_id comment_id user_id
  n ← like_count site_id comment_id
  pure (result_of comment_id n true))

unfoldable pub remove_like : ℕ → ℕ → ℕ → Action LikeResult
unfolding require_published_comment like_count
remove_like site_id comment_id user_id = run_in_tx (do
  require_published_comment site_id comment_id
  modify (λ db. record db { likes = without_like site_id comment_id user_id db.likes })
  n ← like_count site_id comment_id
  pure (result_of comment_id n false))
