-- ===== src/Likes.antt =====
-- internal/service/comment/like.go: liking a comment and taking the like back.
mod Counted
pub mod Laws
use furtalk.Base.{ℕ}
use furtalk.Store.{Action, pure, ◌>>=◌}
use furtalk.Store.Likes.{LikeResult, add_like, remove_like}

-- The service's `LikeResult` has the fields of the repository's.
unfoldable pub like_comment : ℕ → ℕ → ℕ → Action LikeResult
like_comment site_id comment_id user_id = do
  row ← add_like site_id comment_id user_id
  pure (record { comment_id = row.comment_id; like_count = row.like_count; liked = row.liked })

unfoldable pub unlike_comment : ℕ → ℕ → ℕ → Action LikeResult
unlike_comment site_id comment_id user_id = do
  row ← remove_like site_id comment_id user_id
  pure (record { comment_id = row.comment_id; like_count = row.like_count; liked = row.liked })
