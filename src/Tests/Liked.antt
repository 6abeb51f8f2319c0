-- ===== src/Tests/Liked.antt =====
-- The theorems on likes, applied.
use furtalk.Base.{◌≡◌, refl, true, false, arith}
use furtalk.Store.{ok}
use furtalk.Store.Likes.{result_of}
use furtalk.Likes.{like_comment, unlike_comment}
use furtalk.Likes.Laws
use furtalk.Likes.Laws.{LikesSound}
use furtalk.Moderation.Commands.{hard_delete_one}
use furtalk.Tests.Data.{small}

-- User 1 likes comment 2 and takes the like back; user 3's like of comment 1 stays.
unlike_comment-like_comment_example :
    ((like_comment 1 2 1 small).0 ≡ ok (result_of 2 1 true))
    × (unlike_comment 1 2 1 (like_comment 1 2 1 small).1 ≡ (ok (result_of 2 0 false), small))
unlike_comment-like_comment_example = Laws.unlike_comment-like_comment 1 2 1 small refl refl refl

like_comment-like_comment_example :
    like_comment 1 1 3 (like_comment 1 1 3 small).1 ≡ like_comment 1 1 3 small
like_comment-like_comment_example = Laws.like_comment-like_comment 1 1 3 small

small-LikesSound : LikesSound small
small-LikesSound = (λ s c u. ground arith, (refl, tt))

like_comment-LikesSound_example :
    LikesSound (like_comment 1 2 1 small).1
    × LikesSound (unlike_comment 1 2 1 small).1
    × LikesSound (hard_delete_one 1 2 small).1
like_comment-LikesSound_example = Laws.like_comment-LikesSound 1 2 1 small small-LikesSound
