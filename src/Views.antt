-- ===== src/Views.antt =====
-- What the comment commands return: `toCommentView` of internal/service/comment/types.go, `viewFor`
-- and `replyToNickname` of create.go, `adminViewFor` of moderation.go. `Env` is what a command takes
-- from other components at the time of the call: the policy of the setting service (or its error),
-- the clock, and the avatar URL of internal/platform/gravatar.
pub mod Reads
use furtalk.Base.{ℕ, Bool, false, Option, none, some, if◌then◌else◌}
use furtalk.Domain.{Role, CommentStatus, CommentMode, is_not_found}
use furtalk.Domain.Entities.{
  Comment, CommentEvent, CommentEventType, CommentPolicy, Captured, Text, Thread, User,
}
use furtalk.Store.{Action, Result, pure, raise, lift, catch, ◌>>=◌}
use furtalk.Store.Users
use furtalk.Store.Threads

pub record Env : Type 0 where
  pub policy : Result CommentPolicy
  pub now : ℕ
  pub gravatar : Text → Text → Text

pub record CommentView : Type 0 where
  pub id : ℕ
  pub site_id : ℕ
  pub thread_id : ℕ
  pub user_id : ℕ
  pub parent_id : Option ℕ
  pub root_id : Option ℕ
  pub depth : ℕ
  pub body_markdown : Text
  pub status : CommentStatus
  pub status_before_delete : Option CommentStatus
  pub is_pinned : Bool
  pub author_nickname : Text
  pub author_website : Option Text
  pub author_role : Role
  pub author_avatar_url : Text
  pub reply_to_user_id : Option ℕ
  pub reply_to_nickname : Option Text
  pub created_at : ℕ
  pub published_at : Option ℕ
  pub deleted_at : Option ℕ
  pub like_count : ℕ
  pub liked_by_me : Bool

pub record AdminCommentView : Type 0 where
  pub view : CommentView
  pub page_title : Option Text
  pub page_url : Option Text
  pub email : Text
  pub captured : Captured

unfoldable pub to_comment_view : Comment → Text → Option Text → Role → Text → CommentView
to_comment_view c nickname website role avatar = record {
  id = c.id;
  site_id = c.site_id;
  thread_id = c.thread_id;
  user_id = c.user_id;
  parent_id = c.parent_id;
  root_id = c.root_id;
  depth = c.depth;
  body_markdown = c.body_markdown;
  status = c.status;
  status_before_delete = c.status_before_delete;
  is_pinned = c.is_pinned;
  author_nickname = nickname;
  author_website = website;
  author_role = role;
  author_avatar_url = avatar;
  reply_to_user_id = c.reply_to_user_id;
  reply_to_nickname = none;
  created_at = c.created_at;
  published_at = c.published_at;
  deleted_at = c.deleted_at;
  like_count = 0;
  liked_by_me = false;
}

-- A reply target that is gone has no nickname; any other error is passed on.
unfoldable pub nickname_of : Option ℕ → Action (Option Text)
nickname_of none = pure none
nickname_of (some id) =
    catch (do u ← Users.find_by_id id; pure (some u.nickname))
      (λ e. if is_not_found e then pure none else raise e)

unfoldable pub reply_to_nickname : Comment → Action (Option Text)
unfolding nickname_of
reply_to_nickname c = nickname_of c.reply_to_user_id

-- The view of a comment, from its author, the base of the avatar and the nickname replied to.
abbrev pub shown : Env → Comment → User → Text → Option Text → CommentView
shown env c u base nickname =
    record (to_comment_view c u.nickname u.website_url u.role
      (env.gravatar u.email_normalized base)) { reply_to_nickname = nickname }

abbrev pub shown_to_admin : Env → Comment → User → Thread → Text → Option Text → AdminCommentView
shown_to_admin env c u t base nickname = record {
  view = shown env c u base nickname;
  page_title = t.page_title;
  page_url = t.page_url;
  email = u.email;
  captured = c.captured;
}

module _ (env : Env) where
  unfoldable pub avatar_base_url : Action Text
  avatar_base_url = do pol ← lift env.policy; pure pol.gravatar_base_url

  unfoldable pub view_for : Comment → Action CommentView
  unfolding avatar_base_url
  view_for c = do
    u ← Users.find_by_id c.user_id
    base ← avatar_base_url
    nickname ← reply_to_nickname c
    pure (shown env c u base nickname)

  unfoldable pub admin_view_for : Comment → Action AdminCommentView
  unfolding avatar_base_url
  admin_view_for c = do
    u ← Users.find_by_id c.user_id
    t ← Threads.get_by_site_and_id c.site_id c.thread_id
    base ← avatar_base_url
    nickname ← reply_to_nickname c
    pure (shown_to_admin env c u t base nickname)

-- internal/service/comment/event.go.
unfoldable pub event_of : CommentEventType → CommentMode → Comment → CommentEvent
event_of type mode c = record {
  type = type;
  site_id = c.site_id;
  thread_id = c.thread_id;
  comment_id = c.id;
  user_id = c.user_id;
  parent_id = c.parent_id;
  mode = mode;
}
