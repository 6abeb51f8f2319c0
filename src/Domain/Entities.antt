-- ===== src/Domain/Entities.antt =====
-- internal/domain/types.go: the rows that the services read and write. Identifiers and times are
-- numbers (times count microseconds); a text is its list of code points; a nil pointer is `none`.
-- `UpdatedAt`, which the database layer sets by itself, is left out.
use furtalk.Base.{ℕ, Bool, Option, List}
use furtalk.Domain.{
  Role, UserStatus, CommentStatus, CommentMode, Moderation, UserDeleteMode, PrivacyMode,
}

abbrev pub Text : Type 0
Text = List ℕ

pub record User : Type 0 where
  pub id : ℕ
  pub email : Text
  pub email_normalized : Text
  pub nickname : Text
  pub website_url : Option Text
  pub role : Role
  pub status : UserStatus
  pub session_version : ℕ
  pub email_verified_at : Option ℕ
  pub deleted_at : Option ℕ
  pub status_before_delete : Option UserStatus

pub record Principal : Type 0 where
  pub user_id : ℕ
  pub role : Role
  pub status : UserStatus
  pub session_version : ℕ

-- The privacy columns of a comment.
pub record Captured : Type 0 where
  pub ip_mode : PrivacyMode
  pub ip_value : Option Text
  pub ua_mode : PrivacyMode
  pub ua_raw : Option Text
  pub ua_browser : Option Text
  pub ua_os : Option Text
  pub ua_device : Option Text

pub record Comment : Type 0 where
  pub id : ℕ
  pub site_id : ℕ
  pub thread_id : ℕ
  pub user_id : ℕ
  pub parent_id : Option ℕ
  pub root_id : Option ℕ
  pub reply_to_user_id : Option ℕ
  pub depth : ℕ
  pub body_markdown : Text
  pub status : CommentStatus
  pub status_before_delete : Option CommentStatus
  pub is_pinned : Bool
  pub captured : Captured
  pub created_at : ℕ
  pub published_at : Option ℕ
  pub deleted_at : Option ℕ

pub record Thread : Type 0 where
  pub id : ℕ
  pub site_id : ℕ
  pub page_key : Text
  pub page_url : Option Text
  pub page_title : Option Text
  pub comments_enabled : Bool

pub record Site : Type 0 where
  pub id : ℕ
  pub name : Text
  pub canonical_url : Text
  pub is_active : Bool
  pub origins : List Text

-- A row of `comment_likes`.
pub record Like : Type 0 where
  pub site_id : ℕ
  pub comment_id : ℕ
  pub user_id : ℕ

pub record PrivacyPolicy : Type 0 where
  pub ip_mode : PrivacyMode
  pub ua_mode : PrivacyMode

-- `captcha_policy` answers for the comment action, the one that these services ask about.
pub record CommentPolicy : Type 0 where
  pub mode : CommentMode
  pub epoch : ℕ
  pub moderation : Moderation
  pub user_delete_mode : UserDeleteMode
  pub max_reply_depth : ℕ
  pub public_registration : Bool
  pub captcha_policy : Bool
  pub privacy : PrivacyPolicy
  pub gravatar_base_url : Text

pub data CommentEventType : Type 0 where
  comment_created comment_published : CommentEventType

pub record CommentEvent : Type 0 where
  pub type : CommentEventType
  pub site_id : ℕ
  pub thread_id : ℕ
  pub comment_id : ℕ
  pub user_id : ℕ
  pub parent_id : Option ℕ
  pub mode : CommentMode

pub record BatchResult : Type 0 where
  pub requested_count : ℕ
  pub changed_count : ℕ
  pub unchanged_count : ℕ
