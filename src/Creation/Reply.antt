-- ===== src/Creation/Reply.antt =====
-- `createComment` and `capturePrivacy` of create.go: the row of a new comment, from its parent.
use furtalk.Base.{ℕ, suc, false, not, Option, none, some, leb, if◌then◌else◌}
use furtalk.Base.Equality.{◌==◌, nat_eq}
use furtalk.Domain.{
  CommentStatus, PrivacyMode, Error, comment_status_eq, privacy_mode_eq, is_not_found, conflict,
  cross_thread_reply, parent_not_found, parent_deleted, depth_exceeded, validation,
}
use furtalk.Domain.Entities.{Captured, Comment, CommentPolicy, PrivacyPolicy, Text}
use furtalk.Store.{Action, Result, ok, err, pure, raise, lift, raise_if, catch, ◌>>=◌, ◌>>◌}
use furtalk.Store.Comments

-- What clientip.go makes of a user agent.
pub record UaRecord : Type 0 where
  pub raw : Option Text
  pub browser : Option Text
  pub os : Option Text
  pub device : Option Text

-- `clientip.CoarsenIP`, printed, and `clientip.ParseUA`; `none` is an error. An address is a text.
pub record ClientInfo : Type 0 where
  pub coarsen_ip : Text → PrivacyMode → Option Text
  pub parse_ua : Text → PrivacyMode → Option UaRecord

-- The address to keep: none in mode `none` or without an address.
abbrev pub kept_ip : ClientInfo → PrivacyMode → Option Text → Result (Option Text)
kept_ip info mode none = ok none
kept_ip info mode (some ip) =
    if mode == PrivacyMode.none
    then ok none
    else elim (info.coarsen_ip ip mode) [ none ↦ err validation | some v ↦ ok (some v) ]

abbrev pub capture : PrivacyPolicy → Option Text → Option UaRecord → Result Captured
capture p ip none = err validation
capture p ip (some ua) = ok (record {
  ip_mode = p.ip_mode;
  ip_value = ip;
  ua_mode = p.ua_mode;
  ua_raw = ua.raw;
  ua_browser = ua.browser;
  ua_os = ua.os;
  ua_device = ua.device;
})

unfoldable pub capture_privacy : ClientInfo → PrivacyPolicy → Option Text → Text → Result Captured
capture_privacy info p ip ua = elim (kept_ip info p.ip_mode ip) [
  | err e ↦ err e
  | ok v ↦ capture p v (info.parse_ua ua p.ua_mode)
]

-- Where a comment stands in its thread.
pub record Place : Type 0 where
  pub parent_id : Option ℕ
  pub root_id : Option ℕ
  pub reply_to_user_id : Option ℕ
  pub depth : ℕ

abbrev pub at_root : Place
at_root = record { parent_id = none; root_id = none; reply_to_user_id = none; depth = 0 }

-- The root of a reply: the parent's, or the parent.
abbrev pub root_of : Comment → Option ℕ
root_of parent = elim parent.root_id [ none ↦ some parent.id | some r ↦ some r ]

abbrev pub under : ℕ → Comment → Place
under parent_id parent = record {
  parent_id = some parent_id;
  root_id = root_of parent;
  reply_to_user_id = some parent.user_id;
  depth = suc parent.depth;
}

-- The checks on a parent, in the order of the code.
abbrev pub place_under : ℕ → ℕ → ℕ → Comment → Action Place
place_under max_depth thread_id parent_id parent = do
  raise_if (not (parent.thread_id == thread_id)) cross_thread_reply
  raise_if (parent.status == CommentStatus.deleted) parent_deleted
  raise_if (not (parent.status == CommentStatus.published)) conflict
  raise_if (leb max_depth parent.depth) depth_exceeded
  pure (under parent_id parent)

-- A parent that is missing has an error of its own.
abbrev pub missing_parent : Error → Error
missing_parent e = if is_not_found e then parent_not_found else e

unfoldable pub place_of : ℕ → ℕ → ℕ → Option ℕ → Action Place
place_of max_depth site_id thread_id none = pure at_root
place_of max_depth site_id thread_id (some parent_id) = do
  parent ← catch (Comments.find_by_site_and_id site_id parent_id) (λ e. raise (missing_parent e))
  place_under max_depth thread_id parent_id parent

-- The row that is handed to `Create`.
abbrev pub new_comment : ℕ → ℕ → ℕ → ℕ → Place → Text → CommentStatus → Captured → Comment
new_comment now site_id thread_id actor_id place body status captured = record {
  id = 0;
  site_id = site_id;
  thread_id = thread_id;
  user_id = actor_id;
  parent_id = place.parent_id;
  root_id = place.root_id;
  reply_to_user_id = place.reply_to_user_id;
  depth = place.depth;
  body_markdown = body;
  status = status;
  status_before_delete = none;
  is_pinned = false;
  captured = captured;
  created_at = now;
  published_at = if status == CommentStatus.published then some now else none;
  deleted_at = none;
}

unfoldable pub create_comment :
    ClientInfo
    → ℕ
    → CommentPolicy
    → ℕ
    → ℕ
    → ℕ
    → Option ℕ
    → Text
    → Option Text
    → Text
    → CommentStatus
    → Action Comment
unfolding place_of
create_comment info now pol site_id thread_id actor_id parent_id body ip ua status = do
  place ← place_of pol.max_reply_depth site_id thread_id parent_id
  captured ← lift (capture_privacy info pol.privacy ip ua)
  Comments.create (new_comment now site_id thread_id actor_id place body status captured)
