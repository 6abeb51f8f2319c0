-- ===== src/Moderation/Transition.antt =====
-- The transitions of a comment's status: `canTransition` and `applyAdminTransition` of
-- internal/service/comment/moderation.go.
use furtalk.Base.{ℕ, Bool, true, false, not, ◌||◌, Option, none, some, if◌then◌else◌}
use furtalk.Base.Equality.{◌==◌}
use furtalk.Domain.{CommentStatus, comment_status_eq, conflict}
use furtalk.Domain.Entities.{Comment}
use furtalk.Store.{Action, pure, raise, raise_if, ◌>>◌}
use furtalk.Store.Comments.{update_status}

pub data AdminAction : Type 0 where
  publish spam soft_delete restore pending : AdminAction

unfoldable pub can_transition : CommentStatus → CommentStatus → Bool
can_transition from to = if from == to then false else reaches from to
  where
    reaches : CommentStatus → CommentStatus → Bool
    reaches from CommentStatus.deleted =
        from == CommentStatus.pending
        || from == CommentStatus.published
        || from == CommentStatus.spam
    reaches from _ = true

-- The time of publication that a restored comment gets.
abbrev pub published_now : CommentStatus → ℕ → Option ℕ
published_now status now = if status == CommentStatus.published then some now else none

-- The restore branch, by the recorded status.
unfoldable pub restore_to : Comment → ℕ → Option CommentStatus → Action Bool
restore_to c now none = raise conflict
restore_to c now (some target) = do
  raise_if (not (c.status == CommentStatus.deleted)) conflict
  update_status c.site_id c.id target none (published_now target now) none
  pure true

-- The command reads the comment first and hands the row that it read to this function.
unfoldable pub apply_admin_transition : Comment → AdminAction → ℕ → Action Bool
unfolding restore_to
apply_admin_transition c AdminAction.publish now = do
  raise_if (not (can_transition c.status CommentStatus.published)) conflict
  update_status c.site_id c.id CommentStatus.published none (some now) none
  pure true
apply_admin_transition c AdminAction.pending now = do
  raise_if (not (can_transition c.status CommentStatus.pending)) conflict
  update_status c.site_id c.id CommentStatus.pending none none none
  pure true
apply_admin_transition c AdminAction.spam now = do
  raise_if (not (can_transition c.status CommentStatus.spam)) conflict
  update_status c.site_id c.id CommentStatus.spam none c.published_at none
  pure true
apply_admin_transition c AdminAction.soft_delete now = do
  raise_if (not (can_transition c.status CommentStatus.deleted)) conflict
  update_status c.site_id c.id CommentStatus.deleted (some c.status) c.published_at (some now)
  pure true
apply_admin_transition c AdminAction.restore now = restore_to c now c.status_before_delete
