-- ===== src/Moderation/Commands.antt =====
-- The single-comment commands: the administrator's of internal/service/comment/moderation.go and
-- pinning.go, and the deletions of deletion.go. `validate_body`, which only create.go's validators
-- define, is an argument.
use furtalk.Base.{ℕ, Bool, true, false, not, ◌&&◌, ◌||◌, Option, none, some, is_some, if◌then◌else◌}
use furtalk.Base.Equality.{◌==◌, nat_eq}
use furtalk.Domain.{
  Role, UserStatus, CommentStatus, Moderation, UserDeleteMode, role_eq, user_status_eq,
  comment_status_eq, moderation_eq, user_delete_mode_eq, not_found, conflict, forbidden,
  confirmation_required,
}
use furtalk.Domain.Entities.{Comment, Principal, Text, comment_published}
use furtalk.Store.{Action, Result, pure, lift, raise_if, run_in_tx, publish, ◌>>=◌, ◌>>◌}
use furtalk.Store.Comments
use furtalk.Views.{Env, AdminCommentView, admin_view_for, event_of}
use furtalk.Moderation.Transition.{AdminAction, apply_admin_transition}

-- `adminTransition`: read, write, read again.
unfoldable pub admin_transition : Env → ℕ → AdminAction → Action Comment
admin_transition env id action = do
  c ← Comments.find_global_by_id id
  _ ← apply_admin_transition c action env.now
  Comments.find_global_by_id id

unfoldable pub admin_publish : Env → ℕ → Action AdminCommentView
unfolding admin_transition
admin_publish env id = do
  c ← admin_transition env id AdminAction.publish
  pol ← lift env.policy
  if pol.moderation == Moderation.review
      then publish (event_of comment_published pol.mode c)
      else pure tt
  admin_view_for env c

-- `AdminMarkSpam`, `AdminPending` and `AdminRestore` differ in the action alone.
unfoldable pub admin_change : Env → ℕ → AdminAction → Action AdminCommentView
unfolding admin_transition
admin_change env id action = do c ← admin_transition env id action; admin_view_for env c

unfoldable pub admin_edit_body :
    (Text → Result (Unit {0})) → Env → ℕ → Text → Action AdminCommentView
admin_edit_body validate_body env id body = do
  lift (validate_body body)
  c ← Comments.find_global_by_id id
  Comments.update_body c.site_id id body
  updated ← Comments.find_global_by_id id
  admin_view_for env updated

pub record DeleteResult : Type 0 where
  pub deleted_root_id : ℕ
  pub hard : Bool

abbrev pub deleted : ℕ → Bool → DeleteResult
deleted id hard = record { deleted_root_id = id; hard = hard }

unfoldable pub soft_delete_one : Env → ℕ → Comment → Action (Unit {0})
soft_delete_one env site_id c =
    Comments.update_status site_id c.id CommentStatus.deleted (some c.status) c.published_at
      (some env.now)

unfoldable pub hard_delete_in_current_tx : ℕ → ℕ → Action (Unit {0})
hard_delete_in_current_tx site_id id = do
  Comments.detach_comment_children site_id id
  Comments.hard_delete site_id id

unfoldable pub hard_delete_one : ℕ → ℕ → Action (Unit {0})
unfolding hard_delete_in_current_tx
hard_delete_one site_id id = run_in_tx (hard_delete_in_current_tx site_id id)

-- The site that the caller asks for, if any, is another one.
abbrev pub is_elsewhere : Option ℕ → Comment → Bool
is_elsewhere none c = false
is_elsewhere (some site_id) c = not (c.site_id == site_id)

-- The deletion that the policy asks for.
abbrev pub delete_as_told : Env → ℕ → Comment → Action DeleteResult
delete_as_told env comment_id c = do
  pol ← lift env.policy
  if pol.user_delete_mode == UserDeleteMode.hard
      then hard_delete_one c.site_id comment_id >> pure (deleted comment_id true)
      else soft_delete_one env c.site_id c >> pure (deleted comment_id false)

unfoldable pub delete_by_owner : Env → ℕ → ℕ → Option ℕ → Action DeleteResult
unfolding hard_delete_one soft_delete_one
delete_by_owner env actor_id comment_id want_site_id = do
  c ← Comments.find_global_by_id comment_id
  raise_if (is_elsewhere want_site_id c) not_found
  raise_if (not (c.user_id == actor_id)) forbidden
  raise_if (c.status == CommentStatus.deleted) conflict
  delete_as_told env comment_id c

unfoldable pub admin_delete : Env → ℕ → Bool → Bool → Action DeleteResult
unfolding hard_delete_one soft_delete_one
admin_delete env id hard confirm = do
  raise_if (hard && not confirm) confirmation_required
  c ← Comments.find_global_by_id id
  if hard
      then hard_delete_one c.site_id id >> pure (deleted id true)
      else raise_if (c.status == CommentStatus.deleted) conflict
        >> (soft_delete_one env c.site_id c >> pure (deleted id false))

-- internal/service/comment/pinning.go.
unfoldable pub validate_pin_target : Comment → Bool → Result (Unit {0})
validate_pin_target c pinned =
    if is_some c.parent_id || is_some c.root_id || not (c.depth == 0)
    then Result.err conflict
    else if pinned && not (c.status == CommentStatus.published)
    then Result.err conflict
    else Result.ok tt

unfoldable pub admin_set_pinned : Env → ℕ → Bool → Action AdminCommentView
unfolding validate_pin_target
admin_set_pinned env comment_id pinned = do
  c ← Comments.find_global_by_id comment_id
  lift (validate_pin_target c pinned)
  updated ← Comments.set_pinned c.site_id c.id pinned
  admin_view_for env updated

pub record PinResult : Type 0 where
  pub comment_id : ℕ
  pub is_pinned : Bool

-- The write, and what the widget is told.
abbrev pub set_pin : ℕ → ℕ → Bool → Action PinResult
set_pin site_id comment_id pinned = do
  updated ← Comments.set_pinned site_id comment_id pinned
  pure (record { comment_id = updated.id; is_pinned = updated.is_pinned })

unfoldable pub widget_set_pinned : Principal → ℕ → ℕ → Bool → Action PinResult
unfolding validate_pin_target
widget_set_pinned p site_id comment_id pinned = do
  raise_if (not (p.status == UserStatus.active && p.role == Role.admin)) forbidden
  c ← Comments.find_by_site_and_id site_id comment_id
  lift (validate_pin_target c pinned)
  set_pin site_id comment_id pinned
