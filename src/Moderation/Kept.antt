-- ===== src/Moderation/Kept.antt =====
-- Every single-comment command keeps the rows of `comments` sound.
use furtalk.Base.{ℕ, ◌≡◌, Bool, true, false, not, ◌&&◌, Option, some, arith}
use furtalk.Base.Equality.{◌==◌, nat_eq, bool_eq}
use furtalk.Domain.{
  Moderation, UserDeleteMode, CommentStatus, moderation_eq, user_delete_mode_eq, comment_status_eq,
  not_found, forbidden, conflict, confirmation_required, role_eq, user_status_eq,
}
use furtalk.Domain.Entities.{Comment, CommentEvent, CommentPolicy, comment_published}
use furtalk.Store.{Db, Result, lift, publish}
use furtalk.Store.Contract.{
  Keeps, Yields-bind, Yields-pure, Yields-if, Yields-lift, Yields-raise_if, Yields-run_in_tx,
}
use furtalk.Store.Comments.Kept.{detach_comment_children-Keeps, hard_delete-Keeps}
use furtalk.Views.{Env, event_of}
use furtalk.Views.Reads.{admin_view_for-Keeps}
use furtalk.Moderation.Transition.{AdminAction}
use furtalk.Moderation.Rows.{
  IsSound, KeepsRows, find_global_by_id-IsSound, update_status-KeepsRows, admin_transition-IsSound,
}
use furtalk.Moderation.Commands.{
  admin_publish, admin_change, soft_delete_one, hard_delete_in_current_tx, hard_delete_one,
  delete_by_owner, admin_delete, deleted, is_elsewhere,
}

publish-KeepsRows : (ev : CommentEvent) → KeepsRows (publish ev)
publish-KeepsRows ev = record { run = λ db h. (h, tt) }

policy-Keeps : {P : Db → Type 0} (r : Result CommentPolicy) → Keeps P (lift r)
policy-Keeps r = Yields-lift r (λ _ _. tt)

pub admin_publish-KeepsRows : (env : Env) (id : ℕ) → KeepsRows (admin_publish env id)
unfolding admin_publish
admin_publish-KeepsRows env id =
    Yields-bind (admin_transition-IsSound env id AdminAction.publish) λ c _.
      Yields-bind (policy-Keeps env.policy) λ pol _.
        Yields-bind
          (Yields-if (pol.moderation == Moderation.review)
            (λ _. publish-KeepsRows (event_of comment_published pol.mode c))
            (λ _. Yields-pure tt tt))
          λ _ _. admin_view_for-Keeps env c

pub admin_change-KeepsRows :
    (env : Env) (id : ℕ) (action : AdminAction) → KeepsRows (admin_change env id action)
unfolding admin_change
admin_change-KeepsRows env id action =
    Yields-bind (admin_transition-IsSound env id action) λ c _. admin_view_for-Keeps env c

soft_delete_one-KeepsRows :
    (env : Env) (site_id : ℕ) (c : Comment)
    → (c.status == CommentStatus.deleted) ≡ false
    → KeepsRows (soft_delete_one env site_id c)
unfolding soft_delete_one
soft_delete_one-KeepsRows env site_id c live =
    update_status-KeepsRows site_id c.id CommentStatus.deleted (some c.status) c.published_at
      (some env.now) (ground arith)

pub hard_delete_one-KeepsRows : (site_id id : ℕ) → KeepsRows (hard_delete_one site_id id)
unfolding hard_delete_one hard_delete_in_current_tx
hard_delete_one-KeepsRows site_id id = Yields-run_in_tx (
    Yields-bind (detach_comment_children-Keeps IsSound (λ c s. ground arith) site_id id)
      λ _ _. hard_delete-Keeps IsSound site_id id)

pub delete_by_owner-KeepsRows :
    (env : Env) (actor_id id : ℕ) (want : Option ℕ)
    → KeepsRows (delete_by_owner env actor_id id want)
unfolding delete_by_owner
delete_by_owner-KeepsRows env actor_id id want = Yields-bind (find_global_by_id-IsSound id) λ c s.
    Yields-bind (Yields-raise_if (is_elsewhere want c) not_found) λ _ _.
      Yields-bind (Yields-raise_if (not (c.user_id == actor_id)) forbidden) λ _ _.
        Yields-bind (Yields-raise_if (c.status == CommentStatus.deleted) conflict) λ _ live.
          Yields-bind (policy-Keeps env.policy) λ pol _.
            Yields-if (pol.user_delete_mode == UserDeleteMode.hard)
              (λ _.
                Yields-bind (hard_delete_one-KeepsRows c.site_id id)
                  (λ _ _. Yields-pure (deleted id true) tt))
              (λ _.
                Yields-bind (soft_delete_one-KeepsRows env c.site_id c live)
                  (λ _ _. Yields-pure (deleted id false) tt))

pub admin_delete-KeepsRows :
    (env : Env) (id : ℕ) (hard confirm : Bool) → KeepsRows (admin_delete env id hard confirm)
unfolding admin_delete
admin_delete-KeepsRows env id hard confirm =
    Yields-bind (Yields-raise_if (hard && not confirm) confirmation_required) λ _ _.
      Yields-bind (find_global_by_id-IsSound id) λ c s.
        Yields-if hard
          (λ _.
            Yields-bind (hard_delete_one-KeepsRows c.site_id id)
              (λ _ _. Yields-pure (deleted id true) tt))
          (λ _. Yields-bind (Yields-raise_if (c.status == CommentStatus.deleted) conflict) λ _ live.
            Yields-bind (soft_delete_one-KeepsRows env c.site_id c live)
              (λ _ _. Yields-pure (deleted id false) tt))
