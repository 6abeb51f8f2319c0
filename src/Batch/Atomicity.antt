-- ===== src/Batch/Atomicity.antt =====
-- A batch command on comments is all or nothing.
use furtalk.Base.{
  ℕ, not, ◌&&◌, ◌≡◌, Bool, Option, none, some, List, [], ◌∷◌, sort, distinct_ids, subst,
}
use furtalk.Base.Equality.{◌==◌}
use furtalk.Domain.{
  Moderation, CommentMode, Error, moderation_eq, validation, confirmation_required,
}
use furtalk.Domain.Entities.{Comment, CommentPolicy, CommentEvent, comment_published}
use furtalk.Store.{Db, err, publish}
use furtalk.Store.Atomic.{
  Atomic, Infallible, Unchanged, Infallible-pure, Infallible-bind, Infallible-if, Atomic-raise_if,
  Atomic-lift, Atomic-run_in_tx, Atomic-then,
}
use furtalk.Views.{Env, event_of}
use furtalk.Batch.Plan.{BatchAction}
use furtalk.Batch.Commands.{
  admin_batch, announce, publish_each, batch_in_tx, batch_outcome, batch_needs_confirmation,
  invalid_request, policy_for,
}

publish_each-Infallible :
    (mode : CommentMode) (cs : List Comment) → Infallible (publish_each mode cs)
publish_each-Infallible mode [] = Infallible-pure tt
publish_each-Infallible mode (c ∷ cs) =
    Infallible-bind (published (event_of comment_published mode c))
      λ _. publish_each-Infallible mode cs
  where
    published : (ev : CommentEvent) → Infallible (publish ev)
    published ev = record { succeeds = λ db. tt }

announce-Infallible :
    (pol : Option CommentPolicy) (cs : List Comment) → Infallible (announce pol cs)
announce-Infallible none cs = Infallible-pure tt
announce-Infallible (some pol) cs =
    Infallible-if (pol.moderation == Moderation.review) (publish_each-Infallible pol.mode cs)
      (Infallible-pure tt)

-- A batch command on comments that fails, for whatever reason and at whichever of its comments,
-- leaves the database exactly as it was.
pub admin_batch-Unchanged :
    (env : Env) (ids : List ℕ) (action : BatchAction) (confirm : Bool) (e : Error) (db db' : Db)
    → admin_batch env ids action confirm db ≡ (err e, db')
    → db' ≡ db
unfolding admin_batch
admin_batch-Unchanged env ids action confirm e db db' q = subst (Unchanged db) q (atomic.clean db)
  where
    atomic : Atomic (admin_batch env ids action confirm)
    atomic = Atomic-raise_if (invalid_request ids action) validation (
        Atomic-raise_if (batch_needs_confirmation action && not confirm) confirmation_required (
          Atomic-raise_if (not (distinct_ids 0 (sort ids))) validation (
            Atomic-lift (policy_for action env) λ pol.
              Atomic-then (Atomic-run_in_tx (batch_in_tx action env.now (sort ids))) λ all.
                Infallible-bind (announce-Infallible pol all.published)
                  λ _. Infallible-pure (batch_outcome (sort ids) all))))
