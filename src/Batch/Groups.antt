-- ===== src/Batch/Groups.antt =====
-- The plan of a batch: what it writes is sound, and equal keys mean equal writes.
use furtalk.Base.{
  ℕ, zero, suc, ◌≡◌, sym, ap, ◌∙◌, Bool, true, false, none, some, [], ◌∷◌, ◌++◌, if◌then◌else◌,
  arith,
}
use furtalk.Base.Equality.{◌==◌}
use furtalk.Domain.{CommentStatus, comment_status_eq}
use furtalk.Domain.Entities.{Comment, Text}
use furtalk.Store.{ok}
use furtalk.Moderation.Rows.{IsSound}
use furtalk.Moderation.Transition.{can_transition}
use furtalk.Batch.Plan.{
  BatchAction, CommentPlan, StatusTarget, plan_comment, group_key, status_text, target_of,
}
use furtalk.Batch.Commands.{written_by}

-- The actions that write a status.
abbrev pub writes_status : BatchAction → Bool
writes_status BatchAction.pending = true
writes_status BatchAction.publish = true
writes_status BatchAction.spam = true
writes_status BatchAction.soft_delete = true
writes_status BatchAction.restore = true
writes_status _ = false

-- What a batch that writes statuses plans to write over a sound row is a sound row.
pub plan_comment-IsSound :
    (c : Comment) (action : BatchAction) (now : ℕ) (t : StatusTarget)
    → IsSound c
    → writes_status action ≡ true
    → plan_comment c action now ≡ ok (CommentPlan.change t)
    → IsSound (written_by t c)
unfolding plan_comment can_transition
plan_comment-IsSound c BatchAction.pending now t s w e = ground arith
plan_comment-IsSound c BatchAction.publish now t s w e = ground arith
plan_comment-IsSound c BatchAction.spam now t s w e = ground arith
plan_comment-IsSound c BatchAction.soft_delete now t s w e = ground arith
plan_comment-IsSound c BatchAction.restore now t s w e = ground arith
plan_comment-IsSound c BatchAction.pin now t s w e = absurd (ground arith)
plan_comment-IsSound c BatchAction.unpin now t s w e = absurd (ground arith)
plan_comment-IsSound c BatchAction.hard_delete now t s w e = absurd (ground arith)
plan_comment-IsSound c BatchAction.unknown now t s w e = absurd (ground arith)

-- Different statuses have different texts, whatever follows.
status_text-injective :
    (a b : CommentStatus) (u v : Text) → status_text a ++ u ≡ status_text b ++ v → a ≡ b
status_text-injective a b u v e = ground (arith, e)

abbrev pub drop : ℕ → Text → Text
drop zero xs = xs
drop (suc n) [] = []
drop (suc n) (x ∷ xs) = drop n xs

-- The targets that a soft deletion and a restoration plan.
abbrev pub soft_target : Comment → ℕ → StatusTarget
soft_target c now = target_of c CommentStatus.deleted (some c.status) true none (some now)

soft-shape :
    (c : Comment) (now : ℕ) (t : StatusTarget)
    → plan_comment c BatchAction.soft_delete now ≡ ok (CommentPlan.change t)
    → soft_target c now ≡ t
unfolding plan_comment
soft-shape c now t e = ground (arith, e)

soft-status :
    (c c' : Comment) (now : ℕ)
    → group_key (soft_target c now) ≡ group_key (soft_target c' now)
    → c.status ≡ c'.status
unfolding group_key
soft-status c c' now k = status_text-injective c.status c'.status _ _ (ap (drop 8) k)

abbrev pub restore_target : Comment → ℕ → CommentStatus → StatusTarget
restore_target c now s =
    target_of c s none false (if s == CommentStatus.published then some now else none) none

restore-shape :
    (c : Comment) (now : ℕ) (t : StatusTarget)
    → plan_comment c BatchAction.restore now ≡ ok (CommentPlan.change t)
    → restore_target c now t.status ≡ t
unfolding plan_comment
restore-shape c now t e = ground (arith, e)

restore-status :
    (c c' : Comment) (now : ℕ) (a b : CommentStatus)
    → group_key (restore_target c now a) ≡ group_key (restore_target c' now b)
    → a ≡ b
unfolding group_key
restore-status c c' now a b k = status_text-injective a b _ _ k

-- Two targets that a batch which writes statuses plans at one time, and that have the same key,
-- write the same over any row; so the statement of a group may take its columns from the first
-- target.
pub group_key_uniform :
    (c c' row : Comment) (action : BatchAction) (now : ℕ) (t t' : StatusTarget)
    → writes_status action ≡ true
    → plan_comment c action now ≡ ok (CommentPlan.change t)
    → plan_comment c' action now ≡ ok (CommentPlan.change t')
    → group_key t ≡ group_key t'
    → written_by t row ≡ written_by t' row
unfolding plan_comment group_key
group_key_uniform c c' row BatchAction.pending now t t' w e e' k = ground (arith, e, e')
group_key_uniform c c' row BatchAction.publish now t t' w e e' k = ground (arith, e, e')
group_key_uniform c c' row BatchAction.spam now t t' w e e' k = ground (arith, e, e')
group_key_uniform c c' row BatchAction.soft_delete now t t' w e e' k =
    ap (λ x. written_by x row) (sym (soft-shape c now t e))
    ∙ ap
        (λ s. record row {
          status = CommentStatus.deleted;
          status_before_delete = some s;
          deleted_at = some now;
        })
        (soft-status c c' now
          (ap group_key (soft-shape c now t e) ∙ k ∙ sym (ap group_key (soft-shape c' now t' e'))))
    ∙ ap (λ x. written_by x row) (soft-shape c' now t' e')
group_key_uniform c c' row BatchAction.restore now t t' w e e' k =
    ap (λ x. written_by x row) (sym (restore-shape c now t e))
    ∙ ap (λ s. written_by (restore_target c now s) row)
        (restore-status c c' now t.status t'.status (
          ap group_key (restore-shape c now t e)
          ∙ k
          ∙ sym (ap group_key (restore-shape c' now t' e'))))
    ∙ ap (λ x. written_by x row) (restore-shape c' now t' e')
group_key_uniform c c' row BatchAction.pin now t t' w e e' k = absurd (ground arith)
group_key_uniform c c' row BatchAction.unpin now t t' w e e' k = absurd (ground arith)
group_key_uniform c c' row BatchAction.hard_delete now t t' w e e' k = absurd (ground arith)
group_key_uniform c c' row BatchAction.unknown now t t' w e e' k = absurd (ground arith)
