-- ===== src/Batch/Plan.antt =====
-- `planAdminBatchComment` and `commentStatusBatchGroupKey` of internal/service/comment/batch.go.
use furtalk.Base.{ℕ, Bool, true, false, not, Option, none, some, [], ◌∷◌, ◌++◌, if◌then◌else◌}
use furtalk.Base.Equality.{◌==◌}
use furtalk.Domain.{CommentStatus, comment_status_eq, conflict, validation}
use furtalk.Domain.Entities.{Comment, Text}
use furtalk.Store.{Result, ok, err}
use furtalk.Moderation.Transition.{can_transition}
use furtalk.Moderation.Commands.{validate_pin_target}

-- `unknown` is any text that is not in the white list.
pub data BatchAction : Type 0 where
  pending publish spam soft_delete restore pin unpin hard_delete unknown : BatchAction

unfoldable pub valid_batch_action : BatchAction → Bool
valid_batch_action BatchAction.unknown = false
valid_batch_action _ = true

-- `CommentStatusBatchTarget`: a row's key and the columns to write; `preserve` leaves the time of
-- publication as it is.
pub record StatusTarget : Type 0 where
  pub site_id : ℕ
  pub id : ℕ
  pub status : CommentStatus
  pub before : Option CommentStatus
  pub preserve : Bool
  pub published_at : Option ℕ
  pub deleted_at : Option ℕ

-- A plan: the row is left alone, or it changes as the target says. (For an action that writes no
-- status, the target's status has no meaning and is the row's own.)
pub data CommentPlan : Type 0 where
  unchanged : CommentPlan
  change : StatusTarget → CommentPlan

abbrev pub target_of :
    Comment → CommentStatus → Option CommentStatus → Bool → Option ℕ → Option ℕ → StatusTarget
target_of c status before preserve published_at deleted_at = record {
  site_id = c.site_id;
  id = c.id;
  status = status;
  before = before;
  preserve = preserve;
  published_at = published_at;
  deleted_at = deleted_at;
}

-- A row that has the status is left alone; else the state machine decides.
abbrev pub to_status : Comment → StatusTarget → Result CommentPlan
to_status c t =
    if c.status == t.status
    then ok CommentPlan.unchanged
    else if not (can_transition c.status t.status)
    then err conflict
    else ok (CommentPlan.change t)

abbrev pub plan_restore : Comment → ℕ → Option CommentStatus → Result CommentPlan
plan_restore c now none = err conflict
plan_restore c now (some before) =
    if not (c.status == CommentStatus.deleted)
    then err conflict
    else if before == CommentStatus.deleted
    then err conflict
    else ok (
        CommentPlan.change (
          target_of c before none false
            (if before == CommentStatus.published then some now else none) none))

abbrev pub plan_pin : Comment → Bool → Result CommentPlan
plan_pin c pinned = elim (validate_pin_target c pinned) [
  | err e ↦ err e
  | ok _ ↦
      if (if pinned then c.is_pinned else not c.is_pinned)
      then ok CommentPlan.unchanged
      else ok (CommentPlan.change (target_of c c.status none false none none))
]

unfoldable pub plan_comment : Comment → BatchAction → ℕ → Result CommentPlan
unfolding can_transition validate_pin_target
plan_comment c BatchAction.pending now =
    to_status c (target_of c CommentStatus.pending none false none none)
plan_comment c BatchAction.publish now =
    to_status c (target_of c CommentStatus.published none false (some now) none)
plan_comment c BatchAction.spam now =
    to_status c (target_of c CommentStatus.spam none true none none)
plan_comment c BatchAction.soft_delete now =
    to_status c (target_of c CommentStatus.deleted (some c.status) true none (some now))
plan_comment c BatchAction.restore now = plan_restore c now c.status_before_delete
plan_comment c BatchAction.pin now = plan_pin c true
plan_comment c BatchAction.unpin now = plan_pin c false
plan_comment c BatchAction.hard_delete now =
    ok (CommentPlan.change (target_of c c.status none false none none))
plan_comment c BatchAction.unknown now = err validation

-- The texts that a status has in the database, and the parts of a key.
abbrev pub status_text : CommentStatus → Text
status_text CommentStatus.pending = 112 ∷ 101 ∷ 110 ∷ 100 ∷ 105 ∷ 110 ∷ 103 ∷ []
status_text CommentStatus.published = 112 ∷ 117 ∷ 98 ∷ 108 ∷ 105 ∷ 115 ∷ 104 ∷ 101 ∷ 100 ∷ []
status_text CommentStatus.spam = 115 ∷ 112 ∷ 97 ∷ 109 ∷ []
status_text CommentStatus.deleted = 100 ∷ 101 ∷ 108 ∷ 101 ∷ 116 ∷ 101 ∷ 100 ∷ []

abbrev pub before_text : Option CommentStatus → Text
before_text none = []
before_text (some s) = status_text s

-- "preserve", "set" and "clear".
abbrev pub published_text : Bool → Option ℕ → Text
published_text true at = 112 ∷ 114 ∷ 101 ∷ 115 ∷ 101 ∷ 114 ∷ 118 ∷ 101 ∷ []
published_text false (some at) = 115 ∷ 101 ∷ 116 ∷ []
published_text false none = 99 ∷ 108 ∷ 101 ∷ 97 ∷ 114 ∷ []

abbrev pub deleted_text : Option ℕ → Text
deleted_text (some at) = 115 ∷ 101 ∷ 116 ∷ []
deleted_text none = 99 ∷ 108 ∷ 101 ∷ 97 ∷ 114 ∷ []

-- The parts, with "|" between them.
unfoldable pub group_key : StatusTarget → Text
group_key t =
    status_text t.status
    ++ (124 ∷ before_text t.before
        ++ (124 ∷ published_text t.preserve t.published_at ++ (124 ∷ deleted_text t.deleted_at)))
