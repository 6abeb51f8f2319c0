-- ===== src/Tests/Requests.antt =====
-- The theorems on batches of comments and on the rate limiter, applied.
use furtalk.Base.{◌+◌, ◌-◌, ◌*◌, ◌≤◌, ◌≡◌, refl, true, false, some, none, [], ◌∷◌, arith}
use furtalk.Domain.{CommentStatus, not_found, resource}
use furtalk.Domain.Entities.{Comment, Text}
use furtalk.Store.{ok, err}
use furtalk.Moderation.Rows.{IsSound}
use furtalk.Moderation.Transition.{can_transition}
use furtalk.Batch.Plan.{
  BatchAction, CommentPlan, StatusTarget, plan_comment, group_key, target_of, valid_batch_action,
}
use furtalk.Batch.Commands.{admin_batch, written_by, collect}
use furtalk.Batch.Atomicity
use furtalk.Batch.Groups
use furtalk.Ratelimit.{allow_key, Buckets, Config, allow_n, sweep}
use furtalk.Ratelimit.Bounds
use furtalk.Ratelimit.Bounds.{WithinLimits}
use furtalk.Ratelimit.Sweep
use furtalk.Ratelimit.Sweep.{UniqueKeys}
use furtalk.Ratelimit.Grants
use furtalk.Ratelimit.Grants.{Request, granted, potential, end_of}
use furtalk.Tests.Data.{small, env, first, answer, waiting}

-- The second of the comments does not exist.
seven-missing :
    admin_batch env (1 ∷ 7 ∷ []) BatchAction.spam false small ≡ (err (resource 7 not_found), small)
unfolding admin_batch collect plan_comment can_transition valid_batch_action
seven-missing = refl

admin_batch-Unchanged_example : small ≡ small
admin_batch-Unchanged_example =
    Atomicity.admin_batch-Unchanged env (1 ∷ 7 ∷ []) BatchAction.spam false (resource 7 not_found)
      small small seven-missing

abbrev pub gone : Comment → StatusTarget
gone c = target_of c CommentStatus.deleted (some c.status) true none (some 9)

first-gone : plan_comment first BatchAction.soft_delete 9 ≡ ok (CommentPlan.change (gone first))
unfolding plan_comment can_transition
first-gone = refl

answer-gone : plan_comment answer BatchAction.soft_delete 9 ≡ ok (CommentPlan.change (gone answer))
unfolding plan_comment can_transition
answer-gone = refl

same-key : group_key (gone first) ≡ group_key (gone answer)
unfolding group_key
same-key = refl

group_key_uniform_example : written_by (gone first) waiting ≡ written_by (gone answer) waiting
group_key_uniform_example =
    Groups.group_key_uniform first answer waiting BatchAction.soft_delete 9 (gone first)
      (gone answer) refl first-gone answer-gone same-key

plan_comment-IsSound_example : IsSound (written_by (gone first) first)
plan_comment-IsSound_example =
    Groups.plan_comment-IsSound first BatchAction.soft_delete 9 (gone first) (refl, refl) refl
      first-gone

-- Two tokens at most, one each second.
abbrev pub limits : Config
limits = record { gain = 1; per_token = 1000000000; burst = 2; capacity = 3 }

abbrev pub someone : Text
someone = 97 ∷ []

abbrev pub buckets : Buckets
buckets = (someone, record { tokens = 1500000000; last = 5 }) ∷ []

allow_n-sweep-WithinLimits_example :
    WithinLimits limits (allow_n limits 7 1 someone buckets).1
    × WithinLimits limits (sweep 7 buckets)
allow_n-sweep-WithinLimits_example =
    Bounds.allow_n-sweep-WithinLimits limits 7 1 someone buckets ((omega arith, tt), omega arith)

abbrev pub second_later : Request
second_later = record { at = 1000000005; key = someone; n = 2 }

granted-le_example :
    granted limits someone (second_later ∷ []) buckets
    ≤ potential limits someone 5 buckets + limits.gain * (end_of 5 (second_later ∷ []) - 5)
granted-le_example =
    Grants.granted-le limits someone 5 (second_later ∷ []) buckets (omega arith, tt)

-- A bucket that was idle for more than ten minutes.
buckets-UniqueKeys : UniqueKeys buckets
buckets-UniqueKeys k = ground arith

sweep_unobserved_example :
    (allow_key limits 700000000001 2 someone (sweep 700000000000 buckets)).0
    ≡ (allow_key limits 700000000001 2 someone buckets).0
sweep_unobserved_example =
    Sweep.sweep_unobserved limits 700000000000 700000000001 2 someone buckets
      (record { tokens = 1500000000; last = 5 }) (omega arith) buckets-UniqueKeys (omega arith)
      (omega arith) refl
