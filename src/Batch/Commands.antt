-- ===== src/Batch/Commands.antt =====
-- `AdminBatch` of internal/service/comment/batch.go and the many-row statements that it runs.
use furtalk.Base.{
  ℕ, suc, Bool, true, false, not, ◌&&◌, ◌||◌, Option, none, some, List, [], ◌∷◌, map, length, find?,
  filter, any, count, sort, distinct_ids, ltb, if◌then◌else◌,
}
use furtalk.Base.Equality.{◌==◌, nat_eq, text_eq, bool_eq, pointer_eq}
use furtalk.Domain.{
  Moderation, CommentMode, comment_status_eq, moderation_eq, not_found, validation,
  confirmation_required, internal, resource,
}
use furtalk.Domain.Entities.{BatchResult, Comment, CommentPolicy, Text, comment_published}
use furtalk.Store.{
  Action, Result, ok, err, pure, gets, lift, raise_if, modify, run_in_tx, publish, ◌>>=◌, ◌>>◌,
}
use furtalk.Store.Comments.{
  CommentKey, update_comments, is_row, delete_comments, clear_parent, clear_root,
}
use furtalk.Views.{Env, event_of}
use furtalk.Batch.Plan.{
  BatchAction, StatusTarget, CommentPlan, plan_comment, group_key, valid_batch_action,
}

-- `(site_id = ? AND id = ?) OR …`
abbrev pub is_target : List CommentKey → Comment → Bool
is_target keys c = any (λ k. is_row k.0 k.1 c) keys

abbrev pub counted : (Comment → Bool) → Action ℕ
counted p = gets (λ db. count p db.comments)

abbrev pub keys_of : List StatusTarget → List CommentKey
keys_of = map (λ t. (t.site_id, t.id))

-- The columns that the first target of a group gives.
abbrev pub written_by : StatusTarget → Comment → Comment
written_by t c = record c {
  status = t.status;
  status_before_delete = t.before;
  deleted_at = t.deleted_at;
  published_at = if t.preserve then c.published_at else t.published_at;
}

unfoldable pub update_status_many : List StatusTarget → Action ℕ
update_status_many [] = pure 0
update_status_many (t ∷ ts) = do
  n ← counted (is_target (keys_of (t ∷ ts)))
  update_comments (is_target (keys_of (t ∷ ts))) (written_by t)
  pure n

unfoldable pub set_pinned_many : List CommentKey → Bool → Action ℕ
set_pinned_many keys pinned = do
  n ← counted (is_target keys)
  update_comments (is_target keys) (λ c. record c { is_pinned = pinned })
  pure n

abbrev pub parent_among : List CommentKey → Comment → Bool
parent_among keys c = any (λ k. c.site_id == k.0 && c.parent_id == some k.1) keys

abbrev pub root_among : List CommentKey → Comment → Bool
root_among keys c = any (λ k. c.site_id == k.0 && c.root_id == some k.1) keys

unfoldable pub detach_comment_children_many : List CommentKey → Action (Unit {0})
detach_comment_children_many keys = do
  update_comments (parent_among keys) clear_parent
  update_comments (root_among keys) clear_root

unfoldable pub hard_delete_many : List CommentKey → Action ℕ
hard_delete_many keys = do n ← counted (is_target keys); modify (delete_comments keys); pure n

-- What the loop collects: the targets that change, in the order of their identifiers, the rows as
-- they will be published, and how many are left alone.
pub record Collected : Type 0 where
  pub targets : List StatusTarget
  pub published : List Comment
  pub unchanged_count : ℕ

abbrev pub add_planned : Comment → CommentPlan → Result Collected → Result Collected
add_planned c plan (err e) = err e
add_planned c CommentPlan.unchanged (ok rest) =
    ok (record rest { unchanged_count = suc rest.unchanged_count })
add_planned c (CommentPlan.change t) (ok rest) =
    ok (record rest { targets = t ∷ rest.targets; published = written_by t c ∷ rest.published })

abbrev pub after_row : BatchAction → ℕ → ℕ → Option Comment → Result Collected → Result Collected
after_row action now id none rest = err (resource id not_found)
after_row action now id (some c) rest = elim (plan_comment c action now) [
  | err e ↦ err (resource id e)
  | ok plan ↦ add_planned c plan rest
]

-- The loop: the first failure, in the order of the identifiers, is the error of the batch.
unfoldable pub collect : BatchAction → ℕ → List Comment → List ℕ → Result Collected
collect action now rows [] = ok (record { targets = []; published = []; unchanged_count = 0 })
collect action now rows (id ∷ ids) =
    after_row action now id (find? (λ c. c.id == id) rows) (collect action now rows ids)

-- `requireRows`
abbrev pub require_rows : ℕ → ℕ → Action (Unit {0})
require_rows affected expected = raise_if (not (affected == expected)) internal

-- The texts in the order of Go's `sort.Strings`, each once: the keys of the groups.
abbrev pub text_ltb : Text → Text → Bool
text_ltb [] [] = false
text_ltb [] (y ∷ ys) = true
text_ltb (x ∷ xs) [] = false
text_ltb (x ∷ xs) (y ∷ ys) = if x == y then text_ltb xs ys else ltb x y

abbrev pub insert_key : Text → List Text → List Text
insert_key k [] = k ∷ []
insert_key k (x ∷ xs) =
    if k == x then x ∷ xs else if text_ltb k x then k ∷ x ∷ xs else x ∷ insert_key k xs

abbrev pub group_keys : List StatusTarget → List Text
group_keys [] = []
group_keys (t ∷ ts) = insert_key (group_key t) (group_keys ts)

-- The targets of one group, in their order.
abbrev pub group_of : Text → List StatusTarget → List StatusTarget
group_of key = filter (λ t. group_key t == key)

abbrev pub write_groups : List Text → List StatusTarget → Action (Unit {0})
write_groups [] ts = pure tt
write_groups (key ∷ keys) ts = do
  n ← update_status_many (group_of key ts)
  require_rows n (length (group_of key ts))
  write_groups keys ts

abbrev pub write_pins : Bool → List StatusTarget → Action (Unit {0})
write_pins pinned ts = do n ← set_pinned_many (keys_of ts) pinned; require_rows n (length ts)

unfoldable pub write_batch : BatchAction → List StatusTarget → Action (Unit {0})
write_batch BatchAction.pin ts = write_pins true ts
write_batch BatchAction.unpin ts = write_pins false ts
write_batch BatchAction.hard_delete ts = do
  detach_comment_children_many (keys_of ts)
  n ← hard_delete_many (keys_of ts)
  require_rows n (length ts)
write_batch _ ts = write_groups (group_keys ts) ts

abbrev pub batch_in_tx : BatchAction → ℕ → List ℕ → Action Collected
batch_in_tx action now ids = do
  rows ← gets (λ db. db.comments)
  all ← lift (collect action now rows ids)
  write_batch action all.targets
  pure all

abbrev pub batch_needs_confirmation : BatchAction → Bool
batch_needs_confirmation BatchAction.soft_delete = true
batch_needs_confirmation BatchAction.hard_delete = true
batch_needs_confirmation _ = false

abbrev pub max_limit : ℕ
max_limit = 100

-- Only a publication needs the policy.
abbrev pub policy_for : BatchAction → Env → Result (Option CommentPolicy)
policy_for BatchAction.publish env = elim env.policy [ ok pol ↦ ok (some pol) | err e ↦ err e ]
policy_for _ env = ok none

-- The notices of a publication, which a moderated site gets.
abbrev pub publish_each : CommentMode → List Comment → Action (Unit {0})
publish_each mode [] = pure tt
publish_each mode (c ∷ cs) = publish (event_of comment_published mode c) >> publish_each mode cs

abbrev pub announce : Option CommentPolicy → List Comment → Action (Unit {0})
announce none cs = pure tt
announce (some pol) cs =
    if pol.moderation == Moderation.review then publish_each pol.mode cs else pure tt

abbrev pub invalid_request : List ℕ → BatchAction → Bool
invalid_request ids action =
    length ids == 0 || ltb max_limit (length ids) || not (valid_batch_action action)

abbrev pub batch_outcome : List ℕ → Collected → BatchResult
batch_outcome ids all = record {
  requested_count = length ids;
  changed_count = length all.targets;
  unchanged_count = all.unchanged_count;
}

unfoldable pub admin_batch : Env → List ℕ → BatchAction → Bool → Action BatchResult
unfolding collect write_batch
admin_batch env ids action confirm = do
  raise_if (invalid_request ids action) validation
  raise_if (batch_needs_confirmation action && not confirm) confirmation_required
  raise_if (not (distinct_ids 0 (sort ids))) validation
  pol ← lift (policy_for action env)
  all ← run_in_tx (batch_in_tx action env.now (sort ids))
  announce pol all.published
  pure (batch_outcome (sort ids) all)
