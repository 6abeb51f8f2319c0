-- ===== src/Identity/Batch.antt =====
-- The batch command on users (internal/service/identity/batch.go): the plan, made in memory, and
-- the grouped writes. The comment service is present, as the application wires it; the cache of
-- authorisations answers an invalidation as `invalidate` says.
use furtalk.Base.{
  ℕ, suc, ◌-◌, Bool, true, false, not, ◌||◌, Option, none, some, List, [], ◌∷◌, find?, length,
  is_some, leb, if◌then◌else◌,
}
use furtalk.Base.Equality.{◌==◌, nat_eq}
use furtalk.Domain.{
  Role, UserStatus, role_eq, user_status_eq, not_found, conflict, forbidden, last_admin, validation,
  internal, resource,
}
use furtalk.Domain.Entities.{User}
use furtalk.Store.{Action, Result, ok, err, pure, gets, lift, raise_if, ◌>>=◌, ◌>>◌}
use furtalk.Store.Users
use furtalk.Store.Comments

-- `unknown` is any text that is not in the white list.
pub data UserAction : Type 0 where
  enable disable verify_email unverify_email soft_delete hard_delete restore unknown : UserAction

unfoldable pub valid_action : UserAction → Bool
valid_action UserAction.unknown = false
valid_action _ = true

-- `planAdminAdminRemoval`: the count after the removal.
unfoldable pub plan_admin_removal : User → UserStatus → ℕ → Result ℕ
plan_admin_removal u next admins =
    if not (u.role == Role.admin)
      || not (u.status == UserStatus.active)
      || next == UserStatus.active
    then ok admins
    else if leb admins 1
    then err last_admin
    else ok (admins - 1)

-- What the plan says of one user: whether the row and its authorisation change, and the count of
-- active administrators afterwards.
pub record UserPlan : Type 0 where
  pub changed : Bool
  pub authz_changed : Bool
  pub admins : ℕ

abbrev pub planned : Bool → Bool → ℕ → Result UserPlan
planned changed authz_changed admins =
    ok (record { changed = changed; authz_changed = authz_changed; admins = admins })

-- A planned removal, with its count.
abbrev pub removing : Result ℕ → Result UserPlan
removing (ok left) = planned true true left
removing (err e) = err e

-- `planAdminUserBatchAction`, for a user that was found.
unfoldable pub plan_user_action : ℕ → User → UserAction → ℕ → Result UserPlan
unfolding plan_admin_removal
plan_user_action acting u UserAction.enable admins =
    if u.status == UserStatus.deleted
    then err conflict
    else planned (not (u.status == UserStatus.active)) (not (u.status == UserStatus.active)) admins
plan_user_action acting u UserAction.disable admins =
    if u.status == UserStatus.deleted
    then err conflict
    else if u.status == UserStatus.disabled
    then planned false false admins
    else removing (plan_admin_removal u UserStatus.disabled admins)
plan_user_action acting u UserAction.verify_email admins =
    if u.status == UserStatus.deleted
    then err conflict
    else planned (not (is_some u.email_verified_at)) false admins
plan_user_action acting u UserAction.unverify_email admins =
    if u.status == UserStatus.deleted
    then err conflict
    else planned (is_some u.email_verified_at) false admins
plan_user_action acting u UserAction.soft_delete admins =
    if acting == u.id
    then err forbidden
    else if u.status == UserStatus.deleted
    then planned false false admins
    else removing (plan_admin_removal u UserStatus.deleted admins)
plan_user_action acting u UserAction.hard_delete admins =
    if acting == u.id
    then err forbidden
    else removing (plan_admin_removal u UserStatus.deleted admins)
plan_user_action acting u UserAction.restore admins =
    planned (u.status == UserStatus.deleted) (u.status == UserStatus.deleted) admins
plan_user_action acting u UserAction.unknown admins = err validation

-- What the loop over the identifiers collects. The source's lists of identifiers for a change of
-- status, a verification and its reversal are, for the one action of the batch, the list of the
-- changed ones.
pub record BatchPlan : Type 0 where
  pub changed_ids : List ℕ
  pub changed_authz : List ℕ
  pub unchanged : ℕ
  pub admins_left : ℕ

abbrev pub nothing_planned : ℕ → BatchPlan
nothing_planned admins = record {
  changed_ids = [];
  changed_authz = [];
  unchanged = 0;
  admins_left = admins;
}

-- One user's plan put before the plan of the rest.
abbrev pub add_plan : ℕ → UserPlan → Result BatchPlan → Result BatchPlan
add_plan id one (err e) = err e
add_plan id one (ok rest) =
    if one.changed
    then ok (record rest {
      changed_ids = id ∷ rest.changed_ids;
      changed_authz = if one.authz_changed then id ∷ rest.changed_authz else rest.changed_authz;
    })
    else ok (record rest { unchanged = suc rest.unchanged })

-- What the loop does with the plan of one user, and with the row that it looked up; `rest` plans the
-- identifiers that follow, from the count that is left.
abbrev pub after_plan : ℕ → (ℕ → Result BatchPlan) → Result UserPlan → Result BatchPlan
after_plan id rest (err e) = err (resource id e)
after_plan id rest (ok one) = add_plan id one (rest one.admins)

abbrev pub after_find :
    ℕ → ℕ → UserAction → ℕ → (ℕ → Result BatchPlan) → Option User → Result BatchPlan
after_find acting id action admins rest none = err (resource id not_found)
after_find acting id action admins rest (some u) =
    after_plan id rest (plan_user_action acting u action admins)

-- The loop: the first failure, in the order of the identifiers, is the error of the batch.
unfoldable pub plan_users : ℕ → UserAction → List User → List ℕ → ℕ → Result BatchPlan
plan_users acting action users [] admins = ok (nothing_planned admins)
plan_users acting action users (id ∷ ids) admins =
    after_find acting id action admins (λ left. plan_users acting action users ids left)
      (find? (Users.has_id id) users)

-- `requireUserRows`
abbrev pub require_user_rows : ℕ → ℕ → Action (Unit {0})
require_user_rows affected expected = raise_if (not (affected == expected)) internal

-- The writes of a plan.
unfoldable pub write_plan : UserAction → ℕ → List ℕ → Action (Unit {0})
write_plan UserAction.enable now ids = do
  affected ← Users.update_status_many ids UserStatus.active
  require_user_rows affected (length ids)
write_plan UserAction.disable now ids = do
  affected ← Users.update_status_many ids UserStatus.disabled
  require_user_rows affected (length ids)
write_plan UserAction.verify_email now ids = do
  affected ← Users.mark_email_verified_many ids now
  require_user_rows affected (length ids)
write_plan UserAction.unverify_email now ids = do
  affected ← Users.unverify_email_many ids
  require_user_rows affected (length ids)
write_plan UserAction.soft_delete now ids = do
  affected ← Users.soft_delete_many ids now
  require_user_rows affected (length ids)
  Comments.soft_delete_by_users ids now
write_plan UserAction.hard_delete now ids = do
  Comments.detach_user_comment_children ids
  affected ← Users.delete_many ids
  require_user_rows affected (length ids)
write_plan UserAction.restore now ids = do
  affected ← Users.restore_many ids
  require_user_rows affected (length ids)
write_plan UserAction.unknown now ids = pure tt

-- `applyAdminUserBatchPlan`
unfoldable pub apply_plan : ℕ → UserAction → ℕ → List ℕ → ℕ → Action BatchPlan
unfolding plan_users write_plan
apply_plan acting action now ids admins = do
  users ← gets (λ db. db.users)
  plan ← lift (plan_users acting action users ids admins)
  write_plan action now plan.changed_ids
  pure plan
