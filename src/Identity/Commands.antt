-- ===== src/Identity/Commands.antt =====
-- The administrator's commands on users: `AdminBatchUsers` of internal/service/identity/batch.go,
-- `AdminUpdateUser`, `AdminDeleteUser` and `AdminRestoreUser` of admin.go, and the transaction that
-- counts the active administrators first (service.go). The profile that a command reads back and
-- returns is left out. Normalising an e-mail or a URL, and the cache of authorisations, are
-- arguments. Identifiers are natural numbers: a negative one, which the source refuses, does not
-- exist here.
use furtalk.Base.{
  ℕ, Bool, true, false, not, ◌&&◌, ◌||◌, List, [], ◌∷◌, length, sort, distinct_ids, ltb, leb,
  if◌then◌else◌,
}
use furtalk.Base.Equality.{◌==◌, nat_eq, text_eq, bool_eq}
use furtalk.Domain.{
  Role, UserStatus, UserDeleteMode, role_eq, user_status_eq, user_delete_mode_eq, conflict,
  forbidden, last_admin, validation, confirmation_required,
}
use furtalk.Domain.Entities.{BatchResult, User}
use furtalk.Store.{Action, Result, ok, err, pure, lift, raise_if, run_in_tx, ◌>>=◌, ◌>>◌}
use furtalk.Store.Users
use furtalk.Store.Comments
use furtalk.Identity.Batch.{UserAction, BatchPlan, valid_action, apply_plan}

-- `runAdminMutationWithActiveAdminCount`
unfoldable pub run_admin_mutation : {A : Type 0} → (ℕ → Action A) → Action A
run_admin_mutation body = run_in_tx (Users.lock_active_admins >>= body)

abbrev pub is_destructive : UserAction → Bool
is_destructive UserAction.disable = true
is_destructive UserAction.soft_delete = true
is_destructive UserAction.hard_delete = true
is_destructive _ = false

abbrev pub needs_confirmation : UserAction → Bool
needs_confirmation UserAction.soft_delete = true
needs_confirmation UserAction.hard_delete = true
needs_confirmation _ = false

abbrev pub max_user_batch_limit : ℕ
max_user_batch_limit = 100

-- The invalidations after the commit, one user at a time, until one fails.
abbrev pub invalidate_all : (ℕ → Result (Unit {0})) → List ℕ → Result (Unit {0})
invalidate_all invalidate [] = ok tt
invalidate_all invalidate (id ∷ ids) = elim (invalidate id) [
  | ok _ ↦ invalidate_all invalidate ids
  | err e ↦ err e
]

-- The transaction of a batch: a destructive action counts the active administrators first.
abbrev pub batch_transaction : ℕ → UserAction → ℕ → List ℕ → Action BatchPlan
batch_transaction acting action now ids =
    if is_destructive action
    then run_admin_mutation (apply_plan acting action now ids)
    else run_in_tx (apply_plan acting action now ids 0)

abbrev pub invalid_batch : ℕ → List ℕ → UserAction → Bool
invalid_batch acting ids action =
    acting == 0
    || length ids == 0
    || ltb max_user_batch_limit (length ids)
    || not (valid_action action)

abbrev pub batch_result : List ℕ → BatchPlan → BatchResult
batch_result ids plan = record {
  requested_count = length ids;
  changed_count = length plan.changed_ids;
  unchanged_count = plan.unchanged;
}

unfoldable pub admin_batch_users :
    (ℕ → Result (Unit {0})) → ℕ → ℕ → List ℕ → UserAction → Bool → Action BatchResult
unfolding run_admin_mutation apply_plan
admin_batch_users invalidate now acting ids action confirm = do
  raise_if (invalid_batch acting ids action) validation
  raise_if (needs_confirmation action && not confirm) confirmation_required
  let sorted = sort ids
  raise_if (not (distinct_ids 0 sorted)) validation
  plan ← batch_transaction acting action now sorted
  lift (invalidate_all invalidate plan.changed_authz)
  pure (batch_result sorted plan)

-- `ensureNotLastActiveAdmin`
unfoldable pub ensure_not_last_active_admin : User → UserStatus → Action (Unit {0})
ensure_not_last_active_admin u next =
    if not (u.role == Role.admin)
      || not (u.status == UserStatus.active)
      || next == UserStatus.active
    then pure tt
    else (do
      n ← Users.count_by_role_and_status Role.admin UserStatus.active
      raise_if (leb n 1) last_admin)

-- The writes of a removal.
abbrev pub removal : User → UserDeleteMode → ℕ → Action Bool
removal u mode now =
    if mode == UserDeleteMode.hard
    then (do Comments.detach_user_comment_children (u.id ∷ []); Users.delete u.id; pure true)
    else (do Users.soft_delete u.id u.status now; Comments.soft_delete_by_user u.id now; pure true)

-- `applyAdminUserDeleteInTx`
unfoldable pub apply_admin_user_delete : ℕ → User → UserDeleteMode → Bool → ℕ → Action Bool
unfolding ensure_not_last_active_admin
apply_admin_user_delete acting u mode confirm now = do
  raise_if (acting == u.id) forbidden
  raise_if (not (mode == UserDeleteMode.soft) && not (mode == UserDeleteMode.hard)) validation
  raise_if (mode == UserDeleteMode.hard && not confirm) confirmation_required
  if mode == UserDeleteMode.soft && u.status == UserStatus.deleted
      then pure false
      else (do ensure_not_last_active_admin u UserStatus.deleted; removal u mode now)

unfoldable pub admin_delete_user :
    (ℕ → Result (Unit {0})) → ℕ → ℕ → ℕ → UserDeleteMode → Bool → Action (Unit {0})
unfolding run_admin_mutation apply_admin_user_delete
admin_delete_user invalidate now acting target mode confirm = do
  raise_if (acting == target) forbidden
  raise_if (not (mode == UserDeleteMode.soft) && not (mode == UserDeleteMode.hard)) validation
  raise_if (mode == UserDeleteMode.hard && not confirm) confirmation_required
  _ ←
      run_admin_mutation
        λ _. (do u ← Users.find_by_id target; apply_admin_user_delete acting u mode confirm now)
  lift (invalidate target)

-- `restoreAdminUserInTx`: an account that is not deleted is left as it is.
unfoldable pub restore_admin_user : User → Action Bool
restore_admin_user u =
    if not (u.status == UserStatus.deleted) then pure false else Users.restore u.id >> pure true

unfoldable pub admin_restore_user : (ℕ → Result (Unit {0})) → ℕ → Action (Unit {0})
unfolding restore_admin_user
admin_restore_user invalidate target = do
  restored ← run_in_tx (do u ← Users.find_by_id target; restore_admin_user u)
  raise_if (not restored) conflict
  lift (invalidate target)
