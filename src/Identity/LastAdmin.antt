-- ===== src/Identity/LastAdmin.antt =====
-- No command on users takes the last active administrator away.
use furtalk.Base.{
  ℕ, ◌≡◌, refl, Bool, true, false, not, ◌&&◌, List, count, arith, sort, distinct_ids, Bool-cases,
  ◌⊎◌, inl, inr,
}
use furtalk.Base.Equality.{nat_eq}
use furtalk.Domain.{role_eq, user_status_eq, validation, confirmation_required, user_delete_mode_eq}
use furtalk.Store.{Db, Action, Result, ok, err, pure, lift, run_in_tx, ◌>>=◌, ◌>>◌}
use furtalk.Store.Contract.{
  Keeps, after, Yields-bind, Yields-pure, Yields-if, Yields-lift, Yields-raise_if, Keeps-outcome,
  run_in_tx-outcome, then_pure-outcome,
}
use furtalk.Store.Users
use furtalk.Store.Users.{has_id, is_active_admin, is_among, update_users, set_users}
use furtalk.Identity.Batch.{UserAction, BatchPlan, write_plan, apply_plan, plan_users}
use furtalk.Identity.Commands.{
  is_destructive, run_admin_mutation, batch_transaction, admin_batch_users, needs_confirmation,
  invalid_batch, batch_result, invalidate_all,
}
use furtalk.Identity.Counting.{Sufficient, plan_users-count}
use furtalk.Identity.Spares.{HasAdmin, Spares, write_plan-Spares, write_plan-HasAdmin}

-- A plan for the users that the call reads, and its writes.
apply_plan-HasAdmin :
    (acting : ℕ) (action : UserAction) (now : ℕ) (ids : List ℕ) (admins : ℕ) (db : Db)
    → is_destructive action ≡ false ⊎ admins ≡ count is_active_admin db.users
    → HasAdmin db
    → HasAdmin ((apply_plan acting action now ids admins db).1)
unfolding apply_plan
apply_plan-HasAdmin acting action now ids admins db counted h =
    outcome (plan_users acting action db.users ids admins) refl
  where
    outcome :
        (r : Result BatchPlan)
        → plan_users acting action db.users ids admins ≡ r
        → HasAdmin ((lift r >>= (λ plan. write_plan action now plan.changed_ids >> pure plan)) db).1
    outcome (err e) o = h
    outcome (ok plan) o =
        then_pure-outcome HasAdmin (write_plan action now plan.changed_ids) plan db
          (elim (Bool-cases (is_destructive action)) [
            | inl d ↦ spared d (write_plan-Spares action now plan.changed_ids db d) (
                plan_users-count acting action db.users ids admins plan is_active_admin h.0 d
                  (λ _ n. n) o (ground arith))
            | inr d ↦ write_plan-HasAdmin action now plan.changed_ids db d h
          ])
      where
        spared :
            is_destructive action ≡ true
            → Spares
                (is_among plan.changed_ids)
                db.users
                ((write_plan action now plan.changed_ids db).1).users
            → Sufficient is_active_admin db.users admins plan
            → HasAdmin ((write_plan action now plan.changed_ids db).1)
        spared d s q = (λ k. omega (arith, s.0 k, h.0 k), ground (arith, s.1, q, counted))

-- A transaction that counts the active administrators hands the true count to its body.
pub run_admin_mutation-HasAdmin :
    {A : Type 0} (body : ℕ → Action A)
    → ((db : Db) → HasAdmin db → HasAdmin ((body (count is_active_admin db.users) db).1))
    → Keeps HasAdmin (run_admin_mutation body)
unfolding run_admin_mutation Users.lock_active_admins
run_admin_mutation-HasAdmin {A} body k =
    Keeps-outcome (run_admin_mutation body)
      λ db h. run_in_tx-outcome HasAdmin {A = A} (Users.lock_active_admins >>= body) db h (k db h)

batch_transaction-HasAdmin :
    (acting : ℕ) (action : UserAction) (now : ℕ) (ids : List ℕ)
    → Keeps HasAdmin (batch_transaction acting action now ids)
batch_transaction-HasAdmin acting action now ids =
    Yields-if (is_destructive action)
      (λ _. run_admin_mutation-HasAdmin (apply_plan acting action now ids) λ db h.
        apply_plan-HasAdmin acting action now ids (count is_active_admin db.users) db (inr refl) h)
      (λ d. Keeps-outcome (run_in_tx (apply_plan acting action now ids 0)) λ db h.
        run_in_tx-outcome HasAdmin {A = BatchPlan} (apply_plan acting action now ids 0) db h
          (apply_plan-HasAdmin acting action now ids 0 db (inl d) h))

-- From a database in which the identifiers of the users are unique and one of them is an active
-- administrator, a batch command on users, whatever its action, its users and the answers of the
-- cache, and however it ends, leads to such a database again.
pub admin_batch_users-HasAdmin :
    (invalidate : ℕ → Result (Unit {0})) (now acting : ℕ) (ids : List ℕ) (action : UserAction)
    (confirm : Bool) (db : Db)
    → HasAdmin db
    → HasAdmin ((admin_batch_users invalidate now acting ids action confirm db).1)
unfolding admin_batch_users
admin_batch_users-HasAdmin invalidate now acting ids action confirm db h = after kept db h
  where
    kept : Keeps HasAdmin (admin_batch_users invalidate now acting ids action confirm)
    kept = Yields-bind (Yields-raise_if (invalid_batch acting ids action) validation) λ _ _.
        Yields-bind
          (Yields-raise_if (needs_confirmation action && not confirm) confirmation_required)
          λ _ _. Yields-bind (Yields-raise_if (not (distinct_ids 0 (sort ids))) validation) λ _ _.
            Yields-bind (batch_transaction-HasAdmin acting action now (sort ids)) λ plan _.
              Yields-bind (Yields-lift (invalidate_all invalidate plan.changed_authz) (λ _ _. tt))
                λ _ _. Yields-pure (batch_result (sort ids) plan) tt
