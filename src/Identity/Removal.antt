-- ===== src/Identity/Removal.antt =====
-- The commands on one user leave an active administrator.
use furtalk.Base.{
  ℕ, ◌≤◌, ◌≡◌, refl, sym, subst, Bool, true, false, not, ◌&&◌, Option, none, some, List, [], ◌∷◌,
  ◌∙◌, find?-passes, count, find?, arith, update_where, filter, ◌⊎◌, inl, inr, Bool-cases,
}
use furtalk.Base.Equality.{◌==◌, nat_eq}
use furtalk.Domain.{
  UserStatus, UserDeleteMode, role_eq, user_status_eq, user_delete_mode_eq, validation,
  confirmation_required, forbidden, conflict, not_found,
}
use furtalk.Domain.Entities.{User}
use furtalk.Store.{Db, Action, Result, pure, or_raise, run_in_tx, ◌>>=◌, ◌>>◌}
use furtalk.Store.Contract.{
  Keeps, after, Yields-bind, Yields-lift, Yields-raise_if, Keeps-outcome, run_in_tx-outcome, Leads,
  Leads-pure, Leads-raise_if, Leads-if, Leads-or_raise,
}
use furtalk.Store.Comments
use furtalk.Store.Users
use furtalk.Store.Users.{has_id, is_active_admin}
use furtalk.Identity.Commands.{
  ensure_not_last_active_admin, removal, apply_admin_user_delete, admin_delete_user,
  restore_admin_user, admin_restore_user,
}
use furtalk.Identity.Counting.{count-but, count-but-suc}
use furtalk.Identity.Spares.{HasAdmin, Spares, update_where-Spares, filter-Spares}
use furtalk.Identity.LastAdmin.{run_admin_mutation-HasAdmin}

-- A user who was found goes: no active administrator, or one of two at least.
abbrev pub MayGo : User → Db → Type 0
MayGo u db = (is_active_admin u ≡ false) ⊎ (2 ≤ count is_active_admin db.users)

pub removal-HasAdmin :
    (u : User) (db : Db) (us' : List User)
    → find? (has_id u.id) db.users ≡ some u
    → MayGo u db
    → HasAdmin db
    → Spares (has_id u.id) db.users us'
    → ((k : ℕ) → count (has_id k) us' ≤ 1) × (1 ≤ count is_active_admin us')
removal-HasAdmin u db us' found may h s = (
  λ k. omega (arith, s.0 k, h.0 k),
  ground (
    arith,
    may,
    s.1,
    h.1,
    count-but-suc u.id is_active_admin db.users (h.0 u.id),
    count-but u.id is_active_admin db.users u (h.0 u.id) found,
  ),
)

soft-HasAdmin :
    (u : User) (now : ℕ) (db : Db)
    → find? (has_id u.id) db.users ≡ some u
    → MayGo u db
    → HasAdmin db
    → HasAdmin
        ((Users.soft_delete u.id u.status now
            >> (Comments.soft_delete_by_user u.id now >> pure true))
          db).1
unfolding Users.soft_delete Users.find_by_id Comments.soft_delete_by_user
soft-HasAdmin u now db found may h = ground (
  arith,
  found,
  removal-HasAdmin u db (update_where (has_id u.id) (Users.soft_deleted_user u.status now) db.users)
      found may h
      (update_where-Spares (has_id u.id) (has_id u.id) (Users.soft_deleted_user u.status now)
        db.users (λ _. refl) (λ _ m. m)),
)

hard-HasAdmin :
    (u : User) (db : Db)
    → find? (has_id u.id) db.users ≡ some u
    → MayGo u db
    → HasAdmin db
    → HasAdmin
        ((Comments.detach_user_comment_children (u.id ∷ []) >> (Users.delete u.id >> pure true))
          db).1
unfolding Users.delete Comments.detach_user_comment_children
hard-HasAdmin u db found may h = ground (
  arith,
  removal-HasAdmin u db (filter (λ v. not (has_id u.id v)) db.users) found may h
      (filter-Spares (has_id u.id) db.users),
  h,
)

-- The guard lets a removal through only if an active administrator is left.
ensure_not_last_active_admin-MayGo :
    (u : User) (next : Action Bool) (db : Db)
    → HasAdmin db
    → (MayGo u db → Leads HasAdmin db next)
    → Leads HasAdmin db (ensure_not_last_active_admin u UserStatus.deleted >> next)
unfolding ensure_not_last_active_admin Users.count_by_role_and_status
ensure_not_last_active_admin-MayGo u next db h k = record { out = ground (arith, h, outcome) }
  where
    outcome : MayGo u db → HasAdmin ((next db).1)
    outcome may = (k may).out

apply_admin_user_delete-HasAdmin :
    (acting : ℕ) (u : User) (mode : UserDeleteMode) (confirm : Bool) (now : ℕ) (db : Db)
    → find? (has_id u.id) db.users ≡ some u
    → HasAdmin db
    → Leads HasAdmin db (apply_admin_user_delete acting u mode confirm now)
unfolding apply_admin_user_delete
apply_admin_user_delete-HasAdmin acting u mode confirm now db found h =
    Leads-raise_if (acting == u.id) forbidden h λ _.
      Leads-raise_if (not (mode == UserDeleteMode.soft) && not (mode == UserDeleteMode.hard))
        validation h
        λ _.
          Leads-raise_if (mode == UserDeleteMode.hard && not confirm) confirmation_required h λ _.
            Leads-if (mode == UserDeleteMode.soft && u.status == UserStatus.deleted)
              (λ _. Leads-pure false h)
              (λ _. ensure_not_last_active_admin-MayGo u (removal u mode now) db h λ may.
                Leads-if (mode == UserDeleteMode.hard)
                  (λ _. record { out = hard-HasAdmin u db found may h })
                  (λ _. record { out = soft-HasAdmin u now db found may h }))

-- Looking a user up changes nothing, and what was found has the identifier.
pub found-Leads :
    {B : Type 0} (target : ℕ) {k : User → Action B} (db : Db)
    → HasAdmin db
    → ((u : User)
        → u.id ≡ target
        → find? (has_id target) db.users ≡ some u
        → Leads HasAdmin db (k u))
    → Leads HasAdmin db (Users.find_by_id target >>= k)
unfolding Users.find_by_id
found-Leads target {k} db h f = record {
  out = (looked_up (find? (has_id target) db.users) refl).out;
}
  where
    looked_up :
        (o : Option User)
        → find? (has_id target) db.users ≡ o
        → Leads HasAdmin db (or_raise o not_found >>= k)
    looked_up o e =
        Leads-or_raise o not_found h
          λ u s. f u (ground (arith, find?-passes (has_id target) db.users u (e ∙ s))) (e ∙ s)

-- From a database in which the identifiers of the users are unique and one of them is an active
-- administrator, deleting a user, softly or for good, and however it ends, leads to such a
-- database again.
pub admin_delete_user-HasAdmin :
    (invalidate : ℕ → Result (Unit {0})) (now acting target : ℕ) (mode : UserDeleteMode)
    (confirm : Bool) (db : Db)
    → HasAdmin db
    → HasAdmin ((admin_delete_user invalidate now acting target mode confirm db).1)
unfolding admin_delete_user
admin_delete_user-HasAdmin invalidate now acting target mode confirm db h = after kept db h
  where
    body : ℕ → Action Bool
    body n = Users.find_by_id target >>= λ u. apply_admin_user_delete acting u mode confirm now

    kept : Keeps HasAdmin (admin_delete_user invalidate now acting target mode confirm)
    kept = Yields-bind (Yields-raise_if (acting == target) forbidden) λ _ _.
        Yields-bind
          (Yields-raise_if (not (mode == UserDeleteMode.soft) && not (mode == UserDeleteMode.hard))
            validation)
          λ _ _.
            Yields-bind
              (Yields-raise_if (mode == UserDeleteMode.hard && not confirm) confirmation_required)
              λ _ _.
                Yields-bind
                  (run_admin_mutation-HasAdmin body λ db h.
                    (found-Leads target {k = λ u. apply_admin_user_delete acting u mode confirm now}
                      db h
                      λ u at found.
                        apply_admin_user_delete-HasAdmin acting u mode confirm now db
                          (subst (λ n. find? (has_id n) db.users ≡ some u) (sym at) found) h).out)
                  λ _ _. Yields-lift (invalidate target) (λ _ _. tt)

-- What `restore` writes, from the row that it found.
abbrev pub restored_as : User → User → User
restored_as row u = record u {
  status = Users.restored_status row.status_before_delete;
  status_before_delete = none;
  deleted_at = none;
}

restore_admin_user-HasAdmin :
    (u : User) (db : Db)
    → find? (has_id u.id) db.users ≡ some u
    → HasAdmin db
    → HasAdmin ((restore_admin_user u db).1)
unfolding restore_admin_user Users.restore Users.find_by_id
restore_admin_user-HasAdmin u db found h = elim (Bool-cases (u.status == UserStatus.deleted)) [
  | inl d ↦ ground (
    arith,
    found,
    d,
    removal-HasAdmin u db (update_where (has_id u.id) (restored_as u) db.users) found
        (inl (ground (arith, d))) h
        (update_where-Spares (has_id u.id) (has_id u.id) (restored_as u) db.users (λ _. refl)
          (λ _ m. m)),
  )
  | inr d ↦ ground (arith, d, h)
]

-- From a database in which the identifiers of the users are unique and one of them is an active
-- administrator, restoring an account, and however it ends, leads to such a database again.
pub admin_restore_user-HasAdmin :
    (invalidate : ℕ → Result (Unit {0})) (target : ℕ) (db : Db)
    → HasAdmin db
    → HasAdmin ((admin_restore_user invalidate target db).1)
unfolding admin_restore_user
admin_restore_user-HasAdmin invalidate target db h = after kept db h
  where
    body : Action Bool
    body = Users.find_by_id target >>= restore_admin_user

    kept : Keeps HasAdmin (admin_restore_user invalidate target)
    kept =
        Yields-bind
          (Keeps-outcome (run_in_tx body) λ db h. run_in_tx-outcome HasAdmin {A = Bool} body db h (
            (found-Leads target {k = restore_admin_user} db h λ u at found. record {
              out =
                  restore_admin_user-HasAdmin u db
                    (subst (λ n. find? (has_id n) db.users ≡ some u) (sym at) found) h;
            }).out))
          λ restored _.
            Yields-bind (Yields-raise_if (not restored) conflict)
              λ _ _. Yields-lift (invalidate target) (λ _ _. tt)
