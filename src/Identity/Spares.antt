-- ===== src/Identity/Spares.antt =====
-- What the writes of the commands on users leave of the active administrators.
use furtalk.Base.{
  ℕ, ◌≤◌, ◌≡◌, refl, ap, sym, subst, Bool, true, false, not, ◌&&◌, List, count, filter, arith,
  update_where,
}
use furtalk.Base.Equality.{◌==◌, nat_eq}
use furtalk.Base.Counting.{
  count_mono, count-update_where, count-update_where-kept, count-update_where-same, count-filter,
  count-filter-le,
}
use furtalk.Domain.{UserStatus, role_eq, user_status_eq, Error, user_delete_mode_eq}
use furtalk.Domain.Entities.{User}
use furtalk.Store.{Db, Action, raise_if, ◌>>◌}
use furtalk.Store.Comments
use furtalk.Store.Users
use furtalk.Store.Users.{has_id, is_active_admin, is_among, update_users, set_users}
use furtalk.Identity.Batch.{UserAction, write_plan}
use furtalk.Identity.Commands.{is_destructive}
use furtalk.Identity.Counting.{UniqueIds}

-- The identifiers of the users are unique, and one of the users is an active administrator.
abbrev pub HasAdmin : Db → Type 0
HasAdmin db = UniqueIds db.users × (1 ≤ count is_active_admin db.users)

-- What a write makes of the users: identifiers stay unique, and the active administrators outside
-- `ids` stay what they are.
abbrev pub Spares : (User → Bool) → List User → List User → Type 0
Spares q us us' =
    ((k : ℕ) → count (has_id k) us' ≤ count (has_id k) us)
    × (count (λ u. is_active_admin u && not (q u)) us ≤ count is_active_admin us')

pub update_where-Spares :
    (q q' : User → Bool) (f : User → User) (us : List User)
    → ((u : User) → (f u).id ≡ u.id)
    → ((u : User) → q' u ≡ true → q u ≡ true)
    → Spares q us (update_where q' f us)
update_where-Spares q q' f us k sub = (
  λ id. omega (arith, count-update_where-same (has_id id) q' f (λ u. ap (λ n. n == id) (k u)) us),
  omega (
    arith,
    count-update_where is_active_admin q' f us,
    count_mono (λ u. is_active_admin u && not (q u)) (λ u. is_active_admin u && not (q' u))
        (λ u n. ground (arith, sub u, n)) us,
  ),
)

pub filter-Spares : (q : User → Bool) (us : List User) → Spares q us (filter (λ u. not (q u)) us)
filter-Spares q us = (
  λ k. count-filter-le (has_id k) (λ u. not (q u)) us,
  omega (arith, count-filter is_active_admin (λ u. not (q u)) us),
)

-- The number of rows is checked after the write, and nothing that follows writes users.
checked-Spares :
    (q : User → Bool) (us : List User) (b : Bool) (e : Error) (db : Db)
    → Spares q us db.users
    → Spares q us ((raise_if b e db).1).users
checked-Spares q us true e db s = s
checked-Spares q us false e db s = s

followed-Spares :
    (q : User → Bool) (us : List User) (b : Bool) (e : Error) (next : Action (Unit {0})) (db : Db)
    → ((next db).1).users ≡ db.users
    → Spares q us db.users
    → Spares q us ((◌>>◌ (raise_if b e) next db).1).users
followed-Spares q us true e next db k s = s
followed-Spares q us false e next db k s = subst (Spares q us) (sym k) s

pub write_plan-Spares :
    (action : UserAction) (now : ℕ) (ids : List ℕ) (db : Db)
    → is_destructive action ≡ true
    → Spares (is_among ids) db.users ((write_plan action now ids db).1).users
unfolding write_plan Users.update_status_many Users.soft_delete_many Users.delete_many
    Comments.soft_delete_by_users Comments.detach_user_comment_children
write_plan-Spares UserAction.disable now ids db d =
    checked-Spares (is_among ids) db.users _ _ _
      (update_where-Spares (is_among ids) (is_among ids) _ db.users (λ _. refl) (λ _ m. m))
write_plan-Spares UserAction.soft_delete now ids db d =
    followed-Spares (is_among ids) db.users _ _ (Comments.soft_delete_by_users ids now) _ refl (
      update_where-Spares (is_among ids)
        (λ u. is_among ids u && not (u.status == UserStatus.deleted)) _ db.users (λ _. refl)
        (λ _ m. ground (arith, m)))
write_plan-Spares UserAction.hard_delete now ids db d =
    checked-Spares (is_among ids) db.users _ _ _ (filter-Spares (is_among ids) db.users)
write_plan-Spares UserAction.enable now ids db d = absurd (ground arith)
write_plan-Spares UserAction.verify_email now ids db d = absurd (ground arith)
write_plan-Spares UserAction.unverify_email now ids db d = absurd (ground arith)
write_plan-Spares UserAction.restore now ids db d = absurd (ground arith)
write_plan-Spares UserAction.unknown now ids db d = absurd (ground arith)

-- The writes of the other actions leave every active administrator one.
checked-HasAdmin : (b : Bool) (e : Error) (db : Db) → HasAdmin db → HasAdmin ((raise_if b e db).1)
checked-HasAdmin true e db h = h
checked-HasAdmin false e db h = h

pub update_users-HasAdmin :
    (q : User → Bool) (f : User → User) (db : Db)
    → ((u : User) → (f u).id ≡ u.id)
    → ((u : User) → q u ≡ true → is_active_admin u ≡ true → is_active_admin (f u) ≡ true)
    → HasAdmin db
    → HasAdmin (set_users db (update_where q f db.users))
update_users-HasAdmin q f db k keep h = (
  λ id. omega (
    arith,
    h.0 id,
    count-update_where-same (has_id id) q f (λ u. ap (λ n. n == id) (k u)) db.users,
  ),
  omega (arith, h.1, count-update_where-kept is_active_admin q f keep db.users),
)

pub write_plan-HasAdmin :
    (action : UserAction) (now : ℕ) (ids : List ℕ) (db : Db)
    → is_destructive action ≡ false
    → HasAdmin db
    → HasAdmin ((write_plan action now ids db).1)
unfolding write_plan Users.update_status_many Users.mark_email_verified_many
    Users.unverify_email_many Users.restore_many
write_plan-HasAdmin UserAction.enable now ids db d h =
    checked-HasAdmin _ _ _ (update_users-HasAdmin _ _ db (λ _. refl) (λ u _ a. ground (arith, a)) h)
write_plan-HasAdmin UserAction.verify_email now ids db d h =
    checked-HasAdmin _ _ _ (update_users-HasAdmin _ _ db (λ _. refl) (λ u _ a. a) h)
write_plan-HasAdmin UserAction.unverify_email now ids db d h =
    checked-HasAdmin _ _ _ (update_users-HasAdmin _ _ db (λ _. refl) (λ u _ a. a) h)
write_plan-HasAdmin UserAction.restore now ids db d h = checked-HasAdmin _ _ _ (
    update_users-HasAdmin (λ u. is_among ids u && u.status == UserStatus.deleted)
      Users.restored_user db (λ _. refl) (λ u q a. ground (arith, q, a)) h)
write_plan-HasAdmin UserAction.unknown now ids db d h = h
write_plan-HasAdmin UserAction.disable now ids db d h = absurd (ground arith)
write_plan-HasAdmin UserAction.soft_delete now ids db d h = absurd (ground arith)
write_plan-HasAdmin UserAction.hard_delete now ids db d h = absurd (ground arith)
