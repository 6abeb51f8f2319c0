-- ===== src/Store/Users.antt =====
-- internal/repository/user.go: the statements on the table `users`, whose normalized e-mail is
-- unique. The many-row statements return the number of rows that they wrote.
use furtalk.Base.{
  ℕ, zero, suc, ◌+◌, Bool, not, ◌&&◌, Option, none, some, List, [], ◌∷◌, ◌++◌, is_some, find?,
  filter, any, count, update_where,
}
use furtalk.Base.Equality.{◌==◌, contains, nat_eq, text_eq}
use furtalk.Domain.{Role, UserStatus, role_eq, user_status_eq, not_found, conflict}
use furtalk.Domain.Entities.{User, Text}
use furtalk.Store.{Db, Action, pure, gets, or_raise, raise_if, modify, ◌>>=◌, ◌>>◌}
use furtalk.Store.Comments.{key_of, delete_comments, points_into}
use mathlib.Core.List.{map}

abbrev pub set_users : Db → List User → Db
set_users db us = record db { users = us }

abbrev pub update_users : (User → Bool) → (User → User) → Action (Unit {0})
update_users p f = modify (λ db. set_users db (update_where p f db.users))

abbrev pub has_id : ℕ → User → Bool
has_id id u = u.id == id

abbrev pub is_among : List ℕ → User → Bool
is_among ids u = contains ids u.id

-- `role = 'admin' AND status = 'active'`
abbrev pub is_active_admin : User → Bool
is_active_admin u = u.role == Role.admin && u.status == UserStatus.active

-- The column's default stands for a version of 0.
abbrev pub default_version : ℕ → ℕ
default_version zero = 1
default_version (suc v) = suc v

unfoldable pub create : User → Action User
create u = do
  taken ← gets (λ db. any (λ v. v.email_normalized == u.email_normalized) db.users)
  raise_if taken conflict
  id ← gets (λ db. db.next_user)
  let row = record u { id = id; session_version = default_version u.session_version }
  modify (λ db. record db { users = db.users ++ row ∷ []; next_user = id + 1 })
  pure row

unfoldable pub find_by_email_normalized : Text → Action User
find_by_email_normalized normalized = do
  or_raise (← gets (λ db. find? (λ u. u.email_normalized == normalized) db.users)) not_found

unfoldable pub find_by_id : ℕ → Action User
find_by_id id = do or_raise (← gets (λ db. find? (has_id id) db.users)) not_found

unfoldable pub update_profile : ℕ → Text → Option Text → Action (Unit {0})
update_profile id nickname website_url = do
  hit ← gets (λ db. any (has_id id) db.users)
  raise_if (not hit) not_found
  update_users (has_id id) (λ u. record u { nickname = nickname; website_url = website_url })

-- `UpdateAdmin`, with the fields as the change that they make of a row: a normalized e-mail that
-- another row has is refused by the unique index.
unfoldable pub update_admin : ℕ → (User → User) → Action (Unit {0})
unfolding find_by_id
update_admin id fields = do
  row ← find_by_id id
  taken ← gets (λ db.
      any (λ v. not (v.id == id) && v.email_normalized == (fields row).email_normalized) db.users)
  raise_if taken conflict
  update_users (has_id id) fields

unfoldable pub count_by_role_and_status : Role → UserStatus → Action ℕ
count_by_role_and_status role status =
    gets (λ db. count (λ u. u.role == role && u.status == status) db.users)

unfoldable pub lock_active_admins : Action ℕ
lock_active_admins = gets (λ db. count is_active_admin db.users)

-- An update of the rows that a test picks, with the number of rows.
abbrev pub update_counted : (User → Bool) → (User → User) → Action ℕ
update_counted p f = do affected ← gets (λ db. count p db.users); update_users p f; pure affected

unfoldable pub update_status_many : List ℕ → UserStatus → Action ℕ
update_status_many ids status = update_counted (is_among ids) (λ u. record u { status = status })

unfoldable pub mark_email_verified_many : List ℕ → ℕ → Action ℕ
mark_email_verified_many ids verified_at =
    update_counted (λ u. is_among ids u && not (is_some u.email_verified_at))
      (λ u. record u { email_verified_at = some verified_at })

unfoldable pub unverify_email_many : List ℕ → Action ℕ
unverify_email_many ids =
    update_counted (λ u. is_among ids u && is_some u.email_verified_at)
      (λ u. record u { email_verified_at = none })

abbrev pub soft_deleted_user : UserStatus → ℕ → User → User
soft_deleted_user before deleted_at u = record u {
  status = UserStatus.deleted;
  status_before_delete = some before;
  deleted_at = some deleted_at;
}

unfoldable pub soft_delete_many : List ℕ → ℕ → Action ℕ
soft_delete_many ids deleted_at =
    update_counted (λ u. is_among ids u && not (u.status == UserStatus.deleted))
      (λ u. soft_deleted_user u.status deleted_at u)

-- The status before the deletion, if it is `active` or `disabled`; else `active`.
abbrev pub restored_status : Option UserStatus → UserStatus
restored_status (some UserStatus.disabled) = UserStatus.disabled
restored_status _ = UserStatus.active

abbrev pub restored_user : User → User
restored_user u = record u {
  status = restored_status u.status_before_delete;
  status_before_delete = none;
  deleted_at = none;
}

unfoldable pub restore_many : List ℕ → Action ℕ
restore_many ids =
    update_counted (λ u. is_among ids u && u.status == UserStatus.deleted) restored_user

-- Deleting users deletes their likes and comments, with what hangs on those (ON DELETE CASCADE),
-- and clears `reply_to_user_id` where it names one of them (ON DELETE SET NULL).
abbrev pub delete_users : (User → Bool) → Db → Db
delete_users p db =
    let ids = map (λ u. u.id) (filter p db.users) in
    let victims = map key_of (filter (λ c. contains ids c.user_id) db.comments) in
    delete_comments victims (record db {
      users = filter (λ u. not (p u)) db.users;
      comments =
          update_where (λ c. points_into ids c.reply_to_user_id)
            (λ c. record c { reply_to_user_id = none }) db.comments;
      likes = filter (λ l. not (contains ids l.user_id)) db.likes;
    })

unfoldable pub delete_many : List ℕ → Action ℕ
delete_many ids = do
  affected ← gets (λ db. count (is_among ids) db.users)
  modify (delete_users (is_among ids))
  pure affected

unfoldable pub soft_delete : ℕ → UserStatus → ℕ → Action (Unit {0})
unfolding find_by_id
soft_delete id before deleted_at =
    find_by_id id >>= λ _. update_users (has_id id) (soft_deleted_user before deleted_at)

unfoldable pub restore : ℕ → Action (Unit {0})
unfolding find_by_id
restore id = do
  row ← find_by_id id
  update_users (has_id id) (λ u. record u {
    status = restored_status row.status_before_delete;
    status_before_delete = none;
    deleted_at = none;
  })

unfoldable pub delete : ℕ → Action (Unit {0})
delete id = do
  hit ← gets (λ db. any (has_id id) db.users)
  raise_if (not hit) not_found
  modify (delete_users (has_id id))
