-- ===== src/Identity/Demotion.antt =====
-- Updating a user leaves an active administrator.
use furtalk.Base.{
  ℕ, ◌≤◌, ◌≡◌, refl, Bool, true, false, not, ◌||◌, Option, some, count, find?, arith, update_where,
  ◌⊎◌, inl, inr, if◌then◌else◌, is_some, sym, subst,
}
use furtalk.Base.Equality.{◌==◌, nat_eq, text_eq}
use furtalk.Domain.{Role, UserStatus, role_eq, user_status_eq}
use furtalk.Domain.Entities.{Text, User}
use furtalk.Store.{Db, Action, Result, pure, run_in_tx, ◌>>=◌, ◌>>◌}
use furtalk.Store.Contract.{
  Keeps, after, Yields-bind, Yields-pure, Yields-if, Yields-lift, Keeps-outcome, run_in_tx-outcome,
  then_pure-outcome, Leads, Leads-lift,
}
use furtalk.Store.Users
use furtalk.Store.Users.{has_id, is_active_admin}
use furtalk.Text.{Parsers}
use furtalk.Identity.Spares.{HasAdmin, update_where-Spares, update_users-HasAdmin}
use furtalk.Identity.LastAdmin.{run_admin_mutation-HasAdmin}
use furtalk.Identity.Removal.{found-Leads, removal-HasAdmin}
use furtalk.Identity.Update.{
  UpdateInput, guard_demotion, written, next_email, next_nickname, next_website, next_status,
  next_verified, or_current, is_unchanged, save, update_row, update_in_tx, admin_update_user,
}

-- Every row that the update reaches is an active administrator, or the one that it was read from
-- may go.
abbrev pub Permitted : User → (User → User) → Db → Type 0
Permitted u f db =
    ((is_active_admin u ≡ false) ⊎ (2 ≤ count is_active_admin db.users))
    ⊎ ((v : User) → is_active_admin (f v) ≡ true)

updated-HasAdmin :
    (u : User) (f : User → User) (db : Db)
    → find? (has_id u.id) db.users ≡ some u
    → ((v : User) → (f v).id ≡ v.id)
    → Permitted u f db
    → HasAdmin db
    → HasAdmin (Users.set_users db (update_where (has_id u.id) f db.users))
updated-HasAdmin u f db found k (inl may) h =
    removal-HasAdmin u db (update_where (has_id u.id) f db.users) found may h
      (update_where-Spares (has_id u.id) (has_id u.id) f db.users k (λ _ m. m))
updated-HasAdmin u f db found k (inr stays) h =
    update_users-HasAdmin (has_id u.id) f db k (λ v _ _. stays v) h

update_admin-HasAdmin :
    (u : User) (f : User → User) (db : Db)
    → find? (has_id u.id) db.users ≡ some u
    → ((v : User) → (f v).id ≡ v.id)
    → Permitted u f db
    → HasAdmin db
    → HasAdmin ((Users.update_admin u.id f db).1)
unfolding Users.update_admin Users.find_by_id
update_admin-HasAdmin u f db found k may h =
    ground (arith, found, h, updated-HasAdmin u f db found k may h)

-- The guard, and what it lets through.
guard_demotion-Permitted :
    {A : Type 0} (u : User) (role : Role) (status : UserStatus) {next : Action A} (db : Db)
    → HasAdmin db
    → (((is_active_admin u ≡ false) ⊎ (2 ≤ count is_active_admin db.users))
          ⊎ ((role ≡ Role.admin) × (status ≡ UserStatus.active))
        → Leads HasAdmin db next)
    → Leads HasAdmin db (guard_demotion u role status >> next)
unfolding Users.count_by_role_and_status
guard_demotion-Permitted u role status {next} db h k = record { out = ground (arith, h, outcome) }
  where
    outcome :
        (((is_active_admin u ≡ false) ⊎ (2 ≤ count is_active_admin db.users))
          ⊎ ((role ≡ Role.admin) × (status ≡ UserStatus.active)))
        → HasAdmin ((next db).1)
    outcome may = (k may).out

-- The write, or none, in the end of the transaction.
abbrev pub finish : Bool → ℕ → (User → User) → Bool → Action Bool
finish unchanged target f changed =
    (if unchanged then pure tt else Users.update_admin target f) >>= λ _. pure changed

finish-HasAdmin :
    (unchanged : Bool) (u : User) (f : User → User) (changed : Bool) (db : Db)
    → find? (has_id u.id) db.users ≡ some u
    → ((v : User) → (f v).id ≡ v.id)
    → Permitted u f db
    → HasAdmin db
    → Leads HasAdmin db (finish unchanged u.id f changed)
finish-HasAdmin true u f changed db found k may h = record { out = h }
finish-HasAdmin false u f changed db found k may h = record {
  out =
      then_pure-outcome HasAdmin (Users.update_admin u.id f) changed db
        (update_admin-HasAdmin u f db found k may h);
}

-- The last step of the transaction, from the row that was read and the values to write.
save-HasAdmin :
    (ps : Parsers) (now : ℕ) (input : UpdateInput) (u : User) (email : Text × Text)
    (nickname : Text) (website : Option Text) (status : UserStatus) (db : Db)
    → find? (has_id u.id) db.users ≡ some u
    → HasAdmin db
    → Leads HasAdmin db (save ps now u.id input u email nickname website status)
save-HasAdmin ps now input u email nickname website status db found h =
    guard_demotion-Permitted u role status {next = finish unchanged u.id row changed} db h λ may.
      finish-HasAdmin unchanged u row changed db found (λ _. refl)
        (elim may [ inl gone ↦ inl gone | inr rs ↦ inr (λ v. ground (arith, rs)) ]) h
  where
    role : Role
    role = or_current input.role u.role

    row : User → User
    row =
        written email.0 email.1 nickname website role status
          (next_verified u input.email_verified now)

    unchanged : Bool
    unchanged = is_unchanged input u email.0 email.1 nickname website role status

    changed : Bool
    changed = not (role == u.role) || not (status == u.status)

update_row-HasAdmin :
    (ps : Parsers) (now : ℕ) (input : UpdateInput) (u : User) (db : Db)
    → find? (has_id u.id) db.users ≡ some u
    → HasAdmin db
    → Leads HasAdmin db (update_row ps now u.id input u)
update_row-HasAdmin ps now input u db found h =
    Leads-lift (next_email ps u input.email) h λ email _.
      Leads-lift (next_nickname u input.nickname) h λ nickname _.
        Leads-lift (next_website ps u input.website_url) h λ website _.
          Leads-lift (next_status u input.status) h
            λ status _. save-HasAdmin ps now input u email nickname website status db found h

-- The transaction of an update.
update_in_tx-HasAdmin :
    (ps : Parsers) (now target : ℕ) (input : UpdateInput) (db : Db)
    → HasAdmin db
    → Leads HasAdmin db (update_in_tx ps now target input)
unfolding update_in_tx
update_in_tx-HasAdmin ps now target input db h =
    found-Leads target {k = update_row ps now target input} db h λ u at found.
      subst (λ n. Leads HasAdmin db (update_row ps now n input u)) at
        (update_row-HasAdmin ps now input u db
          (subst (λ n. find? (has_id n) db.users ≡ some u) (sym at) found) h)

-- From a database in which the identifiers of the users are unique and one of them is an active
-- administrator, an update of a user's fields, whatever it asks for, and however it ends, leads
-- to such a database again.
pub admin_update_user-HasAdmin :
    (invalidate : ℕ → Result (Unit {0})) (ps : Parsers) (now target : ℕ) (input : UpdateInput)
    (db : Db)
    → HasAdmin db
    → HasAdmin ((admin_update_user invalidate ps now target input db).1)
unfolding admin_update_user
admin_update_user-HasAdmin invalidate ps now target input db h = after kept db h
  where
    body : Action Bool
    body = update_in_tx ps now target input

    kept : Keeps HasAdmin (admin_update_user invalidate ps now target input)
    kept =
        Yields-bind
          (Yields-if (is_some input.role || is_some input.status)
            (λ _.
              run_admin_mutation-HasAdmin (λ _. body)
                λ db h. (update_in_tx-HasAdmin ps now target input db h).out)
            (λ _. Keeps-outcome (run_in_tx body) λ db h.
              run_in_tx-outcome HasAdmin {A = Bool} body db h
                (update_in_tx-HasAdmin ps now target input db h).out))
          λ changed _.
            Yields-if changed (λ _. Yields-lift (invalidate target) (λ _ _. tt))
              (λ _. Yields-pure tt tt)
