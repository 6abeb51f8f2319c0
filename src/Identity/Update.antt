-- ===== src/Identity/Update.antt =====
-- `AdminUpdateUser` of internal/service/identity/admin.go. The profile that it reads back and
-- returns is left out. A role or a status that is not one of the declared ones does not exist here,
-- except `deleted`, which the command refuses.
use furtalk.Base.{
  ℕ, ltb, leb, Bool, true, false, not, ◌&&◌, ◌||◌, Option, none, some, is_some, [], if◌then◌else◌,
}
use furtalk.Base.Equality.{◌==◌, nat_eq, text_eq}
use furtalk.Domain.{Role, UserStatus, role_eq, user_status_eq, last_admin, validation}
use furtalk.Domain.Entities.{Text, User}
use furtalk.Store.{Action, Result, ok, err, pure, lift, raise_if, run_in_tx, ◌>>=◌, ◌>>◌}
use furtalk.Store.Users
use furtalk.Text.{Parsers, trim_space, byte_length, normalize_email, website_or_invalid}
use furtalk.Identity.Commands.{run_admin_mutation}

-- `OptionalNullableString`
pub record WebsiteField : Type 0 where
  pub set : Bool
  pub value : Option Text

pub record UpdateInput : Type 0 where
  pub email : Option Text
  pub nickname : Option Text
  pub website_url : WebsiteField
  pub role : Option Role
  pub status : Option UserStatus
  pub email_verified : Option Bool

abbrev pub or_current {ℓ} : {A : Type ℓ} → Option A → A → A
or_current none a = a
or_current (some b) a = b

-- `stringPtrEqual`
abbrev pub string_ptr_equal : Option Text → Option Text → Bool
string_ptr_equal none none = true
string_ptr_equal (some a) (some b) = a == b
string_ptr_equal _ _ = false

module _ (ps : Parsers) where
  -- The e-mail and its normal form.
  abbrev pub next_email : User → Option Text → Result (Text × Text)
  next_email u none = ok (u.email, u.email_normalized)
  next_email u (some raw) = normalize_email ps raw

  abbrev pub next_website : User → WebsiteField → Result (Option Text)
  next_website u f = if not f.set then ok u.website_url else elim f.value [
    | none ↦ ok none
    | some raw ↦ elim (website_or_invalid ps raw) [ ok url ↦ ok (some url) | err e ↦ err e ]
  ]

abbrev pub next_nickname : User → Option Text → Result Text
next_nickname u none = ok u.nickname
next_nickname u (some raw) =
    let nickname = trim_space raw in
    if nickname == [] || ltb 100 (byte_length nickname) then err validation else ok nickname

abbrev pub next_status : User → Option UserStatus → Result UserStatus
next_status u none = ok u.status
next_status u (some UserStatus.deleted) = err validation
next_status u (some s) = ok s

abbrev pub next_verified : User → Option Bool → ℕ → Option ℕ
next_verified u none now = u.email_verified_at
next_verified u (some false) now = none
next_verified u (some true) now = elim u.email_verified_at [ none ↦ some now | some at ↦ some at ]

-- The last active administrator stays one.
abbrev pub demotes : User → Role → UserStatus → Bool
demotes u role status =
    u.role == Role.admin
    && u.status == UserStatus.active
    && (not (role == Role.admin) || not (status == UserStatus.active))

abbrev pub guard_demotion : User → Role → UserStatus → Action (Unit {0})
guard_demotion u role status =
    if demotes u role status
    then (do
      n ← Users.count_by_role_and_status Role.admin UserStatus.active
      raise_if (leb n 1) last_admin)
    else pure tt

-- The row that the command writes.
abbrev pub written : Text → Text → Text → Option Text → Role → UserStatus → Option ℕ → User → User
written email normalized nickname website role status verified row = record row {
  email = email;
  email_normalized = normalized;
  nickname = nickname;
  website_url = website;
  role = role;
  status = status;
  email_verified_at = verified;
}

-- No field differs from the row that was read: then nothing is written. A given `email_verified`
-- is always a field.
abbrev pub is_unchanged :
    UpdateInput → User → Text → Text → Text → Option Text → Role → UserStatus → Bool
is_unchanged input u email normalized nickname website role status =
    email == u.email
    && normalized == u.email_normalized
    && nickname == u.nickname
    && string_ptr_equal website u.website_url
    && role == u.role
    && status == u.status
    && not (is_some input.email_verified)

-- The body of the transaction, from the row that was read; it returns whether the role or the
-- status changes.
abbrev pub save :
    Parsers
    → ℕ
    → ℕ
    → UpdateInput
    → User
    → Text × Text
    → Text
    → Option Text
    → UserStatus
    → Action Bool
save ps now target input u email nickname website status = do
  let role = or_current input.role u.role
  guard_demotion u role status
  if is_unchanged input u email.0 email.1 nickname website role status
      then pure tt
      else Users.update_admin target (
          written email.0 email.1 nickname website role status
            (next_verified u input.email_verified now))
  pure (not (role == u.role) || not (status == u.status))

abbrev pub update_row : Parsers → ℕ → ℕ → UpdateInput → User → Action Bool
update_row ps now target input u = do
  email ← lift (next_email ps u input.email)
  nickname ← lift (next_nickname u input.nickname)
  website ← lift (next_website ps u input.website_url)
  status ← lift (next_status u input.status)
  save ps now target input u email nickname website status

unfoldable pub update_in_tx : Parsers → ℕ → ℕ → UpdateInput → Action Bool
update_in_tx ps now target input = Users.find_by_id target >>= update_row ps now target input

-- Only a change of role or status takes the transaction that locks the administrators.
unfoldable pub admin_update_user :
    (ℕ → Result (Unit {0})) → Parsers → ℕ → ℕ → UpdateInput → Action (Unit {0})
unfolding update_in_tx
admin_update_user invalidate ps now target input = do
  changed ←
      (if is_some input.role || is_some input.status
        then run_admin_mutation (λ _. update_in_tx ps now target input)
        else run_in_tx (update_in_tx ps now target input))
  if changed then lift (invalidate target) else pure tt
