-- ===== src/Creation/Impersonation.antt =====
-- Who may be the author of a comment that the widget sends.
use furtalk.Base.{ℕ, ◌≡◌, refl, true, not, Option, none, some, find?, find?-passes, arith}
use furtalk.Base.Equality.{◌==◌, text_eq}
use furtalk.Domain.{
  Role, UserStatus, role_eq, user_status_eq, is_not_found, is_conflict, authorization_required,
  invalid_credentials, validation, not_found,
}
use furtalk.Domain.Entities.{CommentPolicy, Text, User}
use furtalk.Store.{Db, Result, ok}
use furtalk.Store.Contract.{
  Yields, value_of, Yields-bind, Yields-pure, Yields-if, Yields-raise, Yields-lift, Yields-raise_if,
  Yields-catch, Yields-lookup,
}
use furtalk.Store.Users
use furtalk.Text.{Parsers, is_blank}
use furtalk.Views.Reads.{find_by_id-Keeps}
use furtalk.Creation.Author.{author_in_tx, created_or_found, new_user, may_write}

-- Nothing is asked of the database.
abbrev pub Anything : Db → Type 0
Anything db = Unit {0}

abbrev pub HasAddress : Text → User → Type 0
HasAddress normalized u = u.email_normalized ≡ normalized

find_by_email-HasAddress :
    (normalized : Text)
    → Yields Anything (HasAddress normalized) (Users.find_by_email_normalized normalized)
unfolding Users.find_by_email_normalized
find_by_email-HasAddress normalized =
    Yields-lookup (λ db. find? (λ u. u.email_normalized == normalized) db.users) not_found
      λ db _ u e.
        (text_eq.same_iff u.email_normalized normalized).0
          (find?-passes (λ u. u.email_normalized == normalized) db.users u e)

create-HasAddress :
    (u : User) (normalized : Text)
    → u.email_normalized ≡ normalized
    → Yields Anything (HasAddress normalized) (Users.create u)
unfolding Users.create
create-HasAddress u normalized e = record { run = λ db _. ground (arith, e) }

-- The author that the transaction resolves: the address is the requested one; without a credential
-- an active plain user, with one a user whom the mode admits.
abbrev pub IsAdmitted : CommentPolicy → Text → Option ℕ → User → Type 0
IsAdmitted pol normalized none u =
    (u.email_normalized ≡ normalized) × (u.role ≡ Role.user) × (u.status ≡ UserStatus.active)
IsAdmitted pol normalized (some id) u =
    (u.email_normalized ≡ normalized) × (may_write pol.mode u.status u.role ≡ true)

module _ (ps : Parsers) (domain_allowed : Text → Result (Unit {0})) where
  created_or_found-HasAddress :
      (original normalized nickname : Text)
      → Yields Anything
          (HasAddress normalized)
          (created_or_found ps domain_allowed original normalized nickname)
  created_or_found-HasAddress original normalized nickname =
      Yields-catch
        (Yields-bind (Yields-raise_if (is_blank normalized) validation) λ _ _.
          Yields-bind (Yields-lift (domain_allowed normalized) (λ _ _. tt))
            λ _ _. create-HasAddress (new_user original normalized nickname) normalized refl)
        (λ e.
          Yields-if (is_conflict e) (λ _. find_by_email-HasAddress normalized)
            (λ _. Yields-raise e))

  admitted :
      (pol : CommentPolicy) (normalized original nickname : Text) (actor : Option ℕ)
      → Yields Anything
          (IsAdmitted pol normalized actor)
          (author_in_tx ps domain_allowed pol normalized original nickname actor)
  admitted pol normalized original nickname none =
      Yields-bind
        (Yields-catch (find_by_email-HasAddress normalized) (λ e.
          Yields-if (is_not_found e) (λ _. created_or_found-HasAddress original normalized nickname)
            (λ _. Yields-raise e)))
        λ u at.
          Yields-bind (Yields-raise_if (u.role == Role.admin) authorization_required) λ _ plain.
            Yields-bind (Yields-raise_if (not (u.status == UserStatus.active)) invalid_credentials)
              λ _ live. Yields-pure u (at, ground (arith, plain), ground (arith, live))
  admitted pol normalized original nickname (some id) = Yields-bind (find_by_id-Keeps id) λ u _.
      Yields-bind (Yields-raise_if (not (u.email_normalized == normalized)) invalid_credentials)
        λ _ at.
          Yields-bind
            (Yields-raise_if (not (may_write pol.mode u.status u.role)) invalid_credentials)
            λ _ may. Yields-pure u (
              (text_eq.same_iff u.email_normalized normalized).0 (ground (arith, at)),
              ground (arith, may),
            )

  -- The author that the transaction of a comment resolves always has the address of the request.
  -- Without a credential it is an active user who is no administrator, whoever asks; with one it is
  -- an active user whose role the comment mode admits.
  pub author_in_tx-IsAdmitted :
      (pol : CommentPolicy) (normalized original nickname : Text) (actor : Option ℕ) (u : User)
      (db db' : Db)
      → author_in_tx ps domain_allowed pol normalized original nickname actor db ≡ (ok u, db')
      → IsAdmitted pol normalized actor u
  author_in_tx-IsAdmitted pol normalized original nickname actor u db db' e =
      value_of (admitted pol normalized original nickname actor) u db db' tt e
