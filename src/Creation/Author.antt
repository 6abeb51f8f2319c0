-- ===== src/Creation/Author.antt =====
-- Who writes: the live check of a credential or of an anonymous author before the captcha, and
-- `resolveAndSyncActor` inside the transaction (create.go).
use furtalk.Base.{ℕ, Bool, false, not, ◌&&◌, Option, none, some, if◌then◌else◌}
use furtalk.Base.Equality.{◌==◌, nat_eq, text_eq}
use furtalk.Domain.{
  Role, UserStatus, CommentMode, Error, role_eq, user_status_eq, comment_mode_eq, is_not_found,
  is_conflict, forbidden, invalid_credentials, authorization_required, credential_stale, validation,
}
use furtalk.Domain.Entities.{CommentPolicy, Principal, Text, User}
use furtalk.Store.{Action, Result, ok, err, pure, raise, lift, raise_if, catch, ◌>>=◌, ◌>>◌}
use furtalk.Store.Users
use furtalk.Text.{Parsers, trim_space, is_blank, website_or_invalid}
use furtalk.Creation.Validation.{widget_role_allowed}

-- `WebsiteOperation`: leave, clear or overwrite.
pub record WebsiteOperation : Type 0 where
  pub set : Bool
  pub value : Option Text

-- A verified widget token; its expiry was checked when it was verified.
pub record Credential : Type 0 where
  pub user_id : ℕ
  pub site_id : ℕ
  pub epoch : ℕ

abbrev pub accept_url : Result Text → Result (Option Text)
accept_url (ok url) = ok (some url)
accept_url (err e) = err e

unfoldable pub apply_website_operation :
    Parsers → Option Text → WebsiteOperation → Result (Option Text)
apply_website_operation ps current op = if not op.set then ok current else overwrite op.value
  where
    overwrite : Option Text → Result (Option Text)
    overwrite none = ok none
    overwrite (some raw) =
        if is_blank raw then ok none else accept_url (website_or_invalid ps (trim_space raw))

-- What the checks before the transaction find out: the author named by a credential, whether an
-- administrator writes, and the author's website, which the detectors see.
pub record Actor : Type 0 where
  pub credential_actor : Option ℕ
  pub is_admin : Bool
  pub website : Option Text

-- A principal that may write through the widget in the given mode.
abbrev pub may_write : CommentMode → UserStatus → Role → Bool
may_write mode status role = status == UserStatus.active && widget_role_allowed mode role

-- Any error of `Resolve` is an invalid credential.
abbrev pub principal_of : Result Principal → Action Principal
principal_of (ok p) = pure p
principal_of (err e) = raise invalid_credentials

unfoldable pub actor_of_credential :
    (ℕ → Result Principal) → CommentPolicy → ℕ → Text → Credential → Action Actor
actor_of_credential resolve pol site_id normalized cred = do
  raise_if (not (cred.epoch == pol.epoch)) credential_stale
  raise_if (not (cred.site_id == site_id)) forbidden
  p ← principal_of (resolve cred.user_id)
  raise_if (not (may_write pol.mode p.status p.role)) invalid_credentials
  subject ← Users.find_by_id cred.user_id
  raise_if (not (subject.email_normalized == normalized)) invalid_credentials
  pure (record {
    credential_actor = some cred.user_id;
    is_admin = p.role == Role.admin;
    website = subject.website_url;
  })

abbrev pub anonymous_actor : Option Text → Actor
anonymous_actor website = record { credential_actor = none; is_admin = false; website = website }

-- An address that is known must be an active plain user's; an unknown one needs open registration.
abbrev pub known_author : User → Action Actor
known_author u = do
  raise_if (u.role == Role.admin) authorization_required
  raise_if (not (u.status == UserStatus.active)) invalid_credentials
  pure (anonymous_actor u.website_url)

abbrev pub unknown_author : CommentPolicy → Error → Action Actor
unknown_author pol e =
    if not (is_not_found e)
    then raise e
    else raise_if (not pol.public_registration) invalid_credentials >> pure (anonymous_actor none)

abbrev pub optional_user : Action User → Action (Result User)
optional_user m = catch (m >>= λ u. pure (ok u)) (λ e. pure (err e))

abbrev pub author_or : CommentPolicy → Result User → Action Actor
author_or pol (ok u) = known_author u
author_or pol (err e) = unknown_author pol e

unfoldable pub actor_of_address : CommentPolicy → Text → Action Actor
actor_of_address pol normalized = do
  raise_if (not (pol.mode == CommentMode.anonymous)) invalid_credentials
  found ← optional_user (Users.find_by_email_normalized normalized)
  author_or pol found

unfoldable pub actor_of :
    (ℕ → Result Principal) → CommentPolicy → ℕ → Text → Option Credential → Action Actor
actor_of resolve pol site_id normalized none = actor_of_address pol normalized
actor_of resolve pol site_id normalized (some cred) =
    actor_of_credential resolve pol site_id normalized cred

-- The user that an unknown address gets.
abbrev pub new_user : Text → Text → Text → User
new_user original normalized nickname = record {
  id = 0;
  email = original;
  email_normalized = normalized;
  nickname = nickname;
  website_url = none;
  role = Role.user;
  status = UserStatus.active;
  session_version = 0;
  email_verified_at = none;
  deleted_at = none;
  status_before_delete = none;
}

-- `CreateUser` of the identity service; the policy on e-mail domains is an argument.
abbrev pub create_user : (Text → Result (Unit {0})) → User → Action User
create_user domain_allowed u = do
  raise_if (is_blank u.email_normalized) validation
  lift (domain_allowed u.email_normalized)
  Users.create u

module _ (ps : Parsers) (domain_allowed : Text → Result (Unit {0})) where
  -- A creation that loses a race finds the other's user.
  abbrev pub created_or_found : Text → Text → Text → Action User
  created_or_found original normalized nickname =
      catch (create_user domain_allowed (new_user original normalized nickname))
        (λ e. if is_conflict e then Users.find_by_email_normalized normalized else raise e)

  abbrev pub author_by_address : Text → Text → Text → Action User
  author_by_address original normalized nickname = do
    u ←
        catch (Users.find_by_email_normalized normalized)
          (λ e. if is_not_found e then created_or_found original normalized nickname else raise e)
    raise_if (u.role == Role.admin) authorization_required
    raise_if (not (u.status == UserStatus.active)) invalid_credentials
    pure u

  abbrev pub author_by_credential : CommentPolicy → Text → ℕ → Action User
  author_by_credential pol normalized id = do
    u ← Users.find_by_id id
    raise_if (not (u.email_normalized == normalized)) invalid_credentials
    raise_if (not (may_write pol.mode u.status u.role)) invalid_credentials
    pure u

  abbrev pub author_in_tx : CommentPolicy → Text → Text → Text → Option ℕ → Action User
  author_in_tx pol normalized original nickname none =
      author_by_address original normalized nickname
  author_in_tx pol normalized original nickname (some id) = author_by_credential pol normalized id

  unfoldable pub resolve_and_sync_actor :
      CommentPolicy → Text → Text → Text → WebsiteOperation → Option ℕ → Action ℕ
  resolve_and_sync_actor pol normalized original nickname op credential_actor = do
    u ← author_in_tx pol normalized original nickname credential_actor
    website ← lift (apply_website_operation ps u.website_url op)
    Users.update_profile u.id nickname website
    pure u.id
