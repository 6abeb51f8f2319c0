-- ===== src/Authorization.antt =====
-- internal/service/comment/widget_session.go and authcode.go: how a page's widget comes to a token.
-- The console issues a code for a site and an origin, kept in the cache; the widget exchanges it,
-- once; `probe` says whether a token still counts. Codes come from crypto/rand, digests from SHA-256
-- and tokens from the JWT service, which are arguments; so is the codec of JSON.
pub mod Checks
pub mod Granted
pub mod Once
pub mod Trip
use furtalk.Base.{
  ℕ, ◌+◌, Bool, true, false, not, ◌&&◌, Option, none, some, List, [], ◌∷◌, ltb, find?,
  if◌then◌else◌,
}
use furtalk.Base.Equality.{◌==◌, contains, nat_eq, text_eq}
use furtalk.Domain.{
  Role, UserStatus, CommentMode, Error, user_status_eq, comment_mode_eq, forbidden, validation,
  not_found, invalid_credentials, unavailable, internal,
}
use furtalk.Domain.Entities.{CommentPolicy, Principal, Site, Text}
use furtalk.Store.{
  Db, Action, Result, ok, err, pure, raise, lift, gets, or_raise, raise_if, catch, ◌>>=◌, ◌>>◌,
}
use furtalk.Text.{is_blank}
use furtalk.Cache.{CacheError, Memory, Outcome}
use furtalk.Cache.Namespace.{Namespace, namespace_set, namespace_consume}
use furtalk.Creation.Validation.{widget_role_allowed}
use furtalk.Creation.Author.{Credential, may_write, principal_of}
use furtalk.Creation.Commands.{site_get, validate_site_and_origin}

pub record AuthCodeRecord : Type 0 where
  pub site_id : ℕ
  pub origin : Text
  pub user_id : ℕ
  pub request_id : Text
  pub expires_at : ℕ
  pub credential_mode : CommentMode

pub record IssueInput : Type 0 where
  pub site_id : ℕ
  pub origin : Text
  pub request_id : Text
  pub user_id : ℕ
  pub role : Role

pub record AuthCodeResult : Type 0 where
  pub code : Text
  pub request_id : Text
  pub expires_at : ℕ

pub record SessionResult : Type 0 where
  pub token : Text
  pub expires_at : ℕ

pub record ProbeResult : Type 0 where
  pub user_id : ℕ
  pub site_id : ℕ
  pub role : Role
  pub expires_at : ℕ

pub record AuthorizationContextView : Type 0 where
  pub site_id : ℕ
  pub site_name : Text
  pub origin : Text

-- The packages that the source calls. `sign` takes a user, a site and an epoch.
pub record Codes : Type 0 where
  pub digest : Text → Text
  pub encode : AuthCodeRecord → Text
  pub decode : Text → Option AuthCodeRecord
  pub sign : ℕ → ℕ → ℕ → Result Text
  pub verify : Text → Option (Credential × ℕ)
  pub lifetime : ℕ
  pub code_ttl : ℕ

-- What a call finds when it asks: the policy, the clock (`cache_now` is the reading of the cache)
-- and the principal of a user.
pub record Moment : Type 0 where
  pub policy : Result CommentPolicy
  pub now : ℕ
  pub cache_now : ℕ
  pub resolve : ℕ → Result Principal

-- The namespace "widget_auth_code" with the prefix "authcode:".
abbrev pub auth_codes : Namespace
auth_codes = record {
  name =
      119 ∷ 105 ∷ 100 ∷ 103 ∷ 101 ∷ 116 ∷ 95 ∷ 97 ∷ 117 ∷ 116 ∷ 104 ∷ 95 ∷ 99 ∷ 111 ∷ 100 ∷ 101
      ∷ [];
  prefix = 97 ∷ 117 ∷ 116 ∷ 104 ∷ 99 ∷ 111 ∷ 100 ∷ 101 ∷ 58 ∷ [];
  limit = 1000;
}

abbrev pub set_error : CacheError → Error
set_error CacheError.capacity = unavailable
set_error _ = internal

abbrev pub consume_error : CacheError → Error
consume_error CacheError.not_found = invalid_credentials
consume_error _ = internal

abbrev pub to_option : {T : Type 0} → Result T → Option T
to_option (ok x) = some x
to_option (err e) = none

abbrev pub forbidden_as_invalid : Error → Error
forbidden_as_invalid forbidden = invalid_credentials
forbidden_as_invalid e = e

module _ (c : Codes) where
  unfoldable pub set_auth_code : ℕ → Text → AuthCodeRecord → Memory → Result (Unit {0}) × Memory
  unfolding namespace_set
  set_auth_code cache_now hash r m =
      let (answer, m') = namespace_set auth_codes hash (some (c.encode r)) cache_now c.code_ttl m in
      elim answer [ Outcome.fail e ↦ (err (set_error e), m') | Outcome.done u ↦ (ok tt, m') ]

  abbrev pub decode_record : Outcome Text × Memory → Result AuthCodeRecord × Memory
  decode_record (Outcome.fail e, m) = (err (consume_error e), m)
  decode_record (Outcome.done raw, m) =
      (elim (c.decode raw) [ none ↦ err internal | some r ↦ ok r ], m)

  unfoldable pub consume_auth_code : ℕ → Text → Memory → Result AuthCodeRecord × Memory
  unfolding namespace_consume
  consume_auth_code cache_now hash m =
      decode_record (namespace_consume auth_codes some cache_now hash m)

  module _ (at : Moment) where
    -- What `IssueAuthorization` checks before it makes a code.
    unfoldable pub check_issue : IssueInput → Action CommentPolicy
    check_issue input = do
      pol ← lift at.policy
      raise_if (not (widget_role_allowed pol.mode input.role)) forbidden
      validate_site_and_origin input.site_id input.origin
      raise_if (is_blank input.request_id) validation
      pure pol

    abbrev pub issued : IssueInput → CommentPolicy → AuthCodeRecord
    issued input pol = record {
      site_id = input.site_id;
      origin = input.origin;
      user_id = input.user_id;
      request_id = input.request_id;
      expires_at = at.now + c.code_ttl;
      credential_mode = pol.mode;
    }

    -- The code is kept under its digest.
    abbrev pub keep_code :
        IssueInput → CommentPolicy → Option Text → Memory → Result AuthCodeResult × Memory
    keep_code input pol none m = (err internal, m)
    keep_code input pol (some code) m =
        let (r, m') = set_auth_code at.cache_now (c.digest code) (issued input pol) m in
        elim r [
          | err e ↦ (err e, m')
          | ok u ↦ (
            ok (record {
              code = code;
              request_id = input.request_id;
              expires_at = at.now + c.code_ttl;
            }),
            m',
          )
        ]

    unfoldable pub issue_authorization :
        IssueInput → Option Text → Db → Memory → Result AuthCodeResult × Memory
    unfolding check_issue set_auth_code
    issue_authorization input code db m = elim (check_issue input db).0 [
      | err e ↦ (err e, m)
      | ok pol ↦ keep_code input pol code m
    ]

    -- The user of the code must still be who may use it.
    unfoldable pub require_active_popup_principal :
        AuthCodeRecord → CommentPolicy → Action (Unit {0})
    require_active_popup_principal r pol = do
      raise_if (not (r.credential_mode == pol.mode)) invalid_credentials
      p ← principal_of (at.resolve r.user_id)
      raise_if (not (p.status == UserStatus.active)) invalid_credentials
      raise_if (not (widget_role_allowed r.credential_mode p.role)) invalid_credentials

    -- What follows once the code is consumed.
    unfoldable pub session_for : AuthCodeRecord → Text → Action SessionResult
    unfolding require_active_popup_principal
    session_for r request_origin = do
      raise_if (not (r.origin == request_origin)) invalid_credentials
      raise_if (ltb r.expires_at at.now) invalid_credentials
      catch (validate_site_and_origin r.site_id request_origin)
          (λ e. raise (forbidden_as_invalid e))
      pol ← lift at.policy
      catch (require_active_popup_principal r pol) (λ e. raise invalid_credentials)
      token ← lift (c.sign r.user_id r.site_id pol.epoch)
      pure (record { token = token; expires_at = at.now + c.lifetime })

    unfoldable pub exchange_authorization :
        Text → Text → Db → Memory → Result SessionResult × Memory
    unfolding consume_auth_code session_for
    exchange_authorization raw_code request_origin db m =
        if is_blank raw_code
        then (err invalid_credentials, m)
        else let (r, m') = consume_auth_code at.cache_now (c.digest raw_code) m in
          elim r [ err e ↦ (err e, m') | ok found ↦ ((session_for found request_origin db).0, m') ]

    -- Whether a credential counts now, for a page at the origin; any error means that it does not.
    abbrev pub probe_credential : Text → Credential × ℕ → Action ProbeResult
    probe_credential request_origin (cred, expires_at) = do
      site ← site_get cred.site_id
      raise_if (not (contains site.origins request_origin)) invalid_credentials
      pol ← lift at.policy
      raise_if (not (cred.epoch == pol.epoch)) invalid_credentials
      p ← lift (at.resolve cred.user_id)
      raise_if (not (may_write pol.mode p.status p.role)) invalid_credentials
      pure (record {
        user_id = cred.user_id;
        site_id = cred.site_id;
        role = p.role;
        expires_at = expires_at;
      })

    abbrev pub probe_verified : Text → Db → Option (Credential × ℕ) → Option ProbeResult
    probe_verified request_origin db none = none
    probe_verified request_origin db (some cred) =
        to_option (probe_credential request_origin cred db).0

    -- No result is the one that is not valid.
    unfoldable pub probe : Text → Text → Db → Option ProbeResult
    probe raw request_origin db =
        if is_blank raw then none else probe_verified request_origin db (c.verify raw)

    unfoldable pub authorization_context : ℕ → Role → Text → Action AuthorizationContextView
    authorization_context site_id role origin = do
      pol ← lift at.policy
      raise_if (not (widget_role_allowed pol.mode role)) forbidden
      validate_site_and_origin site_id origin
      site ← site_get site_id
      pure (record { site_id = site_id; site_name = site.name; origin = origin })
