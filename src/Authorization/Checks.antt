-- ===== src/Authorization/Checks.antt =====
-- What the checks of a session establish, as contracts of the calls that make them.
use furtalk.Base.{
  ℕ, ◌+◌, ◌≡◌, ◌≤◌, refl, subst, ap, true, not, some, find?, ltb, if◌then◌else◌, arith,
}
use furtalk.Base.Equality.{◌==◌, contains, text_eq, nat_eq}
use furtalk.Domain.{
  UserStatus, CommentMode, user_status_eq, comment_mode_eq, comment_mode_beq_iff,
  user_status_beq_iff, invalid_credentials, is_not_found, forbidden, not_found,
}
use furtalk.Base.Equality.{list_beq_iff}
use furtalk.Domain.Entities.{CommentPolicy, Principal, Site, Text}
use furtalk.Store.{Db, Action, Result, ok, err}
use furtalk.Store.Contract.{
  Yields, Yields-bind, Yields-catch, Yields-raise, Yields-raise_if, Yields-lift, Yields-lookup,
  Yields-pure, Yields-guard, value_of,
}
use furtalk.Creation.Validation.{widget_role_allowed}
use furtalk.Creation.Author.{principal_of}
use furtalk.Creation.Commands.{site_get, validate_site_and_origin}
use furtalk.Authorization.{
  Codes, Moment, AuthCodeRecord, SessionResult, require_active_popup_principal,
  forbidden_as_invalid, session_for,
}

-- The site is there, active, and allows the origin.
pub record Allows (db : Db) (site_id : ℕ) (origin : Text) : Type 0 where
  pub site : Site
  pub known : find? (λ s. s.id == site_id) db.sites ≡ some site
  pub active : site.is_active ≡ true
  pub listed : contains site.origins origin ≡ true

-- The user is active now and has a role that the mode admits.
pub record IsAdmitted (at : Moment) (mode : CommentMode) (user_id : ℕ) : Type 0 where
  pub principal : Principal
  pub resolved : at.resolve user_id ≡ ok principal
  pub active : principal.status ≡ UserStatus.active
  pub admitted : widget_role_allowed mode principal.role ≡ true

pub record IsGranted (c : Codes) (at : Moment) (r : AuthCodeRecord) (origin : Text) (db : Db)
    (s : SessionResult) : Type 0 where
  pub same_origin : r.origin ≡ origin
  pub in_time : at.now ≤ r.expires_at
  pub site_allows : Allows db r.site_id origin
  pub policy : CommentPolicy
  pub policy_now : at.policy ≡ ok policy
  pub same_mode : r.credential_mode ≡ policy.mode
  pub user_admitted : IsAdmitted at policy.mode r.user_id
  pub signed : c.sign r.user_id r.site_id policy.epoch ≡ ok s.token

-- At this database.
abbrev pub At : Db → Db → Type 0
At db db' = db' ≡ db

module _ (db : Db) where
  pub site_get-Yields :
      (id : ℕ) → Yields (At db) (λ site. find? (λ s. s.id == id) db.sites ≡ some site) (site_get id)
  site_get-Yields id =
      Yields-lookup (λ d. find? (λ s. s.id == id) d.sites) not_found
        (λ d p site e. subst (λ x. find? (λ s. s.id == id) x.sites ≡ some site) p e)

  pub validate-Yields :
      (id : ℕ) (origin : Text)
      → Yields (At db) (λ _. Allows db id origin) (validate_site_and_origin id origin)
  unfolding validate_site_and_origin
  validate-Yields id origin =
      Yields-bind
        (Yields-catch (site_get-Yields id)
          (λ e. Yields-raise (if is_not_found e then forbidden else e)))
        (λ site known. Yields-bind (Yields-raise_if (not site.is_active) forbidden) (λ _ active.
          Yields-guard (not (contains site.origins origin)) forbidden (λ listed. record {
            site = site;
            known = known;
            active = ground (arith, active);
            listed = ground (arith, listed);
          })))

  pub principal_of-Yields : (r : Result Principal) → Yields (At db) (λ p. r ≡ ok p) (principal_of r)
  principal_of-Yields (ok p) = Yields-pure p refl
  principal_of-Yields (err e) = Yields-raise invalid_credentials

  pub require-Yields :
      (c : Codes) (at : Moment) (r : AuthCodeRecord) (pol : CommentPolicy)
      → Yields
          (At db)
          (λ _. (r.credential_mode ≡ pol.mode) × IsAdmitted at pol.mode r.user_id)
          (require_active_popup_principal c at r pol)
  unfolding require_active_popup_principal
  require-Yields c at r pol =
      Yields-bind (Yields-raise_if (not (r.credential_mode == pol.mode)) invalid_credentials)
        (λ _ mode. Yields-bind (principal_of-Yields (at.resolve r.user_id)) (λ p resolved.
          Yields-bind (Yields-raise_if (not (p.status == UserStatus.active)) invalid_credentials)
            (λ _ active.
              Yields-guard (not (widget_role_allowed r.credential_mode p.role)) invalid_credentials
                (λ admitted.
                  let same : r.credential_mode ≡ pol.mode =
                    ground (arith, mode, comment_mode_beq_iff r.credential_mode pol.mode) in
                  (
                    same,
                    record {
                      principal = p;
                      resolved = resolved;
                      active =
                          ground (arith, active, user_status_beq_iff p.status UserStatus.active);
                      admitted =
                          subst (λ x. widget_role_allowed x p.role ≡ true) same
                            (ground (arith, admitted));
                    },
                  )))))

  pub session_for-Yields :
      (c : Codes) (at : Moment) (r : AuthCodeRecord) (origin : Text)
      → Yields (At db) (IsGranted c at r origin db) (session_for c at r origin)
  unfolding session_for
  session_for-Yields c at r origin =
      Yields-bind (Yields-raise_if (not (r.origin == origin)) invalid_credentials) (λ _ same.
        Yields-bind (Yields-raise_if (ltb r.expires_at at.now) invalid_credentials) (λ _ in_time.
          Yields-bind
            (Yields-catch (validate-Yields r.site_id origin)
              (λ e. Yields-raise (forbidden_as_invalid e)))
            (λ _ allows. Yields-bind (Yields-lift at.policy (λ pol e. e)) (λ pol policy_now.
              Yields-bind
                (Yields-catch (require-Yields c at r pol) (λ e. Yields-raise invalid_credentials))
                (λ _ user.
                  Yields-bind (Yields-lift (c.sign r.user_id r.site_id pol.epoch) (λ t e. e))
                    (λ token signed.
                      Yields-pure (record { token = token; expires_at = at.now + c.lifetime })
                        (record {
                          same_origin = ground (arith, same, list_beq_iff r.origin origin);
                          in_time = ground (arith, in_time);
                          site_allows = allows;
                          policy = pol;
                          policy_now = policy_now;
                          same_mode = user.0;
                          user_admitted = user.1;
                          signed = signed;
                        })))))))

-- The value of a call that leads to one from this database.
pub value_at :
    {T : Type 0} {V : T → Type 0} {call : Action T} (db : Db)
    → Yields (At db) V call
    → (x : T) → (call db).0 ≡ ok x
    → V x
value_at {T} {V} {call} db y x e = value_of y x db (call db).1 refl (ap (λ r. (r, (call db).1)) e)
