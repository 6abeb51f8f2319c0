-- ===== src/Authorization/Trip.antt =====
-- A code that was issued is good for a token.
use furtalk.Base.{ℕ, ◌+◌, ◌≤◌, ◌<◌, ◌≡◌, refl, sym, subst, ap, ◌∙◌, false, not, some, arith}
use furtalk.Base.Equality.{text_eq, nat_eq, list_beq_iff}
use furtalk.Base.Assoc.{Distinct}
use furtalk.Domain.{
  UserStatus, user_status_eq, comment_mode_eq, comment_mode_beq_iff, user_status_beq_iff, forbidden,
  validation,
}
use furtalk.Domain.Entities.{CommentPolicy, Text}
use furtalk.Store.{Db, Result, ok, err}
use furtalk.Store.Contract.{Yields, Yields-bind, Yields-raise_if, Yields-lift, Yields-pure}
use furtalk.Text.{is_blank}
use furtalk.Cache.{Memory, Item, Outcome, fresh}
use furtalk.Cache.Namespace.{namespace_set, namespace_consume}
use furtalk.Cache.Stored.{namespace_set-stored}
use furtalk.Creation.Validation.{widget_role_allowed}
use furtalk.Creation.Commands.{validate_site_and_origin}
use furtalk.Authorization.{
  Codes, Moment, AuthCodeRecord, AuthCodeResult, IssueInput, auth_codes, check_issue, issued,
  keep_code, set_auth_code, consume_auth_code, issue_authorization, session_for,
  require_active_popup_principal, exchange_authorization,
}
use furtalk.Authorization.Checks.{Allows, IsAdmitted, At, validate-Yields, value_at}
use furtalk.Authorization.Once.{code_key}

validate-allowed :
    (db : Db) (site_id : ℕ) (origin : Text)
    → Allows db site_id origin
    → validate_site_and_origin site_id origin db ≡ (ok tt, db)
unfolding validate_site_and_origin
validate-allowed db site_id origin a = ground (arith, a.known, a.active, a.listed)

module _ (c : Codes) (at : Moment) (db : Db) (pol : CommentPolicy) (r : AuthCodeRecord) where
  require_active_lem :
      r.credential_mode ≡ pol.mode
      → IsAdmitted at pol.mode r.user_id
      → require_active_popup_principal c at r pol db ≡ (ok tt, db)
  unfolding require_active_popup_principal
  require_active_lem e u = ground (
    arith,
    e,
    u.resolved,
    u.active,
    u.admitted,
    comment_mode_beq_iff r.credential_mode pol.mode,
    user_status_beq_iff u.principal.status UserStatus.active,
  )

  -- Where every check passes, there is a token.
  session_for_lem :
      (origin token : Text)
      → at.policy ≡ ok pol
      → r.origin ≡ origin
      → at.now ≤ r.expires_at
      → Allows db r.site_id origin
      → r.credential_mode ≡ pol.mode
      → IsAdmitted at pol.mode r.user_id
      → c.sign r.user_id r.site_id pol.epoch ≡ ok token
      → session_for c at r origin db
        ≡ (ok (record { token = token; expires_at = at.now + c.lifetime }), db)
  unfolding session_for
  session_for_lem origin token policy_now o t a e u s = ground (
    arith,
    policy_now,
    o,
    t,
    s,
    list_beq_iff r.origin origin,
    validate-allowed db r.site_id origin a,
    require_active_lem e u,
  )

module _ (c : Codes) (at : Moment) (db : Db) (input : IssueInput) where
  check_issue-Yields :
      Yields
        (At db)
        (λ pol. (at.policy ≡ ok pol) × Allows db input.site_id input.origin)
        (check_issue c at input)
  unfolding check_issue
  check_issue-Yields = Yields-bind (Yields-lift at.policy (λ pol e. e)) (λ pol policy_now.
      Yields-bind (Yields-raise_if (not (widget_role_allowed pol.mode input.role)) forbidden)
        (λ _ _. Yields-bind (validate-Yields db input.site_id input.origin) (λ _ allows.
          Yields-bind (Yields-raise_if (is_blank input.request_id) validation)
            (λ _ _. Yields-pure pol (policy_now, allows)))))

  -- What an issue that succeeds has checked and written.
  issue-stored :
      (code : Text) (m m' : Memory) (answer : AuthCodeResult)
      → issue_authorization c at input (some code) db m ≡ (ok answer, m')
      → (pol : CommentPolicy) × (at.policy ≡ ok pol)
        × Allows db input.site_id input.origin
        × (answer.code ≡ code)
        × (namespace_set auth_codes
              (c.digest code)
              (some (c.encode (issued c at input pol)))
              at.cache_now
              c.code_ttl
              m
            ≡ (Outcome.done tt, m'))
  unfolding issue_authorization set_auth_code
  issue-stored code m m' answer h = go (check_issue c at input db).0 refl h
    where
      go :
          (r : Result CommentPolicy)
          → (check_issue c at input db).0 ≡ r
          → (elim r as (λ _. Result AuthCodeResult × Memory) [
            | err e ↦ (err e, m)
            | ok pol ↦ keep_code c at input pol (some code) m
          ])
            ≡ (ok answer, m')
          → (pol : CommentPolicy) × (at.policy ≡ ok pol)
            × Allows db input.site_id input.origin
            × (answer.code ≡ code)
            × (namespace_set auth_codes
                  (c.digest code)
                  (some (c.encode (issued c at input pol)))
                  at.cache_now
                  c.code_ttl
                  m
                ≡ (Outcome.done tt, m'))
      go (err e) f g = absurd (ground (arith, g))
      go (ok pol) f g =
          let checked = value_at db check_issue-Yields pol f in
          (pol, checked.0, checked.1, ground (arith, g), ground (arith, g))

module _ (c : Codes) (at : Moment) (raw_code origin : Text) (db : Db) (m : Memory) where
  -- An exchange of a code that is there.
  exchange-found :
      (item : Item) (r : AuthCodeRecord)
      → is_blank raw_code ≡ false
      → fresh at.cache_now (code_key c raw_code) m ≡ some item
      → c.decode item.content ≡ some r
      → (exchange_authorization c at raw_code origin db m).0 ≡ (session_for c at r origin db).0
  unfolding exchange_authorization consume_auth_code namespace_consume
  exchange-found item r b e d = ground (arith, b, e, d)

-- A code that was issued, into a cache whose keys are distinct, is good for a token of its user and
-- site, at its origin and before its time is over, if the mode of the policy is still the one of the
-- issue and the user is active with a role that it admits. Codes are not blank, and the codec reads
-- what it writes.
pub exchange_authorization-issue_authorization :
    (c : Codes) (issuing exchanging : Moment) (input : IssueInput) (code : Text) (db : Db)
    (m m' : Memory) (answer : AuthCodeResult) (pol now : CommentPolicy) (token : Text)
    → ((r : AuthCodeRecord) → c.decode (c.encode r) ≡ some r)
    → is_blank code ≡ false
    → Distinct m.items
    → issue_authorization c issuing input (some code) db m ≡ (ok answer, m')
    → issuing.policy ≡ ok pol
    → exchanging.policy ≡ ok now
    → pol.mode ≡ now.mode
    → exchanging.now ≤ issuing.now + c.code_ttl
    → exchanging.cache_now < issuing.cache_now + c.code_ttl
    → IsAdmitted exchanging now.mode input.user_id
    → c.sign input.user_id input.site_id now.epoch ≡ ok token
    → (exchange_authorization c exchanging answer.code input.origin db m').0
      ≡ ok (record { token = token; expires_at = exchanging.now + c.lifetime })
exchange_authorization-issue_authorization c issuing exchanging input code db m m' answer pol now
      token reads b d h policy_then policy_now same t u a s =
    go (issue-stored c issuing db input code m m' answer h)
  where
    go :
        ((pol : CommentPolicy) × (issuing.policy ≡ ok pol)
          × Allows db input.site_id input.origin
          × (answer.code ≡ code)
          × (namespace_set auth_codes
                (c.digest code)
                (some (c.encode (issued c issuing input pol)))
                issuing.cache_now
                c.code_ttl
                m
              ≡ (Outcome.done tt, m')))
        → (exchange_authorization c exchanging answer.code input.origin db m').0
          ≡ ok (record { token = token; expires_at = exchanging.now + c.lifetime })
    go (earlier, policy, allows, same_code, stored) =
        subst
          (λ x.
            (exchange_authorization c exchanging x input.origin db m').0
            ≡ ok (record { token = token; expires_at = exchanging.now + c.lifetime }))
          (sym same_code)
          (exchange-found c exchanging code input.origin db m' (entry earlier)
              (issued c issuing input earlier) b
              (ground (
                arith,
                u,
                namespace_set-stored auth_codes (c.digest code) _ issuing.cache_now c.code_ttl m m'
                    d stored,
              ))
              (reads (issued c issuing input earlier))
            ∙ ap (λ x. x.0)
                (session_for_lem c exchanging db now (issued c issuing input earlier) input.origin
                  token policy_now refl t allows mode a s))
      where
        entry : CommentPolicy → Item
        entry p = record {
          content = c.encode (issued c issuing input p);
          expires = issuing.cache_now + c.code_ttl;
        }

        mode : earlier.mode ≡ now.mode
        mode = ground (arith, policy, policy_then, same)
