-- ===== src/Authorization/Granted.antt =====
-- What an exchanged code and a probed token vouch for.
use furtalk.Base.{◌≡◌, refl, Bool, true, false, Option, none, some, find?, if◌then◌else◌, arith}
use furtalk.Base.Equality.{◌==◌, contains, text_eq, nat_eq}
use furtalk.Domain.{user_status_eq, comment_mode_eq, invalid_credentials, internal}
use furtalk.Domain.Entities.{CommentPolicy, Site, Text}
use furtalk.Store.{Db, Result, ok, err}
use furtalk.Creation.Author.{Credential}
use furtalk.Text.{is_blank}
use furtalk.Cache.{Item, Memory, fresh, consume_item}
use furtalk.Cache.Namespace.{namespace_consume, released}
use furtalk.Authorization.{
  Codes, Moment, AuthCodeRecord, SessionResult, ProbeResult, auth_codes, decode_record, session_for,
  consume_auth_code, exchange_authorization,
}
use furtalk.Authorization.Once.{code_key}
use furtalk.Authorization.Checks.{IsAdmitted, IsGranted, session_for-Yields, value_at}

module _ (db : Db) where
  -- What a probed credential vouches for.
  pub record Counts (at : Moment) (cred : Credential) (origin : Text) (p : ProbeResult)
      : Type 0 where
    pub site : Site
    pub known : find? (λ s. s.id == cred.site_id) db.sites ≡ some site
    pub listed : contains site.origins origin ≡ true
    pub policy : CommentPolicy
    pub policy_now : at.policy ≡ ok policy
    pub same_epoch : cred.epoch ≡ policy.epoch
    pub user_admitted : IsAdmitted at policy.mode cred.user_id
    pub same_user : p.user_id ≡ cred.user_id
    pub same_site : p.site_id ≡ cred.site_id

-- An exchange that succeeds has found the record of the code in the cache, not expired, and the
-- record was made for this origin; the site is active and lists the origin now; the mode of the
-- policy is the record's, and the record's user is active now with a role that it admits; the token
-- is signed for that user and that site with the epoch of the policy.
pub exchange_authorization-IsGranted :
    (c : Codes) (at : Moment) (raw_code origin : Text) (db : Db) (m : Memory) (s : SessionResult)
    → (exchange_authorization c at raw_code origin db m).0 ≡ ok s
    → (item : Item) × (r : AuthCodeRecord) × (fresh at.cache_now (code_key c raw_code) m
        ≡ some item)
      × (c.decode item.content ≡ some r)
      × IsGranted c at r origin db s
unfolding exchange_authorization consume_auth_code namespace_consume
exchange_authorization-IsGranted c at raw_code origin db m s h =
    go (is_blank raw_code) (fresh at.cache_now (code_key c raw_code) m) refl h
  where
    left : Memory
    left = released auth_codes (c.digest raw_code) m

    found : Result AuthCodeRecord × Memory → Result SessionResult × Memory
    found x = elim x.0 [ err e ↦ (err e, x.1) | ok r ↦ ((session_for c at r origin db).0, x.1) ]

    decoded :
        (item : Item)
        → fresh at.cache_now (code_key c raw_code) m ≡ some item
        → (d : Option AuthCodeRecord) → c.decode item.content ≡ d
        → (found (elim d [ none ↦ err internal | some r ↦ ok r ], left)).0 ≡ ok s
        → (item : Item) × (r : AuthCodeRecord) × (fresh at.cache_now (code_key c raw_code) m
            ≡ some item)
          × (c.decode item.content ≡ some r)
          × IsGranted c at r origin db s
    decoded item e none f g = absurd (ground (arith, g))
    decoded item e (some r) f g =
        (item, r, e, f, value_at db (session_for-Yields db c at r origin) s g)

    go :
        (blank : Bool) (o : Option Item)
        → fresh at.cache_now (code_key c raw_code) m ≡ o
        → (if blank
            then (err invalid_credentials, m)
            else found (decode_record c (consume_item some o left))).0
          ≡ ok s
        → (item : Item) × (r : AuthCodeRecord) × (fresh at.cache_now (code_key c raw_code) m
            ≡ some item)
          × (c.decode item.content ≡ some r)
          × IsGranted c at r origin db s
    go true o e f = absurd (ground (arith, f))
    go false none e f = absurd (ground (arith, f))
    go false (some item) e f = decoded item e (c.decode item.content) refl f
