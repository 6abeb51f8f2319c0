-- ===== src/Domain.antt =====
-- internal/domain: the enumerations and the errors that the layers share, and (Entities) the rows.
-- A mode or an action is a string in the source; `unknown` stands for any other text.
pub mod Entities
use furtalk.Base.{ℕ, ◌≡◌, ◌↔◌, Bool, true, false, arith}
use furtalk.Base.Equality.{Comparable}

pub data Role : Type 0 where
  admin user : Role

pub data UserStatus : Type 0 where
  active disabled deleted : UserStatus

pub data CommentStatus : Type 0 where
  pending published spam deleted : CommentStatus

pub data CommentMode : Type 0 where
  anonymous authenticated unknown : CommentMode

pub data Moderation : Type 0 where
  direct review unknown : Moderation

pub data UserDeleteMode : Type 0 where
  soft hard unknown : UserDeleteMode

pub data PrivacyMode : Type 0 where
  none coarse full unknown : PrivacyMode

-- internal/domain/errors.go. `internal` is an error that wraps none of the sentinels; `resource`
-- is `ResourceError`, which names the row at fault.
pub data Error : Type 0 where
  not_found conflict validation forbidden invalid_credentials confirmation_required : Error
  disabled anonymous_restricted last_admin cache_invalidation : Error
  captcha_required captcha_unavailable captcha_failed : Error
  parent_not_found parent_deleted cross_thread_reply depth_exceeded : Error
  site_inactive thread_closed credential_stale authorization_required unavailable internal : Error
  resource : ℕ → Error → Error

abbrev pub role_beq : Role → Role → Bool
role_beq Role.admin Role.admin = true
role_beq Role.user Role.user = true
role_beq _ _ = false

pub role_beq_iff : (a b : Role) → (role_beq a b ≡ true) ↔ (a ≡ b)
role_beq_iff a b = ground arith

instance abbrev pub role_eq : Comparable Role
role_eq = record { same = role_beq; same_iff = role_beq_iff }

abbrev pub user_status_beq : UserStatus → UserStatus → Bool
user_status_beq UserStatus.active UserStatus.active = true
user_status_beq UserStatus.disabled UserStatus.disabled = true
user_status_beq UserStatus.deleted UserStatus.deleted = true
user_status_beq _ _ = false

pub user_status_beq_iff : (a b : UserStatus) → (user_status_beq a b ≡ true) ↔ (a ≡ b)
user_status_beq_iff a b = ground arith

instance abbrev pub user_status_eq : Comparable UserStatus
user_status_eq = record { same = user_status_beq; same_iff = user_status_beq_iff }

abbrev pub comment_status_beq : CommentStatus → CommentStatus → Bool
comment_status_beq CommentStatus.pending CommentStatus.pending = true
comment_status_beq CommentStatus.published CommentStatus.published = true
comment_status_beq CommentStatus.spam CommentStatus.spam = true
comment_status_beq CommentStatus.deleted CommentStatus.deleted = true
comment_status_beq _ _ = false

pub comment_status_beq_iff : (a b : CommentStatus) → (comment_status_beq a b ≡ true) ↔ (a ≡ b)
comment_status_beq_iff a b = ground arith

instance abbrev pub comment_status_eq : Comparable CommentStatus
comment_status_eq = record { same = comment_status_beq; same_iff = comment_status_beq_iff }

abbrev pub comment_mode_beq : CommentMode → CommentMode → Bool
comment_mode_beq CommentMode.anonymous CommentMode.anonymous = true
comment_mode_beq CommentMode.authenticated CommentMode.authenticated = true
comment_mode_beq CommentMode.unknown CommentMode.unknown = true
comment_mode_beq _ _ = false

pub comment_mode_beq_iff : (a b : CommentMode) → (comment_mode_beq a b ≡ true) ↔ (a ≡ b)
comment_mode_beq_iff a b = ground arith

instance abbrev pub comment_mode_eq : Comparable CommentMode
comment_mode_eq = record { same = comment_mode_beq; same_iff = comment_mode_beq_iff }

abbrev pub moderation_beq : Moderation → Moderation → Bool
moderation_beq Moderation.direct Moderation.direct = true
moderation_beq Moderation.review Moderation.review = true
moderation_beq Moderation.unknown Moderation.unknown = true
moderation_beq _ _ = false

pub moderation_beq_iff : (a b : Moderation) → (moderation_beq a b ≡ true) ↔ (a ≡ b)
moderation_beq_iff a b = ground arith

instance abbrev pub moderation_eq : Comparable Moderation
moderation_eq = record { same = moderation_beq; same_iff = moderation_beq_iff }

abbrev pub user_delete_mode_beq : UserDeleteMode → UserDeleteMode → Bool
user_delete_mode_beq UserDeleteMode.soft UserDeleteMode.soft = true
user_delete_mode_beq UserDeleteMode.hard UserDeleteMode.hard = true
user_delete_mode_beq UserDeleteMode.unknown UserDeleteMode.unknown = true
user_delete_mode_beq _ _ = false

pub user_delete_mode_beq_iff : (a b : UserDeleteMode) → (user_delete_mode_beq a b ≡ true) ↔ (a ≡ b)
user_delete_mode_beq_iff a b = ground arith

instance abbrev pub user_delete_mode_eq : Comparable UserDeleteMode
user_delete_mode_eq = record { same = user_delete_mode_beq; same_iff = user_delete_mode_beq_iff }

abbrev pub privacy_mode_beq : PrivacyMode → PrivacyMode → Bool
privacy_mode_beq PrivacyMode.none PrivacyMode.none = true
privacy_mode_beq PrivacyMode.coarse PrivacyMode.coarse = true
privacy_mode_beq PrivacyMode.full PrivacyMode.full = true
privacy_mode_beq PrivacyMode.unknown PrivacyMode.unknown = true
privacy_mode_beq _ _ = false

pub privacy_mode_beq_iff : (a b : PrivacyMode) → (privacy_mode_beq a b ≡ true) ↔ (a ≡ b)
privacy_mode_beq_iff a b = ground arith

instance abbrev pub privacy_mode_eq : Comparable PrivacyMode
privacy_mode_eq = record { same = privacy_mode_beq; same_iff = privacy_mode_beq_iff }

-- `errors.Is(err, domain.ErrNotFound)`; a resource error unwraps to what it holds.
abbrev pub is_not_found : Error → Bool
is_not_found not_found = true
is_not_found (resource id e) = is_not_found e
is_not_found _ = false

abbrev pub is_conflict : Error → Bool
is_conflict conflict = true
is_conflict (resource id e) = is_conflict e
is_conflict _ = false
