-- ===== src/Ratelimit.antt =====
-- internal/platform/ratelimit/ratelimit.go: token buckets, one for each subject. The float64
-- arithmetic of the source is done exactly here: tokens are counted in units, `per_token` units to
-- the token, and a bucket gains `gain` units in each nanosecond, so that the rate per second is
-- `gain * 10^9 / per_token`. A call runs with the lock held, as in the source, so calls are a
-- sequence; the clock's reading is an argument.
pub mod Bounds
pub mod Grants
pub mod Sweep
use furtalk.Base.{
  ℕ, suc, ◌+◌, ◌-◌, ◌*◌, min, Bool, true, false, not, ◌&&◌, Option, none, some, List, [], ◌∷◌,
  length, filter, find?, ltb, leb, if◌then◌else◌,
}
use furtalk.Base.Equality.{◌==◌, nat_eq, text_eq}
use furtalk.Domain.Entities.{Text}
use furtalk.Text.{trim_space}

pub record Bucket : Type 0 where
  pub tokens : ℕ
  pub last : ℕ

-- What does not change in a limiter.
pub record Config : Type 0 where
  pub gain : ℕ
  pub per_token : ℕ
  pub burst : ℕ
  pub capacity : ℕ

abbrev pub Buckets : Type 0
Buckets = List (Text × Bucket)

abbrev pub default_bucket_capacity : ℕ
default_bucket_capacity = 10000

-- Ten minutes, in nanoseconds.
abbrev pub idle_timeout : ℕ
idle_timeout = 600000000000

-- `NewWithCapacity`: no capacity means the default.
unfoldable pub new_with_capacity : ℕ → ℕ → ℕ → ℕ → Config
new_with_capacity gain per_token burst capacity = record {
  gain = gain;
  per_token = per_token;
  burst = burst;
  capacity = if capacity == 0 then default_bucket_capacity else capacity;
}

-- The text "unknown".
abbrev pub unknown_subject : Text
unknown_subject = 117 ∷ 110 ∷ 107 ∷ 110 ∷ 111 ∷ 119 ∷ 110 ∷ []

unfoldable pub normalize_subject : Text → Text
normalize_subject subject = if trim_space subject == [] then unknown_subject else trim_space subject

abbrev pub lookup : Text → Buckets → Option Bucket
lookup key [] = none
lookup key ((k, b) ∷ rest) = if k == key then some b else lookup key rest

abbrev pub insert : Text → Bucket → Buckets → Buckets
insert key b [] = (key, b) ∷ []
insert key b ((k, old) ∷ rest) = if k == key then (k, b) ∷ rest else (k, old) ∷ insert key b rest

module _ (cfg : Config) where
  abbrev pub full : ℕ
  full = cfg.burst * cfg.per_token

  -- The refill of a bucket for the time since its last one; a clock that went back changes nothing.
  unfoldable pub refill : ℕ → Bucket → Bucket
  refill now b =
      if ltb b.last now
      then record { tokens = min (b.tokens + cfg.gain * (now - b.last)) full; last = now }
      else b

  -- Takes `n` tokens, if they are there.
  unfoldable pub spend : ℕ → Bucket → Bool × Bucket
  spend n b =
      if ltb b.tokens (n * cfg.per_token)
      then (false, b)
      else (true, record b { tokens = b.tokens - n * cfg.per_token })

  -- The bucket of a subject: the one it has, or a full one if there is room.
  unfoldable pub bucket_for : ℕ → Text → Buckets → Option Bucket
  bucket_for now key bs = elim (lookup key bs) [
    | some b ↦ some b
    | none ↦
        if leb cfg.capacity (length bs) then none else some (record { tokens = full; last = now })
  ]

  -- The answer for a bucket, written back under the key.
  abbrev pub served : ℕ → ℕ → Text → Buckets → Option Bucket → Bool × Buckets
  served now n key bs none = (false, bs)
  served now n key bs (some b) =
      let (granted, b') = spend n (refill now b) in (granted, insert key b' bs)

  -- `AllowN`, after its key is normalized.
  unfoldable pub allow_key : ℕ → ℕ → Text → Buckets → Bool × Buckets
  unfolding refill spend bucket_for
  allow_key now n key bs = served now n key bs (bucket_for now key bs)

  unfoldable pub allow_n : ℕ → ℕ → Text → Buckets → Bool × Buckets
  unfolding allow_key normalize_subject
  allow_n now n key bs = if n == 0 then (true, bs) else allow_key now n (normalize_subject key) bs

-- `sweep`: the buckets that were idle longer than the timeout go.
unfoldable pub sweep : ℕ → Buckets → Buckets
sweep now bs = filter (λ kb. not (ltb idle_timeout (now - (kb.1).last))) bs

-- The registry: a limiter and its buckets for each policy by name. An unknown policy refuses.
pub record Policy : Type 0 where
  pub name : Text
  pub config : Config
  pub buckets : Buckets

abbrev pub Registry : Type 0
Registry = List Policy

-- `NewPolicyRegistry`: definitions without a name, a rate or a burst are skipped.
unfoldable pub new_policy_registry : List (Text × Config) → Registry
new_policy_registry [] = []
new_policy_registry ((name, cfg) ∷ rest) =
    if trim_space name == []
    then new_policy_registry rest
    else if cfg.gain == 0
    then new_policy_registry rest
    else if cfg.burst == 0
    then new_policy_registry rest
    else record { name = name; config = cfg; buckets = [] } ∷ new_policy_registry rest

abbrev pub allow_in : ℕ → ℕ → Text → Text → Registry → Bool × Registry
allow_in now n policy subject [] = (false, [])
allow_in now n policy subject (p ∷ rest) =
    let here = allow_n p.config now n (normalize_subject subject) p.buckets in
    let elsewhere = allow_in now n policy subject rest in
    if p.name == policy
    then (here.0, record p { buckets = here.1 } ∷ rest)
    else (elsewhere.0, p ∷ elsewhere.1)

-- `PolicyRegistry.AllowN`
unfoldable pub registry_allow_n : ℕ → ℕ → Text → Text → Registry → Bool × Registry
registry_allow_n now n policy subject r =
    if n == 0 then (true, r) else allow_in now n policy subject r

-- One tick of the registry's `CleanupLoop`.
unfoldable pub sweep_all : ℕ → Registry → Registry
sweep_all now [] = []
sweep_all now (p ∷ rest) = record p { buckets = sweep now p.buckets } ∷ sweep_all now rest
