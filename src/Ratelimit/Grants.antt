-- ===== src/Ratelimit/Grants.antt =====
-- How many tokens a subject can get in a stretch of time.
use furtalk.Base.{
  ℕ, ◌+◌, ◌-◌, ◌*◌, ◌≤◌, ◌≡◌, refl, sym, subst, ap, ◌∙◌, Bool, true, false, Option, none, some,
  List, [], ◌∷◌, length, leb, if◌then◌else◌, arith, Bool-cases, inl, inr,
}
use furtalk.Base.Equality.{◌==◌, nat_eq, text_eq}
use furtalk.Domain.Entities.{Text}
use furtalk.Ratelimit.{
  Bucket, Buckets, Config, full, lookup, insert, refill, spend, bucket_for, served, allow_key,
}
use native.Mathlib.Nat.{mul-add, mul-zero, mul-le-mul_left}

-- A request: when, by whom and for how many tokens.
pub record Request : Type 0 where
  pub at : ℕ
  pub key : Text
  pub n : ℕ

-- The requests come in the order of the clock, not before `t`.
abbrev pub Ordered : ℕ → List Request → Type 0
Ordered t [] = Unit {0}
Ordered t (r ∷ rs) = (t ≤ r.at) × Ordered r.at rs

abbrev pub end_of : ℕ → List Request → ℕ
end_of t [] = t
end_of t (r ∷ rs) = end_of r.at rs

end_of-le : (t : ℕ) (rs : List Request) → Ordered t rs → t ≤ end_of t rs
end_of-le t [] h = omega arith
end_of-le t (r ∷ rs) h = omega (arith, h.0, end_of-le r.at rs h.1)

-- The units that a run of requests grants to a subject.
abbrev pub granted_now : Config → Text → Request → Bool → ℕ
granted_now cfg key r ok = if r.key == key then (if ok then r.n * cfg.per_token else 0) else 0

abbrev pub granted : Config → Text → List Request → Buckets → ℕ
granted cfg key [] bs = 0
granted cfg key (r ∷ rs) bs =
    granted_now cfg key r (allow_key cfg r.at r.n r.key bs).0
    + granted cfg key rs (allow_key cfg r.at r.n r.key bs).1

module _ (cfg : Config) (key : Text) where
  -- What a subject can still get by time `t`: a full bucket if it has none, else what is in it and
  -- what it gains.
  abbrev pub potential_of : ℕ → Option Bucket → ℕ
  potential_of t none = full cfg
  potential_of t (some b) = b.tokens + cfg.gain * (t - b.last)

  abbrev pub potential : ℕ → Buckets → ℕ
  potential t bs = potential_of t (lookup key bs)

  -- Waiting gains no more than the rate.
  wait :
      (t u : ℕ) (o : Option Bucket)
      → t ≤ u
      → potential_of u o ≤ potential_of t o + cfg.gain * (u - t)
  wait t u none h = omega arith
  wait t u (some b) h =
      omega (arith, mul-le-mul_left cfg.gain later, mul-add cfg.gain (t - b.last) (u - t))
    where
      later : u - b.last ≤ (t - b.last) + (u - t)
      later = omega (arith, h)

  -- A request pays for what it is granted.
  pay :
      (now n : ℕ) (b : Bucket)
      → potential_of now (some (spend cfg n (refill cfg now b)).1)
          + (if (spend cfg n (refill cfg now b)).0 then n * cfg.per_token else 0)
        ≤ potential_of now (some b)
  unfolding spend refill
  pay now n b = ground (arith, nothing)
    where
      nothing : cfg.gain * (now - now) ≡ 0
      nothing = ap (λ d. cfg.gain * d) (omega arith) ∙ mul-zero cfg.gain

  -- What a write leaves of the other keys, and of its own.
  lookup-insert : (b : Bucket) (bs : Buckets) → lookup key (insert key b bs) ≡ some b
  lookup-insert b [] = ground (arith, (text_eq.same_iff key key).1 refl)
  lookup-insert b ((k, old) ∷ bs) = ground (arith, lookup-insert b bs)

  lookup-insert-other :
      (b : Bucket) (k : Text) (bs : Buckets)
      → (k == key) ≡ false
      → lookup key (insert k b bs) ≡ lookup key bs
  lookup-insert-other b k [] e = ground (arith, e)
  lookup-insert-other b k ((k', old) ∷ bs) e = elim (Bool-cases (k' == k)) [
    | inl q ↦
        ground (arith, q, subst (λ z. (z == key) ≡ false) (sym ((text_eq.same_iff k' k).0 q)) e)
    | inr q ↦ ground (arith, q, lookup-insert-other b k bs e)
  ]

  -- The units that an answer grants.
  abbrev pub paid : Bool → ℕ → ℕ
  paid ok n = if ok then n * cfg.per_token else 0

  -- A request of the subject, served from its bucket.
  own :
      (now n : ℕ) (bs : Buckets) (b : Bucket)
      → potential now (served cfg now n key bs (some b)).1
          + paid (served cfg now n key bs (some b)).0 n
        ≤ potential_of now (some b)
  own now n bs b = omega (
    arith,
    pay now n b,
    ap (potential_of now) (lookup-insert (spend cfg n (refill cfg now b)).1 bs),
  )

  own-step :
      (now n : ℕ) (bs : Buckets)
      → potential now (allow_key cfg now n key bs).1 + paid (allow_key cfg now n key bs).0 n
        ≤ potential now bs
  unfolding allow_key bucket_for
  own-step now n bs = by_lookup (lookup key bs) refl
    where
      fresh : Bucket
      fresh = record { tokens = full cfg; last = now }

      nothing : cfg.gain * (now - now) ≡ 0
      nothing = ap (λ d. cfg.gain * d) (omega arith) ∙ mul-zero cfg.gain

      Pays : Option Bucket → Option Bucket → Type 0
      Pays o o' =
          potential now (served cfg now n key bs o).1 + paid (served cfg now n key bs o).0 n
          ≤ potential_of now o'

      refused : (o' : Option Bucket) → lookup key bs ≡ o' → Pays none o'
      refused o' e = omega (arith, ap (potential_of now) e)

      by_lookup :
          (o : Option Bucket)
          → lookup key bs ≡ o
          → Pays
              (elim o [
                | some b ↦ some b
                | none ↦ if leb cfg.capacity (length bs) then none else some fresh
              ])
              (lookup key bs)
      by_lookup (some b) e = omega (arith, own now n bs b, ap (potential_of now) e)
      by_lookup none e = by_room (leb cfg.capacity (length bs))
        where
          by_room : (r : Bool) → Pays (if r then none else some fresh) (lookup key bs)
          by_room true = refused (lookup key bs) refl
          by_room false = omega (arith, own now n bs fresh, nothing, ap (potential_of now) e)

  -- A request of another subject takes nothing.
  other-step :
      (now n : ℕ) (k : Text) (bs : Buckets)
      → (k == key) ≡ false
      → lookup key (allow_key cfg now n k bs).1 ≡ lookup key bs
  unfolding allow_key
  other-step now n k bs q = by_bucket (bucket_for cfg now k bs)
    where
      by_bucket : (o : Option Bucket) → lookup key (served cfg now n k bs o).1 ≡ lookup key bs
      by_bucket none = refl
      by_bucket (some b) = lookup-insert-other (spend cfg n (refill cfg now b)).1 k bs q

  -- One request of any subject: what the subject of interest gets out of it is paid for.
  step :
      (r : Request) (bs : Buckets)
      → potential r.at (allow_key cfg r.at r.n r.key bs).1
          + granted_now cfg key r (allow_key cfg r.at r.n r.key bs).0
        ≤ potential r.at bs
  step r bs = by_key (r.key == key) refl
    where
      by_key :
          (same : Bool)
          → (r.key == key) ≡ same
          → potential r.at (allow_key cfg r.at r.n r.key bs).1
              + (if same then paid (allow_key cfg r.at r.n r.key bs).0 r.n else 0)
            ≤ potential r.at bs
      by_key true q =
          subst
            (λ k.
              potential r.at (allow_key cfg r.at r.n k bs).1
                + paid (allow_key cfg r.at r.n k bs).0 r.n
              ≤ potential r.at bs)
            (sym ((text_eq.same_iff r.key key).0 q)) (own-step r.at r.n bs)
      by_key false q = omega (arith, ap (potential_of r.at) (other-step r.at r.n r.key bs q))

-- However the requests of all subjects are mixed, if they come in the order of the clock, what
-- one subject is granted is at most what it can get at the start (what its bucket holds with what
-- it gained since its last refill, or the burst if it has none) and the rate times the time from
-- the start to the last request.
pub granted-le :
    (cfg : Config) (key : Text) (t : ℕ) (rs : List Request) (bs : Buckets)
    → Ordered t rs
    → granted cfg key rs bs ≤ potential cfg key t bs + cfg.gain * (end_of t rs - t)
granted-le cfg key t [] bs h = omega arith
granted-le cfg key t (r ∷ rs) bs h = omega (
  arith,
  granted-le cfg key r.at rs (allow_key cfg r.at r.n r.key bs).1 h.1,
  step cfg key r bs,
  wait cfg key t r.at (lookup key bs) h.0,
  mul-add cfg.gain (end_of r.at rs - r.at) (r.at - t),
  ap (λ d. cfg.gain * d) stretch,
)
  where
    stretch : (end_of r.at rs - r.at) + (r.at - t) ≡ end_of r.at rs - t
    stretch = omega (arith, h.0, end_of-le r.at rs h.1)
