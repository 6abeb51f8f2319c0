-- ===== src/Ratelimit/Bounds.antt =====
-- No bucket holds more than the burst, and no limiter more buckets than its capacity.
use furtalk.Base.{
  ℕ, suc, ◌-◌, ◌≤◌, ◌≡◌, refl, Bool, true, false, not, Option, none, some, [], ◌∷◌, length, All,
  All-filter, length-filter-le, ltb, leb, if◌then◌else◌, arith, Bool-cases, inl, inr,
}
use furtalk.Base.Equality.{◌==◌, nat_eq, text_eq}
use furtalk.Domain.Entities.{Text}
use furtalk.Ratelimit.{
  Bucket, Buckets, Config, full, lookup, insert, refill, spend, bucket_for, served, allow_key,
  allow_n, sweep, idle_timeout, normalize_subject,
}

module _ (cfg : Config) where
  abbrev pub IsBounded : Text × Bucket → Type 0
  IsBounded kb = (kb.1).tokens ≤ full cfg

  -- Every bucket holds at most the burst, and there are at most as many as the capacity.
  abbrev pub WithinLimits : Buckets → Type 0
  WithinLimits bs = All IsBounded bs × (length bs ≤ cfg.capacity)

  lookup-IsBounded :
      (key : Text) (bs : Buckets) (b : Bucket)
      → All IsBounded bs
      → lookup key bs ≡ some b
      → b.tokens ≤ full cfg
  lookup-IsBounded key [] b h e = absurd (ground arith)
  lookup-IsBounded key ((k, old) ∷ rest) b h e = elim (Bool-cases (k == key)) [
    | inl q ↦ ground (arith, q, e, h.0)
    | inr q ↦ lookup-IsBounded key rest b h.1 (ground (arith, q, e))
  ]

  insert-IsBounded :
      (key : Text) (b : Bucket) (bs : Buckets)
      → b.tokens ≤ full cfg
      → All IsBounded bs
      → All IsBounded (insert key b bs)
  insert-IsBounded key b [] h hs = (h, tt)
  insert-IsBounded key b ((k, old) ∷ rest) h hs =
      ground (arith, h, hs, insert-IsBounded key b rest h hs.1)

  -- Writing a key that is there changes no length; a new one adds one.
  length-insert-present :
      (key : Text) (b old : Bucket) (bs : Buckets)
      → lookup key bs ≡ some old
      → length (insert key b bs) ≡ length bs
  length-insert-present key b old [] e = absurd (ground arith)
  length-insert-present key b old ((k, o) ∷ rest) e =
      ground (arith, e, length-insert-present key b old rest)

  length-insert-le :
      (key : Text) (b : Bucket) (bs : Buckets) → length (insert key b bs) ≤ suc (length bs)
  length-insert-le key b [] = omega arith
  length-insert-le key b ((k, o) ∷ rest) = ground (arith, length-insert-le key b rest)

  refill-IsBounded :
      (now : ℕ) (b : Bucket) → b.tokens ≤ full cfg → (refill cfg now b).tokens ≤ full cfg
  unfolding refill
  refill-IsBounded now b h = ground (arith, h)

  spend-IsBounded :
      (n : ℕ) (b : Bucket) → b.tokens ≤ full cfg → ((spend cfg n b).1).tokens ≤ full cfg
  unfolding spend
  spend-IsBounded n b h = ground (arith, h)

  served-WithinLimits :
      (now n : ℕ) (key : Text) (bs : Buckets) (b : Bucket)
      → b.tokens ≤ full cfg
      → length (insert key (spend cfg n (refill cfg now b)).1 bs) ≤ cfg.capacity
      → All IsBounded bs
      → WithinLimits (served cfg now n key bs (some b)).1
  served-WithinLimits now n key bs b h room hs = (
    insert-IsBounded key (spend cfg n (refill cfg now b)).1 bs
        (spend-IsBounded n (refill cfg now b) (refill-IsBounded now b h)) hs,
    room,
  )

  allow_key-WithinLimits :
      (now n : ℕ) (key : Text) (bs : Buckets)
      → WithinLimits bs
      → WithinLimits (allow_key cfg now n key bs).1
  unfolding allow_key bucket_for
  allow_key-WithinLimits now n key bs h = by_lookup (lookup key bs) refl
    where
      by_lookup :
          (o : Option Bucket)
          → lookup key bs ≡ o
          → WithinLimits
              (served cfg now n key bs (elim o [
                | some b ↦ some b
                | none ↦
                    if leb cfg.capacity (length bs)
                    then none
                    else some (record { tokens = full cfg; last = now })
              ])).1
      by_lookup (some b) e =
          served-WithinLimits now n key bs b (lookup-IsBounded key bs b h.0 e)
            (omega
              (arith, h.1, length-insert-present key (spend cfg n (refill cfg now b)).1 b bs e))
            h.0
      by_lookup none e = by_room (leb cfg.capacity (length bs)) refl
        where
          fresh : Bucket
          fresh = record { tokens = full cfg; last = now }

          by_room :
              (r : Bool)
              → leb cfg.capacity (length bs) ≡ r
              → WithinLimits (served cfg now n key bs (if r then none else some fresh)).1
          by_room true r = h
          by_room false r =
              served-WithinLimits now n key bs fresh (omega arith)
                (ground (arith, r, length-insert-le key (spend cfg n (refill cfg now fresh)).1 bs))
                h.0

  -- If every bucket holds at most the burst and there are at most as many as the capacity, then
  -- so it is after a request, granted or not, and after a sweep.
  pub allow_n-sweep-WithinLimits :
      (now n : ℕ) (key : Text) (bs : Buckets)
      → WithinLimits bs
      → WithinLimits (allow_n cfg now n key bs).1 × WithinLimits (sweep now bs)
  unfolding allow_n sweep
  allow_n-sweep-WithinLimits now n key bs h = (
    by_count (n == 0),
    (All-filter IsBounded stays bs h.0, omega (arith, h.1, length-filter-le stays bs)),
  )
    where
      stays : Text × Bucket → Bool
      stays kb = not (ltb idle_timeout (now - (kb.1).last))

      by_count :
          (r : Bool)
          → WithinLimits
              (if r then (true, bs) else allow_key cfg now n (normalize_subject key) bs).1
      by_count true = h
      by_count false = allow_key-WithinLimits now n (normalize_subject key) bs h
