-- ===== src/Ratelimit/Sweep.antt =====
-- A sweep makes no difference to the subjects whose buckets it takes away.
use furtalk.Base.{
  ℕ, suc, ◌-◌, ◌*◌, ◌≤◌, ◌≡◌, refl, sym, ap, ◌∙◌, Bool, true, false, not, none, some, [], ◌∷◌,
  length, filter, count, ltb, arith, length-filter-le,
}
use furtalk.Base.Equality.{◌==◌, nat_eq, text_eq}
use furtalk.Domain.Entities.{Text}
use furtalk.Ratelimit.{
  Bucket, Buckets, Config, full, lookup, refill, spend, bucket_for, allow_key, sweep, idle_timeout,
}
use native.Mathlib.Nat.{mul-le-mul_left}

-- A subject has one bucket at most: the buckets are a map.
abbrev pub UniqueKeys : Buckets → Type 0
UniqueKeys bs = (k : Text) → count (λ kb. kb.0 == k) bs ≤ 1

lookup-filter :
    (keeps : Bucket → Bool) (key : Text) (bs : Buckets) (b : Bucket)
    → lookup key bs ≡ some b
    → keeps b ≡ true
    → lookup key (filter (λ kb. keeps kb.1) bs) ≡ some b
lookup-filter keeps key [] b e k = absurd (ground arith)
lookup-filter keeps key ((x, old) ∷ bs) b e k = ground (arith, e, k, lookup-filter keeps key bs b)

lookup-absent :
    (keeps : Bucket → Bool) (key : Text) (bs : Buckets)
    → count (λ kb. kb.0 == key) bs ≤ 0
    → lookup key (filter (λ kb. keeps kb.1) bs) ≡ none
lookup-absent keeps key [] h = refl
lookup-absent keeps key ((x, old) ∷ bs) h = ground (arith, h, lookup-absent keeps key bs)

lookup-dropped :
    (keeps : Bucket → Bool) (key : Text) (bs : Buckets) (b : Bucket)
    → count (λ kb. kb.0 == key) bs ≤ 1
    → lookup key bs ≡ some b
    → keeps b ≡ false
    → (lookup key (filter (λ kb. keeps kb.1) bs) ≡ none)
      × (suc (length (filter (λ kb. keeps kb.1) bs)) ≤ length bs)
lookup-dropped keeps key [] b u e k = absurd (ground arith)
lookup-dropped keeps key ((x, old) ∷ bs) b u e k = ground (
  arith,
  e,
  k,
  u,
  lookup-dropped keeps key bs b,
  lookup-absent keeps key bs,
  length-filter-le (λ kb. keeps kb.1) bs,
)

module _ (cfg : Config) where
  spend-answer :
      (n : ℕ) (b b' : Bucket) → b.tokens ≡ b'.tokens → (spend cfg n b).0 ≡ (spend cfg n b').0
  unfolding spend
  spend-answer n b b' e = ground (arith, e)

  -- A bucket that was idle for long is full again.
  refill-full :
      (now later : ℕ) (b : Bucket)
      → full cfg ≤ cfg.gain * idle_timeout
      → ltb idle_timeout (now - b.last) ≡ true
      → now ≤ later
      → (refill cfg later b).tokens ≡ full cfg
  unfolding refill
  refill-full now later b rate stale order =
      ground (arith, rate, stale, order, mul-le-mul_left cfg.gain longer)
    where
      longer : idle_timeout ≤ later - b.last
      longer = ground (arith, stale, order)

  fresh-full :
      (later : ℕ)
      → (refill cfg later (record { tokens = full cfg; last = later })).tokens ≡ full cfg
  unfolding refill
  fresh-full later = ground arith

  -- The answer for a subject that has a bucket, and for one that gets a new one.
  answer-known :
      (later n : ℕ) (key : Text) (bs : Buckets) (b : Bucket)
      → lookup key bs ≡ some b
      → (allow_key cfg later n key bs).0 ≡ (spend cfg n (refill cfg later b)).0
  unfolding allow_key bucket_for
  answer-known later n key bs b e = ground (arith, e)

  answer-new :
      (later n : ℕ) (key : Text) (bs : Buckets)
      → lookup key bs ≡ none
      → suc (length bs) ≤ cfg.capacity
      → (allow_key cfg later n key bs).0
        ≡ (spend cfg n (refill cfg later (record { tokens = full cfg; last = later }))).0
  unfolding allow_key bucket_for
  answer-new later n key bs e room = ground (arith, e, room)

-- If the burst is regained within the idle timeout, if no subject has two buckets and the capacity
-- is kept, then a subject that has a bucket gets the same answer to its next request with a sweep
-- before it as without one, whether or not the sweep took its bucket.
pub sweep_unobserved :
    (cfg : Config) (now later n : ℕ) (key : Text) (bs : Buckets) (b : Bucket)
    → full cfg ≤ cfg.gain * idle_timeout
    → UniqueKeys bs
    → length bs ≤ cfg.capacity
    → now ≤ later
    → lookup key bs ≡ some b
    → (allow_key cfg later n key (sweep now bs)).0 ≡ (allow_key cfg later n key bs).0
unfolding sweep
sweep_unobserved cfg now later n key bs b rate unique room order e =
    by_age (ltb idle_timeout (now - b.last)) refl
  where
    keeps : Bucket → Bool
    keeps c = not (ltb idle_timeout (now - c.last))

    by_age :
        (stale : Bool)
        → ltb idle_timeout (now - b.last) ≡ stale
        → (allow_key cfg later n key (filter (λ kb. keeps kb.1) bs)).0
          ≡ (allow_key cfg later n key bs).0
    by_age false q =
        answer-known cfg later n key _ b (lookup-filter keeps key bs b e (ap not q))
        ∙ sym (answer-known cfg later n key bs b e)
    by_age true q =
        let gone = lookup-dropped keeps key bs b (unique key) e (ap not q) in
        answer-new cfg later n key _ gone.0 (omega (arith, gone.1, room))
        ∙ spend-answer cfg n _ (refill cfg later b)
            (fresh-full cfg later ∙ sym (refill-full cfg now later b rate q order))
        ∙ sym (answer-known cfg later n key bs b e)
