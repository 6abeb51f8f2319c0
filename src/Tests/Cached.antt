-- ===== src/Tests/Cached.antt =====
-- The theorems on the cache and on one-time credentials, applied.
use furtalk.Base.{
  ℕ, ◌≡◌, refl, true, false, not, ◌&&◌, none, some, List, [], ◌∷◌, leb, is_some, if◌then◌else◌,
  arith,
}
use furtalk.Base.Equality.{text_eq}
use furtalk.Base.Assoc.{lookup}
use furtalk.Cache.{Memory, Outcome, capacity, new_memory, set}
use furtalk.Cache.Namespace.{Namespace}
use furtalk.Cache.Calls.{
  Codec, Call, Event, fetch, read, store, load, swap, swap_in, store_in, fetch_in, consume_in,
  run_calls,
}
use furtalk.Cache.Ttl.{spec_calls}
use furtalk.Cache.Shown.{Shows}
use furtalk.Cache.Bounds
use furtalk.Cache.Bounds.{Bounded, live_entries}
use furtalk.Cache.Quota
use furtalk.Cache.Quota.{Agrees}
use furtalk.Cache.Refinement
use furtalk.Cache.Refinement.{end_of}

abbrev small_cache : Memory
small_cache = new_memory 2

abbrev codes : Namespace
codes = record { name = 99 ∷ []; prefix = 58 ∷ []; limit = 1 }

abbrev codec : Codec
codec = record { is_json = λ t. true; string = some }

abbrev after : ℕ → Call → Event
after wait call = record { wait = wait; live = true; call = call }

-- Two writes, one through a namespace, reads before and after the time is over, a value that is
-- loaded, one that cannot be decoded, and a call whose context is cancelled.
abbrev calls : List Event
calls =
    after 0 (store (97 ∷ []) (some (49 ∷ [])) 5)
    ∷ after 1 (store_in codes (98 ∷ []) (some (50 ∷ [])) 9)
    ∷ after 1 (read (97 ∷ []))
    ∷ after 0 (load some (99 ∷ []) 1 4 (Outcome.done (some (52 ∷ []))))
    ∷ after 3 (fetch some (97 ∷ []))
    ∷ after 0 (load some (97 ∷ []) 1 4 (Outcome.done (some (53 ∷ []))))
    ∷ record { wait = 0; live = false; call = read (97 ∷ []) }
    ∷ after 0 (swap (58 ∷ 98 ∷ []) (50 ∷ []) (51 ∷ []))
    ∷ after 0 (swap_in codes (98 ∷ []) (51 ∷ []) (54 ∷ []))
    ∷ after 0 (fetch_in (λ t. none) codes (98 ∷ []))
    ∷ after 0 (consume_in codes (98 ∷ []))
    ∷ after 0 (read (58 ∷ 98 ∷ []))
    ∷ []

run_calls-Bounded_example : Bounded codes (run_calls codec 0 calls small_cache).1
run_calls-Bounded_example =
    Quota.run_calls-Bounded codec codes 0 calls small_cache
      (tt, (λ e. refl, (tt, (tt, (tt, (tt, (tt, (tt, (tt, (tt, (tt, (tt, tt))))))))))))
      (record { entries = omega arith; members = omega arith })

run_calls-spec_calls_example :
    let r = run_calls codec 0 calls small_cache in
    let spec = spec_calls codec r.0 0 calls (λ k. none) in
    (r.0 ≡ spec.0) × Shows (end_of 0 calls) r.1.items spec.1
run_calls-spec_calls_example =
    Refinement.run_calls-spec_calls codec 0 calls small_cache (λ k. none)
      (record { distinct = tt; seen = λ wait k. refl })

set_refuses_example : (set (some (49 ∷ [])) 3 (97 ∷ []) 5 small_cache).0 ≡ (
    if not (is_some (lookup (97 ∷ []) small_cache.items))
      && leb small_cache.limit (live_entries 3 small_cache)
    then Outcome.fail capacity
    else Outcome.done tt)
set_refuses_example = Bounds.set_refuses (49 ∷ []) 3 (97 ∷ []) 5 small_cache
