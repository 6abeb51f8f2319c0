-- ===== src/Cache/Refinement.antt =====
-- The cache implements the map with times of `Ttl`: whatever the calls, its answers are the map's.
use furtalk.Base.{
  ℕ, ◌+◌, ◌≡◌, refl, Bool, true, false, not, ◌&&◌, Option, none, some, List, [], ◌∷◌, if◌then◌else◌,
}
use furtalk.Base.Equality.{text_eq, nat_eq, ◌==◌}
use furtalk.Domain.Entities.{Text}
use furtalk.Cache.{
  Outcome, Memory, fresh, delete, invalid_ttl, invalid_json, cancelled, encoding, consume_item,
  erase_item, set, get, get_raw_json, atomic_consume, compare_and_swap_json,
  compare_and_delete_json,
}
use furtalk.Cache.Namespace.{
  Namespace, key_in, namespace_get, namespace_get_raw_json, namespace_set, memory_set,
  namespace_delete, namespace_consume, namespace_compare_and_swap_json,
  namespace_compare_and_delete_json, released,
}
use furtalk.Cache.Calls.{
  Codec, Call, fetch, read, erase, consume, store, swap, erase_if, load, fetch_in, read_in,
  erase_in, consume_in, store_in, swap_in, erase_if_in, Event, lasting, nothing, text, flag,
  reply_of, run_call, run_calls,
}
use furtalk.Cache.Ttl.{TtlMap, swapped, if_live, current, spec_call, spec_calls}
use furtalk.Cache.Shown.{Shows, Shows-later, Shows-remove}
use furtalk.Cache.Reads.{Follows, Follows-later, live-Follows}
use furtalk.Cache.Writes.{set-Stores, namespace_set-Stores}
use furtalk.Cache.Steps.{
  checked-Follows, get-Follows, get_raw_json-Follows, compare_and_swap_json-Follows,
  erasure-Follows, consumption-Follows, get_or_load-Follows,
}

module _ {now : ℕ} {a : TtlMap} (m : Memory) (s : Shows now m.items a) where
  namespace_set-Follows :
      (codec : Codec) (live : Bool) (ns : Namespace) (suffix : Text) (value : Option Text) (ttl : ℕ)
      → Follows now (run_call codec now live (store_in ns suffix value ttl) m) (
          spec_call codec
            (run_call codec now live (store_in ns suffix value ttl) m).0
            now
            live
            (store_in ns suffix value ttl)
            a)
  unfolding run_call spec_call namespace_set memory_set
  namespace_set-Follows codec live ns suffix (some content) ttl =
      namespace_set-Stores ns suffix content ttl m s
  namespace_set-Follows codec live ns suffix none ttl =
      checked-Follows m s (λ _. nothing) ns
        (λ m.
          if ttl == 0
          then (Outcome.fail invalid_ttl, m)
          else memory_set ns.name (key_in ns suffix) none now ttl ns.limit m)
        _ (refused (ttl == 0))
    where
      refused :
          (b : Bool)
          → Follows now
              (reply_of {T = Unit {0}}
                (λ _. nothing)
                (if b then (Outcome.fail invalid_ttl, m) else (Outcome.fail encoding, m)))
              (if b then (Outcome.fail invalid_ttl, a) else (Outcome.fail encoding, a))
      refused true = record { same_answer = refl; shows = s }
      refused false = record { same_answer = refl; shows = s }

  swap_in-Follows :
      (codec : Codec) (live : Bool) (ns : Namespace) (suffix expected replacement : Text)
      → Follows now (run_call codec now live (swap_in ns suffix expected replacement) m) (
          spec_call codec
            (run_call codec now live (swap_in ns suffix expected replacement) m).0
            now
            live
            (swap_in ns suffix expected replacement)
            a)
  unfolding run_call spec_call namespace_compare_and_swap_json
  swap_in-Follows codec live ns suffix expected replacement =
      checked-Follows m s flag ns
        (λ m.
          if live && not (codec.is_json replacement)
          then (Outcome.fail invalid_json, m)
          else compare_and_swap_json codec.is_json live now (key_in ns suffix) expected replacement
              m)
        _ (looked_at (live && not (codec.is_json replacement)))
    where
      looked_at :
          (b : Bool)
          → Follows now
              (reply_of flag (
                if b
                then (Outcome.fail invalid_json, m)
                else compare_and_swap_json codec.is_json live now
                    (key_in ns suffix)
                    expected
                    replacement
                    m))
              (if b
                then (Outcome.fail invalid_json, a)
                else if_live live a (
                    swapped codec
                      (key_in ns suffix)
                      expected
                      replacement
                      (current now (key_in ns suffix) a)
                      a))
      looked_at true = record { same_answer = refl; shows = s }
      looked_at false =
          compare_and_swap_json-Follows m s codec live (key_in ns suffix) expected replacement

  erase_if_in-Follows :
      (codec : Codec) (live : Bool) (ns : Namespace) (suffix expected : Text)
      → Follows now (run_call codec now live (erase_if_in ns suffix expected) m) (
          spec_call codec
            (run_call codec now live (erase_if_in ns suffix expected) m).0
            now
            live
            (erase_if_in ns suffix expected)
            a)
  unfolding run_call spec_call namespace_compare_and_delete_json
  erase_if_in-Follows codec live ns suffix expected = checked-Follows m s flag ns (call live) _ (
      live-Follows m s flag live (λ live. call live m) _ refl
        (erasure-Follows m s (key_in ns suffix) expected (released ns suffix m) refl))
    where
      call : Bool → Memory → Outcome Bool × Memory
      call live m =
          if not live
          then (Outcome.fail cancelled, m)
          else erase_item (key_in ns suffix) expected (fresh now (key_in ns suffix) m) m
              (released ns suffix m)

  run_call-Follows :
      (codec : Codec) (live : Bool) (call : Call)
      → Follows
          (now + lasting call)
          (run_call codec now live call m)
          (spec_call codec (run_call codec now live call m).0 now live call a)
  unfolding run_call spec_call delete atomic_consume set compare_and_delete_json namespace_get
      namespace_get_raw_json namespace_delete namespace_consume
  run_call-Follows codec live (fetch reader key) = Follows-later 0 (get-Follows m s reader live key)
  run_call-Follows codec live (read key) = Follows-later 0 (get_raw_json-Follows m s live key)
  run_call-Follows codec live (erase key) =
      Follows-later 0 (record { same_answer = refl; shows = Shows-remove key s })
  run_call-Follows codec live (consume key) = Follows-later 0 (
      live-Follows m s text live (λ live. atomic_consume codec.string live now key m) _ refl
        (consumption-Follows m s codec.string key (delete key m) refl))
  run_call-Follows codec live (store key none ttl) =
      Follows-later 0 (record { same_answer = refl; shows = s })
  run_call-Follows codec live (store key (some content) ttl) =
      Follows-later 0 (set-Stores key content ttl m s)
  run_call-Follows codec live (swap key expected replacement) =
      Follows-later 0 (compare_and_swap_json-Follows m s codec live key expected replacement)
  run_call-Follows codec live (erase_if key expected) = Follows-later 0 (
      live-Follows m s flag live (λ live. compare_and_delete_json live now key expected m) _ refl
        (erasure-Follows m s key expected (delete key m) refl))
  run_call-Follows codec live (load reader key extra ttl result) =
      get_or_load-Follows m s reader live key extra ttl result
  run_call-Follows codec live (fetch_in reader ns suffix) = Follows-later 0 (
      checked-Follows m s text ns (get reader live now (key_in ns suffix)) _
        (get-Follows m s reader live (key_in ns suffix)))
  run_call-Follows codec live (read_in ns suffix) = Follows-later 0 (
      checked-Follows m s text ns (get_raw_json live now (key_in ns suffix)) _
        (get_raw_json-Follows m s live (key_in ns suffix)))
  run_call-Follows codec live (erase_in ns suffix) = Follows-later 0 (
      checked-Follows m s (λ _. nothing) ns (λ m. (Outcome.done tt, released ns suffix m)) _
        (record { same_answer = refl; shows = Shows-remove (key_in ns suffix) s }))
  run_call-Follows codec live (consume_in ns suffix) = Follows-later 0 (
      checked-Follows m s text ns
        (λ m. consume_item codec.string (fresh now (key_in ns suffix) m) (released ns suffix m)) _
        (consumption-Follows m s codec.string (key_in ns suffix) (released ns suffix m) refl))
  run_call-Follows codec live (store_in ns suffix value ttl) =
      Follows-later 0 (namespace_set-Follows codec live ns suffix value ttl)
  run_call-Follows codec live (swap_in ns suffix expected replacement) =
      Follows-later 0 (swap_in-Follows codec live ns suffix expected replacement)
  run_call-Follows codec live (erase_if_in ns suffix expected) =
      Follows-later 0 (erase_if_in-Follows codec live ns suffix expected)

-- The time at which the last call is over.
abbrev pub end_of : ℕ → List Event → ℕ
end_of now [] = now
end_of now (e ∷ rest) = end_of (now + e.wait + lasting e.call) rest

-- Whatever the calls of the store and of namespaces over it, the times between them, their contexts
-- and what readers and loaders return, a cache that shows a map with times gives the answers that
-- the map gives, and shows what is left of the map in the end. The map takes a write whenever the
-- cache does not refuse it; all other answers are its own. GetOrLoad is
-- taken with no other call between its Get and its Set. So an entry is never read after its time,
-- is consumed once, and is not lost by evictions or by calls of namespaces.
pub run_calls-spec_calls :
    (codec : Codec) (now : ℕ) (calls : List Event) (m : Memory) (a : TtlMap)
    → Shows now m.items a
    → let r = run_calls codec now calls m in
      let spec = spec_calls codec r.0 now calls a in
      (r.0 ≡ spec.0) × Shows (end_of now calls) r.1.items spec.1
unfolding run_calls spec_calls
run_calls-spec_calls codec now [] m a s = (refl, s)
run_calls-spec_calls codec now (e ∷ rest) m a s =
    let step = run_call-Follows m (Shows-later e.wait s) codec e.live e.call in
    let later =
      run_calls-spec_calls codec (now + e.wait + lasting e.call) rest
        (run_call codec (now + e.wait) e.live e.call m).1
        (spec_call codec (run_call codec (now + e.wait) e.live e.call m).0 (now + e.wait) e.live
          e.call a).1
        step.shows in
    (cc (step.same_answer, later.0), later.1)
