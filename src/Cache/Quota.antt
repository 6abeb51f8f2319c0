-- ===== src/Cache/Quota.antt =====
-- The quota of a namespace and the limit of the cache hold through every sequence of calls.
use furtalk.Base.{ℕ, ◌+◌, ◌≡◌, refl, Bool, not, ◌&&◌, List, [], ◌∷◌, if◌then◌else◌, All}
use furtalk.Base.Equality.{text_eq, nat_eq}
use furtalk.Base.Assoc.{Key}
use furtalk.Domain.Entities.{Text}
use furtalk.Cache.{
  Outcome, Memory, cancelled, invalid_json, fresh, delete, get, consume_item, erase_item,
  get_raw_json, atomic_consume, compare_and_swap_json, compare_and_delete_json,
}
use furtalk.Cache.Namespace.{
  Namespace, key_in, namespace_get, namespace_get_raw_json, namespace_delete, namespace_consume,
  namespace_compare_and_swap_json, namespace_compare_and_delete_json, released,
}
use furtalk.Cache.Calls.{
  Codec, Call, fetch, read, erase, consume, store, swap, erase_if, load, fetch_in, read_in,
  erase_in, consume_in, store_in, swap_in, erase_if_in, Event, lasting, run_call, run_calls,
}
use furtalk.Cache.Bounds.{
  Bounded, BoundedAfter, delete-Bounded, released-Bounded, set-Bounded, consume_item-Bounded,
  erase_item-Bounded,
}
use furtalk.Cache.Limits.{
  checked-Bounded, namespace_set-Bounded, live-Bounded, get-Bounded, get_raw_json-Bounded,
  compare_and_swap_json-Bounded, get_or_load-Bounded, refused-Bounded,
}

-- A namespace of the same name has the same quota.
abbrev pub Agrees : Namespace → Call → Type 0
Agrees ns (store_in other suffix value ttl) = other.name ≡ ns.name → other.limit ≡ ns.limit
Agrees ns call = Unit {0}

module _ (codec : Codec) (ns : Namespace) where
  erasure-Bounded :
      (live : Bool) (now : ℕ) (key : Key) (expected : Text) (m left : Memory)
      → Bounded ns m
      → Bounded ns left
      → BoundedAfter ns (
          if not live
          then (Outcome.fail cancelled, m)
          else erase_item key expected (fresh now key m) m left)
  erasure-Bounded live now key expected m left b l =
      refused-Bounded ns (not live) cancelled _ m b
        (erase_item-Bounded ns key expected (fresh now key m) m left b l)

  run_call-Bounded :
      (now : ℕ) (live : Bool) (call : Call) (m : Memory)
      → Agrees ns call
      → Bounded ns m
      → Bounded ns (run_call codec now live call m).1
  unfolding run_call delete atomic_consume compare_and_delete_json namespace_get
      namespace_get_raw_json namespace_delete namespace_consume namespace_compare_and_swap_json
      namespace_compare_and_delete_json
  run_call-Bounded now live (fetch reader key) m u b = get-Bounded ns reader live now key m b
  run_call-Bounded now live (read key) m u b = get_raw_json-Bounded ns live now key m b
  run_call-Bounded now live (erase key) m u b = delete-Bounded ns key m b
  run_call-Bounded now live (consume key) m u b =
      live-Bounded ns live (λ live. atomic_consume codec.string live now key m) m refl b
        (consume_item-Bounded ns codec.string (fresh now key m) (delete key m)
          (delete-Bounded ns key m b))
  run_call-Bounded now live (store key value ttl) m u b = set-Bounded ns value now key ttl m b
  run_call-Bounded now live (swap key expected replacement) m u b =
      compare_and_swap_json-Bounded ns codec.is_json live now key expected replacement m b
  run_call-Bounded now live (erase_if key expected) m u b =
      live-Bounded ns live (λ live. compare_and_delete_json live now key expected m) m refl b
        (erase_item-Bounded ns key expected (fresh now key m) m (delete key m) b
          (delete-Bounded ns key m b))
  run_call-Bounded now live (load reader key extra ttl result) m u b =
      get_or_load-Bounded ns reader live now (now + extra) key ttl result m b
  run_call-Bounded now live (fetch_in reader other suffix) m u b =
      checked-Bounded ns other (get reader live now (key_in other suffix)) m b
        (get-Bounded ns reader live now (key_in other suffix) m b)
  run_call-Bounded now live (read_in other suffix) m u b =
      checked-Bounded ns other (get_raw_json live now (key_in other suffix)) m b
        (get_raw_json-Bounded ns live now (key_in other suffix) m b)
  run_call-Bounded now live (erase_in other suffix) m u b =
      checked-Bounded ns other (λ m. (Outcome.done tt, released other suffix m)) m b
        (released-Bounded ns other suffix m b)
  run_call-Bounded now live (consume_in other suffix) m u b =
      checked-Bounded ns other
        (λ m.
          consume_item codec.string (fresh now (key_in other suffix) m) (released other suffix m))
        m b
        (consume_item-Bounded ns codec.string (fresh now (key_in other suffix) m)
          (released other suffix m) (released-Bounded ns other suffix m b))
  run_call-Bounded now live (store_in other suffix value ttl) m u b =
      namespace_set-Bounded ns other suffix value now ttl m u b
  run_call-Bounded now live (swap_in other suffix expected replacement) m u b =
      checked-Bounded ns other
        (λ m.
          if live && not (codec.is_json replacement)
          then (Outcome.fail invalid_json, m)
          else compare_and_swap_json codec.is_json live now (key_in other suffix) expected
              replacement m)
        m b
        (refused-Bounded ns (live && not (codec.is_json replacement)) invalid_json _ m b (
          compare_and_swap_json-Bounded ns codec.is_json live now (key_in other suffix) expected
            replacement m b))
  run_call-Bounded now live (erase_if_in other suffix expected) m u b =
      checked-Bounded ns other
        (λ m.
          if not live
          then (Outcome.fail cancelled, m)
          else erase_item (key_in other suffix) expected (fresh now (key_in other suffix) m) m
              (released other suffix m))
        m b
        (erasure-Bounded live now (key_in other suffix) expected m (released other suffix m) b
          (released-Bounded ns other suffix m b))

  -- Through any sequence of calls the cache holds no more entries than its limit, and a namespace no
  -- more keys than its quota, if every write to it names the same quota.
  pub run_calls-Bounded :
      (now : ℕ) (calls : List Event) (m : Memory)
      → All (λ e. Agrees ns e.call) calls
      → Bounded ns m
      → Bounded ns (run_calls codec now calls m).1
  unfolding run_calls
  run_calls-Bounded now [] m u b = b
  run_calls-Bounded now (e ∷ rest) m u b =
      run_calls-Bounded (now + e.wait + lasting e.call) rest
        (run_call codec (now + e.wait) e.live e.call m).1 u.1
        (run_call-Bounded (now + e.wait) e.live e.call m u.0 b)
