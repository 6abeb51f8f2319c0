-- ===== src/Cache/Limits.antt =====
-- Single calls of the cache keep its limit and the quota of a namespace.
use furtalk.Base.{subst, sym, ℕ, ◌≡◌, refl, Bool, true, false, Option, none, some, if◌then◌else◌}
use furtalk.Base.Equality.{◌==◌, text_eq, nat_eq}
use furtalk.Base.Assoc.{Key}
use furtalk.Domain.Entities.{Text}
use furtalk.Cache.{
  CacheError, Outcome, Memory, cancelled, invalid_ttl, invalid_namespace, is_missing, fresh, get,
  set, get_or_load, load_into, read_back, or_load, get_raw_json, compare_and_swap_json,
}
use furtalk.Cache.Namespace.{Namespace, is_valid, key_in, prune, memory_set, namespace_set, checked}
use furtalk.Cache.Calls.{Reader}
use furtalk.Cache.Bounds.{
  Bounded, BoundedAfter, prune-Bounded, set-Bounded, read_item-Bounded, get_item-Bounded,
  swap_item-Bounded,
}
use furtalk.Cache.Admission.{set_item-Bounded}

module _ (ns : Namespace) where
  pub memory_set-Bounded :
      (name : Text) (key : Key) (value : Option Text) (now ttl limit : ℕ) (m : Memory)
      → (name ≡ ns.name → limit ≡ ns.limit)
      → Bounded ns m
      → Bounded ns (memory_set name key value now ttl limit m).1
  unfolding memory_set
  memory_set-Bounded name key none now ttl limit m agrees b = b
  memory_set-Bounded name key (some content) now ttl limit m agrees b =
      set_item-Bounded ns name key limit agrees content now ttl (fresh now key (prune name now m))
        (prune name now m) refl (prune-Bounded ns name now m b)

  pub checked-Bounded :
      {T : Type 0} (other : Namespace) (call : Memory → Outcome T × Memory) (m : Memory)
      → Bounded ns m
      → Bounded ns (call m).1
      → Bounded ns (checked other call m).1
  checked-Bounded {T} other call m b k = go (is_valid other)
    where
      go :
          (valid : Bool)
          → BoundedAfter ns (if valid then call m else (Outcome.fail invalid_namespace, m))
      go true = k
      go false = b

  pub namespace_set-Bounded :
      (other : Namespace) (suffix : Text) (value : Option Text) (now ttl : ℕ) (m : Memory)
      → (other.name ≡ ns.name → other.limit ≡ ns.limit)
      → Bounded ns m
      → Bounded ns (namespace_set other suffix value now ttl m).1
  unfolding namespace_set
  namespace_set-Bounded other suffix value now ttl m agrees b = go (is_valid other) (ttl == 0)
    where
      go :
          (valid unset : Bool)
          → BoundedAfter ns (
              if valid
              then if unset
                then (Outcome.fail invalid_ttl, m)
                else memory_set other.name (key_in other suffix) value now ttl other.limit m
              else (Outcome.fail invalid_namespace, m))
      go false unset = b
      go true true = b
      go true false =
          memory_set-Bounded other.name (key_in other suffix) value now ttl other.limit m agrees b

  pub live-Bounded :
      {T : Type 0} (live : Bool) (call : Bool → Outcome T × Memory) (m : Memory)
      → call false ≡ (Outcome.fail cancelled, m)
      → Bounded ns m
      → Bounded ns (call true).1
      → Bounded ns (call live).1
  live-Bounded true call m e b k = k
  live-Bounded false call m e b k = subst (λ x. Bounded ns x.1) (sym e) b

  pub get-Bounded :
      (reader : Reader) (live : Bool) (now : ℕ) (key : Key) (m : Memory)
      → Bounded ns m
      → Bounded ns (get reader live now key m).1
  unfolding get
  get-Bounded reader live now key m b =
      live-Bounded live (λ live. get reader live now key m) m refl b
        (get_item-Bounded ns reader key (fresh now key m) m b)

  pub get_raw_json-Bounded :
      (live : Bool) (now : ℕ) (key : Key) (m : Memory)
      → Bounded ns m
      → Bounded ns (get_raw_json live now key m).1
  unfolding get_raw_json
  get_raw_json-Bounded live now key m b =
      live-Bounded live (λ live. get_raw_json live now key m) m refl b
        (read_item-Bounded ns key (fresh now key m) m b)

  pub compare_and_swap_json-Bounded :
      (is_json : Text → Bool) (live : Bool) (now : ℕ) (key : Key) (expected replacement : Text)
      (m : Memory)
      → Bounded ns m
      → Bounded ns (compare_and_swap_json is_json live now key expected replacement m).1
  unfolding compare_and_swap_json
  compare_and_swap_json-Bounded is_json live now key expected replacement m b =
      live-Bounded live (λ live. compare_and_swap_json is_json live now key expected replacement m)
        m refl b
        (swap_item-Bounded ns is_json key expected replacement now (fresh now key m) m refl b)

  pub read_back-Bounded :
      (reader : Reader) (value : Option Text) (r : Outcome (Unit {0}) × Memory)
      → Bounded ns r.1
      → Bounded ns (read_back reader value r).1
  read_back-Bounded reader value (Outcome.fail e, m) b = b
  read_back-Bounded reader none (Outcome.done u, m) b = b
  read_back-Bounded reader (some content) (Outcome.done u, m) b = b

  pub load_into-Bounded :
      (reader : Reader) (later : ℕ) (key : Key) (ttl : ℕ) (result : Outcome (Option Text))
      (m : Memory)
      → Bounded ns m
      → Bounded ns (load_into reader later key ttl result m).1
  load_into-Bounded reader later key ttl (Outcome.fail e) m b = b
  load_into-Bounded reader later key ttl (Outcome.done value) m b =
      read_back-Bounded reader value (set value later key ttl m)
        (set-Bounded ns value later key ttl m b)

  pub or_load-Bounded :
      (reader : Reader) (next : Memory → Outcome Text × Memory) (r : Outcome Text × Memory)
      → ((m : Memory) → Bounded ns m → Bounded ns (next m).1)
      → Bounded ns r.1
      → Bounded ns (or_load reader next r).1
  or_load-Bounded reader next (Outcome.done x, m) k b = b
  or_load-Bounded reader next (Outcome.fail e, m) k b = go (is_missing e)
    where
      go : (missing : Bool) → BoundedAfter ns (if missing then next m else (Outcome.fail e, m))
      go true = k m b
      go false = b

  pub get_or_load-Bounded :
      (reader : Reader) (live : Bool) (now later : ℕ) (key : Key) (ttl : ℕ)
      (result : Outcome (Option Text)) (m : Memory)
      → Bounded ns m
      → Bounded ns (get_or_load reader live now later key ttl result m).1
  unfolding get_or_load
  get_or_load-Bounded reader live now later key ttl result m b =
      or_load-Bounded reader (load_into reader later key ttl result) (get reader live now key m)
        (load_into-Bounded reader later key ttl result) (get-Bounded reader live now key m b)

  -- A call that may be refused before it is made.
  pub refused-Bounded :
      {T : Type 0} (refused : Bool) (e : CacheError) (r : Outcome T × Memory) (m : Memory)
      → Bounded ns m
      → Bounded ns r.1
      → BoundedAfter ns (if refused then (Outcome.fail e, m) else r)
  refused-Bounded true e r m b k = b
  refused-Bounded false e r m b k = k
