-- ===== src/Cache.antt =====
-- internal/platform/cache/memory.go: the cache in the process's memory, with a bounded number of
-- entries that expire. Each call holds the lock, so calls are a sequence; the clock's reading, the
-- state of the context (`live`) and the codec of JSON are arguments. Texts are bytes here. The
-- namespaces, a map of maps, are the list of their members, so that an empty one and a missing one
-- are the same, as they are to every call.
pub mod Namespace
pub mod Bounds
mod Admission
mod Limits
pub mod Quota
pub mod Calls
pub mod Ttl
pub mod Shown
pub mod Reads
pub mod Writes
mod Loads
mod Steps
pub mod Refinement
pub mod Absence
pub mod Stored
use furtalk.Base.{
  ℕ, ◌+◌, Bool, true, false, not, ◌&&◌, Option, none, some, List, filter, length, is_some, ltb, leb,
  if◌then◌else◌,
}
use furtalk.Base.Equality.{◌==◌, text_eq, nat_eq}
use furtalk.Base.Assoc.{Key, lookup, insert, remove, keep, only}
use furtalk.Domain.Entities.{Text}

pub data CacheError : Type 0 where
  not_found capacity encoding decoding invalid_json cancelled : CacheError
  invalid_namespace invalid_ttl loading : CacheError

pub data Outcome (T : Type 0) : Type 0 where
  fail : CacheError → Outcome T
  done : T → Outcome T

pub record Item : Type 0 where
  pub content : Text
  pub expires : ℕ

-- A key in the map of one namespace.
pub record Member : Type 0 where
  pub space : Text
  pub key : Key
  pub expires : ℕ

pub record Memory : Type 0 where
  pub items : List (Key × Item)
  pub limit : ℕ
  pub members : List Member

abbrev pub default_memory_limit : ℕ
default_memory_limit = 10000

abbrev pub new_memory : ℕ → Memory
new_memory limit = record {
  items = List.[];
  limit = if limit == 0 then default_memory_limit else limit;
  members = List.[];
}

-- `now.Before(item.expires)`
abbrev pub is_live : ℕ → Item → Bool
is_live now item = ltb now item.expires

-- The entry of a key, if it has not expired.
abbrev pub fresh : ℕ → Key → Memory → Option Item
fresh now key m = only (is_live now) (lookup key m.items)

-- The entry goes, and its membership of every namespace.
unfoldable pub delete : Key → Memory → Memory
delete key m = record m {
  items = remove key m.items;
  members = filter (λ x. not (x.key == key)) m.members;
}

-- `if ok { delete … }`
unfoldable pub delete_stale : Key → Memory → Memory
unfolding delete
delete_stale key m = if is_some (lookup key m.items) then delete key m else m

-- The key has an entry, and it has expired.
abbrev pub has_expired : ℕ → Memory → Key → Bool
has_expired now m key = is_some (lookup key m.items) && not (is_some (fresh now key m))

unfoldable pub evict_expired : ℕ → Memory → Memory
evict_expired now m = record m {
  items = keep (λ k item. is_live now item) m.items;
  members = filter (λ x. not (has_expired now m x.key)) m.members;
}

abbrev pub write : Key → Text → ℕ → Memory → Memory
write key content expires m = record m {
  items = insert key (record { content = content; expires = expires }) m.items;
}

abbrev pub is_full : Memory → Bool
is_full m = leb m.limit (length m.items)

-- The write after a full cache has been cleaned.
abbrev pub write_if_room : Key → Text → ℕ → Memory → Outcome (Unit {0}) × Memory
write_if_room key content expires m =
    if is_full m then (Outcome.fail capacity, m) else (Outcome.done tt, write key content expires m)

-- The value comes encoded, or with no encoding.
unfoldable pub set : Option Text → ℕ → Key → ℕ → Memory → Outcome (Unit {0}) × Memory
unfolding evict_expired
set none now key ttl m = (Outcome.fail encoding, m)
set (some content) now key ttl m =
    if not (is_some (lookup key m.items)) && is_full m
    then write_if_room key content (now + ttl) (evict_expired now m)
    else (Outcome.done tt, write key content (now + ttl) m)

-- `err == ErrNotFound`
abbrev pub is_missing : CacheError → Bool
is_missing not_found = true
is_missing _ = false

module _ {T : Type 0} (decode : Text → Option T) where
  abbrev pub opened : Option T → Outcome T
  opened none = Outcome.fail decoding
  opened (some x) = Outcome.done x

  abbrev pub decoded : Text → Outcome T
  decoded content = opened (decode content)

  abbrev pub get_item : Key → Option Item → Memory → Outcome T × Memory
  get_item key none m = (Outcome.fail not_found, delete key m)
  get_item key (some item) m = (decoded item.content, m)

  unfoldable pub get : Bool → ℕ → Key → Memory → Outcome T × Memory
  unfolding delete
  get false now key m = (Outcome.fail cancelled, m)
  get true now key m = get_item key (fresh now key m) m

  -- The answer, beside what is left.
  abbrev pub consume_item : Option Item → Memory → Outcome T × Memory
  consume_item none left = (Outcome.fail not_found, left)
  consume_item (some item) left = (decoded item.content, left)

  unfoldable pub atomic_consume : Bool → ℕ → Key → Memory → Outcome T × Memory
  unfolding delete
  atomic_consume false now key m = (Outcome.fail cancelled, m)
  atomic_consume true now key m = consume_item (fresh now key m) (delete key m)

  -- The value that has been stored, decoded from its encoding.
  abbrev pub read_back : Option Text → Outcome (Unit {0}) × Memory → Outcome T × Memory
  read_back content (Outcome.fail e, m) = (Outcome.fail e, m)
  read_back none (Outcome.done u, m) = (Outcome.fail encoding, m)
  read_back (some content) (Outcome.done u, m) = (decoded content, m)

  -- The value that `load` returns comes encoded.
  abbrev pub load_into : ℕ → Key → ℕ → Outcome (Option Text) → Memory → Outcome T × Memory
  load_into later key ttl (Outcome.fail e) m = (Outcome.fail loading, m)
  load_into later key ttl (Outcome.done content) m = read_back content (set content later key ttl m)

  abbrev pub or_load : (Memory → Outcome T × Memory) → Outcome T × Memory → Outcome T × Memory
  or_load next (Outcome.done x, m) = (Outcome.done x, m)
  or_load next (Outcome.fail e, m) = if is_missing e then next m else (Outcome.fail e, m)

  -- `GetOrLoad`, the only caller of its key; the clock is read twice.
  unfoldable pub get_or_load :
      Bool → ℕ → ℕ → Key → ℕ → Outcome (Option Text) → Memory → Outcome T × Memory
  unfolding get set
  get_or_load live now later key ttl load m =
      or_load (load_into later key ttl load) (get live now key m)

abbrev pub read_item : Key → Option Item → Memory → Outcome Text × Memory
read_item key none m = (Outcome.fail not_found, delete_stale key m)
read_item key (some item) m = (Outcome.done item.content, m)

unfoldable pub get_raw_json : Bool → ℕ → Key → Memory → Outcome Text × Memory
unfolding delete_stale
get_raw_json false now key m = (Outcome.fail cancelled, m)
get_raw_json true now key m = read_item key (fresh now key m) m

abbrev pub swap_item :
    (Text → Bool) → Key → Text → Text → Option Item → Memory → Outcome Bool × Memory
swap_item is_json key expected replacement none m = (Outcome.done false, delete_stale key m)
swap_item is_json key expected replacement (some item) m =
    if not (item.content == expected)
    then (Outcome.done false, m)
    else if not (is_json replacement)
    then (Outcome.fail invalid_json, m)
    else (Outcome.done true, write key replacement item.expires m)

unfoldable pub compare_and_swap_json :
    (Text → Bool) → Bool → ℕ → Key → Text → Text → Memory → Outcome Bool × Memory
unfolding delete_stale
compare_and_swap_json is_json false now key expected replacement m = (Outcome.fail cancelled, m)
compare_and_swap_json is_json true now key expected replacement m =
    swap_item is_json key expected replacement (fresh now key m) m

-- The memory without the entry is `left`.
abbrev pub erase_item : Key → Text → Option Item → Memory → Memory → Outcome Bool × Memory
erase_item key expected none m left = (Outcome.done false, delete_stale key m)
erase_item key expected (some item) m left =
    if item.content == expected then (Outcome.done true, left) else (Outcome.done false, m)

unfoldable pub compare_and_delete_json : Bool → ℕ → Key → Text → Memory → Outcome Bool × Memory
unfolding delete_stale
compare_and_delete_json false now key expected m = (Outcome.fail cancelled, m)
compare_and_delete_json true now key expected m =
    erase_item key expected (fresh now key m) m (delete key m)
