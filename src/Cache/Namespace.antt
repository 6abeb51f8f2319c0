-- ===== src/Cache/Namespace.antt =====
-- internal/platform/cache/namespace.go over the cache in memory: a namespace puts a prefix before its
-- keys and has a quota of entries. The fallback for stores other than this one is not modelled.
use furtalk.Base.{
  ℕ, ◌+◌, Bool, not, ◌&&◌, ◌||◌, Option, none, some, [], ◌∷◌, ◌++◌, any, filter, count, is_some,
  ltb, leb, if◌then◌else◌,
}
use furtalk.Base.Equality.{◌==◌, text_eq, nat_eq}
use furtalk.Base.Assoc.{Key, remove, keep}
use furtalk.Domain.Entities.{Text}
use furtalk.Text.{trim_space}
use furtalk.Cache.{
  Outcome, Item, Member, Memory, capacity, encoding, invalid_namespace, invalid_ttl, invalid_json,
  cancelled, is_live, fresh, is_full, write, delete_stale, consume_item, erase_item, evict_expired,
  get, get_raw_json, compare_and_swap_json,
}

pub record Namespace : Type 0 where
  pub name : Text
  pub prefix : Text
  pub limit : ℕ

-- `NewNamespaceChecked`, for a store that is there.
unfoldable pub new_namespace_checked : Text → Text → ℕ → Outcome Namespace
new_namespace_checked name prefix limit =
    if trim_space name == [] || prefix == [] || limit == 0
    then Outcome.fail invalid_namespace
    else Outcome.done (record { name = name; prefix = prefix; limit = limit })

abbrev pub is_valid : Namespace → Bool
is_valid ns = not (ns.name == []) && not (ns.prefix == []) && not (ns.limit == 0)

abbrev pub key_in : Namespace → Text → Key
key_in ns suffix = ns.prefix ++ suffix

-- The call goes on if the namespace is valid.
abbrev pub checked :
    {T : Type 0} → Namespace → (Memory → Outcome T × Memory) → Memory → Outcome T × Memory
checked ns call m = if is_valid ns then call m else (Outcome.fail invalid_namespace, m)

abbrev pub in_space : Text → Member → Bool
in_space name x = x.space == name

abbrev pub is_member : Text → Key → Member → Bool
is_member name key x = in_space name x && x.key == key

abbrev pub used : Text → Memory → ℕ
used name m = count (in_space name) m.members

-- A member of the namespace whose time is over, or whose entry is gone or has expired.
abbrev pub is_dead : Text → ℕ → Memory → Member → Bool
is_dead name now m x =
    in_space name x && (not (ltb now x.expires) || not (is_some (fresh now x.key m)))

-- The loop over the members: the dead ones go, with the entries that have expired.
unfoldable pub prune : Text → ℕ → Memory → Memory
prune name now m = record m {
  items = keep (λ k item. is_live now item || not (any (is_member name k) m.members)) m.items;
  members = filter (λ x. not (is_dead name now m x)) m.members;
}

abbrev pub leave : Text → Key → Memory → Memory
leave name key m = record m { members = filter (λ x. not (is_member name key x)) m.members }

abbrev pub enter : Text → Key → ℕ → Memory → Memory
enter name key expires m = record m {
  members = record { space = name; key = key; expires = expires } ∷ (leave name key m).members;
}

abbrev pub admit : Text → Key → Text → ℕ → Memory → Outcome (Unit {0}) × Memory
admit name key content expires m =
    (Outcome.done tt, enter name key expires (write key content expires m))

abbrev pub admit_if_room : Text → Key → Text → ℕ → Memory → Outcome (Unit {0}) × Memory
admit_if_room name key content expires m =
    if is_full m then (Outcome.fail capacity, m) else admit name key content expires m

-- A key that the namespace does not count yet: the quota first, then the room in the cache.
unfoldable pub set_untracked : Text → Key → Text → ℕ → ℕ → ℕ → Memory → Outcome (Unit {0}) × Memory
unfolding evict_expired
set_untracked name key content now ttl limit m =
    if leb limit (used name m)
    then (Outcome.fail capacity, m)
    else if is_full m
    then admit_if_room name key content (now + ttl) (evict_expired now m)
    else admit name key content (now + ttl) m

-- An entry that was written beside the namespace takes a place in it.
abbrev pub set_item :
    Text → Key → Text → ℕ → ℕ → ℕ → Option Item → Memory → Outcome (Unit {0}) × Memory
set_item name key content now ttl limit none m =
    set_untracked name key content now ttl limit
      (record (leave name key m) { items = remove key m.items })
set_item name key content now ttl limit (some item) m =
    if any (λ x. is_member name key x && ltb now x.expires) m.members
    then admit name key content (now + ttl) m
    else if leb limit (used name m)
    then (Outcome.fail capacity, m)
    else admit name key content (now + ttl) (enter name key item.expires m)

unfoldable pub memory_set :
    Text → Key → Option Text → ℕ → ℕ → ℕ → Memory → Outcome (Unit {0}) × Memory
unfolding prune set_untracked
memory_set name key none now ttl limit m = (Outcome.fail encoding, m)
memory_set name key (some content) now ttl limit m =
    set_item name key content now ttl limit (fresh now key (prune name now m)) (prune name now m)

module _ (ns : Namespace) where
  unfoldable pub namespace_set : Text → Option Text → ℕ → ℕ → Memory → Outcome (Unit {0}) × Memory
  unfolding memory_set
  namespace_set suffix value now ttl = checked ns λ m.
      if ttl == 0
      then (Outcome.fail invalid_ttl, m)
      else memory_set ns.name (key_in ns suffix) value now ttl ns.limit m

  unfoldable pub namespace_get :
      {T : Type 0} → (Text → Option T) → Bool → ℕ → Text → Memory → Outcome T × Memory
  unfolding get
  namespace_get decode live now suffix = checked ns (get decode live now (key_in ns suffix))

  unfoldable pub namespace_get_raw_json : Bool → ℕ → Text → Memory → Outcome Text × Memory
  unfolding get_raw_json
  namespace_get_raw_json live now suffix = checked ns (get_raw_json live now (key_in ns suffix))

  -- Of the memberships only the one of this namespace goes.
  abbrev pub released : Text → Memory → Memory
  released suffix m = record (leave ns.name (key_in ns suffix) m) {
    items = remove (key_in ns suffix) m.items;
  }

  unfoldable pub namespace_delete : Text → Memory → Outcome (Unit {0}) × Memory
  namespace_delete suffix = checked ns λ m. (Outcome.done tt, released suffix m)

  -- `AtomicConsume`: here the memory does not look at the context.
  unfoldable pub namespace_consume :
      {T : Type 0} → (Text → Option T) → ℕ → Text → Memory → Outcome T × Memory
  namespace_consume decode now suffix =
      checked ns λ m. consume_item decode (fresh now (key_in ns suffix) m) (released suffix m)

  -- The replacement is looked at first.
  unfoldable pub namespace_compare_and_swap_json :
      (Text → Bool) → Bool → ℕ → Text → Text → Text → Memory → Outcome Bool × Memory
  unfolding compare_and_swap_json
  namespace_compare_and_swap_json is_json live now suffix expected replacement = checked ns λ m.
      if live && not (is_json replacement)
      then (Outcome.fail invalid_json, m)
      else compare_and_swap_json is_json live now (key_in ns suffix) expected replacement m

  unfoldable pub namespace_compare_and_delete_json :
      Bool → ℕ → Text → Text → Memory → Outcome Bool × Memory
  unfolding delete_stale
  namespace_compare_and_delete_json live now suffix expected = checked ns λ m.
      if not live
      then (Outcome.fail cancelled, m)
      else erase_item (key_in ns suffix) expected (fresh now (key_in ns suffix) m) m
          (released suffix m)
