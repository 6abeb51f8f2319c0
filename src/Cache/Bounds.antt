-- ===== src/Cache/Bounds.antt =====
-- Bounds on the cache: its number of entries, and the quota of a namespace.
use furtalk.Base.{
  ℕ, ◌+◌, ◌≤◌, ◌≡◌, refl, Bool, true, false, not, ◌&&◌, ◌||◌, Option, none, some, leb, is_some,
  length, if◌then◌else◌, arith,
}
use furtalk.Base.Counting.{count-filter-le}
use furtalk.Base.Equality.{◌==◌, text_eq, nat_eq}
use furtalk.Base.Assoc.{Key, lookup, keep, length-insert, length-remove-le, length-keep-le}
use furtalk.Domain.Entities.{Text}
use furtalk.Cache.{
  Outcome, Item, Memory, capacity, invalid_json, is_live, fresh, set, delete, delete_stale,
  evict_expired, write, write_if_room, is_full, read_item, get_item, consume_item, erase_item,
  swap_item,
}
use furtalk.Cache.Namespace.{Namespace, key_in, in_space, prune, used, released}

-- No more entries than the cache's limit, and no more members than the namespace's.
pub record Bounded (ns : Namespace) (m : Memory) : Type 0 where
  pub entries : length m.items ≤ m.limit
  pub members : used ns.name m ≤ ns.limit

-- `r` is bounded, and the limit is that of `m`.
abbrev pub BoundedAfter : {T : Type 0} → Namespace → Outcome T × Memory → Type 0
BoundedAfter ns r = Bounded ns r.1

module _ (ns : Namespace) where
  pub delete-Bounded : (key : Key) (m : Memory) → Bounded ns m → Bounded ns (delete key m)
  unfolding delete
  delete-Bounded key m b = record {
    entries = omega (arith, length-remove-le key m.items, b.entries);
    members =
        omega (
          arith,
          count-filter-le (in_space ns.name) (λ x. not (x.key == key)) m.members,
          b.members,
        );
  }

  pub delete_stale-Bounded :
      (key : Key) (m : Memory) → Bounded ns m → Bounded ns (delete_stale key m)
  unfolding delete_stale
  delete_stale-Bounded key m b = go (is_some (lookup key m.items))
    where
      go : (c : Bool) → Bounded ns (if c then delete key m else m)
      go true = delete-Bounded key m b
      go false = b

  pub evict_expired-Bounded :
      (now : ℕ) (m : Memory) → Bounded ns m → Bounded ns (evict_expired now m)
  unfolding evict_expired
  evict_expired-Bounded now m b = record {
    entries = omega (arith, length-keep-le (λ k item. is_live now item) m.items, b.entries);
    members = omega (arith, count-filter-le (in_space ns.name) _ m.members, b.members);
  }

  pub prune-Bounded :
      (name : Text) (now : ℕ) (m : Memory) → Bounded ns m → Bounded ns (prune name now m)
  unfolding prune
  prune-Bounded name now m b = record {
    entries = omega (arith, length-keep-le _ m.items, b.entries);
    members = omega (arith, count-filter-le (in_space ns.name) _ m.members, b.members);
  }

  pub released-Bounded :
      (other : Namespace) (suffix : Text) (m : Memory)
      → Bounded ns m
      → Bounded ns (released other suffix m)
  released-Bounded other suffix m b = record {
    entries = omega (arith, length-remove-le (key_in other suffix) m.items, b.entries);
    members = omega (arith, count-filter-le (in_space ns.name) _ m.members, b.members);
  }

  -- A write where there is room, or where the key is there already.
  pub write-Bounded :
      (key : Key) (content : Text) (expires : ℕ) (m : Memory)
      → (is_some (lookup key m.items) || not (is_full m)) ≡ true
      → Bounded ns m
      → Bounded ns (write key content expires m)
  write-Bounded key content expires m h b = record {
    entries = ground (
      arith,
      h,
      b.entries,
      length-insert key (record { content = content; expires = expires }) m.items,
    );
    members = b.members;
  }

  pub write_if_room-Bounded :
      (key : Key) (content : Text) (expires : ℕ) (m : Memory)
      → Bounded ns m
      → Bounded ns (write_if_room key content expires m).1
  write_if_room-Bounded key content expires m b = go (is_full m) refl
    where
      go :
          (full : Bool)
          → is_full m ≡ full
          → BoundedAfter ns (
              if full
              then (Outcome.fail capacity, m)
              else (Outcome.done tt, write key content expires m))
      go true e = b
      go false e = write-Bounded key content expires m (ground (arith, e)) b

  pub set-Bounded :
      (value : Option Text) (now : ℕ) (key : Key) (ttl : ℕ) (m : Memory)
      → Bounded ns m
      → Bounded ns (set value now key ttl m).1
  unfolding set
  set-Bounded none now key ttl m b = b
  set-Bounded (some content) now key ttl m b =
      go (not (is_some (lookup key m.items)) && is_full m) refl
    where
      go :
          (c : Bool)
          → (not (is_some (lookup key m.items)) && is_full m) ≡ c
          → BoundedAfter ns (
              if c
              then write_if_room key content (now + ttl) (evict_expired now m)
              else (Outcome.done tt, write key content (now + ttl) m))
      go true e =
          write_if_room-Bounded key content (now + ttl) (evict_expired now m)
            (evict_expired-Bounded now m b)
      go false e = write-Bounded key content (now + ttl) m (ground (arith, e)) b

  pub read_item-Bounded :
      (key : Key) (o : Option Item) (m : Memory) → Bounded ns m → Bounded ns (read_item key o m).1
  read_item-Bounded key none m b = delete_stale-Bounded key m b
  read_item-Bounded key (some item) m b = b

  pub get_item-Bounded :
      (reader : Text → Option Text) (key : Key) (o : Option Item) (m : Memory)
      → Bounded ns m
      → Bounded ns (get_item reader key o m).1
  get_item-Bounded reader key none m b = delete-Bounded key m b
  get_item-Bounded reader key (some item) m b = b

  pub consume_item-Bounded :
      (reader : Text → Option Text) (o : Option Item) (left : Memory)
      → Bounded ns left
      → Bounded ns (consume_item reader o left).1
  consume_item-Bounded reader none left b = b
  consume_item-Bounded reader (some item) left b = b

  pub erase_item-Bounded :
      (key : Key) (expected : Text) (o : Option Item) (m left : Memory)
      → Bounded ns m
      → Bounded ns left
      → Bounded ns (erase_item key expected o m left).1
  erase_item-Bounded key expected none m left b l = delete_stale-Bounded key m b
  erase_item-Bounded key expected (some item) m left b l = go (item.content == expected)
    where
      go :
          (c : Bool)
          → BoundedAfter ns (if c then (Outcome.done true, left) else (Outcome.done false, m))
      go true = l
      go false = b

  pub swap_item-Bounded :
      (is_json : Text → Bool) (key : Key) (expected replacement : Text) (now : ℕ) (o : Option Item)
      (m : Memory)
      → fresh now key m ≡ o
      → Bounded ns m
      → Bounded ns (swap_item is_json key expected replacement o m).1
  swap_item-Bounded is_json key expected replacement now none m e b = delete_stale-Bounded key m b
  swap_item-Bounded is_json key expected replacement now (some item) m e b =
      go (not (item.content == expected)) (not (is_json replacement))
    where
      go :
          (c d : Bool)
          → BoundedAfter ns (
              if c
              then (Outcome.done false, m)
              else if d
              then (Outcome.fail invalid_json, m)
              else (Outcome.done true, write key replacement item.expires m))
      go true d = b
      go false true = b
      go false false = write-Bounded key replacement item.expires m (ground (arith, e)) b

-- The entries that have not expired.
abbrev pub live_entries : ℕ → Memory → ℕ
live_entries now m = length (keep (λ k item. is_live now item) m.items)

-- A write of an encoded value is refused, for want of capacity, exactly when the key has no entry
-- and entries that have not expired take all the room.
pub set_refuses :
    (content : Text) (now : ℕ) (key : Key) (ttl : ℕ) (m : Memory)
    → (set (some content) now key ttl m).0 ≡ (
        if not (is_some (lookup key m.items)) && leb m.limit (live_entries now m)
        then Outcome.fail capacity
        else Outcome.done tt)
unfolding set evict_expired
set_refuses content now key ttl m =
    ground (arith, length-keep-le (λ k item. is_live now item) m.items)
