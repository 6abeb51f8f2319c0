-- ===== src/Cache/Writes.antt =====
-- The calls that write entries follow the map, unless they are refused.
use furtalk.Base.{
  ℕ, ◌+◌, ◌≡◌, refl, Bool, true, false, not, ◌&&◌, Option, none, some, ltb, is_some, if◌then◌else◌,
  any, leb,
}
use furtalk.Base.Equality.{◌==◌, text_eq, nat_eq}
use furtalk.Base.Assoc.{Key, lookup, insert, remove}
use furtalk.Domain.Entities.{Text}
use furtalk.Cache.{
  Outcome, Item, Memory, fresh, set, invalid_namespace, invalid_ttl, capacity, write, write_if_room,
  is_full, evict_expired,
}
use furtalk.Cache.Namespace.{
  Namespace, is_valid, key_in, is_member, prune, set_untracked, set_item, admit_if_room, leave,
  memory_set, namespace_set, used, admit, enter,
}
use furtalk.Cache.Calls.{nothing, reply_of}
use furtalk.Cache.Ttl.{TtlMap, stored, assign}
use furtalk.Cache.Shown.{Shows, Shows-insert, Shows-remove_stale, evicted-Shows, pruned-Shows}
use furtalk.Cache.Reads.{Follows}

-- A write that the cache may refuse.
abbrev pub Stores : ℕ → Key → Text → ℕ → TtlMap → Outcome (Unit {0}) × Memory → Type 0
Stores now key content expires a r =
    Follows now (reply_of (λ _. nothing) r)
      (stored (reply_of (λ _. nothing) r).0 key content expires a)

module _ {now : ℕ} {a : TtlMap} (key : Key) (content : Text) (expires : ℕ) where
  pub written-Stores :
      (m : Memory)
      → Shows now m.items a
      → Stores now key content expires a (Outcome.done tt, write key content expires m)
  written-Stores m s = record {
    same_answer = refl;
    shows = Shows-insert key (record { content = content; expires = expires }) s;
  }

  pub write_if_room-Stores :
      (m : Memory)
      → Shows now m.items a
      → Stores now key content expires a (write_if_room key content expires m)
  write_if_room-Stores m s = go (is_full m)
    where
      go :
          (b : Bool)
          → Stores now key content expires a (
              if b
              then (Outcome.fail capacity, m)
              else (Outcome.done tt, write key content expires m))
      go true = record { same_answer = refl; shows = s }
      go false = written-Stores m s

  pub admit_if_room-Stores :
      (name : Text) (m : Memory)
      → Shows now m.items a
      → Stores now key content expires a (admit_if_room name key content expires m)
  admit_if_room-Stores name m s = go (is_full m)
    where
      go :
          (b : Bool)
          → Stores now key content expires a
              (if b then (Outcome.fail capacity, m) else admit name key content expires m)
      go true = record { same_answer = refl; shows = s }
      go false = record {
        same_answer = refl;
        shows = Shows-insert key (record { content = content; expires = expires }) s;
      }

module _ {now : ℕ} {a : TtlMap} (key : Key) (content : Text) (ttl : ℕ) where
  pub set-Stores :
      (m : Memory)
      → Shows now m.items a
      → Stores now key content (now + ttl) a (set (some content) now key ttl m)
  unfolding set
  set-Stores m s = go (not (is_some (lookup key m.items)) && is_full m)
    where
      go :
          (b : Bool)
          → Stores now key content (now + ttl) a (
              if b
              then write_if_room key content (now + ttl) (evict_expired now m)
              else (Outcome.done tt, write key content (now + ttl) m))
      go true =
          write_if_room-Stores key content (now + ttl) (evict_expired now m) (evicted-Shows m s)
      go false = written-Stores key content (now + ttl) m s

  pub set_untracked-Stores :
      (name : Text) (limit : ℕ) (m : Memory)
      → Shows now m.items a
      → Stores now key content (now + ttl) a (set_untracked name key content now ttl limit m)
  unfolding set_untracked
  set_untracked-Stores name limit m s = go (leb limit (used name m)) (is_full m)
    where
      go :
          (b c : Bool)
          → Stores now key content (now + ttl) a (
              if b
              then (Outcome.fail capacity, m)
              else if c
              then admit_if_room name key content (now + ttl) (evict_expired now m)
              else admit name key content (now + ttl) m)
      go true c = record { same_answer = refl; shows = s }
      go false true =
          admit_if_room-Stores key content (now + ttl) name (evict_expired now m)
            (evicted-Shows m s)
      go false false = record {
        same_answer = refl;
        shows = Shows-insert key (record { content = content; expires = now + ttl }) s;
      }

  pub set_item-Stores :
      (name : Text) (limit : ℕ) (o : Option Item) (m : Memory)
      → fresh now key m ≡ o
      → Shows now m.items a
      → Stores now key content (now + ttl) a (set_item name key content now ttl limit o m)
  set_item-Stores name limit none m e s =
      set_untracked-Stores name limit (record (leave name key m) { items = remove key m.items })
        (Shows-remove_stale key e s)
  set_item-Stores name limit (some item) m e s =
      go (any (λ x. is_member name key x && ltb now x.expires) m.members) (leb limit (used name m))
    where
      shown :
          Shows now
            (insert key (record { content = content; expires = now + ttl }) m.items)
            (assign key (some (record { content = content; expires = now + ttl })) a)
      shown = Shows-insert key (record { content = content; expires = now + ttl }) s

      go :
          (b c : Bool)
          → Stores now key content (now + ttl) a (
              if b
              then admit name key content (now + ttl) m
              else if c
              then (Outcome.fail capacity, m)
              else admit name key content (now + ttl) (enter name key item.expires m))
      go true c = record { same_answer = refl; shows = shown }
      go false true = record { same_answer = refl; shows = s }
      go false false = record { same_answer = refl; shows = shown }

  pub memory_set-Stores :
      (name : Text) (limit : ℕ) (m : Memory)
      → Shows now m.items a
      → Stores now key content (now + ttl) a (memory_set name key (some content) now ttl limit m)
  unfolding memory_set
  memory_set-Stores name limit m s =
      set_item-Stores name limit (fresh now key (prune name now m)) (prune name now m) refl
        (pruned-Shows name m s)

pub namespace_set-Stores :
    {now : ℕ} {a : TtlMap} (ns : Namespace) (suffix content : Text) (ttl : ℕ) (m : Memory)
    → Shows now m.items a
    → Stores now
        (key_in ns suffix)
        content
        (now + ttl)
        a
        (namespace_set ns suffix (some content) now ttl m)
unfolding namespace_set
namespace_set-Stores {now} {a} ns suffix content ttl m s = go (is_valid ns) (ttl == 0)
  where
    go :
        (b c : Bool)
        → Stores now (key_in ns suffix) content (now + ttl) a (
            if b
            then if c
              then (Outcome.fail invalid_ttl, m)
              else memory_set ns.name (key_in ns suffix) (some content) now ttl ns.limit m
            else (Outcome.fail invalid_namespace, m))
    go true true = record { same_answer = refl; shows = s }
    go true false = memory_set-Stores (key_in ns suffix) content ttl ns.name ns.limit m s
    go false c = record { same_answer = refl; shows = s }
