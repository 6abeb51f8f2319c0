-- ===== src/Cache/Shown.antt =====
-- The entries of the cache, seen as the map with times.
use furtalk.Base.{subst, ℕ, ◌+◌, ◌≡◌, refl, Bool, true, Option, none, some, List, arith}
use furtalk.Base.Equality.{text_eq, nat_eq, list_beq_iff}
use furtalk.Base.Assoc.{
  Key, lookup, insert, remove, keep, only, Distinct, lookup-insert_self, lookup-insert_other,
  lookup-remove_self, lookup-remove_other, lookup-keep, Distinct-insert, Distinct-remove,
  Distinct-keep,
}
use furtalk.Domain.Entities.{Text}
use furtalk.Cache.{Item, Memory, is_live, evict_expired}
use furtalk.Cache.Namespace.{prune}
use furtalk.Cache.Ttl.{TtlMap, current, assign}

pub only-some :
    (now : ℕ) (o : Option Item) (item : Item) → only (is_live now) o ≡ some item → o ≡ some item
only-some now none item e = absurd (ground arith)
only-some now (some x) item e = ground (arith, e)

abbrev pub Items : Type 0
Items = List (Key × Item)

-- From now on the entries that have not expired are those of the map.
pub record Shows (now : ℕ) (items : Items) (a : TtlMap) : Type 0 where
  pub distinct : Distinct items
  pub seen :
      (wait : ℕ) (k : Key) → only (is_live (now + wait)) (lookup k items) ≡ current (now + wait) k a

module _ {now : ℕ} {items : Items} {a : TtlMap} where
  pub Shows-insert :
      (key : Key) (item : Item)
      → Shows now items a
      → Shows now (insert key item items) (assign key (some item) a)
  Shows-insert key item s = record {
    distinct = Distinct-insert key item items s.distinct;
    seen = λ wait k. ground (
      arith,
      s.seen wait k,
      lookup-insert_self key item items,
      lookup-insert_other key k item items,
      list_beq_iff key k,
    );
  }

  pub Shows-remove :
      (key : Key) → Shows now items a → Shows now (remove key items) (assign key none a)
  Shows-remove key s = record {
    distinct = Distinct-remove key items s.distinct;
    seen = λ wait k. ground (
      arith,
      s.seen wait k,
      lookup-remove_self key items,
      lookup-remove_other key k items,
      list_beq_iff key k,
    );
  }

  -- An entry that has expired may go.
  pub Shows-remove_stale :
      (key : Key)
      → only (is_live now) (lookup key items) ≡ none
      → Shows now items a
      → Shows now (remove key items) a
  Shows-remove_stale key e s = record {
    distinct = Distinct-remove key items s.distinct;
    seen = λ wait k. ground (
      arith,
      s.seen wait k,
      lookup-remove_self key items,
      lookup-remove_other key k items,
      list_beq_iff key k,
    );
  }

  pub Shows-keep :
      (p : Key → Item → Bool)
      → ((k : Key) (item : Item) → is_live now item ≡ true → p k item ≡ true)
      → Shows now items a
      → Shows now (keep p items) a
  Shows-keep p live s = record {
    distinct = Distinct-keep p items s.distinct;
    seen = λ wait k. kept wait k (lookup k items) refl;
  }
    where
      kept :
          (wait : ℕ) (k : Key) (o : Option Item)
          → lookup k items ≡ o
          → only (is_live (now + wait)) (lookup k (keep p items)) ≡ current (now + wait) k a
      kept wait k none e = ground (arith, s.seen wait k, lookup-keep p k items s.distinct)
      kept wait k (some item) e =
          ground (arith, s.seen wait k, lookup-keep p k items s.distinct, live k item)

  pub Shows-later : (wait : ℕ) → Shows now items a → Shows (now + wait) items a
  Shows-later wait s = record {
    distinct = s.distinct;
    seen = λ wait' k.
        subst (λ t. only (is_live t) (lookup k items) ≡ current t k a)
          (let e : now + (wait + wait') ≡ now + wait + wait' = omega arith in e)
          (s.seen (wait + wait') k);
  }

  pub Shows-current :
      (key : Key) → Shows now items a → only (is_live now) (lookup key items) ≡ current now key a
  Shows-current key s =
      subst (λ t. only (is_live t) (lookup key items) ≡ current t key a)
        (let e : now + 0 ≡ now = omega arith in e) (s.seen 0 key)

module _ {now : ℕ} {a : TtlMap} where
  pub evicted-Shows : (m : Memory) → Shows now m.items a → Shows now (evict_expired now m).items a
  unfolding evict_expired
  evicted-Shows m s = Shows-keep (λ k item. is_live now item) (λ k item h. h) s

  pub pruned-Shows :
      (name : Text) (m : Memory) → Shows now m.items a → Shows now (prune name now m).items a
  unfolding prune
  pruned-Shows name m s = Shows-keep _ (λ k item h. ground (arith, h)) s
