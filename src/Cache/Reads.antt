-- ===== src/Cache/Reads.antt =====
-- The calls that read or take out entries follow the map.
use furtalk.Base.{
  subst, sym, ℕ, ◌+◌, ◌≡◌, refl, Bool, true, false, not, Option, none, some, is_some, if◌then◌else◌,
}
use furtalk.Base.Equality.{◌==◌, text_eq, nat_eq}
use furtalk.Base.Assoc.{Key, lookup, remove}
use furtalk.Domain.Entities.{Text}
use furtalk.Cache.{
  Outcome, Item, Memory, fresh, delete, invalid_json, cancelled, write, read_item, get_item,
  consume_item, erase_item, swap_item, delete_stale,
}
use furtalk.Cache.Calls.{Reader, Codec, Reply, Answer, text, flag, reply_of}
use furtalk.Cache.Ttl.{TtlMap, raw, read_by, found, erased_if, swapped, assign, if_live}
use furtalk.Cache.Shown.{Shows, Shows-insert, Shows-remove, Shows-remove_stale, Shows-later}

-- The cache and the map answer alike, and what they are left with agrees.
pub record Follows {S : Type 0} (now : ℕ) (r : S × Memory) (spec : S × TtlMap) : Type 0 where
  pub same_answer : r.0 ≡ spec.0
  pub shows : Shows now r.1.items spec.1

pub Follows-later :
    {S : Type 0} {now : ℕ} {r : S × Memory} {spec : S × TtlMap} (wait : ℕ)
    → Follows now r spec
    → Follows (now + wait) r spec
Follows-later wait f = record { same_answer = f.same_answer; shows = Shows-later wait f.shows }

module _ {now : ℕ} (m : Memory) {a : TtlMap} (s : Shows now m.items a) where
  -- A call whose context is cancelled does nothing.
  pub live-Follows :
      {T : Type 0} (f : T → Reply) (live : Bool) (call : Bool → Outcome T × Memory)
      (r : Answer × TtlMap)
      → call false ≡ (Outcome.fail cancelled, m)
      → Follows now (reply_of f (call true)) r
      → Follows now (reply_of f (call live)) (if_live live a r)
  live-Follows f true call r e k = k
  live-Follows f false call r e k =
      subst (λ x. Follows now (reply_of f x) (Outcome.fail cancelled, a)) (sym e)
        (record { same_answer = refl; shows = s })

  pub delete_stale-Shows :
      (key : Key) → fresh now key m ≡ none → Shows now (delete_stale key m).items a
  unfolding delete_stale delete
  delete_stale-Shows key e = go (is_some (lookup key m.items))
    where
      go : (b : Bool) → Shows now (if b then delete key m else m).items a
      go true = Shows-remove_stale key e s
      go false = s

  pub read_item-Follows :
      (key : Key) (o : Option Item)
      → fresh now key m ≡ o
      → Follows now (reply_of text (read_item key o m)) (found raw o a a)
  read_item-Follows key none e = record { same_answer = refl; shows = delete_stale-Shows key e }
  read_item-Follows key (some item) e = record { same_answer = refl; shows = s }

  pub get_item-Follows :
      (reader : Reader) (key : Key) (o : Option Item)
      → fresh now key m ≡ o
      → Follows now (reply_of text (get_item reader key o m)) (found (read_by reader) o a a)
  unfolding delete
  get_item-Follows reader key none e = record {
    same_answer = refl;
    shows = Shows-remove_stale key e s;
  }
  get_item-Follows reader key (some item) e = record { same_answer = refl; shows = s }

  pub consume_item-Follows :
      (reader : Reader) (key : Key) (o : Option Item) (left : Memory)
      → fresh now key m ≡ o
      → left.items ≡ remove key m.items
      → Follows now
          (reply_of text (consume_item reader o left))
          (found (read_by reader) o a (assign key none a))
  consume_item-Follows reader key none left e l = record {
    same_answer = refl;
    shows = subst (λ x. Shows now x a) (sym l) (Shows-remove_stale key e s);
  }
  consume_item-Follows reader key (some item) left e l = record {
    same_answer = refl;
    shows = subst (λ x. Shows now x (assign key none a)) (sym l) (Shows-remove key s);
  }

  pub erase_item-Follows :
      (key : Key) (expected : Text) (o : Option Item) (left : Memory)
      → fresh now key m ≡ o
      → left.items ≡ remove key m.items
      → Follows now
          (reply_of flag (erase_item key expected o m left))
          (erased_if expected o a (assign key none a))
  erase_item-Follows key expected none left e l = record {
    same_answer = refl;
    shows = delete_stale-Shows key e;
  }
  erase_item-Follows key expected (some item) left e l = go (item.content == expected)
    where
      go :
          (b : Bool)
          → Follows now
              (reply_of flag (if b then (Outcome.done true, left) else (Outcome.done false, m)))
              (if b
                then (Outcome.done (flag true), assign key none a)
                else (Outcome.done (flag false), a))
      go false = record { same_answer = refl; shows = s }
      go true = record {
        same_answer = refl;
        shows = subst (λ x. Shows now x (assign key none a)) (sym l) (Shows-remove key s);
      }

  pub swap_item-Follows :
      (codec : Codec) (key : Key) (expected replacement : Text) (o : Option Item)
      → fresh now key m ≡ o
      → Follows now
          (reply_of flag (swap_item codec.is_json key expected replacement o m))
          (swapped codec key expected replacement o a)
  swap_item-Follows codec key expected replacement none e = record {
    same_answer = refl;
    shows = delete_stale-Shows key e;
  }
  swap_item-Follows codec key expected replacement (some item) e =
      go (not (item.content == expected)) (not (codec.is_json replacement))
    where
      go :
          (b c : Bool)
          → Follows now
              (reply_of flag (
                if b
                then (Outcome.done false, m)
                else if c
                then (Outcome.fail invalid_json, m)
                else (Outcome.done true, write key replacement item.expires m)))
              (if b
                then (Outcome.done (flag false), a)
                else if c
                then (Outcome.fail invalid_json, a)
                else (
                  Outcome.done (flag true),
                  assign key (some (record item { content = replacement })) a,
                ))
      go true c = record { same_answer = refl; shows = s }
      go false true = record { same_answer = refl; shows = s }
      go false false = record {
        same_answer = refl;
        shows = Shows-insert key (record item { content = replacement }) s;
      }
