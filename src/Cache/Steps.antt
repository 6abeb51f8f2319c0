-- ===== src/Cache/Steps.antt =====
-- Each call of the cache follows the map, in its three forms: cancelled, without an entry, with one.
use furtalk.Base.{subst, ℕ, ◌+◌, ◌≡◌, refl, Bool, true, false, Option, none, if◌then◌else◌}
use furtalk.Base.Equality.{text_eq, nat_eq}
use furtalk.Base.Assoc.{Key, remove}
use furtalk.Domain.Entities.{Text}
use furtalk.Cache.{
  Outcome, Item, Memory, fresh, invalid_namespace, consume_item, erase_item, get, get_raw_json,
  get_or_load, compare_and_swap_json,
}
use furtalk.Cache.Namespace.{Namespace, is_valid, checked}
use furtalk.Cache.Calls.{Reader, Codec, Reply, text, flag, Answer, reply_of}
use furtalk.Cache.Ttl.{
  TtlMap, raw, read_by, found, erased_if, swapped, in_valid, if_live, reloaded, current, assign,
}
use furtalk.Cache.Shown.{Shows, Shows-current}
use furtalk.Cache.Reads.{
  Follows, Follows-later, live-Follows, read_item-Follows, get_item-Follows, consume_item-Follows,
  erase_item-Follows, swap_item-Follows,
}
use furtalk.Cache.Loads.{or_load-Follows}

module _ {now : ℕ} {a : TtlMap} (m : Memory) (s : Shows now m.items a) where
  -- Calls of a namespace that is not valid do nothing.
  pub checked-Follows :
      {T : Type 0} (f : T → Reply) (ns : Namespace) (call : Memory → Outcome T × Memory)
      (r : Answer × TtlMap)
      → Follows now (reply_of f (call m)) r
      → Follows now (reply_of f (checked ns call m)) (in_valid ns a r)
  checked-Follows {T} f ns call r k = go (is_valid ns)
    where
      go :
          (b : Bool)
          → Follows now
              (reply_of f (if b then call m else (Outcome.fail invalid_namespace, m)))
              (if b then r else (Outcome.fail invalid_namespace, a))
      go true = k
      go false = record { same_answer = refl; shows = s }

  -- The option that the cache finds is the one that the map has.
  with_current :
      {time : ℕ} (key : Key) (r : Answer × Memory) (spec : Option Item → Answer × TtlMap)
      → Follows time r (spec (fresh now key m))
      → Follows time r (spec (current now key a))
  with_current {time} key r spec k = subst (λ o. Follows time r (spec o)) (Shows-current key s) k

  pub get-Follows :
      (reader : Reader) (live : Bool) (key : Key)
      → Follows now
          (reply_of text (get reader live now key m))
          (if_live live a (found (read_by reader) (current now key a) a a))
  unfolding get
  get-Follows reader live key =
      live-Follows m s text live (λ live. get reader live now key m) _ refl
        (with_current key _ (λ o. found (read_by reader) o a a)
          (get_item-Follows m s reader key (fresh now key m) refl))

  pub get_raw_json-Follows :
      (live : Bool) (key : Key)
      → Follows now
          (reply_of text (get_raw_json live now key m))
          (if_live live a (found raw (current now key a) a a))
  unfolding get_raw_json
  get_raw_json-Follows live key =
      live-Follows m s text live (λ live. get_raw_json live now key m) _ refl
        (with_current key _ (λ o. found raw o a a)
          (read_item-Follows m s key (fresh now key m) refl))

  pub compare_and_swap_json-Follows :
      (codec : Codec) (live : Bool) (key : Key) (expected replacement : Text)
      → Follows now
          (reply_of flag (compare_and_swap_json codec.is_json live now key expected replacement m))
          (if_live live a (swapped codec key expected replacement (current now key a) a))
  unfolding compare_and_swap_json
  compare_and_swap_json-Follows codec live key expected replacement =
      live-Follows m s flag live
        (λ live. compare_and_swap_json codec.is_json live now key expected replacement m) _ refl
        (with_current key _ (λ o. swapped codec key expected replacement o a)
          (swap_item-Follows m s codec key expected replacement (fresh now key m) refl))

  -- An entry that is taken out, by `left`, if it has the expected value.
  pub erasure-Follows :
      (key : Key) (expected : Text) (left : Memory)
      → left.items ≡ remove key m.items
      → Follows now
          (reply_of flag (erase_item key expected (fresh now key m) m left))
          (erased_if expected (current now key a) a (assign key none a))
  erasure-Follows key expected left l =
      with_current key _ (λ o. erased_if expected o a (assign key none a))
        (erase_item-Follows m s key expected (fresh now key m) left refl l)

  pub consumption-Follows :
      (reader : Reader) (key : Key) (left : Memory)
      → left.items ≡ remove key m.items
      → Follows now
          (reply_of text (consume_item reader (fresh now key m) left))
          (found (read_by reader) (current now key a) a (assign key none a))
  consumption-Follows reader key left l =
      with_current key _ (λ o. found (read_by reader) o a (assign key none a))
        (consume_item-Follows m s reader key (fresh now key m) left refl l)

  pub get_or_load-Follows :
      (reader : Reader) (live : Bool) (key : Key) (extra ttl : ℕ) (result : Outcome (Option Text))
      → let r = reply_of text (get_or_load reader live now (now + extra) key ttl result m) in
        Follows (now + extra) r (
          if_live live a (reloaded r.0 reader key (now + extra + ttl) result (current now key a) a))
  unfolding get_or_load get
  get_or_load-Follows reader false key extra ttl result =
      Follows-later extra (record { same_answer = refl; shows = s })
  get_or_load-Follows reader true key extra ttl result =
      with_current key _
        (λ o.
          reloaded (reply_of text (get_or_load reader true now (now + extra) key ttl result m)).0
            reader key (now + extra + ttl) result o a)
        (or_load-Follows m s reader key extra ttl result (fresh now key m) refl)
