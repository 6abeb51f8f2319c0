-- ===== src/Cache/Loads.antt =====
-- GetOrLoad follows the map: a value that is there is read, and if there is none, the loaded one is
-- written and read.
use furtalk.Base.{
  subst, ℕ, ◌+◌, ◌≡◌, refl, Bool, true, false, Option, none, some, leb, is_some, not, ◌&&◌,
  if◌then◌else◌, arith,
}
use furtalk.Base.Equality.{text_eq, nat_eq}
use furtalk.Base.Assoc.{Key, lookup}
use furtalk.Domain.Entities.{Text}
use furtalk.Cache.{
  Outcome, Item, Memory, fresh, delete, capacity, set, get_item, read_back, load_into, or_load,
  opened,
}
use furtalk.Cache.Bounds.{live_entries, set_refuses}
use furtalk.Cache.Calls.{Reader, text, answer_of, reply_of}
use furtalk.Cache.Ttl.{TtlMap, assign, is_refusal, valued, reloaded}
use furtalk.Cache.Shown.{Shows, Shows-remove_stale, Shows-later}
use furtalk.Cache.Reads.{Follows}
use furtalk.Cache.Writes.{Stores, set-Stores}

module _ {now : ℕ} (a : TtlMap) (reader : Reader) (key : Key) where
  -- What GetOrLoad makes of its write, which is refused for want of capacity alone.
  read_back-Follows :
      (content : Text) (expires : ℕ) (r : Outcome (Unit {0}) × Memory) (full : Bool)
      → r.0 ≡ (if full then Outcome.fail capacity else Outcome.done tt)
      → Stores now key content expires a r
      → Follows now (reply_of text (read_back reader (some content) r)) (
          reloaded
            (answer_of text (read_back reader (some content) r).0)
            reader
            key
            expires
            (Outcome.done (some content))
            none
            a)
  read_back-Follows content expires (Outcome.fail e, m) true q s =
      subst
        (λ e.
          Follows now (Outcome.fail e, m)
            (reloaded (Outcome.fail e) reader key expires (Outcome.done (some content)) none a))
        (let p : capacity ≡ e = ground (arith, q) in p)
        (record { same_answer = refl; shows = s.shows })
  read_back-Follows content expires (Outcome.fail e, m) false q s = absurd (ground (arith, q))
  read_back-Follows content expires (Outcome.done u, m) full q s = opens (reader content)
    where
      opens :
          (o : Option Text)
          → Follows now
              (answer_of text (opened reader o), m)
              (if is_refusal (answer_of text (opened reader o))
                then (Outcome.fail capacity, a)
                else (
                  answer_of text (opened reader o),
                  assign key (some (valued content expires)) a,
                ))
      opens none = record { same_answer = refl; shows = s.shows }
      opens (some x) = record { same_answer = refl; shows = s.shows }

  load_into-Follows :
      (ttl : ℕ) (result : Outcome (Option Text)) (m : Memory)
      → Shows now m.items a
      → Follows now (reply_of text (load_into reader now key ttl result m)) (
          reloaded
            (answer_of text (load_into reader now key ttl result m).0)
            reader
            key
            (now + ttl)
            result
            none
            a)
  unfolding set
  load_into-Follows ttl (Outcome.fail e) m s = record { same_answer = refl; shows = s }
  load_into-Follows ttl (Outcome.done none) m s = record { same_answer = refl; shows = s }
  load_into-Follows ttl (Outcome.done (some content)) m s =
      read_back-Follows content (now + ttl) (set (some content) now key ttl m)
        (not (is_some (lookup key m.items)) && leb m.limit (live_entries now m))
        (set_refuses content now key ttl m) (set-Stores key content ttl m s)

module _ {now : ℕ} {a : TtlMap} (m : Memory) (s : Shows now m.items a) where
  -- The value is looked for now, and written after the time that loading takes.
  pub or_load-Follows :
      (reader : Reader) (key : Key) (extra ttl : ℕ) (result : Outcome (Option Text))
      (o : Option Item)
      → fresh now key m ≡ o
      → let r =
          or_load reader
            (load_into reader (now + extra) key ttl result)
            (get_item reader key o m) in
        Follows
          (now + extra)
          (reply_of text r)
          (reloaded (answer_of text r.0) reader key (now + extra + ttl) result o a)
  unfolding delete
  or_load-Follows reader key extra ttl result none e =
      load_into-Follows a reader key ttl result (delete key m)
        (Shows-later extra (Shows-remove_stale key e s))
  or_load-Follows reader key extra ttl result (some item) e = opens (reader item.content)
    where
      opens :
          (d : Option Text)
          → Follows
              (now + extra)
              (reply_of text (
                or_load reader
                  (load_into reader (now + extra) key ttl result)
                  (opened reader d, m)))
              (answer_of text (opened reader d), a)
      opens none = record { same_answer = refl; shows = Shows-later extra s }
      opens (some x) = record { same_answer = refl; shows = Shows-later extra s }
