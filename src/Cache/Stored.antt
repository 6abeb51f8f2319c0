-- ===== src/Cache/Stored.antt =====
-- What a write through a namespace that was not refused leaves in the cache.
use furtalk.Base.{ℕ, ◌+◌, ◌<◌, ◌≡◌, refl, subst, ◌∙◌, true, some, arith}
use furtalk.Base.Equality.{text_eq, nat_eq, list_beq_iff}
use furtalk.Base.Assoc.{Key, lookup, Distinct}
use furtalk.Domain.Entities.{Text}
use furtalk.Cache.{Outcome, Item, Memory}
use furtalk.Cache.Namespace.{Namespace, is_valid, key_in, namespace_set}
use furtalk.Cache.Ttl
use furtalk.Cache.Calls.{reply_of, nothing}
use furtalk.Cache.Ttl.{TtlMap, assign}
use furtalk.Cache.Reads.{Follows}
use furtalk.Cache.Writes.{namespace_set-Stores}
use furtalk.Cache.Shown.{only-some, Shows, Shows-current}

module _ (ns : Namespace) (suffix content : Text) (now ttl : ℕ) (m m' : Memory) where
  pub namespace_set-valid :
      namespace_set ns suffix (some content) now ttl m ≡ (Outcome.done tt, m')
      → (is_valid ns ≡ true) × (0 < ttl)
  unfolding namespace_set
  namespace_set-valid e = ground (arith, e)

  -- The entry is there, with the time at which it expires.
  pub namespace_set-stored :
      Distinct m.items
      → namespace_set ns suffix (some content) now ttl m ≡ (Outcome.done tt, m')
      → lookup (key_in ns suffix) m'.items
        ≡ some (record { content = content; expires = now + ttl })
  namespace_set-stored d e =
      only-some now (lookup key m'.items) item
        (Shows-current key shown ∙ ground (arith, (namespace_set-valid e).1, list_beq_iff key key))
    where
      key : Key
      key = key_in ns suffix

      item : Item
      item = record { content = content; expires = now + ttl }

      before : TtlMap
      before k = lookup k m.items

      shown : Shows now m'.items (assign key (some item) before)
      shown =
          (subst
            (λ r.
              Follows now (reply_of (λ _. nothing) r)
                (Ttl.stored (reply_of (λ _. nothing) r).0 key content (now + ttl) before))
            e
            (namespace_set-Stores ns suffix content ttl m
              (record { distinct = d; seen = λ wait k. refl }))).shows
