-- ===== src/Authorization/Once.antt =====
-- A code is exchanged at most once, whatever else happens to the cache.
use furtalk.Base.{ℕ, ◌≡◌, refl, sym, subst, ap, ◌∙◌, false, none, List, All, arith}
use furtalk.Base.Equality.{text_eq, list_beq_iff}
use furtalk.Base.Assoc.{Key, Distinct, lookup, only}
use furtalk.Domain.Entities.{Text}
use furtalk.Domain.{invalid_credentials}
use furtalk.Store.{Db, err}
use furtalk.Text.{is_blank}
use furtalk.Cache.{Memory, is_live, fresh}
use furtalk.Cache.Namespace.{key_in, released, namespace_consume}
use furtalk.Cache.Calls.{Codec, Event, Answer, run_calls}
use furtalk.Cache.Ttl.{TtlMap, current, assign, spec_calls}
use furtalk.Cache.Absence.{Avoids, spec_calls-absent}
use furtalk.Cache.Shown.{Shows, Shows-current, Shows-remove}
use furtalk.Cache.Refinement.{run_calls-spec_calls, end_of}
use furtalk.Authorization.{Codes, Moment, auth_codes, consume_auth_code, exchange_authorization}

-- The key of a code in the cache.
abbrev pub code_key : Codes → Text → Key
code_key c raw_code = key_in auth_codes (c.digest raw_code)

module _ (c : Codes) (at : Moment) (raw_code origin : Text) (db : Db) (m : Memory) where
  -- Whatever comes of the exchange, the code is gone.
  released-exchange :
      is_blank raw_code ≡ false
      → (exchange_authorization c at raw_code origin db m).1
        ≡ released auth_codes (c.digest raw_code) m
  unfolding exchange_authorization consume_auth_code namespace_consume
  released-exchange h = ground (arith, h)

  refused-exchange :
      is_blank raw_code ≡ false
      → fresh at.cache_now (code_key c raw_code) m ≡ none
      → (exchange_authorization c at raw_code origin db m).0 ≡ err invalid_credentials
  unfolding exchange_authorization consume_auth_code namespace_consume
  refused-exchange h e = ground (arith, h, e)

-- Once a code has been exchanged, with success or not, a later exchange of it fails, whatever the
-- origin and whatever calls of the cache come in between, if none of them writes the code's key.
pub exchange_authorization-once :
    (c : Codes) (codec : Codec) (raw_code : Text) (first later : Moment) (origin other : Text)
    (db left : Db) (m : Memory) (calls : List Event)
    → is_blank raw_code ≡ false
    → Distinct m.items
    → All (λ x. Avoids (code_key c raw_code) x.call) calls
    → later.cache_now ≡ end_of first.cache_now calls
    → (exchange_authorization c later raw_code other left
        (run_calls codec first.cache_now calls
          (exchange_authorization c first raw_code origin db m).1).1).0
      ≡ err invalid_credentials
exchange_authorization-once c codec raw_code first later origin other db left m calls h d u t =
    refused-exchange c later raw_code other left last.1 h
      (subst (λ now. fresh now key last.1 ≡ none) (sym t) (Shows-current key shown ∙ no_current))
  where
    key : Key
    key = code_key c raw_code

    now : ℕ
    now = first.cache_now

    after : Memory
    after = (exchange_authorization c first raw_code origin db m).1

    without : TtlMap
    without = assign key none (λ k. lookup k m.items)

    last : List Answer × Memory
    last = run_calls codec now calls after

    start : Shows now after.items without
    start =
        subst (λ x. Shows now x.items without)
          (sym (released-exchange c first raw_code origin db m h))
          (Shows-remove key (record { distinct = d; seen = λ wait k. refl }))

    end : TtlMap
    end = (spec_calls codec last.0 now calls without).1

    shown : Shows (end_of now calls) last.1.items end
    shown = (run_calls-spec_calls codec now calls after without start).1

    no_current : current (end_of now calls) key end ≡ none
    no_current = ap (only (is_live (end_of now calls))) (
        spec_calls-absent codec key last.0 now calls without u
          (ground (arith, list_beq_iff key key)))
