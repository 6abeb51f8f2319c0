-- ===== src/Onetime.antt =====
-- internal/platform/onetime/onetime.go: credentials that can be tried a few times and are consumed
-- once, kept in a namespace of the cache. Between the read of a record and the exchange that follows
-- it the lock is free: `Turn` says what other calls do to the cache then, and when the clock is read.
pub mod Rounds
pub mod Ending
pub mod Guess
pub mod Guesses
use furtalk.Base.{
  ℕ, ◌+◌, Bool, true, false, not, ◌&&◌, ◌||◌, Option, none, some, List, [], ◌∷◌, ltb, leb,
  if◌then◌else◌,
}
use furtalk.Base.Equality.{◌==◌, text_eq, nat_eq}
use furtalk.Domain.Entities.{Text}
use furtalk.Cache.{Outcome, Memory, not_found, cancelled}
use furtalk.Cache.Namespace.{
  Namespace, namespace_set, namespace_delete, namespace_get_raw_json,
  namespace_compare_and_swap_json, namespace_compare_and_delete_json,
}

pub record Record : Type 0 where
  pub hash : Text
  pub attempts : ℕ
  pub expires_at : ℕ

pub data VerifyResult : Type 0 where
  consumed attempted invalid : VerifyResult

-- The namespace of a store, and its codec of JSON.
pub record Backend : Type 0 where
  pub space : Namespace
  pub encode : Record → Text
  pub decode : Text → Option Record
  pub is_json : Text → Bool

abbrev pub is_valid_record : Record → Bool
is_valid_record r = not (r.hash == []) && not (r.expires_at == 0)

-- One round of the loop: the state of the context, three readings of the clock, and what happens to
-- the cache between the read and the exchange.
pub record Turn : Type 0 where
  pub live : Bool
  pub read_at : ℕ
  pub checked_at : ℕ
  pub exchanged_at : ℕ
  pub others : Memory → Memory

-- A round returns, or goes round again.
pub data Round : Type 0 where
  decided : Outcome VerifyResult → Round
  again : Round

module _ (b : Backend) where
  -- `now` is the reading for the record, `stored_at` that of the cache.
  unfoldable pub issue : Bool → ℕ → ℕ → Text → Text → ℕ → Memory → Outcome (Unit {0}) × Memory
  issue false now stored_at key digest ttl m = (Outcome.fail cancelled, m)
  issue true now stored_at key digest ttl m =
      namespace_set b.space key
        (some (b.encode (record { hash = digest; attempts = 0; expires_at = now + ttl }))) stored_at
        ttl m

  unfoldable pub revoke : Text → Memory → Outcome (Unit {0}) × Memory
  revoke key = namespace_delete b.space key

  -- What an exchange that took place, or did not, means for the loop.
  abbrev pub settle : VerifyResult → Outcome Bool × Memory → Round × Memory
  settle v (Outcome.fail e, m) = (decided (Outcome.fail e), m)
  settle v (Outcome.done true, m) = (decided (Outcome.done v), m)
  settle v (Outcome.done false, m) = (again, m)

  module _ (key : Text) where
    abbrev pub delete_then : VerifyResult → Turn → Text → Memory → Round × Memory
    delete_then v t raw m =
        settle v (namespace_compare_and_delete_json b.space t.live t.exchanged_at key raw m)

    abbrev pub record_attempt : Turn → Text → Record → Memory → Round × Memory
    record_attempt t raw r m = settle attempted (
        namespace_compare_and_swap_json b.space b.is_json t.live t.exchanged_at key raw
          (b.encode (record r { attempts = r.attempts + 1 })) m)

  module _ (key submitted : Text) (max_attempts : ℕ) where
    unfoldable pub judge : Turn → Text → Option Record → Memory → Round × Memory
    judge t raw none m = delete_then key invalid t raw m
    judge t raw (some r) m =
        if not (is_valid_record r)
        then delete_then key invalid t raw m
        else if not (ltb t.checked_at r.expires_at) || leb max_attempts r.attempts
        then delete_then key invalid t raw m
        else if r.hash == submitted
        then delete_then key consumed t raw m
        else if leb max_attempts (r.attempts + 1)
        then delete_then key invalid t raw m
        else record_attempt key t raw r m

    abbrev pub judge_read : Turn → Outcome Text × Memory → Round × Memory
    judge_read t (Outcome.fail not_found, m) = (decided (Outcome.done invalid), m)
    judge_read t (Outcome.fail e, m) = (decided (Outcome.fail e), m)
    judge_read t (Outcome.done raw, m) = judge t raw (b.decode raw) (t.others m)

    unfoldable pub turn : Turn → Memory → Round × Memory
    unfolding judge
    turn t m =
        if not t.live
        then (decided (Outcome.fail cancelled), m)
        else judge_read t (namespace_get_raw_json b.space t.live t.read_at key m)

    -- The loop, for as many rounds as there are turns.
    unfoldable pub verify_and_consume : List Turn → Memory → Option (Outcome VerifyResult) × Memory
    unfolding turn
    verify_and_consume [] m = (none, m)
    verify_and_consume (t ∷ rest) m =
        let (r, m') = turn t m in
        elim r [ decided answer ↦ (some answer, m') | again ↦ verify_and_consume rest m' ]
