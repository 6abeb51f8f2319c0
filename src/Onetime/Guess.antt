-- ===== src/Onetime/Guess.antt =====
-- One verification of a one-time credential, by what the cache has under its key.
use furtalk.Base.{
  ℕ, ◌+◌, ◌<◌, ◌≡◌, ap, ◌∙◌, true, false, Option, none, some, List, [], ◌∷◌, leb, arith,
}
use furtalk.Base.Equality.{text_eq, nat_eq, list_beq, list_beq_iff}
use furtalk.Base.Assoc.{lookup}
use furtalk.Domain.Entities.{Text}
use furtalk.Cache.{Outcome, Item, Memory, write, delete_stale}
use furtalk.Cache.Namespace.{is_valid, key_in, released}
use furtalk.Onetime.{
  Backend, Record, VerifyResult, consumed, attempted, invalid, Turn, decided, delete_then,
  record_attempt, judge, turn, verify_and_consume, is_valid_record,
}
use furtalk.Onetime.Rounds.{
  IsQuiet, turn-absent, turn-present, compare_and_delete_lem, compare_and_swap_lem,
}

-- The codec of JSON: an encoded record is JSON and decodes to itself.
pub record Codec (b : Backend) : Type 0 where
  pub decodes : (r : Record) → b.decode (b.encode r) ≡ some r
  pub encodes : (r : Record) → b.is_json (b.encode r) ≡ true

-- A quiet round before the entry of the cache and the record in it expire.
pub record InTime (entry_end record_end : ℕ) (t : Turn) : Type 0 where
  pub quiet : IsQuiet t
  pub read_in_time : t.read_at < entry_end
  pub checked_in_time : t.checked_at < record_end
  pub exchanged_in_time : t.exchanged_at < entry_end

abbrev pub entry : Backend → Record → ℕ → Item
entry b r expires = record { content = b.encode r; expires = expires }

abbrev pub counted : Record → Record
counted r = record r { attempts = r.attempts + 1 }

module _ (b : Backend) (key : Text) where
  abbrev pub IsStored : ℕ → Record → Memory → Type 0
  IsStored expires r m = lookup (key_in b.space key) m.items ≡ some (entry b r expires)

  abbrev pub IsMissing : Memory → Type 0
  IsMissing m = lookup (key_in b.space key) m.items ≡ none

  -- A verification of one round: its answer, and the cache that it leaves.
  abbrev pub guess : ℕ → Text → Turn → Memory → Option (Outcome VerifyResult) × Memory
  guess max_attempts submitted t m = verify_and_consume b key submitted max_attempts (t ∷ []) m

  -- Guesses one after the other.
  abbrev pub guess_all : ℕ → List (Text × Turn) → Memory → Memory
  guess_all max_attempts [] m = m
  guess_all max_attempts ((submitted, t) ∷ rest) m =
      guess_all max_attempts rest (guess max_attempts submitted t m).1

-- A digest that is not the record's, in time.
abbrev pub IsWrong : ℕ → Record → Text × Turn → Type 0
IsWrong expires r (submitted, t) =
    (list_beq r.hash submitted ≡ false) × InTime expires r.expires_at t

module _ (b : Backend) (codec : Codec b) (valid : is_valid b.space ≡ true) (key : Text)
    (max_attempts expires : ℕ) where
  -- A value that is there is taken out.
  taken :
      (v : VerifyResult) (t : Turn) (r : Record) (m : Memory)
      → InTime expires r.expires_at t
      → IsStored b key expires r m
      → delete_then b key v t (b.encode r) m ≡ (decided (Outcome.done v), released b.space key m)
  taken v t r m i s = ground (
    arith,
    i.quiet.is_live,
    i.exchanged_in_time,
    s,
    compare_and_delete_lem b key m valid t.live i.quiet.is_live t.exchanged_at (b.encode r),
    list_beq_iff (b.encode r) (b.encode r),
  )

  recorded :
      (t : Turn) (r : Record) (m : Memory)
      → InTime expires r.expires_at t
      → IsStored b key expires r m
      → record_attempt b key t (b.encode r) r m ≡ (
        decided (Outcome.done attempted),
        write (key_in b.space key) (b.encode (counted r)) expires m,
      )
  recorded t r m i s = ground (
    arith,
    i.quiet.is_live,
    i.exchanged_in_time,
    s,
    codec.encodes (counted r),
    compare_and_swap_lem b key m valid t.live i.quiet.is_live t.exchanged_at (b.encode r)
        (b.encode (counted r)) (codec.encodes (counted r)),
    list_beq_iff (b.encode r) (b.encode r),
  )

  turn-IsStored :
      (submitted : Text) (t : Turn) (r : Record) (m : Memory)
      → InTime expires r.expires_at t
      → IsStored b key expires r m
      → turn b key submitted max_attempts t m
        ≡ judge b key submitted max_attempts t (b.encode r) (some r) m
  turn-IsStored submitted t r m i s =
      turn-present b key submitted max_attempts t m i.quiet.is_live (entry b r expires) valid
        i.quiet.alone (ground (arith, s, i.read_in_time))
      ∙ ap (λ o. judge b key submitted max_attempts t (b.encode r) o m) (codec.decodes r)

  pub right_guess :
      (submitted : Text) (t : Turn) (r : Record) (m : Memory)
      → InTime expires r.expires_at t
      → IsStored b key expires r m
      → is_valid_record r ≡ true
      → r.attempts < max_attempts
      → r.hash ≡ submitted
      → guess b key max_attempts submitted t m
        ≡ (some (Outcome.done consumed), released b.space key m)
  unfolding verify_and_consume judge
  right_guess submitted t r m i s v a h = ground (
    arith,
    turn-IsStored submitted t r m i s,
    taken consumed t r m i s,
    i.checked_in_time,
    v,
    a,
    list_beq_iff r.hash submitted,
    h,
  )

  pub last_guess :
      (submitted : Text) (t : Turn) (r : Record) (m : Memory)
      → InTime expires r.expires_at t
      → IsStored b key expires r m
      → is_valid_record r ≡ true
      → r.attempts < max_attempts
      → list_beq r.hash submitted ≡ false
      → leb max_attempts (r.attempts + 1) ≡ true
      → guess b key max_attempts submitted t m
        ≡ (some (Outcome.done invalid), released b.space key m)
  unfolding verify_and_consume judge
  last_guess submitted t r m i s v a h l = ground (
    arith,
    turn-IsStored submitted t r m i s,
    taken invalid t r m i s,
    i.checked_in_time,
    v,
    a,
    h,
    l,
  )

  pub wrong_guess :
      (submitted : Text) (t : Turn) (r : Record) (m : Memory)
      → InTime expires r.expires_at t
      → IsStored b key expires r m
      → is_valid_record r ≡ true
      → r.attempts < max_attempts
      → list_beq r.hash submitted ≡ false
      → leb max_attempts (r.attempts + 1) ≡ false
      → guess b key max_attempts submitted t m ≡ (
        some (Outcome.done attempted),
        write (key_in b.space key) (b.encode (counted r)) expires m,
      )
  unfolding verify_and_consume judge
  wrong_guess submitted t r m i s v a h l =
      ground (
        arith,
        turn-IsStored submitted t r m i s,
        recorded t r m i s,
        i.checked_in_time,
        v,
        a,
        h,
        l,
      )

  pub missed_guess :
      (submitted : Text) (t : Turn) (m : Memory)
      → IsQuiet t
      → IsMissing b key m
      → guess b key max_attempts submitted t m
        ≡ (some (Outcome.done invalid), delete_stale (key_in b.space key) m)
  unfolding verify_and_consume
  missed_guess submitted t m q n =
      ground
        (arith, turn-absent b key submitted max_attempts t m q.is_live valid (ground (arith, n)))
