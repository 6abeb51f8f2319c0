-- ===== src/Onetime/Ending.antt =====
-- The loop of VerifyAndConsume ends: once other calls leave the cache alone, two rounds are enough.
use furtalk.Base.{
  ℕ, ◌≤◌, ◌≡◌, refl, sym, subst, Bool, true, false, Option, none, some, List, [], ◌∷◌, ◌++◌,
  is_some, arith,
}
use furtalk.Base.Equality.{text_eq, nat_eq, list_beq_iff}
use furtalk.Base.Assoc.{lookup}
use furtalk.Domain.Entities.{Text}
use furtalk.Cache.{Outcome, Item, Memory, fresh}
use furtalk.Cache.Namespace.{is_valid, key_in}
use furtalk.Onetime.{
  Backend, Record, VerifyResult, Turn, Round, decided, again, turn, verify_and_consume,
}
use furtalk.Cache.Shown.{only-some}
use furtalk.Onetime.Rounds.{
  IsQuiet, only-later, judge-rule, Matches, Progress, delete_then-Progress, record_attempt-Progress,
  turn-invalid, turn-absent, turn-present,
}

module _ (b : Backend) (key submitted : Text) (max_attempts : ℕ)
    (encodes : (r : Record) → b.is_json (b.encode r) ≡ true) where
  -- A quiet round returns, or the entry expired while it ran, and then there is none.
  turn-Progress :
      (t : Turn) (m : Memory) → IsQuiet t → Progress b key t (turn b key submitted max_attempts t m)
  turn-Progress t m q = go (is_valid b.space) refl (fresh t.read_at (key_in b.space key) m) refl
    where
      later :
          (item : Item)
          → fresh t.read_at (key_in b.space key) m ≡ some item
          → (o : Option Item) → fresh t.exchanged_at (key_in b.space key) m ≡ o
          → Matches item.content o
      later item e none f = tt
      later item e (some x) f = ground (
        arith,
        only-some t.read_at (lookup (key_in b.space key) m.items) item e,
        only-some t.exchanged_at (lookup (key_in b.space key) m.items) x f,
        list_beq_iff item.content item.content,
      )

      go :
          (v : Bool)
          → is_valid b.space ≡ v
          → (o : Option Item) → fresh t.read_at (key_in b.space key) m ≡ o
          → Progress b key t (turn b key submitted max_attempts t m)
      go false v o e =
          subst (Progress b key t) (sym (turn-invalid b key submitted max_attempts t m q.is_live v))
            tt
      go true v none e =
          subst (Progress b key t)
            (sym (turn-absent b key submitted max_attempts t m q.is_live v e)) tt
      go true v (some item) e =
          subst (Progress b key t)
            (sym (turn-present b key submitted max_attempts t m q.is_live item v q.alone e))
            (judge-rule b key submitted max_attempts (Progress b key t) t item.content m
              (delete_then-Progress b key t q.is_live item.content m v _ refl (later item e _ refl))
              (record_attempt-Progress b key t q.is_live item.content m v encodes _ refl
                (later item e _ refl))
              (b.decode item.content))

  -- Where there is no entry, a quiet round returns.
  turn-decides :
      (t : Turn) (m : Memory)
      → IsQuiet t
      → fresh t.read_at (key_in b.space key) m ≡ none
      → is_some (verify_and_consume b key submitted max_attempts (t ∷ []) m).0 ≡ true
  unfolding verify_and_consume
  turn-decides t m q e = go (is_valid b.space) refl
    where
      go :
          (v : Bool)
          → is_valid b.space ≡ v
          → is_some (verify_and_consume b key submitted max_attempts (t ∷ []) m).0 ≡ true
      go false v = ground (arith, turn-invalid b key submitted max_attempts t m q.is_live v)
      go true v = ground (arith, turn-absent b key submitted max_attempts t m q.is_live v e)

  -- Verification returns after any rounds if two quiet ones follow, the second not earlier than the
  -- end of the first, and if every encoded record is JSON.
  pub verify_and_consume-ends :
      (before : List Turn) (t u : Turn) (m : Memory)
      → IsQuiet t
      → IsQuiet u
      → t.exchanged_at ≤ u.read_at
      → is_some (verify_and_consume b key submitted max_attempts (before ++ t ∷ u ∷ []) m).0 ≡ true
  unfolding verify_and_consume
  verify_and_consume-ends [] t u m q r h =
      go (turn b key submitted max_attempts t m) (turn-Progress t m q)
    where
      go :
          (x : Round × Memory)
          → Progress b key t x
          → is_some
              (elim x.0 as (λ _. Option (Outcome VerifyResult) × Memory) [
                | decided answer ↦ (some answer, x.1)
                | again ↦ verify_and_consume b key submitted max_attempts (u ∷ []) x.1
              ]).0
            ≡ true
      go (decided answer, m') p = refl
      go (again, m') p =
          turn-decides u m' r
            (only-later t.exchanged_at u.read_at (lookup (key_in b.space key) m'.items) h p)
  verify_and_consume-ends (first ∷ before) t u m q r h =
      go (turn b key submitted max_attempts first m)
        (λ m'. verify_and_consume-ends before t u m' q r h)
    where
      go :
          (x : Round × Memory)
          → ((m' : Memory)
              → is_some
                  (verify_and_consume b key submitted max_attempts (before ++ t ∷ u ∷ []) m').0
                ≡ true)
          → is_some
              (elim x.0 as (λ _. Option (Outcome VerifyResult) × Memory) [
                | decided answer ↦ (some answer, x.1)
                | again ↦ verify_and_consume b key submitted max_attempts (before ++ t ∷ u ∷ []) x.1
              ]).0
            ≡ true
      go (decided answer, m') k = refl
      go (again, m') k = k m'
