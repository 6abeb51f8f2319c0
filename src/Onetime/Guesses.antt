-- ===== src/Onetime/Guesses.antt =====
-- What a one-time credential is worth: it is consumed by the right digest after fewer wrong ones than
-- the limit, once, and by nothing else.
use furtalk.Base.{
  ℕ, ◌+◌, ◌≤◌, ◌<◌, ◌≡◌, refl, sym, subst, ap, ◌∙◌, Bool, true, false, some, List, [], ◌∷◌, ltb,
  leb, length, if◌then◌else◌, arith, All,
}
use furtalk.Base.Equality.{◌==◌, text_eq, nat_eq}
use furtalk.Base.Assoc.{Distinct, lookup-remove_self, lookup-insert_self}
use furtalk.Domain.Entities.{Text}
use furtalk.Cache.{Outcome, Memory, write, delete_stale}
use furtalk.Cache.Namespace.{is_valid, key_in, released, namespace_set}
use furtalk.Cache.Stored.{namespace_set-valid, namespace_set-stored}
use furtalk.Onetime.{Backend, Record, VerifyResult, consumed, invalid, Turn, is_valid_record, issue}
use furtalk.Onetime.Rounds.{IsQuiet, lookup-delete_stale}
use furtalk.Onetime.Guess.{
  Codec, InTime, entry, counted, IsStored, IsMissing, guess, guess_all, IsWrong, right_guess,
  wrong_guess, last_guess, missed_guess,
}

module _ (b : Backend) (codec : Codec b) (valid : is_valid b.space ≡ true) (key : Text)
    (max_attempts expires : ℕ) where
  released-IsMissing : (m : Memory) → IsMissing b key (released b.space key m)
  released-IsMissing m = lookup-remove_self (key_in b.space key) m.items

  guess-IsMissing :
      (submitted : Text) (t : Turn) (m : Memory)
      → IsQuiet t
      → IsMissing b key m
      → IsMissing b key (guess b key max_attempts submitted t m).1
  guess-IsMissing submitted t m q n =
      subst (λ x. IsMissing b key x.1)
        (sym (missed_guess b codec valid key max_attempts expires submitted t m q n))
        (lookup-delete_stale 0 (key_in b.space key) m (ground (arith, n)))

  guess_all-IsMissing :
      (r : Record) (ws : List (Text × Turn)) (m : Memory)
      → All (IsWrong expires r) ws
      → IsMissing b key m
      → IsMissing b key (guess_all b key max_attempts ws m)
  guess_all-IsMissing r [] m w n = n
  guess_all-IsMissing r ((submitted, t) ∷ rest) m w n =
      guess_all-IsMissing r rest (guess b key max_attempts submitted t m).1 w.1
        (guess-IsMissing submitted t m w.0.1.quiet n)

  write-IsStored :
      (r : Record) (m : Memory)
      → IsStored b key expires r (write (key_in b.space key) (b.encode r) expires m)
  write-IsStored r m = lookup-insert_self (key_in b.space key) (entry b r expires) m.items

  -- Below the limit the guesses are counted.
  guess_all-IsStored :
      (ws : List (Text × Turn)) (r : Record) (n : ℕ) (m : Memory)
      → n ≡ r.attempts + length ws
      → n < max_attempts
      → is_valid_record r ≡ true
      → All (IsWrong expires r) ws
      → IsStored b key expires r m
      → IsStored b key expires (record r { attempts = n }) (guess_all b key max_attempts ws m)
  guess_all-IsStored [] r n m e l v w s =
      subst (λ k. IsStored b key expires (record r { attempts = k }) m)
        (let f : r.attempts ≡ n = omega (arith, e) in f) s
  guess_all-IsStored ((submitted, t) ∷ rest) r n m e l v w s =
      guess_all-IsStored rest (counted r) n (guess b key max_attempts submitted t m).1
        (omega (arith, e)) l v w.1
        (subst (λ x. IsStored b key expires (counted r) x.1)
          (sym (
            wrong_guess b codec valid key max_attempts expires submitted t r m w.0.1 s v
              (omega (arith, e, l)) w.0.0 (ground (arith, e, l))))
          (write-IsStored (counted r) m))

  -- The guess that reaches the limit takes the credential away.
  guess_all-IsMissing_spent :
      (ws : List (Text × Turn)) (r : Record) (m : Memory)
      → r.attempts < max_attempts
      → max_attempts ≤ r.attempts + length ws
      → is_valid_record r ≡ true
      → All (IsWrong expires r) ws
      → IsStored b key expires r m
      → IsMissing b key (guess_all b key max_attempts ws m)
  guess_all-IsMissing_spent [] r m a l v w s = absurd (omega (arith, a, l))
  guess_all-IsMissing_spent ((submitted, t) ∷ rest) r m a l v w s =
      go (leb max_attempts (r.attempts + 1)) refl
        (λ m' b. guess_all-IsMissing_spent rest (counted r) m' b (omega (arith, l)) v w.1)
    where
      go :
          (last : Bool)
          → leb max_attempts (r.attempts + 1) ≡ last
          → ((m' : Memory)
              → r.attempts + 1 < max_attempts
              → IsStored b key expires (counted r) m'
              → IsMissing b key (guess_all b key max_attempts rest m'))
          → IsMissing b key
              (guess_all b key max_attempts rest (guess b key max_attempts submitted t m).1)
      go true e k = guess_all-IsMissing r rest (guess b key max_attempts submitted t m).1 w.1 (
          subst (λ x. IsMissing b key x.1)
            (sym (
              last_guess b codec valid key max_attempts expires submitted t r m w.0.1 s v a w.0.0
                e))
            (released-IsMissing m))
      go false e k = k (guess b key max_attempts submitted t m).1 (ground (arith, e)) (
          subst (λ x. IsStored b key expires (counted r) x.1)
            (sym (
              wrong_guess b codec valid key max_attempts expires submitted t r m w.0.1 s v a w.0.0
                e))
            (write-IsStored (counted r) m))

abbrev pub issued : Text → ℕ → Record
issued digest expires_at = record { hash = digest; attempts = 0; expires_at = expires_at }

module _ (b : Backend) (key digest : Text) (now stored_at ttl : ℕ) (m m' : Memory)
    (issues : issue b true now stored_at key digest ttl m ≡ (Outcome.done tt, m')) where
  set-issue :
      namespace_set b.space key (some (b.encode (issued digest (now + ttl)))) stored_at ttl m
      ≡ (Outcome.done tt, m')
  unfolding issue
  set-issue = issues

  valid-issue : (is_valid b.space ≡ true) × (0 < ttl)
  valid-issue =
      namespace_set-valid b.space key (b.encode (issued digest (now + ttl))) stored_at ttl m m'
        set-issue

  issue-IsStored :
      Distinct m.items → IsStored b key (stored_at + ttl) (issued digest (now + ttl)) m'
  issue-IsStored d =
      namespace_set-stored b.space key (b.encode (issued digest (now + ttl))) stored_at ttl m m' d
        set-issue

-- A credential that was issued, into a cache whose keys are distinct, is tried with wrong digests and
-- then with the right one, in quiet rounds before it expires. The right one consumes it exactly if
-- the wrong ones were fewer than the limit; after that, whatever digest is tried in a quiet round,
-- the answer is that the credential is invalid.
pub guesses-issue :
    (b : Backend) (key digest : Text) (max_attempts now stored_at ttl : ℕ) (m m' : Memory)
    → Codec b
    → Distinct m.items
    → (digest == []) ≡ false
    → 0 < max_attempts
    → issue b true now stored_at key digest ttl m ≡ (Outcome.done tt, m')
    → (wrong : List (Text × Turn)) (t : Turn)
    → All (IsWrong (stored_at + ttl) (issued digest (now + ttl))) wrong
    → InTime (stored_at + ttl) (now + ttl) t
    → (other : Text) (u : Turn) → IsQuiet u
    → let tried = guess_all b key max_attempts wrong m' in
      let right = guess b key max_attempts digest t tried in
      (right.0
        ≡ some (Outcome.done (if ltb (length wrong) max_attempts then consumed else invalid)))
      × ((guess b key max_attempts other u right.1).0 ≡ some (Outcome.done invalid))
guesses-issue b key digest max_attempts now stored_at ttl m m' codec d e a issues wrong t w i other
      u q =
    go (ltb (length wrong) max_attempts) refl
  where
    expires : ℕ
    expires = stored_at + ttl

    r : Record
    r = issued digest (now + ttl)

    valid : is_valid b.space ≡ true
    valid = (valid-issue b key digest now stored_at ttl m m' issues).0

    is_valid_r : is_valid_record r ≡ true
    is_valid_r = ground (arith, e, (valid-issue b key digest now stored_at ttl m m' issues).1)

    in_place : IsStored b key expires r m'
    in_place = issue-IsStored b key digest now stored_at ttl m m' issues d

    tried : Memory
    tried = guess_all b key max_attempts wrong m'

    last :
        (v : VerifyResult) (x : Memory)
        → guess b key max_attempts digest t tried ≡ (some (Outcome.done v), x)
        → IsMissing b key x
        → ((guess b key max_attempts digest t tried).0 ≡ some (Outcome.done v))
          × ((guess b key max_attempts other u (guess b key max_attempts digest t tried).1).0
              ≡ some (Outcome.done invalid))
    last v x f n = (
      ap (λ y. y.0) f,
      ap (λ y. (guess b key max_attempts other u y.1).0) f
          ∙ ap (λ y. y.0) (missed_guess b codec valid key max_attempts expires other u x q n),
    )

    go :
        (below : Bool)
        → ltb (length wrong) max_attempts ≡ below
        → ((guess b key max_attempts digest t tried).0
            ≡ some (Outcome.done (if below then consumed else invalid)))
          × ((guess b key max_attempts other u (guess b key max_attempts digest t tried).1).0
              ≡ some (Outcome.done invalid))
    go true l =
        last consumed (released b.space key tried)
          (right_guess b codec valid key max_attempts expires digest t
            (record r { attempts = length wrong }) tried i
            (guess_all-IsStored b codec valid key max_attempts expires wrong r (length wrong) m'
              (omega arith) (ground (arith, l)) is_valid_r w in_place)
            is_valid_r (ground (arith, l)) refl)
          (released-IsMissing b codec valid key max_attempts expires tried)
    go false l =
        let none_left =
          guess_all-IsMissing_spent b codec valid key max_attempts expires wrong r m' a
            (ground (arith, l)) is_valid_r w in_place in
        last invalid (delete_stale (key_in b.space key) tried)
          (missed_guess b codec valid key max_attempts expires digest t tried i.quiet none_left)
          (lookup-delete_stale 0 (key_in b.space key) tried (ground (arith, none_left)))
