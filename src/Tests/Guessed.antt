-- ===== src/Tests/Guessed.antt =====
-- The theorems on one-time credentials, applied. The codec writes the two numbers before the digest.
use furtalk.Base.{
  ℕ, ◌≡◌, refl, true, none, some, Option, List, [], ◌∷◌, ◌++◌, is_some, length, ltb, if◌then◌else◌,
  arith,
}
use furtalk.Domain.Entities.{Text}
use furtalk.Cache.{Memory, Outcome, new_memory}
use furtalk.Cache.Namespace.{namespace_set}
use furtalk.Onetime.{Backend, Record, Turn, consumed, invalid, issue, verify_and_consume}
use furtalk.Onetime.Ending
use furtalk.Onetime.Rounds.{IsQuiet}
use furtalk.Onetime.Guess.{Codec, InTime, guess, guess_all}
use furtalk.Onetime.Guesses

abbrev encode : Record → Text
encode r = r.attempts ∷ r.expires_at ∷ r.hash

abbrev decode : Text → Option Record
decode (n ∷ end ∷ hash) = some (record { hash = hash; attempts = n; expires_at = end })
decode _ = none

abbrev backend : Backend
backend = record {
  space = record { name = 108 ∷ []; prefix = 58 ∷ []; limit = 3 };
  encode = encode;
  decode = decode;
  is_json = λ t. true;
}

backend-Codec : Codec backend
backend-Codec = record { decodes = λ r. refl; encodes = λ r. refl }

abbrev empty : Memory
empty = new_memory 4

abbrev quiet_at : ℕ → Turn
quiet_at n = record { live = true; read_at = n; checked_at = n; exchanged_at = n; others = λ m. m }

quiet_at-IsQuiet : (n : ℕ) → IsQuiet (quiet_at n)
quiet_at-IsQuiet n = record { is_live = refl; alone = λ m. refl; in_order = omega arith }

-- The key of the credential, and its digest.
abbrev key : Text
key = 117 ∷ []

abbrev digest : Text
digest = 115 ∷ []

abbrev issued_at : Memory
issued_at = (issue backend true 0 1 key digest 9 empty).1

verify_and_consume-ends_example :
    is_some (verify_and_consume backend key digest 2 ([] ++ quiet_at 2 ∷ quiet_at 3 ∷ []) empty).0
    ≡ true
verify_and_consume-ends_example =
    Ending.verify_and_consume-ends backend key digest 2 (λ r. refl) [] (quiet_at 2) (quiet_at 3)
      empty (quiet_at-IsQuiet 2) (quiet_at-IsQuiet 3) (omega arith)

in_time : (n : ℕ) → ltb n 9 ≡ true → InTime 10 9 (quiet_at n)
in_time n h = record {
  quiet = quiet_at-IsQuiet n;
  read_in_time = ground (arith, h);
  checked_in_time = ground (arith, h);
  exchanged_in_time = ground (arith, h);
}

abbrev wrong : List (Text × Turn)
wrong = (120 ∷ [], quiet_at 3) ∷ []

-- One wrong digest, then the right one, then it again.
guesses-issue_example :
    let tried = guess_all backend key 2 wrong issued_at in
    let right = guess backend key 2 digest (quiet_at 4) tried in
    (right.0 ≡ some (Outcome.done (if ltb (length wrong) 2 then consumed else invalid)))
    × ((guess backend key 2 digest (quiet_at 5) right.1).0 ≡ some (Outcome.done invalid))
unfolding issue namespace_set
guesses-issue_example =
    Guesses.guesses-issue backend key digest 2 0 1 9 empty issued_at backend-Codec tt refl
      (omega arith) refl wrong (quiet_at 4) ((refl, in_time 3 refl), tt) (in_time 4 refl) digest
      (quiet_at 5) (quiet_at-IsQuiet 5)
