-- ===== src/Tests/Authorized.antt =====
-- The theorems on the authorization of widgets, applied. The codec writes a record's fields in a row,
-- and a code is its own digest.
use furtalk.Base.{ℕ, ◌≡◌, refl, true, Option, none, some, [], ◌∷◌, arith, zero, suc, length, ◌++◌}
use furtalk.Domain.{CommentMode, Role, invalid_credentials}
use furtalk.Domain.Entities.{Text}
use furtalk.Store.{Result, ok, err}
use furtalk.Cache.{Item, Memory, fresh, new_memory}
use furtalk.Cache.Namespace.{namespace_set}
use furtalk.Cache.Calls.{Codec, Event, read, run_calls}
use furtalk.Authorization.{
  Codes, Moment, AuthCodeRecord, AuthCodeResult, IssueInput, SessionResult, check_issue,
  set_auth_code, issue_authorization, exchange_authorization,
}
use furtalk.Authorization.Checks.{IsAdmitted, IsGranted}
use furtalk.Authorization.Granted
use furtalk.Authorization.Once
use furtalk.Authorization.Once.{code_key}
use furtalk.Authorization.Trip
use furtalk.Text.{is_blank}
use furtalk.Creation.Validation.{widget_role_allowed}
use furtalk.Creation.Commands.{validate_site_and_origin}
use furtalk.Tests.Data.{small, policy, principal}

abbrev mode_number : CommentMode → ℕ
mode_number CommentMode.anonymous = 0
mode_number CommentMode.authenticated = 1
mode_number CommentMode.unknown = 2

abbrev number_mode : ℕ → CommentMode
number_mode zero = CommentMode.anonymous
number_mode (suc zero) = CommentMode.authenticated
number_mode (suc (suc n)) = CommentMode.unknown

abbrev cut : ℕ → Text → Text × Text
cut zero t = ([], t)
cut (suc n) [] = ([], [])
cut (suc n) (x ∷ xs) = (x ∷ (cut n xs).0, (cut n xs).1)

abbrev encode : AuthCodeRecord → Text
encode r =
    r.site_id
      ∷ r.user_id
      ∷ r.expires_at
      ∷ mode_number r.credential_mode
      ∷ length r.origin
      ∷ r.origin
    ++ r.request_id

abbrev decode : Text → Option AuthCodeRecord
decode (site ∷ user ∷ end ∷ mode ∷ n ∷ rest) = some (record {
  site_id = site;
  user_id = user;
  expires_at = end;
  credential_mode = number_mode mode;
  origin = (cut n rest).0;
  request_id = (cut n rest).1;
})
decode _ = none

cut-append : (a b : Text) → cut (length a) (a ++ b) ≡ (a, b)
cut-append [] b = refl
cut-append (x ∷ xs) b = ground (arith, cut-append xs b)

number_mode-mode_number : (m : CommentMode) → number_mode (mode_number m) ≡ m
number_mode-mode_number CommentMode.anonymous = refl
number_mode-mode_number CommentMode.authenticated = refl
number_mode-mode_number CommentMode.unknown = refl

decode-encode : (r : AuthCodeRecord) → decode (encode r) ≡ some r
decode-encode r =
    ground (arith, cut-append r.origin r.request_id, number_mode-mode_number r.credential_mode)

abbrev codes : Codes
codes = record {
  digest = λ t. t;
  encode = encode;
  decode = decode;
  sign = λ user site epoch. ok (user ∷ site ∷ epoch ∷ []);
  verify = λ t. some (record { user_id = 1; site_id = 1; epoch = 1 }, 50);
  lifetime = 30;
  code_ttl = 60;
}

abbrev moment : ℕ → Moment
moment n = record { policy = ok policy; now = n; cache_now = n; resolve = λ id. ok principal }

abbrev input : IssueInput
input = record {
  site_id = 1;
  origin = 111 ∷ [];
  request_id = 113 ∷ [];
  user_id = 1;
  role = Role.admin;
}

abbrev empty : Memory
empty = new_memory 5

abbrev code : Text
code = 107 ∷ []

abbrev issued : Result AuthCodeResult × Memory
issued = issue_authorization codes (moment 3) input (some code) small empty

abbrev answer : AuthCodeResult
answer = record { code = code; request_id = 113 ∷ []; expires_at = 63 }

user-IsAdmitted : IsAdmitted (moment 5) CommentMode.anonymous 1
unfolding widget_role_allowed
user-IsAdmitted = record { principal = principal; resolved = refl; active = refl; admitted = refl }

abbrev session : SessionResult
session = record { token = 1 ∷ 1 ∷ 1 ∷ []; expires_at = 35 }

exchange_authorization-issue_authorization_example :
    (exchange_authorization codes (moment 5) code (111 ∷ []) small issued.1).0 ≡ ok session
unfolding issue_authorization check_issue validate_site_and_origin set_auth_code namespace_set
    is_blank widget_role_allowed
exchange_authorization-issue_authorization_example =
    Trip.exchange_authorization-issue_authorization codes (moment 3) (moment 5) input code small
      empty issued.1 answer policy policy (1 ∷ 1 ∷ 1 ∷ []) decode-encode refl tt refl refl refl refl
      (omega arith) (omega arith) user-IsAdmitted refl

exchange_authorization-IsGranted_example :
    (item : Item) × (r : AuthCodeRecord) × (fresh 5 (code_key codes code) issued.1 ≡ some item)
    × (codes.decode item.content ≡ some r)
    × IsGranted codes (moment 5) r (111 ∷ []) small session
exchange_authorization-IsGranted_example =
    Granted.exchange_authorization-IsGranted codes (moment 5) code (111 ∷ []) small issued.1 session
      exchange_authorization-issue_authorization_example

abbrev codec : Codec
codec = record { is_json = λ t. true; string = some }

abbrev other_read : Event
other_read = record { wait = 1; live = true; call = read (112 ∷ []) }

exchange_authorization-once_example :
    (exchange_authorization codes
      (moment 6)
      code
      (112 ∷ [])
      small
      (run_calls codec 5
        (other_read ∷ [])
        (exchange_authorization codes (moment 5) code (111 ∷ []) small empty).1).1).0
    ≡ err invalid_credentials
unfolding is_blank
exchange_authorization-once_example =
    Once.exchange_authorization-once codes codec code (moment 5) (moment 6) (111 ∷ []) (112 ∷ [])
      small small empty (other_read ∷ []) refl tt (tt, tt) refl
