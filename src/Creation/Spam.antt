-- ===== src/Creation/Spam.antt =====
-- internal/service/comment/spam.go: the chain of detectors and the status that a new comment gets.
-- What a detector answers to a comment, and which configurations are enabled, are arguments.
use furtalk.Base.{
  ◌≡◌, Bool, true, false, Option, none, some, List, [], ◌∷◌, if◌then◌else◌, ◌⊎◌, arith,
}
use furtalk.Base.Equality.{◌==◌, text_eq}
use furtalk.Domain.{CommentStatus, Moderation, comment_status_eq, moderation_eq}
use furtalk.Domain.Entities.{Text}
use furtalk.Text.{trim_space}

-- `spamProviderOrder` names these four, in this order.
pub data Provider : Type 0 where
  local akismet aliyun tencent : Provider

abbrev pub provider_order : List Provider
provider_order = Provider.local ∷ Provider.akismet ∷ Provider.aliyun ∷ Provider.tencent ∷ []

pub data Verdict : Type 0 where
  pass review block : Verdict

-- A configuration: its channel, and what to do on a hit.
pub record ProviderConfig : Type 0 where
  pub key : Provider
  pub action : Text

abbrev pub is_key : Provider → ProviderConfig → Bool
is_key k c = same k c.key
  where
    same : Provider → Provider → Bool
    same Provider.local Provider.local = true
    same Provider.akismet Provider.akismet = true
    same Provider.aliyun Provider.aliyun = true
    same Provider.tencent Provider.tencent = true
    same _ _ = false

-- The text "spam".
abbrev pub spam_action : Text
spam_action = 115 ∷ 112 ∷ 97 ∷ 109 ∷ []

unfoldable pub is_binary_spam_provider : Provider → Bool
is_binary_spam_provider Provider.local = true
is_binary_spam_provider Provider.akismet = true
is_binary_spam_provider _ = false

unfoldable pub status_for_spam_action : Text → CommentStatus
unfolding trim_space
status_for_spam_action action =
    if trim_space action == spam_action then CommentStatus.spam else CommentStatus.pending

-- What one detector's answer makes of the status; `none` hands on to the next detector. An answer
-- that failed is `none` too.
unfoldable pub verdict_status : ProviderConfig → Option Verdict → Option CommentStatus
unfolding status_for_spam_action is_binary_spam_provider
verdict_status cfg none = none
verdict_status cfg (some v) = if is_binary_spam_provider cfg.key then binary v else graded v
  where
    binary : Verdict → Option CommentStatus
    binary Verdict.block = some (status_for_spam_action cfg.action)
    binary _ = none

    graded : Verdict → Option CommentStatus
    graded Verdict.pass = none
    graded Verdict.review = some CommentStatus.pending
    graded Verdict.block = some CommentStatus.spam

-- The last configuration of a channel counts: the source puts them into a map, one after the other.
abbrev pub config_of : Provider → List ProviderConfig → Option ProviderConfig
config_of k [] = none
config_of k (c ∷ cs) = elim (config_of k cs) [
  | some d ↦ some d
  | none ↦ if is_key k c then some c else none
]

-- One channel's turn: its answer, or what the rest of the chain says.
abbrev pub turn :
    (ProviderConfig → Option Verdict)
    → Option ProviderConfig
    → Option CommentStatus
    → Option CommentStatus
turn detect none rest = rest
turn detect (some cfg) rest = elim (verdict_status cfg (detect cfg)) [
  | some s ↦ some s
  | none ↦ rest
]

unfoldable pub run_chain :
    (ProviderConfig → Option Verdict) → List ProviderConfig → List Provider → Option CommentStatus
run_chain detect configs [] = none
run_chain detect configs (k ∷ ks) = turn detect (config_of k configs) (run_chain detect configs ks)

-- `Check`: if the configurations cannot be read, nothing is overridden.
unfoldable pub check_spam :
    (ProviderConfig → Option Verdict) → Option (List ProviderConfig) → Option CommentStatus
unfolding run_chain
check_spam detect none = none
check_spam detect (some configs) = run_chain detect configs provider_order

unfoldable pub comment_initial_status : Moderation → Option CommentStatus → CommentStatus
comment_initial_status moderation (some s) = s
comment_initial_status moderation none =
    if moderation == Moderation.review then CommentStatus.pending else CommentStatus.published

-- A detector never deletes and never publishes: it can only hold a comment back.
abbrev pub HoldsBack : Option CommentStatus → Type 0
HoldsBack none = Unit {0}
HoldsBack (some s) = (s ≡ CommentStatus.pending) ⊎ (s ≡ CommentStatus.spam)

turn-HoldsBack :
    (detect : ProviderConfig → Option Verdict) (cfg : Option ProviderConfig)
    (rest : Option CommentStatus)
    → HoldsBack rest
    → HoldsBack (turn detect cfg rest)
unfolding verdict_status status_for_spam_action
turn-HoldsBack detect none rest h = h
turn-HoldsBack detect (some cfg) rest h = ground (arith, h)

run_chain-HoldsBack :
    (detect : ProviderConfig → Option Verdict) (configs : List ProviderConfig) (ks : List Provider)
    → HoldsBack (run_chain detect configs ks)
unfolding run_chain
run_chain-HoldsBack detect configs [] = tt
run_chain-HoldsBack detect configs (k ∷ ks) =
    turn-HoldsBack detect (config_of k configs) _ (run_chain-HoldsBack detect configs ks)

-- Whatever the detectors answer and whichever are enabled, the chain overrides the status with
-- "pending" or "spam" alone, or leaves it to the policy.
pub check_spam-HoldsBack :
    (detect : ProviderConfig → Option Verdict) (configs : Option (List ProviderConfig))
    → HoldsBack (check_spam detect configs)
unfolding check_spam
check_spam-HoldsBack detect none = tt
check_spam-HoldsBack detect (some configs) = run_chain-HoldsBack detect configs provider_order
