-- ===== src/Creation/Verdicts.antt =====
-- Which detector decides on a new comment, and what becomes of it: spam.go's chain and the status that
-- create.go starts a comment with, told from the list of the detectors' answers.
use furtalk.Base.{
  ◌≡◌, refl, Bool, true, false, ◌||◌, Option, none, some, List, [], ◌∷◌, find?, if◌then◌else◌,
  arith,
}
use furtalk.Base.Equality.{◌==◌, text_eq}
use furtalk.Domain.{CommentStatus, Moderation, moderation_eq}
use furtalk.Domain.Entities.{CommentPolicy}
use furtalk.Text.{trim_space}
use furtalk.Creation.Spam.{
  Provider, Verdict, ProviderConfig, provider_order, config_of, spam_action, verdict_status,
  status_for_spam_action, is_binary_spam_provider, turn, run_chain, check_spam,
  comment_initial_status,
}
use furtalk.Creation.Commands.{Services, SpamInput, ask_detectors, status_after}

-- The channels that tell a comment to be looked at from one to be blocked.
abbrev pub grades : Provider → Bool
grades Provider.aliyun = true
grades Provider.tencent = true
grades _ = false

abbrev pub is_hit : ProviderConfig × Verdict → Bool
is_hit (cfg, Verdict.pass) = false
is_hit (cfg, Verdict.review) = grades cfg.key
is_hit (cfg, Verdict.block) = true

-- A hit that is to be spam; any other one is to be looked at.
abbrev pub says_spam : ProviderConfig × Verdict → Bool
says_spam (cfg, Verdict.block) = grades cfg.key || trim_space cfg.action == spam_action
says_spam (cfg, _) = false

abbrev pub sentence : ProviderConfig × Verdict → CommentStatus
sentence x = if says_spam x then CommentStatus.spam else CommentStatus.pending

module _ (detect : ProviderConfig → Option Verdict) where
  -- An answer before the others; a channel that is not enabled or fails has none.
  abbrev pub answered :
      Option ProviderConfig → List (ProviderConfig × Verdict) → List (ProviderConfig × Verdict)
  answered none rest = rest
  answered (some cfg) rest = elim (detect cfg) [ none ↦ rest | some v ↦ (cfg, v) ∷ rest ]

  abbrev pub answers : List ProviderConfig → List Provider → List (ProviderConfig × Verdict)
  answers configs [] = []
  answers configs (k ∷ ks) = answered (config_of k configs) (answers configs ks)

  abbrev pub listened : Option (Option (List ProviderConfig)) → List (ProviderConfig × Verdict)
  listened none = []
  listened (some none) = []
  listened (some (some configs)) = answers configs provider_order

-- The answers that count: none of a comment of an administrator, and none if there is no gateway or
-- its configurations cannot be read.
abbrev pub heard : Services → Bool → SpamInput → List (ProviderConfig × Verdict)
heard s true seen = []
heard s false seen = listened (s.detect seen) s.spam

abbrev pub decided : Option (ProviderConfig × Verdict) → Option CommentStatus
decided none = none
decided (some x) = some (sentence x)

module _ (detect : ProviderConfig → Option Verdict) where
  turn-decided :
      (o : Option ProviderConfig) (rest : Option CommentStatus)
      (xs : List (ProviderConfig × Verdict))
      → rest ≡ decided (find? is_hit xs)
      → turn detect o rest ≡ decided (find? is_hit (answered detect o xs))
  unfolding verdict_status status_for_spam_action is_binary_spam_provider
  turn-decided none rest xs e = e
  turn-decided (some cfg) rest xs e = ground (arith, e)

  run_chain-decided :
      (configs : List ProviderConfig) (ks : List Provider)
      → run_chain detect configs ks ≡ decided (find? is_hit (answers detect configs ks))
  unfolding run_chain
  run_chain-decided configs [] = refl
  run_chain-decided configs (k ∷ ks) =
      turn-decided (config_of k configs) _ _ (run_chain-decided configs ks)

policy_status-decided :
    (moderation : Moderation) (o : Option CommentStatus) (x : Option (ProviderConfig × Verdict))
    → o ≡ decided x
    → comment_initial_status moderation o ≡ (elim x [
      | some hit ↦ sentence hit
      | none ↦
          if moderation == Moderation.review then CommentStatus.pending else CommentStatus.published
    ])
unfolding comment_initial_status
policy_status-decided moderation o none e = ground (arith, e)
policy_status-decided moderation o (some hit) e = ground (arith, e)

-- The first hit, in the order local, Akismet, Aliyun, Tencent, decides on a new comment. A block is a
-- hit of every channel, and spam unless the channel is one of the first two and its action is not
-- "spam"; then the comment is pending. A review is a hit of the last two alone, and the comment is
-- pending. If there is no hit, the policy decides between pending and published. No answer counts
-- for an administrator's comment, nor where the detectors cannot be asked.
pub ask_detectors-first_hit :
    (s : Services) (pol : CommentPolicy) (is_admin : Bool) (seen : SpamInput)
    → ask_detectors s pol is_admin seen ≡ (elim (find? is_hit (heard s is_admin seen)) [
      | some hit ↦ sentence hit
      | none ↦
          if pol.moderation == Moderation.review
          then CommentStatus.pending
          else CommentStatus.published
    ])
unfolding ask_detectors check_spam
ask_detectors-first_hit s pol true seen = policy_status-decided pol.moderation none none refl
ask_detectors-first_hit s pol false seen = asked s.spam
  where
    asked :
        (o : Option (Option (List ProviderConfig)))
        → status_after s pol o seen ≡ (elim (find? is_hit (listened (s.detect seen) o)) [
          | some hit ↦ sentence hit
          | none ↦
              if pol.moderation == Moderation.review
              then CommentStatus.pending
              else CommentStatus.published
        ])
    asked none = policy_status-decided pol.moderation none none refl
    asked (some none) = policy_status-decided pol.moderation none none refl
    asked (some (some configs)) =
        policy_status-decided pol.moderation (check_spam (s.detect seen) (some configs))
          (find? is_hit (answers (s.detect seen) configs provider_order))
          (run_chain-decided (s.detect seen) configs provider_order)
