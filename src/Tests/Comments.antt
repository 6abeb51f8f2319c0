-- ===== src/Tests/Comments.antt =====
-- The theorems on comments, applied.
use furtalk.Base.{◌≡◌, refl, true, false, some, none, [], ◌∷◌, any, find?, if◌then◌else◌}
use furtalk.Domain.{comment_status_eq, CommentStatus, Role, UserStatus, not_found}
use furtalk.Domain.Entities.{Comment}
use furtalk.Store.{Db, ok, err}
use furtalk.Store.Comments
use furtalk.Store.Users
use furtalk.Moderation.Transition.{AdminAction}
use furtalk.Moderation.Commands.{
  deleted, is_elsewhere, soft_delete_one, admin_publish, admin_change, delete_by_owner,
  admin_delete, hard_delete_one, widget_set_pinned, validate_pin_target,
}
use furtalk.Moderation.HardDelete
use furtalk.Moderation.HardDelete.{deleted_from}
use furtalk.Moderation.Invariant
use furtalk.Base.Equality.{◌==◌, nat_eq}
use furtalk.Moderation.Ownership
use furtalk.Moderation.Ownership.{Deletes}
use furtalk.Moderation.Pins
use furtalk.Moderation.Pins.{Repins}
use furtalk.Moderation.Rows.{RowsSound}
use furtalk.Creation.Author.{author_in_tx}
use furtalk.Creation.Verdicts
use furtalk.Creation.Commands.{Services, create, create_reply_first_party, ask_detectors}
use furtalk.Creation.Impersonation
use furtalk.Creation.Impersonation.{IsAdmitted}
use furtalk.Creation.Invariant as CreationInvariant
use furtalk.Creation.Placement
use furtalk.Creation.Placement.{IsPlaced, with_row}
use furtalk.Creation.Reply.{create_comment, place_of, capture_privacy}
use furtalk.Creation.Spam
use furtalk.Creation.Spam.{check_spam, HoldsBack, is_key, Provider, Verdict, ProviderConfig}
use furtalk.Tests.Data.{
  small, env, info, policy, services, request, principal, parsers, seen, first, answer, waiting,
  plain_user,
}

small-RowsSound : RowsSound small
small-RowsSound = ((refl, refl), ((refl, refl), ((refl, refl), tt)))

admin_publish-RowsSound_example : RowsSound ((admin_publish env 3 small).1)
admin_publish-RowsSound_example = Invariant.admin_publish-RowsSound env 3 small small-RowsSound

admin_change-RowsSound_example : RowsSound ((admin_change env 2 AdminAction.soft_delete small).1)
admin_change-RowsSound_example =
    Invariant.admin_change-RowsSound env 2 AdminAction.soft_delete small small-RowsSound

delete_by_owner-RowsSound_example : RowsSound ((delete_by_owner env 3 1 (some 1) small).1)
delete_by_owner-RowsSound_example =
    Invariant.delete_by_owner-RowsSound env 3 1 (some 1) small small-RowsSound

admin_delete-RowsSound_example : RowsSound ((admin_delete env 1 true true small).1)
admin_delete-RowsSound_example =
    Invariant.admin_delete-RowsSound env 1 true true small small-RowsSound

create-RowsSound_example : RowsSound ((create services request small).1)
create-RowsSound_example = CreationInvariant.create-RowsSound services request small small-RowsSound

create_reply_first_party-RowsSound_example :
    RowsSound ((create_reply_first_party services 1 Role.admin 1 (104 ∷ []) [] none [] small).1)
create_reply_first_party-RowsSound_example =
    CreationInvariant.create_reply_first_party-RowsSound services 1 Role.admin 1 (104 ∷ []) [] none
      [] small small-RowsSound

-- The comment with an answer goes; the answer stays.
hard_delete_one_exact_example : hard_delete_one 1 1 small ≡ (
    if any (Comments.is_row 1 1) small.comments
    then (ok tt, deleted_from 1 1 small)
    else (err not_found, small))
hard_delete_one_exact_example = HardDelete.hard_delete_one_exact 1 1 small

-- A local detector that hits, with the action "spam".
abbrev pub local_config : ProviderConfig
local_config = record { key = Provider.local; action = 115 ∷ 112 ∷ 97 ∷ 109 ∷ [] }

check_spam-HoldsBack_example :
    HoldsBack (check_spam (λ cfg. some Verdict.block) (some (local_config ∷ [])))
check_spam-HoldsBack_example =
    Spam.check_spam-HoldsBack (λ cfg. some Verdict.block) (some (local_config ∷ []))

-- The local detector lets the comment pass, Tencent wants it looked at; the policy publishes at once.
abbrev pub watched : Services
watched = record services {
  spam = some (some (local_config ∷ record { key = Provider.tencent; action = [] } ∷ []));
  detect = λ seen cfg. if is_key Provider.local cfg then some Verdict.pass else some Verdict.review;
}

ask_detectors-first_hit_example : ask_detectors watched policy false seen ≡ CommentStatus.pending
ask_detectors-first_hit_example = Verdicts.ask_detectors-first_hit watched policy false seen

-- An answer to the first comment.
abbrev pub reply : Comment
reply = record {
  id = 4;
  site_id = 1;
  thread_id = 1;
  user_id = 3;
  parent_id = some 1;
  root_id = some 1;
  reply_to_user_id = some 3;
  depth = 1;
  body_markdown = 104 ∷ [];
  status = CommentStatus.published;
  status_before_delete = none;
  is_pinned = false;
  captured = first.captured;
  created_at = 9;
  published_at = some 9;
  deleted_at = none;
}

reply-created :
    create_comment info 9 policy 1 1 3 (some 1) (104 ∷ []) none [] CommentStatus.published small
    ≡ (ok reply, with_row small reply)
unfolding create_comment place_of capture_privacy Comments.create Comments.find_by_site_and_id
reply-created = refl

create_comment-IsPlaced_example :
    (with_row small reply ≡ with_row small reply)
    × (reply.id ≡ small.next_comment)
    × (reply.site_id ≡ 1)
    × (reply.thread_id ≡ 1)
    × (reply.user_id ≡ 3)
    × (reply.body_markdown ≡ 104 ∷ [])
    × (reply.status ≡ CommentStatus.published)
    × IsPlaced policy.max_reply_depth 1 1 small.comments (some 1) reply
create_comment-IsPlaced_example =
    Placement.create_comment-IsPlaced info 9 policy 1 1 3 (some 1) (104 ∷ []) none []
      CommentStatus.published reply small (with_row small reply) reply-created

author-found :
    author_in_tx parsers services.domain_allowed policy (99 ∷ []) (99 ∷ []) (99 ∷ []) none small
    ≡ (ok plain_user, small)
unfolding Users.find_by_email_normalized
author-found = refl

author_in_tx-IsAdmitted_example : IsAdmitted policy (99 ∷ []) none plain_user
author_in_tx-IsAdmitted_example =
    Impersonation.author_in_tx-IsAdmitted parsers services.domain_allowed policy (99 ∷ []) (99 ∷ [])
      (99 ∷ []) none plain_user small small author-found

-- An administrator pins the first comment.
abbrev pub pinned_small : Db
pinned_small = record small { comments = record first { is_pinned = true } ∷ answer ∷ waiting ∷ [] }

first-pinned :
    widget_set_pinned principal 1 1 true small
    ≡ (ok (record { comment_id = 1; is_pinned = true }), pinned_small)
unfolding widget_set_pinned validate_pin_target Comments.set_pinned Comments.find_by_site_and_id
first-pinned = refl

widget_set_pinned_guard_example :
    (principal.role ≡ Role.admin)
    × (principal.status ≡ UserStatus.active)
    × Repins 1 1 true (record { comment_id = 1; is_pinned = true }) small pinned_small
widget_set_pinned_guard_example =
    Pins.widget_set_pinned_guard principal 1 1 true (record { comment_id = 1; is_pinned = true })
      small pinned_small first-pinned

-- The author of the first comment deletes it.
abbrev pub removed_small : Db
removed_small = record small {
  comments =
      record first {
        status = CommentStatus.deleted;
        status_before_delete = some CommentStatus.published;
        deleted_at = some 9;
      }
      ∷ answer
      ∷ waiting
      ∷ [];
}

first-removed : delete_by_owner env 3 1 (some 1) small ≡ (ok (deleted 1 false), removed_small)
unfolding delete_by_owner soft_delete_one Comments.find_global_by_id Comments.update_status
first-removed = refl

delete_by_owner_guard_example :
    (c : Comment) × (find? (λ c. c.id == 1) small.comments ≡ some c)
    × (c.user_id ≡ 3)
    × ((c.status == CommentStatus.deleted) ≡ false)
    × (is_elsewhere (some 1) c ≡ false)
    × Deletes env 1 c (deleted 1 false) small removed_small
delete_by_owner_guard_example =
    Ownership.delete_by_owner_guard env 3 1 (some 1) (deleted 1 false) small removed_small
      first-removed
