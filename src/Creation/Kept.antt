-- ===== src/Creation/Kept.antt =====
-- Creating a comment keeps the rows of `comments` sound.
use furtalk.Base.{
  ℕ, ◌≡◌, Bool, true, false, not, Option, none, some, List, [], ◌∷◌, ◌++◌, All, leb, arith, ◌⊎◌,
}
use furtalk.Base.Equality.{◌==◌, nat_eq, text_eq}
use furtalk.Domain.{
  CommentStatus, Moderation, comment_status_eq, comment_mode_eq, moderation_eq, role_eq,
  user_status_eq, conflict, cross_thread_reply, parent_deleted, depth_exceeded,
}
use furtalk.Domain.Entities.{Captured, Comment, CommentPolicy, Text}
use furtalk.Store.{Db}
use furtalk.Store.Contract.{
  Keeps, Yields-bind, Yields-pure, Yields-raise, Yields-lift, Yields-raise_if,
}
use furtalk.Store.Comments
use furtalk.Views.Reads.{catch-Keeps}
use furtalk.Moderation.Rows.{IsSound, KeepsRows}
use furtalk.Creation.Spam.{
  HoldsBack, check_spam, check_spam-HoldsBack, comment_initial_status, ProviderConfig,
}
use furtalk.Creation.Reply.{
  ClientInfo, Place, at_root, under, place_of, missing_parent, new_comment, capture_privacy,
  create_comment,
}
use furtalk.Creation.Commands.{Services, SpamInput, ask_detectors, status_after}

-- A new comment is pending, published or spam.
abbrev pub IsInitial : CommentStatus → Type 0
IsInitial s =
    (s ≡ CommentStatus.pending) ⊎ ((s ≡ CommentStatus.published) ⊎ (s ≡ CommentStatus.spam))

comment_initial_status-IsInitial :
    (moderation : Moderation) (o : Option CommentStatus)
    → HoldsBack o
    → IsInitial (comment_initial_status moderation o)
unfolding comment_initial_status
comment_initial_status-IsInitial moderation none h = ground arith
comment_initial_status-IsInitial moderation (some s) h = ground (arith, h)

-- Whatever the policy, the detectors and the author, a new comment starts as pending, published or
-- spam, never as deleted.
pub ask_detectors-IsInitial :
    (s : Services) (pol : CommentPolicy) (is_admin : Bool) (seen : SpamInput)
    → IsInitial (ask_detectors s pol is_admin seen)
unfolding ask_detectors
ask_detectors-IsInitial s pol true seen = comment_initial_status-IsInitial pol.moderation none tt
ask_detectors-IsInitial s pol false seen = asked s.spam
  where
    asked : (o : Option (Option (List ProviderConfig))) → IsInitial (status_after s pol o seen)
    asked none = comment_initial_status-IsInitial pol.moderation none tt
    asked (some configs) =
        comment_initial_status-IsInitial pol.moderation (check_spam (s.detect seen) configs)
          (check_spam-HoldsBack (s.detect seen) configs)

append-All :
    (rows : List Comment) (c : Comment)
    → All IsSound rows
    → IsSound c
    → All IsSound (rows ++ c ∷ [])
append-All [] c h s = (s, tt)
append-All (r ∷ rows) c h s = (h.0, append-All rows c h.1 s)

create-KeepsRows : (c : Comment) → IsSound c → KeepsRows (Comments.create c)
unfolding Comments.create
create-KeepsRows c s = record {
  run = λ db h. (append-All db.comments (record c { id = db.next_comment }) h s, tt);
}

new_comment-IsSound :
    (now site_id thread_id actor_id : ℕ) (place : Place) (body : Text) (status : CommentStatus)
    (v : Captured)
    → IsInitial status
    → IsSound (new_comment now site_id thread_id actor_id place body status v)
new_comment-IsSound now site_id thread_id actor_id place body status v i = ground (arith, i)

find_row-Keeps : {P : Db → Type 0} (s id : ℕ) → Keeps P (Comments.find_by_site_and_id s id)
unfolding Comments.find_by_site_and_id
find_row-Keeps s id = record { run = λ db p. grind arith }

place_of-Keeps :
    {P : Db → Type 0} (max_depth site_id thread_id : ℕ) (parent_id : Option ℕ)
    → Keeps P (place_of max_depth site_id thread_id parent_id)
unfolding place_of
place_of-Keeps max_depth site_id thread_id none = Yields-pure at_root tt
place_of-Keeps {P} max_depth site_id thread_id (some parent_id) =
    Yields-bind
      (catch-Keeps (find_row-Keeps site_id parent_id) (λ e. Yields-raise (missing_parent e)))
      λ parent _.
        Yields-bind (Yields-raise_if (not (parent.thread_id == thread_id)) cross_thread_reply)
          λ _ _.
            Yields-bind (Yields-raise_if (parent.status == CommentStatus.deleted) parent_deleted)
              λ _ _.
                Yields-bind
                  (Yields-raise_if (not (parent.status == CommentStatus.published)) conflict)
                  λ _ _.
                    Yields-bind (Yields-raise_if (leb max_depth parent.depth) depth_exceeded)
                      λ _ _. Yields-pure (under parent_id parent) tt

pub create_comment-KeepsRows :
    (info : ClientInfo) (now : ℕ) (pol : CommentPolicy) (site_id thread_id actor_id : ℕ)
    (parent_id : Option ℕ) (body : Text) (ip : Option Text) (ua : Text) (status : CommentStatus)
    → IsInitial status
    → KeepsRows (create_comment info now pol site_id thread_id actor_id parent_id body ip ua status)
unfolding create_comment
create_comment-KeepsRows info now pol site_id thread_id actor_id parent_id body ip ua status i =
    Yields-bind (place_of-Keeps pol.max_reply_depth site_id thread_id parent_id) λ place _.
      Yields-bind (Yields-lift (capture_privacy info pol.privacy ip ua) (λ _ _. tt)) λ v _.
        create-KeepsRows (new_comment now site_id thread_id actor_id place body status v)
          (new_comment-IsSound now site_id thread_id actor_id place body status v i)
