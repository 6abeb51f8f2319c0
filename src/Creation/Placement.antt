-- ===== src/Creation/Placement.antt =====
-- Where a new comment lands in its thread.
use furtalk.Base.{
  ℕ, suc, ◌+◌, ◌≤◌, ◌≡◌, refl, Option, none, some, List, [], ◌∷◌, ◌++◌, find?, arith, ap, subst,
  sym,
}
use furtalk.Base.Equality.{nat_eq}
use furtalk.Domain.{CommentStatus, comment_status_eq, privacy_mode_eq, not_found}
use furtalk.Domain.Entities.{Captured, Comment, CommentPolicy, Text}
use furtalk.Store.{Db, Result, ok, err, raise, catch, or_raise, lift, ◌>>=◌}
use furtalk.Store.Comments
use furtalk.Store.Comments.{is_row, set_comments}
use furtalk.Creation.Reply.{
  ClientInfo, Place, at_root, under, root_of, place_under, place_of, missing_parent, new_comment,
  capture_privacy, create_comment,
}

-- The comment's place, told by its parent's row: a published comment of the same thread, above the
-- depth limit, whose root becomes the comment's root.
abbrev pub IsPlaced : ℕ → ℕ → ℕ → List Comment → Option ℕ → Comment → Type 0
IsPlaced max_depth site_id thread_id rows none c =
    (c.parent_id ≡ none) × (c.root_id ≡ none) × (c.depth ≡ 0)
IsPlaced max_depth site_id thread_id rows (some parent_id) c =
    (parent : Comment) × (find? (is_row site_id parent_id) rows ≡ some parent)
    × (parent.thread_id ≡ thread_id)
    × (parent.status ≡ CommentStatus.published)
    × (c.parent_id ≡ some parent_id)
    × (c.root_id ≡ root_of parent)
    × (c.reply_to_user_id ≡ some parent.user_id)
    × (c.depth ≡ suc parent.depth)
    × (c.depth ≤ max_depth)

-- The table with the new row at its end.
abbrev pub with_row : Db → Comment → Db
with_row db c = record db { comments = db.comments ++ c ∷ []; next_comment = db.next_comment + 1 }

-- The checks on a parent pass only for a published comment of the thread above the depth limit.
place_under-checks :
    (max_depth thread_id parent_id : ℕ) (parent : Comment) (place : Place) (db db' : Db)
    → place_under max_depth thread_id parent_id parent db ≡ (ok place, db')
    → (db' ≡ db)
      × (place ≡ under parent_id parent)
      × (parent.thread_id ≡ thread_id)
      × (parent.status ≡ CommentStatus.published)
      × (suc parent.depth ≤ max_depth)
place_under-checks max_depth thread_id parent_id parent place db db' e = ground arith

-- The place that the checks hand on, before it is written into a row.
abbrev pub IsPlace : ℕ → ℕ → ℕ → List Comment → Option ℕ → Place → Type 0
IsPlace max_depth site_id thread_id rows none place = place ≡ at_root
IsPlace max_depth site_id thread_id rows (some parent_id) place =
    (parent : Comment) × (find? (is_row site_id parent_id) rows ≡ some parent)
    × (parent.thread_id ≡ thread_id)
    × (parent.status ≡ CommentStatus.published)
    × (place ≡ under parent_id parent)
    × (suc parent.depth ≤ max_depth)

place_of-IsPlace :
    (max_depth site_id thread_id : ℕ) (parent_id : Option ℕ) (place : Place) (db db' : Db)
    → place_of max_depth site_id thread_id parent_id db ≡ (ok place, db')
    → (db' ≡ db) × IsPlace max_depth site_id thread_id db.comments parent_id place
unfolding place_of Comments.find_by_site_and_id
place_of-IsPlace max_depth site_id thread_id none place db db' e = ground arith
place_of-IsPlace max_depth site_id thread_id (some parent_id) place db db' e =
    looked_up (find? (is_row site_id parent_id) db.comments) refl e
  where
    looked_up :
        (o : Option Comment)
        → find? (is_row site_id parent_id) db.comments ≡ o
        → (catch (or_raise o not_found) (λ e. raise (missing_parent e)) >>= λ parent.
              place_under max_depth thread_id parent_id parent)
            db
          ≡ (ok place, db')
        → (db' ≡ db) × IsPlace max_depth site_id thread_id db.comments (some parent_id) place
    looked_up none o e = absurd (ground arith)
    looked_up (some parent) o e =
        let c = place_under-checks max_depth thread_id parent_id parent place db db' e in
        (c.0, (parent, o, c.2, c.3, c.1, c.4))

-- The row that `Create` writes.
abbrev pub stored : ℕ → ℕ → ℕ → ℕ → Place → Text → CommentStatus → Captured → ℕ → Comment
stored now site_id thread_id actor_id place body status captured id =
    record (new_comment now site_id thread_id actor_id place body status captured) { id = id }

stored-IsPlaced :
    (max_depth now site_id thread_id actor_id : ℕ) (rows : List Comment) (parent_id : Option ℕ)
    (place : Place) (body : Text) (status : CommentStatus) (captured : Captured) (id : ℕ)
    → IsPlace max_depth site_id thread_id rows parent_id place
    → IsPlaced max_depth site_id thread_id rows parent_id
        (stored now site_id thread_id actor_id place body status captured id)
stored-IsPlaced max_depth now site_id thread_id actor_id rows none place body status captured id h =
    (ap (λ p. p.parent_id) h, ap (λ p. p.root_id) h, ap (λ p. p.depth) h)
stored-IsPlaced max_depth now site_id thread_id actor_id rows (some p) place body status captured id
      (parent, found, same, live, at, deep) =
    (
      parent,
      found,
      same,
      live,
      ap (λ p. p.parent_id) at,
      ap (λ p. p.root_id) at,
      ap (λ p. p.reply_to_user_id) at,
      ap (λ p. p.depth) at,
      subst (λ d. d ≤ max_depth) (sym (ap (λ p. p.depth) at)) deep,
    )

-- If `createComment` returns a comment, then the comment is the new last row of the table and
-- nothing else of the database changes but the next identifier; it has the requested site, thread,
-- author, body and status. A comment without a parent is a root of depth 0. One with a parent
-- answers a published comment of the same site and thread, is one deeper than it but within the
-- policy's limit, and has its root, or the parent itself, as its root.
pub create_comment-IsPlaced :
    (info : ClientInfo) (now : ℕ) (pol : CommentPolicy) (site_id thread_id actor_id : ℕ)
    (parent_id : Option ℕ) (body : Text) (ip : Option Text) (ua : Text) (status : CommentStatus)
    (c : Comment) (db db' : Db)
    → create_comment info now pol site_id thread_id actor_id parent_id body ip ua status db
      ≡ (ok c, db')
    → (db' ≡ with_row db c)
      × (c.id ≡ db.next_comment)
      × (c.site_id ≡ site_id)
      × (c.thread_id ≡ thread_id)
      × (c.user_id ≡ actor_id)
      × (c.body_markdown ≡ body)
      × (c.status ≡ status)
      × IsPlaced pol.max_reply_depth site_id thread_id db.comments parent_id c
unfolding create_comment Comments.create
create_comment-IsPlaced info now pol site_id thread_id actor_id parent_id body ip ua status c db db'
      e =
    stepped (place_of pol.max_reply_depth site_id thread_id parent_id db) refl e
  where
    Claim : Comment → Type 0
    Claim c =
        (db' ≡ with_row db c)
        × (c.id ≡ db.next_comment)
        × (c.site_id ≡ site_id)
        × (c.thread_id ≡ thread_id)
        × (c.user_id ≡ actor_id)
        × (c.body_markdown ≡ body)
        × (c.status ≡ status)
        × IsPlaced pol.max_reply_depth site_id thread_id db.comments parent_id c

    written :
        (place : Place) (db1 : Db)
        → (db1 ≡ db) × IsPlace pol.max_reply_depth site_id thread_id db.comments parent_id place
        → (r : Result Captured)
        → (lift r >>= λ v.
              Comments.create (new_comment now site_id thread_id actor_id place body status v))
            db1
          ≡ (ok c, db')
        → Claim c
    written place db1 h (err x) e = absurd (ground arith)
    written place db1 h (ok v) e = subst Claim same (
      subst (λ x. x ≡ with_row db row) left refl,
      refl,
      refl,
      refl,
      refl,
      refl,
      refl,
      stored-IsPlaced pol.max_reply_depth now site_id thread_id actor_id db.comments parent_id place
          body status v db.next_comment h.1,
    )
      where
        row : Comment
        row = stored now site_id thread_id actor_id place body status v db.next_comment

        at_db :
            Comments.create (new_comment now site_id thread_id actor_id place body status v) db
            ≡ (ok c, db')
        at_db =
            subst
              (λ x.
                Comments.create (new_comment now site_id thread_id actor_id place body status v) x
                ≡ (ok c, db'))
              h.0 e

        same : row ≡ c
        same = ground arith

        left : with_row db row ≡ db'
        left = ground arith

    stepped :
        (r : Result Place × Db)
        → place_of pol.max_reply_depth site_id thread_id parent_id db ≡ r
        → ((λ _. r) >>= λ place. lift (capture_privacy info pol.privacy ip ua) >>= λ v.
              Comments.create (new_comment now site_id thread_id actor_id place body status v))
            db
          ≡ (ok c, db')
        → Claim c
    stepped (err x, db1) o e = absurd (ground arith)
    stepped (ok place, db1) o e =
        written place db1
          (place_of-IsPlace pol.max_reply_depth site_id thread_id parent_id place db db1 o)
          (capture_privacy info pol.privacy ip ua) e
