-- ===== src/Store/Comments.antt =====
-- internal/repository/comment.go and comment_like.go: the statements on the tables `comments` and
-- `comment_likes`. Row locks have no effect here, since calls run one at a time.
mod Cascade
pub mod Detached
pub mod Kept
unfoldable pub use Cascade.{delete_cascade, refers_to, CommentKey, key_of}
use furtalk.Base.{
  ℕ, suc, ◌+◌, Bool, true, false, not, ◌&&◌, Option, none, some, List, [], ◌∷◌, ◌++◌, is_some,
  find?, filter, any, count, update_where, map, if◌then◌else◌,
}
use furtalk.Base.Equality.{◌==◌, nat_eq, bool_eq, pointer_eq, contains}
use furtalk.Domain.{CommentStatus, comment_status_eq, not_found}
use furtalk.Domain.Entities.{Comment, Like, Text}
use furtalk.Store.{Db, Action, pure, raise, gets, or_raise, raise_if, modify, ◌>>=◌, ◌>>◌, ok, err}

-- `site_id = ? AND id = ?`
abbrev pub is_row : ℕ → ℕ → Comment → Bool
is_row site_id id c = c.site_id == site_id && c.id == id

abbrev pub set_comments : Db → List Comment → Db
set_comments db cs = record db { comments = cs }

-- `UPDATE comments … WHERE …`
abbrev pub update_comments : (Comment → Bool) → (Comment → Comment) → Action (Unit {0})
update_comments p f = modify (λ db. set_comments db (update_where p f db.comments))

-- `Create`: the row gets the next identifier.
unfoldable pub create : Comment → Action Comment
create c db =
    let row = record c { id = db.next_comment } in
    (ok row, record db { comments = db.comments ++ row ∷ []; next_comment = db.next_comment + 1 })

unfoldable pub find_by_site_and_id : ℕ → ℕ → Action Comment
find_by_site_and_id site_id id = do
  or_raise (← gets (λ db. find? (is_row site_id id) db.comments)) not_found

unfoldable pub find_global_by_id : ℕ → Action Comment
find_global_by_id id = do or_raise (← gets (λ db. find? (λ c. c.id == id) db.comments)) not_found

unfoldable pub update_body : ℕ → ℕ → Text → Action (Unit {0})
update_body site_id id body = do
  hit ← gets (λ db. any (is_row site_id id) db.comments)
  raise_if (not hit) not_found
  update_comments (is_row site_id id) (λ c. record c { body_markdown = body })

-- The four columns that a change of status writes.
abbrev pub with_status :
    CommentStatus → Option CommentStatus → Option ℕ → Option ℕ → Comment → Comment
with_status status before published_at deleted_at c = record c {
  status = status;
  status_before_delete = before;
  published_at = published_at;
  deleted_at = deleted_at;
}

unfoldable pub update_status :
    ℕ → ℕ → CommentStatus → Option CommentStatus → Option ℕ → Option ℕ → Action (Unit {0})
update_status site_id id status before published_at deleted_at = do
  hit ← gets (λ db. any (is_row site_id id) db.comments)
  raise_if (not hit) not_found
  update_comments (is_row site_id id) (with_status status before published_at deleted_at)

-- `SetPinned`; the write is left out if the flag has the value already.
unfoldable pub set_pinned : ℕ → ℕ → Bool → Action Comment
unfolding find_by_site_and_id
set_pinned site_id id pinned = do
  row ← find_by_site_and_id site_id id
  if row.is_pinned == pinned
      then pure tt
      else update_comments (is_row site_id id) (λ c. record c { is_pinned = pinned })
  find_by_site_and_id site_id id

abbrev pub has_parent : ℕ → ℕ → Comment → Bool
has_parent site_id id c = c.site_id == site_id && c.parent_id == some id

abbrev pub has_root : ℕ → ℕ → Comment → Bool
has_root site_id id c = c.site_id == site_id && c.root_id == some id

abbrev pub clear_parent : Comment → Comment
clear_parent c = record c { parent_id = none }

abbrev pub clear_root : Comment → Comment
clear_root c = record c { root_id = none }

-- `DetachCommentChildren`: two statements, one for each column.
unfoldable pub detach_comment_children : ℕ → ℕ → Action (Unit {0})
detach_comment_children site_id id = do
  update_comments (has_parent site_id id) clear_parent
  update_comments (has_root site_id id) clear_root

-- The likes of the rows that are gone go too (ON DELETE CASCADE).
abbrev pub keep_likes : List Comment → List Like → List Like
keep_likes cs = filter (λ l. any (is_row l.site_id l.comment_id) cs)

-- `DELETE FROM comments` of the rows with the given keys, with the cascades.
abbrev pub delete_comments : List CommentKey → Db → Db
delete_comments victims db =
    let left = delete_cascade victims db.comments in
    record db { comments = left; likes = keep_likes left db.likes }

unfoldable pub hard_delete : ℕ → ℕ → Action (Unit {0})
hard_delete site_id id = do
  hit ← gets (λ db. any (is_row site_id id) db.comments)
  raise_if (not hit) not_found
  modify (delete_comments ((site_id, id) ∷ []))

-- What `SoftDeleteByUser` writes, each row keeping its own status before the deletion.
abbrev pub soft_deleted : ℕ → Comment → Comment
soft_deleted now c = record c {
  status = CommentStatus.deleted;
  status_before_delete = some c.status;
  deleted_at = some now;
}

unfoldable pub soft_delete_by_user : ℕ → ℕ → Action (Unit {0})
soft_delete_by_user user_id now =
    update_comments (λ c. c.user_id == user_id && not (c.status == CommentStatus.deleted))
      (soft_deleted now)

-- `SoftDeleteByUsers`: the same for several users, in one statement.
unfoldable pub soft_delete_by_users : List ℕ → ℕ → Action (Unit {0})
soft_delete_by_users users now =
    update_comments (λ c. contains users c.user_id && not (c.status == CommentStatus.deleted))
      (soft_deleted now)

-- The identifiers of a user's comments: `SELECT id FROM comments WHERE user_id = ?`.
abbrev pub ids_of_users : List ℕ → List Comment → List ℕ
ids_of_users users cs = map (λ c. c.id) (filter (λ c. contains users c.user_id) cs)

abbrev pub points_into : List ℕ → Option ℕ → Bool
points_into ids none = false
points_into ids (some id) = contains ids id

-- Another user's comment whose parent, or root, is among the identifiers.
abbrev pub foreign_parent : List ℕ → List ℕ → Comment → Bool
foreign_parent users owned c = not (contains users c.user_id) && points_into owned c.parent_id

abbrev pub foreign_root : List ℕ → List ℕ → Comment → Bool
foreign_root users owned c = not (contains users c.user_id) && points_into owned c.root_id

-- `DetachUserCommentChildrenMany`; for one user it is `DetachUserCommentChildren`. The second
-- statement reads the users' comments again, after the first has written.
unfoldable pub detach_user_comment_children : List ℕ → Action (Unit {0})
detach_user_comment_children users = do
  owned ← gets (λ db. ids_of_users users db.comments)
  update_comments (foreign_parent users owned) clear_parent
  owned' ← gets (λ db. ids_of_users users db.comments)
  update_comments (foreign_root users owned') clear_root
