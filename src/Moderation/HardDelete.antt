-- ===== src/Moderation/HardDelete.antt =====
-- What a hard deletion of one comment does to the database.
use furtalk.Base.{ℕ, ◌≡◌, List, any, if◌then◌else◌, arith}
use furtalk.Domain.{not_found}
use furtalk.Domain.Entities.{Comment}
use furtalk.Store.{Db, ok, err}
use furtalk.Store.Comments.{is_row, keep_likes, detach_comment_children, hard_delete}
use furtalk.Store.Comments.Detached.{detached, without, any-detached, delete_cascade-detached}
use furtalk.Moderation.Commands.{hard_delete_one, hard_delete_in_current_tx}

-- What is left of the table: the other rows, those that referred to the comment cleared.
abbrev pub remaining : ℕ → ℕ → Db → List Comment
remaining site_id id db = without site_id id (detached site_id id db.comments)

-- What is left of the database: likes of rows that are gone go too.
abbrev pub deleted_from : ℕ → ℕ → Db → Db
deleted_from site_id id db = record db {
  comments = remaining site_id id db;
  likes = keep_likes (remaining site_id id db) db.likes;
}

-- A hard deletion of a comment that exists takes its row and no other one: replies stay, with their
-- references to it cleared, and only likes of rows that are gone go. If there is no such comment,
-- the deletion fails and nothing changes.
pub hard_delete_one_exact :
    (site_id id : ℕ) (db : Db)
    → hard_delete_one site_id id db ≡ (
        if any (is_row site_id id) db.comments
        then (ok tt, deleted_from site_id id db)
        else (err not_found, db))
unfolding hard_delete_one hard_delete_in_current_tx detach_comment_children hard_delete
hard_delete_one_exact site_id id db =
    ground
      (arith, any-detached site_id id db.comments, delete_cascade-detached site_id id db.comments)
