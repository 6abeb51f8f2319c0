-- ===== src/Moderation/Ownership.antt =====
-- Whose comments an owner's deletion reaches, and what it leaves.
use furtalk.Base.{
  ℕ, ◌≡◌, refl, sym, subst, true, false, not, Option, none, some, List, [], ◌∷◌, find?,
  find?-passes, any, update_where, if◌then◌else◌, arith,
}
use furtalk.Base.Equality.{◌==◌, nat_eq}
use furtalk.Domain.{
  CommentStatus, UserDeleteMode, comment_status_eq, user_delete_mode_eq, not_found, forbidden,
  conflict,
}
use furtalk.Domain.Entities.{Comment, CommentPolicy}
use furtalk.Store.{Db, Result, ok, err, or_raise, raise_if, ◌>>=◌, ◌>>◌}
use furtalk.Store.Comments.{is_row, find_global_by_id, set_comments, update_status, with_status}
use furtalk.Views.{Env}
use furtalk.Moderation.Commands.{
  DeleteResult, deleted, delete_by_owner, delete_as_told, soft_delete_one, is_elsewhere,
}
use furtalk.Moderation.HardDelete.{deleted_from, hard_delete_one_exact}

-- The database in which the rows of this site and number are deleted softly, and no other one.
abbrev pub hidden_in : ℕ → Comment → Db → Db
hidden_in now c db = set_comments db (
    update_where (is_row c.site_id c.id)
      (with_status CommentStatus.deleted (some c.status) c.published_at (some now)) db.comments)

any-found :
    (id : ℕ) (cs : List Comment) (c : Comment)
    → find? (λ c. c.id == id) cs ≡ some c
    → any (is_row c.site_id id) cs ≡ true
any-found id [] c e = absurd (ground arith)
any-found id (x ∷ xs) c e = ground (arith, e, any-found id xs c)

-- The policy's mode decides between the two deletions of the comment.
abbrev pub Deletes : Env → ℕ → Comment → DeleteResult → Db → Db → Type 0
Deletes env id c r db db' =
    (pol : CommentPolicy) × (env.policy ≡ ok pol)
    × (let hard = pol.user_delete_mode == UserDeleteMode.hard in
        (r ≡ deleted id hard)
        × (db' ≡ (if hard then deleted_from c.site_id id db else hidden_in env.now c db)))

delete_as_told-Deletes :
    (env : Env) (id : ℕ) (c : Comment) (r : DeleteResult) (db db' : Db)
    → find? (λ c. c.id == id) db.comments ≡ some c
    → delete_as_told env id c db ≡ (ok r, db')
    → Deletes env id c r db db'
unfolding soft_delete_one update_status
delete_as_told-Deletes env id c r db db' f e = told env.policy refl
  where
    same : c.id ≡ id
    same = ground (arith, find?-passes (λ c. c.id == id) db.comments c f)

    there : any (is_row c.site_id id) db.comments ≡ true
    there = any-found id db.comments c f

    soft : soft_delete_one env c.site_id c db ≡ (ok tt, hidden_in env.now c db)
    soft = ground (arith, subst (λ n. any (is_row c.site_id n) db.comments ≡ true) (sym same) there)

    told : (p : Result CommentPolicy) → env.policy ≡ p → Deletes env id c r db db'
    told (err x) q = absurd (ground (arith, q, e))
    told (ok pol) q = (
      pol,
      q,
      (
        ground (arith, q, e, soft, there, hard_delete_one_exact c.site_id id db),
        ground (arith, q, e, soft, there, hard_delete_one_exact c.site_id id db),
      ),
    )

-- If an owner's deletion succeeds, the comment exists, its author is the one who asked, it was not
-- deleted yet, and it is on the site that the caller named, if he named one. If the policy says so,
-- the deletion is hard, of the comment's row alone (`deleted_from`); if not, the row of this comment
-- becomes deleted, with its status kept for later, and no other row and no other table changes. The
-- answer says which.
pub delete_by_owner_guard :
    (env : Env) (actor_id id : ℕ) (want : Option ℕ) (r : DeleteResult) (db db' : Db)
    → delete_by_owner env actor_id id want db ≡ (ok r, db')
    → (c : Comment) × (find? (λ c. c.id == id) db.comments ≡ some c)
      × (c.user_id ≡ actor_id)
      × ((c.status == CommentStatus.deleted) ≡ false)
      × (is_elsewhere want c ≡ false)
      × Deletes env id c r db db'
unfolding delete_by_owner find_global_by_id
delete_by_owner_guard env actor_id id want r db db' e =
    looked_up (find? (λ c. c.id == id) db.comments) refl e
  where
    looked_up :
        (o : Option Comment)
        → find? (λ c. c.id == id) db.comments ≡ o
        → (or_raise o not_found >>= λ c.
              raise_if (is_elsewhere want c) not_found
              >> (raise_if (not (c.user_id == actor_id)) forbidden
                  >> (raise_if (c.status == CommentStatus.deleted) conflict
                      >> delete_as_told env id c)))
            db
          ≡ (ok r, db')
        → (c : Comment) × (find? (λ c. c.id == id) db.comments ≡ some c)
          × (c.user_id ≡ actor_id)
          × ((c.status == CommentStatus.deleted) ≡ false)
          × (is_elsewhere want c ≡ false)
          × Deletes env id c r db db'
    looked_up none o e = absurd (ground (arith, e))
    looked_up (some c) o e = (
      c,
      o,
      ground (arith, e),
      ground (arith, e),
      ground (arith, e),
      delete_as_told-Deletes env id c r db db' o (ground (arith, e)),
    )
