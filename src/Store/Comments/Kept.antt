-- ===== src/Store/Comments/Kept.antt =====
-- The statements on `comments` keep a property of the rows that their writes keep.
use furtalk.Base.{
  ℕ, zero, suc, ◌≡◌, Bool, true, not, List, [], ◌∷◌, map, filter, any, length, All, All-filter,
  All-update_where,
}
use furtalk.Base.Equality.{nat_eq, pointer_eq}
use furtalk.Domain.{not_found}
use furtalk.Domain.Entities.{Comment}
use furtalk.Store.{Db}
use furtalk.Store.Contract.{Keeps, Yields-bind, Yields-gets, Yields-raise_if, Keeps-modify}
use furtalk.Store.Comments.{
  CommentKey, key_of, refers_to, delete_cascade, update_comments, detach_comment_children,
  delete_comments, hard_delete, has_parent, has_root, clear_parent, clear_root, is_row,
}
use furtalk.Store.Comments.Cascade.{cascade, has_key}

-- A property of each comment.
abbrev pub AllComments : (Comment → Type 0) → Db → Type 0
AllComments S db = All S db.comments

module _ (S : Comment → Type 0) where
  pub update_comments-Keeps :
      (p : Comment → Bool) (f : Comment → Comment)
      → ((c : Comment) → p c ≡ true → S c → S (f c))
      → Keeps (AllComments S) (update_comments p f)
  update_comments-Keeps p f k = Keeps-modify _ (λ db h. All-update_where S p f k db.comments h)

  cascade-All :
      (fuel : ℕ) (victims : List CommentKey) (cs : List Comment)
      → All S cs
      → All S (cascade fuel victims cs)
  unfolding cascade
  cascade-All zero victims cs h = h
  cascade-All (suc fuel) victims cs h =
      next (filter (λ c. any (refers_to c) victims) rest) (λ l. cascade-All fuel l rest left)
    where
      rest : List Comment
      rest = filter (λ c. not (any (has_key c) victims)) cs

      left : All S rest
      left = All-filter S _ cs h

      next :
          (children : List Comment)
          → ((l : List CommentKey) → All S (cascade fuel l rest))
          → All S
              (elim children [ [] ↦ rest | c ∷ more ↦ cascade fuel (map key_of (c ∷ more)) rest ])
      next [] ih = left
      next (c ∷ more) ih = ih (map key_of (c ∷ more))

  pub delete_comments-All :
      (victims : List CommentKey) (db : Db)
      → AllComments S db
      → AllComments S (delete_comments victims db)
  unfolding delete_cascade
  delete_comments-All victims db h = cascade-All (suc (length db.comments)) victims db.comments h

  pub hard_delete-Keeps : (site_id id : ℕ) → Keeps (AllComments S) (hard_delete site_id id)
  unfolding hard_delete
  hard_delete-Keeps site_id id =
      Yields-bind (Yields-gets (λ db. any (is_row site_id id) db.comments)) λ hit _.
        Yields-bind (Yields-raise_if (not hit) not_found) λ _ _.
          Keeps-modify (delete_comments ((site_id, id) ∷ []))
            (delete_comments-All ((site_id, id) ∷ []))

  -- Clearing the references of replies keeps what does not ask for them.
  pub detach_comment_children-Keeps :
      ((c : Comment) → S c → S (clear_parent c) × S (clear_root c))
      → (site_id id : ℕ) → Keeps (AllComments S) (detach_comment_children site_id id)
  unfolding detach_comment_children
  detach_comment_children-Keeps k site_id id =
      Yields-bind (update_comments-Keeps (has_parent site_id id) clear_parent (λ c _ h. (k c h).0))
        λ _ _. update_comments-Keeps (has_root site_id id) clear_root (λ c _ h. (k c h).1)
