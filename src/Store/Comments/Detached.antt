-- ===== src/Store/Comments/Detached.antt =====
-- Deleting a comment whose replies were detached takes its own row alone: the cascade finds nothing.
use furtalk.Base.{
  ℕ, ◌≡◌, refl, Bool, not, List, [], ◌∷◌, map, length, filter, any, update_where, arith,
}
use furtalk.Domain.Entities.{Comment}
use furtalk.Store.Comments.{
  CommentKey, key_of, refers_to, is_row, has_parent, has_root, clear_parent, clear_root,
  delete_cascade,
}
use furtalk.Store.Comments.Cascade.{cascade, has_key}

-- The rows with no reference to the comment left.
abbrev pub detached : ℕ → ℕ → List Comment → List Comment
detached site_id id cs =
    update_where (has_root site_id id) clear_root
      (update_where (has_parent site_id id) clear_parent cs)

abbrev pub without : ℕ → ℕ → List Comment → List Comment
without site_id id = filter (λ c. not (is_row site_id id c))

-- After the detachment no row refers to the comment, whichever rows one looks at.
none-refers :
    (site_id id : ℕ) (p : Comment → Bool) (cs : List Comment)
    → filter (λ c. any (refers_to c) ((site_id, id) ∷ [])) (filter p (detached site_id id cs)) ≡ []
none-refers site_id id p [] = refl
none-refers site_id id p (c ∷ cs) = ground (arith, none-refers site_id id p cs)

pub any-detached :
    (site_id id : ℕ) (cs : List Comment)
    → any (is_row site_id id) (detached site_id id cs) ≡ any (is_row site_id id) cs
any-detached site_id id [] = refl
any-detached site_id id (c ∷ cs) = ground (arith, any-detached site_id id cs)

-- The test of the cascade for one key is the test of the statement.
filter-key :
    (site_id id : ℕ) (cs : List Comment)
    → filter (λ c. not (any (has_key c) ((site_id, id) ∷ []))) cs ≡ without site_id id cs
filter-key site_id id [] = refl
filter-key site_id id (c ∷ cs) = ground (arith, filter-key site_id id cs)

pub delete_cascade-detached :
    (site_id id : ℕ) (cs : List Comment)
    → delete_cascade ((site_id, id) ∷ []) (detached site_id id cs)
      ≡ without site_id id (detached site_id id cs)
unfolding delete_cascade cascade
delete_cascade-detached site_id id cs = rounds (filter (λ c. any (refers_to c) victims) rest) refl
  where
    victims : List CommentKey
    victims = (site_id, id) ∷ []

    rest : List Comment
    rest = filter (λ c. not (any (has_key c) victims)) (detached site_id id cs)

    rounds :
        (children : List Comment)
        → filter (λ c. any (refers_to c) victims) rest ≡ children
        → (elim children [
          | [] ↦ rest
          | c ∷ more ↦ cascade (length (detached site_id id cs)) (map key_of (c ∷ more)) rest
        ])
          ≡ without site_id id (detached site_id id cs)
    rounds [] e = filter-key site_id id (detached site_id id cs)
    rounds (c ∷ more) e =
        absurd (ground (arith, e, none-refers site_id id (λ c. not (any (has_key c) victims)) cs))
