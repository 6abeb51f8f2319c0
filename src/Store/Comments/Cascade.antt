-- ===== src/Store/Comments/Cascade.antt =====
-- migrations/*/…_initial.sql: the foreign keys of `comments`. Deleting a row deletes the rows of its
-- site whose `parent_id` or `root_id` names it, and so on down (ON DELETE CASCADE).
use furtalk.Base.{
  ℕ, zero, suc, Bool, not, ◌&&◌, ◌||◌, some, List, [], ◌∷◌, map, filter, any, length,
}
use furtalk.Base.Equality.{◌==◌, nat_eq, pointer_eq}
use furtalk.Domain.Entities.{Comment}

abbrev pub CommentKey : Type 0
CommentKey = ℕ × ℕ

-- `(site_id, id)`
abbrev pub key_of : Comment → CommentKey
key_of c = (c.site_id, c.id)

-- The row's parent or root is the row with this key.
abbrev pub refers_to : Comment → CommentKey → Bool
refers_to c (site_id, id) = c.site_id == site_id && (c.parent_id == some id || c.root_id == some id)

abbrev pub has_key : Comment → CommentKey → Bool
has_key c (site_id, id) = c.site_id == site_id && c.id == id

-- One round takes the victims out and goes on with the rows that referred to them; every round
-- but the last takes out a row, so the number of rows is enough fuel.
unfoldable pub cascade : ℕ → List CommentKey → List Comment → List Comment
cascade zero victims cs = cs
cascade (suc fuel) victims cs =
    let rest = filter (λ c. not (any (has_key c) victims)) cs in
    elim (filter (λ c. any (refers_to c) victims) rest) [
      | [] ↦ rest
      | child ∷ children ↦ cascade fuel (map key_of (child ∷ children)) rest
    ]

unfoldable pub delete_cascade : List CommentKey → List Comment → List Comment
delete_cascade victims cs = cascade (suc (length cs)) victims cs
