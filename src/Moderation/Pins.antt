-- ===== src/Moderation/Pins.antt =====
-- Who is pinned, and by whom, and what the write leaves.
use furtalk.Base.{
  ℕ, ◌≡◌, refl, Bool, true, false, not, ◌&&◌, Option, none, some, List, [], ◌∷◌, find?,
  find?-passes, update_where, if◌then◌else◌, arith,
}
use furtalk.Base.Equality.{◌==◌, nat_eq, bool_eq}
use furtalk.Domain.{
  Role, UserStatus, CommentStatus, role_eq, user_status_eq, comment_status_eq, forbidden, not_found,
}
use furtalk.Domain.Entities.{Comment, Principal}
use furtalk.Store.{Db, ok, lift, or_raise, raise_if, ◌>>=◌, ◌>>◌}
use furtalk.Store.Comments.{is_row, find_by_site_and_id, set_comments, set_pinned}
use furtalk.Moderation.Commands.{PinResult, set_pin, validate_pin_target, widget_set_pinned}

abbrev pub with_pin : Bool → Comment → Comment
with_pin pinned c = record c { is_pinned = pinned }

-- The database in which the row has the flag, and no other row and no other column has changed.
abbrev pub pinned_in : ℕ → ℕ → Bool → Db → Db
pinned_in site_id id pinned db =
    set_comments db (update_where (is_row site_id id) (with_pin pinned) db.comments)

find?-pinned :
    (site_id id : ℕ) (pinned : Bool) (cs : List Comment) (c : Comment)
    → find? (is_row site_id id) cs ≡ some c
    → find? (is_row site_id id) (update_where (is_row site_id id) (with_pin pinned) cs)
      ≡ some (with_pin pinned c)
find?-pinned site_id id pinned [] c e = absurd (ground arith)
find?-pinned site_id id pinned (x ∷ xs) c e = ground (arith, e, find?-pinned site_id id pinned xs c)

-- The write goes to the row that was asked for, and to it alone.
set_pin_exact :
    (site_id id : ℕ) (pinned : Bool) (db : Db) (c : Comment)
    → find? (is_row site_id id) db.comments ≡ some c
    → set_pin site_id id pinned db ≡ (
      ok (record { comment_id = id; is_pinned = pinned }),
      if c.is_pinned == pinned then db else pinned_in site_id id pinned db,
    )
unfolding set_pinned find_by_site_and_id
set_pin_exact site_id id pinned db c f = ground (
  arith,
  f,
  find?-passes (is_row site_id id) db.comments c f,
  find?-pinned site_id id pinned db.comments c f,
)

-- What a success says of the row that was asked for, of the answer and of the database after.
abbrev pub Repins : ℕ → ℕ → Bool → PinResult → Db → Db → Type 0
Repins site_id id pinned r db db' =
    (c : Comment) × (find? (is_row site_id id) db.comments ≡ some c)
    × (c.parent_id ≡ none)
    × (c.root_id ≡ none)
    × (c.depth ≡ 0)
    × (pinned ≡ true → c.status ≡ CommentStatus.published)
    × (r ≡ record { comment_id = id; is_pinned = pinned })
    × (db' ≡ (if c.is_pinned == pinned then db else pinned_in site_id id pinned db))

repinned :
    (site_id id : ℕ) (pinned : Bool) (r : PinResult) (db db' : Db) (o : Option Comment)
    → find? (is_row site_id id) db.comments ≡ o
    → (or_raise o not_found >>= λ c.
          lift (validate_pin_target c pinned) >> set_pin site_id id pinned)
        db
      ≡ (ok r, db')
    → Repins site_id id pinned r db db'
unfolding validate_pin_target
repinned site_id id pinned r db db' none f e = absurd (ground (arith, e))
repinned site_id id pinned r db db' (some c) f e =
    let s = set_pin_exact site_id id pinned db c f in
    (
      c,
      f,
      ground (arith, e),
      ground (arith, e),
      ground (arith, e),
      λ q. ground (arith, e, q),
      ground (arith, e, s),
      ground (arith, e, s),
    )

-- If a widget pins or unpins a comment, then an active administrator asked for it, the comment is
-- a root of depth 0, it is published if it was to be pinned, and the answer names the comment and
-- its new flag. If the flag had that value already, nothing changes; if not, the row of this site and
-- number gets it, and no other row and no other column changes.
pub widget_set_pinned_guard :
    (p : Principal) (site_id id : ℕ) (pinned : Bool) (r : PinResult) (db db' : Db)
    → widget_set_pinned p site_id id pinned db ≡ (ok r, db')
    → (p.role ≡ Role.admin) × (p.status ≡ UserStatus.active) × Repins site_id id pinned r db db'
unfolding widget_set_pinned find_by_site_and_id
widget_set_pinned_guard p site_id id pinned r db db' e =
    guarded (not (p.status == UserStatus.active && p.role == Role.admin)) refl e
  where
    guarded :
        (b : Bool)
        → not (p.status == UserStatus.active && p.role == Role.admin) ≡ b
        → (raise_if b forbidden
              >> (find_by_site_and_id site_id id >>= λ c.
                  lift (validate_pin_target c pinned) >> set_pin site_id id pinned))
            db
          ≡ (ok r, db')
        → (p.role ≡ Role.admin) × (p.status ≡ UserStatus.active) × Repins site_id id pinned r db db'
    guarded true q e = absurd (ground (arith, e))
    guarded false q e = (
      ground (arith, q),
      ground (arith, q),
      repinned site_id id pinned r db db' (find? (is_row site_id id) db.comments) refl e,
    )
