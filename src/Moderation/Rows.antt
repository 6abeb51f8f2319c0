-- ===== src/Moderation/Rows.antt =====
-- What holds of every row of `comments`, and that the single-comment commands keep it.
use furtalk.Base.{
  ℕ, ◌≡◌, refl, Bool, true, false, not, ◌&&◌, ◌||◌, Option, none, some, is_some, All,
  All-update_where, All-find?, arith,
}
use furtalk.Base.Equality.{◌==◌, nat_eq}
use furtalk.Domain.{CommentStatus, comment_status_eq, conflict}
use furtalk.Domain.Entities.{Comment}
use furtalk.Store.{Db, Action, pure, raise_if, ◌>>◌}
use furtalk.Store.Comments.{
  update_status, with_status, is_row, find_global_by_id, find_by_site_and_id,
}
use furtalk.Store.Contract.{Yields, Keeps, Yields-bind, Yields-raise_if, Yields-pure, Yields-raise}
use furtalk.Views.{Env}
use furtalk.Moderation.Transition.{AdminAction, can_transition, restore_to, apply_admin_transition}
use furtalk.Moderation.Commands.{admin_transition}

-- A pending comment has no time of publication and a published one has; the history of a
-- deletion is there exactly in a deleted row, and names an active status.
abbrev pub status_is_sound : CommentStatus → Option CommentStatus → Option ℕ → Option ℕ → Bool
status_is_sound CommentStatus.pending before published_at deleted_at =
    not (is_some before) && not (is_some published_at) && not (is_some deleted_at)
status_is_sound CommentStatus.published before published_at deleted_at =
    not (is_some before) && is_some published_at && not (is_some deleted_at)
status_is_sound CommentStatus.spam before published_at deleted_at =
    not (is_some before) && not (is_some deleted_at)
status_is_sound CommentStatus.deleted none published_at deleted_at = false
status_is_sound CommentStatus.deleted (some s) published_at deleted_at =
    not (s == CommentStatus.deleted) && is_some deleted_at

-- Only a root comment is pinned.
abbrev pub pin_is_sound : Comment → Bool
pin_is_sound c = not c.is_pinned || not (is_some c.parent_id || is_some c.root_id) && c.depth == 0

abbrev pub IsSound : Comment → Type 0
IsSound c =
    (status_is_sound c.status c.status_before_delete c.published_at c.deleted_at ≡ true)
    × (pin_is_sound c ≡ true)

abbrev pub RowsSound : Db → Type 0
RowsSound db = All IsSound db.comments

-- The call leaves a sound database, whether it succeeds or fails, and its value has the property.
abbrev pub SoundYields : {A : Type 0} → (A → Type 0) → Action A → Type 0
SoundYields = Yields RowsSound

abbrev pub KeepsRows : {A : Type 0} → Action A → Type 0
KeepsRows = Keeps RowsSound

pub find_global_by_id-IsSound : (id : ℕ) → SoundYields IsSound (find_global_by_id id)
unfolding find_global_by_id
find_global_by_id-IsSound id = record {
  run = λ db h. grind (arith, All-find? IsSound (λ c. c.id == id) db.comments);
}

pub find_by_site_and_id-IsSound :
    (site_id id : ℕ) → SoundYields IsSound (find_by_site_and_id site_id id)
unfolding find_by_site_and_id
find_by_site_and_id-IsSound site_id id = record {
  run = λ db h. grind (arith, All-find? IsSound (is_row site_id id) db.comments);
}

pub update_status-KeepsRows :
    (site_id id : ℕ) (s : CommentStatus) (before : Option CommentStatus) (p d : Option ℕ)
    → status_is_sound s before p d ≡ true
    → KeepsRows (update_status site_id id s before p d)
unfolding update_status
update_status-KeepsRows site_id id s before p d good = record {
  run = λ db h. ground (
    arith,
    All-update_where IsSound (is_row site_id id) (with_status s before p d) (λ c _ k. (good, k.1))
        db.comments h,
  );
}

-- The write of a transition is guarded by the row that was read.
guarded-KeepsRows :
    (c : Comment) (test : Bool) (s : CommentStatus) (before : Option CommentStatus) (p d : Option ℕ)
    → (test ≡ false → status_is_sound s before p d ≡ true)
    → KeepsRows (raise_if test conflict >> (update_status c.site_id c.id s before p d >> pure true))
guarded-KeepsRows c test s before p d good = Yields-bind (Yields-raise_if test conflict) λ _ t.
    Yields-bind (update_status-KeepsRows c.site_id c.id s before p d (good t))
      λ _ _. Yields-pure true tt

apply_admin_transition-KeepsRows :
    (c : Comment) (action : AdminAction) (now : ℕ)
    → IsSound c
    → KeepsRows (apply_admin_transition c action now)
unfolding apply_admin_transition can_transition
apply_admin_transition-KeepsRows c AdminAction.publish now s =
    guarded-KeepsRows c _ _ _ _ _ (λ _. refl)
apply_admin_transition-KeepsRows c AdminAction.pending now s =
    guarded-KeepsRows c _ _ _ _ _ (λ _. refl)
apply_admin_transition-KeepsRows c AdminAction.spam now s =
    guarded-KeepsRows c _ _ _ _ _ (λ _. refl)
apply_admin_transition-KeepsRows c AdminAction.soft_delete now s =
    guarded-KeepsRows c _ _ _ _ _ (λ t. ground arith)
apply_admin_transition-KeepsRows c AdminAction.restore now s = restored c.status_before_delete refl
  where
    restored :
        (before : Option CommentStatus)
        → c.status_before_delete ≡ before
        → KeepsRows (restore_to c now before)
    restored none e = Yields-raise conflict
    restored (some target) e = guarded-KeepsRows c _ _ _ _ _ (λ t. ground arith)

-- Reading the comment, applying the transition and reading it again keeps every row sound, and the
-- comment that is returned is sound.
pub admin_transition-IsSound :
    (env : Env) (id : ℕ) (action : AdminAction)
    → SoundYields IsSound (admin_transition env id action)
unfolding admin_transition
admin_transition-IsSound env id action = Yields-bind (find_global_by_id-IsSound id) λ c s.
    Yields-bind (apply_admin_transition-KeepsRows c action env.now s)
      λ _ _. find_global_by_id-IsSound id
