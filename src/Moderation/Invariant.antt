-- ===== src/Moderation/Invariant.antt =====
-- Every outcome of a single-comment command leaves the rows of `comments` sound: a status fits the
-- columns that go with it, and only a root is pinned.
use furtalk.Base.{ℕ, Bool, Option}
use furtalk.Store.{Db}
use furtalk.Store.Contract.{after}
use furtalk.Views.{Env}
use furtalk.Moderation.Transition.{AdminAction}
use furtalk.Moderation.Commands.{admin_publish, admin_change, delete_by_owner, admin_delete}
use furtalk.Moderation.Rows.{RowsSound}
use furtalk.Moderation.Kept.{
  admin_publish-KeepsRows, admin_change-KeepsRows, delete_by_owner-KeepsRows,
  admin_delete-KeepsRows,
}

-- If every row of `comments` is sound, then every row is sound after a comment is published,
-- whether the command succeeds or fails.
pub admin_publish-RowsSound :
    (env : Env) (id : ℕ) (db : Db) → RowsSound db → RowsSound ((admin_publish env id db).1)
admin_publish-RowsSound env id db h = after (admin_publish-KeepsRows env id) db h

-- If every row of `comments` is sound, then every row is sound after a comment is marked as spam
-- or pending, deleted softly, restored or published by a transition, whether the command succeeds
-- or fails.
pub admin_change-RowsSound :
    (env : Env) (id : ℕ) (action : AdminAction) (db : Db)
    → RowsSound db
    → RowsSound ((admin_change env id action db).1)
admin_change-RowsSound env id action db h = after (admin_change-KeepsRows env id action) db h

-- If every row of `comments` is sound, then every row is sound after an owner's deletion, soft or
-- hard as the policy says, whether the command succeeds or fails.
pub delete_by_owner-RowsSound :
    (env : Env) (actor_id id : ℕ) (want : Option ℕ) (db : Db)
    → RowsSound db
    → RowsSound ((delete_by_owner env actor_id id want db).1)
delete_by_owner-RowsSound env actor_id id want db h =
    after (delete_by_owner-KeepsRows env actor_id id want) db h

-- If every row of `comments` is sound, then every row is sound after an administrator's deletion,
-- soft or hard, whether the command succeeds or fails.
pub admin_delete-RowsSound :
    (env : Env) (id : ℕ) (hard confirm : Bool) (db : Db)
    → RowsSound db
    → RowsSound ((admin_delete env id hard confirm db).1)
admin_delete-RowsSound env id hard confirm db h =
    after (admin_delete-KeepsRows env id hard confirm) db h
