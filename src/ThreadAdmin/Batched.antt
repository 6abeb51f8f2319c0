-- ===== src/ThreadAdmin/Batched.antt =====
-- A batch that opens or closes threads writes only the rows that differ; its effect is that of one
-- write to all the threads that it names.
use furtalk.Base.{
  ℕ, ◌≡◌, refl, subst, ◌∙◌, Bool, true, false, not, ◌&&◌, List, filter, sort, distinct_ids, length,
  arith,
}
use furtalk.Base.Equality.{nat_eq}
use furtalk.Domain.{Error, validation, confirmation_required}
use furtalk.Domain.Entities.{BatchResult}
use furtalk.Store.{Db, Action, Result, ok, err, pure, lift, run_in_tx, raise_if, ◌>>=◌, ◌>>◌}
use furtalk.Batch.Commands.{require_rows}
use furtalk.Store.Threads.{in_threads, update_comments_enabled_many}
use furtalk.ThreadAdmin.{
  ThreadBatchInput, ThreadPlan, plan_threads, admin_batch_threads, is_bad_batch, deletes,
  batch_body, batch_counts, write_threads,
}
use furtalk.ThreadAdmin.Pages.{ThreadsSound}
use furtalk.ThreadAdmin.Planned.{action_for, with_enabled, planned-with_enabled}

-- A body that succeeds in a transaction, behind three guards.
body_of :
    {T : Type 0} (x y z : Bool) (e f g : Error) (body : Action T) (db db' : Db) (r : T)
    → (raise_if x e >> (raise_if y f >> (raise_if z g >> run_in_tx body))) db ≡ (ok r, db')
    → body db ≡ (ok r, db')
body_of true y z e f g body db db' r h = absurd (ground (arith, h))
body_of false true z e f g body db db' r h = absurd (ground (arith, h))
body_of false false true e f g body db db' r h = absurd (ground (arith, h))
body_of {T} false false false e f g body db db' r h = go (body db) h
  where
    go : (x : Result T × Db) → run_in_tx (λ _. x) db ≡ (ok r, db') → x ≡ (ok r, db')
    go (ok a, d) k = k
    go (err a, d) k = absurd (ground (arith, k))

written :
    (site : ℕ) (ids : List ℕ) (enabled : Bool) (p : ThreadPlan) (db db' : Db) (r : BatchResult)
    → (do
      n ← write_threads (action_for enabled) site p.write_ids
      require_rows n (length p.write_ids)
      pure (batch_counts (length ids) p))
        db
      ≡ (ok r, db')
    → db' ≡ with_enabled site p.write_ids enabled db
unfolding update_comments_enabled_many
written site ids true p db db' r h = ground (arith, h)
written site ids false p db db' r h = ground (arith, h)

-- A batch that opens, or closes, threads and succeeds has set the flag of every thread of the site
-- whose identifier it was given, as one write would, and has changed nothing else, though it writes
-- only the rows that differ. The table of threads is sound before.
pub admin_batch_threads-with_enabled :
    (site : ℕ) (input : ThreadBatchInput) (enabled : Bool) (db db' : Db) (r : BatchResult)
    → ThreadsSound db
    → input.action ≡ action_for enabled
    → admin_batch_threads site input db ≡ (ok r, db')
    → db' ≡ with_enabled site (sort input.ids) enabled db
unfolding admin_batch_threads
admin_batch_threads-with_enabled site input enabled db db' r h a e =
    go (plan_threads (action_for enabled) (filter (in_threads site ids) db.threads) ids) refl (
      subst (λ x. batch_body site x ids db ≡ (ok r, db')) a
        (body_of (is_bad_batch site input) (deletes input.action && not input.confirm)
          (not (distinct_ids 0 (sort input.ids))) validation confirmation_required validation
          (batch_body site input.action ids) db db' r e))
  where
    ids : List ℕ
    ids = sort input.ids

    go :
        (plan : Result ThreadPlan)
        → plan_threads (action_for enabled) (filter (in_threads site ids) db.threads) ids ≡ plan
        → (do
          p ← lift plan
          n ← write_threads (action_for enabled) site p.write_ids
          require_rows n (length p.write_ids)
          pure (batch_counts (length ids) p))
            db
          ≡ (ok r, db')
        → db' ≡ with_enabled site ids enabled db
    go (err x) f g = absurd (ground (arith, g))
    go (ok p) f g =
        written site ids enabled p db db' r g ∙ planned-with_enabled site ids enabled db p h f
