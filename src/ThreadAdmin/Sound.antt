-- ===== src/ThreadAdmin/Sound.antt =====
-- Every command on threads keeps their table sound.
use furtalk.Base.{ℕ, Bool, not, ◌&&◌, Option, List, filter, find?, sort, distinct_ids, length}
use furtalk.Base.Equality.{◌==◌, nat_eq, text_eq}
use furtalk.Domain.{not_found, confirmation_required, validation, internal}
use furtalk.Domain.Entities.{Text, Thread}
use furtalk.Store.{Db}
use furtalk.Store.Contract.{
  Keeps, Yields-bind, Yields-gets, Yields-raise_if, Yields-lift, Yields-pure, Yields-run_in_tx,
  Yields-lookup, Keeps-of_Yields, after,
}
use furtalk.Store.Threads.{in_threads, resolve_or_create}
use furtalk.ThreadAdmin.{
  AdminThreadUpdateInput, ThreadBatchInput, patch_of, admin_update_thread, admin_delete_thread,
  admin_batch_threads, admin_thread_view, plan_threads, is_bad_batch, deletes, batch_counts,
  batch_body, page_key_of, page_title_of, page_url_of, changes_nothing,
}
use furtalk.ThreadAdmin.Pages.{ThreadsSound, update_thread-Keeps}
use furtalk.ThreadAdmin.Kept.{resolve_or_create-Keeps, delete_thread-Keeps, write_threads-Keeps}

batch-Keeps :
    (site : ℕ) (input : ThreadBatchInput) → Keeps ThreadsSound (admin_batch_threads site input)
unfolding admin_batch_threads
batch-Keeps site input = Yields-bind (Yields-raise_if (is_bad_batch site input) validation) (λ _ _.
    Yields-bind (Yields-raise_if (deletes input.action && not input.confirm) confirmation_required)
      (λ _ _.
        Yields-bind (Yields-raise_if (not (distinct_ids 0 (sort input.ids))) validation)
          (λ _ _. Yields-run_in_tx (body (sort input.ids)))))
  where
    body : (ids : List ℕ) → Keeps ThreadsSound (batch_body site input.action ids)
    body ids = Yields-bind (Yields-gets (λ db. filter (in_threads site ids) db.threads)) (λ rows _.
        Yields-bind (Yields-lift (plan_threads input.action rows ids) (λ p e. tt)) (λ p _.
          Yields-bind (write_threads-Keeps input.action site p.write_ids) (λ n _.
            Yields-bind (Keeps-of_Yields (Yields-raise_if (not (n == length p.write_ids)) internal))
              (λ _ _. Yields-pure (batch_counts (length ids) p) tt))))

patch_of-Keeps :
    (is_http : Text → Bool) (input : AdminThreadUpdateInput)
    → Keeps ThreadsSound (patch_of is_http input)
unfolding patch_of
patch_of-Keeps is_http input =
    Yields-bind (Yields-raise_if (changes_nothing input) validation) (λ _ _.
      Yields-bind (Yields-lift (page_key_of input.page_key) (λ x e. tt)) (λ key _.
        Yields-bind (Yields-lift (page_title_of input.page_title) (λ x e. tt)) (λ title _.
          Yields-bind (Yields-lift (page_url_of is_http input.page_url) (λ x e. tt)) (λ url _.
            Yields-pure
              (record {
                page_key = key;
                page_title = title.0;
                clear_page_title = title.1;
                page_url = url.0;
                clear_page_url = url.1;
                comments_enabled = input.comments_enabled;
              })
              tt))))

view-Keeps : (site : ℕ) (t : Thread) → Keeps ThreadsSound (admin_thread_view site t)
unfolding admin_thread_view
view-Keeps site t =
    Yields-bind
      (Yields-lookup (λ db. find? (λ s. s.id == site) db.sites) not_found (λ db p s e. tt))
      (λ s _.
        Yields-pure
          (record {
            id = t.id;
            site_id = t.site_id;
            site_name = s.name;
            page_key = t.page_key;
            page_url = t.page_url;
            page_title = t.page_title;
            comments_enabled = t.comments_enabled;
          })
          tt)

update-Keeps :
    (is_http : Text → Bool) (site id : ℕ) (input : AdminThreadUpdateInput)
    → Keeps ThreadsSound (admin_update_thread is_http site id input)
unfolding admin_update_thread
update-Keeps is_http site id input =
    Yields-bind (patch_of-Keeps is_http input)
      (λ patch _. Yields-bind (update_thread-Keeps site id patch) (λ t _. view-Keeps site t))

delete-Keeps :
    (site id : ℕ) (confirm : Bool) → Keeps ThreadsSound (admin_delete_thread site id confirm)
unfolding admin_delete_thread
delete-Keeps site id confirm =
    Yields-bind (Yields-raise_if (not confirm) confirmation_required)
      (λ _ _. delete_thread-Keeps site id)

-- The table of threads is sound if no page of a site has two threads, no two threads of a site have
-- one identifier, and every identifier is below the next one. An update, a deletion and a batch by
-- an administrator, and the creation of a thread for a comment, keep it so, whatever their outcome.
pub admin_update_thread-ThreadsSound :
    (is_http : Text → Bool) (site id : ℕ) (input : AdminThreadUpdateInput) (confirm : Bool)
    (batch : ThreadBatchInput) (key : Text) (url title : Option Text) (db : Db)
    → ThreadsSound db
    → ThreadsSound (admin_update_thread is_http site id input db).1
      × ThreadsSound (admin_delete_thread site id confirm db).1
      × ThreadsSound (admin_batch_threads site batch db).1
      × ThreadsSound (resolve_or_create site key url title db).1
admin_update_thread-ThreadsSound is_http site id input confirm batch key url title db h = (
  after (update-Keeps is_http site id input) db h,
  after (delete-Keeps site id confirm) db h,
  after (batch-Keeps site batch) db h,
  after (resolve_or_create-Keeps site key url title) db h,
)
