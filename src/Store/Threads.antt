-- ===== src/Store/Threads.antt =====
-- internal/repository/thread.go: the statements on the table `threads`, unique by site and page key.
use furtalk.Base.{
  ℕ, ◌+◌, Bool, true, false, not, ◌&&◌, Option, none, some, List, [], ◌∷◌, ◌++◌, find?, filter, any,
  count, map, update_where, is_some, ◌||◌, if◌then◌else◌,
}
use furtalk.Base.Equality.{◌==◌, contains, nat_eq, text_eq}
use furtalk.Domain.{not_found, conflict}
use furtalk.Domain.Entities.{Thread, Text}
use furtalk.Store.{Db, Action, pure, gets, or_raise, raise_if, modify, ◌>>=◌, ◌>>◌}
use furtalk.Store.Comments.{key_of, delete_comments}

abbrev pub is_page : ℕ → Text → Thread → Bool
is_page site_id page_key t = t.site_id == site_id && t.page_key == page_key

abbrev pub is_thread : ℕ → ℕ → Thread → Bool
is_thread site_id id t = t.site_id == site_id && t.id == id

unfoldable pub get_by_site_and_key : ℕ → Text → Action Thread
get_by_site_and_key site_id page_key = do
  or_raise (← gets (λ db. find? (is_page site_id page_key) db.threads)) not_found

unfoldable pub get_by_site_and_id : ℕ → ℕ → Action Thread
get_by_site_and_id site_id id = do
  or_raise (← gets (λ db. find? (is_thread site_id id) db.threads)) not_found

-- A value that is given replaces the old one.
abbrev pub or_old : Option Text → Option Text → Option Text
or_old none old = old
or_old (some new) old = some new

-- INSERT … ON CONFLICT (site_id, page_key) DO UPDATE, by whether the page is known. A new thread
-- takes comments (the column's default).
unfoldable pub upsert : Bool → ℕ → Text → Option Text → Option Text → Db → Db
upsert true site_id page_key page_url page_title db = record db {
  threads =
      update_where (is_page site_id page_key)
        (λ t. record t {
          page_url = or_old page_url t.page_url;
          page_title = or_old page_title t.page_title;
        })
        db.threads;
}
upsert false site_id page_key page_url page_title db = record db {
  threads =
      db.threads
      ++ record {
        id = db.next_thread;
        site_id = site_id;
        page_key = page_key;
        page_url = page_url;
        page_title = page_title;
        comments_enabled = true;
      }
        ∷ [];
  next_thread = db.next_thread + 1;
}

-- `ResolveOrCreate`.
unfoldable pub resolve_or_create : ℕ → Text → Option Text → Option Text → Action Thread
unfolding get_by_site_and_key upsert
resolve_or_create site_id page_key page_url page_title = do
  known ← gets (λ db. any (is_page site_id page_key) db.threads)
  modify (upsert known site_id page_key page_url page_title)
  get_by_site_and_key site_id page_key

abbrev pub in_threads : ℕ → List ℕ → Thread → Bool
in_threads site_id ids t = t.site_id == site_id && contains ids t.id

unfoldable pub update_comments_enabled_many : ℕ → List ℕ → Bool → Action ℕ
update_comments_enabled_many site_id ids enabled = do
  affected ← gets (λ db. count (in_threads site_id ids) db.threads)
  modify (λ db. record db {
    threads =
        update_where (in_threads site_id ids) (λ t. record t { comments_enabled = enabled })
          db.threads;
  })
  pure affected

-- Deleting threads deletes their comments (ON DELETE CASCADE).
abbrev pub delete_threads_where : (Thread → Bool) → Db → Db
delete_threads_where p db =
    let gone = filter p db.threads in
    let victims =
      map key_of (filter (λ c. any (is_thread c.site_id c.thread_id) gone) db.comments) in
    delete_comments victims (record db { threads = filter (λ t. not (p t)) db.threads })

unfoldable pub delete_thread : ℕ → ℕ → Action (Unit {0})
delete_thread site_id id = do
  hit ← gets (λ db. any (is_thread site_id id) db.threads)
  raise_if (not hit) not_found
  modify (delete_threads_where (is_thread site_id id))

unfoldable pub delete_threads : ℕ → List ℕ → Action ℕ
delete_threads site_id ids = do
  affected ← gets (λ db. count (in_threads site_id ids) db.threads)
  modify (delete_threads_where (in_threads site_id ids))
  pure affected

-- `domain.ThreadPatch`: what is given is written, and a title or URL can be cleared.
pub record ThreadPatch : Type 0 where
  pub page_key : Option Text
  pub page_title : Option Text
  pub clear_page_title : Bool
  pub page_url : Option Text
  pub clear_page_url : Bool
  pub comments_enabled : Option Bool

abbrev pub is_empty_patch : ThreadPatch → Bool
is_empty_patch p = not (
    is_some p.page_key
    || is_some p.page_title
    || p.clear_page_title
    || is_some p.page_url
    || p.clear_page_url
    || is_some p.comments_enabled)

abbrev pub or_kept : {A : Type 0} → Option A → A → A
or_kept none old = old
or_kept (some new) old = new

abbrev pub patched : ThreadPatch → Thread → Thread
patched p t = record t {
  page_key = or_kept p.page_key t.page_key;
  page_title = if p.clear_page_title then none else or_old p.page_title t.page_title;
  page_url = if p.clear_page_url then none else or_old p.page_url t.page_url;
  comments_enabled = or_kept p.comments_enabled t.comments_enabled;
}

-- Another row has the site and the page key: the unique index refuses the write.
abbrev pub is_taken : ℕ → ℕ → Text → Thread → Bool
is_taken site_id id page_key t = is_page site_id page_key t && not (t.id == id)

unfoldable pub update_thread : ℕ → ℕ → ThreadPatch → Action Thread
unfolding get_by_site_and_id
update_thread site_id id p = do
  row ← get_by_site_and_id site_id id
  taken ← gets (λ db. any (is_taken site_id id (or_kept p.page_key row.page_key)) db.threads)
  if is_empty_patch p
      then pure row
      else raise_if taken conflict
        >> (modify (λ db. record db {
          threads = update_where (is_thread site_id id) (patched p) db.threads;
        })
            >> get_by_site_and_id site_id id)
