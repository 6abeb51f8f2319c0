-- ===== src/ThreadAdmin.antt =====
-- internal/service/comment/thread_admin.go and thread_batch.go: how administrators change and delete
-- threads. The times of the rows and the listings of threads are left out.
pub mod Pages
pub mod Kept
pub mod Sound
pub mod Planned
pub mod Batched
use furtalk.Base.{
  ℕ, suc, Bool, true, false, not, ◌&&◌, ◌||◌, Option, none, some, List, [], ◌∷◌, is_some, find?,
  filter, length, leb, ltb, sort, distinct_ids, if◌then◌else◌,
}
use furtalk.Base.Equality.{◌==◌, nat_eq, text_eq}
use furtalk.Domain.{Error, validation, not_found, confirmation_required, resource}
use furtalk.Domain.Entities.{BatchResult, Text, Thread}
use furtalk.Store.{
  Action, Result, ok, err, pure, raise, lift, gets, raise_if, run_in_tx, ◌>>=◌, ◌>>◌,
}
use furtalk.Store.Threads.{
  ThreadPatch, update_thread, delete_thread, delete_threads, update_comments_enabled_many,
  in_threads,
}
use furtalk.Text.{trim_space, byte_length}
use furtalk.Batch.Commands.{max_limit, require_rows}
use furtalk.Creation.Commands.{site_get}
use furtalk.Creation.Validation.{max_page_key_length, max_page_title_length, validate_page_url}

-- `OptionalNullableString`: leave, clear or overwrite.
pub record NullableText : Type 0 where
  pub set : Bool
  pub value : Option Text

pub record AdminThreadUpdateInput : Type 0 where
  pub page_key : Option Text
  pub page_title : NullableText
  pub page_url : NullableText
  pub comments_enabled : Option Bool

pub record AdminThreadView : Type 0 where
  pub id : ℕ
  pub site_id : ℕ
  pub site_name : Text
  pub page_key : Text
  pub page_url : Option Text
  pub page_title : Option Text
  pub comments_enabled : Bool

abbrev pub changes_nothing : AdminThreadUpdateInput → Bool
changes_nothing input =
    not (is_some input.page_key)
    && not input.page_title.set
    && not input.page_url.set
    && not (is_some input.comments_enabled)

abbrev pub trimmed : Option Text → Text
trimmed none = []
trimmed (some t) = trim_space t

unfoldable pub page_key_of : Option Text → Result (Option Text)
page_key_of none = ok none
page_key_of (some raw) =
    if trim_space raw == [] || ltb max_page_key_length (byte_length (trim_space raw))
    then err validation
    else ok (some (trim_space raw))

-- The value to write, if any, and whether the field is cleared.
abbrev pub given : Text → Result (Option Text × Bool)
given t = ok (some t, false)

abbrev pub left : Result (Option Text × Bool)
left = ok (none, false)

abbrev pub cleared : Result (Option Text × Bool)
cleared = ok (none, true)

unfoldable pub page_title_of : NullableText → Result (Option Text × Bool)
page_title_of op =
    if not op.set
    then left
    else if trimmed op.value == []
    then cleared
    else if ltb max_page_title_length (byte_length (trimmed op.value))
    then err validation
    else given (trimmed op.value)

abbrev pub valid_url : Text → Result (Unit {0}) → Result (Option Text × Bool)
valid_url url (ok u) = given url
valid_url url (err e) = err validation

unfoldable pub page_url_of : (Text → Bool) → NullableText → Result (Option Text × Bool)
page_url_of is_http op =
    if not op.set
    then left
    else if trimmed op.value == []
    then cleared
    else valid_url (trimmed op.value) (validate_page_url is_http (some (trimmed op.value)))

unfoldable pub admin_thread_view : ℕ → Thread → Action AdminThreadView
admin_thread_view site_id t = do
  site ← site_get site_id
  pure (record {
    id = t.id;
    site_id = t.site_id;
    site_name = site.name;
    page_key = t.page_key;
    page_url = t.page_url;
    page_title = t.page_title;
    comments_enabled = t.comments_enabled;
  })

-- The patch that an input asks for.
unfoldable pub patch_of : (Text → Bool) → AdminThreadUpdateInput → Action ThreadPatch
unfolding page_key_of page_title_of page_url_of
patch_of is_http input = do
  raise_if (changes_nothing input) validation
  key ← lift (page_key_of input.page_key)
  title ← lift (page_title_of input.page_title)
  url ← lift (page_url_of is_http input.page_url)
  pure (record {
    page_key = key;
    page_title = title.0;
    clear_page_title = title.1;
    page_url = url.0;
    clear_page_url = url.1;
    comments_enabled = input.comments_enabled;
  })

unfoldable pub admin_update_thread :
    (Text → Bool) → ℕ → ℕ → AdminThreadUpdateInput → Action AdminThreadView
unfolding patch_of admin_thread_view
admin_update_thread is_http site_id thread_id input = do
  patch ← patch_of is_http input
  t ← update_thread site_id thread_id patch
  admin_thread_view site_id t

unfoldable pub admin_delete_thread : ℕ → ℕ → Bool → Action (Unit {0})
admin_delete_thread site_id thread_id confirm = do
  raise_if (not confirm) confirmation_required
  delete_thread site_id thread_id

pub data ThreadAction : Type 0 where
  enable disable hard_delete unknown : ThreadAction

abbrev pub is_known_action : ThreadAction → Bool
is_known_action ThreadAction.unknown = false
is_known_action _ = true

abbrev pub deletes : ThreadAction → Bool
deletes ThreadAction.hard_delete = true
deletes _ = false

unfoldable pub plan_thread : Thread → ThreadAction → Result Bool
plan_thread t ThreadAction.enable = ok (not t.comments_enabled)
plan_thread t ThreadAction.disable = ok t.comments_enabled
plan_thread t ThreadAction.hard_delete = ok true
plan_thread t ThreadAction.unknown = err validation

pub record ThreadPlan : Type 0 where
  pub write_ids : List ℕ
  pub unchanged_count : ℕ

abbrev pub add_changed : ℕ → Bool → Result ThreadPlan → Result ThreadPlan
add_changed id changed (err e) = err e
add_changed id true (ok p) = ok (record p { write_ids = id ∷ p.write_ids })
add_changed id false (ok p) = ok (record p { unchanged_count = suc p.unchanged_count })

abbrev pub after_thread : ThreadAction → ℕ → Option Thread → Result ThreadPlan → Result ThreadPlan
after_thread action id none rest = err (resource id not_found)
after_thread action id (some t) rest = elim (plan_thread t action) [
  | err e ↦ err (resource id e)
  | ok changed ↦ add_changed id changed rest
]

-- The loop over the identifiers: the first failure is the error of the batch.
unfoldable pub plan_threads : ThreadAction → List Thread → List ℕ → Result ThreadPlan
unfolding plan_thread
plan_threads action rows [] = ok (record { write_ids = []; unchanged_count = 0 })
plan_threads action rows (id ∷ ids) =
    after_thread action id (find? (λ t. t.id == id) rows) (plan_threads action rows ids)

abbrev pub write_threads : ThreadAction → ℕ → List ℕ → Action ℕ
write_threads ThreadAction.hard_delete site_id ids = delete_threads site_id ids
write_threads ThreadAction.enable site_id ids = update_comments_enabled_many site_id ids true
write_threads _ site_id ids = update_comments_enabled_many site_id ids false

pub record ThreadBatchInput : Type 0 where
  pub ids : List ℕ
  pub action : ThreadAction
  pub confirm : Bool

abbrev pub batch_counts : ℕ → ThreadPlan → BatchResult
batch_counts n p = record {
  requested_count = n;
  changed_count = length p.write_ids;
  unchanged_count = p.unchanged_count;
}

abbrev pub batch_body : ℕ → ThreadAction → List ℕ → Action BatchResult
batch_body site_id action ids = do
  rows ← gets (λ db. filter (in_threads site_id ids) db.threads)
  plan ← lift (plan_threads action rows ids)
  n ← write_threads action site_id plan.write_ids
  require_rows n (length plan.write_ids)
  pure (batch_counts (length ids) plan)

abbrev pub is_bad_batch : ℕ → ThreadBatchInput → Bool
is_bad_batch site_id input =
    site_id == 0
    || length input.ids == 0
    || ltb max_limit (length input.ids)
    || not (is_known_action input.action)

unfoldable pub admin_batch_threads : ℕ → ThreadBatchInput → Action BatchResult
unfolding plan_threads
admin_batch_threads site_id input = do
  raise_if (is_bad_batch site_id input) validation
  raise_if (deletes input.action && not input.confirm) confirmation_required
  raise_if (not (distinct_ids 0 (sort input.ids))) validation
  run_in_tx (batch_body site_id input.action (sort input.ids))
