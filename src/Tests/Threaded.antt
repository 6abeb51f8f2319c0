-- ===== src/Tests/Threaded.antt =====
-- The theorems on threads, applied.
use furtalk.Base.{◌≡◌, refl, true, false, none, some, [], ◌∷◌, arith}
use furtalk.Domain.Entities.{BatchResult}
use furtalk.Store.{Db, Result}
use furtalk.Store.Threads.{resolve_or_create, update_comments_enabled_many}
use furtalk.ThreadAdmin.{
  AdminThreadUpdateInput, ThreadAction, ThreadBatchInput, admin_update_thread, admin_delete_thread,
  admin_batch_threads, plan_threads, plan_thread,
}
use furtalk.ThreadAdmin.Pages.{ThreadsSound}
use furtalk.ThreadAdmin.Sound
use furtalk.ThreadAdmin.Planned.{with_enabled}
use furtalk.ThreadAdmin.Batched
use furtalk.Tests.Data.{small}

small-ThreadsSound : ThreadsSound small
small-ThreadsSound = record {
  pages = λ s k. ground arith;
  ids = λ s i. ground arith;
  bounded = (omega arith, tt);
}

-- The thread gets another key and is closed; another page is opened.
abbrev update : AdminThreadUpdateInput
update = record {
  page_key = some (113 ∷ []);
  page_title = record { set = true; value = none };
  page_url = record { set = false; value = none };
  comments_enabled = some false;
}

abbrev batch : ThreadBatchInput
batch = record { ids = 1 ∷ []; action = ThreadAction.disable; confirm = false }

admin_update_thread-ThreadsSound_example :
    ThreadsSound (admin_update_thread (λ url. true) 1 1 update small).1
    × ThreadsSound (admin_delete_thread 1 1 true small).1
    × ThreadsSound (admin_batch_threads 1 batch small).1
    × ThreadsSound (resolve_or_create 1 (114 ∷ []) none none small).1
admin_update_thread-ThreadsSound_example =
    Sound.admin_update_thread-ThreadsSound (λ url. true) 1 1 update true batch (114 ∷ []) none none
      small small-ThreadsSound

abbrev closed : Result BatchResult × Db
closed = admin_batch_threads 1 batch small

admin_batch_threads-with_enabled_example : closed.1 ≡ with_enabled 1 (1 ∷ []) false small
unfolding admin_batch_threads plan_threads plan_thread update_comments_enabled_many
admin_batch_threads-with_enabled_example =
    Batched.admin_batch_threads-with_enabled 1 batch false small closed.1
      (record { requested_count = 1; changed_count = 1; unchanged_count = 0 }) small-ThreadsSound
      refl refl
