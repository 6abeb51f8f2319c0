-- ===== src/Tests/Identities.antt =====
-- The theorems on users, applied.
use furtalk.Base.{ℕ, true, false, some, none, [], ◌∷◌, arith}
use furtalk.Domain.{Role, UserDeleteMode}
use furtalk.Store.{Result, ok}
use furtalk.Identity.Batch.{UserAction}
use furtalk.Identity.Commands.{admin_batch_users, admin_delete_user, admin_restore_user}
use furtalk.Identity.Demotion
use furtalk.Identity.LastAdmin
use furtalk.Identity.Removal
use furtalk.Identity.Spares.{HasAdmin}
use furtalk.Identity.Update.{UpdateInput, admin_update_user}
use furtalk.Tests.Data.{small, parsers}

abbrev pub no_cache : ℕ → Result (Unit {0})
no_cache id = ok tt

small-HasAdmin : HasAdmin small
small-HasAdmin = (λ k. ground arith, ground arith)

-- Both administrators in one batch: the second is refused.
admin_batch_users-HasAdmin_example :
    HasAdmin ((admin_batch_users no_cache 9 1 (1 ∷ 2 ∷ []) UserAction.disable false small).1)
admin_batch_users-HasAdmin_example =
    LastAdmin.admin_batch_users-HasAdmin no_cache 9 1 (1 ∷ 2 ∷ []) UserAction.disable false small
      small-HasAdmin

admin_delete_user-HasAdmin_example :
    HasAdmin ((admin_delete_user no_cache 9 1 2 UserDeleteMode.hard true small).1)
admin_delete_user-HasAdmin_example =
    Removal.admin_delete_user-HasAdmin no_cache 9 1 2 UserDeleteMode.hard true small small-HasAdmin

admin_restore_user-HasAdmin_example : HasAdmin ((admin_restore_user no_cache 3 small).1)
admin_restore_user-HasAdmin_example =
    Removal.admin_restore_user-HasAdmin no_cache 3 small small-HasAdmin

abbrev pub demote : UpdateInput
demote = record {
  email = none;
  nickname = none;
  website_url = record { set = false; value = none };
  role = some Role.user;
  status = none;
  email_verified = none;
}

admin_update_user-HasAdmin_example :
    HasAdmin ((admin_update_user no_cache parsers 9 2 demote small).1)
admin_update_user-HasAdmin_example =
    Demotion.admin_update_user-HasAdmin no_cache parsers 9 2 demote small small-HasAdmin
