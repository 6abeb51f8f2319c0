-- ===== src/Creation/Sound.antt =====
-- The commands of create.go keep the rows of `comments` sound.
use furtalk.Base.{ℕ, Bool, true, false, not, Option, none, some, arith, any}
use furtalk.Base.Equality.{◌==◌, nat_eq, text_eq}
use furtalk.Domain.{
  CommentStatus, Role, UserStatus, comment_status_eq, comment_mode_eq, role_eq, user_status_eq,
  is_not_found, is_conflict, authorization_required, invalid_credentials, thread_closed, validation,
}
use furtalk.Domain.Entities.{Comment, CommentPolicy, Text, User, Principal}
use furtalk.Store.{Db, Action, Result, ok, err}
use furtalk.Store.Contract.{
  Keeps, Yields-bind, Yields-pure, Yields-if, Yields-raise, Yields-lift, Yields-raise_if,
  Yields-gets, Keeps-modify,
}
use furtalk.Store.Users
use furtalk.Store.Threads
use furtalk.Text.{Parsers, trim_space, is_blank}
use furtalk.Views.Reads.{
  find_by_id-Keeps, get_by_site_and_key-Keeps, get_by_site_and_id-Keeps, catch-Keeps,
}
use furtalk.Moderation.Rows.{RowsSound, KeepsRows}
use furtalk.Creation.Validation
use furtalk.Creation.Author.{
  Credential, WebsiteOperation, actor_of, actor_of_address, actor_of_credential, optional_user,
  resolve_and_sync_actor, author_in_tx, created_or_found, new_user, may_write,
  apply_website_operation,
}
use furtalk.Creation.Kept.{IsInitial, create_comment-KeepsRows}
use furtalk.Creation.Commands.{Services, CreateInput, create_in_tx, reply_in_tx}

find_by_email-Keeps : {P : Db → Type 0} (e : Text) → Keeps P (Users.find_by_email_normalized e)
unfolding Users.find_by_email_normalized
find_by_email-Keeps e = record { run = λ db p. grind arith }

create-KeepsRows : (u : User) → KeepsRows (Users.create u)
unfolding Users.create
create-KeepsRows u = record { run = λ db h. ground (arith, h) }

update_profile-KeepsRows :
    (id : ℕ) (nickname : Text) (website : Option Text)
    → KeepsRows (Users.update_profile id nickname website)
unfolding Users.update_profile
update_profile-KeepsRows id nickname website = record { run = λ db h. ground (arith, h) }

resolve_or_create-KeepsRows :
    (site_id : ℕ) (key : Text) (url title : Option Text)
    → KeepsRows (Threads.resolve_or_create site_id key url title)
unfolding Threads.resolve_or_create Threads.upsert
resolve_or_create-KeepsRows site_id key url title =
    Yields-bind (Yields-gets (λ db. any (Threads.is_page site_id key) db.threads)) λ known _.
      Yields-bind
        (Keeps-modify (Threads.upsert known site_id key url title) (upsert-RowsSound known))
        λ _ _. get_by_site_and_key-Keeps site_id key
  where
    upsert-RowsSound :
        (known : Bool) (db : Db)
        → RowsSound db
        → RowsSound (Threads.upsert known site_id key url title db)
    upsert-RowsSound true db h = h
    upsert-RowsSound false db h = h

pub optional_user-Keeps :
    {P : Db → Type 0} {m : Action User} → Keeps P m → Keeps P (optional_user m)
optional_user-Keeps k =
    catch-Keeps (Yields-bind k (λ u _. Yields-pure (ok u) tt)) (λ e. Yields-pure (err e) tt)

pub actor_of-Keeps :
    {P : Db → Type 0} (resolve : ℕ → Result Principal) (pol : CommentPolicy) (site_id : ℕ)
    (normalized : Text) (cred : Option Credential)
    → Keeps P (actor_of resolve pol site_id normalized cred)
unfolding actor_of actor_of_address actor_of_credential Users.find_by_email_normalized
    Users.find_by_id
actor_of-Keeps resolve pol site_id normalized none = record { run = λ db p. ground (arith, p) }
actor_of-Keeps resolve pol site_id normalized (some cred) = record {
  run = λ db p. ground (arith, p);
}

module _ (ps : Parsers) (domain_allowed : Text → Result (Unit {0})) where
  created_or_found-KeepsRows :
      (original normalized nickname : Text)
      → KeepsRows (created_or_found ps domain_allowed original normalized nickname)
  created_or_found-KeepsRows original normalized nickname =
      catch-Keeps
        (Yields-bind (Yields-raise_if (is_blank normalized) validation) λ _ _.
          Yields-bind (Yields-lift (domain_allowed normalized) (λ _ _. tt))
            λ _ _. create-KeepsRows (new_user original normalized nickname))
        (λ e. Yields-if (is_conflict e) (λ _. find_by_email-Keeps normalized) (λ _. Yields-raise e))

  author_in_tx-KeepsRows :
      (pol : CommentPolicy) (normalized original nickname : Text) (actor : Option ℕ)
      → KeepsRows (author_in_tx ps domain_allowed pol normalized original nickname actor)
  author_in_tx-KeepsRows pol normalized original nickname none =
      Yields-bind
        (catch-Keeps (find_by_email-Keeps normalized) (λ e.
          Yields-if (is_not_found e) (λ _. created_or_found-KeepsRows original normalized nickname)
            (λ _. Yields-raise e)))
        λ u _. Yields-bind (Yields-raise_if (u.role == Role.admin) authorization_required) λ _ _.
          Yields-bind (Yields-raise_if (not (u.status == UserStatus.active)) invalid_credentials)
            λ _ _. Yields-pure u tt
  author_in_tx-KeepsRows pol normalized original nickname (some id) =
      Yields-bind (find_by_id-Keeps id) λ u _.
        Yields-bind (Yields-raise_if (not (u.email_normalized == normalized)) invalid_credentials)
          λ _ _.
            Yields-bind
              (Yields-raise_if (not (may_write pol.mode u.status u.role)) invalid_credentials)
              λ _ _. Yields-pure u tt

  resolve_and_sync_actor-KeepsRows :
      (pol : CommentPolicy) (normalized original nickname : Text) (op : WebsiteOperation)
      (actor : Option ℕ)
      → KeepsRows
          (resolve_and_sync_actor ps domain_allowed pol normalized original nickname op actor)
  unfolding resolve_and_sync_actor
  resolve_and_sync_actor-KeepsRows pol normalized original nickname op actor =
      Yields-bind (author_in_tx-KeepsRows pol normalized original nickname actor) λ u _.
        Yields-bind (Yields-lift (apply_website_operation ps u.website_url op) (λ _ _. tt))
          λ website _.
            Yields-bind (update_profile-KeepsRows u.id nickname website) λ _ _. Yields-pure u.id tt

module _ (s : Services) where
  pub create_in_tx-KeepsRows :
      (pol : CommentPolicy) (input : CreateInput) (emails : Text × Text) (actor : Option ℕ)
      (status : CommentStatus)
      → IsInitial status
      → KeepsRows (create_in_tx s pol input emails actor status)
  unfolding create_in_tx
  create_in_tx-KeepsRows pol input emails actor status i =
      Yields-bind
        (resolve_or_create-KeepsRows input.site_id input.page_key
          (Validation.normalize_optional_string input.page_url)
          (Validation.normalize_optional_string input.page_title))
        λ thread _.
          Yields-bind (get_by_site_and_key-Keeps input.site_id input.page_key) λ current _.
            Yields-bind (Yields-raise_if (not current.comments_enabled) thread_closed) λ _ _.
              Yields-bind
                (resolve_and_sync_actor-KeepsRows s.parsers s.domain_allowed pol emails.1 emails.0
                  (trim_space input.nickname) input.website_url actor)
                λ actor_id _.
                  create_comment-KeepsRows s.info s.env.now pol input.site_id thread.id actor_id
                    input.parent_id input.body_markdown input.ip input.ua status i

  pub reply_in_tx-KeepsRows :
      (pol : CommentPolicy) (parent : Comment) (actor_id : ℕ) (body : Text) (ip : Option Text)
      (ua : Text) (status : CommentStatus)
      → IsInitial status
      → KeepsRows (reply_in_tx s pol parent actor_id body ip ua status)
  unfolding reply_in_tx
  reply_in_tx-KeepsRows pol parent actor_id body ip ua status i =
      Yields-bind (get_by_site_and_id-Keeps parent.site_id parent.thread_id) λ t _.
        Yields-bind (Yields-raise_if (not t.comments_enabled) thread_closed) λ _ _.
          create_comment-KeepsRows s.info s.env.now pol parent.site_id parent.thread_id actor_id
            (some parent.id) body ip ua status i
