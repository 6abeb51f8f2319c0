-- ===== src/Creation/Invariant.antt =====
-- Every outcome of `Create` and `CreateReplyFirstParty` leaves the rows of `comments` sound.
use furtalk.Base.{ℕ, [], Bool, true, false, not, ◌&&◌, Option, leb, if◌then◌else◌, arith}
use furtalk.Base.Equality.{◌==◌, nat_eq, text_eq, contains}
use furtalk.Domain.{
  CommentStatus, CommentMode, Role, comment_status_eq, comment_mode_eq, role_eq, user_status_eq,
  is_not_found, conflict, thread_closed, forbidden, parent_not_found, parent_deleted,
  depth_exceeded,
}
use furtalk.Domain.Entities.{
  Comment, CommentPolicy, Text, Thread, User, CommentEvent, comment_created,
}
use furtalk.Store.{Db, Action, Result, ok, err, raise, lift, raise_if, catch, publish}
use furtalk.Store.Contract.{
  Keeps, after, Yields-bind, Yields-pure, Yields-if, Yields-raise, Yields-lift, Yields-raise_if,
  Yields-run_in_tx, Keeps-of_Yields,
}
use furtalk.Store.Comments
use furtalk.Text.{normalize_email, trim_space}
use furtalk.Views.{event_of}
use furtalk.Views.Reads.{
  find_by_id-Keeps, get_by_site_and_key-Keeps, get_by_site_and_id-Keeps, catch-Keeps,
  view_for-Keeps,
}
use furtalk.Moderation.Rows.{RowsSound, KeepsRows, find_global_by_id-IsSound}
use furtalk.Creation.Validation
use furtalk.Creation.Kept.{ask_detectors-IsInitial}
use furtalk.Creation.Commands.{
  Services, CreateInput, validate_nickname, SpamInput, ask_detectors, create,
  create_reply_first_party, validate_request, validate_site_and_origin, site_get,
  site_canonical_url, check_thread, thread_or, optional_thread, seen_of_request, seen_of_reply,
  page_of, check_parent,
}
use furtalk.Creation.Sound.{
  create_in_tx-KeepsRows, reply_in_tx-KeepsRows, actor_of-Keeps, optional_user-Keeps,
}

site_get-Keeps : {P : Db → Type 0} (id : ℕ) → Keeps P (site_get id)
site_get-Keeps id = record { run = λ db p. grind arith }

validate_site_and_origin-Keeps :
    {P : Db → Type 0} (site_id : ℕ) (origin : Text)
    → Keeps P (validate_site_and_origin site_id origin)
unfolding validate_site_and_origin
validate_site_and_origin-Keeps site_id origin =
    Yields-bind
      (catch-Keeps (site_get-Keeps site_id)
        (λ e. Yields-raise (if is_not_found e then forbidden else e)))
      λ site _.
        Yields-bind (Yields-raise_if (not site.is_active) forbidden)
          λ _ _. of_guard (not (contains site.origins origin))
  where
    of_guard : {P : Db → Type 0} (b : Bool) → Keeps P (raise_if b forbidden)
    of_guard true = Yields-raise forbidden
    of_guard false = Yields-pure tt tt

site_canonical_url-Keeps : {P : Db → Type 0} (site_id : ℕ) → Keeps P (site_canonical_url site_id)
site_canonical_url-Keeps site_id =
    catch-Keeps (Yields-bind (site_get-Keeps site_id) (λ s _. Yields-pure s.canonical_url tt))
      (λ e. Yields-pure [] tt)

optional_thread-Keeps :
    {P : Db → Type 0} {m : Action Thread} → Keeps P m → Keeps P (optional_thread m)
optional_thread-Keeps k =
    catch-Keeps (Yields-bind k (λ t _. Yields-pure (ok t) tt)) (λ e. Yields-pure (err e) tt)

thread_or-Keeps : {P : Db → Type 0} (r : Result Thread) → Keeps P (thread_or r)
thread_or-Keeps (ok t) = guard (not t.comments_enabled)
  where
    guard : {P : Db → Type 0} (b : Bool) → Keeps P (raise_if b thread_closed)
    guard true = Yields-raise thread_closed
    guard false = Yields-pure tt tt
thread_or-Keeps (err e) = Yields-if (is_not_found e) (λ _. Yields-pure tt tt) (λ _. Yields-raise e)

check_thread-Keeps :
    {P : Db → Type 0} (site_id : ℕ) (key : Text) → Keeps P (check_thread site_id key)
unfolding check_thread
check_thread-Keeps site_id key =
    Yields-bind (optional_thread-Keeps (get_by_site_and_key-Keeps site_id key))
      λ r _. thread_or-Keeps r

publish-KeepsRows : (ev : CommentEvent) → KeepsRows (publish ev)
publish-KeepsRows ev = record { run = λ db h. (h, tt) }

lift-Keeps : {P : Db → Type 0} {A : Type 0} (r : Result A) → Keeps P (lift r)
lift-Keeps r = Yields-lift r (λ _ _. tt)

module _ (s : Services) where
  validate_request-Keeps :
      {P : Db → Type 0} (input : CreateInput) → Keeps P (validate_request s input)
  validate_request-Keeps input =
      Yields-bind (validate_site_and_origin-Keeps input.site_id input.origin) λ _ _.
        Yields-bind (lift-Keeps (Validation.validate_body s.is_markdown input.body_markdown)) λ _ _.
          Yields-bind (lift-Keeps (Validation.validate_page_key input.page_key)) λ _ _.
            Yields-bind
              (lift-Keeps (
                Validation.validate_page_url s.is_http
                  (Validation.normalize_optional_string input.page_url)))
              λ _ _.
                Yields-bind
                  (lift-Keeps (
                    Validation.validate_page_title
                      (Validation.normalize_optional_string input.page_title)))
                  λ _ _.
                    Yields-bind (lift-Keeps (normalize_email s.parsers input.email)) λ emails _.
                      Yields-bind (lift-Keeps (validate_nickname (trim_space input.nickname)))
                        λ _ _. Yields-pure emails tt

  -- If every row of `comments` is sound, then every row is sound after a comment is created
  -- through the widget, whether the command succeeds or fails.
  pub create-RowsSound :
      (input : CreateInput) (db : Db) → RowsSound db → RowsSound ((create s input db).1)
  unfolding create
  create-RowsSound input db h = after kept db h
    where
      kept : KeepsRows (create s input)
      kept = Yields-bind (validate_request-Keeps input) λ emails _.
          Yields-bind (lift-Keeps s.env.policy) λ pol _.
            Yields-bind (check_thread-Keeps input.site_id input.page_key) λ _ _.
              Yields-bind (actor_of-Keeps s.resolve pol input.site_id emails.1 input.credential)
                λ actor _.
                  Yields-bind
                    (lift-Keeps (
                      Validation.check_captcha pol.captcha_policy s.verify_captcha
                        input.captcha_token))
                    λ _ _. Yields-bind (site_canonical_url-Keeps input.site_id) λ blog_url _.
                      Yields-bind
                        (Yields-run_in_tx (
                          create_in_tx-KeepsRows s pol input emails actor.credential_actor
                            (ask_detectors s pol actor.is_admin
                              (seen_of_request s input actor blog_url))
                            (ask_detectors-IsInitial s pol actor.is_admin
                              (seen_of_request s input actor blog_url))))
                        λ c _.
                          Yields-bind (publish-KeepsRows (event_of comment_created pol.mode c))
                            λ _ _. view_for-Keeps s.env c

  check_parent-Keeps :
      {P : Db → Type 0} (pol : CommentPolicy) (parent : Comment)
      → Keeps P (check_parent s pol parent)
  check_parent-Keeps pol parent =
      Yields-bind (Yields-raise_if (parent.status == CommentStatus.deleted) parent_deleted) λ _ _.
        Yields-bind (Yields-raise_if (not (parent.status == CommentStatus.published)) conflict)
          λ _ _.
            Keeps-of_Yields (Yields-raise_if (leb pol.max_reply_depth parent.depth) depth_exceeded)

  find_parent-Keeps :
      (id : ℕ)
      → KeepsRows (
          catch
            (Comments.find_global_by_id id)
            (λ e. raise (if is_not_found e then parent_not_found else e)))
  find_parent-Keeps id =
      catch-Keeps (Keeps-of_Yields (find_global_by_id-IsSound id))
        (λ e. Yields-raise (if is_not_found e then parent_not_found else e))

  -- If every row of `comments` is sound, then every row is sound after a reply is created from a
  -- first-party page, whether the command succeeds or fails.
  pub create_reply_first_party-RowsSound :
      (actor_id : ℕ) (role : Role) (parent_id : ℕ) (body token : Text) (ip : Option Text)
      (ua : Text) (db : Db)
      → RowsSound db
      → RowsSound ((create_reply_first_party s actor_id role parent_id body token ip ua db).1)
  unfolding create_reply_first_party
  create_reply_first_party-RowsSound actor_id role parent_id body token ip ua db h = after kept db h
    where
      seen : Result User → Text → Result Thread → SpamInput
      seen author blog_url thread = seen_of_reply s author blog_url (page_of s thread) body ip ua

      kept : KeepsRows (create_reply_first_party s actor_id role parent_id body token ip ua)
      kept = Yields-bind (lift-Keeps (Validation.validate_body s.is_markdown body)) λ _ _.
          Yields-bind (lift-Keeps s.env.policy) λ pol _.
            Yields-bind
              (Yields-raise_if
                (not (pol.mode == CommentMode.authenticated) && not (role == Role.admin)) forbidden)
              λ _ _.
                Yields-bind
                  (lift-Keeps (Validation.check_captcha pol.captcha_policy s.verify_captcha token))
                  λ _ _. Yields-bind (find_parent-Keeps parent_id) λ parent _.
                    Yields-bind (check_parent-Keeps pol parent) λ _ _.
                      Yields-bind
                        (optional_thread-Keeps
                          (get_by_site_and_id-Keeps parent.site_id parent.thread_id))
                        λ thread _.
                          Yields-bind (optional_user-Keeps (find_by_id-Keeps actor_id)) λ author _.
                            Yields-bind (site_canonical_url-Keeps parent.site_id) λ blog_url _.
                              Yields-bind
                                (Yields-run_in_tx (
                                  reply_in_tx-KeepsRows s pol parent actor_id body ip ua
                                    (ask_detectors s pol (role == Role.admin)
                                      (seen author blog_url thread))
                                    (ask_detectors-IsInitial s pol (role == Role.admin)
                                      (seen author blog_url thread))))
                                λ c _.
                                  Yields-bind
                                    (publish-KeepsRows (event_of comment_created pol.mode c))
                                    λ _ _. view_for-Keeps s.env c
