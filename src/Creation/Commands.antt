-- ===== src/Creation/Commands.antt =====
-- `Create` and `CreateReplyFirstParty` of create.go, and `validateSiteAndOrigin` of
-- widget_session.go. Everything that they ask of other components is a field of `Services`.
use furtalk.Base.{
  ℕ, Bool, not, ◌&&◌, ◌||◌, Option, none, some, List, [], leb, ltb, find?, if◌then◌else◌,
}
use furtalk.Base.Equality.{◌==◌, nat_eq, text_eq, contains}
use furtalk.Domain.{
  Role, CommentStatus, CommentMode, role_eq, comment_status_eq, comment_mode_eq, is_not_found,
  not_found, forbidden, validation, conflict, thread_closed, parent_not_found, parent_deleted,
  depth_exceeded,
}
use furtalk.Domain.Entities.{
  Comment, CommentPolicy, Principal, Site, Text, Thread, User, comment_created,
}
use furtalk.Store.{
  Action, Result, ok, err, pure, raise, gets, lift, or_raise, raise_if, catch, run_in_tx, publish,
  ◌>>=◌, ◌>>◌,
}
use furtalk.Store.Comments
use furtalk.Store.Threads
use furtalk.Store.Users
use furtalk.Text.{Parsers, trim_space, byte_length, normalize_email}
use furtalk.Views.{Env, CommentView, view_for, event_of}
use furtalk.Creation.Spam.{ProviderConfig, Verdict, check_spam, comment_initial_status}
use furtalk.Creation.Validation.{
  validate_body, validate_page_key, validate_page_url, validate_page_title,
  normalize_optional_string, check_captcha, max_nickname_length,
}
use furtalk.Creation.Author.{
  Actor, Credential, WebsiteOperation, actor_of, optional_user, resolve_and_sync_actor,
}
use furtalk.Creation.Reply.{ClientInfo, create_comment}

-- What a detector is told of a comment; its kind is always "comment".
pub record SpamInput : Type 0 where
  pub blog_url : Text
  pub permalink : Text
  pub body : Text
  pub nickname : Text
  pub email : Text
  pub author_url : Text
  pub ip : Option Text
  pub user_agent : Text

pub record Services : Type 0 where
  pub env : Env
  pub parsers : Parsers
  pub info : ClientInfo
  pub is_markdown : Text → Bool
  pub is_http : Text → Bool
  pub verify_captcha : Option (Text → Result (Unit {0}))
  pub resolve : ℕ → Result Principal
  pub domain_allowed : Text → Result (Unit {0})
  -- The configurations of the spam gateway, if there is one and they can be read, and the answers
  -- of the detectors.
  pub spam : Option (Option (List ProviderConfig))
  pub detect : SpamInput → ProviderConfig → Option Verdict

pub record CreateInput : Type 0 where
  pub site_id : ℕ
  pub page_key : Text
  pub page_url : Option Text
  pub page_title : Option Text
  pub parent_id : Option ℕ
  pub body_markdown : Text
  pub ip : Option Text
  pub ua : Text
  pub captcha_token : Text
  pub origin : Text
  pub email : Text
  pub nickname : Text
  pub website_url : WebsiteOperation
  pub credential : Option Credential

-- `optionalString`
abbrev pub optional_string : Option Text → Text
optional_string none = []
optional_string (some s) = s

abbrev pub site_get : ℕ → Action Site
site_get id = do or_raise (← gets (λ db. find? (λ s. s.id == id) db.sites)) not_found

-- An unknown site, one that is not active and an origin that it does not allow are all forbidden.
unfoldable pub validate_site_and_origin : ℕ → Text → Action (Unit {0})
validate_site_and_origin site_id origin = do
  site ← catch (site_get site_id) (λ e. raise (if is_not_found e then forbidden else e))
  raise_if (not site.is_active) forbidden
  raise_if (not (contains site.origins origin)) forbidden

-- `siteCanonicalURL`: no text if the site cannot be read.
abbrev pub site_canonical_url : ℕ → Action Text
site_canonical_url site_id = catch (site_get site_id >>= λ s. pure s.canonical_url) (λ e. pure [])

-- A page that is known must take comments.
abbrev pub require_open : Thread → Action (Unit {0})
require_open t = raise_if (not t.comments_enabled) thread_closed

abbrev pub thread_or : Result Thread → Action (Unit {0})
thread_or (ok t) = require_open t
thread_or (err e) = if is_not_found e then pure tt else raise e

abbrev pub optional_thread : Action Thread → Action (Result Thread)
optional_thread m = catch (m >>= λ t. pure (ok t)) (λ e. pure (err e))

unfoldable pub check_thread : ℕ → Text → Action (Unit {0})
check_thread site_id page_key = do
  found ← optional_thread (Threads.get_by_site_and_key site_id page_key)
  thread_or found

abbrev pub validate_nickname : Text → Result (Unit {0})
validate_nickname nickname =
    if nickname == [] || ltb max_nickname_length (byte_length nickname)
    then err validation
    else ok tt

module _ (s : Services) where
  -- The status of the new comment: the detectors are asked unless an administrator writes.
  abbrev pub status_after :
      CommentPolicy → Option (Option (List ProviderConfig)) → SpamInput → CommentStatus
  status_after pol none seen = comment_initial_status pol.moderation none
  status_after pol (some configs) seen =
      comment_initial_status pol.moderation (check_spam (s.detect seen) configs)

  unfoldable pub ask_detectors : CommentPolicy → Bool → SpamInput → CommentStatus
  ask_detectors pol is_admin seen =
      if is_admin then comment_initial_status pol.moderation none else status_after pol s.spam seen

  -- What the request says by itself, with the optional page fields normalized.
  abbrev pub validate_request : CreateInput → Action (Text × Text)
  validate_request input = do
    validate_site_and_origin input.site_id input.origin
    lift (validate_body s.is_markdown input.body_markdown)
    lift (validate_page_key input.page_key)
    lift (validate_page_url s.is_http (normalize_optional_string input.page_url))
    lift (validate_page_title (normalize_optional_string input.page_title))
    emails ← lift (normalize_email s.parsers input.email)
    lift (validate_nickname (trim_space input.nickname))
    pure emails

  -- The transaction of `Create`.
  unfoldable pub create_in_tx :
      CommentPolicy → CreateInput → Text × Text → Option ℕ → CommentStatus → Action Comment
  create_in_tx pol input emails credential_actor status = do
    thread ←
        Threads.resolve_or_create input.site_id input.page_key
          (normalize_optional_string input.page_url) (normalize_optional_string input.page_title)
    current ← Threads.get_by_site_and_key input.site_id input.page_key
    require_open current
    actor_id ←
        resolve_and_sync_actor s.parsers s.domain_allowed pol emails.1 emails.0
          (trim_space input.nickname) input.website_url credential_actor
    create_comment s.info s.env.now pol input.site_id thread.id actor_id input.parent_id
        input.body_markdown input.ip input.ua status

  abbrev pub seen_of_request : CreateInput → Actor → Text → SpamInput
  seen_of_request input actor blog_url = record {
    blog_url = blog_url;
    permalink = optional_string (normalize_optional_string input.page_url);
    body = input.body_markdown;
    nickname = trim_space input.nickname;
    email = input.email;
    author_url = optional_string actor.website;
    ip = input.ip;
    user_agent = input.ua;
  }

  unfoldable pub create : CreateInput → Action CommentView
  unfolding create_in_tx
  create input = do
    emails ← validate_request input
    pol ← lift s.env.policy
    check_thread input.site_id input.page_key
    actor ← actor_of s.resolve pol input.site_id emails.1 input.credential
    lift (check_captcha pol.captcha_policy s.verify_captcha input.captcha_token)
    blog_url ← site_canonical_url input.site_id
    let status = ask_detectors pol actor.is_admin (seen_of_request input actor blog_url)
    c ← run_in_tx (create_in_tx pol input emails actor.credential_actor status)
    publish (event_of comment_created pol.mode c)
    view_for s.env c

  -- The parent that a first-party reply names, checked before the detectors.
  abbrev pub check_parent : CommentPolicy → Comment → Action (Unit {0})
  check_parent pol parent = do
    raise_if (parent.status == CommentStatus.deleted) parent_deleted
    raise_if (not (parent.status == CommentStatus.published)) conflict
    raise_if (leb pol.max_reply_depth parent.depth) depth_exceeded

  abbrev pub page_of : Result Thread → Text
  page_of (ok t) = optional_string t.page_url
  page_of (err e) = []

  abbrev pub seen_of_reply : Result User → Text → Text → Text → Option Text → Text → SpamInput
  seen_of_reply (err e) blog_url permalink body ip ua = record {
    blog_url = blog_url;
    permalink = permalink;
    body = body;
    nickname = [];
    email = [];
    author_url = [];
    ip = ip;
    user_agent = ua;
  }
  seen_of_reply (ok u) blog_url permalink body ip ua = record {
    blog_url = blog_url;
    permalink = permalink;
    body = body;
    nickname = u.nickname;
    email = u.email;
    author_url = optional_string u.website_url;
    ip = ip;
    user_agent = ua;
  }

  unfoldable pub reply_in_tx :
      CommentPolicy → Comment → ℕ → Text → Option Text → Text → CommentStatus → Action Comment
  reply_in_tx pol parent actor_id body ip ua status = do
    t ← Threads.get_by_site_and_id parent.site_id parent.thread_id
    require_open t
    create_comment s.info s.env.now pol parent.site_id parent.thread_id actor_id (some parent.id)
        body ip ua status

  unfoldable pub create_reply_first_party :
      ℕ → Role → ℕ → Text → Text → Option Text → Text → Action CommentView
  unfolding reply_in_tx
  create_reply_first_party actor_id actor_role parent_comment_id body token ip ua = do
    lift (validate_body s.is_markdown body)
    pol ← lift s.env.policy
    raise_if (not (pol.mode == CommentMode.authenticated) && not (actor_role == Role.admin))
        forbidden
    lift (check_captcha pol.captcha_policy s.verify_captcha token)
    parent ←
        catch (Comments.find_global_by_id parent_comment_id)
          (λ e. raise (if is_not_found e then parent_not_found else e))
    check_parent pol parent
    thread ← optional_thread (Threads.get_by_site_and_id parent.site_id parent.thread_id)
    author ← optional_user (Users.find_by_id actor_id)
    blog_url ← site_canonical_url parent.site_id
    let status =
        ask_detectors pol (actor_role == Role.admin)
          (seen_of_reply author blog_url (page_of thread) body ip ua)
    c ← run_in_tx (reply_in_tx pol parent actor_id body ip ua status)
    publish (event_of comment_created pol.mode c)
    view_for s.env c
