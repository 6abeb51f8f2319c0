-- ===== src/Tests/Data.antt =====
-- The data of the examples: a site, a thread, two administrators and a user, and three comments.
use furtalk.Base.{ℕ, true, false, Option, none, some, [], ◌∷◌}
use furtalk.Domain.{
  Role, UserStatus, CommentStatus, CommentMode, Moderation, UserDeleteMode, PrivacyMode,
}
use furtalk.Domain.Entities.{Captured, Comment, CommentPolicy, Principal, Text, User}
use furtalk.Store.{Db, Result, ok}
use furtalk.Views.{Env}
use furtalk.Text.{Parsers}
use furtalk.Creation.Reply.{ClientInfo}
use furtalk.Creation.Spam.{Verdict}
use furtalk.Creation.Author.{WebsiteOperation}
use furtalk.Creation.Commands.{CreateInput, Services, SpamInput}

abbrev pub user_of : ℕ → Role → UserStatus → Text → User
user_of id role status email = record {
  id = id;
  email = email;
  email_normalized = email;
  nickname = 97 ∷ [];
  website_url = none;
  role = role;
  status = status;
  session_version = 0;
  email_verified_at = none;
  deleted_at = none;
  status_before_delete = none;
}

abbrev pub root_admin : User
root_admin = user_of 1 Role.admin UserStatus.active (97 ∷ [])

abbrev pub second_admin : User
second_admin = user_of 2 Role.admin UserStatus.active (98 ∷ [])

abbrev pub plain_user : User
plain_user = user_of 3 Role.user UserStatus.active (99 ∷ [])

abbrev pub no_capture : Captured
no_capture = record {
  ip_mode = PrivacyMode.none;
  ip_value = none;
  ua_mode = PrivacyMode.none;
  ua_raw = none;
  ua_browser = none;
  ua_os = none;
  ua_device = none;
}

abbrev pub comment_of : ℕ → Option ℕ → ℕ → CommentStatus → Option ℕ → Comment
comment_of id parent depth status published_at = record {
  id = id;
  site_id = 1;
  thread_id = 1;
  user_id = 3;
  parent_id = parent;
  root_id = parent;
  reply_to_user_id = none;
  depth = depth;
  body_markdown = 104 ∷ 105 ∷ [];
  status = status;
  status_before_delete = none;
  is_pinned = false;
  captured = no_capture;
  created_at = 5;
  published_at = published_at;
  deleted_at = none;
}

abbrev pub first : Comment
first = comment_of 1 none 0 CommentStatus.published (some 5)

abbrev pub answer : Comment
answer = comment_of 2 (some 1) 1 CommentStatus.published (some 6)

abbrev pub waiting : Comment
waiting = comment_of 3 none 0 CommentStatus.pending none

abbrev pub small : Db
small = record {
  users = root_admin ∷ second_admin ∷ plain_user ∷ [];
  sites =
      record { id = 1; name = []; canonical_url = []; is_active = true; origins = (111 ∷ []) ∷ [] }
      ∷ [];
  threads =
      record {
        id = 1;
        site_id = 1;
        page_key = 112 ∷ [];
        page_url = none;
        page_title = none;
        comments_enabled = true;
      }
      ∷ [];
  comments = first ∷ answer ∷ waiting ∷ [];
  likes = record { site_id = 1; comment_id = 1; user_id = 3 } ∷ [];
  events = [];
  next_user = 4;
  next_thread = 2;
  next_comment = 4;
}

abbrev pub policy : CommentPolicy
policy = record {
  mode = CommentMode.anonymous;
  epoch = 1;
  moderation = Moderation.direct;
  user_delete_mode = UserDeleteMode.soft;
  max_reply_depth = 3;
  public_registration = true;
  captcha_policy = false;
  privacy = record { ip_mode = PrivacyMode.none; ua_mode = PrivacyMode.none };
  gravatar_base_url = [];
}

abbrev pub env : Env
env = record { policy = ok policy; now = 9; gravatar = λ email base. email }

-- Parsers that take every text as it is.
abbrev pub parsers : Parsers
parsers = record {
  parse_address = λ raw. some raw;
  to_lower = λ t. t;
  normalize_website = λ url. some url;
}

abbrev pub info : ClientInfo
info = record {
  coarsen_ip = λ ip mode. some ip;
  parse_ua = λ ua mode. some (record { raw = none; browser = none; os = none; device = none });
}

abbrev pub principal : Principal
principal = record {
  user_id = 1;
  role = Role.admin;
  status = UserStatus.active;
  session_version = 0;
}

abbrev pub anyone : ℕ → Result Principal
anyone id = ok principal

abbrev pub services : Services
services = record {
  env = env;
  parsers = parsers;
  info = info;
  is_markdown = λ body. true;
  is_http = λ url. true;
  verify_captcha = none;
  resolve = anyone;
  domain_allowed = λ email. ok tt;
  spam = some (some []);
  detect = λ seen cfg. some Verdict.pass;
}

abbrev pub leave_website : WebsiteOperation
leave_website = record { set = false; value = none }

abbrev pub request : CreateInput
request = record {
  site_id = 1;
  page_key = 112 ∷ [];
  page_url = none;
  page_title = none;
  parent_id = some 1;
  body_markdown = 104 ∷ [];
  ip = none;
  ua = [];
  captcha_token = [];
  origin = 111 ∷ [];
  email = 99 ∷ [];
  nickname = 99 ∷ [];
  website_url = leave_website;
  credential = none;
}

abbrev pub seen : SpamInput
seen = record {
  blog_url = [];
  permalink = [];
  body = 104 ∷ [];
  nickname = 99 ∷ [];
  email = 99 ∷ [];
  author_url = [];
  ip = none;
  user_agent = [];
}
