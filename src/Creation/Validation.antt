-- ===== src/Creation/Validation.antt =====
-- The checks of create.go that read nothing but the request, the captcha, and the roles of a widget.
use furtalk.Base.{Bool, true, false, not, ◌&&◌, ◌||◌, Option, none, some, ltb, if◌then◌else◌, ℕ}
use furtalk.Base.Equality.{◌==◌}
use furtalk.Domain.{CommentMode, Role, role_eq, captcha_required, captcha_unavailable, validation}
use furtalk.Domain.Entities.{Text}
use furtalk.Store.{Result, ok, err}
use furtalk.Text.{is_blank, trim_space, byte_length}

abbrev pub max_body_length : ℕ
max_body_length = 4000

abbrev pub max_page_key_length : ℕ
max_page_key_length = 512

abbrev pub max_page_url_length : ℕ
max_page_url_length = 2048

abbrev pub max_page_title_length : ℕ
max_page_title_length = 512

abbrev pub max_nickname_length : ℕ
max_nickname_length = 100

abbrev pub valid_if : Bool → Result (Unit {0})
valid_if b = if b then ok tt else err validation

-- `markdown.Validate` is an argument.
unfoldable pub validate_body : (Text → Bool) → Text → Result (Unit {0})
validate_body is_markdown body =
    valid_if
      (not (is_blank body) && not (ltb max_body_length (byte_length body)) && is_markdown body)

unfoldable pub validate_page_key : Text → Result (Unit {0})
validate_page_key key =
    valid_if (not (is_blank key) && not (ltb max_page_key_length (byte_length key)))

-- Whether `urlx.ParseHTTP` accepts the URL is an argument.
unfoldable pub validate_page_url : (Text → Bool) → Option Text → Result (Unit {0})
validate_page_url is_http none = ok tt
validate_page_url is_http (some url) =
    if is_blank url
    then ok tt
    else valid_if
        (not (ltb max_page_url_length (byte_length (trim_space url))) && is_http (trim_space url))

unfoldable pub validate_page_title : Option Text → Result (Unit {0})
validate_page_title none = ok tt
validate_page_title (some title) = valid_if (not (ltb max_page_title_length (byte_length title)))

unfoldable pub normalize_optional_string : Option Text → Option Text
normalize_optional_string none = none
normalize_optional_string (some s) = if is_blank s then none else some s

-- `checkCaptcha`, for an action that the policy may ask it of; the gateway may be absent.
unfoldable pub check_captcha : Bool → Option (Text → Result (Unit {0})) → Text → Result (Unit {0})
check_captcha false gateway token = ok tt
check_captcha true none token = err captcha_unavailable
check_captcha true (some verify) token =
    if is_blank token then err captcha_required else verify token

-- `WidgetRoleAllowed`; `popupAuthorizationAllowed` has the same table.
unfoldable pub widget_role_allowed : CommentMode → Role → Bool
widget_role_allowed CommentMode.anonymous role = role == Role.admin
widget_role_allowed CommentMode.authenticated role = role == Role.user || role == Role.admin
widget_role_allowed CommentMode.unknown role = false
