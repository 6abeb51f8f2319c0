-- ===== src/Cursor.antt =====
-- internal/service/comment/cursor.go: the cursors of the public lists of comments. A cursor is a text
-- of fields with colons between them, in base64, which is an argument; numbers are int64.
pub mod Decimal
pub mod Fields
pub mod Trip
use furtalk.Base.{
  ℕ, suc, ◌+◌, Bool, true, false, not, ◌&&◌, ◌||◌, Option, none, some, List, [], ◌∷◌, ◌++◌, ltb,
  if◌then◌else◌,
}
use furtalk.Base.Equality.{◌==◌, nat_eq, text_eq}
use furtalk.Domain.{validation}
use furtalk.Domain.Entities.{Text}
use furtalk.Store.{Result, ok, err}
use furtalk.Text.{is_blank}
use furtalk.Cursor.Decimal.{ℤ, print_int, parse_int}
use furtalk.Cursor.Fields.{colon, split, split_first, starts_with}

pub record Cursor : Type 0 where
  pub pinned : Bool
  pub like_count : ℤ
  pub created_at : ℤ
  pub id : ℤ
  pub hot : Bool

pub data CommentSort : Type 0 where
  asc desc hot : CommentSort

-- encoding/base64, without padding and for URLs.
pub record Base64 : Type 0 where
  pub encode : Text → Text
  pub decode : Text → Option Text

-- "v2" and "hot"
abbrev pub v2 : Text
v2 = 118 ∷ 50 ∷ []

abbrev pub hot_word : Text
hot_word = 104 ∷ 111 ∷ 116 ∷ []

-- "0" and "1"
abbrev pub group_text : Bool → Text
group_text false = 48 ∷ []
group_text true = 49 ∷ []

abbrev pub zero_int : ℤ
zero_int = ℤ.pos 0

unfoldable pub cursor_text : Bool → ℤ → ℤ → Text
cursor_text pinned created_at id =
    v2
    ++ (colon ∷ (group_text pinned ++ (colon ∷ (print_int created_at ++ (colon ∷ print_int id)))))

unfoldable pub hot_cursor_text : Bool → ℤ → ℤ → ℤ → Text
hot_cursor_text pinned like_count created_at id =
    hot_word
    ++ (colon
        ∷ (v2
            ++ (colon
                ∷ (group_text pinned
                    ++ (colon
                        ∷ (print_int like_count
                            ++ (colon ∷ (print_int created_at ++ (colon ∷ print_int id)))))))))

-- A group is "0" or "1".
abbrev pub group_flag : Text → Option Bool
group_flag t =
    if t == group_text true then some true else if t == group_text false then some false else none

abbrev pub or_invalid : Option Cursor → Result (Option Cursor)
or_invalid none = err validation
or_invalid (some c) = ok (some c)

-- A cursor from the fields, if each can be read.
abbrev pub cursor_of : Bool → Option Bool → Option ℤ → Option ℤ → Option ℤ → Option Cursor
cursor_of is_hot (some pinned) (some likes) (some created_at) (some id) =
    some (record {
      pinned = pinned;
      like_count = likes;
      created_at = created_at;
      id = id;
      hot = is_hot;
    })
cursor_of is_hot _ _ _ _ = none

abbrev pub directional_of : List Text → Option Cursor
directional_of (a ∷ group ∷ micros ∷ id ∷ []) =
    cursor_of false (group_flag group) (some zero_int) (parse_int micros) (parse_int id)
directional_of _ = none

-- The format of before: the time and the identifier.
abbrev pub legacy_of : Option (Text × Text) → Option Cursor
legacy_of none = none
legacy_of (some (micros, id)) =
    cursor_of false (some false) (some zero_int) (parse_int micros) (parse_int id)

unfoldable pub decode_directional_cursor : Text → Result (Option Cursor)
decode_directional_cursor text = or_invalid (
    if starts_with (v2 ++ colon ∷ []) text
    then directional_of (split text)
    else legacy_of (split_first text))

abbrev pub hot_of : List Text → Option Cursor
hot_of (a ∷ b ∷ c ∷ d ∷ e ∷ f ∷ []) =
    if a == hot_word && b == v2
    then cursor_of true (group_flag c) (parse_int d) (parse_int e) (parse_int f)
    else none
hot_of (a ∷ b ∷ c ∷ d ∷ []) =
    if a == hot_word
    then cursor_of true (some false) (parse_int b) (parse_int c) (parse_int d)
    else none
hot_of _ = none

unfoldable pub decode_hot_cursor : Text → Result (Option Cursor)
decode_hot_cursor text = or_invalid (hot_of (split text))

module _ (b : Base64) where
  unfoldable pub encode_cursor : Bool → ℤ → ℤ → Text
  unfolding cursor_text
  encode_cursor pinned created_at id = b.encode (cursor_text pinned created_at id)

  unfoldable pub encode_hot_cursor : Bool → ℤ → ℤ → ℤ → Text
  unfolding hot_cursor_text
  encode_hot_cursor pinned like_count created_at id =
      b.encode (hot_cursor_text pinned like_count created_at id)

  abbrev pub decode_text : CommentSort → Option Text → Result (Option Cursor)
  decode_text sort none = err validation
  decode_text CommentSort.hot (some text) = decode_hot_cursor text
  decode_text _ (some text) =
      if starts_with (hot_word ++ colon ∷ []) text
      then err validation
      else decode_directional_cursor text

  -- A blank cursor is none.
  unfoldable pub decode_cursor : Text → CommentSort → Result (Option Cursor)
  unfolding decode_hot_cursor decode_directional_cursor
  decode_cursor raw sort = if is_blank raw then ok none else decode_text sort (b.decode raw)

-- The number of rows on a page; an integer that is not positive is `none`.
unfoldable pub normalize_limit : Option ℕ → ℕ
normalize_limit none = 50
normalize_limit (some n) = if n == 0 then 50 else if ltb 100 n then 100 else n

unfoldable pub normalize_latest_limit : Option ℕ → ℕ
normalize_latest_limit none = 25
normalize_latest_limit (some n) = if n == 0 then 25 else if ltb 25 n then 25 else n
