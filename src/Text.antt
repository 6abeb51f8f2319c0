-- ===== src/Text.antt =====
-- What the source asks of Go's `strings` and `len` of a string (a string is a list of code points),
-- and internal/platform/value, over the parsers of addresses and URLs that it calls.
use furtalk.Base.{ℕ, ◌+◌, Bool, Option, none, some, List, [], ◌∷◌, ltb, if◌then◌else◌}
use furtalk.Base.Equality.{◌==◌, nat_eq, text_eq, contains}
use furtalk.Domain.{validation}
use furtalk.Domain.Entities.{Text}
use furtalk.Store.{Result, ok, err}

-- `unicode.IsSpace`
abbrev pub white_space : List ℕ
white_space =
    9 ∷ 10 ∷ 11 ∷ 12 ∷ 13 ∷ 32 ∷ 133 ∷ 160 ∷ 5760 ∷ 8192 ∷ 8193 ∷ 8194 ∷ 8195 ∷ 8196 ∷ 8197 ∷ 8198
    ∷ 8199 ∷ 8200 ∷ 8201 ∷ 8202 ∷ 8232 ∷ 8233 ∷ 8239 ∷ 8287 ∷ 12288 ∷ []

abbrev pub is_space : ℕ → Bool
is_space c = contains white_space c

abbrev pub trim_left : Text → Text
trim_left [] = []
trim_left (c ∷ cs) = if is_space c then trim_left cs else c ∷ cs

-- The rest is cut off where nothing but white space is left.
abbrev pub trim_right : Text → Text
trim_right [] = []
trim_right (c ∷ cs) = elim (trim_right cs) [
  | [] ↦ if is_space c then [] else c ∷ []
  | d ∷ ds ↦ c ∷ d ∷ ds
]

-- `strings.TrimSpace`
unfoldable pub trim_space : Text → Text
trim_space s = trim_right (trim_left s)

-- The bytes of a code point in UTF-8.
abbrev pub utf8_length : ℕ → ℕ
utf8_length c = if ltb c 128 then 1 else if ltb c 2048 then 2 else if ltb c 65536 then 3 else 4

-- `len(s)` counts bytes.
abbrev pub byte_length : Text → ℕ
byte_length [] = 0
byte_length (c ∷ cs) = utf8_length c + byte_length cs

-- No text: `strings.TrimSpace(s) == ""`.
unfoldable pub is_blank : Text → Bool
unfolding trim_space
is_blank s = trim_space s == []

-- The functions that the normalisation calls: `net/mail.ParseAddress` (the address that it finds),
-- `strings.ToLower`, and the website check of internal/platform/value over urlx.
pub record Parsers : Type 0 where
  pub parse_address : Text → Option Text
  pub to_lower : Text → Text
  pub normalize_website : Text → Option Text

module _ (ps : Parsers) where
  -- `value.NormalizeEmail`, with the error that every caller wraps it in.
  unfoldable pub normalize_email : Text → Result (Text × Text)
  normalize_email raw = address (ps.parse_address (trim_space raw))
    where
      address : Option Text → Result (Text × Text)
      address none = err validation
      address (some []) = err validation
      address (some (c ∷ cs)) =
          let original = trim_space (c ∷ cs) in ok (original, ps.to_lower original)

  unfoldable pub website_or_invalid : Text → Result Text
  website_or_invalid raw = elim (ps.normalize_website raw) [
    | none ↦ err validation
    | some url ↦ ok url
  ]
