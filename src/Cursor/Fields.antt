-- ===== src/Cursor/Fields.antt =====
-- strings.Split, strings.SplitN with two fields, and strings.HasPrefix, for colons.
use furtalk.Base.{
  ℕ, ◌≡◌, refl, Bool, true, false, not, ◌&&◌, Option, none, some, List, [], ◌∷◌, ◌++◌, all,
  if◌then◌else◌, arith,
}
use furtalk.Base.Equality.{◌==◌, nat_eq}
use furtalk.Domain.Entities.{Text}

abbrev pub colon : ℕ
colon = 58

abbrev pub push : ℕ → List Text → List Text
push c [] = (c ∷ []) ∷ []
push c (field ∷ fields) = (c ∷ field) ∷ fields

unfoldable pub split : Text → List Text
split [] = [] ∷ []
split (c ∷ cs) = let rest = split cs in if c == colon then [] ∷ rest else push c rest

abbrev pub push_first : ℕ → Option (Text × Text) → Option (Text × Text)
push_first c none = none
push_first c (some (a, b)) = some (c ∷ a, b)

-- The text before the first colon, and the one after it.
unfoldable pub split_first : Text → Option (Text × Text)
split_first [] = none
split_first (c ∷ cs) =
    let rest = split_first cs in if c == colon then some ([], cs) else push_first c rest

unfoldable pub starts_with : Text → Text → Bool
starts_with [] t = true
starts_with (c ∷ cs) [] = false
starts_with (c ∷ cs) (x ∷ xs) = let rest = starts_with cs xs in c == x && rest

abbrev pub has_no_colon : Text → Bool
has_no_colon t = all (λ c. not (c == colon)) t

pub split-last : (t : Text) → has_no_colon t ≡ true → split t ≡ t ∷ []
unfolding split
split-last [] h = refl
split-last (c ∷ cs) h = ground (arith, h, split-last cs)

pub split-field :
    (t rest : Text) → has_no_colon t ≡ true → split (t ++ colon ∷ rest) ≡ t ∷ split rest
unfolding split
split-field [] rest h = refl
split-field (c ∷ cs) rest h = ground (arith, h, split-field cs rest)
