-- ===== src/Cursor/Trip.antt =====
-- A cursor that was encoded is decoded to what it was made of.
use furtalk.Base.{◌≡◌, refl, ap, ◌∙◌, Bool, true, false, not, some, [], ◌∷◌, ◌++◌, arith}
use furtalk.Base.Equality.{◌==◌, nat_eq, text_eq}
use furtalk.Domain.{validation}
use furtalk.Domain.Entities.{Text}
use furtalk.Store.{ok, err}
use furtalk.Text.{is_blank}
use furtalk.Cursor.Decimal.{ℤ, InRange, print_int, parse_int-print_int, print_int-all}
use furtalk.Cursor.Fields.{colon, split, starts_with, has_no_colon, split-last, split-field}
use furtalk.Cursor.{
  Cursor, CommentSort, Base64, v2, hot_word, group_text, cursor_text, hot_cursor_text, group_flag,
  zero_int, decode_directional_cursor, decode_hot_cursor, encode_cursor, encode_hot_cursor,
  decode_cursor,
}

-- Base64 decodes what it encodes, and a text that is not empty has an encoding that is not blank.
pub record Codec64 (b : Base64) : Type 0 where
  pub decodes : (t : Text) → b.decode (b.encode t) ≡ some t
  pub is_shown : (t : Text) → (t == []) ≡ false → is_blank (b.encode t) ≡ false

print_int-has_no_colon : (z : ℤ) → has_no_colon (print_int z) ≡ true
print_int-has_no_colon z = print_int-all (λ c. not (c == colon)) refl (λ c h. ground (arith, h)) z

group_text-has_no_colon : (p : Bool) → has_no_colon (group_text p) ≡ true
group_text-has_no_colon p = ground arith

group_flag-group_text : (p : Bool) → group_flag (group_text p) ≡ some p
group_flag-group_text p = ground arith

split-cursor_text :
    (p : Bool) (created_at id : ℤ)
    → split (cursor_text p created_at id)
      ≡ v2 ∷ group_text p ∷ print_int created_at ∷ print_int id ∷ []
unfolding cursor_text
split-cursor_text p created_at id =
    split-field v2 _ refl
    ∙ ap (λ x. v2 ∷ x)
        (split-field (group_text p) _ (group_text-has_no_colon p)
          ∙ ap (λ x. group_text p ∷ x)
              (split-field (print_int created_at) _ (print_int-has_no_colon created_at)
                ∙ ap (λ x. print_int created_at ∷ x)
                    (split-last (print_int id) (print_int-has_no_colon id))))

split-hot_cursor_text :
    (p : Bool) (likes created_at id : ℤ)
    → split (hot_cursor_text p likes created_at id)
      ≡ hot_word ∷ v2 ∷ group_text p ∷ print_int likes ∷ print_int created_at ∷ print_int id ∷ []
unfolding hot_cursor_text
split-hot_cursor_text p likes created_at id =
    split-field hot_word _ refl
    ∙ ap (λ x. hot_word ∷ x)
        (split-field v2 _ refl
          ∙ ap (λ x. v2 ∷ x)
              (split-field (group_text p) _ (group_text-has_no_colon p)
                ∙ ap (λ x. group_text p ∷ x)
                    (split-field (print_int likes) _ (print_int-has_no_colon likes)
                      ∙ ap (λ x. print_int likes ∷ x)
                          (split-field (print_int created_at) _ (print_int-has_no_colon created_at)
                            ∙ ap (λ x. print_int created_at ∷ x)
                                (split-last (print_int id) (print_int-has_no_colon id))))))

abbrev pub cursor : Bool → Bool → ℤ → ℤ → ℤ → Cursor
cursor hot p likes created_at id = record {
  pinned = p;
  like_count = likes;
  created_at = created_at;
  id = id;
  hot = hot;
}

starts-cursor_text :
    (p : Bool) (created_at id : ℤ)
    → (starts_with (v2 ++ colon ∷ []) (cursor_text p created_at id) ≡ true)
      × (starts_with (hot_word ++ colon ∷ []) (cursor_text p created_at id) ≡ false)
      × ((cursor_text p created_at id == []) ≡ false)
unfolding cursor_text starts_with
starts-cursor_text p created_at id = (refl, refl, refl)

decode-cursor_text :
    (p : Bool) (created_at id : ℤ)
    → InRange created_at
    → InRange id
    → decode_directional_cursor (cursor_text p created_at id)
      ≡ ok (some (cursor false p zero_int created_at id))
unfolding decode_directional_cursor
decode-cursor_text p created_at id r q = ground (
  arith,
  split-cursor_text p created_at id,
  group_flag-group_text p,
  parse_int-print_int created_at r,
  parse_int-print_int id q,
  starts-cursor_text p created_at id,
)

decode-hot_cursor_text :
    (p : Bool) (likes created_at id : ℤ)
    → InRange likes
    → InRange created_at
    → InRange id
    → decode_hot_cursor (hot_cursor_text p likes created_at id)
      ≡ ok (some (cursor true p likes created_at id))
unfolding decode_hot_cursor
decode-hot_cursor_text p likes created_at id l r q = ground (
  arith,
  split-hot_cursor_text p likes created_at id,
  group_flag-group_text p,
  parse_int-print_int likes l,
  parse_int-print_int created_at r,
  parse_int-print_int id q,
)

starts-hot_cursor_text :
    (p : Bool) (likes created_at id : ℤ)
    → (starts_with (hot_word ++ colon ∷ []) (hot_cursor_text p likes created_at id) ≡ true)
      × ((hot_cursor_text p likes created_at id == []) ≡ false)
unfolding hot_cursor_text starts_with
starts-hot_cursor_text p likes created_at id = (refl, refl)

-- The hot order refuses a cursor of four fields that does not begin with its word.
refused-cursor_text :
    (p : Bool) (created_at id : ℤ)
    → decode_hot_cursor (cursor_text p created_at id) ≡ err validation
unfolding decode_hot_cursor
refused-cursor_text p created_at id = ground (arith, split-cursor_text p created_at id)

-- A cursor for the orders by time gives back what it was made of in either of them, and is refused
-- in the order by likes; a cursor for that order gives back what it was made of in it, and is refused
-- in the others. The numbers are int64, and base64 decodes what it encodes.
pub decode_cursor-encode_cursor :
    (b : Base64) (pinned : Bool) (likes created_at id : ℤ)
    → Codec64 b
    → InRange likes
    → InRange created_at
    → InRange id
    → (decode_cursor b (encode_cursor b pinned created_at id) CommentSort.asc
        ≡ ok (some (cursor false pinned zero_int created_at id)))
      × (decode_cursor b (encode_cursor b pinned created_at id) CommentSort.desc
          ≡ ok (some (cursor false pinned zero_int created_at id)))
      × (decode_cursor b (encode_cursor b pinned created_at id) CommentSort.hot ≡ err validation)
      × (decode_cursor b (encode_hot_cursor b pinned likes created_at id) CommentSort.hot
          ≡ ok (some (cursor true pinned likes created_at id)))
      × (decode_cursor b (encode_hot_cursor b pinned likes created_at id) CommentSort.asc
          ≡ err validation)
      × (decode_cursor b (encode_hot_cursor b pinned likes created_at id) CommentSort.desc
          ≡ err validation)
unfolding decode_cursor encode_cursor encode_hot_cursor
decode_cursor-encode_cursor b pinned likes created_at id c l r q = ground (
  arith,
  c.decodes (cursor_text pinned created_at id),
  c.is_shown (cursor_text pinned created_at id),
  c.decodes (hot_cursor_text pinned likes created_at id),
  c.is_shown (hot_cursor_text pinned likes created_at id),
  starts-cursor_text pinned created_at id,
  starts-hot_cursor_text pinned likes created_at id,
  decode-cursor_text pinned created_at id r q,
  decode-hot_cursor_text pinned likes created_at id l r q,
  refused-cursor_text pinned created_at id,
)
