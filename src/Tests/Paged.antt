-- ===== src/Tests/Paged.antt =====
-- The theorem on cursors, applied. The encoding puts a letter before the text.
use furtalk.Base.{◌≡◌, refl, true, false, Option, none, some, [], ◌∷◌, arith}
use furtalk.Domain.{validation}
use furtalk.Domain.Entities.{Text}
use furtalk.Store.{ok, err}
use furtalk.Text.{is_blank}
use furtalk.Cursor.{Base64, CommentSort, decode_cursor, encode_cursor, encode_hot_cursor, zero_int}
use furtalk.Cursor.Decimal.{ℤ}
use furtalk.Cursor.Trip
use furtalk.Cursor.Trip.{Codec64, cursor}

abbrev base64 : Base64
base64 = record { encode = encode; decode = decode }
  where
    encode : Text → Text
    encode t = 97 ∷ t

    decode : Text → Option Text
    decode [] = none
    decode (c ∷ t) = some t

base64-Codec64 : Codec64 base64
unfolding is_blank
base64-Codec64 = record { decodes = λ t. refl; is_shown = λ t h. ground arith }

-- A pinned comment, with the time before the epoch, an identifier and three likes.
decode_cursor-encode_cursor_example :
    (decode_cursor base64 (encode_cursor base64 true (ℤ.negsuc 6) (ℤ.pos 77)) CommentSort.asc
      ≡ ok (some (cursor false true zero_int (ℤ.negsuc 6) (ℤ.pos 77))))
    × (decode_cursor base64 (encode_cursor base64 true (ℤ.negsuc 6) (ℤ.pos 77)) CommentSort.desc
        ≡ ok (some (cursor false true zero_int (ℤ.negsuc 6) (ℤ.pos 77))))
    × (decode_cursor base64 (encode_cursor base64 true (ℤ.negsuc 6) (ℤ.pos 77)) CommentSort.hot
        ≡ err validation)
    × (decode_cursor base64
          (encode_hot_cursor base64 true (ℤ.pos 3) (ℤ.negsuc 6) (ℤ.pos 77))
          CommentSort.hot
        ≡ ok (some (cursor true true (ℤ.pos 3) (ℤ.negsuc 6) (ℤ.pos 77))))
    × (decode_cursor base64
          (encode_hot_cursor base64 true (ℤ.pos 3) (ℤ.negsuc 6) (ℤ.pos 77))
          CommentSort.asc
        ≡ err validation)
    × (decode_cursor base64
          (encode_hot_cursor base64 true (ℤ.pos 3) (ℤ.negsuc 6) (ℤ.pos 77))
          CommentSort.desc
        ≡ err validation)
decode_cursor-encode_cursor_example =
    Trip.decode_cursor-encode_cursor base64 true (ℤ.pos 3) (ℤ.negsuc 6) (ℤ.pos 77) base64-Codec64
      (omega arith) (omega arith) (omega arith)
