-- ===== src/Indexes/KeyCodec/Tests.antt =====
-- Runs of engine/indexes/_key_codec.py on the key (-2, "a").
use soup_db.Common.Utf8.{encode_char, encode}
use soup_db.Common.Struct.{to_word, pack_le, unpack_le, pack_unsigned_le, fits_signed}
use soup_db.Common.{◌<◌, arith, ◌≡◌, refl, [], ◌∷◌, ok, raise, Exc}
use soup_db.Common.Bytes.{Bytes}
use soup_db.Common.Int.{negsuc}
use soup_db.Indexes.KeyCodec.{Key, int, text, tuple, nil, cons, encode_key, decode_key}
use soup_db.Indexes.KeyCodec.RoundTrip.{decode_key-encode_key, nesting}

abbrev composite : Key
composite = tuple (cons (int (negsuc 1)) (cons (text (97 ∷ [])) nil))

abbrev composite_bytes : Bytes
composite_bytes =
    116 ∷ 2 ∷ 0 ∷ 0 ∷ 0 ∷ 9 ∷ 0 ∷ 0 ∷ 0 ∷ 105 ∷ 254 ∷ 255 ∷ 255 ∷ 255 ∷ 255 ∷ 255 ∷ 255 ∷ 255 ∷ 6
    ∷ 0 ∷ 0 ∷ 0 ∷ 115 ∷ 1 ∷ 0 ∷ 0 ∷ 0 ∷ 97 ∷ []

composite_encodes : encode_key composite ≡ ok composite_bytes
unfolding encode_key fits_signed encode encode_char pack_unsigned_le pack_le to_word
composite_encodes = refl

shallow : nesting composite < 2
unfolding nesting
shallow = omega arith

decode_key-encode_key_example : decode_key 2 composite_bytes ≡ ok composite
decode_key-encode_key_example =
    decode_key-encode_key 2 composite composite_bytes shallow composite_encodes

-- A tuple in a tuple, with room for one call only.
too_deep :
    decode_key 1 (116 ∷ 1 ∷ 0 ∷ 0 ∷ 0 ∷ 5 ∷ 0 ∷ 0 ∷ 0 ∷ 116 ∷ 0 ∷ 0 ∷ 0 ∷ 0 ∷ [])
    ≡ raise Exc.recursion_error
unfolding decode_key unpack_le
too_deep = refl

abbrev broken : Bytes
broken = 116 ∷ 1 ∷ []
