-- ===== src/Indexes/KeyCodec.antt =====
-- engine/indexes/_key_codec.py. `other` is a Boolean or any object that is no key. The decoder calls itself
-- for a tuple's items, in `frames` calls inside one another at most: what Python's recursion
-- limit leaves room for, with the helper that the innermost call uses. Encoding is taken to stay below it.
pub mod RoundTrip
pub mod Malformed
mod Tests
use soup_db.Common.{
  ℕ, zero, suc, ◌+◌, Bool, true, false, List, [], ◌∷◌, ◌++◌, Exc, Result, ok, raise, ◌>>=◌, ◌>>◌,
  require, or_raise, ltb, leb, length, ◌==◌, if◌then◌else◌,
}
use soup_db.Common.Bytes.{Bytes, slice}
use soup_db.Common.Reads.{Decoder, repeat, encode_each}
use soup_db.Common.Struct.{pack_le, unpack_le, to_word, of_word, fits_signed, pack_unsigned_le}
use soup_db.Common.Int.{ℤ}
use soup_db.Common.Utf8
use soup_db.Common.Utf8.{Text}

mutual
  pub data Key : Type 0 where
    int : ℤ → Key
    text : Text → Key
    tuple : Keys → Key
    other : Key

  pub data Keys : Type 0 where
    nil : Keys
    cons : Key → Keys → Keys

abbrev pub int_tag : ℕ
int_tag = 105

abbrev pub str_tag : ℕ
str_tag = 115

abbrev pub tuple_tag : ℕ
tuple_tag = 116

-- Bytes behind their length.
unfoldable pub encode_part : Bytes → Result Bytes
encode_part part = do size ← pack_unsigned_le 4 (length part); ok (size ++ part)

unfoldable pub encode_int : ℤ → Result Bytes
encode_int n = require (fits_signed 8 n) Exc.value_error >> ok (int_tag ∷ pack_le 8 (to_word 8 n))

unfoldable pub encode_str : Text → Result Bytes
unfolding encode_part
encode_str chars = do payload ← Utf8.encode chars; part ← encode_part payload; ok (str_tag ∷ part)

unfoldable pub encode_tuple : List Bytes → Result Bytes
unfolding encode_each encode_part
encode_tuple items = do
  count ← pack_unsigned_le 4 (length items)
  parts ← encode_each encode_part items
  ok (tuple_tag ∷ (count ++ parts))

unfoldable mutual
  unfolding encode_int encode_str encode_tuple

  pub encode_key : Key → Result Bytes
  encode_key (int n) = encode_int n
  encode_key (text chars) = encode_str chars
  encode_key (tuple keys) = encode_keys keys >>= encode_tuple
  encode_key other = raise Exc.type_error

  pub encode_keys : Keys → Result (List Bytes)
  encode_keys nil = ok []
  encode_keys (cons key keys) = do
    first ← encode_key key
    rest ← encode_keys keys
    ok (first ∷ rest)

-- `_read_length`
unfoldable pub read_length : Decoder ℕ
read_length blob off =
    require (leb (off + 4) (length blob)) Exc.value_error
    >> ok (unpack_le (slice off 4 blob), off + 4)

unfoldable pub is_tag : ℕ → Bytes → Bool
is_tag c (x ∷ []) = x == c
is_tag c bytes = false

unfoldable pub decode_int_key : Decoder Key
decode_int_key blob off =
    require (leb (off + 8) (length blob)) Exc.value_error
    >> ok (int (of_word 8 (unpack_le (slice off 8 blob))), off + 8)

unfoldable pub decode_str_key : Decoder Key
unfolding read_length
decode_str_key blob off = do
  (size, at) ← read_length blob off
  require (leb (at + size) (length blob)) Exc.value_error
      >> (or_raise Exc.value_error (Utf8.decode (slice at size blob)) >>= λ chars.
          ok (text chars, at + size))

pub to_keys : List Key → Keys
to_keys [] = nil
to_keys (key ∷ rest) = cons key (to_keys rest)

-- An item of a tuple: what its bytes alone hold.
unfoldable pub decode_item : Decoder Key → Decoder Key
unfolding read_length
decode_item inner blob off = do
  (size, at) ← read_length blob off
  require (leb (at + size) (length blob)) Exc.value_error
      >> (inner (slice at size blob) 0 >>= λ (key, consumed).
          require (consumed == size) Exc.value_error >> ok (key, at + size))

unfoldable pub decode_tuple_key : Decoder Key → Decoder Key
unfolding read_length repeat decode_item to_keys
decode_tuple_key inner blob off = do
  (count, at) ← read_length blob off
  (keys, next) ← repeat count (decode_item inner) blob at
  ok (tuple (to_keys keys), next)

-- `_decode_from` behind the tag
unfoldable pub decode_body : Decoder Key → Bytes → Decoder Key
unfolding is_tag decode_int_key decode_str_key decode_tuple_key
decode_body inner tag blob off =
    if is_tag int_tag tag
    then decode_int_key blob off
    else if is_tag str_tag tag
    then decode_str_key blob off
    else if is_tag tuple_tag tag
    then decode_tuple_key inner blob off
    else raise Exc.value_error

-- `_decode_from`
pub decode_from : ℕ → Decoder Key
unfolding decode_body
decode_from zero blob off = raise Exc.recursion_error
decode_from (suc frames) blob off =
    require (ltb off (length blob)) Exc.value_error
    >> decode_body (decode_from frames) (slice off 1 blob) blob (off + 1)

unfoldable pub decode_key : ℕ → Bytes → Result Key
unfolding decode_from
decode_key frames blob = do
  (key, next) ← decode_from frames blob 0
  require (next == length blob) Exc.value_error >> ok key
