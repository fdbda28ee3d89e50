-- ===== src/Record.antt =====
-- engine/common/record.py: the bytes of a row. Each column is a flag byte, 0 for NULL, and then
-- its payload, little-endian. `encode_value` and `encode_text` are the bytes that the source's
-- append to `out`, which nobody sees when they raise.
use soup_db.Common.{
  ℕ, zero, suc, ◌+◌, ◌-◌, ◌^◌, ltb, leb, ◌==◌, Bool, true, false, ◌&&◌, not, Option, none, some,
  List, [], ◌∷◌, ◌++◌, Exc, Result, ok, raise, ◌>>=◌, ◌>>◌, require, or_raise, length,
  if◌then◌else◌,
}
use soup_db.Common.Bytes.{Bytes, slice}
use soup_db.Common.Struct.{pack_le, unpack_le, to_word, of_word, fits_signed, pack_unsigned_le}
use soup_db.Common.Utf8
use soup_db.Values.{Coord, Value, ColumnType, ColumnDef, as_float}
pub mod Frames
mod RoundTrip
mod Tests

-- `type(coord) in (int, float)`
unfoldable pub is_number : Coord → Bool
is_number Coord.other = false
is_number (Coord.int n) = true
is_number (Coord.float w) = true

-- Whether a text of `n` characters is inside the column's limit: only VARCHAR has one.
unfoldable pub fits_varchar : ColumnType → Option ℕ → ℕ → Bool
fits_varchar ColumnType.varchar (some limit) n = leb n limit
fits_varchar type_name limit n = true

unfoldable pub encode_text : Value → ColumnDef → Result Bytes
encode_text (Value.text chars) column = do
  require (fits_varchar column.type_name column.length (length chars)) Exc.query_execution_error
  raw ← Utf8.encode chars
  size ← pack_unsigned_le 4 (length raw)
  ok (size ++ raw)
encode_text value column = raise Exc.query_execution_error

-- A value that is not None, by the type of its column.
unfoldable pub encode_as : ColumnType → Value → ColumnDef → Result Bytes
encode_as ColumnType.int (Value.int n) column = do
  require (fits_signed 4 n) Exc.query_execution_error
  ok (1 ∷ pack_le 4 (to_word 4 n))
encode_as ColumnType.float (Value.float w) column = ok (1 ∷ pack_le 8 w)
encode_as ColumnType.bool (Value.bool b) column = ok ((if b then 1 else 2) ∷ [])
encode_as ColumnType.point (Value.pair x y) column = do
  require (is_number x && is_number y) Exc.query_execution_error
  v ← as_float x
  w ← as_float y
  ok (1 ∷ (pack_le 8 v ++ pack_le 8 w))
encode_as ColumnType.varchar value column = do raw ← encode_text value column; ok (1 ∷ raw)
encode_as ColumnType.text value column = do raw ← encode_text value column; ok (1 ∷ raw)
encode_as type_name value column = raise Exc.query_execution_error

unfoldable pub encode_value : Value → ColumnDef → Result Bytes
encode_value Value.null column = ok (0 ∷ [])
encode_value value column = encode_as column.type_name value column

unfoldable pub encode_columns : List Value → List ColumnDef → Result Bytes
encode_columns (value ∷ row) (column ∷ columns) = do
  out ← encode_value value column
  rest ← encode_columns row columns
  ok (out ++ rest)
encode_columns row columns = ok []

unfoldable pub encode_row : List Value → List ColumnDef → Result Bytes
encode_row row columns = do
  require (length row == length columns) Exc.query_execution_error
  encode_columns row columns

unfoldable pub take_bytes : Bytes → ℕ → ℕ → Result (Bytes × ℕ)
take_bytes blob off size =
    if leb (off + size) (length blob)
    then ok (slice off size blob, off + size)
    else raise Exc.query_execution_error

-- `flag == bytes([v])`
unfoldable pub is_flag : ℕ → Bytes → Bool
is_flag v (b ∷ []) = b == v
is_flag v flag = false

unfoldable pub decode_text : Bytes → ℕ → Result (Value × ℕ)
decode_text blob off = do
  size ← take_bytes blob off 4
  raw ← take_bytes blob size.1 (unpack_le size.0)
  chars ← or_raise Exc.query_execution_error (Utf8.decode raw.0)
  ok (Value.text chars, raw.1)

-- The payload after a flag that is not 0.
unfoldable pub decode_as : ColumnType → Bytes → Bytes → ℕ → Result (Value × ℕ)
decode_as ColumnType.int flag blob off = do
  require (is_flag 1 flag) Exc.query_execution_error
  value ← take_bytes blob off 4
  ok (Value.int (of_word 4 (unpack_le value.0)), value.1)
decode_as ColumnType.float flag blob off = do
  require (is_flag 1 flag) Exc.query_execution_error
  value ← take_bytes blob off 8
  ok (Value.float (unpack_le value.0), value.1)
decode_as ColumnType.bool flag blob off =
    if is_flag 1 flag
    then ok (Value.bool true, off)
    else if is_flag 2 flag
    then ok (Value.bool false, off)
    else raise Exc.query_execution_error
decode_as ColumnType.point flag blob off = do
  require (is_flag 1 flag) Exc.query_execution_error
  x ← take_bytes blob off 8
  y ← take_bytes blob x.1 8
  ok (Value.pair (Coord.float (unpack_le x.0)) (Coord.float (unpack_le y.0)), y.1)
decode_as ColumnType.varchar flag blob off = do
  require (is_flag 1 flag) Exc.query_execution_error
  decode_text blob off
decode_as ColumnType.text flag blob off = do
  require (is_flag 1 flag) Exc.query_execution_error
  decode_text blob off

unfoldable pub decode_flagged : ColumnType → Bytes → Bytes → ℕ → Result (Value × ℕ)
decode_flagged type_name flag blob off =
    if is_flag 0 flag then ok (Value.null, off) else decode_as type_name flag blob off

unfoldable pub decode_value : Bytes → ℕ → ColumnDef → Result (Value × ℕ)
decode_value blob off column = do
  flag ← take_bytes blob off 1
  decode_flagged column.type_name flag.0 blob flag.1

unfoldable pub decode_columns : Bytes → ℕ → List ColumnDef → Result (List Value × ℕ)
decode_columns blob off [] = ok ([], off)
decode_columns blob off (column ∷ columns) = do
  value ← decode_value blob off column
  rest ← decode_columns blob value.1 columns
  ok (value.0 ∷ rest.0, rest.1)

unfoldable pub decode_row : Bytes → List ColumnDef → Result (List Value)
decode_row blob columns = do
  row ← decode_columns blob 0 columns
  require (row.1 == length blob) Exc.query_execution_error
  ok row.0
