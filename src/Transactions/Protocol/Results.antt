-- ===== src/Transactions/Protocol/Results.antt =====
-- engine/transactions/protocol.py: the payloads of EXECUTE and of the answers OK, ERROR and RESULT, in
-- both versions of the wire format, and engine/query/resultset.py.
pub mod Answers
pub mod RoundTrip
mod Tests
use soup_db.Common.{
  ℕ, zero, suc, ◌+◌, ◌==◌, Bool, true, false, ◌&&◌, Option, none, some, List, [], ◌∷◌, ◌++◌, Exc,
  Result, ok, raise, ◌>>=◌, ◌>>◌, require, or_raise, length, if◌then◌else◌,
}
use soup_db.Common.Bytes.{Bytes, slice}
use soup_db.Common.Struct.{unpack_be, pack_unsigned_be}
use soup_db.Common.Reads.{Decoder, repeat, encode_each}
use soup_db.Common.Texts.{same_text}
use soup_db.Common.Utf8
use soup_db.Common.Utf8.{Text}
use soup_db.Values.{Value, ColumnType, ColumnDef}
use soup_db.Transactions.Protocol.{unpack_from, encode_value, decode_value}
use soup_db.Transactions.Protocol.Requests.{encode_sized, decode_sized}

-- An unsigned number of `n` bytes.
unfoldable pub read_unsigned : ℕ → Decoder ℕ
read_unsigned n payload off = do raw ← unpack_from n payload off; ok (unpack_be raw, off + n)

unfoldable pub encode_execute : Text → List Value → Result Bytes
encode_execute name params = do
  first ← encode_sized 2 name
  count ← pack_unsigned_be 2 (length params)
  values ← encode_each encode_value params
  ok (first ++ (count ++ values))

unfoldable pub decode_execute : Bytes → Result (Text × List Value)
decode_execute payload = do
  (name, next) ← decode_sized 2 payload 0
  (count, after) ← read_unsigned 2 payload next
  (params, _) ← repeat count decode_value payload after
  ok (name, params)

unfoldable pub encode_ok : ℕ → Result Bytes
encode_ok affected = pack_unsigned_be 4 affected

-- `struct.unpack` wants exactly the bytes of the format.
unfoldable pub decode_ok : Bytes → Result ℕ
decode_ok payload = do require (length payload == 4) Exc.struct_error; ok (unpack_be payload)

unfoldable pub encode_error : ℕ → Text → Result Bytes
encode_error code message = do
  raw ← Utf8.encode message
  first ← pack_unsigned_be 1 code
  size ← pack_unsigned_be 2 (length raw)
  ok (first ++ (size ++ raw))

unfoldable pub decode_error : Bytes → Result (ℕ × Text)
decode_error payload = do
  head ← unpack_from 3 payload 0
  message ← or_raise Exc.unicode_error (Utf8.decode (slice 3 (unpack_be (slice 1 2 head)) payload))
  ok (unpack_be (slice 0 1 head), message)

-- engine/query/resultset.py
pub record ResultSet : Type 0 where
  pub columns : List ColumnDef
  pub rows : List (List Value)
  pub affected : ℕ

unfoldable pub type_code : ColumnType → ℕ
type_code ColumnType.int = 1
type_code ColumnType.float = 2
type_code ColumnType.varchar = 3
type_code ColumnType.text = 4
type_code ColumnType.bool = 5
type_code ColumnType.point = 6

unfoldable pub column_type : ℕ → Result ColumnType
column_type code =
    if code == 1
    then ok ColumnType.int
    else if code == 2
    then ok ColumnType.float
    else if code == 3
    then ok ColumnType.varchar
    else if code == 4
    then ok ColumnType.text
    else if code == 5
    then ok ColumnType.bool
    else if code == 6
    then ok ColumnType.point
    else raise Exc.key_error

-- `column.type_name.value`
unfoldable pub type_text : ColumnType → Text
type_text ColumnType.int = 73 ∷ 78 ∷ 84 ∷ []
type_text ColumnType.float = 70 ∷ 76 ∷ 79 ∷ 65 ∷ 84 ∷ []
type_text ColumnType.varchar = 86 ∷ 65 ∷ 82 ∷ 67 ∷ 72 ∷ 65 ∷ 82 ∷ []
type_text ColumnType.text = 84 ∷ 69 ∷ 88 ∷ 84 ∷ []
type_text ColumnType.bool = 66 ∷ 79 ∷ 79 ∷ 76 ∷ []
type_text ColumnType.point = 80 ∷ 79 ∷ 73 ∷ 78 ∷ 84 ∷ []

-- `ColumnType(text)`
unfoldable pub type_of_text : Text → Result ColumnType
unfolding same_text
type_of_text text =
    if same_text text (type_text ColumnType.int)
    then ok ColumnType.int
    else if same_text text (type_text ColumnType.float)
    then ok ColumnType.float
    else if same_text text (type_text ColumnType.varchar)
    then ok ColumnType.varchar
    else if same_text text (type_text ColumnType.text)
    then ok ColumnType.text
    else if same_text text (type_text ColumnType.bool)
    then ok ColumnType.bool
    else if same_text text (type_text ColumnType.point)
    then ok ColumnType.point
    else raise Exc.value_error

-- `column.length or 0`, and `length or None` of the number that is read.
unfoldable pub or_zero : Option ℕ → ℕ
or_zero none = 0
or_zero (some n) = n

unfoldable pub or_none : ℕ → Option ℕ
or_none zero = none
or_none (suc n) = some (suc n)

-- `_wire_encoding`: the second component; the first is always 0.
unfoldable pub wire_size : ColumnType → ℕ
wire_size ColumnType.int = 4
wire_size ColumnType.float = 8
wire_size ColumnType.varchar = 0
wire_size ColumnType.text = 0
wire_size ColumnType.bool = 1
wire_size ColumnType.point = 16

unfoldable pub encode_column_v1 : ColumnDef → Result Bytes
encode_column_v1 column = do
  name ← encode_sized 2 column.name
  code ← pack_unsigned_be 1 (type_code column.type_name)
  limit ← pack_unsigned_be 2 (or_zero column.length)
  ok (name ++ (code ++ limit))

unfoldable pub decode_column_v1 : Decoder ColumnDef
decode_column_v1 payload off = do
  (name, at_code) ← decode_sized 2 payload off
  (code, at_limit) ← read_unsigned 1 payload at_code
  (limit, next) ← read_unsigned 2 payload at_limit
  type_name ← column_type code
  ok (record { name = name; type_name = type_name; length = or_none limit }, next)

unfoldable pub encode_column_v2 : ColumnDef → Result Bytes
encode_column_v2 column = do
  name ← encode_sized 2 column.name
  type_name ← encode_sized 2 (type_text column.type_name)
  encoding ← pack_unsigned_be 1 0
  size ← pack_unsigned_be 2 (wire_size column.type_name)
  limit ← pack_unsigned_be 2 (or_zero column.length)
  ok (name ++ (type_name ++ (encoding ++ (size ++ limit))))

unfoldable pub decode_column_v2 : Decoder ColumnDef
decode_column_v2 payload off = do
  (name, at_type) ← decode_sized 2 payload off
  (text, at_encoding) ← decode_sized 2 payload at_type
  (_, at_size) ← read_unsigned 1 payload at_encoding
  (_, at_limit) ← read_unsigned 2 payload at_size
  (limit, next) ← read_unsigned 2 payload at_limit
  type_name ← type_of_text text
  ok (record { name = name; type_name = type_name; length = or_none limit }, next)

-- The two versions differ in their columns only.
unfoldable pub encode_table : (ColumnDef → Result Bytes) → ResultSet → Result Bytes
encode_table encode_column result = do
  width ← pack_unsigned_be 2 (length result.columns)
  columns ← encode_each encode_column result.columns
  height ← pack_unsigned_be 4 (length result.rows)
  rows ← encode_each (encode_each encode_value) result.rows
  ok (width ++ (columns ++ (height ++ rows)))

unfoldable pub decode_table : Decoder ColumnDef → Bytes → Result ResultSet
decode_table decode_column payload = do
  (width, at_columns) ← read_unsigned 2 payload 0
  (columns, at_height) ← repeat width decode_column payload at_columns
  (height, at_rows) ← read_unsigned 4 payload at_height
  (rows, _) ← repeat height (repeat (length columns) decode_value) payload at_rows
  ok (record { columns = columns; rows = rows; affected = 0 })

unfoldable pub encode_resultset : ResultSet → ℕ → Result Bytes
encode_resultset result version =
    if version == 1
    then encode_table encode_column_v1 result
    else if version == 2
    then encode_table encode_column_v2 result
    else raise Exc.protocol_error

unfoldable pub decode_resultset : Bytes → ℕ → Result ResultSet
decode_resultset payload version =
    if version == 1
    then decode_table decode_column_v1 payload
    else if version == 2
    then decode_table decode_column_v2 payload
    else raise Exc.protocol_error

-- The code of an exception in an ERROR answer.
unfoldable pub error_code : Exc → ℕ
error_code Exc.query_parse_error = 1
error_code Exc.query_execution_error = 2
error_code Exc.deadlock_detected = 5
error_code Exc.lock_not_granted = 4
error_code Exc.transaction_error = 3
error_code Exc.record_not_found = 6
error_code Exc.contract_violation = 7
error_code Exc.unsupported_operation = 8
error_code exc = 0
