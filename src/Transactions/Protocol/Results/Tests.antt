-- ===== src/Transactions/Protocol/Results/Tests.antt =====
-- Runs of engine/transactions/protocol.py on one answer of each kind and on an EXECUTE request.
use soup_db.Common.{◌≡◌, refl, true, some, ok, [], ◌∷◌, map, length, All, List}
use soup_db.Common.Bytes.{Bytes}
use soup_db.Common.Reads.{encode_each}
use soup_db.Common.Struct.{pack_unsigned_be, pack_be, pack_le}
use soup_db.Common.Utf8
use soup_db.Values.{Value, ColumnType}
use soup_db.Record.Frames.{IsValue, stored}
use soup_db.Transactions.Protocol.{encode_value}
use soup_db.Transactions.Protocol.Requests.{encode_sized}
use soup_db.Transactions.Protocol.Results.{
  encode_execute, decode_execute, encode_ok, encode_error, ResultSet, encode_resultset,
  decode_resultset, encode_table, encode_column_v2, type_text, wire_size, or_zero,
}
use soup_db.Transactions.Protocol.Results.RoundTrip.{
  IsRow, stored_result, decode_execute-encode_execute, decode_resultset-encode_resultset,
}

ok_encodes : encode_ok 7 ≡ ok (0 ∷ 0 ∷ 0 ∷ 7 ∷ [])
unfolding encode_ok pack_unsigned_be pack_be pack_le
ok_encodes = refl

error_encodes : encode_error 5 (97 ∷ []) ≡ ok (5 ∷ 0 ∷ 1 ∷ 97 ∷ [])
unfolding encode_error Utf8.encode Utf8.encode_char pack_unsigned_be pack_be pack_le
error_encodes = refl

abbrev params : List Value
params = Value.bool true ∷ Value.null ∷ []

abbrev execute_bytes : Bytes
execute_bytes = 0 ∷ 1 ∷ 97 ∷ 0 ∷ 2 ∷ 4 ∷ 1 ∷ 0 ∷ []

execute_encodes : encode_execute (97 ∷ []) params ≡ ok execute_bytes
unfolding encode_execute encode_sized Utf8.encode Utf8.encode_char pack_unsigned_be encode_each
    encode_value pack_be pack_le
execute_encodes = refl

params_values : All IsValue params
unfolding IsValue
params_values = (tt, (tt, tt))

decode_execute-encode_execute_example :
    decode_execute execute_bytes ≡ ok (97 ∷ [], map stored params)
decode_execute-encode_execute_example =
    decode_execute-encode_execute (97 ∷ []) params execute_bytes params_values execute_encodes

abbrev result : ResultSet
result = record {
  columns = record { name = 97 ∷ []; type_name = ColumnType.varchar; length = some 3 } ∷ [];
  rows = (Value.text (98 ∷ []) ∷ []) ∷ (Value.null ∷ []) ∷ [];
  affected = 0;
}

abbrev result_bytes : Bytes
result_bytes =
    0 ∷ 1 ∷ 0 ∷ 1 ∷ 97 ∷ 0 ∷ 7 ∷ 86 ∷ 65 ∷ 82 ∷ 67 ∷ 72 ∷ 65 ∷ 82 ∷ 0 ∷ 0 ∷ 0 ∷ 0 ∷ 3 ∷ 0 ∷ 0 ∷ 0
    ∷ 2 ∷ 3 ∷ 0 ∷ 1 ∷ 98 ∷ 0 ∷ []

result_encodes : encode_resultset result 2 ≡ ok result_bytes
unfolding encode_resultset encode_table pack_unsigned_be encode_each encode_column_v2 encode_sized
    Utf8.encode Utf8.encode_char type_text wire_size or_zero encode_value pack_be pack_le
result_encodes = refl

result_rows : All (IsRow (length result.columns)) result.rows
unfolding IsValue
result_rows = ((refl, (tt, tt)), ((refl, (tt, tt)), tt))

decode_resultset-encode_resultset_example :
    decode_resultset result_bytes 2 ≡ ok (stored_result result)
decode_resultset-encode_resultset_example =
    decode_resultset-encode_resultset result 2 result_bytes result_rows result_encodes
