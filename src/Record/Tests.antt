-- ===== src/Record/Tests.antt =====
-- Runs of engine/common/record.py on a row with every kind of value.
use soup_db.Common.{◌≡◌, refl, true, none, some, List, [], ◌∷◌, ◌++◌, map, Exc, ok, raise, arith}
use soup_db.Common.Bytes.{Bytes}
use soup_db.Common.Int.{pos, negsuc}
use soup_db.Values.{Coord, Value, ColumnType, ColumnDef, as_float}
use soup_db.Common.Float
use soup_db.Common.Utf8
use soup_db.Common.Struct.{fits_signed, pack_unsigned_le, pack_le, to_word}
use soup_db.Record.{
  encode_row, encode_columns, encode_value, encode_as, encode_text, decode_row, is_number,
  fits_varchar,
}
use soup_db.Record.Frames.{AllValues, IsValue, IsCoord, stored}
use soup_db.Record.RoundTrip.{decode_row-encode_row, decode_row-trailing}

abbrev columns : List ColumnDef
columns =
    record { name = 105 ∷ []; type_name = ColumnType.int; length = none }
    ∷ record { name = 102 ∷ []; type_name = ColumnType.float; length = none }
    ∷ record { name = 98 ∷ []; type_name = ColumnType.bool; length = none }
    ∷ record { name = 112 ∷ []; type_name = ColumnType.point; length = none }
    ∷ record { name = 118 ∷ []; type_name = ColumnType.varchar; length = some 2 }
    ∷ record { name = 116 ∷ []; type_name = ColumnType.text; length = none }
    ∷ []

abbrev row : List Value
row =
    Value.int (negsuc 1)
    ∷ Value.float 0x3ff0000000000000
    ∷ Value.bool true
    ∷ Value.pair (Coord.int (pos 3)) (Coord.float 0)
    ∷ Value.text (241 ∷ 97 ∷ [])
    ∷ Value.null
    ∷ []

abbrev row_bytes : Bytes
row_bytes =
    1 ∷ 254 ∷ 255 ∷ 255 ∷ 255 ∷ 1 ∷ 0 ∷ 0 ∷ 0 ∷ 0 ∷ 0 ∷ 0 ∷ 240 ∷ 63 ∷ 1 ∷ 1 ∷ 0 ∷ 0 ∷ 0 ∷ 0 ∷ 0 ∷ 0
    ∷ 8 ∷ 64 ∷ 0 ∷ 0 ∷ 0 ∷ 0 ∷ 0 ∷ 0 ∷ 0 ∷ 0 ∷ 1 ∷ 3 ∷ 0 ∷ 0 ∷ 0 ∷ 195 ∷ 177 ∷ 97 ∷ 0 ∷ []

row_encodes : encode_row row columns ≡ ok row_bytes
unfolding encode_row encode_columns encode_value encode_as fits_signed as_float Float.of_int
    encode_text Utf8.encode Utf8.encode_char pack_unsigned_le pack_le to_word is_number fits_varchar
row_encodes = refl

row_values : AllValues row
unfolding AllValues IsValue IsCoord
row_values = (tt, (omega arith, (tt, ((tt, omega arith), (tt, (tt, tt))))))

decode_row-encode_row_example : decode_row row_bytes columns ≡ ok (map stored row)
decode_row-encode_row_example = decode_row-encode_row row columns row_bytes row_values row_encodes

decode_row-trailing_example :
    decode_row (row_bytes ++ (0 ∷ [])) columns ≡ raise Exc.query_execution_error
decode_row-trailing_example =
    decode_row-trailing row columns row_bytes (0 ∷ []) row_values row_encodes (omega arith)
