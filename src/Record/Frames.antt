-- ===== src/Record/Frames.antt =====
-- engine/common/record.py: the frame of a value, a flag and its payload, and that a payload is read back.
use soup_db.Common.{
  ℕ, ◌+◌, ◌^◌, ◌<◌, ◌≡◌, refl, sym, ap, subst, true, false, ◌&&◌, some, List, [], ◌∷◌, ◌++◌, Exc,
  ok, raise, >>=-eq-ok, require, require-eq-ok, length, length-append, ◌==◌, arith,
}
use soup_db.Common.Bytes.{Bytes, At, At-slice, At-next, At-le, At-append}
use soup_db.Common.Struct.{
  pack_le, unpack_le, to_word, fits_signed, pack_unsigned_le, pack_unsigned_le-eq-ok,
  length-pack_le, unpack_le-pack_le, of_word-to_word, to_word-lt,
}
use soup_db.Common.Utf8
use soup_db.Common.Float.{of_int-lt}
use soup_db.Values.{Coord, Value, ColumnType, ColumnDef, as_float}
use soup_db.Record.{
  encode_text, encode_as, take_bytes, is_flag, decode_text, decode_as, is_number, fits_varchar,
}

-- A double has 64 bits.
unfoldable pub IsCoord : Coord → Type 0
IsCoord (Coord.float w) = w < 256 ^ 8
IsCoord c = Unit {0}

unfoldable pub IsValue : Value → Type 0
IsValue (Value.float w) = w < 256 ^ 8
IsValue (Value.pair x y) = IsCoord x × IsCoord y
IsValue value = Unit {0}

unfoldable pub AllValues : List Value → Type 0
AllValues [] = Unit {0}
AllValues (value ∷ row) = IsValue value × AllValues row

-- What is read back: the same value, but for a point, whose coordinates are read as floats.
unfoldable pub stored_coord : Coord → ℕ
stored_coord c = elim (as_float c) [ ok w ↦ w | raise e ↦ 0 ]

unfoldable pub stored : Value → Value
stored (Value.pair x y) = Value.pair (Coord.float (stored_coord x)) (Coord.float (stored_coord y))
stored value = value

pub as_float-lt : (c : Coord) {w : ℕ} → IsCoord c → as_float c ≡ ok w → w < 256 ^ 8
unfolding as_float IsCoord
as_float-lt (Coord.int n) v h = of_int-lt n h
as_float-lt (Coord.float x) v h = ground arith
as_float-lt Coord.other v h = cc

pub stored_coord-eq : (c : Coord) {w : ℕ} → as_float c ≡ ok w → stored_coord c ≡ w
unfolding stored_coord
stored_coord-eq c h = ground (arith, h)

pub take-At :
    {blob : Bytes} {off : ℕ} (n : ℕ) (d rest : Bytes)
    → length d ≡ n
    → At blob off (d ++ rest)
    → take_bytes blob off n ≡ ok (d, off + n)
unfolding take_bytes
take-At n d rest h k = ground (arith, At-slice d rest k, At-le d rest k)

text-At :
    (value : Value) (column : ColumnDef) {b : Bytes} {blob : Bytes} {off : ℕ} (rest : Bytes)
    → encode_text value column ≡ ok b
    → At blob off (b ++ rest)
    → decode_text blob off ≡ ok (stored value, off + length b)
unfolding encode_text decode_text stored
text-At (Value.text chars) column {b} {blob} {off} rest h k =
    let (u, h1, h2) =
      >>=-eq-ok
        (require (fits_varchar column.type_name column.length (length chars))
          Exc.query_execution_error)
        _ h in
    let (raw, hr, h3) = >>=-eq-ok (Utf8.encode chars) _ h2 in
    let (size, hs, h4) = >>=-eq-ok (pack_unsigned_le 4 (length raw)) _ h3 in
    let (eq, len, val) = pack_unsigned_le-eq-ok 4 (length raw) hs in
    let same : b ≡ size ++ raw = ground (arith, h4) in
    let k1 : At blob off (size ++ (raw ++ rest)) =
      At-append size raw rest (subst (λ w. At blob off (w ++ rest)) same k) in
    let k2 : At blob (off + 4) (raw ++ rest) =
      subst (λ n. At blob (off + n) (raw ++ rest)) len (At-next size (raw ++ rest) k1) in
    let t1 : take_bytes blob off 4 ≡ ok (size, off + 4) = take-At 4 size (raw ++ rest) len k1 in
    let t2 : take_bytes blob (off + 4) (unpack_le size) ≡ ok (raw, off + 4 + unpack_le size) =
      take-At (unpack_le size) raw rest (sym val) k2 in
    let t3 : Utf8.decode raw ≡ some chars = Utf8.decode-encode chars raw hr in
    let t4 : off + 4 + unpack_le size ≡ off + length b =
      omega (arith, length-append size raw, ap length same) in
    rw (t1, t2, t3, t4) refl
text-At Value.null column rest h k = cc
text-At (Value.int n) column rest h k = cc
text-At (Value.float w) column rest h k = cc
text-At (Value.bool x) column rest h k = cc
text-At (Value.pair x y) column rest h k = cc
text-At (Value.bytes x) column rest h k = cc
text-At Value.other column rest h k = cc

-- Flag and payload of a value that is not None, and that the payload is read back behind its flag.
pub record Framed (type_name : ColumnType) (value : Value) (b : Bytes) : Type 0 where
  pub flag : ℕ
  pub payload : Bytes
  pub whole : b ≡ flag ∷ payload
  pub present : (flag == 0) ≡ false
  pub reads :
      {blob : Bytes} {off : ℕ} (rest : Bytes)
      → At blob off (payload ++ rest)
      → decode_as type_name (flag ∷ []) blob off ≡ ok (stored value, off + length payload)

encode_as-Framed_int :
    (value : Value) (column : ColumnDef) {b : Bytes}
    → IsValue value
    → encode_as ColumnType.int value column ≡ ok b
    → Framed ColumnType.int value b
unfolding encode_as decode_as IsValue stored is_flag
encode_as-Framed_int (Value.int n) column {b} v h =
    let (u, h1, h2) = >>=-eq-ok (require (fits_signed 4 n) Exc.query_execution_error) _ h in
    let fits : fits_signed 4 n ≡ true = require-eq-ok _ _ h1 in
    let word : unpack_le (pack_le 4 (to_word 4 n)) ≡ to_word 4 n =
      unpack_le-pack_le 4 _ (to_word-lt 4 n fits) in
    let four : length (pack_le 4 (to_word 4 n)) ≡ 4 = length-pack_le 4 (to_word 4 n) in
    record {
      flag = 1;
      payload = pack_le 4 (to_word 4 n);
      whole = ground (arith, h2);
      present = refl;
      reads = λ {blob} {off} rest k.
          let taken = take-At 4 (pack_le 4 (to_word 4 n)) rest four k in
          rw (taken, word, of_word-to_word 4 n fits, four) refl;
    }
encode_as-Framed_int Value.null column v h = cc
encode_as-Framed_int (Value.float w) column v h = cc
encode_as-Framed_int (Value.bool x) column v h = cc
encode_as-Framed_int (Value.text t) column v h = cc
encode_as-Framed_int (Value.pair x y) column v h = cc
encode_as-Framed_int (Value.bytes x) column v h = cc
encode_as-Framed_int Value.other column v h = cc

encode_as-Framed_float :
    (value : Value) (column : ColumnDef) {b : Bytes}
    → IsValue value
    → encode_as ColumnType.float value column ≡ ok b
    → Framed ColumnType.float value b
unfolding encode_as decode_as IsValue stored is_flag
encode_as-Framed_float (Value.float w) column {b} v h =
    let word : unpack_le (pack_le 8 w) ≡ w = unpack_le-pack_le 8 w v in
    let eight : length (pack_le 8 w) ≡ 8 = length-pack_le 8 w in
    record {
      flag = 1;
      payload = pack_le 8 w;
      whole = ground (arith, h);
      present = refl;
      reads = λ {blob} {off} rest k.
          let taken = take-At 8 (pack_le 8 w) rest eight k in rw (taken, word, eight) refl;
    }
encode_as-Framed_float Value.null column v h = cc
encode_as-Framed_float (Value.int n) column v h = cc
encode_as-Framed_float (Value.bool x) column v h = cc
encode_as-Framed_float (Value.text t) column v h = cc
encode_as-Framed_float (Value.pair x y) column v h = cc
encode_as-Framed_float (Value.bytes x) column v h = cc
encode_as-Framed_float Value.other column v h = cc

encode_as-Framed_bool :
    (value : Value) (column : ColumnDef) {b : Bytes}
    → IsValue value
    → encode_as ColumnType.bool value column ≡ ok b
    → Framed ColumnType.bool value b
unfolding encode_as decode_as IsValue stored is_flag
encode_as-Framed_bool (Value.bool true) column {b} v h = record {
  flag = 1;
  payload = [];
  whole = ground (arith, h);
  present = refl;
  reads = λ {blob} {off} rest k. ap (λ n. ok (Value.bool true, n)) (omega arith);
}
encode_as-Framed_bool (Value.bool false) column {b} v h = record {
  flag = 2;
  payload = [];
  whole = ground (arith, h);
  present = refl;
  reads = λ {blob} {off} rest k. ap (λ n. ok (Value.bool false, n)) (omega arith);
}
encode_as-Framed_bool Value.null column v h = cc
encode_as-Framed_bool (Value.int n) column v h = cc
encode_as-Framed_bool (Value.float w) column v h = cc
encode_as-Framed_bool (Value.text t) column v h = cc
encode_as-Framed_bool (Value.pair x y) column v h = cc
encode_as-Framed_bool (Value.bytes x) column v h = cc
encode_as-Framed_bool Value.other column v h = cc

encode_as-Framed_point :
    (value : Value) (column : ColumnDef) {b : Bytes}
    → IsValue value
    → encode_as ColumnType.point value column ≡ ok b
    → Framed ColumnType.point value b
unfolding encode_as decode_as IsValue stored is_flag
encode_as-Framed_point (Value.pair x y) column {b} v h =
    let (u, h1, h2) =
      >>=-eq-ok (require (is_number x && is_number y) Exc.query_execution_error) _ h in
    let (p, hp, h3) = >>=-eq-ok (as_float x) _ h2 in
    let (q, hq, h4) = >>=-eq-ok (as_float y) _ h3 in
    let word_p : unpack_le (pack_le 8 p) ≡ p = unpack_le-pack_le 8 p (as_float-lt x v.0 hp) in
    let word_q : unpack_le (pack_le 8 q) ≡ q = unpack_le-pack_le 8 q (as_float-lt y v.1 hq) in
    let eight_p : length (pack_le 8 p) ≡ 8 = length-pack_le 8 p in
    let eight_q : length (pack_le 8 q) ≡ 8 = length-pack_le 8 q in
    record {
      flag = 1;
      payload = pack_le 8 p ++ pack_le 8 q;
      whole = ground (arith, h4);
      present = refl;
      reads = λ {blob} {off} rest k.
          let k1 : At blob off (pack_le 8 p ++ (pack_le 8 q ++ rest)) =
            At-append (pack_le 8 p) (pack_le 8 q) rest k in
          let k2 : At blob (off + 8) (pack_le 8 q ++ rest) =
            subst (λ n. At blob (off + n) (pack_le 8 q ++ rest)) eight_p
              (At-next (pack_le 8 p) _ k1) in
          let t1 : take_bytes blob off 8 ≡ ok (pack_le 8 p, off + 8) =
            take-At 8 (pack_le 8 p) _ eight_p k1 in
          let t2 : take_bytes blob (off + 8) 8 ≡ ok (pack_le 8 q, off + 8 + 8) =
            take-At 8 (pack_le 8 q) rest eight_q k2 in
          let sum : off + 8 + 8 ≡ off + length (pack_le 8 p ++ pack_le 8 q) =
            omega (arith, length-append (pack_le 8 p) (pack_le 8 q)) in
          rw (t1, t2, word_p, word_q, sum, stored_coord-eq x hp, stored_coord-eq y hq) refl;
    }
encode_as-Framed_point Value.null column v h = cc
encode_as-Framed_point (Value.int n) column v h = cc
encode_as-Framed_point (Value.float w) column v h = cc
encode_as-Framed_point (Value.bool x) column v h = cc
encode_as-Framed_point (Value.text t) column v h = cc
encode_as-Framed_point (Value.bytes x) column v h = cc
encode_as-Framed_point Value.other column v h = cc

encode_as-Framed_varchar :
    (value : Value) (column : ColumnDef) {b : Bytes}
    → encode_as ColumnType.varchar value column ≡ ok b
    → Framed ColumnType.varchar value b
unfolding encode_as decode_as is_flag
encode_as-Framed_varchar value column h =
    let (raw, h1, h2) = >>=-eq-ok (encode_text value column) _ h in
    record {
      flag = 1;
      payload = raw;
      whole = ground (arith, h2);
      present = refl;
      reads = λ {blob} {off} rest k. text-At value column rest h1 k;
    }

encode_as-Framed_text :
    (value : Value) (column : ColumnDef) {b : Bytes}
    → encode_as ColumnType.text value column ≡ ok b
    → Framed ColumnType.text value b
unfolding encode_as decode_as is_flag
encode_as-Framed_text value column h =
    let (raw, h1, h2) = >>=-eq-ok (encode_text value column) _ h in
    record {
      flag = 1;
      payload = raw;
      whole = ground (arith, h2);
      present = refl;
      reads = λ {blob} {off} rest k. text-At value column rest h1 k;
    }

pub encode_as-Framed :
    (type_name : ColumnType) (value : Value) (column : ColumnDef) {b : Bytes}
    → IsValue value
    → encode_as type_name value column ≡ ok b
    → Framed type_name value b
encode_as-Framed ColumnType.int value column v h = encode_as-Framed_int value column v h
encode_as-Framed ColumnType.float value column v h = encode_as-Framed_float value column v h
encode_as-Framed ColumnType.varchar value column v h = encode_as-Framed_varchar value column h
encode_as-Framed ColumnType.text value column v h = encode_as-Framed_text value column h
encode_as-Framed ColumnType.bool value column v h = encode_as-Framed_bool value column v h
encode_as-Framed ColumnType.point value column v h = encode_as-Framed_point value column v h
