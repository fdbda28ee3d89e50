-- ===== src/Record/RoundTrip.antt =====
-- engine/common/record.py: what `decode_row` makes of the bytes of `encode_row`.
use soup_db.Common.{
  ℕ, ◌+◌, ◌<◌, ◌≡◌, refl, sym, ap, subst, true, false, List, [], ◌∷◌, ◌++◌, map, Exc, ok, raise,
  >>=-eq-ok, require, require-eq-ok, length, length-append, ◌==◌, arith,
}
use soup_db.Common.Bytes.{Bytes, At, At-start, At-next, At-append}
use mathlib.Core.List.{append-nil}
use soup_db.Values.{Value, ColumnDef}
use soup_db.Record.{
  encode_value, encode_columns, encode_row, take_bytes, is_flag, decode_flagged, decode_value,
  decode_columns, decode_row,
}
use soup_db.Record.Frames.{IsValue, AllValues, stored, take-At, Framed, encode_as-Framed}

decode_value-Framed :
    {value : Value} (column : ColumnDef) {b blob : Bytes} {off : ℕ} (rest : Bytes)
    → Framed column.type_name value b
    → At blob off (b ++ rest)
    → decode_value blob off column ≡ ok (stored value, off + length b)
unfolding decode_value decode_flagged is_flag
decode_value-Framed {value} column {b} {blob} {off} rest f k =
    let k1 : At blob off ((f.flag ∷ []) ++ (f.payload ++ rest)) =
      subst (λ w. At blob off (w ++ rest)) f.whole k in
    let k2 : At blob (off + 1) (f.payload ++ rest) = At-next (f.flag ∷ []) _ k1 in
    let flag : take_bytes blob off 1 ≡ ok (f.flag ∷ [], off + 1) =
      take-At 1 (f.flag ∷ []) _ refl k1 in
    let sum : off + 1 + length f.payload ≡ off + length b = omega (arith, ap length f.whole) in
    rw (flag, f.present, f.reads rest k2, sum) refl

value-At :
    (value : Value) (column : ColumnDef) {b blob : Bytes} {off : ℕ} (rest : Bytes)
    → IsValue value
    → encode_value value column ≡ ok b
    → At blob off (b ++ rest)
    → decode_value blob off column ≡ ok (stored value, off + length b)
unfolding encode_value decode_value decode_flagged is_flag stored
value-At Value.null column {b} {blob} {off} rest v h k =
    let same : b ≡ 0 ∷ [] = ground (arith, h) in
    let k1 : At blob off ((0 ∷ []) ++ rest) = subst (λ w. At blob off (w ++ rest)) same k in
    let flag : take_bytes blob off 1 ≡ ok (0 ∷ [], off + 1) = take-At 1 (0 ∷ []) rest refl k1 in
    let sum : off + 1 ≡ off + length b = omega (arith, ap length same) in rw (flag, sum) refl
value-At (Value.int n) column rest v h k =
    decode_value-Framed column rest (encode_as-Framed column.type_name (Value.int n) column v h) k
value-At (Value.float w) column rest v h k =
    decode_value-Framed column rest (encode_as-Framed column.type_name (Value.float w) column v h) k
value-At (Value.bool x) column rest v h k =
    decode_value-Framed column rest (encode_as-Framed column.type_name (Value.bool x) column v h) k
value-At (Value.text t) column rest v h k =
    decode_value-Framed column rest (encode_as-Framed column.type_name (Value.text t) column v h) k
value-At (Value.pair x y) column rest v h k =
    decode_value-Framed column rest (encode_as-Framed column.type_name (Value.pair x y) column v h)
      k
value-At (Value.bytes x) column rest v h k =
    decode_value-Framed column rest (encode_as-Framed column.type_name (Value.bytes x) column v h) k
value-At Value.other column rest v h k =
    decode_value-Framed column rest (encode_as-Framed column.type_name Value.other column v h) k

columns-At :
    (row : List Value) (columns : List ColumnDef) {b blob : Bytes} {off : ℕ} (rest : Bytes)
    → AllValues row
    → length row ≡ length columns
    → encode_columns row columns ≡ ok b
    → At blob off (b ++ rest)
    → decode_columns blob off columns ≡ ok (map stored row, off + length b)
unfolding encode_columns decode_columns AllValues
columns-At [] [] {b} {blob} {off} rest v l h k =
    let same : b ≡ [] = ground (arith, h) in
    let sum : off ≡ off + length b = omega (arith, ap length same) in ap (λ n. ok ([], n)) sum
columns-At [] (column ∷ columns) rest v l h k = absurd (omega arith)
columns-At (value ∷ row) [] rest v l h k = absurd (omega arith)
columns-At (value ∷ row) (column ∷ columns) {b} {blob} {off} rest v l h k =
    let (x, hx, h1) = >>=-eq-ok (encode_value value column) _ h in
    let (y, hy, h2) = >>=-eq-ok (encode_columns row columns) _ h1 in
    let same : b ≡ x ++ y = ground (arith, h2) in
    let k1 : At blob off (x ++ (y ++ rest)) =
      At-append x y rest (subst (λ w. At blob off (w ++ rest)) same k) in
    let t1 = value-At value column (y ++ rest) v.0 hx k1 in
    let t2 = columns-At row columns rest v.1 (omega arith) hy (At-next x (y ++ rest) k1) in
    let sum : off + length x + length y ≡ off + length b =
      omega (arith, length-append x y, ap length same) in
    rw (t1, t2, sum) refl

-- A row whose bytes `encode_row` returns is read back by `decode_row` from those bytes under the
-- same columns: the same values, but for the coordinates of a point, which are read as floats.
-- The only condition is that the floats of the row have 64 bits.
pub decode_row-encode_row :
    (row : List Value) (columns : List ColumnDef) (b : Bytes)
    → AllValues row
    → encode_row row columns ≡ ok b
    → decode_row b columns ≡ ok (map stored row)
unfolding encode_row decode_row
decode_row-encode_row row columns b v h =
    let (u, h1, h2) =
      >>=-eq-ok (require (length row == length columns) Exc.query_execution_error) _ h in
    let same : length row ≡ length columns = ground (arith, require-eq-ok _ _ h1) in
    let start : At b 0 (b ++ []) = subst (λ w. At b 0 w) (sym (append-nil b)) (At-start b) in
    let t = columns-At row columns [] v same h2 start in
    let whole : (0 + length b == length b) ≡ true = ground arith in rw (t, whole) refl

-- Bytes past the end of a row are refused: `encode_row`'s bytes with any more behind them make
-- `decode_row` raise, under the same condition on floats.
pub decode_row-trailing :
    (row : List Value) (columns : List ColumnDef) (b more : Bytes)
    → AllValues row
    → encode_row row columns ≡ ok b
    → 0 < length more
    → decode_row (b ++ more) columns ≡ raise Exc.query_execution_error
unfolding encode_row decode_row
decode_row-trailing row columns b more v h l =
    let (u, h1, h2) =
      >>=-eq-ok (require (length row == length columns) Exc.query_execution_error) _ h in
    let same : length row ≡ length columns = ground (arith, require-eq-ok _ _ h1) in
    let t = columns-At row columns more v same h2 (At-start (b ++ more)) in
    let short : (0 + length b == length (b ++ more)) ≡ false =
      ground (arith, length-append b more) in
    rw (t, short) refl
