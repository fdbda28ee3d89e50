-- ===== src/Transactions/Protocol/Results/RoundTrip.antt =====
-- engine/transactions/protocol.py: answers and EXECUTE requests are read back.
use mathlib.Core.List.{append-nil}
use soup_db.Common.{
  ℕ, suc, ◌+◌, ◌≡◌, refl, sym, ap, subst, inl, inr, ◌==◌, Bool-cases, List, [], ◌∷◌, ◌++◌, map,
  Result, ok, >>=-eq-ok, length, All, arith, length-append,
}
use soup_db.Common.Bytes.{Bytes, At, At-start}
use soup_db.Common.Reads.{Decoder, Reads, repeat, encode_each, repeat-Reads, Reads-next}
use soup_db.Common.Struct.{pack_unsigned_be, pack_unsigned_be-eq-ok}
use soup_db.Common.Utf8.{Text}
use soup_db.Values.{Value, ColumnType, ColumnDef}
use soup_db.Record.Frames.{IsValue, stored}
use soup_db.Transactions.Protocol.{encode_value, decode_value}
use soup_db.Transactions.Protocol.RoundTrip.{unpack_from-At}
use soup_db.Transactions.Protocol.Values.{decode_value-encode_value}
use soup_db.Transactions.Protocol.Requests.{encode_sized, decode_sized, sized-At}
use soup_db.Transactions.Protocol.Results.{
  read_unsigned, encode_execute, decode_execute, ResultSet, type_code, column_type, type_text,
  type_of_text, or_zero, or_none, wire_size, encode_column_v1, decode_column_v1, encode_column_v2,
  decode_column_v2, encode_table, decode_table, encode_resultset, decode_resultset,
}

pub unsigned-Reads :
    (n v : ℕ) (b : Bytes) → pack_unsigned_be n v ≡ ok b → Reads (read_unsigned n) b v
unfolding read_unsigned
unsigned-Reads n v b h blob off rest k =
    let (_, len, val) = pack_unsigned_be-eq-ok n v h in
    rw (unpack_from-At n b rest len k, val, len) refl

sized-Reads :
    (n : ℕ) (chars : Text) (b : Bytes)
    → encode_sized n chars ≡ ok b
    → Reads (decode_sized n) b chars
sized-Reads n chars b h blob off rest k = sized-At n chars b blob rest off h k

value-Reads :
    (v : Value) (b : Bytes) → IsValue v → encode_value v ≡ ok b → Reads decode_value b (stored v)
value-Reads v b valid h blob off rest k = decode_value-encode_value rest v b valid h k

values-Reads :
    (row : List Value) (b : Bytes)
    → All IsValue row
    → encode_each encode_value row ≡ ok b
    → Reads (repeat (length row) decode_value) b (map stored row)
values-Reads = repeat-Reads encode_value decode_value stored IsValue value-Reads

whole : (b c : Bytes) → b ≡ c → At b 0 (c ++ [])
whole b c e = subst (λ w. At b 0 w) (sym (append-nil c)) (subst (λ w. At b 0 w) e (At-start b))

-- The payload of an EXECUTE request is read back as its name and its parameters; the coordinates of a
-- point are read as floats. The condition is that the floats have 64 bits.
pub decode_execute-encode_execute :
    (name : Text) (params : List Value) (b : Bytes)
    → All IsValue params
    → encode_execute name params ≡ ok b
    → decode_execute b ≡ ok (name, map stored params)
unfolding encode_execute decode_execute
decode_execute-encode_execute name params b v h =
    let (x, hx, h1) = >>=-eq-ok (encode_sized 2 name) _ h in
    let (y, hy, h2) = >>=-eq-ok (pack_unsigned_be 2 (length params)) _ h1 in
    let (z, hz, h3) = >>=-eq-ok (encode_each encode_value params) _ h2 in
    let same : b ≡ x ++ (y ++ z) = ground (arith, h3) in
    let (t1, k1) =
      Reads-next (decode_sized 2) x (y ++ z) name b 0 [] (sized-Reads 2 name x hx)
        (whole b (x ++ (y ++ z)) same) in
    let (t2, k2) =
      Reads-next (read_unsigned 2) y z (length params) b (0 + length x) []
        (unsigned-Reads 2 (length params) y hy) k1 in
    let t3 = values-Reads params z v hz b (0 + length x + length y) [] k2 in rw (t1, t2, t3) refl

-- What is read back of a column: a limit of 0 is no limit on the wire.
unfoldable pub stored_column : ColumnDef → ColumnDef
unfolding or_zero
stored_column c = record c { length = or_none (or_zero c.length) }

column_type-type_code : (t : ColumnType) → column_type (type_code t) ≡ ok t
unfolding column_type type_code
column_type-type_code ColumnType.int = refl
column_type-type_code ColumnType.float = refl
column_type-type_code ColumnType.varchar = refl
column_type-type_code ColumnType.text = refl
column_type-type_code ColumnType.bool = refl
column_type-type_code ColumnType.point = refl

type_of_text-type_text : (t : ColumnType) → type_of_text (type_text t) ≡ ok t
unfolding type_of_text type_text
type_of_text-type_text ColumnType.int = refl
type_of_text-type_text ColumnType.float = refl
type_of_text-type_text ColumnType.varchar = refl
type_of_text-type_text ColumnType.text = refl
type_of_text-type_text ColumnType.bool = refl
type_of_text-type_text ColumnType.point = refl

column_v1-Reads :
    (c : ColumnDef) (b : Bytes)
    → Unit {0}
    → encode_column_v1 c ≡ ok b
    → Reads decode_column_v1 b (stored_column c)
unfolding encode_column_v1 decode_column_v1 stored_column
column_v1-Reads c b u h blob off rest k =
    let (x, hx, h1) = >>=-eq-ok (encode_sized 2 c.name) _ h in
    let (y, hy, h2) = >>=-eq-ok (pack_unsigned_be 1 (type_code c.type_name)) _ h1 in
    let (z, hz, h3) = >>=-eq-ok (pack_unsigned_be 2 (or_zero c.length)) _ h2 in
    let same : b ≡ x ++ (y ++ z) = ground (arith, h3) in
    let k0 : At blob off ((x ++ (y ++ z)) ++ rest) = subst (λ w. At blob off (w ++ rest)) same k in
    let (t1, k1) =
      Reads-next (decode_sized 2) x (y ++ z) c.name blob off rest (sized-Reads 2 c.name x hx) k0 in
    let (t2, k2) =
      Reads-next (read_unsigned 1) y z (type_code c.type_name) blob (off + length x) rest
        (unsigned-Reads 1 (type_code c.type_name) y hy) k1 in
    let t3 = unsigned-Reads 2 (or_zero c.length) z hz blob (off + length x + length y) rest k2 in
    let sum : off + length x + length y + length z ≡ off + length b =
      omega (arith, length-append y z, length-append x (y ++ z), ap length same) in
    rw (t1, t2, t3, column_type-type_code c.type_name, sum) refl

column_v2-Reads :
    (c : ColumnDef) (b : Bytes)
    → Unit {0}
    → encode_column_v2 c ≡ ok b
    → Reads decode_column_v2 b (stored_column c)
unfolding encode_column_v2 decode_column_v2 stored_column
column_v2-Reads c b u h blob off rest k =
    let (n, hn, h1) = >>=-eq-ok (encode_sized 2 c.name) _ h in
    let (t, ht, h2) = >>=-eq-ok (encode_sized 2 (type_text c.type_name)) _ h1 in
    let (x, hx, h3) = >>=-eq-ok (pack_unsigned_be 1 0) _ h2 in
    let (y, hy, h4) = >>=-eq-ok (pack_unsigned_be 2 (wire_size c.type_name)) _ h3 in
    let (z, hz, h5) = >>=-eq-ok (pack_unsigned_be 2 (or_zero c.length)) _ h4 in
    let same : b ≡ n ++ (t ++ (x ++ (y ++ z))) = ground (arith, h5) in
    let k0 : At blob off ((n ++ (t ++ (x ++ (y ++ z)))) ++ rest) =
      subst (λ w. At blob off (w ++ rest)) same k in
    let (t1, k1) =
      Reads-next (decode_sized 2) n (t ++ (x ++ (y ++ z))) c.name blob off rest
        (sized-Reads 2 c.name n hn) k0 in
    let (t2, k2) =
      Reads-next (decode_sized 2) t (x ++ (y ++ z)) (type_text c.type_name) blob (off + length n)
        rest (sized-Reads 2 (type_text c.type_name) t ht) k1 in
    let (t3, k3) =
      Reads-next (read_unsigned 1) x (y ++ z) 0 blob (off + length n + length t) rest
        (unsigned-Reads 1 0 x hx) k2 in
    let (t4, k4) =
      Reads-next (read_unsigned 2) y z (wire_size c.type_name) blob
        (off + length n + length t + length x) rest (unsigned-Reads 2 (wire_size c.type_name) y hy)
        k3 in
    let t5 =
      unsigned-Reads 2 (or_zero c.length) z hz blob
        (off + length n + length t + length x + length y) rest k4 in
    let sum : off + length n + length t + length x + length y + length z ≡ off + length b = omega (
      arith,
      length-append y z,
      length-append x (y ++ z),
      length-append t (x ++ (y ++ z)),
      length-append n (t ++ (x ++ (y ++ z))),
      ap length same,
    ) in
    rw (t1, t2, t3, t4, t5, type_of_text-type_text c.type_name, sum) refl

-- A row of the table's width whose floats have 64 bits.
abbrev pub IsRow : ℕ → List Value → Type 0
IsRow width row = (length row ≡ width) × All IsValue row

row-Reads :
    (width : ℕ) (row : List Value) (b : Bytes)
    → IsRow width row
    → encode_each encode_value row ≡ ok b
    → Reads (repeat width decode_value) b (map stored row)
row-Reads width row b v h =
    subst (λ n. Reads (repeat n decode_value) b (map stored row)) v.0 (values-Reads row b v.1 h)

-- What is read back of a result: the number of affected rows is not sent.
unfoldable pub stored_result : ResultSet → ResultSet
unfolding stored_column
stored_result r = record {
  columns = map stored_column r.columns;
  rows = map (map stored) r.rows;
  affected = 0;
}

length-map : {A B : Type 0} (f : A → B) (xs : List A) → length (map f xs) ≡ length xs
length-map f [] = refl
length-map f (x ∷ xs) = ap suc (length-map f xs)

All-trivial : {A : Type 0} (xs : List A) → All (λ _. Unit {0}) xs
All-trivial [] = tt
All-trivial (x ∷ xs) = (tt, All-trivial xs)

table-Reads :
    (encode_column : ColumnDef → Result Bytes) (decode_column : Decoder ColumnDef)
    → ((c : ColumnDef) (b : Bytes)
        → Unit {0}
        → encode_column c ≡ ok b
        → Reads decode_column b (stored_column c))
    → (r : ResultSet) (b : Bytes) → All (IsRow (length r.columns)) r.rows
    → encode_table encode_column r ≡ ok b
    → decode_table decode_column b ≡ ok (stored_result r)
unfolding encode_table decode_table stored_result
table-Reads encode_column decode_column column-Reads r b v h =
    let (w, hw, h1) = >>=-eq-ok (pack_unsigned_be 2 (length r.columns)) _ h in
    let (c, hc, h2) = >>=-eq-ok (encode_each encode_column r.columns) _ h1 in
    let (n, hn, h3) = >>=-eq-ok (pack_unsigned_be 4 (length r.rows)) _ h2 in
    let (d, hd, h4) = >>=-eq-ok (encode_each (encode_each encode_value) r.rows) _ h3 in
    let same : b ≡ w ++ (c ++ (n ++ d)) = ground (arith, h4) in
    let width : length (map stored_column r.columns) ≡ length r.columns =
      length-map stored_column r.columns in
    let (t1, k1) =
      Reads-next (read_unsigned 2) w (c ++ (n ++ d)) (length r.columns) b 0 []
        (unsigned-Reads 2 (length r.columns) w hw) (whole b (w ++ (c ++ (n ++ d))) same) in
    let (t2, k2) =
      Reads-next (repeat (length r.columns) decode_column) c (n ++ d) (map stored_column r.columns)
        b (0 + length w) []
        (repeat-Reads encode_column decode_column stored_column (λ _. Unit {0}) column-Reads
          r.columns c (All-trivial r.columns) hc)
        k1 in
    let (t3, k3) =
      Reads-next (read_unsigned 4) n d (length r.rows) b (0 + length w + length c) []
        (unsigned-Reads 4 (length r.rows) n hn) k2 in
    let t4 =
      repeat-Reads (encode_each encode_value) (repeat (length r.columns) decode_value) (map stored)
        (IsRow (length r.columns)) (row-Reads (length r.columns)) r.rows d v hd b
        (0 + length w + length c + length n) [] k3 in
    rw (t1, t2, t3, width, t4) refl

-- A RESULT payload in either version is read back in that version: the same rows, but for the
-- coordinates of points, which are read as floats, and the same columns, but for a limit of 0, which
-- is read as none; the number of affected rows is not sent and reads 0. The conditions are that every
-- row has as many values as there are columns and that the floats have 64 bits.
pub decode_resultset-encode_resultset :
    (r : ResultSet) (version : ℕ) (b : Bytes)
    → All (IsRow (length r.columns)) r.rows
    → encode_resultset r version ≡ ok b
    → decode_resultset b version ≡ ok (stored_result r)
unfolding encode_resultset decode_resultset
decode_resultset-encode_resultset r version b v h = elim (Bool-cases (version == 1)) [
  | inl first ↦
      rw first (table-Reads encode_column_v1 decode_column_v1 column_v1-Reads r b v (rw first at h))
  | inr later ↦ elim (Bool-cases (version == 2)) [
    | inl second ↦
        rw (later, second)
          (table-Reads encode_column_v2 decode_column_v2 column_v2-Reads r b v
            (rw (later, second) at h))
    | inr neither ↦ absurd (ground (arith, h))
  ]
]
