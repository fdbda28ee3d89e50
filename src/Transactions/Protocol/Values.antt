-- ===== src/Transactions/Protocol/Values.antt =====
-- engine/transactions/protocol.py: values are read back from their bytes.
use soup_db.Common.{
  ℕ, ◌+◌, ◌^◌, ◌<◌, ◌≡◌, refl, ap, subst, ◌∙◌, Bool, true, false, ◌&&◌, [], ◌∷◌, ◌++◌, Exc, ok,
  >>=-eq-ok, require, require-eq-ok, if◌then◌else◌, ltb, length, length-append, arith,
}
use soup_db.Common.Bytes.{Bytes, At, At-slice, At-le, At-append}
use soup_db.Common.Struct.{
  pack_be, unpack_be, unpack_le, to_word, fits_signed, pack_unsigned_be, pack_unsigned_be-eq-ok,
  length-pack_be, unpack_be-pack_be, of_word-to_word, to_word-lt,
}
use soup_db.Common.Utf8
use soup_db.Common.Int.{ℤ}
use soup_db.Values.{Coord, Value, as_float}
use soup_db.Record.{is_number}
use soup_db.Record.Frames.{IsValue, stored, as_float-lt, stored_coord-eq}
use soup_db.Transactions.Protocol.RoundTrip.{slice-At, next-At, unpack_from-At}
use soup_db.Transactions.Protocol.{
  encode_value, byte_at, decode_value, decode_tagged, decode_int, decode_float, decode_text,
  decode_bool, decode_point, decode_bytes,
}

pub single : (t : ℕ) → unpack_be (t ∷ []) ≡ t
unfolding unpack_be unpack_le
single t = omega arith

module _ {blob : Bytes} {off : ℕ} (rest : Bytes) where
  tagged :
      (t : ℕ) (p : Bytes)
      → At blob off ((t ∷ []) ++ (p ++ rest))
      → decode_value blob off ≡ decode_tagged t blob (off + 1)
  unfolding decode_value
  tagged t p k = rw (unpack_from-At 1 (t ∷ []) (p ++ rest) refl k, single t) refl

  int-At :
      (n : ℤ)
      → fits_signed 4 n ≡ true
      → At blob off (pack_be 4 (to_word 4 n) ++ rest)
      → decode_int blob off ≡ ok (Value.int n, off + 4)
  unfolding decode_int
  int-At n fits k =
      rw
        (
          unpack_from-At 4 (pack_be 4 (to_word 4 n)) rest (length-pack_be 4 (to_word 4 n)) k,
          unpack_be-pack_be 4 (to_word 4 n) (to_word-lt 4 n fits),
          of_word-to_word 4 n fits,
        )
        refl

  float-At :
      (w : ℕ)
      → w < 256 ^ 8
      → At blob off (pack_be 8 w ++ rest)
      → decode_float blob off ≡ ok (Value.float w, off + 8)
  unfolding decode_float
  float-At w v k =
      rw (unpack_from-At 8 (pack_be 8 w) rest (length-pack_be 8 w) k, unpack_be-pack_be 8 w v) refl

  bool-At :
      (b : Bool)
      → At blob off (((if b then 1 else 0) ∷ []) ++ rest)
      → decode_bool blob off ≡ ok (Value.bool b, off + 1)
  unfolding decode_bool byte_at
  bool-At true k =
      let s = slice-At 1 (1 ∷ []) rest refl k in
      let inside : ltb off (length blob) ≡ true = ground (arith, At-le (1 ∷ []) rest k) in
      rw (inside, s, single 1) refl
  bool-At false k =
      let s = slice-At 1 (0 ∷ []) rest refl k in
      let inside : ltb off (length blob) ≡ true = ground (arith, At-le (0 ∷ []) rest k) in
      rw (inside, s, single 0) refl

  point-At :
      (p q : ℕ)
      → p < 256 ^ 8
      → q < 256 ^ 8
      → At blob off (pack_be 8 p ++ (pack_be 8 q ++ rest))
      → decode_point blob off ≡ ok (Value.pair (Coord.float p) (Coord.float q), off + 8 + 8)
  unfolding decode_point
  point-At p q hp hq k =
      let k2 : At blob (off + 8) (pack_be 8 q ++ rest) =
        next-At 8 (pack_be 8 p) (pack_be 8 q ++ rest) (length-pack_be 8 p) k in
      rw
        (
          unpack_from-At 8 (pack_be 8 p) (pack_be 8 q ++ rest) (length-pack_be 8 p) k,
          unpack_from-At 8 (pack_be 8 q) rest (length-pack_be 8 q) k2,
          unpack_be-pack_be 8 p hp,
          unpack_be-pack_be 8 q hq,
        )
        refl

  text-At :
      (chars raw size : Bytes)
      → Utf8.encode chars ≡ ok raw
      → length size ≡ 2
      → unpack_be size ≡ length raw
      → At blob off (size ++ (raw ++ rest))
      → decode_text blob off ≡ ok (Value.text chars, off + 2 + length raw)
  unfolding decode_text
  text-At chars raw size hr len val k =
      let k2 : At blob (off + 2) (raw ++ rest) = next-At 2 size (raw ++ rest) len k in
      rw
        (
          unpack_from-At 2 size (raw ++ rest) len k,
          val,
          At-slice raw rest k2,
          Utf8.decode-encode chars raw hr,
        )
        refl

  bytes-At :
      (raw size : Bytes)
      → length size ≡ 4
      → unpack_be size ≡ length raw
      → At blob off (size ++ (raw ++ rest))
      → decode_bytes blob off ≡ ok (Value.bytes raw, off + 4 + length raw)
  unfolding decode_bytes
  bytes-At raw size len val k =
      let k2 : At blob (off + 4) (raw ++ rest) = next-At 4 size (raw ++ rest) len k in
      rw (unpack_from-At 4 size (raw ++ rest) len k, val, At-slice raw rest k2) refl

module _ {blob : Bytes} {off : ℕ} (rest : Bytes) where
  -- The bytes of a value, wherever they stand in a payload, are read back as the value, and reading
  -- stops behind them; the coordinates of a point are read as floats. The only condition is that a
  -- float has 64 bits.
  pub decode_value-encode_value :
      (value : Value) (b : Bytes)
      → IsValue value
      → encode_value value ≡ ok b
      → At blob off (b ++ rest)
      → decode_value blob off ≡ ok (stored value, off + length b)
  unfolding encode_value decode_tagged IsValue stored
  decode_value-encode_value Value.null b v h k =
      let same : b ≡ 0 ∷ [] = ground (arith, h) in
      let k1 : At blob off ((0 ∷ []) ++ rest) = subst (λ w. At blob off (w ++ rest)) same k in
      let sum : off + 1 ≡ off + length b = omega (arith, ap length same) in
      tagged rest 0 [] k1 ∙ ap (λ n. ok (Value.null, n)) sum
  decode_value-encode_value (Value.bool x) b v h k =
      let p : Bytes = (if x then 1 else 0) ∷ [] in
      let same : b ≡ (4 ∷ []) ++ p = ground (arith, h) in
      let k1 : At blob off ((4 ∷ []) ++ (p ++ rest)) =
        subst (λ w. At blob off (w ++ rest)) same k in
      let k2 : At blob (off + 1) (p ++ rest) = next-At 1 (4 ∷ []) (p ++ rest) refl k1 in
      let sum : off + 1 + 1 ≡ off + length b = omega (arith, ap length same) in
      tagged rest 4 p k1 ∙ bool-At rest x k2 ∙ ap (λ n. ok (Value.bool x, n)) sum
  decode_value-encode_value (Value.int n) b v h k =
      let (u, h1, h2) = >>=-eq-ok (require (fits_signed 4 n) Exc.struct_error) _ h in
      let fits : fits_signed 4 n ≡ true = require-eq-ok _ _ h1 in
      let p : Bytes = pack_be 4 (to_word 4 n) in
      let same : b ≡ (1 ∷ []) ++ p = ground (arith, h2) in
      let k1 : At blob off ((1 ∷ []) ++ (p ++ rest)) =
        subst (λ w. At blob off (w ++ rest)) same k in
      let k2 : At blob (off + 1) (p ++ rest) = next-At 1 (1 ∷ []) (p ++ rest) refl k1 in
      let sum : off + 1 + 4 ≡ off + length b =
        omega (arith, ap length same, length-pack_be 4 (to_word 4 n)) in
      tagged rest 1 p k1 ∙ int-At rest n fits k2 ∙ ap (λ m. ok (Value.int n, m)) sum
  decode_value-encode_value (Value.float w) b v h k =
      let p : Bytes = pack_be 8 w in
      let same : b ≡ (2 ∷ []) ++ p = ground (arith, h) in
      let k1 : At blob off ((2 ∷ []) ++ (p ++ rest)) =
        subst (λ x. At blob off (x ++ rest)) same k in
      let k2 : At blob (off + 1) (p ++ rest) = next-At 1 (2 ∷ []) (p ++ rest) refl k1 in
      let sum : off + 1 + 8 ≡ off + length b = omega (arith, ap length same, length-pack_be 8 w) in
      tagged rest 2 p k1 ∙ float-At rest w v k2 ∙ ap (λ m. ok (Value.float w, m)) sum
  decode_value-encode_value (Value.text chars) b v h k =
      let (raw, hr, h1) = >>=-eq-ok (Utf8.encode chars) _ h in
      let (size, hs, h2) = >>=-eq-ok (pack_unsigned_be 2 (length raw)) _ h1 in
      let (eq, len, val) = pack_unsigned_be-eq-ok 2 (length raw) hs in
      let same : b ≡ (3 ∷ []) ++ (size ++ raw) = ground (arith, h2) in
      let k1 : At blob off ((3 ∷ []) ++ ((size ++ raw) ++ rest)) =
        subst (λ x. At blob off (x ++ rest)) same k in
      let k2 : At blob (off + 1) (size ++ (raw ++ rest)) =
        At-append size raw rest (next-At 1 (3 ∷ []) ((size ++ raw) ++ rest) refl k1) in
      let sum : off + 1 + 2 + length raw ≡ off + length b =
        omega (arith, ap length same, length-append size raw, len) in
      tagged rest 3 (size ++ raw) k1
      ∙ text-At rest chars raw size hr len val k2
      ∙ ap (λ m. ok (Value.text chars, m)) sum
  decode_value-encode_value (Value.pair x y) b v h k =
      let (u, h1, h2) = >>=-eq-ok (require (is_number x && is_number y) Exc.protocol_error) _ h in
      let (p, hp, h3) = >>=-eq-ok (as_float x) _ h2 in
      let (q, hq, h4) = >>=-eq-ok (as_float y) _ h3 in
      let same : b ≡ (5 ∷ []) ++ (pack_be 8 p ++ pack_be 8 q) = ground (arith, h4) in
      let k1 : At blob off ((5 ∷ []) ++ ((pack_be 8 p ++ pack_be 8 q) ++ rest)) =
        subst (λ w. At blob off (w ++ rest)) same k in
      let k2 : At blob (off + 1) (pack_be 8 p ++ (pack_be 8 q ++ rest)) =
        At-append (pack_be 8 p) (pack_be 8 q) rest
          (next-At 1 (5 ∷ []) ((pack_be 8 p ++ pack_be 8 q) ++ rest) refl k1) in
      let sum : off + 1 + 8 + 8 ≡ off + length b = omega (
        arith,
        ap length same,
        length-append (pack_be 8 p) (pack_be 8 q),
        length-pack_be 8 p,
        length-pack_be 8 q,
      ) in
      tagged rest 5 (pack_be 8 p ++ pack_be 8 q) k1
      ∙ point-At rest p q (as_float-lt x v.0 hp) (as_float-lt y v.1 hq) k2
      ∙ rw (stored_coord-eq x hp, stored_coord-eq y hq, sum) refl
  decode_value-encode_value (Value.bytes raw) b v h k =
      let (size, hs, h1) = >>=-eq-ok (pack_unsigned_be 4 (length raw)) _ h in
      let (eq, len, val) = pack_unsigned_be-eq-ok 4 (length raw) hs in
      let same : b ≡ (6 ∷ []) ++ (size ++ raw) = ground (arith, h1) in
      let k1 : At blob off ((6 ∷ []) ++ ((size ++ raw) ++ rest)) =
        subst (λ x. At blob off (x ++ rest)) same k in
      let k2 : At blob (off + 1) (size ++ (raw ++ rest)) =
        At-append size raw rest (next-At 1 (6 ∷ []) ((size ++ raw) ++ rest) refl k1) in
      let sum : off + 1 + 4 + length raw ≡ off + length b =
        omega (arith, ap length same, length-append size raw, len) in
      tagged rest 6 (size ++ raw) k1
      ∙ bytes-At rest raw size len val k2
      ∙ ap (λ m. ok (Value.bytes raw, m)) sum
  decode_value-encode_value Value.other b v h k = cc
