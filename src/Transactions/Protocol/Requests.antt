-- ===== src/Transactions/Protocol/Requests.antt =====
-- engine/transactions/protocol.py: the payloads of the requests QUERY, PREPARE and DEALLOCATE.
use mathlib.Core.List.{append-nil}
use soup_db.Common.{
  ℕ, ◌+◌, ◌≡◌, refl, sym, ap, subst, [], ◌++◌, Exc, Result, ok, ◌>>=◌, >>=-eq-ok, or_raise, length,
  arith, length-append,
}
use soup_db.Common.Bytes.{Bytes, slice, At, At-start, At-slice, At-next, At-append}
use soup_db.Common.Struct.{unpack_be, pack_unsigned_be, pack_unsigned_be-eq-ok}
use soup_db.Common.Utf8
use soup_db.Common.Utf8.{Text}
use soup_db.Transactions.Protocol.{unpack_from}
use soup_db.Transactions.Protocol.RoundTrip.{next-At, unpack_from-At}

-- A text behind its length in `n` bytes: the form of `encode_query` and `_encode_name`.
unfoldable pub encode_sized : ℕ → Text → Result Bytes
encode_sized n chars = do
  raw ← Utf8.encode chars
  size ← pack_unsigned_be n (length raw)
  ok (size ++ raw)

unfoldable pub decode_sized : ℕ → Bytes → ℕ → Result (Text × ℕ)
decode_sized n payload off = do
  size ← unpack_from n payload off
  chars ← or_raise Exc.unicode_error (Utf8.decode (slice (off + n) (unpack_be size) payload))
  ok (chars, off + n + unpack_be size)

unfoldable pub encode_query : Text → Result Bytes
encode_query sql = encode_sized 4 sql

unfoldable pub decode_query : Bytes → Result Text
decode_query payload = do sql ← decode_sized 4 payload 0; ok sql.0

unfoldable pub encode_prepare : Text → Text → Result Bytes
encode_prepare name sql = do
  raw ← Utf8.encode sql
  first ← encode_sized 2 name
  size ← pack_unsigned_be 4 (length raw)
  ok (first ++ (size ++ raw))

unfoldable pub decode_prepare : Bytes → Result (Text × Text)
decode_prepare payload = do
  name ← decode_sized 2 payload 0
  sql ← decode_sized 4 payload name.1
  ok (name.0, sql.0)

unfoldable pub encode_deallocate : Text → Result Bytes
encode_deallocate name = encode_sized 2 name

unfoldable pub decode_deallocate : Bytes → Result Text
decode_deallocate payload = do name ← decode_sized 2 payload 0; ok name.0

pub sized-At :
    (n : ℕ) (chars : Text) (b blob rest : Bytes) (off : ℕ)
    → encode_sized n chars ≡ ok b
    → At blob off (b ++ rest)
    → decode_sized n blob off ≡ ok (chars, off + length b)
unfolding encode_sized decode_sized
sized-At n chars b blob rest off h k =
    let (raw, hr, h1) = >>=-eq-ok (Utf8.encode chars) _ h in
    let (size, hs, h2) = >>=-eq-ok (pack_unsigned_be n (length raw)) _ h1 in
    let (eq, len, val) = pack_unsigned_be-eq-ok n (length raw) hs in
    let same : b ≡ size ++ raw = ground (arith, h2) in
    let k1 : At blob off (size ++ (raw ++ rest)) =
      At-append size raw rest (subst (λ w. At blob off (w ++ rest)) same k) in
    let k2 : At blob (off + n) (raw ++ rest) = next-At n size (raw ++ rest) len k1 in
    let sum : off + n + length raw ≡ off + length b =
      omega (arith, length-append size raw, ap length same, len) in
    rw
      (
        unpack_from-At n size (raw ++ rest) len k1,
        val,
        At-slice raw rest k2,
        Utf8.decode-encode chars raw hr,
        sum,
      )
      refl

whole-At : (b : Bytes) → At b 0 (b ++ [])
whole-At b = subst (λ w. At b 0 w) (sym (append-nil b)) (At-start b)

-- The payload of a QUERY and of a DEALLOCATE request, and that of a PREPARE request with its two
-- texts, are read back whenever they can be written.
pub requests_round_trip :
    (name sql : Text) (query prepare deallocate : Bytes)
    → encode_query sql ≡ ok query
    → encode_prepare name sql ≡ ok prepare
    → encode_deallocate name ≡ ok deallocate
    → (decode_query query ≡ ok sql)
      × (decode_prepare prepare ≡ ok (name, sql))
      × (decode_deallocate deallocate ≡ ok name)
unfolding encode_query decode_query encode_prepare decode_prepare encode_deallocate
    decode_deallocate
requests_round_trip name sql query prepare deallocate hq hp hd =
    let (raw, hw, h1) = >>=-eq-ok (Utf8.encode sql) _ hp in
    let (first, hf, h2) = >>=-eq-ok (encode_sized 2 name) _ h1 in
    let (size, hs, h3) = >>=-eq-ok (pack_unsigned_be 4 (length raw)) _ h2 in
    let rest : Bytes = size ++ raw in
    let hr : encode_sized 4 sql ≡ ok rest = unfold encode_sized in rw (hw, hs) refl in
    let same : prepare ≡ first ++ rest = ground (arith, h3) in
    let k0 : At prepare 0 (first ++ rest) = subst (λ w. At prepare 0 w) same (At-start prepare) in
    let k1 : At prepare (0 + length first) (rest ++ []) =
      subst (λ w. At prepare (0 + length first) w) (sym (append-nil rest))
        (At-next first rest k0) in
    let t1 = sized-At 2 name first prepare rest 0 hf k0 in
    let t2 = sized-At 4 sql rest prepare [] (0 + length first) hr k1 in
    (
      rw (sized-At 4 sql query query [] 0 hq (whole-At query)) refl,
      rw (t1, t2) refl,
      rw (sized-At 2 name deallocate deallocate [] 0 hd (whole-At deallocate)) refl,
    )
