-- ===== src/Transactions/Protocol/Results/Answers.antt =====
-- engine/transactions/protocol.py: the payloads of OK and ERROR are read back.
use mathlib.Core.List.{append-nil, append_assoc}
use soup_db.Common.{
  ℕ, ◌≡◌, refl, sym, subst, ◌∙◌, ◌==◌, true, [], ◌++◌, ok, >>=-eq-ok, length, arith, length-append,
}
use soup_db.Common.Bytes.{Bytes, slice, At, At-start, At-slice}
use soup_db.Common.Struct.{pack_unsigned_be, pack_unsigned_be-eq-ok}
use soup_db.Common.Utf8
use soup_db.Common.Utf8.{Text}
use soup_db.Transactions.Protocol.{unpack_from}
use soup_db.Transactions.Protocol.RoundTrip.{unpack_from-At, slice-At, next-At}
use soup_db.Transactions.Protocol.Results.{encode_ok, decode_ok, encode_error, decode_error}

-- The head of an ERROR payload: its code and its size.
head_parts :
    (first size : Bytes)
    → length first ≡ 1
    → length size ≡ 2
    → (slice 0 1 (first ++ size) ≡ first) × (slice 1 2 (first ++ size) ≡ size)
head_parts first size len_f len_s =
    let k0 : At (first ++ size) 0 (first ++ size) = At-start (first ++ size) in
    let k1 : At (first ++ size) 1 (size ++ []) =
      subst (λ w. At (first ++ size) 1 w) (sym (append-nil size))
        (next-At {off = 0} 1 first size len_f k0) in
    (slice-At {off = 0} 1 first size len_f k0, slice-At {off = 1} 2 size [] len_s k1)

-- The payloads of an OK answer and of an ERROR answer are read back whenever they can be written.
pub answers_round_trip :
    (affected code : ℕ) (message : Text) (done failed : Bytes)
    → encode_ok affected ≡ ok done
    → encode_error code message ≡ ok failed
    → (decode_ok done ≡ ok affected) × (decode_error failed ≡ ok (code, message))
unfolding encode_ok decode_ok encode_error decode_error
answers_round_trip affected code message done failed h k =
    let (_, len, val) = pack_unsigned_be-eq-ok 4 affected h in
    let (raw, hr, k1) = >>=-eq-ok (Utf8.encode message) _ k in
    let (first, hf, k2) = >>=-eq-ok (pack_unsigned_be 1 code) _ k1 in
    let (size, hs, k3) = >>=-eq-ok (pack_unsigned_be 2 (length raw)) _ k2 in
    let (_, len_f, val_f) = pack_unsigned_be-eq-ok 1 code hf in
    let (_, len_s, val_s) = pack_unsigned_be-eq-ok 2 (length raw) hs in
    let same : failed ≡ first ++ (size ++ raw) = ground (arith, k3) in
    let a0 : At failed 0 ((first ++ size) ++ raw) =
      subst (λ w. At failed 0 w) (same ∙ sym (append_assoc first size raw)) (At-start failed) in
    let three : length (first ++ size) ≡ 3 =
      omega (arith, length-append first size, len_f, len_s) in
    let a1 : At failed 3 (raw ++ []) =
      subst (λ w. At failed 3 w) (sym (append-nil raw))
        (next-At {off = 0} 3 (first ++ size) raw three a0) in
    let t1 : unpack_from 3 failed 0 ≡ ok (first ++ size) =
      unpack_from-At 3 (first ++ size) raw three a0 in
    let (p0, p1) = head_parts first size len_f len_s in
    let t2 : slice 3 (length raw) failed ≡ raw = At-slice raw [] a1 in
    let four : (length done == 4) ≡ true = ground (arith, len) in
    (rw (four, val) refl, rw (t1, p0, p1, val_s, t2, Utf8.decode-encode message raw hr, val_f) refl)
