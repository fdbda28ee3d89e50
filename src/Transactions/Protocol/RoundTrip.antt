-- ===== src/Transactions/Protocol/RoundTrip.antt =====
-- engine/transactions/protocol.py: what is encoded is decoded.
use soup_db.Common.{
  ℕ, ◌+◌, ◌≡◌, refl, ap, subst, ◌∙◌, true, [], ◌∷◌, ◌++◌, Exc, ok, >>=-eq-ok, require,
  require-eq-ok, length, leb, ◌==◌, arith,
}
use mathlib.Core.List.{append_assoc}
use soup_db.Common.Bytes.{Bytes, slice, At, At-start, At-slice, At-next, At-le}
use soup_db.Common.Struct.{unpack_be, unpack_le, pack_unsigned_be, pack_unsigned_be-eq-ok}
use soup_db.Transactions.Protocol.{is_supported, encode_frame, is_magic, decode_frame, unpack_from}

module _ {blob : Bytes} {off : ℕ} (n : ℕ) (d rest : Bytes) (len : length d ≡ n)
    (k : At blob off (d ++ rest)) where
  pub slice-At : slice off n blob ≡ d
  slice-At = subst (λ m. slice off m blob ≡ d) len (At-slice d rest k)

  pub next-At : At blob (off + n) rest
  next-At = subst (λ m. At blob (off + m) rest) len (At-next d rest k)

  pub unpack_from-At : unpack_from n blob off ≡ ok d
  unfolding unpack_from
  unpack_from-At = ground (arith, slice-At, At-le d rest k)

reassoc :
    (code size payload more : Bytes)
    → (code ++ (size ++ payload)) ++ more ≡ code ++ (size ++ (payload ++ more))
reassoc code size payload more =
    append_assoc code (size ++ payload) more ∙ ap (λ w. code ++ w) (append_assoc size payload more)

decode_parts :
    (blob code size payload more : Bytes) (version : ℕ)
    → At blob 0 ((83 ∷ 80 ∷ []) ++ ((version ∷ []) ++ (code ++ (size ++ (payload ++ more)))))
    → is_supported version ≡ true
    → length code ≡ 1
    → length size ≡ 4
    → unpack_be size ≡ length payload
    → decode_frame blob ≡ ok (unpack_be code, payload)
unfolding decode_frame is_magic
decode_parts blob code size payload more version k1 supported len_c len_s val_s =
    let magic : Bytes = 83 ∷ 80 ∷ [] in
    let after_size : Bytes = payload ++ more in
    let after_code : Bytes = size ++ after_size in
    let after_version : Bytes = code ++ after_code in
    let k2 : At blob 2 ((version ∷ []) ++ after_version) =
      next-At {blob = blob} {off = 0} 2 magic ((version ∷ []) ++ after_version) refl k1 in
    let k3 : At blob 3 after_version =
      next-At {blob = blob} {off = 2} 1 (version ∷ []) after_version refl k2 in
    let k4 : At blob 4 after_code = next-At {blob = blob} {off = 3} 1 code after_code len_c k3 in
    let k5 : At blob 8 after_size = next-At {blob = blob} {off = 4} 4 size after_size len_s k4 in
    let s0 : slice 0 2 blob ≡ magic =
      slice-At {blob = blob} {off = 0} 2 magic ((version ∷ []) ++ after_version) refl k1 in
    let s1 : slice 2 1 blob ≡ version ∷ [] =
      slice-At {blob = blob} {off = 2} 1 (version ∷ []) after_version refl k2 in
    let s2 : slice 3 1 blob ≡ code = slice-At {blob = blob} {off = 3} 1 code after_code len_c k3 in
    let s3 : slice 4 4 blob ≡ size = slice-At {blob = blob} {off = 4} 4 size after_size len_s k4 in
    let s4 : slice 8 (length payload) blob ≡ payload = At-slice payload more k5 in
    let long : leb 8 (length blob) ≡ true = ground (arith, At-le payload more k5) in
    let full : (length payload == length payload) ≡ true = ground arith in
    let single : unpack_be (version ∷ []) ≡ version = unfold unpack_be unpack_le in omega arith in
    rw (long, s0, s1, single, supported, s2, s3, val_s, s4, full) refl

-- A frame that `encode_frame` returns is decoded, whatever bytes follow it, to its opcode and its
-- payload.
pub decode_frame-encode_frame :
    (opcode : ℕ) (payload : Bytes) (version : ℕ) (b more : Bytes)
    → encode_frame opcode payload version ≡ ok b
    → decode_frame (b ++ more) ≡ ok (opcode, payload)
unfolding encode_frame
decode_frame-encode_frame opcode payload version b more h =
    let (u, h1, h2) = >>=-eq-ok (require (is_supported version) Exc.protocol_error) _ h in
    let (code, hc, h3) = >>=-eq-ok (pack_unsigned_be 1 opcode) _ h2 in
    let (size, hs, h4) = >>=-eq-ok (pack_unsigned_be 4 (length payload)) _ h3 in
    let supported : is_supported version ≡ true = require-eq-ok _ _ h1 in
    let (eq_c, len_c, val_c) = pack_unsigned_be-eq-ok 1 opcode hc in
    let (eq_s, len_s, val_s) = pack_unsigned_be-eq-ok 4 (length payload) hs in
    let framed : Bytes = 83 ∷ 80 ∷ version ∷ (code ++ (size ++ payload)) in
    let same : b ≡ framed = ground (arith, h4) in
    let k0 : At (b ++ more) 0 (framed ++ more) =
      subst (λ w. At (b ++ more) 0 (w ++ more)) same (At-start (b ++ more)) in
    let k : At (b ++ more) 0 (83 ∷ 80 ∷ version ∷ (code ++ (size ++ (payload ++ more)))) =
      subst (λ w. At (b ++ more) 0 (83 ∷ 80 ∷ version ∷ w)) (reassoc code size payload more) k0 in
    decode_parts (b ++ more) code size payload more version k supported len_c len_s val_s
    ∙ ap (λ n. ok (n, payload)) val_c
