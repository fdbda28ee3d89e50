-- ===== src/Algorithms/Runs/RoundTrip.antt =====
-- engine/algorithms/external_sort.py: run files are read back as the records that were written.
use soup_db.Common.{
  ℕ, zero, suc, ◌+◌, ◌≤◌, ◌<◌, ◌^◌, ◌≡◌, refl, ap, ◌∙◌, inl, inr, Bool, true, false, some, List, [],
  ◌∷◌, ◌++◌, Exc, ok, raise, >>=-eq-ok, require, require-eq-ok, leb, ltb, ◌==◌, length,
  length-append, take-append_length, drop-append_length, arith, Bool-cases, lt→ltb, leb→le,
}
use mathlib.Core.List.{append_assoc}
use soup_db.Common.Bytes.{Bytes}
use soup_db.Common.Counts.{one, count_p, count_p_none}
use soup_db.Common.Struct.{pack_le, unpack_le, length-pack_le, unpack_le-pack_le, pack_unsigned_le}
use soup_db.Algorithms.Runs.{
  length_size, write_record, write_records, read_payload, read_record, then_read, read_rounds,
  read_run,
}

-- Too long for the length's four bytes.
abbrev pub too_long : Bytes → Bool
too_long payload = ltb 0xFFFFFFFF (length payload)

-- The bytes of a record in a run file, and those of all records.
unfoldable pub frame : Bytes → Bytes
frame payload = pack_le length_size (length payload) ++ payload

unfoldable pub frames : List Bytes → Bytes
frames [] = []
frames (payload ∷ payloads) = frame payload ++ frames payloads

frame_word : (payload : Bytes) → too_long payload ≡ false → length payload < 256 ^ 4
frame_word payload h = ground arith

pub write_record_lem :
    (payload : Bytes) → too_long payload ≡ false → write_record payload ≡ ok (frame payload)
unfolding write_record pack_unsigned_le frame
write_record_lem payload h =
    let fits : leb (length payload) 0xFFFFFFFF ≡ true = ground arith in
    rw (fits, lt→ltb _ _ (frame_word payload h)) refl

pub length-frame : (payload : Bytes) → length (frame payload) ≡ 4 + length payload
unfolding frame
length-frame payload =
    omega
      (arith, length-append (pack_le 4 (length payload)) payload, length-pack_le 4 (length payload))

read_payload_lem :
    (payload rest : Bytes)
    → read_payload (length payload) (payload ++ rest) ≡ ok (some (payload, rest))
unfolding read_payload
read_payload_lem payload rest =
    let same : (length payload == length payload) ≡ true = ground arith in
    rw (take-append_length payload rest, drop-append_length payload rest, same) refl

read_record_start :
    (size file : Bytes)
    → length size ≡ 4
    → read_record (size ++ file) ≡ read_payload (unpack_le size) file
unfolding read_record
read_record_start (a ∷ b ∷ c ∷ d ∷ []) file h = refl
read_record_start [] file h = absurd (omega arith)
read_record_start (a ∷ []) file h = absurd (omega arith)
read_record_start (a ∷ b ∷ []) file h = absurd (omega arith)
read_record_start (a ∷ b ∷ c ∷ []) file h = absurd (omega arith)
read_record_start (a ∷ b ∷ c ∷ d ∷ x ∷ size) file h = absurd (omega arith)

pub read_record_lem :
    (payload rest : Bytes)
    → too_long payload ≡ false
    → read_record (frame payload ++ rest) ≡ ok (some (payload, rest))
unfolding frame
read_record_lem payload rest h =
    let size = pack_le 4 (length payload) in
    ap read_record (append_assoc size payload rest)
    ∙ read_record_start size (payload ++ rest) (length-pack_le 4 (length payload))
    ∙ ap (λ n. read_payload n (payload ++ rest))
        (unpack_le-pack_le 4 (length payload) (frame_word payload h))
    ∙ read_payload_lem payload rest

pub write_records_lem :
    (payloads : List Bytes)
    → count_p too_long payloads ≡ 0
    → write_records payloads ≡ ok (frames payloads)
unfolding write_records frames
write_records_lem [] h = refl
write_records_lem (payload ∷ payloads) h =
    rw
      (
        write_record_lem payload (count_p_none too_long payload payloads h).0,
        write_records_lem payloads (count_p_none too_long payload payloads h).1,
      )
      refl

-- A record that is too long is refused.
pub write_record_long :
    (payload : Bytes) → too_long payload ≡ true → write_record payload ≡ raise Exc.value_error
unfolding write_record
write_record_long payload h = ground arith

pub write_records_long :
    (payloads : List Bytes)
    → 1 ≤ count_p too_long payloads
    → write_records payloads ≡ raise Exc.value_error
unfolding write_records
write_records_long [] h = absurd (omega arith)
write_records_long (payload ∷ payloads) h = elim (Bool-cases (too_long payload)) [
  | inl t ↦ rw (write_record_long payload t) refl
  | inr f ↦
      rw (write_record_lem payload f, write_records_long payloads (omega (arith, ap one f))) refl
]

read_rounds_lem :
    (fuel : ℕ) (payloads : List Bytes)
    → length payloads < fuel
    → count_p too_long payloads ≡ 0
    → read_rounds fuel (frames payloads) ≡ ok payloads
unfolding read_rounds frames then_read
read_rounds_lem zero payloads n h = absurd (omega arith)
read_rounds_lem (suc fuel) [] n h = unfold read_record in refl
read_rounds_lem (suc fuel) (payload ∷ payloads) n h =
    rw
      (
        read_record_lem payload (frames payloads) (count_p_none too_long payload payloads h).0,
        read_rounds_lem fuel payloads (omega arith) (count_p_none too_long payload payloads h).1,
      )
      refl

length-le-frames : (payloads : List Bytes) → length payloads ≤ length (frames payloads)
unfolding frames
length-le-frames [] = omega arith
length-le-frames (payload ∷ payloads) = omega (
  arith,
  length-append (frame payload) (frames payloads),
  length-frame payload,
  length-le-frames payloads,
)

pub read_run-frames :
    (payloads : List Bytes)
    → count_p too_long payloads ≡ 0
    → read_run (frames payloads) ≡ ok payloads
unfolding read_run
read_run-frames payloads h =
    read_rounds_lem (suc (length (frames payloads))) payloads
      (omega (arith, length-le-frames payloads)) h

-- A record that is written fits.
write_record-fits :
    (payload : Bytes) {file : Bytes} → write_record payload ≡ ok file → too_long payload ≡ false
unfolding write_record
write_record-fits payload h =
    let (u, fits, _) = >>=-eq-ok (require (leb (length payload) 0xFFFFFFFF) Exc.value_error) _ h in
    let bound = leb→le _ _ (require-eq-ok _ _ fits) in ground arith

write_records-fit :
    (payloads : List Bytes) {file : Bytes}
    → write_records payloads ≡ ok file
    → count_p too_long payloads ≡ 0
unfolding write_records
write_records-fit [] h = refl
write_records-fit (payload ∷ payloads) h =
    let (first, h1, k1) = >>=-eq-ok (write_record payload) _ h in
    let (rest, h2, k2) = >>=-eq-ok (write_records payloads) _ k1 in
    omega (arith, ap one (write_record-fits payload h1), write_records-fit payloads h2)

-- The file that is written for some records is read back as these records.
pub read_run-write_records :
    (payloads : List Bytes) {file : Bytes}
    → write_records payloads ≡ ok file
    → read_run file ≡ ok payloads
read_run-write_records payloads {file} h =
    let fits = write_records-fit payloads h in
    let same : file ≡ frames payloads = cc (write_records_lem payloads fits) in
    ap read_run same ∙ read_run-frames payloads fits
