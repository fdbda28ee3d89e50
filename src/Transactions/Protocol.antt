-- ===== src/Transactions/Protocol.antt =====
-- engine/transactions/protocol.py: the frames and the values of the wire protocol, big-endian.
-- `encode_value` is the bytes that `_encode_value` appends to `out`.
pub mod Requests
pub mod RoundTrip
pub mod Results
pub mod Values
mod Tests
use soup_db.Common.{
  ℕ, ◌+◌, Bool, true, false, ◌&&◌, ◌||◌, [], ◌∷◌, ◌++◌, Exc, Result, ok, raise, ◌>>=◌, ◌>>◌,
  require, or_raise, length, leb, ltb, ◌==◌, if◌then◌else◌,
}
use soup_db.Common.Bytes.{Bytes, slice}
use soup_db.Common.Struct.{pack_be, unpack_be, to_word, of_word, fits_signed, pack_unsigned_be}
use soup_db.Common.Utf8
use soup_db.Values.{Coord, Value, as_float}
use soup_db.Record.{is_number}

-- `version in SUPPORTED_VERSIONS`
unfoldable pub is_supported : ℕ → Bool
is_supported version = version == 1 || version == 2

unfoldable pub encode_frame : ℕ → Bytes → ℕ → Result Bytes
encode_frame opcode payload version = do
  require (is_supported version) Exc.protocol_error
  code ← pack_unsigned_be 1 opcode
  size ← pack_unsigned_be 4 (length payload)
  ok ((83 ∷ 80 ∷ []) ++ ((version ∷ []) ++ (code ++ (size ++ payload))))

-- `data[:2] == MAGIC`
unfoldable pub is_magic : Bytes → Bool
is_magic (a ∷ b ∷ []) = a == 83 && b == 80
is_magic bytes = false

unfoldable pub decode_frame : Bytes → Result (ℕ × Bytes)
decode_frame blob = do
  require (leb 8 (length blob)) Exc.protocol_error
  require (is_magic (slice 0 2 blob)) Exc.protocol_error
  require (is_supported (unpack_be (slice 2 1 blob))) Exc.protocol_error
  require (length (slice 8 (unpack_be (slice 4 4 blob)) blob) == unpack_be (slice 4 4 blob))
      Exc.protocol_error
  ok (unpack_be (slice 3 1 blob), slice 8 (unpack_be (slice 4 4 blob)) blob)

unfoldable pub encode_value : Value → Result Bytes
encode_value Value.null = ok (0 ∷ [])
encode_value (Value.bool b) = ok ((4 ∷ []) ++ ((if b then 1 else 0) ∷ []))
encode_value (Value.int n) = do
  require (fits_signed 4 n) Exc.struct_error
  ok ((1 ∷ []) ++ pack_be 4 (to_word 4 n))
encode_value (Value.float w) = ok ((2 ∷ []) ++ pack_be 8 w)
encode_value (Value.text chars) = do
  raw ← Utf8.encode chars
  size ← pack_unsigned_be 2 (length raw)
  ok ((3 ∷ []) ++ (size ++ raw))
encode_value (Value.pair x y) = do
  require (is_number x && is_number y) Exc.protocol_error
  v ← as_float x
  w ← as_float y
  ok ((5 ∷ []) ++ (pack_be 8 v ++ pack_be 8 w))
encode_value (Value.bytes raw) = do
  size ← pack_unsigned_be 4 (length raw)
  ok ((6 ∷ []) ++ (size ++ raw))
encode_value Value.other = raise Exc.protocol_error

-- The `n` bytes that `struct.unpack_from` reads.
unfoldable pub unpack_from : ℕ → Bytes → ℕ → Result Bytes
unpack_from n blob off =
    if leb (off + n) (length blob) then ok (slice off n blob) else raise Exc.struct_error

-- `payload[offset]`
unfoldable pub byte_at : Bytes → ℕ → Result Bytes
byte_at blob off = if ltb off (length blob) then ok (slice off 1 blob) else raise Exc.index_error

-- The branches of `_decode_value`, one for each tag.
unfoldable pub decode_int : Bytes → ℕ → Result (Value × ℕ)
decode_int blob off = do
  raw ← unpack_from 4 blob off
  ok (Value.int (of_word 4 (unpack_be raw)), off + 4)

unfoldable pub decode_float : Bytes → ℕ → Result (Value × ℕ)
decode_float blob off = do raw ← unpack_from 8 blob off; ok (Value.float (unpack_be raw), off + 8)

unfoldable pub decode_text : Bytes → ℕ → Result (Value × ℕ)
decode_text blob off = do
  size ← unpack_from 2 blob off
  chars ← or_raise Exc.unicode_error (Utf8.decode (slice (off + 2) (unpack_be size) blob))
  ok (Value.text chars, off + 2 + unpack_be size)

unfoldable pub decode_bool : Bytes → ℕ → Result (Value × ℕ)
decode_bool blob off = do raw ← byte_at blob off; ok (Value.bool (ltb 0 (unpack_be raw)), off + 1)

unfoldable pub decode_point : Bytes → ℕ → Result (Value × ℕ)
decode_point blob off = do
  x ← unpack_from 8 blob off
  y ← unpack_from 8 blob (off + 8)
  ok (Value.pair (Coord.float (unpack_be x)) (Coord.float (unpack_be y)), off + 8 + 8)

unfoldable pub decode_bytes : Bytes → ℕ → Result (Value × ℕ)
decode_bytes blob off = do
  size ← unpack_from 4 blob off
  ok (Value.bytes (slice (off + 4) (unpack_be size) blob), off + 4 + unpack_be size)

unfoldable pub decode_tagged : ℕ → Bytes → ℕ → Result (Value × ℕ)
decode_tagged tag blob off =
    if tag == 0
    then ok (Value.null, off)
    else if tag == 1
    then decode_int blob off
    else if tag == 2
    then decode_float blob off
    else if tag == 3
    then decode_text blob off
    else if tag == 4
    then decode_bool blob off
    else if tag == 5
    then decode_point blob off
    else if tag == 6
    then decode_bytes blob off
    else raise Exc.protocol_error

unfoldable pub decode_value : Bytes → ℕ → Result (Value × ℕ)
decode_value blob off = do
  tag ← unpack_from 1 blob off
  decode_tagged (unpack_be tag) blob (off + 1)
