-- ===== src/Transactions/Protocol/Tests.antt =====
-- Runs of engine/transactions/protocol.py: a frame with the payload of an OK answer, and a text.
use soup_db.Common.{◌≡◌, refl, ok, [], ◌∷◌, ◌++◌, ◌+◌, length}
use soup_db.Common.Bytes.{Bytes, At-start}
use soup_db.Common.Struct.{pack_unsigned_be, pack_be, pack_le}
use soup_db.Common.Utf8
use soup_db.Values.{Value}
use soup_db.Record.Frames.{IsValue, stored}
use soup_db.Transactions.Protocol.{
  encode_frame, decode_frame, is_supported, encode_value, decode_value,
}
use soup_db.Transactions.Protocol.RoundTrip.{decode_frame-encode_frame}
use soup_db.Transactions.Protocol.Requests.{
  encode_sized, encode_query, decode_query, encode_prepare, decode_prepare, encode_deallocate,
  decode_deallocate, requests_round_trip,
}
use soup_db.Transactions.Protocol.Values.{decode_value-encode_value}

abbrev ok_frame : Bytes
ok_frame = 83 ∷ 80 ∷ 2 ∷ 16 ∷ 0 ∷ 0 ∷ 0 ∷ 4 ∷ 0 ∷ 0 ∷ 0 ∷ 7 ∷ []

frame_encodes : encode_frame 16 (0 ∷ 0 ∷ 0 ∷ 7 ∷ []) 2 ≡ ok ok_frame
unfolding encode_frame is_supported pack_unsigned_be pack_be pack_le
frame_encodes = refl

decode_frame-encode_frame_example :
    decode_frame (ok_frame ++ (9 ∷ [])) ≡ ok (16, 0 ∷ 0 ∷ 0 ∷ 7 ∷ [])
decode_frame-encode_frame_example =
    decode_frame-encode_frame 16 (0 ∷ 0 ∷ 0 ∷ 7 ∷ []) 2 ok_frame (9 ∷ []) frame_encodes

abbrev text_bytes : Bytes
text_bytes = 3 ∷ 0 ∷ 3 ∷ 195 ∷ 177 ∷ 97 ∷ []

text_encodes : encode_value (Value.text (241 ∷ 97 ∷ [])) ≡ ok text_bytes
unfolding encode_value Utf8.encode Utf8.encode_char pack_unsigned_be pack_be pack_le
text_encodes = refl

text_IsValue : IsValue (Value.text (241 ∷ 97 ∷ []))
unfolding IsValue
text_IsValue = tt

decode_value-encode_value_example :
    decode_value (text_bytes ++ (0 ∷ [])) 0
    ≡ ok (stored (Value.text (241 ∷ 97 ∷ [])), 0 + length text_bytes)
decode_value-encode_value_example =
    decode_value-encode_value (0 ∷ []) (Value.text (241 ∷ 97 ∷ [])) text_bytes text_IsValue
      text_encodes (At-start (text_bytes ++ (0 ∷ [])))

-- The name "a" and the text "b".
abbrev query_bytes : Bytes
query_bytes = 0 ∷ 0 ∷ 0 ∷ 1 ∷ 98 ∷ []

abbrev prepare_bytes : Bytes
prepare_bytes = 0 ∷ 1 ∷ 97 ∷ 0 ∷ 0 ∷ 0 ∷ 1 ∷ 98 ∷ []

abbrev deallocate_bytes : Bytes
deallocate_bytes = 0 ∷ 1 ∷ 97 ∷ []

query_encodes : encode_query (98 ∷ []) ≡ ok query_bytes
unfolding encode_query encode_sized Utf8.encode Utf8.encode_char pack_unsigned_be pack_be pack_le
query_encodes = refl

prepare_encodes : encode_prepare (97 ∷ []) (98 ∷ []) ≡ ok prepare_bytes
unfolding encode_prepare encode_sized Utf8.encode Utf8.encode_char pack_unsigned_be pack_be pack_le
prepare_encodes = refl

deallocate_encodes : encode_deallocate (97 ∷ []) ≡ ok deallocate_bytes
unfolding encode_deallocate encode_sized Utf8.encode Utf8.encode_char pack_unsigned_be pack_be
    pack_le
deallocate_encodes = refl

requests_round_trip_example :
    (decode_query query_bytes ≡ ok (98 ∷ []))
    × (decode_prepare prepare_bytes ≡ ok (97 ∷ [], 98 ∷ []))
    × (decode_deallocate deallocate_bytes ≡ ok (97 ∷ []))
requests_round_trip_example =
    requests_round_trip (97 ∷ []) (98 ∷ []) query_bytes prepare_bytes deallocate_bytes query_encodes
      prepare_encodes deallocate_encodes
