-- ===== src/Indexes/KeyCodec/RoundTrip.antt =====
-- engine/indexes/_key_codec.py: keys are read back from their bytes.
use mathlib.Core.List.{append-nil}
use soup_db.Common.{
  ℕ, zero, suc, ◌+◌, ◌<◌, ◌≡◌, if◌then◌else◌, refl, sym, ap, subst, ◌∙◌, true, List, [], ◌∷◌, ◌++◌,
  Exc, ok, >>=-eq-ok, require, require-eq-ok, ltb, leb, length, length-append, ◌==◌, arith,
}
use soup_db.Common.Bytes.{Bytes, slice, At, At-start, At-slice, At-next, At-le}
use soup_db.Common.Reads.{Decoder, Reads, repeat, encode_each, Reads-next}
use soup_db.Common.Struct.{
  pack_le, unpack_le-pack_le, length-pack_le, to_word, fits_signed, of_word-to_word, to_word-lt,
  pack_unsigned_le, pack_unsigned_le-eq-ok,
}
use soup_db.Common.Int.{ℤ}
use soup_db.Common.Utf8
use soup_db.Common.Utf8.{Text}
use soup_db.Indexes.KeyCodec.{
  Key, Keys, int, text, tuple, nil, cons, other, int_tag, str_tag, tuple_tag, encode_part,
  encode_int, encode_str, encode_tuple, encode_key, encode_keys, read_length, is_tag,
  decode_int_key, decode_str_key, to_keys, decode_item, decode_tuple_key, decode_body, decode_from,
  decode_key,
}

slice_of :
    (n : ℕ) (b blob rest : Bytes) (off : ℕ)
    → length b ≡ n
    → At blob off (b ++ rest)
    → slice off n blob ≡ b
slice_of n b blob rest off e k = subst (λ m. slice off m blob ≡ b) e (At-slice b rest k)

enough :
    (n : ℕ) (b blob rest : Bytes) (off : ℕ)
    → length b ≡ n
    → At blob off (b ++ rest)
    → leb (off + n) (length blob) ≡ true
enough n b blob rest off e k = ground (arith, At-le b rest k)

length-Reads : (n : ℕ) (b : Bytes) → pack_unsigned_le 4 n ≡ ok b → Reads read_length b n
unfolding read_length
length-Reads n b h blob off rest k =
    let (_, len, val) = pack_unsigned_le-eq-ok 4 n h in
    rw (enough 4 b blob rest off len k, slice_of 4 b blob rest off len k, val, len) refl

int-Reads :
    (n : ℤ) → fits_signed 8 n ≡ true → Reads decode_int_key (pack_le 8 (to_word 8 n)) (int n)
unfolding decode_int_key
int-Reads n h blob off rest k =
    let b = pack_le 8 (to_word 8 n) in
    let len : length b ≡ 8 = length-pack_le 8 (to_word 8 n) in
    let val = unpack_le-pack_le 8 (to_word 8 n) (to_word-lt 8 n h) in
    rw
      (
        enough 8 b blob rest off len k,
        slice_of 8 b blob rest off len k,
        val,
        of_word-to_word 8 n h,
        len,
      )
      refl

-- What stands behind its length: the bytes are all there, and a slice gives them.
part-At :
    (part b blob rest : Bytes) (off : ℕ)
    → encode_part part ≡ ok b
    → At blob off (b ++ rest)
    → (at : ℕ) × (read_length blob off ≡ ok (length part, at))
      × (leb (at + length part) (length blob) ≡ true)
      × (slice at (length part) blob ≡ part)
      × (at + length part ≡ off + length b)
unfolding encode_part
part-At part b blob rest off h k =
    let (size, hs, h1) = >>=-eq-ok (pack_unsigned_le 4 (length part)) _ h in
    let same : b ≡ size ++ part = ground (arith, h1) in
    let (t, k1) =
      Reads-next read_length size part (length part) blob off rest
        (length-Reads (length part) size hs) (subst (λ w. At blob off (w ++ rest)) same k) in
    (
      off + length size,
      t,
      enough (length part) part blob rest (off + length size) refl k1,
      slice_of (length part) part blob rest (off + length size) refl k1,
      omega (arith, length-append size part, ap length same),
    )

str-Reads :
    (chars : Text) (raw b : Bytes)
    → Utf8.encode chars ≡ ok raw
    → encode_part raw ≡ ok b
    → Reads decode_str_key b (text chars)
unfolding decode_str_key
str-Reads chars raw b h g blob off rest k =
    let (at, t, fits, part, sum) = part-At raw b blob rest off g k in
    rw (t, fits, part, Utf8.decode-encode chars raw h, sum) refl

item-Reads :
    (inner : Decoder Key) (item b : Bytes) (key : Key)
    → encode_part item ≡ ok b
    → inner item 0 ≡ ok (key, length item)
    → Reads (decode_item inner) b key
unfolding decode_item
item-Reads inner item b key h g blob off rest k =
    let (at, t, fits, part, sum) = part-At item b blob rest off h k in
    let whole : (length item == length item) ≡ true = ground arith in
    rw (t, fits, part, g, whole, sum) refl

tag-At :
    (tag : ℕ) (b blob rest : Bytes) (off : ℕ)
    → At blob off ((tag ∷ b) ++ rest)
    → (ltb off (length blob) ≡ true) × (slice off 1 blob ≡ tag ∷ []) × At blob (off + 1) (b ++ rest)
tag-At tag b blob rest off k =
    let le = At-le (tag ∷ []) (b ++ rest) k in
    (
      ground (arith, le),
      slice_of 1 (tag ∷ []) blob (b ++ rest) off refl k,
      At-next (tag ∷ []) (b ++ rest) k,
    )

of_keys : Keys → List Key
of_keys nil = []
of_keys (cons key keys) = key ∷ of_keys keys

to_keys-of_keys : (keys : Keys) → to_keys (of_keys keys) ≡ keys
unfolding to_keys of_keys
to_keys-of_keys nil = refl
to_keys-of_keys (cons key keys) = ap (cons key) (to_keys-of_keys keys)

whole-At : (b : Bytes) → At b 0 (b ++ [])
whole-At b = subst (λ w. At b 0 w) (sym (append-nil b)) (At-start b)

higher : ℕ → ℕ → ℕ
higher a b = if ltb a b then b else a

-- How many tuples stand inside one another.
unfoldable mutual
  unfolding higher

  pub nesting : Key → ℕ
  nesting (tuple keys) = suc (nesting_each keys)
  nesting key = 0

  pub nesting_each : Keys → ℕ
  nesting_each nil = 0
  nesting_each (cons key keys) = higher (nesting key) (nesting_each keys)

higher-le : (a b n : ℕ) → higher a b < n → (a < n) × (b < n)
unfolding higher
higher-le a b n h = (ground (arith, h), ground (arith, h))

-- A key behind its tag.
tagged-Reads :
    (fuel tag : ℕ) (payload b : Bytes) (key : Key)
    → b ≡ tag ∷ payload
    → Reads (decode_body (decode_from fuel) (tag ∷ [])) payload key
    → Reads (decode_from (suc fuel)) b key
unfolding decode_from
tagged-Reads fuel tag payload b key e h blob off rest k =
    let (inside, first, k1) =
      tag-At tag payload blob rest off (subst (λ w. At blob off (w ++ rest)) e k) in
    let sum : off + 1 + length payload ≡ off + length b = omega (arith, ap length e) in
    rw (inside, first, h blob (off + 1) rest k1, sum) refl

int-key-Reads :
    (n : ℤ) (b : Bytes) (fuel : ℕ) → encode_int n ≡ ok b → Reads (decode_from (suc fuel)) b (int n)
unfolding encode_int decode_body is_tag
int-key-Reads n b fuel h =
    let (_, fits, h1) = >>=-eq-ok (require (fits_signed 8 n) Exc.value_error) _ h in
    let e : b ≡ int_tag ∷ pack_le 8 (to_word 8 n) = ground (arith, h1) in
    tagged-Reads fuel int_tag (pack_le 8 (to_word 8 n)) b (int n) e
      (int-Reads n (require-eq-ok (fits_signed 8 n) Exc.value_error fits))

str-key-Reads :
    (chars : Text) (b : Bytes) (fuel : ℕ)
    → encode_str chars ≡ ok b
    → Reads (decode_from (suc fuel)) b (text chars)
unfolding encode_str decode_body is_tag
str-key-Reads chars b fuel h =
    let (raw, hr, h1) = >>=-eq-ok (Utf8.encode chars) _ h in
    let (part, hp, h2) = >>=-eq-ok (encode_part raw) _ h1 in
    let e : b ≡ str_tag ∷ part = ground (arith, h2) in
    tagged-Reads fuel str_tag part b (text chars) e (str-Reads chars raw part hr hp)

tuple-Reads :
    (inner : Decoder Key) (keys : Keys) (n : ℕ) (count parts b : Bytes)
    → pack_unsigned_le 4 n ≡ ok count
    → Reads (repeat n (decode_item inner)) parts (of_keys keys)
    → b ≡ count ++ parts
    → Reads (decode_tuple_key inner) b (tuple keys)
unfolding decode_tuple_key
tuple-Reads inner keys n count parts b h g e blob off rest k =
    let (t, k1) =
      Reads-next read_length count parts n blob off rest (length-Reads n count h)
        (subst (λ w. At blob off (w ++ rest)) e k) in
    let sum : off + length count + length parts ≡ off + length b =
      omega (arith, length-append count parts, ap length e) in
    rw (t, g blob (off + length count) rest k1, to_keys-of_keys keys, sum) refl

nil-Reads : (p : Decoder Key) (b : Bytes) → b ≡ [] → Reads (repeat 0 p) b []
unfolding repeat
nil-Reads p b e blob off rest k = ap (λ n. ok ([], n)) (omega (arith, ap length e))

cons-Reads :
    (p : Decoder Key) (n : ℕ) (x y b : Bytes) (key : Key) (keys : List Key)
    → Reads p x key
    → Reads (repeat n p) y keys
    → b ≡ x ++ y
    → Reads (repeat (suc n) p) b (key ∷ keys)
unfolding repeat
cons-Reads p n x y b key keys h g e blob off rest k =
    let (t, k1) = Reads-next p x y key blob off rest h (subst (λ w. At blob off (w ++ rest)) e k) in
    let sum : off + length x + length y ≡ off + length b =
      omega (arith, length-append x y, ap length e) in
    rw (t, g blob (off + length x) rest k1, sum) refl

Reads-whole : (p : Decoder Key) (b : Bytes) (key : Key) → Reads p b key → p b 0 ≡ ok (key, length b)
Reads-whole p b key h = h b 0 [] (whole-At b) ∙ ap (λ n. ok (key, n)) (omega arith)

-- An item is the whole of its slice, and there is room for one more call.
item_key :
    (key : Key) (item : Bytes) (fuel : ℕ)
    → ((f : ℕ) → nesting key < suc f → Reads (decode_from (suc f)) item key)
    → nesting key < fuel
    → decode_from fuel item 0 ≡ ok (key, length item)
item_key key item zero read le = absurd (omega arith)
item_key key item (suc fuel) read le = Reads-whole (decode_from (suc fuel)) item key (read fuel le)

mutual
  unfolding encode_key encode_keys encode_tuple decode_body is_tag encode_each repeat of_keys
      nesting nesting_each

  key-Reads :
      (key : Key) (b : Bytes) (fuel : ℕ)
      → encode_key key ≡ ok b
      → nesting key < suc fuel
      → Reads (decode_from (suc fuel)) b key
  key-Reads (int n) b fuel h le = int-key-Reads n b fuel h
  key-Reads (text chars) b fuel h le = str-key-Reads chars b fuel h
  key-Reads (tuple keys) b fuel h le =
      let (items, hi, h1) = >>=-eq-ok (encode_keys keys) _ h in
      let (count, hc, h2) = >>=-eq-ok (pack_unsigned_le 4 (length items)) _ h1 in
      let (parts, hp, h3) = >>=-eq-ok (encode_each encode_part items) _ h2 in
      let e : b ≡ tuple_tag ∷ (count ++ parts) = ground (arith, h3) in
      let g = keys-Reads keys items parts fuel hi hp (omega arith) in
      tagged-Reads fuel tuple_tag (count ++ parts) b (tuple keys) e
        (tuple-Reads (decode_from fuel) keys (length items) count parts (count ++ parts) hc g refl)
  key-Reads other b fuel h le = absurd cc

  keys-Reads :
      (keys : Keys) (items : List Bytes) (b : Bytes) (fuel : ℕ)
      → encode_keys keys ≡ ok items
      → encode_each encode_part items ≡ ok b
      → nesting_each keys < fuel
      → Reads (repeat (length items) (decode_item (decode_from fuel))) b (of_keys keys)
  keys-Reads nil items b fuel h g le =
      let e : [] ≡ items = ground (arith, h) in
      let e1 : encode_each encode_part [] ≡ ok b =
        subst (λ w. encode_each encode_part w ≡ ok b) (sym e) g in
      subst (λ w. Reads (repeat (length w) (decode_item (decode_from fuel))) b []) e
        (nil-Reads (decode_item (decode_from fuel)) b (ground (arith, e1)))
  keys-Reads (cons key keys) items b fuel h g le =
      let (item, hi, h1) = >>=-eq-ok (encode_key key) _ h in
      let (others, ho, h2) = >>=-eq-ok (encode_keys keys) _ h1 in
      let e : item ∷ others ≡ items = ground (arith, h2) in
      let g1 : encode_each encode_part (item ∷ others) ≡ ok b =
        subst (λ w. encode_each encode_part w ≡ ok b) (sym e) g in
      let (x, hx, g2) = >>=-eq-ok (encode_part item) _ g1 in
      let (y, hy, g3) = >>=-eq-ok (encode_each encode_part others) _ g2 in
      let same : b ≡ x ++ y = ground (arith, g3) in
      let low = higher-le (nesting key) (nesting_each keys) fuel le in
      let first =
        item-Reads (decode_from fuel) item x key hx
          (item_key key item fuel (λ f le. key-Reads key item f hi le) low.0) in
      let rest = keys-Reads keys others y fuel ho hy low.1 in
      subst (λ w. Reads (repeat (length w) (decode_item (decode_from fuel))) b (key ∷ of_keys keys))
        e
        (cons-Reads (decode_item (decode_from fuel)) (length others) x y b key (of_keys keys) first
          rest same)

-- A key that can be encoded, of 64-bit integers, texts and tuples of keys, is what decode_key gives
-- for its bytes, whenever more calls fit inside one another than tuples are nested in the key.
pub decode_key-encode_key :
    (frames : ℕ) (key : Key) (b : Bytes)
    → nesting key < frames
    → encode_key key ≡ ok b
    → decode_key frames b ≡ ok key
unfolding decode_key
decode_key-encode_key zero key b low h = absurd (omega arith)
decode_key-encode_key (suc frames) key b low h =
    let t = Reads-whole (decode_from (suc frames)) b key (key-Reads key b frames h low) in
    let whole : (length b == length b) ≡ true = ground arith in rw (t, whole) refl
