-- ===== src/Common/Utf8.antt =====
-- Python's `str.encode("utf-8")` and `bytes.decode("utf-8")`, over code points. The decoder takes a
-- byte at a time: how many more bytes belong to the character, what they have built so far, and the
-- range in which the next one must lie (the Unicode standard's table of well-formed sequences).
use Prim.Native.Nat.{ℕ, zero, suc, ◌+◌, ◌-◌, ◌*◌, ◌/◌, ◌%◌, ◌≤◌, ◌<◌}
use mathlib.Core.Path.{◌≡◌, refl, ◌∙◌, ap}
use mathlib.Core.Bool.{true, false, ◌&&◌}
use mathlib.Core.Option.{Option, none, some}
use mathlib.Core.List.{List, [], ◌∷◌, ◌++◌}
use native.Mathlib.Omega.{arith}
use soup_db.Common.Tests.{ltb, leb, ◌==◌, if◌then◌else◌}
use soup_db.Common.Bytes.{Bytes}
use soup_db.Common.Errors.{Exc, Result, ok, raise, ◌>>=◌, >>=-eq-ok}

-- Code points.
abbrev pub Text : Type 0
Text = List ℕ

unfoldable pub encode_char : ℕ → Result Bytes
encode_char c =
    if ltb c 0x80
    then ok (c ∷ [])
    else if ltb c 0x800
    then ok ((0xc0 + c / 64) ∷ (0x80 + c % 64) ∷ [])
    else if leb 0xd800 c && leb c 0xdfff
    then raise Exc.unicode_error
    else if ltb c 0x10000
    then ok ((0xe0 + c / 4096) ∷ (0x80 + c / 64 % 64) ∷ (0x80 + c % 64) ∷ [])
    else if ltb c 0x110000
    then ok
        ((0xf0 + c / 262144) ∷ (0x80 + c / 4096 % 64) ∷ (0x80 + c / 64 % 64) ∷ (0x80 + c % 64) ∷ [])
    else raise Exc.unicode_error

unfoldable pub encode : Text → Result Bytes
encode [] = ok []
encode (c ∷ text) = do b ← encode_char c; rest ← encode text; ok (b ++ rest)

-- What a first byte announces.
pub data Lead : Type 0 where
  ascii malformed : Lead
  multi : ℕ → ℕ → ℕ → ℕ → Lead

lead : ℕ → Lead
lead b =
    if ltb b 0x80
    then ascii
    else if ltb b 0xc2
    then malformed
    else if ltb b 0xe0
    then multi 1 (b - 0xc0) 0x80 0xbf
    else if b == 0xe0
    then multi 2 0 0xa0 0xbf
    else if b == 0xed
    then multi 2 13 0x80 0x9f
    else if ltb b 0xf0
    then multi 2 (b - 0xe0) 0x80 0xbf
    else if b == 0xf0
    then multi 3 0 0x90 0xbf
    else if ltb b 0xf4
    then multi 3 (b - 0xf0) 0x80 0xbf
    else if b == 0xf4
    then multi 3 4 0x80 0x8f
    else malformed

cons : ℕ → Option Text → Option Text
cons c none = none
cons c (some text) = some (c ∷ text)

decode_from : ℕ → ℕ → ℕ → ℕ → Bytes → Option Text
unfolding cons lead
decode_from zero built lo hi [] = some []
decode_from (suc need) built lo hi [] = none
decode_from zero built lo hi (b ∷ bytes) = elim (lead b) [
  | ascii ↦ cons b (decode_from zero 0 0 0 bytes)
  | malformed ↦ none
  | multi need part low high ↦ decode_from need part low high bytes
]
decode_from (suc zero) built lo hi (b ∷ bytes) = elim (leb lo b && leb b hi) [
  | true ↦ cons (built * 64 + (b - 0x80)) (decode_from zero 0 0 0 bytes)
  | false ↦ none
]
decode_from (suc (suc need)) built lo hi (b ∷ bytes) = elim (leb lo b && leb b hi) [
  | true ↦ decode_from (suc need) (built * 64 + (b - 0x80)) 0x80 0xbf bytes
  | false ↦ none
]

-- `none` stands for UnicodeDecodeError.
unfoldable pub decode : Bytes → Option Text
unfolding decode_from
decode bytes = decode_from zero 0 0 0 bytes

start :
    (b need part low high : ℕ) (rest : Bytes)
    → lead b ≡ multi need part low high
    → decode_from zero 0 0 0 (b ∷ rest) ≡ decode_from need part low high rest
unfolding decode_from
start b need part low high rest h = rw (h, decode_from) refl

last :
    (built lo hi r : ℕ) (rest : Bytes)
    → lo ≤ 0x80 + r
    → 0x80 + r ≤ hi
    → decode_from 1 built lo hi ((0x80 + r) ∷ rest)
      ≡ cons (built * 64 + r) (decode_from zero 0 0 0 rest)
unfolding decode_from
last built lo hi r rest h k = ground arith

more :
    (need built lo hi r : ℕ) (rest : Bytes)
    → lo ≤ 0x80 + r
    → 0x80 + r ≤ hi
    → decode_from (suc (suc need)) built lo hi ((0x80 + r) ∷ rest)
      ≡ decode_from (suc need) (built * 64 + r) 0x80 0xbf rest
unfolding decode_from
more need built lo hi r rest h k =
    let inside : (leb lo (0x80 + r) && leb (0x80 + r) hi) ≡ true = ground arith in
    let part : 0x80 + r - 0x80 ≡ r = omega arith in rw (inside, part, decode_from) refl

lead_two : (q : ℕ) → 2 ≤ q → q < 32 → lead (0xc0 + q) ≡ multi 1 q 0x80 0xbf
unfolding lead
lead_two q h k = ground arith

lead_three :
    (q : ℕ)
    → q < 16
    → lead (0xe0 + q) ≡ multi 2 q (if q == 0 then 0xa0 else 0x80) (if q == 13 then 0x9f else 0xbf)
unfolding lead
lead_three q h = ground arith

lead_four :
    (q : ℕ)
    → q ≤ 4
    → lead (0xf0 + q) ≡ multi 3 q (if q == 0 then 0x90 else 0x80) (if q == 4 then 0x8f else 0xbf)
unfolding lead
lead_four q h = ground arith

module _ (c : ℕ) (rest : Bytes) where
  one : c < 0x80 → decode_from zero 0 0 0 (c ∷ rest) ≡ cons c (decode_from zero 0 0 0 rest)
  unfolding decode_from lead
  one h = ground arith

  two :
      0x80 ≤ c
      → c < 0x800
      → decode_from zero 0 0 0 ((0xc0 + c / 64) ∷ (0x80 + c % 64) ∷ rest)
        ≡ cons c (decode_from zero 0 0 0 rest)
  two h k =
      let whole : c / 64 * 64 + c % 64 ≡ c = omega arith in
      start _ _ _ _ _ _ (lead_two (c / 64) (omega arith) (omega arith))
      ∙ last (c / 64) 0x80 0xbf (c % 64) rest (omega arith) (omega arith)
      ∙ ap (λ n. cons n (decode_from zero 0 0 0 rest)) whole

  three :
      0x800 ≤ c
      → c < 0x10000
      → (leb 0xd800 c && leb c 0xdfff) ≡ false
      → decode_from zero 0 0 0 ((0xe0 + c / 4096) ∷ (0x80 + c / 64 % 64) ∷ (0x80 + c % 64) ∷ rest)
        ≡ cons c (decode_from zero 0 0 0 rest)
  three h k m =
      let whole : (c / 4096 * 64 + c / 64 % 64) * 64 + c % 64 ≡ c = omega arith in
      start _ _ _ _ _ _ (lead_three (c / 4096) (omega arith))
      ∙ more 0 (c / 4096) _ _ (c / 64 % 64) _ (ground arith) (ground arith)
      ∙ last _ 0x80 0xbf (c % 64) rest (omega arith) (omega arith)
      ∙ ap (λ n. cons n (decode_from zero 0 0 0 rest)) whole

  four :
      0x10000 ≤ c
      → c < 0x110000
      → decode_from zero 0 0 0 (
          (0xf0 + c / 262144)
          ∷ (0x80 + c / 4096 % 64)
          ∷ (0x80 + c / 64 % 64)
          ∷ (0x80 + c % 64)
          ∷ rest)
        ≡ cons c (decode_from zero 0 0 0 rest)
  four h k =
      let whole : ((c / 262144 * 64 + c / 4096 % 64) * 64 + c / 64 % 64) * 64 + c % 64 ≡ c =
        omega arith in
      start _ _ _ _ _ _ (lead_four (c / 262144) (omega arith))
      ∙ more 1 (c / 262144) _ _ (c / 4096 % 64) _ (ground arith) (ground arith)
      ∙ more 0 _ 0x80 0xbf (c / 64 % 64) _ (omega arith) (omega arith)
      ∙ last _ 0x80 0xbf (c % 64) rest (omega arith) (omega arith)
      ∙ ap (λ n. cons n (decode_from zero 0 0 0 rest)) whole

decode-encode_char :
    (c : ℕ) (b rest : Bytes)
    → encode_char c ≡ ok b
    → decode_from zero 0 0 0 (b ++ rest) ≡ cons c (decode_from zero 0 0 0 rest)
unfolding encode_char
decode-encode_char c b rest h = ground (arith, one c rest, two c rest, three c rest, four c rest)

-- Every text that can be encoded is decoded from its bytes.
pub decode-encode : (text : Text) (b : Bytes) → encode text ≡ ok b → decode b ≡ some text
unfolding encode decode
decode-encode [] b h = ground (arith, decode_from)
decode-encode (c ∷ text) b h =
    let (x, hx, h1) = >>=-eq-ok (encode_char c) (λ x. encode text >>= λ rest. ok (x ++ rest)) h in
    let (y, hy, h2) = >>=-eq-ok (encode text) (λ rest. ok (x ++ rest)) h1 in
    ground (arith, decode-encode_char c x y hx, decode-encode text y hy)
