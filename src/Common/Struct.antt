-- ===== src/Common/Struct.antt =====
-- The integer formats of Python's `struct` and `int.to_bytes`: fixed widths, either byte order,
-- unsigned and two's complement. A value out of range raises, as `struct.error` does.
use Prim.Native.Nat.{ℕ, zero, suc, ◌+◌, ◌-◌, ◌*◌, ◌/◌, ◌%◌, ◌^◌, ◌<◌}
use mathlib.Core.Path.{◌≡◌, refl, ap, ◌∙◌}
use mathlib.Core.Bool.{Bool, true}
use mathlib.Core.List.{[], ◌∷◌, reverse, reverse_aux, reverse-reverse}
use native.Mathlib.Omega.{arith}
use native.Mathlib.Nat.{pow-suc}
use soup_db.Common.Tests.{ltb, if◌then◌else◌}
use soup_db.Common.Lists.{length}
use soup_db.Common.Bytes.{Bytes}
use soup_db.Common.Int.{ℤ, pos, negsuc}
use soup_db.Common.Errors.{Exc, Result, ok, raise}

-- Little-endian.
unfoldable pub pack_le : ℕ → ℕ → Bytes
pack_le zero v = []
pack_le (suc n) v = (v % 256) ∷ pack_le n (v / 256)

unfoldable pub unpack_le : Bytes → ℕ
unpack_le [] = 0
unpack_le (b ∷ bs) = b + 256 * unpack_le bs

pub length-pack_le : (n v : ℕ) → length (pack_le n v) ≡ n
unfolding pack_le
length-pack_le zero v = refl
length-pack_le (suc n) v = ap suc (length-pack_le n (v / 256))

pub unpack_le-pack_le : (n v : ℕ) → v < 256 ^ n → unpack_le (pack_le n v) ≡ v
unfolding pack_le unpack_le
unpack_le-pack_le zero v h = omega arith
unpack_le-pack_le (suc n) v h =
    omega (arith, unpack_le-pack_le n (v / 256) (omega (arith, pow-suc 256 n)))

-- Big-endian.
unfoldable pub pack_be : ℕ → ℕ → Bytes
pack_be n v = reverse (pack_le n v)

unfoldable pub unpack_be : Bytes → ℕ
unpack_be b = unpack_le (reverse b)

length-reverse_aux : (b acc : Bytes) → length (reverse_aux b acc) ≡ length b + length acc
length-reverse_aux [] acc = omega arith
length-reverse_aux (x ∷ b) acc = omega (arith, length-reverse_aux b (x ∷ acc))

length-reverse : (b : Bytes) → length (reverse b) ≡ length b
length-reverse b = omega (arith, length-reverse_aux b [])

pub length-pack_be : (n v : ℕ) → length (pack_be n v) ≡ n
unfolding pack_be
length-pack_be n v = length-reverse (pack_le n v) ∙ length-pack_le n v

pub unpack_be-pack_be : (n v : ℕ) → v < 256 ^ n → unpack_be (pack_be n v) ≡ v
unfolding pack_be unpack_be
unpack_be-pack_be n v h = rw reverse-reverse (unpack_le-pack_le n v h)

-- A signed value of `n` bytes as the number that its two's complement bytes stand for.
unfoldable pub to_word : ℕ → ℤ → ℕ
to_word n (pos v) = v
to_word n (negsuc v) = 256 ^ n - 1 - v

unfoldable pub of_word : ℕ → ℕ → ℤ
of_word n w = if ltb (w * 2) (256 ^ n) then pos w else negsuc (256 ^ n - 1 - w)

unfoldable pub fits_signed : ℕ → ℤ → Bool
fits_signed n (pos v) = ltb (v * 2) (256 ^ n)
fits_signed n (negsuc v) = ltb (v * 2 + 1) (256 ^ n)

pub of_word-to_word : (n : ℕ) (v : ℤ) → fits_signed n v ≡ true → of_word n (to_word n v) ≡ v
unfolding of_word to_word fits_signed
of_word-to_word n (pos v) h = ground arith
of_word-to_word n (negsuc v) h = ground arith

pub to_word-lt : (n : ℕ) (v : ℤ) → fits_signed n v ≡ true → to_word n v < 256 ^ n
unfolding to_word fits_signed
to_word-lt n (pos v) h = ground arith
to_word-lt n (negsuc v) h = ground arith

-- The codes `B`, `H`, `I` of `struct.pack`, by their width in bytes.
unfoldable pub pack_unsigned_le : ℕ → ℕ → Result Bytes
pack_unsigned_le n v = if ltb v (256 ^ n) then ok (pack_le n v) else raise Exc.struct_error

unfoldable pub pack_unsigned_be : ℕ → ℕ → Result Bytes
pack_unsigned_be n v = if ltb v (256 ^ n) then ok (pack_be n v) else raise Exc.struct_error

pub pack_unsigned_le-eq-ok :
    (n v : ℕ) {b : Bytes}
    → pack_unsigned_le n v ≡ ok b
    → (b ≡ pack_le n v) × (length b ≡ n) × (unpack_le b ≡ v)
unfolding pack_unsigned_le
pack_unsigned_le-eq-ok n v h = ground (arith, length-pack_le n v, unpack_le-pack_le n v)

pub pack_unsigned_be-eq-ok :
    (n v : ℕ) {b : Bytes}
    → pack_unsigned_be n v ≡ ok b
    → (b ≡ pack_be n v) × (length b ≡ n) × (unpack_be b ≡ v)
unfolding pack_unsigned_be
pack_unsigned_be-eq-ok n v h = ground (arith, length-pack_be n v, unpack_be-pack_be n v)
