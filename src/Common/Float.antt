-- ===== src/Common/Float.antt =====
-- Python's `float`: an IEEE 754 double by the 64 bits that `struct` packs, and the conversion of an
-- integer, which rounds to the nearest double, ties to even, and raises past the largest one.
use Prim.Native.Nat.{ℕ, zero, suc, ◌+◌, ◌-◌, ◌*◌, ◌/◌, ◌%◌, ◌^◌, ◌<◌}
use mathlib.Core.Path.{◌≡◌}
use mathlib.Core.Bool.{Bool, true, false, ◌&&◌, ◌||◌}
use native.Mathlib.Omega.{arith}
use soup_db.Common.Tests.{ltb, leb, ◌==◌, if◌then◌else◌}
use soup_db.Common.Int.{ℤ, pos, negsuc}
use soup_db.Common.Errors.{Exc, Result, ok, raise, ◌>>=◌, >>=-eq-ok}

-- The length of a number in bits. The fuel bounds it: 1025 bits are past every double.
bits : ℕ → ℕ → ℕ
bits zero m = 0
bits (suc fuel) m = elim (m == 0) [ true ↦ 0 | false ↦ suc (bits fuel (m / 2)) ]

-- `m` over `2 ^ n`, to the nearest, ties to even.
unfoldable shift_round : ℕ → ℕ → ℕ
shift_round m n =
    let q = m / 2 ^ n in
    let r = m % 2 ^ n * 2 in if ltb (2 ^ n) r || (r == 2 ^ n && q % 2 == 1) then q + 1 else q

-- The exponent and the mantissa of a magnitude of `n` bits, `n > 0`; a mantissa that rounds up to
-- `2 ^ 53` carries into the exponent.
unfoldable magnitude : ℕ → ℕ → ℕ
unfolding shift_round
magnitude n m =
    let mantissa = if leb n 53 then m * 2 ^ (53 - n) else shift_round m (n - 53) in
    (n + 1022) * 2 ^ 52 + (mantissa - 2 ^ 52)

unfoldable finite : ℕ → Result ℕ
finite w = if ltb w 0x7ff0000000000000 then ok w else raise Exc.overflow_error

unfoldable pub of_nat : ℕ → Result ℕ
unfolding bits magnitude finite
of_nat m = if m == 0 then ok 0 else finite (magnitude (bits 1025 m) m)

-- `float(n)`
unfoldable pub of_int : ℤ → Result ℕ
unfolding of_nat
of_int (pos n) = of_nat n
of_int (negsuc n) = of_nat (suc n) >>= λ w. ok (0x8000000000000000 + w)

finite-lt : (w : ℕ) {v : ℕ} → finite w ≡ ok v → v < 0x7ff0000000000000
unfolding finite
finite-lt w h = ground arith

zero_or-lt :
    (b : Bool) (w : ℕ) {v : ℕ} → (if b then ok 0 else finite w) ≡ ok v → v < 0x7ff0000000000000
zero_or-lt true w h = ground arith
zero_or-lt false w h = finite-lt w h

of_nat-lt : (m : ℕ) {v : ℕ} → of_nat m ≡ ok v → v < 0x7ff0000000000000
unfolding of_nat
of_nat-lt m h = zero_or-lt (m == 0) (magnitude (bits 1025 m) m) h

pub of_int-lt : (n : ℤ) {v : ℕ} → of_int n ≡ ok v → v < 256 ^ 8
unfolding of_int
of_int-lt (pos n) {v} h = let small : v < 0x7ff0000000000000 = of_nat-lt n h in omega arith
of_int-lt (negsuc n) {v} h =
    let (w, hw, hv) = >>=-eq-ok (of_nat (suc n)) (λ w. ok (0x8000000000000000 + w)) h in
    let small : w < 0x7ff0000000000000 = of_nat-lt (suc n) hw in ground arith
