-- ===== src/Common/Reads.antt =====
-- Decoders that take a buffer and an offset and return a value and the next offset, and what it
-- means that such a decoder reads a value back from given bytes, wherever they stand.
use Prim.Native.Nat.{ℕ, zero, suc, ◌+◌}
use mathlib.Core.Path.{◌≡◌, refl, ap, subst}
use mathlib.Core.List.{List, [], ◌∷◌, ◌++◌, map}
use native.Mathlib.Omega.{arith}
use soup_db.Common.Lists.{length, All, length-append}
use soup_db.Common.Bytes.{Bytes, At, At-next, At-append}
use soup_db.Common.Errors.{Result, ok, ◌>>=◌, >>=-eq-ok}

abbrev pub Decoder : Type 0 → Type 0
Decoder A = Bytes → ℕ → Result (A × ℕ)

abbrev pub Reads : {A : Type 0} → Decoder A → Bytes → A → Type 0
Reads p b a =
    (blob : Bytes) (off : ℕ) (rest : Bytes)
    → At blob off (b ++ rest)
    → p blob off ≡ ok (a, off + length b)

-- `for _ in range(count)`
unfoldable pub repeat : {A : Type 0} → ℕ → Decoder A → Decoder (List A)
repeat zero p blob off = ok ([], off)
repeat (suc count) p blob off = do
  (a, next) ← p blob off
  (rest, after) ← repeat count p blob next
  ok (a ∷ rest, after)

unfoldable pub encode_each : {A : Type 0} → (A → Result Bytes) → List A → Result Bytes
encode_each encode [] = ok []
encode_each encode (x ∷ xs) = do first ← encode x; rest ← encode_each encode xs; ok (first ++ rest)

module _ {A B : Type 0} (encode : A → Result Bytes) (p : Decoder B) (g : A → B) (P : A → Type 0)
    (one : (a : A) (b : Bytes) → P a → encode a ≡ ok b → Reads p b (g a)) where
  pub repeat-Reads :
      (xs : List A) (b : Bytes)
      → All P xs
      → encode_each encode xs ≡ ok b
      → Reads (repeat (length xs) p) b (map g xs)
  unfolding repeat encode_each
  repeat-Reads [] b v h blob off rest k =
      let same : b ≡ [] = ground (arith, h) in ap (λ n. ok ([], n)) (omega (arith, ap length same))
  repeat-Reads (x ∷ xs) b v h blob off rest k =
      let (y, hy, h1) = >>=-eq-ok (encode x) _ h in
      let (z, hz, h2) = >>=-eq-ok (encode_each encode xs) _ h1 in
      let same : b ≡ y ++ z = ground (arith, h2) in
      let k1 : At blob off (y ++ (z ++ rest)) =
        At-append y z rest (subst (λ w. At blob off (w ++ rest)) same k) in
      let t1 = one x y v.0 hy blob off (z ++ rest) k1 in
      let t2 = repeat-Reads xs z v.1 hz blob (off + length y) rest (At-next y (z ++ rest) k1) in
      let sum : off + length y + length z ≡ off + length b =
        omega (arith, length-append y z, ap length same) in
      rw (t1, t2, sum) refl

-- The first of two parts is read, and what is left begins with the second.
pub Reads-next :
    {A : Type 0} (p : Decoder A) (x y : Bytes) (a : A) (blob : Bytes) (off : ℕ) (rest : Bytes)
    → Reads p x a
    → At blob off ((x ++ y) ++ rest)
    → (p blob off ≡ ok (a, off + length x)) × At blob (off + length x) (y ++ rest)
Reads-next p x y a blob off rest h k =
    let k1 : At blob off (x ++ (y ++ rest)) = At-append x y rest k in
    (h blob off (y ++ rest) k1, At-next x (y ++ rest) k1)

pub length-append_add : (off : ℕ) (x y : Bytes) → off + length (x ++ y) ≡ off + length x + length y
length-append_add off x y = omega (arith, length-append x y)
