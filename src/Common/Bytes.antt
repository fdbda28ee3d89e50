-- ===== src/Common/Bytes.antt =====
-- `bytes` and `bytearray` as lists of numbers below 256, with Python's slices: `b[pos:pos + n]`
-- and the assignment `b[pos:pos + len(d)] = d` inside the bounds.
use Prim.Native.Nat.{ℕ, zero, suc, ◌+◌, ◌≤◌}
use mathlib.Core.Path.{◌≡◌, refl, sym, ap, ◌∙◌, subst}
use mathlib.Core.List.{append_assoc, List, [], ◌∷◌, ◌++◌}
use native.Mathlib.Omega.{arith}
use soup_db.Common.Lists.{
  length, take, drop, length-append, length-drop, take-append_length, drop-append_length,
}

abbrev pub Bytes : Type 0
Bytes = List ℕ

abbrev pub slice : ℕ → ℕ → Bytes → Bytes
slice pos n b = take n (drop pos b)

abbrev pub splice : ℕ → Bytes → Bytes → Bytes
splice zero d b = d ++ drop (length d) b
splice (suc pos) d [] = []
splice (suc pos) d (x ∷ b) = x ∷ splice pos d b

pub length-splice :
    (pos : ℕ) (d b : Bytes) → pos + length d ≤ length b → length (splice pos d b) ≡ length b
length-splice zero d b h =
    omega (arith, length-append d (drop (length d) b), length-drop (length d) b)
length-splice (suc pos) d [] h = refl
length-splice (suc pos) d (x ∷ b) h = ap suc (length-splice pos d b (omega arith))

-- What was written is read back.
pub slice-splice_self :
    (pos : ℕ) (d b : Bytes) → pos + length d ≤ length b → slice pos (length d) (splice pos d b) ≡ d
slice-splice_self zero d b h = take-append_length d (drop (length d) b)
slice-splice_self (suc pos) d [] h = absurd (omega arith)
slice-splice_self (suc pos) d (x ∷ b) h = slice-splice_self pos d b (omega arith)

take-append_le : (n : ℕ) (d b : Bytes) → n ≤ length d → take n (d ++ b) ≡ take n d
take-append_le zero d b h = refl
take-append_le (suc n) [] b h = absurd (omega arith)
take-append_le (suc n) (x ∷ d) b h = ap (◌∷◌ x) (take-append_le n d b (omega arith))

-- A slice that ends before the write is not changed.
pub slice-splice_before :
    (q n pos : ℕ) (d b : Bytes) → q + n ≤ pos → slice q n (splice pos d b) ≡ slice q n b
slice-splice_before zero zero pos d b h = refl
slice-splice_before (suc q) n zero d b h = absurd (omega arith)
slice-splice_before zero (suc n) zero d b h = absurd (omega arith)
slice-splice_before zero (suc n) (suc pos) d [] h = refl
slice-splice_before zero (suc n) (suc pos) d (x ∷ b) h =
    ap (◌∷◌ x) (slice-splice_before zero n pos d b (omega arith))
slice-splice_before (suc q) n (suc pos) d [] h = refl
slice-splice_before (suc q) n (suc pos) d (x ∷ b) h = slice-splice_before q n pos d b (omega arith)

drop_all : (q : ℕ) (b : Bytes) → length b ≤ q → drop q b ≡ []
drop_all zero [] h = refl
drop_all zero (x ∷ b) h = absurd (omega arith)
drop_all (suc q) [] h = refl
drop_all (suc q) (x ∷ b) h = drop_all q b (omega arith)

drop-drop-append : (q : ℕ) (d b : Bytes) → length d ≤ q → drop q (d ++ drop (length d) b) ≡ drop q b
drop-drop-append q [] b h = refl
drop-drop-append zero (x ∷ d) b h = absurd (omega arith)
drop-drop-append (suc q) (x ∷ d) [] h = drop_all q (d ++ []) (omega (arith, length-append d []))
drop-drop-append (suc q) (x ∷ d) (y ∷ b) h = drop-drop-append q d b (omega arith)

-- A slice that begins after the write is not changed.
pub slice-splice_after :
    (q n pos : ℕ) (d b : Bytes) → pos + length d ≤ q → slice q n (splice pos d b) ≡ slice q n b
slice-splice_after q n zero d b h = ap (take n) (drop-drop-append q d b (omega arith))
slice-splice_after zero n (suc pos) d b h = absurd (omega arith)
slice-splice_after (suc q) n (suc pos) d [] h = refl
slice-splice_after (suc q) n (suc pos) d (x ∷ b) h = slice-splice_after q n pos d b (omega arith)

-- Bytes that are appended change no slice in front of them, and begin where the old ones end.
pub slice-append_before :
    (q n : ℕ) (b c : Bytes) → q + n ≤ length b → slice q n (b ++ c) ≡ slice q n b
slice-append_before zero n b c h = take-append_le n b c (omega arith)
slice-append_before (suc q) n [] c h = absurd (omega arith)
slice-append_before (suc q) n (x ∷ b) c h = slice-append_before q n b c (omega arith)

pub slice-append_at : (q : ℕ) (b c : Bytes) → q ≡ length b → slice q (length c) (b ++ c) ≡ c
slice-append_at q [] c h = rw h (take_all c)
  where
    take_all : (c : Bytes) → take (length c) c ≡ c
    take_all [] = refl
    take_all (x ∷ c) = ap (◌∷◌ x) (take_all c)
slice-append_at zero (x ∷ b) c h = absurd (omega arith)
slice-append_at (suc q) (x ∷ b) c h = slice-append_at q b c (omega arith)

-- `x` is what is left of `b` from position `off` on, which is not past the end.
pub record At (b : Bytes) (off : ℕ) (x : Bytes) : Type 0 where
  measured : length b ≡ off + length x
  left : drop off b ≡ x

pub At-start : (b : Bytes) → At b 0 b
At-start b = record { measured = omega arith; left = refl }

drop_none : (n : ℕ) → drop {A = ℕ} n [] ≡ []
drop_none zero = refl
drop_none (suc n) = refl

drop_add : (m n : ℕ) (b : Bytes) → drop (m + n) b ≡ drop n (drop m b)
drop_add zero n b = ap (λ k. drop k b) (omega arith)
drop_add (suc m) n [] = drop_none (suc m + n) ∙ sym (drop_none n)
drop_add (suc m) n (x ∷ b) =
    let shifted : suc m + n ≡ suc (m + n) = omega arith in
    ap (λ k. drop k (x ∷ b)) shifted ∙ drop_add m n b

module _ {b : Bytes} {off : ℕ} (d rest : Bytes) (h : At b off (d ++ rest)) where
  pub At-slice : slice off (length d) b ≡ d
  At-slice = ap (take (length d)) h.left ∙ take-append_length d rest

  pub At-next : At b (off + length d) rest
  At-next = record {
    measured = omega (arith, length-append d rest, h.measured);
    left = drop_add off (length d) b ∙ ap (drop (length d)) h.left ∙ drop-append_length d rest;
  }

  pub At-le : off + length d ≤ length b
  At-le = omega (arith, length-append d rest, h.measured)

pub At-end : {b : Bytes} {off : ℕ} → At b off [] → off ≡ length b
At-end h = omega (arith, h.measured)

pub At-append :
    {b : Bytes} {off : ℕ} (x y z : Bytes) → At b off ((x ++ y) ++ z) → At b off (x ++ (y ++ z))
At-append {b} {off} x y z h = subst (λ w. At b off w) (append_assoc x y z) h
