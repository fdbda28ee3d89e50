-- ===== src/Common/Counts.antt =====
-- How many entries of a list pass a Boolean test. Two lists hold the same entries, as often, when
-- every test is passed by as many entries of one as of the other.
use Prim.Native.Nat.{ℕ, zero, suc, ◌+◌, ◌≤◌}
use mathlib.Core.Path.{◌≡◌, ap}
use mathlib.Core.Logic.{inl, inr}
use mathlib.Core.Bool.{Bool, true, false}
use mathlib.Core.List.{List, [], ◌∷◌, ◌++◌}
use native.Mathlib.Omega.{arith}
use mathlib.Core.Option.{some}
use soup_db.Common.Tests.{Bool-cases}
use soup_db.Common.Lists.{get_elem?, set}

abbrev pub one : Bool → ℕ
one true = 1
one false = 0

abbrev pub concat : {A : Type 0} → List (List A) → List A
concat [] = []
concat (x ∷ xs) = x ++ concat xs

module _ {A : Type 0} where
  abbrev pub count_p : (A → Bool) → List A → ℕ
  count_p p [] = 0
  count_p p (x ∷ xs) = one (p x) + count_p p xs

  abbrev pub SameItems : List A → List A → Type 0
  SameItems xs ys = (p : A → Bool) → count_p p xs ≡ count_p p ys

  pub count_p-append :
      (p : A → Bool) (xs ys : List A) → count_p p (xs ++ ys) ≡ count_p p xs + count_p p ys
  count_p-append p [] ys = omega arith
  count_p-append p (x ∷ xs) ys = omega (arith, count_p-append p xs ys)

  -- No entry passes: neither the first one nor any other.
  pub count_p_none :
      (p : A → Bool) (x : A) (xs : List A)
      → count_p p (x ∷ xs) ≡ 0
      → (p x ≡ false) × (count_p p xs ≡ 0)
  count_p_none p x xs h = elim (Bool-cases (p x)) [
    | inl t ↦ absurd (omega (arith, ap one t))
    | inr f ↦ (f, omega arith)
  ]

  -- A test that is passed where another one is passed or a third one is.
  pub count_p-le :
      (p q : A → Bool)
      → ((x : A) → p x ≡ true → q x ≡ true)
      → (xs : List A) → count_p p xs ≤ count_p q xs
  count_p-le p q h [] = omega arith
  count_p-le p q h (x ∷ xs) = elim (Bool-cases (p x)) [
    | inl t ↦ rw (t, h x t) (omega (arith, count_p-le p q h xs))
    | inr f ↦ rw f (omega (arith, count_p-le p q h xs))
  ]

  -- Some entry passes.
  pub count_p_pos :
      (p : A → Bool) (xs : List A)
      → 1 ≤ count_p p xs
      → (x : A) × (p x ≡ true) × ((q : A → Bool) → q x ≡ true → 1 ≤ count_p q xs)
  count_p_pos p [] h = absurd (omega arith)
  count_p_pos p (x ∷ xs) h = elim (Bool-cases (p x)) [
    | inl t ↦ (x, t, λ q k. rw k (omega arith))
    | inr f ↦
        let (y, k, all) = count_p_pos p xs (omega (arith, ap one f)) in
        (y, k, λ q g. omega (arith, all q g))
  ]

pub count_p-concat-set :
    {A : Type 0} (q : A → Bool) (xss : List (List A)) (k : ℕ) (xs ys : List A)
    → get_elem? xss k ≡ some xs
    → count_p q (concat (set xss k ys)) + count_p q xs ≡ count_p q (concat xss) + count_p q ys
count_p-concat-set q [] k xs ys h = cc
count_p-concat-set q (zs ∷ xss) zero xs ys h =
    let same : zs ≡ xs = cc in
    omega (
      arith,
      ap (count_p q) same,
      count_p-append q zs (concat xss),
      count_p-append q ys (concat xss),
    )
count_p-concat-set q (zs ∷ xss) (suc k) xs ys h = omega (
  arith,
  count_p-append q zs (concat xss),
  count_p-append q zs (concat (set xss k ys)),
  count_p-concat-set q xss k xs ys h,
)

pub count_p-concat-append :
    {A : Type 0} (q : A → Bool) (xss yss : List (List A))
    → count_p q (concat (xss ++ yss)) ≡ count_p q (concat xss) + count_p q (concat yss)
count_p-concat-append q [] yss = omega arith
count_p-concat-append q (xs ∷ xss) yss = omega (
  arith,
  count_p-append q xs (concat (xss ++ yss)),
  count_p-append q xs (concat xss),
  count_p-concat-append q xss yss,
)
