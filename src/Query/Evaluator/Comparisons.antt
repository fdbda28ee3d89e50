-- ===== src/Query/Evaluator/Comparisons.antt =====
-- engine/query/evaluator.py: how the comparison operators fit together.
use soup_db.Common.{
  ◌≡◌, refl, ap, Bool, true, false, ◌&&◌, ◌||◌, not, Option, none, some, List, [], ◌∷◌, Exc, Result,
  ok, ◌>>=◌, ◌>>◌, require, or_raise, if◌then◌else◌, arith,
}
use soup_db.Common.Texts.{same_text}
use soup_db.Query.Order.{
  Rel, less, same, greater, unordered, is_less, is_same, is_greater, at_most, at_least,
  compare_exact, exact_float,
}
use soup_db.Query.Order.Flip.{flip, flip_order, order-flip, flip_exact}
use soup_db.Query.Evaluator.{
  Datum, plain, shape, Point, same_type, require_same_type, op_eq, op_ne, op_lt, op_le, op_gt,
  op_ge, is_comparison, order_of, equal_points, equal, is_same_order, ordered, is_none, compare_by,
  compare_values, in_range, between_values,
}

order_of-flip : (a b : Datum) → order_of a b ≡ flip_order (order_of b a)
unfolding order_of
order_of-flip (plain a) (plain b) = order-flip a b
order_of-flip (plain a) (shape q) = unfold flip_order in refl
order_of-flip (shape p) (plain b) = unfold flip_order in refl
order_of-flip (shape p) (shape q) = unfold flip_order in refl

is_same-flip : (r : Rel) → is_same (flip r) ≡ is_same r
unfolding flip
is_same-flip less = refl
is_same-flip same = refl
is_same-flip greater = refl
is_same-flip unordered = refl

equal_points-sym : (p q : List Point) → equal_points p q ≡ equal_points q p
unfolding equal_points
equal_points-sym [] [] = refl
equal_points-sym [] (x ∷ q) = refl
equal_points-sym (x ∷ p) [] = refl
equal_points-sym ((a, b) ∷ p) ((c, d) ∷ q) =
    rw
      (
        flip_exact (exact_float a) (exact_float c),
        flip_exact (exact_float b) (exact_float d),
        is_same-flip (compare_exact (exact_float c) (exact_float a)),
        is_same-flip (compare_exact (exact_float d) (exact_float b)),
        equal_points-sym p q,
      )
      refl

same_type-sym : (a b : Datum) → same_type a b ≡ same_type b a
unfolding same_type
same_type-sym a b = ground (arith)

equal_rest :
    (m n : Bool) (r : Option Rel)
    → (m && n) || is_same_order (flip_order r) ≡ (n && m) || is_same_order r
unfolding is_same_order flip_order
equal_rest m n none = ground arith
equal_rest m n (some r) = rw (is_same-flip r) (ground arith)

mirrored :
    (test test' : Rel → Bool)
    → ((r : Rel) → test (flip r) ≡ test' r)
    → (r : Option Rel)
    → (or_raise Exc.type_error (flip_order r) >>= λ r. ok (test r))
      ≡ (or_raise Exc.type_error r >>= λ r. ok (test' r))
unfolding flip_order
mirrored test test' h none = refl
mirrored test test' h (some r) = ap ok (h r)

is_less-flip : (r : Rel) → is_less (flip r) ≡ is_greater r
unfolding flip
is_less-flip less = refl
is_less-flip same = refl
is_less-flip greater = refl
is_less-flip unordered = refl

at_most-flip : (r : Rel) → at_most (flip r) ≡ at_least r
unfolding flip
at_most-flip less = refl
at_most-flip same = refl
at_most-flip greater = refl
at_most-flip unordered = refl

swap {ℓ} :
    {A : Type ℓ} (m n : Bool) (x y : A) → (if m || n then x else y) ≡ (if n || m then x else y)
swap true true x y = refl
swap true false x y = refl
swap false true x y = refl
swap false false x y = refl

equal-sym : (a b : Datum) → equal a b ≡ equal b a
unfolding equal
equal-sym (shape p) (shape q) = equal_points-sym p q
equal-sym (shape p) (plain b) = unfold order_of is_same_order is_none in ground arith
equal-sym (plain a) (shape q) = unfold order_of is_same_order is_none in ground arith
equal-sym (plain a) (plain b) =
    rw (order_of-flip (plain a) (plain b))
      (equal_rest (is_none (plain a)) (is_none (plain b)) (order_of (plain b) (plain a)))

-- An order comparison is the mirrored one of the operands swapped.
ordered-flip :
    (test test' : Rel → Bool)
    → ((r : Rel) → test (flip r) ≡ test' r)
    → (a b : Datum) → ordered test a b ≡ ordered test' b a
unfolding ordered
ordered-flip test test' h a b = rw (order_of-flip a b) (mirrored test test' h (order_of b a))

guard-sym :
    (a b : Datum) (r r' : Result Bool)
    → r ≡ r'
    → (if is_none a || is_none b then ok false else require_same_type a b >> r)
      ≡ (if is_none b || is_none a then ok false else require_same_type b a >> r')
unfolding require_same_type
guard-sym a b r r' h = rw (h, same_type-sym a b) (swap (is_none a) (is_none b) _ _)

-- `a < b` is `b > a`, `a <= b` is `b >= a`, and `=` and `<>` do not depend on the order of their
-- operands: with the same result, or the same exception, for all operands, numbers of two types, NULL,
-- NaN and values without an order included.
pub compare_values-swap :
    (a b : Datum)
    → (compare_values a op_lt b ≡ compare_values b op_gt a)
      × (compare_values a op_le b ≡ compare_values b op_ge a)
      × (compare_values a op_eq b ≡ compare_values b op_eq a)
      × (compare_values a op_ne b ≡ compare_values b op_ne a)
unfolding compare_values compare_by is_comparison same_text
compare_values-swap a b = (
  guard-sym a b _ _ (ordered-flip is_less is_greater is_less-flip a b),
  guard-sym a b _ _ (ordered-flip at_most at_least at_most-flip a b),
  guard-sym a b _ _ (ap ok (equal-sym a b)),
  guard-sym a b _ _ (ap (λ e. ok (not e)) (equal-sym a b)),
)

first_then :
    (p : Bool) {q : Bool} {r : Result Bool} → r ≡ ok q → (if p then r else ok false) ≡ ok (p && q)
first_then true h = h
first_then false h = refl

in_range_lem :
    (value lo hi : Datum) {p q : Bool}
    → ordered at_least value lo ≡ ok p
    → ordered at_most value hi ≡ ok q
    → in_range value lo hi ≡ ok (p && q)
unfolding in_range
in_range_lem value lo hi {p} {q} h k =
    rw (ordered-flip at_most at_least at_most-flip lo value, h) (first_then p k)

guard-eq-ok :
    (m n s : Bool) {r : Result Bool} {p : Bool}
    → m ≡ false
    → n ≡ false
    → (if m || n then ok false else require s Exc.query_execution_error >> r) ≡ ok p
    → (s ≡ true) × (r ≡ ok p)
guard-eq-ok true n s h k l = absurd cc
guard-eq-ok false true s h k l = absurd cc
guard-eq-ok false false true h k l = (refl, l)
guard-eq-ok false false false h k l = absurd cc

-- Where neither operand is NULL, BETWEEN is the conjunction of `>=` and `<=` whenever both can be
-- evaluated.
pub between_values-compare :
    (value lo hi : Datum) {p q : Bool}
    → is_none value ≡ false
    → is_none lo ≡ false
    → is_none hi ≡ false
    → compare_values value op_ge lo ≡ ok p
    → compare_values value op_le hi ≡ ok q
    → between_values value lo hi ≡ ok (p && q)
unfolding compare_values compare_by is_comparison same_text between_values require_same_type
between_values-compare value lo hi {p} {q} m n o h k =
    let (s, a) = guard-eq-ok (is_none value) (is_none lo) (same_type value lo) m n h in
    let (t, b) = guard-eq-ok (is_none value) (is_none hi) (same_type value hi) m o k in
    rw (s, t) (in_range_lem value lo hi a b)
