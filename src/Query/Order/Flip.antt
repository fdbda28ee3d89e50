-- ===== src/Query/Order/Flip.antt =====
-- The comparisons of engine/query/evaluator.py with their sides swapped.
use soup_db.Common.{ℕ, ◌≡◌, refl, ap, Bool, true, false, Option, none, some, List, [], ◌∷◌, arith}
use soup_db.Common.Int.{ℤ, pos, negsuc}
use soup_db.Values.{Coord, Value}
use soup_db.Query.Order.{
  Rel, less, same, greater, unordered, Exact, nan, below, above, finite, compare_nat, compare_int,
  compare_exact, then_compare, compare_list, compare_bool, coord_exact, compare_keys, both, or_else,
  then_order, number_of, bool_of, text_of, bytes_of, pair_of, order_exact, order_bool, order_list,
  order_coord, order_pair, order,
}

unfoldable pub flip : Rel → Rel
flip less = greater
flip same = same
flip greater = less
flip unordered = unordered

-- The order seen from the other side.
unfoldable pub flip_order : Option Rel → Option Rel
flip_order none = none
flip_order (some r) = some (flip r)

flip_nat : (a b : ℕ) → compare_nat a b ≡ flip (compare_nat b a)
unfolding compare_nat flip
flip_nat a b = ground arith

flip_int : (a b : ℤ) → compare_int a b ≡ flip (compare_int b a)
unfolding compare_int flip
flip_int (pos a) (pos b) = flip_nat a b
flip_int (pos a) (negsuc b) = refl
flip_int (negsuc a) (pos b) = refl
flip_int (negsuc a) (negsuc b) = flip_nat b a

pub flip_exact : (a b : Exact) → compare_exact a b ≡ flip (compare_exact b a)
unfolding compare_exact flip
flip_exact nan nan = refl
flip_exact nan below = refl
flip_exact nan above = refl
flip_exact nan (finite b) = refl
flip_exact below nan = refl
flip_exact below below = refl
flip_exact below above = refl
flip_exact below (finite b) = refl
flip_exact above nan = refl
flip_exact above below = refl
flip_exact above above = refl
flip_exact above (finite b) = refl
flip_exact (finite a) nan = refl
flip_exact (finite a) below = refl
flip_exact (finite a) above = refl
flip_exact (finite a) (finite b) = flip_int a b

flip_then : (r next : Rel) → then_compare (flip r) (flip next) ≡ flip (then_compare r next)
unfolding then_compare flip
flip_then less next = refl
flip_then same next = refl
flip_then greater next = refl
flip_then unordered next = refl

flip_list : (a b : List ℕ) → compare_list a b ≡ flip (compare_list b a)
unfolding compare_list flip
flip_list [] [] = refl
flip_list [] (y ∷ b) = refl
flip_list (x ∷ a) [] = refl
flip_list (x ∷ a) (y ∷ b) =
    rw (flip_nat x y, flip_list a b) (flip_then (compare_nat y x) (compare_list b a))

flip_bool : (a b : Bool) → compare_bool a b ≡ flip (compare_bool b a)
unfolding compare_bool flip
flip_bool false false = refl
flip_bool false true = refl
flip_bool true false = refl
flip_bool true true = refl

flip_order_exact : (a b : Exact) → order_exact a b ≡ flip_order (order_exact b a)
unfolding order_exact flip_order
flip_order_exact a b = ap some (flip_exact a b)

flip_order_bool : (a b : Bool) → order_bool a b ≡ flip_order (order_bool b a)
unfolding order_bool flip_order
flip_order_bool a b = ap some (flip_bool a b)

flip_order_list : (a b : List ℕ) → order_list a b ≡ flip_order (order_list b a)
unfolding order_list flip_order
flip_order_list a b = ap some (flip_list a b)

flip_keys {ℓ} :
    {B : Type ℓ} (compare : B → B → Option Rel)
    → ((x y : B) → compare x y ≡ flip_order (compare y x))
    → (x y : Option B) → compare_keys compare x y ≡ flip_order (compare_keys compare y x)
unfolding compare_keys flip_order
flip_keys compare h none none = refl
flip_keys compare h none (some y) = refl
flip_keys compare h (some x) none = refl
flip_keys compare h (some x) (some y) = h x y

flip_both {ℓ κ} :
    {A : Type ℓ} {B : Type κ} (key : A → Option B) (compare : B → B → Option Rel)
    → ((x y : B) → compare x y ≡ flip_order (compare y x))
    → (a b : A) → both key compare a b ≡ flip_order (both key compare b a)
unfolding both
flip_both key compare h a b = flip_keys compare h (key a) (key b)

or_else_flip : (a b : Option Rel) → or_else (flip_order a) (flip_order b) ≡ flip_order (or_else a b)
unfolding or_else flip_order
or_else_flip none b = refl
or_else_flip (some r) b = refl

then_order_flip :
    (a b : Option Rel) → then_order (flip_order a) (flip_order b) ≡ flip_order (then_order a b)
unfolding then_order flip_order flip
then_order_flip none b = refl
then_order_flip (some less) b = refl
then_order_flip (some same) b = refl
then_order_flip (some greater) b = refl
then_order_flip (some unordered) b = refl

flip_or_else :
    (a b a' b' : Option Rel)
    → a ≡ flip_order a'
    → b ≡ flip_order b'
    → or_else a b ≡ flip_order (or_else a' b')
flip_or_else a b a' b' h k = rw (h, k) (or_else_flip a' b')

flip_then_order :
    (a b a' b' : Option Rel)
    → a ≡ flip_order a'
    → b ≡ flip_order b'
    → then_order a b ≡ flip_order (then_order a' b')
flip_then_order a b a' b' h k = rw (h, k) (then_order_flip a' b')

flip_coord : (a b : Coord) → order_coord a b ≡ flip_order (order_coord b a)
unfolding order_coord
flip_coord a b = flip_both coord_exact order_exact flip_order_exact a b

flip_pair : (p q : Coord × Coord) → order_pair p q ≡ flip_order (order_pair q p)
unfolding order_pair
flip_pair p q = flip_then_order _ _ _ _ (flip_coord p.0 q.0) (flip_coord p.1 q.1)

-- Swapping two objects turns their order around.
pub order-flip : (a b : Value) → order a b ≡ flip_order (order b a)
unfolding order
order-flip a b = flip_or_else _ _ _ _ (flip_both number_of order_exact flip_order_exact a b) (
    flip_or_else _ _ _ _ (flip_both bool_of order_bool flip_order_bool a b) (
      flip_or_else _ _ _ _ (flip_both text_of order_list flip_order_list a b) (
        flip_or_else _ _ _ _ (flip_both bytes_of order_list flip_order_list a b)
          (flip_both pair_of order_pair flip_pair a b))))
