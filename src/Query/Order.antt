-- ===== src/Query/Order.antt =====
-- Python's comparisons, as engine/query/evaluator.py uses them on the values of a row: numbers by their
-- exact value, texts and bytes by their elements, points by their coordinates. `none` stands for two
-- objects that have no order (TypeError), `unordered` for a pair with a NaN.
pub mod Flip
use soup_db.Common.{
  ℕ, zero, suc, ◌+◌, ◌-◌, ◌*◌, ◌/◌, ◌%◌, ◌^◌, ◌≡◌, refl, ap, Bool, true, false, ◌&&◌, ◌||◌, not,
  Option, none, some, List, [], ◌∷◌, ltb, ◌==◌, if◌then◌else◌, arith,
}
use soup_db.Common.Int.{ℤ, pos, negsuc}
use soup_db.Values.{Coord, Value}

pub data Rel : Type 0 where
  less same greater unordered : Rel

abbrev pub is_less : Rel → Bool
is_less less = true
is_less r = false

abbrev pub is_same : Rel → Bool
is_same same = true
is_same r = false

abbrev pub is_greater : Rel → Bool
is_greater greater = true
is_greater r = false

abbrev pub at_most : Rel → Bool
at_most less = true
at_most same = true
at_most r = false

abbrev pub at_least : Rel → Bool
at_least greater = true
at_least same = true
at_least r = false

unfoldable pub compare_nat : ℕ → ℕ → Rel
compare_nat a b = if ltb a b then less else if ltb b a then greater else same

unfoldable pub compare_int : ℤ → ℤ → Rel
unfolding compare_nat
compare_int (pos a) (pos b) = compare_nat a b
compare_int (pos a) (negsuc b) = greater
compare_int (negsuc a) (pos b) = less
compare_int (negsuc a) (negsuc b) = compare_nat b a

-- A number by its exact value, in units of 2 ^ -1074, the least double.
pub data Exact : Type 0 where
  nan below above : Exact
  finite : ℤ → Exact

unfoldable pub negate_nat : ℕ → ℤ
negate_nat zero = pos zero
negate_nat (suc n) = negsuc n

unfoldable pub with_sign : Bool → ℕ → Exact
unfolding negate_nat
with_sign true n = finite (negate_nat n)
with_sign false n = finite (pos n)

unfoldable pub exact_float : ℕ → Exact
unfolding with_sign
exact_float w =
    let negative = w / 2 ^ 63 == 1 in
    let exponent = w / 2 ^ 52 % 2 ^ 11 in
    let fraction = w % 2 ^ 52 in
    if exponent == 2047
    then (if fraction == 0 then (if negative then below else above) else nan)
    else if exponent == 0
    then with_sign negative fraction
    else with_sign negative ((2 ^ 52 + fraction) * 2 ^ (exponent - 1))

unfoldable pub exact_int : ℤ → Exact
exact_int (pos n) = finite (pos (n * 2 ^ 1074))
exact_int (negsuc n) = finite (negsuc ((n + 1) * 2 ^ 1074 - 1))

unfoldable pub compare_exact : Exact → Exact → Rel
compare_exact nan b = unordered
compare_exact a nan = unordered
compare_exact (finite a) (finite b) = compare_int a b
compare_exact below below = same
compare_exact above above = same
compare_exact below b = less
compare_exact b below = greater
compare_exact above b = greater
compare_exact b above = less

-- The order of two sequences: that of the first elements that differ.
unfoldable pub then_compare : Rel → Rel → Rel
then_compare same next = next
then_compare r next = r

pub compare_list : List ℕ → List ℕ → Rel
unfolding compare_nat then_compare
compare_list [] [] = same
compare_list [] (b ∷ t) = less
compare_list (a ∷ s) [] = greater
compare_list (a ∷ s) (b ∷ t) = then_compare (compare_nat a b) (compare_list s t)

unfoldable pub compare_bool : Bool → Bool → Rel
compare_bool false true = less
compare_bool true false = greater
compare_bool a b = same

unfoldable pub coord_exact : Coord → Option Exact
unfolding exact_int exact_float
coord_exact (Coord.int n) = some (exact_int n)
coord_exact (Coord.float w) = some (exact_float w)
coord_exact Coord.other = none

unfoldable pub compare_keys {ℓ} :
    {B : Type ℓ} → (B → B → Option Rel) → Option B → Option B → Option Rel
compare_keys compare (some x) (some y) = compare x y
compare_keys compare x y = none

-- Two objects with the given kind of key, compared by it.
unfoldable pub both {ℓ κ} :
    {A : Type ℓ} {B : Type κ} → (A → Option B) → (B → B → Option Rel) → A → A → Option Rel
unfolding compare_keys
both key compare a b = compare_keys compare (key a) (key b)

unfoldable pub or_else : Option Rel → Option Rel → Option Rel
or_else none next = next
or_else r next = r

unfoldable pub then_order : Option Rel → Option Rel → Option Rel
then_order (some same) next = next
then_order r next = r

unfoldable pub number_of : Value → Option Exact
unfolding exact_int exact_float
number_of (Value.int n) = some (exact_int n)
number_of (Value.float w) = some (exact_float w)
number_of v = none

unfoldable pub bool_of : Value → Option Bool
bool_of (Value.bool b) = some b
bool_of v = none

unfoldable pub text_of : Value → Option (List ℕ)
text_of (Value.text t) = some t
text_of v = none

unfoldable pub bytes_of : Value → Option (List ℕ)
bytes_of (Value.bytes b) = some b
bytes_of v = none

unfoldable pub pair_of : Value → Option (Coord × Coord)
pair_of (Value.pair a b) = some (a, b)
pair_of v = none

unfoldable pub order_exact : Exact → Exact → Option Rel
order_exact a b = some (compare_exact a b)

unfoldable pub order_bool : Bool → Bool → Option Rel
order_bool a b = some (compare_bool a b)

unfoldable pub order_list : List ℕ → List ℕ → Option Rel
order_list a b = some (compare_list a b)

unfoldable pub order_coord : Coord → Coord → Option Rel
order_coord a b = both coord_exact order_exact a b

unfoldable pub order_pair : Coord × Coord → Coord × Coord → Option Rel
order_pair p q = then_order (order_coord p.0 q.0) (order_coord p.1 q.1)

-- `a < b`, `a == b` and `a > b` in one.
unfoldable pub order : Value → Value → Option Rel
unfolding or_else
order a b = or_else (both number_of order_exact a b) (
    or_else (both bool_of order_bool a b) (
      or_else (both text_of order_list a b)
        (or_else (both bytes_of order_list a b) (both pair_of order_pair a b))))
