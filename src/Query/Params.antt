-- ===== src/Query/Params.antt =====
-- engine/query/params.py, on expressions: a prepared statement's parameters are put in.
mod Tests
use soup_db.Common.{
  ℕ, zero, suc, ◌-◌, ◌≡◌, refl, true, false, ◌&&◌, Option, none, some, List, [], ◌∷◌, Exc, Result,
  ok, raise, ◌>>=◌, >>=-eq-ok, or_raise, leb, length, ◌≤◌, if◌then◌else◌, arith,
}
use soup_db.Values.{Value}
use soup_db.Query.Ast.{
  Expr, Exprs, literal, parameter, column_ref, star, compare, binary, is_null, logical, not_expr,
  between, in_expr, like, match_expr, similar_to, search_expr, score, bound_score, call, call_star,
  point, distance, polygon, intersects, nil, cons,
}

-- `params[index - 1]` of an index from 1 on.
unfoldable pub parameter_value : ℕ → List Value → Result Value
parameter_value index [] = raise Exc.query_execution_error
parameter_value zero (value ∷ params) = raise Exc.query_execution_error
parameter_value (suc zero) (value ∷ params) = ok value
parameter_value (suc (suc index)) (value ∷ params) = parameter_value (suc index) params

unfoldable mutual
  unfolding parameter_value

  pub bind_parameters : Expr → List Value → Result Expr
  bind_parameters (literal v) params = ok (literal v)
  bind_parameters (parameter index) params = do v ← parameter_value index params; ok (literal v)
  bind_parameters (column_ref name) params = ok (column_ref name)
  bind_parameters star params = ok star
  bind_parameters (compare a op b) params = do
    x ← bind_parameters a params
    y ← bind_parameters b params
    ok (compare x op y)
  bind_parameters (binary a op b) params = do
    x ← bind_parameters a params
    y ← bind_parameters b params
    ok (binary x op y)
  bind_parameters (is_null a negated) params = do
    x ← bind_parameters a params
    ok (is_null x negated)
  bind_parameters (logical a op b) params = do
    x ← bind_parameters a params
    y ← bind_parameters b params
    ok (logical x op y)
  bind_parameters (not_expr a) params = do x ← bind_parameters a params; ok (not_expr x)
  bind_parameters (between a lo hi) params = do
    x ← bind_parameters a params
    l ← bind_parameters lo params
    h ← bind_parameters hi params
    ok (between x l h)
  bind_parameters (in_expr a items) params = do
    x ← bind_parameters a params
    l ← bind_items items params
    ok (in_expr x l)
  bind_parameters (like a b) params = do
    x ← bind_parameters a params
    y ← bind_parameters b params
    ok (like x y)
  bind_parameters (match_expr name a) params = do
    x ← bind_parameters a params
    ok (match_expr name x)
  bind_parameters (similar_to a k) params = do x ← bind_parameters a params; ok (similar_to x k)
  bind_parameters (search_expr name a) params = do
    x ← bind_parameters a params
    ok (search_expr name x)
  bind_parameters (score kind) params = ok (score kind)
  bind_parameters (bound_score position kind) params = ok (bound_score position kind)
  bind_parameters (call name a distinct) params = do
    x ← bind_parameters a params
    ok (call name x distinct)
  bind_parameters (call_star name distinct) params = ok (call_star name distinct)
  bind_parameters (point a b) params = do
    x ← bind_parameters a params
    y ← bind_parameters b params
    ok (point x y)
  bind_parameters (distance a b metric) params = do
    x ← bind_parameters a params
    y ← bind_parameters b params
    ok (distance x y metric)
  bind_parameters (polygon vertices) params = do l ← bind_items vertices params; ok (polygon l)
  bind_parameters (intersects a b) params = do
    x ← bind_parameters a params
    y ← bind_parameters b params
    ok (intersects x y)

  pub bind_items : Exprs → List Value → Result Exprs
  bind_items nil params = ok nil
  bind_items (cons a items) params = do
    x ← bind_parameters a params
    l ← bind_items items params
    ok (cons x l)

-- Every parameter of the expression is one of the first `n`.
unfoldable mutual
  pub Bounded : ℕ → Expr → Type 0
  Bounded n (parameter index) = (1 ≤ index) × (index ≤ n)
  Bounded n (literal v) = Unit {0}
  Bounded n (column_ref name) = Unit {0}
  Bounded n star = Unit {0}
  Bounded n (compare a op b) = Bounded n a × Bounded n b
  Bounded n (binary a op b) = Bounded n a × Bounded n b
  Bounded n (is_null a negated) = Bounded n a
  Bounded n (logical a op b) = Bounded n a × Bounded n b
  Bounded n (not_expr a) = Bounded n a
  Bounded n (between a b c) = Bounded n a × Bounded n b × Bounded n c
  Bounded n (in_expr a items) = Bounded n a × BoundedItems n items
  Bounded n (like a b) = Bounded n a × Bounded n b
  Bounded n (match_expr name a) = Bounded n a
  Bounded n (similar_to a k) = Bounded n a
  Bounded n (search_expr name a) = Bounded n a
  Bounded n (score kind) = Unit {0}
  Bounded n (bound_score position kind) = Unit {0}
  Bounded n (call name a distinct) = Bounded n a
  Bounded n (call_star name distinct) = Unit {0}
  Bounded n (point a b) = Bounded n a × Bounded n b
  Bounded n (distance a b metric) = Bounded n a × Bounded n b
  Bounded n (polygon items) = BoundedItems n items
  Bounded n (intersects a b) = Bounded n a × Bounded n b

  pub BoundedItems : ℕ → Exprs → Type 0
  BoundedItems n nil = Unit {0}
  BoundedItems n (cons a items) = Bounded n a × BoundedItems n items

parameter_value_total :
    (index : ℕ) (params : List Value)
    → 1 ≤ index
    → index ≤ length params
    → (v : Value) × (parameter_value index params ≡ ok v)
unfolding parameter_value
parameter_value_total index [] h k = absurd (omega arith)
parameter_value_total zero (v ∷ params) h k = absurd (omega arith)
parameter_value_total (suc zero) (v ∷ params) h k = (v, refl)
parameter_value_total (suc (suc index)) (v ∷ params) h k =
    parameter_value_total (suc index) params (omega arith) (omega arith)

parameter_value_bounds :
    (index : ℕ) (params : List Value) {v : Value}
    → parameter_value index params ≡ ok v
    → (1 ≤ index) × (index ≤ length params)
unfolding parameter_value
parameter_value_bounds index [] h = absurd (cc)
parameter_value_bounds zero (w ∷ params) h = absurd (cc)
parameter_value_bounds (suc zero) (w ∷ params) h = omega arith
parameter_value_bounds (suc (suc index)) (w ∷ params) h =
    omega (arith, parameter_value_bounds (suc index) params h)

mutual
  unfolding bind_parameters bind_items Bounded BoundedItems

  -- Enough parameters are put in, and none is left.
  bind_total :
      (e : Expr) (params : List Value)
      → Bounded (length params) e
      → (e' : Expr) × (bind_parameters e params ≡ ok e') × Bounded 0 e'
  bind_total (parameter index) params v =
      let (w, h) = parameter_value_total index params v.0 v.1 in (literal w, rw h refl, tt)
  bind_total (literal w) params v = (literal w, refl, tt)
  bind_total (column_ref name) params v = ((column_ref name), refl, tt)
  bind_total star params v = (star, refl, tt)
  bind_total (compare a op b) params v =
      let (x, hx, cx) = bind_total a params v.0 in
      let (y, hy, cy) = bind_total b params v.1 in ((compare x op y), rw (hx, hy) refl, (cx, cy))
  bind_total (binary a op b) params v =
      let (x, hx, cx) = bind_total a params v.0 in
      let (y, hy, cy) = bind_total b params v.1 in ((binary x op y), rw (hx, hy) refl, (cx, cy))
  bind_total (is_null a negated) params v =
      let (x, hx, cx) = bind_total a params v in ((is_null x negated), rw hx refl, cx)
  bind_total (logical a op b) params v =
      let (x, hx, cx) = bind_total a params v.0 in
      let (y, hy, cy) = bind_total b params v.1 in ((logical x op y), rw (hx, hy) refl, (cx, cy))
  bind_total (not_expr a) params v =
      let (x, hx, cx) = bind_total a params v in ((not_expr x), rw hx refl, cx)
  bind_total (between a b c) params v =
      let (x, hx, cx) = bind_total a params v.0 in
      let (y, hy, cy) = bind_total b params v.1 in
      let (z, hz, cz) = bind_total c params v.2 in
      ((between x y z), rw (hx, hy, hz) refl, (cx, cy, cz))
  bind_total (in_expr a items) params v =
      let (x, hx, cx) = bind_total a params v.0 in
      let (l, hl, cl) = bind_items_total items params v.1 in
      ((in_expr x l), rw (hx, hl) refl, (cx, cl))
  bind_total (like a b) params v =
      let (x, hx, cx) = bind_total a params v.0 in
      let (y, hy, cy) = bind_total b params v.1 in ((like x y), rw (hx, hy) refl, (cx, cy))
  bind_total (match_expr name a) params v =
      let (x, hx, cx) = bind_total a params v in ((match_expr name x), rw hx refl, cx)
  bind_total (similar_to a k) params v =
      let (x, hx, cx) = bind_total a params v in ((similar_to x k), rw hx refl, cx)
  bind_total (search_expr name a) params v =
      let (x, hx, cx) = bind_total a params v in ((search_expr name x), rw hx refl, cx)
  bind_total (score kind) params v = ((score kind), refl, tt)
  bind_total (bound_score position kind) params v = ((bound_score position kind), refl, tt)
  bind_total (call name a distinct) params v =
      let (x, hx, cx) = bind_total a params v in ((call name x distinct), rw hx refl, cx)
  bind_total (call_star name distinct) params v = ((call_star name distinct), refl, tt)
  bind_total (point a b) params v =
      let (x, hx, cx) = bind_total a params v.0 in
      let (y, hy, cy) = bind_total b params v.1 in ((point x y), rw (hx, hy) refl, (cx, cy))
  bind_total (distance a b metric) params v =
      let (x, hx, cx) = bind_total a params v.0 in
      let (y, hy, cy) = bind_total b params v.1 in
      ((distance x y metric), rw (hx, hy) refl, (cx, cy))
  bind_total (polygon items) params v =
      let (l, hl, cl) = bind_items_total items params v in ((polygon l), rw hl refl, cl)
  bind_total (intersects a b) params v =
      let (x, hx, cx) = bind_total a params v.0 in
      let (y, hy, cy) = bind_total b params v.1 in ((intersects x y), rw (hx, hy) refl, (cx, cy))

  bind_items_total :
      (items : Exprs) (params : List Value)
      → BoundedItems (length params) items
      → (l : Exprs) × (bind_items items params ≡ ok l) × BoundedItems 0 l
  bind_items_total nil params v = (nil, refl, tt)
  bind_items_total (cons a items) params v =
      let (x, hx, cx) = bind_total a params v.0 in
      let (l, hl, cl) = bind_items_total items params v.1 in (cons x l, rw (hx, hl) refl, (cx, cl))

mutual
  unfolding bind_parameters bind_items Bounded BoundedItems

  bind_bounds :
      (e : Expr) (params : List Value) (e' : Expr)
      → bind_parameters e params ≡ ok e'
      → Bounded (length params) e
  bind_bounds (parameter index) params e' h =
      let (w, hw, h1) = >>=-eq-ok (parameter_value index params) _ h in
      parameter_value_bounds index params hw
  bind_bounds (literal v) params e' h = tt
  bind_bounds (column_ref name) params e' h = tt
  bind_bounds star params e' h = tt
  bind_bounds (compare a op b) params e' h =
      let (x, hx, k0) = >>=-eq-ok (bind_parameters a params) _ h in
      let (y, hy, k1) = >>=-eq-ok (bind_parameters b params) _ k0 in
      (bind_bounds a params x hx, bind_bounds b params y hy)
  bind_bounds (binary a op b) params e' h =
      let (x, hx, k0) = >>=-eq-ok (bind_parameters a params) _ h in
      let (y, hy, k1) = >>=-eq-ok (bind_parameters b params) _ k0 in
      (bind_bounds a params x hx, bind_bounds b params y hy)
  bind_bounds (is_null a negated) params e' h =
      let (x, hx, k0) = >>=-eq-ok (bind_parameters a params) _ h in bind_bounds a params x hx
  bind_bounds (logical a op b) params e' h =
      let (x, hx, k0) = >>=-eq-ok (bind_parameters a params) _ h in
      let (y, hy, k1) = >>=-eq-ok (bind_parameters b params) _ k0 in
      (bind_bounds a params x hx, bind_bounds b params y hy)
  bind_bounds (not_expr a) params e' h =
      let (x, hx, k0) = >>=-eq-ok (bind_parameters a params) _ h in bind_bounds a params x hx
  bind_bounds (between a b c) params e' h =
      let (x, hx, k0) = >>=-eq-ok (bind_parameters a params) _ h in
      let (y, hy, k1) = >>=-eq-ok (bind_parameters b params) _ k0 in
      let (z, hz, k2) = >>=-eq-ok (bind_parameters c params) _ k1 in
      (bind_bounds a params x hx, bind_bounds b params y hy, bind_bounds c params z hz)
  bind_bounds (in_expr a items) params e' h =
      let (x, hx, k0) = >>=-eq-ok (bind_parameters a params) _ h in
      let (l, hl, k1) = >>=-eq-ok (bind_items items params) _ k0 in
      (bind_bounds a params x hx, bind_items_bounds items params l hl)
  bind_bounds (like a b) params e' h =
      let (x, hx, k0) = >>=-eq-ok (bind_parameters a params) _ h in
      let (y, hy, k1) = >>=-eq-ok (bind_parameters b params) _ k0 in
      (bind_bounds a params x hx, bind_bounds b params y hy)
  bind_bounds (match_expr name a) params e' h =
      let (x, hx, k0) = >>=-eq-ok (bind_parameters a params) _ h in bind_bounds a params x hx
  bind_bounds (similar_to a k) params e' h =
      let (x, hx, k0) = >>=-eq-ok (bind_parameters a params) _ h in bind_bounds a params x hx
  bind_bounds (search_expr name a) params e' h =
      let (x, hx, k0) = >>=-eq-ok (bind_parameters a params) _ h in bind_bounds a params x hx
  bind_bounds (score kind) params e' h = tt
  bind_bounds (bound_score position kind) params e' h = tt
  bind_bounds (call name a distinct) params e' h =
      let (x, hx, k0) = >>=-eq-ok (bind_parameters a params) _ h in bind_bounds a params x hx
  bind_bounds (call_star name distinct) params e' h = tt
  bind_bounds (point a b) params e' h =
      let (x, hx, k0) = >>=-eq-ok (bind_parameters a params) _ h in
      let (y, hy, k1) = >>=-eq-ok (bind_parameters b params) _ k0 in
      (bind_bounds a params x hx, bind_bounds b params y hy)
  bind_bounds (distance a b metric) params e' h =
      let (x, hx, k0) = >>=-eq-ok (bind_parameters a params) _ h in
      let (y, hy, k1) = >>=-eq-ok (bind_parameters b params) _ k0 in
      (bind_bounds a params x hx, bind_bounds b params y hy)
  bind_bounds (polygon items) params e' h =
      let (l, hl, k0) = >>=-eq-ok (bind_items items params) _ h in
      bind_items_bounds items params l hl
  bind_bounds (intersects a b) params e' h =
      let (x, hx, k0) = >>=-eq-ok (bind_parameters a params) _ h in
      let (y, hy, k1) = >>=-eq-ok (bind_parameters b params) _ k0 in
      (bind_bounds a params x hx, bind_bounds b params y hy)

  bind_items_bounds :
      (items : Exprs) (params : List Value) (l : Exprs)
      → bind_items items params ≡ ok l
      → BoundedItems (length params) items
  bind_items_bounds nil params l h = tt
  bind_items_bounds (cons a items) params l h =
      let (x, hx, h1) = >>=-eq-ok (bind_parameters a params) _ h in
      let (r, hr, h2) = >>=-eq-ok (bind_items items params) _ h1 in
      (bind_bounds a params x hx, bind_items_bounds items params r hr)
