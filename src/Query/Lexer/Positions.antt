-- ===== src/Query/Lexer/Positions.antt =====
-- engine/query/lexer.py: the loop ends, and the tokens follow one another in the text.
use soup_db.Common.{
  ℕ, zero, suc, ◌+◌, ◌≤◌, ◌<◌, ◌≡◌, refl, ap, subst, ◌⊎◌, inl, inr, true, Option, none, some, List,
  [], ◌∷◌, ◌++◌, Exc, Result, ok, raise, >>=-eq-ok, length, arith,
}
use soup_db.Common.Utf8.{Text}
use soup_db.Query.Lexer.{Token, TokenKind, Characters, Place, step, add, end_of, tokens, tokenize}
use soup_db.Query.Lexer.Steps.{Passed, Fair, step-Fair}

-- Every token starts behind the start of the one before, from `low` on, and before `high`.
pub InOrder : ℕ → ℕ → List Token → Type 0
InOrder low high [] = Unit
InOrder low high (t ∷ ts) =
    (low ≤ t.position) × (t.position < high) × InOrder (t.position + 1) high ts

InOrder-weaken :
    (low low' high : ℕ) (ts : List Token) → low ≤ low' → InOrder low' high ts → InOrder low high ts
unfolding InOrder
InOrder-weaken low low' high [] h o = o
InOrder-weaken low low' high (t ∷ ts) h (a, b, o) = (omega arith, b, o)

InOrder-end :
    (low high : ℕ) (ts : List Token) (t : Token)
    → low ≤ high
    → t.position ≡ high
    → InOrder low high ts
    → InOrder low (high + 1) (ts ++ (t ∷ []))
unfolding InOrder
InOrder-end low high [] t le e o = (omega (arith, e), omega (arith, e), tt)
InOrder-end low high (s ∷ ts) t le e (a, b, o) =
    (a, omega arith, InOrder-end (s.position + 1) high ts t (omega arith) e o)

-- There is a last token, and it is EOF at `high`.
pub Ends : ℕ → List Token → Type 0
Ends high [] = ⊥
Ends high (t ∷ []) = (t.kind ≡ TokenKind.eof) × (t.position ≡ high)
Ends high (t ∷ u ∷ ts) = Ends high (u ∷ ts)

Ends-end :
    (high : ℕ) (ts : List Token) (t : Token)
    → t.kind ≡ TokenKind.eof
    → t.position ≡ high
    → Ends high (ts ++ (t ∷ []))
unfolding Ends
Ends-end high [] t k e = (k, e)
Ends-end high (s ∷ []) t k e = (k, e)
Ends-end high (s ∷ u ∷ ts) t k e = Ends-end high (u ∷ ts) t k e

add-InOrder :
    (i high : ℕ) (t : Option Token) (text : Text) (q : Place) (ts : List Token)
    → Fair i text (ok (t, q))
    → high ≡ i + length text
    → InOrder q.position high ts
    → InOrder i high (add t ts)
unfolding Fair Passed InOrder
add-InOrder i high none text q ts (p, l) e o = InOrder-weaken i q.position high ts (omega arith) o
add-InOrder i high (some t) text q ts ((p, l), at) e o = (
  omega (arith, at),
  omega (arith, at, p, l, e),
  InOrder-weaken (t.position + 1) q.position high ts (omega (arith, at, l)) o,
)

Fair-Passed :
    (i : ℕ) (text : Text) (t : Option Token) (q : Place) → Fair i text (ok (t, q)) → Passed i text q
unfolding Fair
Fair-Passed i text none q f = f
Fair-Passed i text (some t) q f = f.0

Fair-split :
    (i : ℕ) (text : Text) (r : Result (Option Token × Place))
    → Fair i text r
    → ((t : Option Token) × (q : Place) × (r ≡ ok (t, q)) × Passed i text q)
      ⊎ (r ≡ raise Exc.query_parse_error)
Fair-split i text (raise e) f = inr (ap raise (unfold Fair in f))
Fair-split i text (ok (t, q)) f = inl (t, q, refl, Fair-Passed i text t q f)

module _ (characters : Characters)
    (alnum : (c : ℕ) → characters.is_alpha c ≡ true → characters.is_alnum c ≡ true) where
  tokens-InOrder :
      (fuel i : ℕ) (text : Text) {ts : List Token}
      → tokens characters fuel i text ≡ ok ts
      → InOrder i (i + length text) ts
  unfolding tokens Passed
  tokens-InOrder zero i text h = absurd cc
  tokens-InOrder (suc fuel) i [] {ts} h =
      let e : [] ≡ ts = cc in subst (InOrder i (i + 0)) e (unfold InOrder in tt)
  tokens-InOrder (suc fuel) i (c ∷ text) {ts} h =
      let ((t, q), hr, h1) = >>=-eq-ok (step characters i c text) _ h in
      let (rest, hrest, h2) = >>=-eq-ok (tokens characters fuel q.position q.text) _ h1 in
      let f : Fair i (c ∷ text) (ok (t, q)) =
        subst (Fair i (c ∷ text)) hr (step-Fair characters alnum i c text) in
      let (p, l) : Passed i (c ∷ text) q = Fair-Passed i (c ∷ text) t q f in
      let o =
        subst (λ high. InOrder q.position high rest) p
          (tokens-InOrder fuel q.position q.text hrest) in
      let e : add t rest ≡ ts = cc in
      subst (InOrder i (i + length (c ∷ text))) e (add-InOrder i _ t (c ∷ text) q rest f refl o)

  -- The tokens of a statement start one behind the other and nowhere behind its end, and there is a
  -- last one: EOF, at the end of the statement.
  pub tokenize-InOrder :
      (sql : Text) {ts : List Token}
      → tokenize characters sql ≡ ok ts
      → InOrder 0 (length sql + 1) ts × Ends (length sql) ts
  unfolding tokenize
  tokenize-InOrder sql {ts} h =
      let (rest, hrest, h1) = >>=-eq-ok (tokens characters (length sql + 1) 0 sql) _ h in
      let o : InOrder 0 (length sql) rest =
        subst (λ n. InOrder 0 n rest) (omega arith) (tokens-InOrder (length sql + 1) 0 sql hrest) in
      let e : rest ++ end_of sql ≡ ts = cc in
      subst (λ w. InOrder 0 (length sql + 1) w × Ends (length sql) w) e
        (
          InOrder-end 0 (length sql) rest _ (omega arith) refl o,
          Ends-end (length sql) rest _ refl refl,
        )

  step-ends :
      (i c : ℕ) (text : Text)
      → ((t : Option Token) × (q : Place) × (step characters i c text ≡ ok (t, q))
          × Passed i (c ∷ text) q)
        ⊎ (step characters i c text ≡ raise Exc.query_parse_error)
  step-ends i c text =
      Fair-split i (c ∷ text) (step characters i c text) (step-Fair characters alnum i c text)

  tokens_ends :
      (fuel i : ℕ) (text : Text)
      → length text < fuel
      → ((ts : List Token) × (tokens characters fuel i text ≡ ok ts))
        ⊎ (tokens characters fuel i text ≡ raise Exc.query_parse_error)
  unfolding tokens Passed
  tokens_ends zero i text h = absurd (omega arith)
  tokens_ends (suc fuel) i [] h = inl ([], refl)
  tokens_ends (suc fuel) i (c ∷ text) h = elim (step-ends i c text) [
    | inr e ↦ inr (rw e refl)
    | inl (t, q, e, (p, l)) ↦ elim (tokens_ends fuel q.position q.text (omega arith)) [
      | inl (ts, k) ↦ inl (add t ts, rw (e, k) refl)
      | inr k ↦ inr (rw (e, k) refl)
    ]
  ]

  -- Tokenizing ends on every text, with tokens or with a parse error.
  pub tokenize_ends :
      (sql : Text)
      → ((ts : List Token) × (tokenize characters sql ≡ ok ts))
        ⊎ (tokenize characters sql ≡ raise Exc.query_parse_error)
  unfolding tokenize
  tokenize_ends sql = elim (tokens_ends (length sql + 1) 0 sql (omega arith)) [
    | inl (ts, h) ↦ inl (ts ++ end_of sql, rw h refl)
    | inr h ↦ inr (rw h refl)
  ]
