-- ===== src/Query/Lexer/Quotes.antt =====
-- engine/query/lexer.py reads the string literals that engine/query/format_expr.py writes.
use soup_db.Common.{
  ℕ, zero, suc, ◌+◌, ◌≡◌, ◌≤◌, refl, ap, ◌∙◌, false, inl, inr, [], ◌∷◌, ◌++◌, Result, ok, length,
  length-append, ◌==◌, Bool-cases, arith,
}
use soup_db.Common.Utf8.{Text}
use soup_db.Values.{Value}
use soup_db.Query.Ast.{literal}
use soup_db.Query.Format.{Str, double_quotes, quoted, format_literal, format_expr}
use soup_db.Query.Lexer.{
  TokenKind, Characters, Place, quote, push, scan_string, is_whitespace, finish, step, end_of,
  tokens, tokenize,
}

scan_quote :
    (i : ℕ) (text : Text)
    → scan_string i (quote ∷ quote ∷ text) ≡ push quote (scan_string (i + 2) text)
unfolding scan_string
scan_quote i text = refl

cons_of_append :
    (text after : Text) (d : ℕ) → (e : ℕ) × (tail : Text) × (text ++ (d ∷ after) ≡ e ∷ tail)
cons_of_append [] after d = (d, after, refl)
cons_of_append (c ∷ text) after d = (c, text ++ (d ∷ after), refl)

scan_char :
    (i c : ℕ) (text : Text)
    → (c == quote) ≡ false
    → (d : ℕ) × (tail : Text) × (text ≡ d ∷ tail)
    → scan_string i (c ∷ text) ≡ push c (scan_string (i + 1) text)
unfolding scan_string
scan_char i c text h (d, tail, e) = rw (e, scan_string, h) refl

-- The end of a literal: the text is over, or goes on with something else than a quote.
pub NoQuote : Text → Type 0
NoQuote [] = Unit
NoQuote (c ∷ text) = (c == quote) ≡ false

scan_end :
    (i : ℕ) (after : Text)
    → NoQuote after
    → scan_string i (quote ∷ after) ≡ ok ([], record { position = i + 1; text = after })
unfolding scan_string NoQuote
scan_end i [] h = refl
scan_end i (c ∷ after) h = rw (scan_string, h) refl

at_place :
    {c d : ℕ} {text after : Text} {m n : ℕ}
    → c ≡ d
    → m ≡ n
    → ◌≡◌ {A = Result (Text × Place)}
        (ok (c ∷ text, record { position = m; text = after }))
        (ok (d ∷ text, record { position = n; text = after }))
at_place e h = rw (e, h) refl

-- What stands between the quotes is read back.
pub scan_string-double_quotes :
    (i : ℕ) (text after : Text)
    → NoQuote after
    → scan_string i (double_quotes text ++ (quote ∷ after))
      ≡ ok (text, record { position = i + length (double_quotes text) + 1; text = after })
unfolding double_quotes push
scan_string-double_quotes i [] after h =
    scan_end i after h ∙ ap (λ n. ok ([], record { position = n; text = after })) (omega arith)
scan_string-double_quotes i (c ∷ text) after h = elim (Bool-cases (c == quote)) [
  | inl t ↦
      let e : quote ≡ c = ground (arith, t) in
      let k = scan_string-double_quotes (i + 2) text after h in
      rw (t, scan_quote i (double_quotes text ++ (quote ∷ after)), k) (at_place e (omega arith))
  | inr t ↦
      let k = scan_string-double_quotes (i + 1) text after h in
      rw (t, scan_char i c _ t (cons_of_append (double_quotes text) after quote), k)
        (at_place refl (omega arith))
]

NoQuote-nil : NoQuote []
unfolding NoQuote
NoQuote-nil = tt

tokens-nil : (characters : Characters) (fuel i : ℕ) → 1 ≤ fuel → tokens characters fuel i [] ≡ ok []
unfolding tokens
tokens-nil characters zero i h = absurd (omega arith)
tokens-nil characters (suc fuel) i h = refl

-- A statement that is one string.
tokens-string :
    (characters : Characters) (fuel : ℕ) (text content : Text) (end : ℕ)
    → 2 ≤ fuel
    → scan_string 1 text ≡ ok (content, record { position = end; text = [] })
    → tokens characters fuel 0 (quote ∷ text)
      ≡ ok (record { kind = TokenKind.string; value = content; position = 0 } ∷ [])
unfolding tokens step is_whitespace finish
tokens-string characters zero text content end h k = absurd (omega arith)
tokens-string characters (suc fuel) text content end h k =
    rw (k, tokens-nil characters fuel end (omega arith)) refl

-- What format_expr writes for a string, tokenize reads as that one string, whatever characters it has,
-- quotes included.
pub tokenize-format_expr :
    (characters : Characters) (str : Str) (text : Text)
    → let sql = format_expr str (literal (Value.text text)) in
      tokenize characters sql
      ≡ ok (record { kind = TokenKind.string; value = text; position = 0 } ∷ end_of sql)
unfolding tokenize tokens format_expr format_literal quoted
tokenize-format_expr characters str text =
    let k = scan_string-double_quotes 1 text [] NoQuote-nil in
    rw
      (tokens-string characters (length (quoted text) + 1) (double_quotes text ++ (quote ∷ [])) text
        (1 + length (double_quotes text) + 1)
        (omega (arith, length-append (double_quotes text) (quote ∷ []))) k)
      refl
