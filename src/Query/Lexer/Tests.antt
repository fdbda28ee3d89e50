-- ===== src/Query/Lexer/Tests.antt =====
-- Runs of engine/query/lexer.py on ASCII texts.
use soup_db.Common.{
  ℕ, ◌+◌, ◌-◌, ◌≡◌, refl, ◌⊎◌, Bool, true, ◌&&◌, ◌||◌, List, [], ◌∷◌, map, Exc, ok, raise, length,
  leb, ◌==◌, if◌then◌else◌,
}
use soup_db.Common.Utf8.{Text}
use soup_db.Values.{Value}
use soup_db.Query.Ast.{literal}
use soup_db.Query.Format.{Str, format_expr}
use soup_db.Query.Lexer.{TokenKind, Token, Characters, tokenize, end_of}
use soup_db.Query.Lexer.Positions.{InOrder, Ends, tokenize-InOrder, Ends, tokenize_ends}
use soup_db.Query.Lexer.Quotes.{tokenize-format_expr}

abbrev is_letter : ℕ → Bool
is_letter c = (leb 65 c && leb c 90) || (leb 97 c && leb c 122)

abbrev capital : ℕ → ℕ
capital c = if leb 97 c && leb c 122 then c - 32 else c

abbrev ascii : Characters
ascii = record {
  is_alpha = is_letter;
  is_alnum = λ c. is_letter c || (leb 48 c && leb c 57);
  is_space = λ c. c == 32 || (leb 9 c && leb c 13);
  upper = map capital;
}

ascii_alnum : (c : ℕ) → ascii.is_alpha c ≡ true → ascii.is_alnum c ≡ true
ascii_alnum c h = rw h refl

-- `a >=-1 in`
abbrev statement : Text
statement = 97 ∷ 32 ∷ 62 ∷ 61 ∷ 45 ∷ 49 ∷ 32 ∷ 105 ∷ 110 ∷ []

abbrev statement_tokens : List Token
statement_tokens =
    record { kind = TokenKind.identifier; value = 97 ∷ []; position = 0 }
    ∷ record { kind = TokenKind.operator; value = 62 ∷ 61 ∷ []; position = 2 }
    ∷ record { kind = TokenKind.number; value = 45 ∷ 49 ∷ []; position = 4 }
    ∷ record { kind = TokenKind.keyword; value = 73 ∷ 78 ∷ []; position = 7 }
    ∷ end_of statement

statement_lem : tokenize ascii statement ≡ ok statement_tokens
unfolding tokenize
statement_lem = refl

tokenize-InOrder_example :
    InOrder 0 (length statement + 1) statement_tokens × Ends (length statement) statement_tokens
tokenize-InOrder_example = tokenize-InOrder ascii ascii_alnum statement statement_lem

tokenize_ends_example :
    ((ts : List Token) × (tokenize ascii statement ≡ ok ts))
    ⊎ (tokenize ascii statement ≡ raise Exc.query_parse_error)
tokenize_ends_example = tokenize_ends ascii ascii_alnum statement

abbrev str : Str
str = record { of_value = λ v. []; of_parameter = λ index. [] }

-- `it's`
abbrev its : Text
its = 105 ∷ 116 ∷ 39 ∷ 115 ∷ []

tokenize-format_expr_example :
    let sql = format_expr str (literal (Value.text its)) in
    tokenize ascii sql
    ≡ ok (record { kind = TokenKind.string; value = its; position = 0 } ∷ end_of sql)
tokenize-format_expr_example = tokenize-format_expr ascii str its
