-- ===== src/Query/Lexer.antt =====
-- engine/query/lexer.py and engine/query/tokens.py. A place in the source is its position and what is left
-- of the text from there. What str says of a character (isalpha, isalnum, isspace) and str.upper are
-- parameters. `tokens` runs the loop on fuel, one unit for each round.
mod Keywords
pub mod Steps
pub mod Positions
pub mod Quotes
mod Tests
use soup_db.Common.{
  ℕ, zero, suc, ◌+◌, Bool, true, false, ◌&&◌, ◌||◌, not, Option, none, some, List, [], ◌∷◌, ◌++◌,
  Exc, Result, ok, raise, ◌>>=◌, ◌>>◌, require, length, take, drop, leb, ◌==◌, if◌then◌else◌,
}
use soup_db.Common.Utf8.{Text}
use soup_db.Common.Texts.{same_text, is_one_of}
use soup_db.Query.Lexer.Keywords.{keywords, word_null, word_distancia, word_distance}

pub data TokenKind : Type 0 where
  keyword identifier number string parameter operator star null lparen rparen comma semicolon eof :
      TokenKind

pub record Token : Type 0 where
  pub kind : TokenKind
  pub value : Text
  pub position : ℕ

-- The methods of str that are called, and the keywords.
pub record Characters : Type 0 where
  pub is_alpha : ℕ → Bool
  pub is_alnum : ℕ → Bool
  pub is_space : ℕ → Bool
  pub upper : Text → Text

-- A position, and the text from there on.
pub record Place : Type 0 where
  pub position : ℕ
  pub text : Text

abbrev pub quote : ℕ
quote = 39

abbrev pub dot : ℕ
dot = 46

abbrev pub minus : ℕ
minus = 45

abbrev pub dollar : ℕ
dollar = 36

abbrev pub open_paren : ℕ
open_paren = 40

-- `_DIGITS`
unfoldable pub is_digit : ℕ → Bool
is_digit c = leb 48 c && leb c 57

-- `_WHITESPACE`
unfoldable pub is_whitespace : ℕ → Bool
is_whitespace c = c == 32 || c == 9 || c == 13 || c == 10

-- The operators of one character.
unfoldable pub is_operator : ℕ → Bool
is_operator c = c == 62 || c == 60 || c == 61 || c == 43 || c == 45 || c == 47 || c == 37

-- The operators of two characters.
unfoldable pub is_long_operator : ℕ → ℕ → Bool
is_long_operator c d =
    (c == 62 && d == 61) || (c == 60 && (d == 61 || d == 62)) || (c == 33 && d == 61)

-- `_PUNCTUATION`
unfoldable pub punctuation : ℕ → Option TokenKind
punctuation c =
    if c == 42
    then some TokenKind.star
    else if c == 40
    then some TokenKind.lparen
    else if c == 41
    then some TokenKind.rparen
    else if c == 44
    then some TokenKind.comma
    else if c == 59
    then some TokenKind.semicolon
    else none

-- `while i < len(sql) and test(sql[i])`: what is passed over, and the place behind it.
pub scan_while : (ℕ → Bool) → ℕ → Text → Text × Place
scan_while test i [] = ([], record { position = i; text = [] })
scan_while test i (c ∷ text) =
    let (word, place) = scan_while test (i + 1) text in
    if test c then (c ∷ word, place) else ([], record { position = i; text = c ∷ text })

unfoldable pub push : ℕ → Result (Text × Place) → Result (Text × Place)
push c r = r >>= λ (word, place). ok (c ∷ word, place)

-- `_scan_string`, behind the opening quote
pub scan_string : ℕ → Text → Result (Text × Place)
unfolding push
scan_string i [] = raise Exc.query_parse_error
scan_string i (c ∷ []) =
    if c == quote
    then ok ([], record { position = i + 1; text = [] })
    else raise Exc.query_parse_error
scan_string i (c ∷ d ∷ text) = elim (c == quote) [
  | true ↦ elim (d == quote) [
    | true ↦ push quote (scan_string (i + 2) text)
    | false ↦ ok ([], record { position = i + 1; text = d ∷ text })
  ]
  | false ↦ push c (scan_string (i + 1) (d ∷ text))
]

-- Whether the text begins with a character of the kind.
unfoldable pub starts_with : (ℕ → Bool) → Text → Bool
starts_with test [] = false
starts_with test (c ∷ text) = test c

-- The fraction of a number, if there is one.
unfoldable pub scan_fraction : ℕ → Text → Text × Place
scan_fraction i [] = ([], record { position = i; text = [] })
scan_fraction i (c ∷ text) =
    if c == dot
    then (let (word, place) = scan_while is_digit (i + 1) text in (c ∷ word, place))
    else ([], record { position = i; text = c ∷ text })

abbrev pub emit : TokenKind → Text → ℕ → Place → Result (Option Token × Place)
emit kind value start place =
    ok (some record { kind = kind; value = value; position = start }, place)

-- The token of a word that was scanned, with what stands in front of it.
unfoldable pub finish : TokenKind → Text → ℕ → Result (Text × Place) → Result (Option Token × Place)
finish kind sign start r = r >>= λ (word, place). emit kind (sign ++ word) start place

-- A sign as a token, or what comes of the text otherwise.
unfoldable pub mark :
    Option TokenKind → ℕ → ℕ → Text → Result (Option Token × Place) → Result (Option Token × Place)
mark (some kind) i c text r = emit kind (c ∷ []) i record { position = i + 1; text = text }
mark none i c text r = r

abbrev pub add : Option Token → List Token → List Token
add none rest = rest
add (some t) rest = t ∷ rest

-- The EOF token.
abbrev pub end_of : Text → List Token
end_of sql = record { kind = TokenKind.eof; value = []; position = length sql } ∷ []

module _ (characters : Characters) where
  -- `_is_identifier_start`
  unfoldable pub is_identifier_start : ℕ → Bool
  is_identifier_start c = c == 95 || characters.is_alpha c

  -- `_is_identifier_part`
  unfoldable pub is_identifier_part : ℕ → Bool
  is_identifier_part c = c == 95 || characters.is_alnum c

  -- `_opens_call`
  unfoldable pub opens_call : Text → Bool
  unfolding starts_with
  opens_call text =
      starts_with (λ c. c == open_paren) (scan_while characters.is_space 0 text).1.text

  -- `_scan_number`
  unfoldable pub scan_number : ℕ → Text → Result (Text × Place)
  unfolding scan_fraction starts_with is_identifier_start
  scan_number i text =
      let (whole, p) = scan_while is_digit i text in
      let (fraction, q) = scan_fraction p.position p.text in
      require (not (starts_with (λ c. c == dot || is_identifier_start c) q.text))
        Exc.query_parse_error
      >> ok (whole ++ fraction, q)

  -- A word as a token: a keyword in capitals, NULL, or an identifier.
  unfoldable pub word_token : Text → ℕ → Text → Token
  unfolding same_text is_one_of
  word_token word start after =
      let upper = characters.upper word in
      let name =
        if same_text upper word_distancia && opens_call after then word_distance else upper in
      if same_text name word_null
      then record { kind = TokenKind.null; value = name; position = start }
      else if is_one_of name keywords
      then record { kind = TokenKind.keyword; value = name; position = start }
      else record { kind = TokenKind.identifier; value = word; position = start }

  -- A word, or an error.
  unfoldable pub step_word : ℕ → ℕ → Text → Result (Option Token × Place)
  unfolding is_identifier_start is_identifier_part word_token
  step_word i c text =
      if is_identifier_start c
      then (let (word, place) = scan_while is_identifier_part i (c ∷ text) in
          ok (some (word_token word i place.text), place))
      else raise Exc.query_parse_error

  -- An operator, a sign or a word.
  unfoldable pub step_symbol : ℕ → ℕ → Text → Result (Option Token × Place)
  unfolding is_operator is_long_operator punctuation starts_with mark step_word
  step_symbol i c text =
      if starts_with (is_long_operator c) text
      then emit TokenKind.operator (c ∷ take 1 text) i
          record { position = i + 2; text = drop 1 text }
      else if is_operator c
      then emit TokenKind.operator (c ∷ []) i record { position = i + 1; text = text }
      else mark (punctuation c) i c text (step_word i c text)

  -- One round of the loop, at the character `c`: the token, if one ends, and where to go on.
  unfoldable pub step : ℕ → ℕ → Text → Result (Option Token × Place)
  unfolding is_whitespace is_digit starts_with scan_string scan_number scan_while finish step_symbol
  step i c text =
      if is_whitespace c
      then ok (none, record { position = i + 1; text = text })
      else if c == quote
      then finish TokenKind.string [] i (scan_string (i + 1) text)
      else if is_digit c
      then finish TokenKind.number [] i (scan_number i (c ∷ text))
      else if c == minus && starts_with is_digit text
      then finish TokenKind.number (minus ∷ []) i (scan_number (i + 1) text)
      else if c == dollar && starts_with is_digit text
      then finish TokenKind.parameter [] i (ok (scan_while is_digit (i + 1) text))
      else step_symbol i c text

  pub tokens : ℕ → ℕ → Text → Result (List Token)
  unfolding step
  tokens zero i text = raise Exc.runtime_error
  tokens (suc fuel) i [] = ok []
  tokens (suc fuel) i (c ∷ text) = do
    (t, place) ← step i c text
    ts ← tokens fuel place.position place.text
    ok (add t ts)

  -- `tokenize`
  unfoldable pub tokenize : Text → Result (List Token)
  unfolding tokens
  tokenize sql = do ts ← tokens (length sql + 1) 0 sql; ok (ts ++ end_of sql)
