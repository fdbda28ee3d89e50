-- ===== src/Query/Lexer/Steps.antt =====
-- engine/query/lexer.py: what each round of the loop passes over, and how it fails.
use soup_db.Common.{
  ℕ, ◌+◌, ◌≤◌, ◌<◌, ◌≡◌, refl, inl, inr, Bool, true, false, ◌&&◌, Option, none, some, [], ◌∷◌, Exc,
  Result, ok, raise, ◌>>◌, require, length, drop, ◌==◌, Bool-cases, if◌then◌else◌, arith,
}
use soup_db.Common.Utf8.{Text}
use soup_db.Query.Lexer.{
  TokenKind, Token, Characters, Place, quote, dot, minus, dollar, is_digit, is_whitespace,
  is_operator, is_long_operator, punctuation, scan_while, push, scan_string, starts_with,
  is_identifier_start, is_identifier_part, scan_fraction, scan_number, word_token, finish, mark,
  step_word, step_symbol, step,
}

-- The place `q` is reached from the place of `text` at `i`.
pub Reached : ℕ → Text → Place → Type 0
Reached i text q = (q.position + length q.text ≡ i + length text) × (i ≤ q.position)

-- The same, and at least one character has been passed.
unfoldable pub Passed : ℕ → Text → Place → Type 0
Passed i text q = (q.position + length q.text ≡ i + length text) × (i < q.position)

pub scan_while-Reached :
    (test : ℕ → Bool) (i : ℕ) (text : Text) → Reached i text (scan_while test i text).1
unfolding scan_while Reached
scan_while-Reached test i [] = (refl, omega arith)
scan_while-Reached test i (c ∷ text) =
    let (e, le) = scan_while-Reached test (i + 1) text in
    elim (Bool-cases (test c)) [
      | inl t ↦ rw t (omega (arith, e), omega (arith, le))
      | inr t ↦ rw t (refl, omega arith)
    ]

-- A first character of the kind is passed over.
pub scan_while-Passed :
    (test : ℕ → Bool) (i c : ℕ) (text : Text)
    → test c ≡ true
    → Passed i (c ∷ text) (scan_while test i (c ∷ text)).1
unfolding scan_while Passed Reached
scan_while-Passed test i c text t =
    let (e, le) : Reached (i + 1) text (scan_while test (i + 1) text).1 =
      scan_while-Reached test (i + 1) text in
    rw t (omega (arith, e), omega (arith, le))

-- A result of scanning: a parse error, or a place with the property.
pub Scanned : (Place → Type 0) → Result (Text × Place) → Type 0
Scanned P (raise e) = e ≡ Exc.query_parse_error
Scanned P (ok (word, q)) = P q

-- A result of a round at `i`: a parse error, or a place behind and, if there is a token, it is at `i`.
unfoldable pub Fair : ℕ → Text → Result (Option Token × Place) → Type 0
Fair i text (raise e) = e ≡ Exc.query_parse_error
Fair i text (ok (none, q)) = Passed i text q
Fair i text (ok (some t, q)) = Passed i text q × (t.position ≡ i)

branch {ℓ κ} :
    {A : Type ℓ} (P : A → Type κ) (b : Bool) {x y : A}
    → (b ≡ true → P x)
    → (b ≡ false → P y)
    → P (if b then x else y)
branch P true f g = f refl
branch P false f g = g refl

-- A place behind the first character.
behind : (i c : ℕ) (text : Text) (q : Place) → Reached (i + 1) text q → Passed i (c ∷ text) q
unfolding Reached Passed
behind i c text q (e, le) = (omega (arith, e), omega (arith, le))

push-Scanned :
    (P : Place → Type 0) (c : ℕ) (r : Result (Text × Place)) → Scanned P r → Scanned P (push c r)
unfolding Scanned push
push-Scanned P c (raise e) h = h
push-Scanned P c (ok (word, q)) h = h

Scanned-map :
    (P Q : Place → Type 0) (r : Result (Text × Place))
    → ((q : Place) → P q → Q q)
    → Scanned P r
    → Scanned Q r
unfolding Scanned
Scanned-map P Q (raise e) f h = h
Scanned-map P Q (ok (word, q)) f h = f q h

Reached-trans :
    (i : ℕ) (text : Text) (p q : Place)
    → Reached i text p
    → Reached p.position p.text q
    → Reached i text q
unfolding Reached
Reached-trans i text p q (e, le) (e', le') = (omega (arith, e, e'), omega (arith, le, le'))

Passed-Reached :
    (i : ℕ) (text : Text) (p q : Place)
    → Passed i text p
    → Reached p.position p.text q
    → Passed i text q
unfolding Reached Passed
Passed-Reached i text p q (e, le) (e', le') = (omega (arith, e, e'), omega (arith, le, le'))

scan_string-Scanned : (i : ℕ) (text : Text) → Scanned (Reached i text) (scan_string i text)
unfolding scan_string Scanned Reached
scan_string-Scanned i [] = refl
scan_string-Scanned i (c ∷ []) = elim (Bool-cases (c == quote)) [
  | inl t ↦ rw t (omega arith, omega arith)
  | inr t ↦ rw t refl
]
scan_string-Scanned i (c ∷ d ∷ text) = elim (Bool-cases (c == quote)) [
  | inl t ↦ elim (Bool-cases (d == quote)) [
    | inl u ↦
        rw (scan_string, t, u)
          (push-Scanned (Reached i (c ∷ d ∷ text)) quote _ (
            Scanned-map (Reached (i + 2) text) (Reached i (c ∷ d ∷ text)) _
              (λ q (e, le). (omega (arith, e), omega (arith, le)))
              (scan_string-Scanned (i + 2) text)))
    | inr u ↦ rw (scan_string, t, u) (omega arith, omega arith)
  ]
  | inr t ↦
      rw (scan_string, t)
        (push-Scanned (Reached i (c ∷ d ∷ text)) c _ (
          Scanned-map (Reached (i + 1) (d ∷ text)) (Reached i (c ∷ d ∷ text)) _
            (λ q (e, le). (omega (arith, e), omega (arith, le)))
            (scan_string-Scanned (i + 1) (d ∷ text))))
]

scan_fraction-Reached : (i : ℕ) (text : Text) → Reached i text (scan_fraction i text).1
unfolding scan_fraction Reached
scan_fraction-Reached i [] = (refl, omega arith)
scan_fraction-Reached i (c ∷ text) =
    let (e, le) = scan_while-Reached is_digit (i + 1) text in
    branch (λ (r : Text × Place). Reached i (c ∷ text) r.1) (c == dot)
      (λ _. (omega (arith, e), omega (arith, le))) (λ _. (refl, omega arith))

require-Scanned :
    (P : Place → Type 0) (b : Bool) (word : Text) (q : Place)
    → P q
    → Scanned P (require b Exc.query_parse_error >> ok (word, q))
unfolding Scanned
require-Scanned P true word q h = h
require-Scanned P false word q h = refl

module _ (characters : Characters) where
  scan_number-Scanned :
      (P : Place → Type 0) (i : ℕ) (text : Text)
      → ((q : Place)
          → Reached (scan_while is_digit i text).1.position (scan_while is_digit i text).1.text q
          → P q)
      → Scanned P (scan_number characters i text)
  unfolding scan_number
  scan_number-Scanned P i text f =
      let p = (scan_while is_digit i text).1 in
      require-Scanned P _ _ (scan_fraction p.position p.text).1
        (f (scan_fraction p.position p.text).1 (scan_fraction-Reached p.position p.text))

  finish-Fair :
      (kind : TokenKind) (sign : Text) (i : ℕ) (text : Text) (r : Result (Text × Place))
      → Scanned (Passed i text) r
      → Fair i text (finish kind sign i r)
  unfolding finish Fair Scanned
  finish-Fair kind sign i text (raise e) h = h
  finish-Fair kind sign i text (ok (word, q)) h = (h, refl)

  word_token-position :
      (word : Text) (i : ℕ) (after : Text) → (word_token characters word i after).position ≡ i
  unfolding word_token
  word_token-position word i after = ground arith

  mark-Fair :
      (sign : Option TokenKind) (i c : ℕ) (text : Text) (r : Result (Option Token × Place))
      → Fair i (c ∷ text) r
      → Fair i (c ∷ text) (mark sign i c text r)
  unfolding mark Fair Passed
  mark-Fair none i c text r h = h
  mark-Fair (some kind) i c text r h = ((omega arith, omega arith), refl)

  module _ (alnum : (c : ℕ) → characters.is_alpha c ≡ true → characters.is_alnum c ≡ true) where
    part_of_start :
        (c : ℕ) → is_identifier_start characters c ≡ true → is_identifier_part characters c ≡ true
    unfolding is_identifier_start is_identifier_part
    part_of_start c h = ground (arith, alnum c)

    step_word-Fair : (i c : ℕ) (text : Text) → Fair i (c ∷ text) (step_word characters i c text)
    unfolding step_word Fair
    step_word-Fair i c text =
        branch (Fair i (c ∷ text)) (is_identifier_start characters c)
          (λ h. (
            scan_while-Passed (is_identifier_part characters) i c text (part_of_start c h),
            word_token-position _ i _,
          ))
          (λ _. refl)

    long-Fair :
        (i c : ℕ) (text : Text)
        → starts_with (is_long_operator c) text ≡ true
        → Passed i (c ∷ text) record { position = i + 2; text = drop 1 text }
    unfolding starts_with Passed
    long-Fair i c [] h = absurd cc
    long-Fair i c (d ∷ text) h = (omega arith, omega arith)

    one-Passed :
        (i c : ℕ) (text : Text) → Passed i (c ∷ text) record { position = i + 1; text = text }
    unfolding Passed
    one-Passed i c text = (omega arith, omega arith)

    step_symbol-Fair : (i c : ℕ) (text : Text) → Fair i (c ∷ text) (step_symbol characters i c text)
    unfolding step_symbol Fair
    step_symbol-Fair i c text =
        branch (Fair i (c ∷ text)) (starts_with (is_long_operator c) text)
          (λ h. (long-Fair i c text h, refl))
          (λ _.
            branch (Fair i (c ∷ text)) (is_operator c) (λ _. (one-Passed i c text, refl))
              (λ _. mark-Fair (punctuation c) i c text _ (step_word-Fair i c text)))

    -- A round fails with a parse error, or goes on behind its character.
    pub step-Fair : (i c : ℕ) (text : Text) → Fair i (c ∷ text) (step characters i c text)
    unfolding step
    step-Fair i c text =
        branch (Fair i (c ∷ text)) (is_whitespace c) (λ _. unfold Fair in one-Passed i c text)
          (λ _.
            branch (Fair i (c ∷ text)) (c == quote)
              (λ _. finish-Fair TokenKind.string [] i (c ∷ text) _ (
                Scanned-map (Reached (i + 1) text) (Passed i (c ∷ text)) _ (behind i c text)
                  (scan_string-Scanned (i + 1) text)))
              (λ _.
                branch (Fair i (c ∷ text)) (is_digit c)
                  (λ h. finish-Fair TokenKind.number [] i (c ∷ text) _ (
                    scan_number-Scanned (Passed i (c ∷ text)) i (c ∷ text) (λ q.
                      Passed-Reached i (c ∷ text) _ q (scan_while-Passed is_digit i c text h))))
                  (λ _.
                    branch (Fair i (c ∷ text)) (c == minus && starts_with is_digit text)
                      (λ _. finish-Fair TokenKind.number (minus ∷ []) i (c ∷ text) _ (
                        scan_number-Scanned (Passed i (c ∷ text)) (i + 1) text (λ q r.
                          behind i c text q (
                            Reached-trans (i + 1) text _ q
                              (scan_while-Reached is_digit (i + 1) text) r))))
                      (λ _.
                        branch (Fair i (c ∷ text)) (c == dollar && starts_with is_digit text)
                          (λ _.
                            finish-Fair TokenKind.parameter [] i (c ∷ text)
                              (ok (scan_while is_digit (i + 1) text))
                              (unfold Scanned in
                                behind i c text _ (scan_while-Reached is_digit (i + 1) text)))
                          (λ _. step_symbol-Fair i c text)))))
