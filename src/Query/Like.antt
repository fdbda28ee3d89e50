-- ===== src/Query/Like.antt =====
-- engine/query/evaluator.py, `_like`: the regular expression that it builds, matched the way `re.match`
-- does: `.` is any character but a newline, and `$` also matches before a newline that ends the text.
mod Tests
use soup_db.Common.{
  ℕ, ◌≡◌, refl, sym, ap, subst, ◌∙◌, ◌≢◌, ◌↔◌, ◌⊎◌, inl, inr, Bool, true, false, ◌&&◌, ◌||◌, not,
  List, [], ◌∷◌, ◌++◌, All, ◌==◌, Bool-cases, ==_iff, ℕ_discrete, if◌then◌else◌, arith,
}
use soup_db.Common.Utf8.{Text}

abbrev percent : ℕ
percent = 37

abbrev underscore : ℕ
underscore = 95

abbrev pub newline : ℕ
newline = 10

-- `$`
unfoldable pub at_end : Text → Bool
at_end [] = true
at_end (x ∷ []) = x == newline
at_end text = false

-- `.*` in front of what `rest` matches.
pub skip : (Text → Bool) → Text → Bool
skip rest [] = rest []
skip rest (x ∷ text) = rest (x ∷ text) || (not (x == newline) && skip rest text)

-- `.`
unfoldable pub any_char : (Text → Bool) → Text → Bool
any_char rest [] = false
any_char rest (x ∷ text) = not (x == newline) && rest text

unfoldable pub one_char : ℕ → (Text → Bool) → Text → Bool
one_char c rest [] = false
one_char c rest (x ∷ text) = x == c && rest text

pub like_match : Text → Text → Bool
unfolding at_end skip any_char one_char
like_match [] text = at_end text
like_match (c ∷ pattern) text =
    let rest = like_match pattern in
    if c == percent
    then skip rest text
    else if c == underscore
    then any_char rest text
    else one_char c rest text

-- What SQL means: `%` is any text, `_` any character, and any other character itself.
pub Matches : Text → Text → Type 0
Matches [] text = text ≡ []
Matches (c ∷ pattern) text =
    ((c ≡ percent) × ((skipped rest : Text) × (text ≡ skipped ++ rest) × Matches pattern rest))
    ⊎ ((c ≡ underscore) × ((x : ℕ) × (rest : Text) × (text ≡ x ∷ rest) × Matches pattern rest))
    ⊎ ((c ≢ percent)
        × (c ≢ underscore)
        × ((rest : Text) × (text ≡ c ∷ rest) × Matches pattern rest))

abbrev pub OneLine : Text → Type 0
OneLine text = All (λ x. x ≢ newline) text

at_end_iff : (text : Text) → OneLine text → (at_end text ≡ true) ↔ (text ≡ [])
unfolding at_end
at_end_iff [] v = (λ h. refl, λ h. refl)
at_end_iff (x ∷ []) v = (λ h. absurd (v.0 (ground arith)), λ h. cc)
at_end_iff (x ∷ (y ∷ text)) v = (λ h. cc, λ h. cc)

module _ (rest : Text → Bool) (P : Text → Type 0)
    (same : (text : Text) → OneLine text → (rest text ≡ true) ↔ P text) where
  skip_sound :
      (text : Text)
      → OneLine text
      → skip rest text ≡ true
      → (skipped left : Text) × (text ≡ skipped ++ left) × P left
  unfolding skip
  skip_sound [] v h = ([], [], refl, (same [] v).0 h)
  skip_sound (x ∷ text) v h = elim (Bool-cases (rest (x ∷ text))) [
    | inl here ↦ ([], x ∷ text, refl, (same (x ∷ text) v).0 here)
    | inr later ↦
        let (skipped, left, e, p) = skip_sound text v.1 (ground (arith, h)) in
        (x ∷ skipped, left, ap (◌∷◌ x) e, p)
  ]

  skip_complete :
      (skipped left : Text)
      → OneLine (skipped ++ left)
      → P left
      → skip rest (skipped ++ left) ≡ true
  unfolding skip
  skip_complete [] [] v p = (same [] v).1 p
  skip_complete [] (x ∷ left) v p = let here = (same (x ∷ left) v).1 p in rw here refl
  skip_complete (x ∷ skipped) left v p =
      let later : skip rest (skipped ++ left) ≡ true = skip_complete skipped left v.1 p in
      let plain : (x == newline) ≡ false = ground (arith, v.0) in ground (arith, later, plain)

OneLine-left : (skipped left : Text) → OneLine (skipped ++ left) → OneLine left
OneLine-left [] left v = v
OneLine-left (x ∷ skipped) left v = OneLine-left skipped left v.1

like_percent :
    (c : ℕ) (pattern text : Text)
    → c ≡ percent
    → like_match (c ∷ pattern) text ≡ skip (like_match pattern) text
unfolding like_match
like_percent c pattern text p = rw p refl

like_underscore :
    (c : ℕ) (pattern text : Text)
    → c ≡ underscore
    → like_match (c ∷ pattern) text ≡ any_char (like_match pattern) text
unfolding like_match
like_underscore c pattern text p = rw p refl

like_char :
    (c : ℕ) (pattern text : Text)
    → c ≢ percent
    → c ≢ underscore
    → like_match (c ∷ pattern) text ≡ one_char c (like_match pattern) text
unfolding like_match
like_char c pattern text p q =
    let p1 : (c == percent) ≡ false = ground arith in
    let q1 : (c == underscore) ≡ false = ground arith in rw (p1, q1) refl

module _ (rest : Text → Bool) (P : Text → Type 0)
    (same : (text : Text) → OneLine text → (rest text ≡ true) ↔ P text) where
  any_char_iff :
      (text : Text)
      → OneLine text
      → (any_char rest text ≡ true) ↔ ((x : ℕ) × (left : Text) × (text ≡ x ∷ left) × P left)
  unfolding any_char
  any_char_iff [] v = (λ h. absurd (cc), λ (x, left, e, p). absurd (cc))
  any_char_iff (x ∷ text) v =
      let plain : (x == newline) ≡ false = ground (arith, v.0) in
      (
        λ h. (x, text, refl, (same text v.1).0 (ground (arith, h))),
        λ (y, left, e, p).
            let tail : left ≡ text = cc in
            let r : rest text ≡ true = (same text v.1).1 (subst P tail p) in rw (plain, r) refl,
      )

  one_char_iff :
      (c : ℕ) (text : Text)
      → OneLine text
      → (one_char c rest text ≡ true) ↔ ((left : Text) × (text ≡ c ∷ left) × P left)
  unfolding one_char
  one_char_iff c [] v = (λ h. absurd (cc), λ (left, e, p). absurd (cc))
  one_char_iff c (x ∷ text) v = (
    λ h.
        let first : x ≡ c = ground (arith, h) in
        (text, ap (λ y. y ∷ text) first, (same text v.1).0 (ground (arith, h))),
    λ (left, e, p).
        let tail : left ≡ text = cc in
        let first : (x == c) ≡ true = ground (arith, e) in
        let r : rest text ≡ true = (same text v.1).1 (subst P tail p) in rw (first, r) refl,
  )

-- On a text without a newline LIKE means what SQL says.
pub like_match_iff :
    (pattern text : Text) → OneLine text → (like_match pattern text ≡ true) ↔ Matches pattern text
unfolding Matches
like_match_iff [] text v = unfold like_match in at_end_iff text v
like_match_iff (c ∷ pattern) text v =
    let same : (t : Text) → OneLine t → (like_match pattern t ≡ true) ↔ Matches pattern t =
      λ t w. like_match_iff pattern t w in
    elim (ℕ_discrete c percent) [
      | yes p ↦
          let e = like_percent c pattern text p in
          (
            λ h. inl (p, skip_sound (like_match pattern) (Matches pattern) same text v (sym e ∙ h)),
            λ m. elim m [
              | inl (_, (skipped, left, t, w)) ↦
                  e
                  ∙ subst (λ u. skip (like_match pattern) u ≡ true) (sym t)
                      (skip_complete (like_match pattern) (Matches pattern) same skipped left
                        (subst OneLine t v) w)
              | inr (inl (q, _)) ↦ absurd (omega arith)
              | inr (inr (n, _, _)) ↦ absurd (n p)
            ],
          )
      | no p ↦ elim (ℕ_discrete c underscore) [
        | yes q ↦
            let e = like_underscore c pattern text q in
            let i = any_char_iff (like_match pattern) (Matches pattern) same text v in
            (
              λ h. inr (inl (q, i.0 (sym e ∙ h))),
              λ m. elim m [
                | inl (r, _) ↦ absurd (p r)
                | inr (inl (_, w)) ↦ e ∙ i.1 w
                | inr (inr (_, n, _)) ↦ absurd (n q)
              ],
            )
        | no q ↦
            let e = like_char c pattern text p q in
            let i = one_char_iff (like_match pattern) (Matches pattern) same c text v in
            (
              λ h. inr (inr (p, q, i.0 (sym e ∙ h))),
              λ m. elim m [
                | inl (r, _) ↦ absurd (p r)
                | inr (inl (r, _)) ↦ absurd (q r)
                | inr (inr (_, _, w)) ↦ e ∙ i.1 w
              ],
            )
      ]
    ]

abbrev pub with_newline : Text → Text
with_newline text = text ++ (newline ∷ [])

module _ (rest : Text → Bool)
    (grows : (text : Text)
      → OneLine text
      → rest text ≡ true
      → rest (with_newline text) ≡ true) where
  skip_newline :
      (text : Text) → OneLine text → skip rest text ≡ true → skip rest (with_newline text) ≡ true
  unfolding skip
  skip_newline [] v h = let r = grows [] v h in rw r refl
  skip_newline (x ∷ text) v h = elim (Bool-cases (rest (x ∷ text))) [
    | inl here ↦ let r = grows (x ∷ text) v here in rw r refl
    | inr later ↦
        let plain : (x == newline) ≡ false = ground (arith, v.0) in
        let r = skip_newline text v.1 (ground (arith, h)) in ground (arith, plain, r)
  ]

  any_char_newline :
      (text : Text)
      → OneLine text
      → any_char rest text ≡ true
      → any_char rest (with_newline text) ≡ true
  unfolding any_char
  any_char_newline [] v h = absurd (cc)
  any_char_newline (x ∷ text) v h = ground (arith, grows text v.1)

  one_char_newline :
      (c : ℕ) (text : Text)
      → OneLine text
      → one_char c rest text ≡ true
      → one_char c rest (with_newline text) ≡ true
  unfolding one_char
  one_char_newline c [] v h = absurd (cc)
  one_char_newline c (x ∷ text) v h = ground (arith, grows text v.1)

-- A pattern that LIKE matches with a text without newlines, it also matches with that text and a
-- newline at its end.
pub like_match_newline :
    (pattern text : Text)
    → OneLine text
    → like_match pattern text ≡ true
    → like_match pattern (with_newline text) ≡ true
like_match_newline [] [] v h = unfold like_match in refl
like_match_newline [] (x ∷ text) v h =
    absurd (cc ((at_end_iff (x ∷ text) v).0 (unfold like_match in h)))
like_match_newline (c ∷ pattern) text v h =
    let grows : (t : Text)
        → OneLine t
        → like_match pattern t ≡ true
        → like_match pattern (with_newline t) ≡ true =
      λ t w k. like_match_newline pattern t w k in
    elim (ℕ_discrete c percent) [
      | yes p ↦
          like_percent c pattern (with_newline text) p
          ∙ skip_newline (like_match pattern) grows text v (sym (like_percent c pattern text p) ∙ h)
      | no p ↦ elim (ℕ_discrete c underscore) [
        | yes q ↦
            like_underscore c pattern (with_newline text) q
            ∙ any_char_newline (like_match pattern) grows text v
                (sym (like_underscore c pattern text q) ∙ h)
        | no q ↦
            like_char c pattern (with_newline text) p q
            ∙ one_char_newline (like_match pattern) grows c text v
                (sym (like_char c pattern text p q) ∙ h)
      ]
    ]
