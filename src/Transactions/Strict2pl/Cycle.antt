-- ===== src/Transactions/Strict2pl/Cycle.antt =====
-- The depth-first search `in_cycle` of `_deadlock_detected`, over any successor lists, against
-- chains of edges. `none` means that the fuel ran out; `in_cycle_total` says when it does not.
use soup_db.Common.{
  ℕ, zero, suc, ◌+◌, ◌≤◌, ◌<◌, ◌≡◌, refl, ◌↔◌, ◌⊎◌, inl, inr, Bool, true, false, Option, none, some,
  List, [], ◌∷◌, arith, length, ◌==◌, ==_iff, if◌then◌else◌, Bool-cases, Option-cases,
}

-- Membership, with the place kept.
abbrev pub In : ℕ → List ℕ → Type 0
In x [] = ⊥
In x (y ∷ ys) = (x ≡ y) ⊎ In x ys

unfoldable pub mem : ℕ → List ℕ → Bool
mem x [] = false
mem x (y ∷ ys) = let rest = mem x ys in if x == y then true else rest

pub mem→In : (x : ℕ) (ys : List ℕ) → mem x ys ≡ true → In x ys
unfolding mem
mem→In x [] h = absurd (ground arith)
mem→In x (y ∷ ys) h = elim (Bool-cases (x == y)) [
  | inl e ↦ inl ((==_iff x y).0 e)
  | inr e ↦ inr (mem→In x ys (ground arith))
]

pub In→mem : (x : ℕ) (ys : List ℕ) → In x ys → mem x ys ≡ true
unfolding mem
In→mem x [] h = absurd h
In→mem x (y ∷ ys) (inl e) = ground arith
In→mem x (y ∷ ys) (inr h) = ground (arith, In→mem x ys h)

-- The loop over the successors: the first hit ends it.
any_cycle : (ℕ → Option Bool) → List ℕ → Option Bool
any_cycle visit [] = some false
any_cycle visit (x ∷ xs) = elim (visit x) [
  | none ↦ none
  | some true ↦ some true
  | some false ↦ any_cycle visit xs
]

any_cycle-true :
    (visit : ℕ → Option Bool) (xs : List ℕ)
    → any_cycle visit xs ≡ some true
    → (x : ℕ) × In x xs × (visit x ≡ some true)
unfolding any_cycle
any_cycle-true visit [] h = absurd (ground arith)
any_cycle-true visit (x ∷ xs) h = elim (Option-cases (visit x)) [
  | inl e ↦ absurd (ground arith)
  | inr (true, e) ↦ (x, inl refl, e)
  | inr (false, e) ↦ let (y, i, v) = any_cycle-true visit xs (ground arith) in (y, inr i, v)
]

any_cycle-false :
    (visit : ℕ → Option Bool) (xs : List ℕ) (x : ℕ)
    → any_cycle visit xs ≡ some false
    → In x xs
    → visit x ≡ some false
unfolding any_cycle
any_cycle-false visit [] x h i = absurd i
any_cycle-false visit (y ∷ xs) x h (inl e) = elim (Option-cases (visit y)) [
  | inl v ↦ absurd (ground arith)
  | inr (true, v) ↦ absurd (ground arith)
  | inr (false, v) ↦ rw e v
]
any_cycle-false visit (y ∷ xs) x h (inr i) = elim (Option-cases (visit y)) [
  | inl v ↦ absurd (ground arith)
  | inr (true, v) ↦ absurd (ground arith)
  | inr (false, v) ↦ any_cycle-false visit xs x (ground arith) i
]

any_cycle_total :
    (visit : ℕ → Option Bool) (xs : List ℕ)
    → ((x : ℕ) → In x xs → (b : Bool) × (visit x ≡ some b))
    → (b : Bool) × (any_cycle visit xs ≡ some b)
unfolding any_cycle
any_cycle_total visit [] h = (false, refl)
any_cycle_total visit (x ∷ xs) h =
    go (visit x) (h x (inl refl)).0 (h x (inl refl)).1
      (any_cycle_total visit xs (λ y i. h y (inr i)))
  where
    go :
        (o : Option Bool) (b : Bool)
        → o ≡ some b
        → ((c : Bool) × (any_cycle visit xs ≡ some c))
        → (c : Bool) × (elim o [
          | none ↦ none
          | some true ↦ some true
          | some false ↦ any_cycle visit xs
        ]
            ≡ some c)
    go none b e rest = absurd (cc)
    go (some true) b e rest = (true, refl)
    go (some false) b e rest = rest

-- The keys that are not on the path.
fresh : List ℕ → List ℕ → ℕ
fresh [] path = 0
fresh (k ∷ keys) path = (if mem k path then 0 else 1) + fresh keys path

fresh-cons_le : (keys : List ℕ) (n : ℕ) (path : List ℕ) → fresh keys (n ∷ path) ≤ fresh keys path
unfolding fresh mem
fresh-cons_le [] n path = omega arith
fresh-cons_le (k ∷ keys) n path = ground (arith, fresh-cons_le keys n path)

fresh-cons_lt :
    (keys : List ℕ) (n : ℕ) (path : List ℕ)
    → In n keys
    → mem n path ≡ false
    → fresh keys (n ∷ path) < fresh keys path
unfolding fresh mem
fresh-cons_lt [] n path i h = absurd i
fresh-cons_lt (k ∷ keys) n path (inl e) h = ground (arith, fresh-cons_le keys n path)
fresh-cons_lt (k ∷ keys) n path (inr i) h = ground (arith, fresh-cons_lt keys n path i)

fresh-nil : (keys : List ℕ) → fresh keys [] ≤ length keys
unfolding fresh mem
fresh-nil [] = omega arith
fresh-nil (k ∷ keys) = omega (arith, fresh-nil keys)

module _ (succs : ℕ → List ℕ) where
  unfoldable pub in_cycle : ℕ → ℕ → List ℕ → Option Bool
  unfolding any_cycle mem
  in_cycle zero node path = none
  in_cycle (suc fuel) node path =
      let below = any_cycle (λ nxt. in_cycle fuel nxt (node ∷ path)) (succs node) in
      if mem node path then some true else below

  -- At least one edge.
  pub data Chain : ℕ → ℕ → Type 0 where
    one : {a b : ℕ} → In b (succs a) → Chain a b
    more : {a b c : ℕ} → In b (succs a) → Chain b c → Chain a c

  snoc : {a b c : ℕ} → Chain a b → In c (succs b) → Chain a c
  snoc (one e) f = more e (one f)
  snoc (more e p) f = more e (snoc p f)

  abbrev pub ReachesCycle : ℕ → Type 0
  ReachesCycle n = (m : ℕ) × ((n ≡ m) ⊎ Chain n m) × Chain m m

  in_cycle-true :
      (fuel n : ℕ) (path : List ℕ)
      → ((p : ℕ) → In p path → Chain p n)
      → in_cycle fuel n path ≡ some true
      → ReachesCycle n
  unfolding in_cycle
  in_cycle-true zero n path back h = absurd (cc)
  in_cycle-true (suc fuel) n path back h = elim (Bool-cases (mem n path)) [
    | inl e ↦ (n, inl refl, back n (mem→In n path e))
    | inr e ↦
        let (x, i, v) =
          any_cycle-true (λ nxt. in_cycle fuel nxt (n ∷ path)) (succs n) (ground arith) in
        let (m, way, loop) = in_cycle-true fuel x (n ∷ path) (extend x i) v in
        (m, step x i m way, loop)
  ]
    where
      extend : (x : ℕ) → In x (succs n) → (p : ℕ) → In p (n ∷ path) → Chain p x
      extend x i p (inl q) = rw q (one i)
      extend x i p (inr q) = snoc (back p q) i

      step : (x : ℕ) → In x (succs n) → (m : ℕ) → (x ≡ m) ⊎ Chain x m → (n ≡ m) ⊎ Chain n m
      step x i m (inl q) = inr (one (rw q at i))
      step x i m (inr c) = inr (more i c)

  -- A search that finds nothing has looked at every successor, which is not on its path.
  in_cycle-false :
      (fuel n : ℕ) (path : List ℕ)
      → in_cycle fuel n path ≡ some false
      → (mem n path ≡ false)
        × ((x : ℕ) → In x (succs n) → (f : ℕ) × (in_cycle f x (n ∷ path) ≡ some false))
  unfolding in_cycle
  in_cycle-false zero n path h = absurd (cc)
  in_cycle-false (suc fuel) n path h = elim (Bool-cases (mem n path)) [
    | inl e ↦ absurd (ground arith)
    | inr e ↦ (
      e,
      λ x i. (
        fuel,
        any_cycle-false (λ nxt. in_cycle fuel nxt (n ∷ path)) (succs n) x (ground arith) i,
      ),
    )
  ]

  no_return :
      {n m : ℕ} (fuel : ℕ) (path : List ℕ)
      → Chain n m
      → in_cycle fuel n path ≡ some false
      → ¬ In m (n ∷ path)
  no_return {n} {m} fuel path (one i) h = λ back.
      let (f, found) = (in_cycle-false fuel n path h).1 m i in
      ground (arith, In→mem m (n ∷ path) back, (in_cycle-false f m (n ∷ path) found).0)
  no_return {n} {m} fuel path (more {b = b} i c) h = λ back.
      let (f, found) = (in_cycle-false fuel n path h).1 b i in
      no_return f (n ∷ path) c found (inr back)

  chain-false :
      {n m : ℕ} (fuel : ℕ) (path : List ℕ)
      → Chain n m
      → in_cycle fuel n path ≡ some false
      → (f : ℕ) × (p : List ℕ) × (in_cycle f m p ≡ some false)
  chain-false {n} {m} fuel path (one i) h =
      let (f, found) = (in_cycle-false fuel n path h).1 m i in (f, n ∷ path, found)
  chain-false {n} fuel path (more {b = b} i c) h =
      let (f, found) = (in_cycle-false fuel n path h).1 b i in chain-false f (n ∷ path) c found

  in_cycle-acyclic : (fuel n : ℕ) → in_cycle fuel n [] ≡ some false → ¬ ReachesCycle n
  in_cycle-acyclic fuel n h (m, inl e, loop) = no_return fuel [] loop (rw e at h) (inl refl)
  in_cycle-acyclic fuel n h (m, inr c, loop) =
      let (f, p, found) = chain-false fuel [] c h in no_return f p loop found (inl refl)

  -- Only nodes with successors cost fuel, and each of them once.
  module _ (keys : List ℕ) (keyed : (n x : ℕ) → In x (succs n) → In n keys) where
    in_cycle_enough :
        (fuel n : ℕ) (path : List ℕ)
        → fresh keys path + 1 < fuel
        → (b : Bool) × (in_cycle fuel n path ≡ some b)
    unfolding in_cycle
    in_cycle_enough zero n path h = absurd (omega arith)
    in_cycle_enough (suc fuel) n path h = elim (Bool-cases (mem n path)) [
      | inl e ↦ (true, rw e)
      | inr e ↦ rw e (
          any_cycle_total (λ nxt. in_cycle fuel nxt (n ∷ path)) (succs n)
            (λ x i.
              in_cycle_enough fuel x (n ∷ path)
                (omega (arith, fresh-cons_lt keys n path (keyed n x i) e))))
    ]

    pub in_cycle_total : (n : ℕ) → (b : Bool) × (in_cycle (length keys + 2) n [] ≡ some b)
    in_cycle_total n = in_cycle_enough (length keys + 2) n [] (omega (arith, fresh-nil keys))

    pub in_cycle_iff : (n : ℕ) → (in_cycle (length keys + 2) n [] ≡ some true) ↔ ReachesCycle n
    in_cycle_iff n =
        (in_cycle-true (length keys + 2) n [] (λ p i. absurd i), λ r. decided r (in_cycle_total n))
      where
        decided :
            ReachesCycle n
            → ((b : Bool) × (in_cycle (length keys + 2) n [] ≡ some b))
            → in_cycle (length keys + 2) n [] ≡ some true
        decided r (true, e) = e
        decided r (false, e) = absurd (in_cycle-acyclic (length keys + 2) n e r)
