-- ===== src/Transactions/Strict2pl/Deadlock.antt =====
-- engine/transactions/strategies/strict_2pl.py, `_deadlock_detected`: the wait-for edges of a lock
-- table, and the search over them.
use soup_db.Common.{
  ℕ, ◌+◌, ◌≡◌, refl, ◌≢◌, ◌↔◌, ◌⊎◌, inl, inr, Bool, true, false, Option, none, some, List, [], ◌∷◌,
  map, ite, if_pos, if_neg, ℕ_discrete, arith, length, Option-cases, Bool-cases, if◌then◌else◌,
}
use soup_db.Common.Dict
use soup_db.Common.Dict.{Dict, Key, nat_key}
use soup_db.Transactions.LockMode.{LockMode}
use soup_db.Transactions.Strict2pl.{Grants, LockState, or_empty, held}
use soup_db.Transactions.Strict2pl.Cycle.{
  In, in_cycle, Chain, one, more, ReachesCycle, in_cycle_iff, in_cycle_total,
}

-- The holders of a resource other than the transaction that waits for it.
others : ℕ → Grants → List ℕ
others tx [] = []
others tx ((holder, _) ∷ grants) =
    let rest = others tx grants in ite (ℕ_discrete holder tx) rest (holder ∷ rest)

or_nil : Option (List ℕ) → List ℕ
or_nil none = []
or_nil (some l) = l

module _ {R : Type 0} ⦃e : Key R⦄ where
  -- `edges`, one entry for each waiting transaction.
  wait_edges : Dict R Grants → Dict ℕ R → Dict ℕ (List ℕ)
  unfolding others or_empty
  wait_edges grants [] = []
  wait_edges grants ((tx, resource) ∷ waiting) =
      (tx, others tx (or_empty (Dict.get resource grants))) ∷ wait_edges grants waiting

  -- `edges.get(node, ())`
  successors : LockState R → ℕ → List ℕ
  unfolding wait_edges or_nil
  successors s node = or_nil (Dict.get node (wait_edges s.grants s.waiting))

  unfoldable pub deadlock_detected : LockState R → ℕ → Option Bool
  unfolding in_cycle successors
  deadlock_detected s tx =
      if Dict.has tx s.waiting
      then in_cycle (successors s) (length (map (λ w. w.0) s.waiting) + 2) tx []
      else some false

  -- `t` waits for a resource that `u` holds.
  abbrev pub WaitsFor : LockState R → ℕ → ℕ → Type 0
  WaitsFor s t u =
      (r : R) × (v : LockMode × ℕ) × (Dict.get t s.waiting ≡ some r)
      × (held s u r ≡ some v)
      × (u ≢ t)

  -- One wait or more.
  pub data Waits (s : LockState R) : ℕ → ℕ → Type 0 where
    direct : {a b : ℕ} → WaitsFor s a b → Waits s a b
    through : {a b c : ℕ} → WaitsFor s a b → Waits s b c → Waits s a c

get-cons_some :
    (u j : ℕ) (w : LockMode × ℕ) (gs : Grants) {v : LockMode × ℕ}
    → Dict.get u gs ≡ some v
    → (x : LockMode × ℕ) × (Dict.get u ((j, w) ∷ gs) ≡ some x)
unfolding Dict.get
get-cons_some u j w gs {v} g = elim (ℕ_discrete u j) [
  | yes p ↦ (w, ground arith)
  | no p ↦ (v, ground arith)
]

others-In :
    (t u : ℕ) (gs : Grants)
    → In u (others t gs)
    → (u ≢ t) × ((v : LockMode × ℕ) × (Dict.get u gs ≡ some v))
unfolding others
others-In t u [] i = absurd i
others-In t u ((j, w) ∷ gs) i = elim (ℕ_discrete j t) [
  | yes p ↦
      weaken
        (others-In t u gs (rw (if_pos (ℕ_discrete j t) p (others t gs) (j ∷ others t gs)) at i))
  | no p ↦
      pick p (λ q. weaken (others-In t u gs q))
        (rw (if_neg (ℕ_discrete j t) p (others t gs) (j ∷ others t gs)) at i)
]
  where
    weaken :
        (u ≢ t) × ((v : LockMode × ℕ) × (Dict.get u gs ≡ some v))
        → (u ≢ t) × ((v : LockMode × ℕ) × (Dict.get u ((j, w) ∷ gs) ≡ some v))
    weaken found = (found.0, get-cons_some u j w gs found.1.1)

    pick :
        j ≢ t
        → (In u (others t gs)
            → (u ≢ t) × ((v : LockMode × ℕ) × (Dict.get u ((j, w) ∷ gs) ≡ some v)))
        → In u (j ∷ others t gs)
        → (u ≢ t) × ((v : LockMode × ℕ) × (Dict.get u ((j, w) ∷ gs) ≡ some v))
    pick p rest (inl q) = (rw q p, (w, unfold Dict.get in ground arith))
    pick p rest (inr q) = rest q

In-others :
    (t u : ℕ) (gs : Grants) (v : LockMode × ℕ) → u ≢ t → Dict.get u gs ≡ some v → In u (others t gs)
unfolding others Dict.get
In-others t u [] v n g = absurd (cc)
In-others t u ((j, w) ∷ gs) v n g = elim (ℕ_discrete j t) [
  | yes p ↦
      rw (if_pos (ℕ_discrete j t) p (others t gs) (j ∷ others t gs))
        (In-others t u gs v n (ground arith))
  | no p ↦
      rw (if_neg (ℕ_discrete j t) p (others t gs) (j ∷ others t gs))
        (elim (ℕ_discrete u j) [ yes q ↦ inl q | no q ↦ inr (In-others t u gs v n (ground arith)) ])
]

module _ {R : Type 0} ⦃e : Key R⦄ where
  get-wait_edges :
      (grants : Dict R Grants) (w : Dict ℕ R) (t : ℕ)
      → Dict.get t (wait_edges grants w) ≡ elim (Dict.get t w) [
        | none ↦ none
        | some r ↦ some (others t (or_empty (Dict.get r grants)))
      ]
  unfolding wait_edges Dict.get
  get-wait_edges grants [] t = refl
  get-wait_edges grants ((j, r) ∷ w) t = ground (arith, get-wait_edges grants w t)

  successors_waiting :
      (s : LockState R) (t : ℕ) {r : R}
      → Dict.get t s.waiting ≡ some r
      → successors s t ≡ others t (or_empty (Dict.get r s.grants))
  unfolding successors
  successors_waiting s t h = ground (arith, get-wait_edges s.grants s.waiting t)

  successors_idle : (s : LockState R) (t : ℕ) → Dict.get t s.waiting ≡ none → successors s t ≡ []
  unfolding successors
  successors_idle s t h = ground (arith, get-wait_edges s.grants s.waiting t)

  successors→WaitsFor : (s : LockState R) (t u : ℕ) → In u (successors s t) → WaitsFor s t u
  unfolding held
  successors→WaitsFor s t u i = elim (Option-cases (Dict.get t s.waiting)) [
    | inl h ↦ absurd (rw (successors_idle s t h) at i)
    | inr (r, h) ↦
        let found =
          others-In t u (or_empty (Dict.get r s.grants)) (rw (successors_waiting s t h) at i) in
        (r, found.1.0, h, found.1.1, found.0)
  ]

  WaitsFor→successors : (s : LockState R) (t u : ℕ) → WaitsFor s t u → In u (successors s t)
  unfolding held
  WaitsFor→successors s t u (r, v, h, g, n) =
      rw (successors_waiting s t h) (In-others t u (or_empty (Dict.get r s.grants)) v n g)

  Chain→Waits : (s : LockState R) {a b : ℕ} → Chain (successors s) a b → Waits s a b
  Chain→Waits s (one {a = a} {b = b} i) = direct (successors→WaitsFor s a b i)
  Chain→Waits s (more {a = a} {b = b} i c) = through (successors→WaitsFor s a b i) (Chain→Waits s c)

  Waits→Chain : (s : LockState R) {a b : ℕ} → Waits s a b → Chain (successors s) a b
  Waits→Chain s (direct {a = a} {b = b} w) = one (WaitsFor→successors s a b w)
  Waits→Chain s (through {a = a} {b = b} w c) = more (WaitsFor→successors s a b w) (Waits→Chain s c)

get-key :
    {R : Type 0} (n : ℕ) (r : R) (d : Dict ℕ R) → Dict.get n d ≡ some r → In n (map (λ w. w.0) d)
unfolding Dict.get
get-key n r [] h = absurd (cc)
get-key n r ((k, x) ∷ d) h = elim (ℕ_discrete n k) [
  | yes p ↦ inl p
  | no p ↦ inr (get-key n r d (ground arith))
]

get-has : {R : Type 0} (n : ℕ) (d : Dict ℕ R) → Dict.has n d ≡ false → Dict.get n d ≡ none
unfolding Dict.get Dict.has
get-has n [] h = refl
get-has n ((k, x) ∷ d) h = ground (arith, get-has n d)

has-get : {R : Type 0} (n : ℕ) (d : Dict ℕ R) (r : R) → Dict.get n d ≡ some r → Dict.has n d ≡ true
unfolding Dict.get Dict.has
has-get n [] r h = absurd (cc)
has-get n ((k, x) ∷ d) r h = ground (arith, has-get n d r)

module _ {R : Type 0} ⦃e : Key R⦄ where
  keyed : (s : LockState R) (n x : ℕ) → In x (successors s n) → In n (map (λ w. w.0) s.waiting)
  keyed s n x i = let found = successors→WaitsFor s n x i in get-key n found.0 s.waiting found.2

  -- `t` is in a cycle of waits, or waits for a transaction that is in one.
  abbrev pub IsStuck : LockState R → ℕ → Type 0
  IsStuck s t = (n : ℕ) × ((t ≡ n) ⊎ Waits s t n) × Waits s n n

  Waits-first : (s : LockState R) {a b : ℕ} → Waits s a b → Dict.has a s.waiting ≡ true
  Waits-first s (direct {a = a} w) = has-get a s.waiting w.0 w.2
  Waits-first s (through {a = a} w c) = has-get a s.waiting w.0 w.2

  stuck_waiting : (s : LockState R) (t : ℕ) → IsStuck s t → Dict.has t s.waiting ≡ true
  stuck_waiting s t (n, inl p, loop) = rw p (Waits-first s loop)
  stuck_waiting s t (n, inr c, loop) = Waits-first s c

  to_stuck : (s : LockState R) (t : ℕ) → ReachesCycle (successors s) t → IsStuck s t
  to_stuck s t (n, inl p, loop) = (n, inl p, Chain→Waits s loop)
  to_stuck s t (n, inr c, loop) = (n, inr (Chain→Waits s c), Chain→Waits s loop)

  of_stuck : (s : LockState R) (t : ℕ) → IsStuck s t → ReachesCycle (successors s) t
  of_stuck s t (n, inl p, loop) = (n, inl p, Waits→Chain s loop)
  of_stuck s t (n, inr c, loop) = (n, inr (Waits→Chain s c), Waits→Chain s loop)

  -- The search always answers: its fuel is enough for every lock table.
  pub deadlock_detected_total :
      (s : LockState R) (t : ℕ) → (b : Bool) × (deadlock_detected s t ≡ some b)
  unfolding deadlock_detected
  deadlock_detected_total s t = elim (Bool-cases (Dict.has t s.waiting)) [
    | inl h ↦ rw h (in_cycle_total (successors s) (map (λ w. w.0) s.waiting) (keyed s) t)
    | inr h ↦ (false, rw h)
  ]

  -- A deadlock is reported exactly to the transactions that are in a cycle of waits, or that wait
  -- for one that is.
  pub deadlock_detected_iff :
      (s : LockState R) (t : ℕ) → (deadlock_detected s t ≡ some true) ↔ IsStuck s t
  unfolding deadlock_detected
  deadlock_detected_iff s t = elim (Bool-cases (Dict.has t s.waiting)) [
    | inl h ↦
        let found = in_cycle_iff (successors s) (map (λ w. w.0) s.waiting) (keyed s) t in
        (λ d. to_stuck s t (found.0 (rw h at d)), λ k. rw h (found.1 (of_stuck s t k)))
    | inr h ↦ (λ d. absurd (ground arith), λ k. absurd (ground (arith, stuck_waiting s t k)))
  ]
