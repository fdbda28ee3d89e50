-- ===== src/Algorithms/ExternalSort/Order.antt =====
-- engine/algorithms/external_sort.py: what a comparator has to satisfy, the order of records that it
-- stands for, the sort of a chunk, and the smallest entry of the heap.
use soup_db.Common.{
  ◌+◌, ◌≡◌, refl, ap, subst, inl, inr, Bool, true, false, some, List, [], ◌∷◌, arith, Bool-cases,
}
use soup_db.Common.Bytes.{Bytes}
use soup_db.Common.Int.{ℤ, pos, negsuc}
use soup_db.Common.Counts.{one, count_p, SameItems, count_p-le}
use soup_db.Algorithms.Runs.{is_positive, is_negative}
use soup_db.Algorithms.ExternalSort.{Entry, lt_key, eq_key, before, smaller, heappop, insort, sort}

-- A comparator of a total preorder: the sign turns over with the arguments, and "not after" is
-- transitive.
pub record IsComparator (comparator : Bytes → Bytes → ℤ) : Type 0 where
  pub opposite : (a b : Bytes) → is_negative (comparator a b) ≡ is_positive (comparator b a)
  pub transitive :
      (a b c : Bytes)
      → is_positive (comparator a b) ≡ false
      → is_positive (comparator b c) ≡ false
      → is_positive (comparator a c) ≡ false

not_both : (n : ℤ) → is_positive n ≡ true → is_negative n ≡ false
unfolding is_positive is_negative
not_both (pos n) h = refl
not_both (negsuc n) h = cc

module _ (comparator : Bytes → Bytes → ℤ) where
  -- `a` has to come after `b`.
  abbrev pub after : Bytes → Bytes → Bool
  after a b = is_positive (comparator a b)

  -- No record stands before one that has to come before it.
  abbrev pub IsSorted : List Bytes → Type 0
  IsSorted [] = Unit
  IsSorted (x ∷ xs) = (count_p (after x) xs ≡ 0) × IsSorted xs

module _ (comparator : Bytes → Bytes → ℤ) (laws : IsComparator comparator) where
  lt_key-true : (a b : Bytes) → lt_key comparator a b ≡ true → after comparator a b ≡ false
  unfolding lt_key
  lt_key-true a b h = elim (Bool-cases (after comparator a b)) [
    | inl t ↦ cc (not_both (comparator a b) t)
    | inr f ↦ f
  ]

  lt_key-false : (a b : Bytes) → lt_key comparator a b ≡ false → after comparator b a ≡ false
  unfolding lt_key
  lt_key-false a b h = cc (laws.opposite a b)

  -- What comes after the smaller of two comes after the other.
  after_trans :
      (a b c : Bytes)
      → after comparator a b ≡ false
      → after comparator a c ≡ true
      → after comparator b c ≡ true
  after_trans a b c h k = elim (Bool-cases (after comparator b c)) [
    | inl t ↦ t
    | inr f ↦ cc (laws.transitive a b c h f)
  ]

  pub none_after :
      (a b : Bytes) (xs : List Bytes)
      → after comparator a b ≡ false
      → count_p (after comparator b) xs ≡ 0
      → count_p (after comparator a) xs ≡ 0
  none_after a b xs h k = omega (
    arith,
    count_p-le (after comparator a) (after comparator b) (λ c t. after_trans a b c h t) xs,
  )

  count_p-insort :
      (q : Bytes → Bool) (x : Bytes) (ys : List Bytes)
      → count_p q (insort comparator x ys) ≡ one (q x) + count_p q ys
  unfolding insort
  count_p-insort q x [] = refl
  count_p-insort q x (y ∷ ys) = elim (Bool-cases (lt_key comparator y x)) [
    | inl t ↦ rw t (omega (arith, count_p-insort q x ys))
    | inr f ↦ rw f refl
  ]

  insort-IsSorted :
      (x : Bytes) (ys : List Bytes)
      → IsSorted comparator ys
      → IsSorted comparator (insort comparator x ys)
  unfolding insort
  insort-IsSorted x [] h = (refl, tt)
  insort-IsSorted x (y ∷ ys) h = elim (Bool-cases (lt_key comparator y x)) [
    | inl t ↦ rw t (
      omega (arith, count_p-insort (after comparator y) x ys, ap one (lt_key-true y x t), h.0),
      insort-IsSorted x ys h.1,
    )
    | inr f ↦
        rw f (
          omega (arith, ap one (lt_key-false y x f), none_after x y ys (lt_key-false y x f) h.0),
          h,
        )
  ]

  -- A chunk is sorted in memory: the same records, in order.
  pub sort_lem :
      (xs : List Bytes)
      → IsSorted comparator (sort comparator xs) × SameItems (sort comparator xs) xs
  unfolding sort
  sort_lem [] = (tt, λ q. refl)
  sort_lem (x ∷ xs) =
      let (sorted, same) = sort_lem xs in
      (
        insort-IsSorted x (sort comparator xs) sorted,
        λ q. omega (arith, count_p-insort q x (sort comparator xs), same q),
      )

  before-true :
      (a b : Entry) → before comparator a b ≡ true → after comparator a.payload b.payload ≡ false
  unfolding before eq_key
  before-true a b h = elim (Bool-cases (after comparator a.payload b.payload)) [
    | inl t ↦
        ground (arith, not_both (comparator a.payload b.payload) t, lt_key-true a.payload b.payload)
    | inr f ↦ f
  ]

  before-false :
      (a b : Entry) → before comparator a b ≡ false → after comparator b.payload a.payload ≡ false
  unfolding before eq_key
  before-false a b h = elim (Bool-cases (is_negative (comparator a.payload b.payload))) [
    | inl t ↦ unfold lt_key in ground (arith, not_both (comparator a.payload b.payload))
    | inr f ↦ cc (laws.opposite a.payload b.payload)
  ]

  itself : (a : Bytes) → after comparator a a ≡ false
  itself a = elim (Bool-cases (after comparator a a)) [
    | inl t ↦ cc (not_both (comparator a a) t, laws.opposite a a)
    | inr f ↦ f
  ]

  -- An entry of a heap with those that are left: nothing else is lost, and it comes after none.
  abbrev pub Smallest : List Entry → Entry × List Entry → Type 0
  Smallest heap (m, rest) =
      ((q : Entry → Bool) → count_p q heap ≡ one (q m) + count_p q rest)
      × (count_p (λ e. after comparator m.payload e.payload) heap ≡ 0)

  smaller-Smallest :
      (x : Entry) (heap : List Entry) (found : Entry × List Entry)
      → Smallest heap found
      → Smallest (x ∷ heap) (smaller comparator x (some found))
  unfolding smaller
  smaller-Smallest x heap (y, rest) (same, low) = elim (Bool-cases (before comparator y x)) [
    | inl t ↦
        let new : Smallest (x ∷ heap) (y, x ∷ rest) =
          (λ q. omega (arith, same q), omega (arith, ap one (before-true y x t), low)) in
        let found : (y, x ∷ rest) ≡ smaller comparator x (some (y, rest)) = rw t refl in
        subst (Smallest (x ∷ heap)) found new
    | inr f ↦
        let low_x =
          count_p-le (λ (e : Entry). after comparator x.payload e.payload)
            (λ e. after comparator y.payload e.payload)
            (λ e t. after_trans x.payload y.payload e.payload (before-false y x f) t) heap in
        let new : Smallest (x ∷ heap) (x, y ∷ rest) =
          (λ q. omega (arith, same q), omega (arith, ap one (itself x.payload), low, low_x)) in
        let found : (x, y ∷ rest) ≡ smaller comparator x (some (y, rest)) = rw f refl in
        subst (Smallest (x ∷ heap)) found new
  ]

  -- The entry that is popped from a heap.
  heappop-Smallest :
      (x : Entry) (heap : List Entry)
      → Smallest (x ∷ heap) (smaller comparator x (heappop comparator heap))
  unfolding heappop
  heappop-Smallest x [] = unfold smaller in (λ q. refl, omega (arith, ap one (itself x.payload)))
  heappop-Smallest x (y ∷ heap) =
      smaller-Smallest x (y ∷ heap) (smaller comparator y (heappop comparator heap))
        (heappop-Smallest y heap)

  pub heappop_lem :
      (x : Entry) (heap : List Entry)
      → (m : Entry) × (rest : List Entry) × (heappop comparator (x ∷ heap) ≡ some (m, rest))
        × Smallest (x ∷ heap) (m, rest)
  unfolding heappop
  heappop_lem x heap =
      let found = smaller comparator x (heappop comparator heap) in
      (found.0, found.1, refl, heappop-Smallest x heap)
