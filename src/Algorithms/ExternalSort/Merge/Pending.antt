-- ===== src/Algorithms/ExternalSort/Merge/Pending.antt =====
-- engine/algorithms/external_sort.py, `_merge_runs`: what the merge keeps true of the heap and of the
-- records that its files still hold.
use soup_db.Common.{
  ℕ, zero, suc, ◌+◌, ◌≤◌, ◌<◌, ◌≡◌, ◌≢◌, refl, subst, inl, inr, Bool, not, ◌&&◌, some, List, [],
  ◌∷◌, ◌++◌, map, ltb, ◌==◌, length, get_elem?, set, arith, Bool-cases,
}
use soup_db.Common.Bytes.{Bytes}
use soup_db.Common.Int.{ℤ}
use soup_db.Common.Counts.{concat, count_p, count_p_pos, count_p-append}
use soup_db.Algorithms.Runs.RoundTrip.{frames, too_long}
use soup_db.Algorithms.ExternalSort.{Entry, Merging}
use soup_db.Algorithms.ExternalSort.Order.{IsComparator, after, IsSorted, none_after}

module _ (comparator : Bytes → Bytes → ℤ) where
  -- The entry is of the given run, and none of the records has to come before it.
  abbrev pub leads : ℕ → List Bytes → Entry → Bool
  leads i p e = e.run_index == i && count_p (after comparator e.payload) p == 0

  -- A run that still holds records has a leading entry in the heap.
  abbrev pub Ready : List Entry → ℕ → List Bytes → Type 0
  Ready heap i [] = Unit
  Ready heap i (x ∷ p) = 1 ≤ count_p (leads i (x ∷ p)) heap

  abbrev pub Covered : List Entry → ℕ → List (List Bytes) → Type 0
  Covered heap i [] = Unit
  Covered heap i (p ∷ ps) = Ready heap i p × IsSorted comparator p × Covered heap (i + 1) ps

  pub record Invariant (s : Merging) (ps : List (List Bytes)) : Type 0 where
    pub opened : s.files ≡ map frames ps
    pub ranged : count_p (λ e. not (ltb e.run_index (length ps))) s.heap ≡ 0
    pub covered : Covered s.heap 0 ps
    pub heap_fits : count_p (λ e. too_long e.payload) s.heap ≡ 0
    pub pending_fits : count_p too_long (concat ps) ≡ 0

  -- From one heap to another, where the runs but one keep their leading entries.
  abbrev pub Keeps : List Entry → List Entry → ℕ → Type 0
  Keeps heap heap' i = (j : ℕ) (p : List Bytes) → j ≢ i → Ready heap j p → Ready heap' j p

  -- Every run beyond the given one.
  Covered-beyond :
      (heap heap' : List Entry) (i j : ℕ) (ps : List (List Bytes))
      → Keeps heap heap' i
      → i < j
      → Covered heap j ps
      → Covered heap' j ps
  Covered-beyond heap heap' i j [] keep lt h = h
  Covered-beyond heap heap' i j (p ∷ ps) keep lt (ready, sorted, h) = (
    keep j p (omega arith) ready,
    sorted,
    Covered-beyond heap heap' i (j + 1) ps keep (omega arith) h,
  )

  pub Covered-set :
      (heap heap' : List Entry) (i j k : ℕ) (ps : List (List Bytes)) (p : List Bytes)
      → Keeps heap heap' i
      → i ≡ j + k
      → Ready heap' i p
      → IsSorted comparator p
      → Covered heap j ps
      → Covered heap' j (set ps k p)
  Covered-set heap heap' i j k [] p keep eq ready sorted h = h
  Covered-set heap heap' i j zero (x ∷ ps) p keep eq ready sorted h =
      let same : i ≡ j = omega arith in
      (
        subst (λ n. Ready heap' n p) same ready,
        sorted,
        Covered-beyond heap heap' i (j + 1) ps keep (omega arith) h.2,
      )
  Covered-set heap heap' i j (suc k) (x ∷ ps) p keep eq ready sorted h = (
    keep j x (omega arith) h.0,
    h.1,
    Covered-set heap heap' i (j + 1) k ps p keep (omega arith) ready sorted h.2,
  )

  pub Covered-append :
      (heap heap' : List Entry) (i j : ℕ) (ps : List (List Bytes)) (p : List Bytes)
      → Keeps heap heap' i
      → i ≡ j + length ps
      → Ready heap' i p
      → IsSorted comparator p
      → Covered heap j ps
      → Covered heap' j (ps ++ p ∷ [])
  Covered-append heap heap' i j [] p keep eq ready sorted h =
      let same : i ≡ j = omega arith in (subst (λ n. Ready heap' n p) same ready, sorted, tt)
  Covered-append heap heap' i j (x ∷ ps) p keep eq ready sorted h = (
    keep j x (omega arith) h.0,
    h.1,
    Covered-append heap heap' i (j + 1) ps p keep (omega arith) ready sorted h.2,
  )

  pub Covered-IsSorted :
      (heap : List Entry) (j k : ℕ) (ps : List (List Bytes)) {p : List Bytes}
      → Covered heap j ps
      → get_elem? ps k ≡ some p
      → IsSorted comparator p
  Covered-IsSorted heap j k [] h g = cc
  Covered-IsSorted heap j zero (x ∷ ps) h g = subst (IsSorted comparator) (ground (arith, g)) h.1
  Covered-IsSorted heap j (suc k) (x ∷ ps) h g = Covered-IsSorted heap (j + 1) k ps h.2 g

  -- With an empty heap nothing is left.
  pub Covered-nil :
      (q : Bytes → Bool) (j : ℕ) (ps : List (List Bytes))
      → Covered [] j ps
      → count_p q (concat ps) ≡ 0
  Covered-nil q j [] h = refl
  Covered-nil q j ([] ∷ ps) h = Covered-nil q (j + 1) ps h.2
  Covered-nil q j ((x ∷ p) ∷ ps) h = absurd (omega (arith, h.0))

module _ (comparator : Bytes → Bytes → ℤ) (laws : IsComparator comparator) where
  Ready-low :
      (heap : List Entry) (i : ℕ) (p : List Bytes) (a : Bytes)
      → count_p (λ e. after comparator a e.payload) heap ≡ 0
      → Ready comparator heap i p
      → count_p (after comparator a) p ≡ 0
  Ready-low heap i [] a low ready = refl
  Ready-low heap i (x ∷ p) a low ready =
      let (e, leading, inside) = count_p_pos (leads comparator i (x ∷ p)) heap ready in
      let least : count_p (after comparator e.payload) (x ∷ p) ≡ 0 = ground (arith, leading) in
      elim (Bool-cases (after comparator a e.payload)) [
        | inl t ↦ absurd (omega (arith, inside (λ e. after comparator a e.payload) t))
        | inr f ↦ none_after comparator laws a e.payload (x ∷ p) f least
      ]

  -- What no entry of the heap has to come before, no record that is left has to either.
  pub Covered-low :
      (heap : List Entry) (j : ℕ) (ps : List (List Bytes)) (a : Bytes)
      → count_p (λ e. after comparator a e.payload) heap ≡ 0
      → Covered comparator heap j ps
      → count_p (after comparator a) (concat ps) ≡ 0
  Covered-low heap j [] a low h = refl
  Covered-low heap j (p ∷ ps) a low h = omega (
    arith,
    count_p-append (after comparator a) p (concat ps),
    Ready-low heap j p a low h.0,
    Covered-low heap (j + 1) ps a low h.2,
  )
