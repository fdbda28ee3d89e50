-- ===== src/Algorithms/ExternalSort/Passes.antt =====
-- engine/algorithms/external_sort.py: the passes over groups of runs end with at most one run, which
-- holds the records of all runs in order.
use mathlib.Core.List.{append-nil}
use soup_db.Common.{
  ℕ, zero, suc, ◌+◌, ◌*◌, ◌≤◌, ◌<◌, ◌≡◌, refl, ap, subst, sym, ◌∙◌, inl, inr, Bool, true, List, [],
  ◌∷◌, ◌++◌, map, ltb, leb, ◌>>=◌, length, take, drop, arith, All, Bool-cases, Result, ok,
  length-drop, length-map, take-map, drop-map, take-append-drop, All-append, ltb_false→le, ltb→lt,
}
use soup_db.Common.Bytes.{Bytes}
use soup_db.Common.Int.{ℤ, pos}
use soup_db.Common.Counts.{concat, count_p, count_p-append}
use soup_db.Algorithms.Runs.RoundTrip.{frames, too_long, read_run-frames}
use soup_db.Algorithms.ExternalSort.{
  groups, first_run, merge_group, merge_each, passes, merge_sorted_runs, at_least,
}
use soup_db.Algorithms.ExternalSort.Order.{IsComparator, IsSorted}
use soup_db.Algorithms.ExternalSort.Merge.{merge_runs_lem}

module _ {A : Type 0} where
  concat-groups :
      (fuel k : ℕ) (xs : List A) → 1 ≤ k → length xs ≤ fuel → concat (groups fuel k xs) ≡ xs
  unfolding groups
  concat-groups zero k [] h le = refl
  concat-groups zero k (x ∷ xs) h le = absurd (omega arith)
  concat-groups (suc fuel) k [] h le = refl
  concat-groups (suc fuel) k (x ∷ xs) h le =
      ap (λ rest. take k (x ∷ xs) ++ rest)
        (concat-groups fuel k (drop k (x ∷ xs)) h (omega (arith, length-drop k (x ∷ xs))))
      ∙ take-append-drop k (x ∷ xs)

  -- Groups of two or more: at most half as many, rounded up.
  length-groups : (fuel k : ℕ) (xs : List A) → 2 ≤ k → 2 * length (groups fuel k xs) ≤ length xs + 1
  unfolding groups
  length-groups zero k xs h = omega arith
  length-groups (suc fuel) k [] h = omega arith
  length-groups (suc fuel) k (x ∷ xs) h =
      omega (arith, length-groups fuel k (drop k (x ∷ xs)) h, length-drop k (x ∷ xs))

module _ {A : Type 0} (P : A → Type 0) where
  All-concat : (xss : List (List A)) → All P (concat xss) → All (All P) xss
  All-concat [] h = tt
  All-concat (xs ∷ xss) h =
      let (left, right) = All-append P xs (concat xss) h in (left, All-concat xss right)

groups-map :
    {A B : Type 0} (f : A → B) (fuel k : ℕ) (xs : List A)
    → groups fuel k (map f xs) ≡ map (map f) (groups fuel k xs)
unfolding groups
groups-map f zero k xs = refl
groups-map f (suc fuel) k [] = refl
groups-map f (suc fuel) k (x ∷ xs) =
    rw (take-map f k (x ∷ xs), drop-map f k (x ∷ xs), groups-map f fuel k (drop k (x ∷ xs))) refl

count_p-concat-concat :
    (q : Bytes → Bool) (group : List (List Bytes)) (gs : List (List (List Bytes)))
    → count_p q (concat (concat (group ∷ gs)))
      ≡ count_p q (concat group) + count_p q (concat (concat gs))
count_p-concat-concat q [] gs = omega arith
count_p-concat-concat q (run ∷ group) gs = omega (
  arith,
  count_p-append q run (concat (group ++ concat gs)),
  count_p-append q run (concat group),
  count_p-concat-concat q group gs,
)

module _ (comparator : Bytes → Bytes → ℤ) (laws : IsComparator comparator) where
  -- The runs are sorted, and their records are the given ones.
  abbrev pub Sorts : Result (List Bytes) → List (List Bytes) → ((Bytes → Bool) → ℕ) → Type 0
  Sorts result outs counts =
      (result ≡ ok (map frames outs))
      × All (IsSorted comparator) outs
      × ((q : Bytes → Bool) → count_p q (concat outs) ≡ counts q)

  merge_group_lem :
      (group : List (List Bytes))
      → All (IsSorted comparator) group
      → count_p too_long (concat group) ≡ 0
      → (out : List Bytes) × (merge_group comparator (map frames group) ≡ ok (frames out))
        × IsSorted comparator out
        × ((q : Bytes → Bool) → count_p q out ≡ count_p q (concat group))
  unfolding merge_group
  merge_group_lem [] sorted fits = merge_runs_lem comparator laws [] sorted fits
  merge_group_lem (run ∷ []) sorted fits =
      (run, refl, sorted.0, λ q. omega (arith, count_p-append q run []))
  merge_group_lem (a ∷ b ∷ group) sorted fits =
      merge_runs_lem comparator laws (a ∷ b ∷ group) sorted fits

  merge_each_lem :
      (gs : List (List (List Bytes)))
      → All (All (IsSorted comparator)) gs
      → count_p too_long (concat (concat gs)) ≡ 0
      → (outs : List (List Bytes)) × Sorts
          (merge_each comparator (map (map frames) gs))
          outs
          (λ q. count_p q (concat (concat gs)))
        × (length outs ≡ length gs)
  unfolding merge_each
  merge_each_lem [] sorted fits = ([], (refl, tt, λ q. refl), refl)
  merge_each_lem (group ∷ gs) sorted fits =
      let both = count_p-concat-concat in
      let (out, h, ordered, same) =
        merge_group_lem group sorted.0 (omega (arith, both too_long group gs)) in
      let (outs, (t, all, counts), len) =
        merge_each_lem gs sorted.1 (omega (arith, both too_long group gs)) in
      (
        out ∷ outs,
        (
          rw (h, t) refl,
          (ordered, all),
          λ q. omega (arith, same q, counts q, both q group gs, count_p-append q out (concat outs)),
        ),
        ap suc len,
      )

  passes_lem :
      (fuel k : ℕ) (ps : List (List Bytes))
      → 2 ≤ k
      → length ps < fuel
      → All (IsSorted comparator) ps
      → count_p too_long (concat ps) ≡ 0
      → (outs : List (List Bytes)) × Sorts
          (passes comparator fuel k (map frames ps))
          outs
          (λ q. count_p q (concat ps))
        × (length outs ≤ 1)
  unfolding passes
  passes_lem zero k ps two lt sorted fits = absurd (omega arith)
  passes_lem (suc fuel) k ps two lt sorted fits = elim (Bool-cases (ltb 1 (length ps))) [
    | inr few ↦ (
      ps,
      (rw (length-map frames ps, few) refl, sorted, λ q. refl),
      ltb_false→le 1 (length ps) few,
    )
    | inl many ↦
        let gs = groups (length ps) k ps in
        let whole : concat gs ≡ ps = concat-groups (length ps) k ps (omega arith) (omega arith) in
        let (ms, (done, ordered, same), len) =
          merge_each_lem gs
            (All-concat (IsSorted comparator) gs
              (subst (All (IsSorted comparator)) (sym whole) sorted))
            (subst (λ runs. count_p too_long (concat runs) ≡ 0) (sym whole) fits) in
        let counts : (q : Bytes → Bool) → count_p q (concat ms) ≡ count_p q (concat ps) =
          λ q. same q ∙ ap (λ runs. count_p q (concat runs)) whole in
        let fewer : length ms < fuel =
          omega (arith, len, length-groups (length ps) k ps two, ltb→lt 1 (length ps) many) in
        let (outs, (end, all, final), last) =
          passes_lem fuel k ms two fewer ordered (omega (arith, counts too_long)) in
        (
          outs,
          (
            rw (length-map frames ps, many, groups-map frames (length ps) k ps, done) end,
            all,
            λ q. final q ∙ counts q,
          ),
          last,
        )
  ]

  first_run_lem :
      (outs : List (List Bytes))
      → length outs ≤ 1
      → All (IsSorted comparator) outs
      → count_p too_long (concat outs) ≡ 0
      → (first_run (map frames outs) ≡ ok (concat outs)) × IsSorted comparator (concat outs)
  unfolding first_run
  first_run_lem [] le sorted fits = (refl, tt)
  first_run_lem (out ∷ []) le sorted fits =
      let same : out ++ [] ≡ out = append-nil out in
      rw same (read_run-frames out (subst (λ xs. count_p too_long xs ≡ 0) same fits), sorted.0)
  first_run_lem (a ∷ b ∷ outs) le sorted fits = absurd (omega arith)

  -- What both entry points do with their runs.
  pub merged_lem :
      (k : ℕ) (ps : List (List Bytes))
      → 2 ≤ k
      → All (IsSorted comparator) ps
      → count_p too_long (concat ps) ≡ 0
      → (out : List Bytes) × ((passes comparator (suc (length (map frames ps))) k (map frames ps)
            >>= first_run)
          ≡ ok out)
        × IsSorted comparator out
        × ((q : Bytes → Bool) → count_p q out ≡ count_p q (concat ps))
  merged_lem k ps two sorted fits =
      let enough : length ps < suc (length (map frames ps)) = omega (arith, length-map frames ps) in
      let (outs, (done, ordered, counts), last) =
        passes_lem (suc (length (map frames ps))) k ps two enough sorted fits in
      let (read, all) = first_run_lem outs last ordered (omega (arith, counts too_long)) in
      (concat outs, rw done read, all, counts)

  -- `merge_sorted_runs` of sorted runs, with a fan-in of at least 2, ends and gives the records of
  -- all runs in order: each record as often as the runs hold it. The records fit the run format and
  -- the comparator is that of a total preorder.
  pub merge_sorted_runs-IsSorted :
      (k : ℕ) (ps : List (List Bytes))
      → 2 ≤ k
      → All (IsSorted comparator) ps
      → count_p too_long (concat ps) ≡ 0
      → (out : List Bytes) × (merge_sorted_runs comparator (map frames ps) (pos k) ≡ ok out)
        × IsSorted comparator out
        × ((q : Bytes → Bool) → count_p q out ≡ count_p q (concat ps))
  unfolding merge_sorted_runs at_least
  merge_sorted_runs-IsSorted k ps two sorted fits =
      let wide : leb 2 k ≡ true = ground arith in
      let (out, done, ordered, counts) = merged_lem k ps two sorted fits in
      (out, rw wide done, ordered, counts)
