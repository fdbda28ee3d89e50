-- ===== src/Algorithms/ExternalSort/Merge/Fill.antt =====
-- engine/algorithms/external_sort.py, `_merge_runs`: the first record of every run goes to the heap.
use mathlib.Core.List.{append_assoc, append-nil}
use soup_db.Common.{
  ℕ, ◌+◌, ◌≡◌, refl, ap, subst, sym, ◌∙◌, Bool, some, List, [], ◌∷◌, ◌++◌, map, length, get_elem?,
  set, arith, All, ok, length-append, get_elem?-append, set-append,
}
use soup_db.Common.Bytes.{Bytes}
use soup_db.Common.Int.{ℤ}
use soup_db.Common.Counts.{concat, count_p, count_p-append, count_p-le, count_p-concat-set}
use soup_db.Algorithms.Runs.RoundTrip.{frames, too_long}
use soup_db.Algorithms.ExternalSort.{Entry, Merging, pushed, fill}
use soup_db.Algorithms.ExternalSort.Merge.Refill.{
  first_of, rest_of, read_record-frames, entries, entries-Ready, rest-IsSorted, count_p-entries,
  heap-pushed, files-pushed, get-fits, beyond, beyond-entries, held,
}
use soup_db.Algorithms.ExternalSort.Order.{IsSorted}
use soup_db.Algorithms.ExternalSort.Merge.Pending.{leads, Covered, Invariant, Keeps, Covered-append}

module _ (comparator : Bytes → Bytes → ℤ) where
  -- Some runs have been started, the others not yet.
  pub record Filling (s : Merging) (ps more : List (List Bytes)) : Type 0 where
    pub opened : s.files ≡ map frames (ps ++ more)
    pub ranged : count_p (beyond (length ps)) s.heap ≡ 0
    pub covered : Covered comparator s.heap 0 ps
    pub heap_fits : count_p (λ e. too_long e.payload) s.heap ≡ 0
    pub pending_fits : count_p too_long (concat (ps ++ more)) ≡ 0
    pub sorted : All (IsSorted comparator) more

  append-Keeps : (heap new : List Entry) (i : ℕ) → Keeps comparator heap (new ++ heap) i
  append-Keeps heap new i j [] ne h = tt
  append-Keeps heap new i j (x ∷ p) ne h =
      let q = leads comparator j (x ∷ p) in omega (arith, count_p-append q new heap, h)

  module _ (s : Merging) (ps : List (List Bytes)) (p : List Bytes) (more : List (List Bytes))
      (h : Filling s ps (p ∷ more)) where
    abbrev i : ℕ
    i = length ps

    found : get_elem? (ps ++ p ∷ more) i ≡ some p
    found = get_elem?-append ps more p

    advanced : set (ps ++ p ∷ more) i (rest_of p) ≡ (ps ++ rest_of p ∷ []) ++ more
    advanced = set-append ps more p (rest_of p) ∙ sym (append_assoc ps (rest_of p ∷ []) more)

    next_counts :
        (q : Bytes → Bool)
        → held q (pushed i (first_of p) s).heap ((ps ++ rest_of p ∷ []) ++ more)
          ≡ held q s.heap (ps ++ p ∷ more)
    next_counts q = omega (
      arith,
      ap (count_p (λ (e : Entry). q e.payload)) (heap-pushed i s p),
      count_p-entries q s.sequence i p s.heap,
      count_p-concat-set q (ps ++ p ∷ more) i p (rest_of p) found,
      ap (λ xss. count_p q (concat xss)) advanced,
    )

    next_Filling : Filling (pushed i (first_of p) s) (ps ++ rest_of p ∷ []) more
    next_Filling =
        let heap_eq = sym (heap-pushed i s p) in
        let longer : length (ps ++ rest_of p ∷ []) ≡ length ps + 1 =
          omega (arith, length-append ps (rest_of p ∷ [])) in
        let n = length (ps ++ rest_of p ∷ []) in
        let fewer = count_p-le (beyond n) (beyond (length ps)) (λ e t. ground arith) s.heap in
        let sorted = h.sorted.0 in
        record {
          opened = files-pushed i s (ps ++ p ∷ more) p h.opened found ∙ ap (map frames) advanced;
          ranged =
              subst (λ heap. count_p (beyond n) heap ≡ 0) heap_eq
                (beyond-entries n s.sequence i p s.heap (omega arith)
                  (omega (arith, fewer, h.ranged)));
          covered =
              subst (λ heap. Covered comparator heap 0 (ps ++ rest_of p ∷ [])) heap_eq
                (Covered-append comparator s.heap (entries s.sequence i p ++ s.heap) i 0 ps
                  (rest_of p) (append-Keeps s.heap (entries s.sequence i p) i) (omega arith)
                  (entries-Ready comparator s.sequence i p s.heap sorted)
                  (rest-IsSorted comparator p sorted) h.covered);
          heap_fits = omega (arith, next_counts too_long, h.heap_fits, h.pending_fits);
          pending_fits = omega (arith, next_counts too_long, h.heap_fits, h.pending_fits);
          sorted = h.sorted.1;
        }

  -- The loop goes on with the runs that are not started.
  pub fill_lem :
      (s : Merging) (ps more : List (List Bytes))
      → Filling s ps more
      → (s' : Merging) × (ps' : List (List Bytes)) × (fill (length ps) (map frames more) s ≡ ok s')
        × Invariant comparator s' ps'
        × ((q : Bytes → Bool) → held q s'.heap ps' ≡ held q s.heap (ps ++ more))
  unfolding fill
  fill_lem s ps [] h =
      let all = append-nil ps in
      (
        s,
        ps,
        refl,
        record {
          opened = subst (λ xss. s.files ≡ map frames xss) all h.opened;
          ranged = h.ranged;
          covered = h.covered;
          heap_fits = h.heap_fits;
          pending_fits = subst (λ xss. count_p too_long (concat xss) ≡ 0) all h.pending_fits;
        },
        λ q. ap (held q s.heap) (sym all),
      )
  fill_lem s ps (p ∷ more) h =
      let s1 = pushed (length ps) (first_of p) s in
      let longer : length ps + 1 ≡ length (ps ++ rest_of p ∷ []) =
        omega (arith, length-append ps (rest_of p ∷ [])) in
      let (s', ps', done, inv, counts) =
        fill_lem s1 (ps ++ rest_of p ∷ []) more (next_Filling s ps p more h) in
      (
        s',
        ps',
        rw
            (
              read_record-frames p
                  (get-fits (ps ++ p ∷ more) (length ps) (found s ps p more h) h.pending_fits),
              longer,
            )
            done,
        inv,
        λ q. counts q ∙ next_counts s ps p more h q,
      )
