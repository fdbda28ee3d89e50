-- ===== src/Algorithms/ExternalSort/Merge.antt =====
-- engine/algorithms/external_sort.py, `_merge_runs`: merging sorted runs gives one sorted run of
-- the same records.
pub mod Pending
pub mod Refill
pub mod Fill
use mathlib.Core.List.{append_assoc}
use soup_db.Common.{
  ℕ, zero, suc, ◌+◌, ◌≤◌, ◌<◌, ◌≡◌, ◌≢◌, ◌⊎◌, refl, ap, subst, sym, ◌∙◌, inl, inr, Bool, true,
  false, not, ◌&&◌, none, some, List, [], ◌∷◌, ◌++◌, map, Option, ltb, ◌==◌, length, get_elem?, set,
  arith, All, Bool-cases, Result, ok, ◌>>=◌, Exc, or_raise, length-append, get_elem?-append,
  set-append, length-set, set-get_elem?, get_elem?_total, get_elem?-map, set-map,
}
use soup_db.Common.Bytes.{Bytes}
use soup_db.Common.Int.{ℤ}
use soup_db.Common.Counts.{
  one, concat, count_p, count_p_pos, count_p-append, count_p_none, count_p-concat-set,
}
use soup_db.Algorithms.Runs.{read_record, write_record}
use soup_db.Algorithms.Runs.RoundTrip.{
  frame, frames, too_long, read_record_lem, write_record_lem, length-frame,
}
use soup_db.Algorithms.ExternalSort.{
  Entry, Merging, push, pushed, fill, heappop, refill, merge_round, merge_rounds, merge_runs,
  total_size,
}
use soup_db.Algorithms.ExternalSort.Merge.Refill.{held, refill_lem}
use soup_db.Algorithms.ExternalSort.Merge.Fill.{Filling, fill_lem}
use soup_db.Algorithms.ExternalSort.Order.{IsComparator, after, IsSorted, Smallest, heappop_lem}
use soup_db.Algorithms.ExternalSort.Merge.Pending.{
  leads, Ready, Covered, Invariant, Keeps, Covered-set, Covered-append, Covered-IsSorted,
  Covered-nil, Covered-low,
}

records-le-frames :
    (payloads : List Bytes) → count_p (λ x. true) payloads ≤ length (frames payloads)
unfolding frames
records-le-frames [] = omega arith
records-le-frames (payload ∷ payloads) = omega (
  arith,
  length-append (frame payload) (frames payloads),
  length-frame payload,
  records-le-frames payloads,
)

records-le-size :
    (ps : List (List Bytes)) → count_p (λ x. true) (concat ps) ≤ total_size (map frames ps)
unfolding total_size
records-le-size [] = omega arith
records-le-size (p ∷ ps) = omega (
  arith,
  count_p-append (λ (x : Bytes). true) p (concat ps),
  records-le-frames p,
  records-le-size ps,
)

module _ (comparator : Bytes → Bytes → ℤ) (laws : IsComparator comparator) where
  -- The heap gives an entry back, or it is empty and so is everything.
  popped :
      (heap : List Entry)
      → (heap ≡ []) × (heappop comparator heap ≡ none)
        ⊎ ((m : Entry) × (rest : List Entry) × (heappop comparator heap ≡ some (m, rest))
            × Smallest comparator laws heap (m, rest))
  popped [] = unfold heappop in inl (refl, refl)
  popped (x ∷ heap) = inr (heappop_lem comparator laws x heap)

  -- One sorted list of all that the heap and the files hold.
  abbrev Merges : Result Bytes → (s : Merging) → List (List Bytes) → Type 0
  Merges result s ps =
      (out : List Bytes) × (result ≡ ok (frames out))
      × IsSorted comparator out
      × ((q : Bytes → Bool) → count_p q out ≡ held q s.heap ps)

  merge_rounds_lem :
      (fuel : ℕ) (s : Merging) (ps : List (List Bytes))
      → Invariant comparator s ps
      → held (λ x. true) s.heap ps < fuel
      → Merges (merge_rounds comparator fuel s) s ps
  unfolding merge_rounds merge_round frames
  merge_rounds_lem zero s ps inv lt = absurd (omega arith)
  merge_rounds_lem (suc fuel) s ps inv lt = elim (popped s.heap) [
    | inl (empty, pop) ↦
        let nothing = subst (λ h. Covered comparator h 0 ps) empty inv.covered in
        (
          [],
          rw pop refl,
          tt,
          λ q. omega (
            arith,
            ap (count_p (λ (e : Entry). q e.payload)) empty,
            Covered-nil comparator q 0 ps nothing,
          ),
        )
    | inr (m, rest, pop, least) ↦
        let (s', ps', step, inv', counts) = refill_lem comparator laws s ps m rest inv least in
        let smaller : held (λ x. true) s'.heap ps' < fuel =
          omega (arith, counts (λ x. true), least.0 (λ x. true), lt) in
        let (out, done, sorted, all) = merge_rounds_lem fuel s' ps' inv' smaller in
        let fits : count_p too_long (m.payload ∷ []) ≡ 0 =
          omega (arith, least.0 (λ e. too_long e.payload), inv.heap_fits) in
        let low_heap = least.0 (λ e. after comparator m.payload e.payload) in
        let low_files = Covered-low comparator laws s.heap 0 ps m.payload least.1 inv.covered in
        (
          m.payload ∷ out,
          rw
              (
                pop,
                write_record_lem m.payload (count_p_none too_long m.payload [] fits).0,
                step,
                done,
              )
              refl,
          (
            omega (
              arith,
              all (after comparator m.payload),
              counts (after comparator m.payload),
              low_heap,
              least.1,
              low_files,
            ),
            sorted,
          ),
          λ q. omega (arith, all q, counts q, least.0 (λ e. q e.payload)),
        )
  ]

  -- Merging sorted runs writes one sorted run with the records of all of them, for records that fit
  -- the format.
  pub merge_runs_lem :
      (ps : List (List Bytes))
      → All (IsSorted comparator) ps
      → count_p too_long (concat ps) ≡ 0
      → (out : List Bytes) × (merge_runs comparator (map frames ps) ≡ ok (frames out))
        × IsSorted comparator out
        × ((q : Bytes → Bool) → count_p q out ≡ count_p q (concat ps))
  unfolding merge_runs
  merge_runs_lem ps sorted fits =
      let start : Merging = record { files = map frames ps; heap = []; sequence = 0 } in
      let ready : Filling comparator start [] ps = record {
        opened = refl;
        ranged = refl;
        covered = tt;
        heap_fits = refl;
        pending_fits = fits;
        sorted = sorted;
      } in
      let (s, ps', filled, inv, counts) = fill_lem comparator start [] ps ready in
      let enough : held (λ x. true) s.heap ps' < suc (total_size (map frames ps)) =
        omega (arith, counts (λ x. true), records-le-size ps) in
      let (out, done, ordered, all) =
        merge_rounds_lem (suc (total_size (map frames ps))) s ps' inv enough in
      (out, rw filled done, ordered, λ q. omega (arith, all q, counts q))
