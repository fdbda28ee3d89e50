-- ===== src/Algorithms/ExternalSort/Checked.antt =====
-- engine/algorithms/external_sort.py, `write_sorted_run`: which records it writes, and what it leaves.
use soup_db.Common.{
  ◌≡◌, refl, ap, ◌⊎◌, inl, inr, Option, none, some, List, [], ◌∷◌, arith, Bool-cases, ok, raise,
  Exc,
}
use soup_db.Common.Bytes.{Bytes}
use soup_db.Common.Int.{ℤ}
use soup_db.Common.Counts.{one, count_p, count_p_none}
use soup_db.Algorithms.Runs.{in_order, write_checked, written, write_sorted_run, read_run}
use soup_db.Algorithms.Runs.RoundTrip.{
  too_long, frames, write_record_lem, write_record_long, read_run-frames,
}
use soup_db.Algorithms.ExternalSort.Order.{IsComparator, after, IsSorted, none_after}

module _ (comparator : Bytes → Bytes → ℤ) where
  -- The records may follow the one before.
  abbrev Follows : Option Bytes → List Bytes → Type 0
  Follows none payloads = Unit
  Follows (some previous) payloads = count_p (after comparator previous) payloads ≡ 0

  -- What `write_sorted_run` wants of the records.
  abbrev pub IsRun : List Bytes → Type 0
  IsRun payloads = IsSorted comparator payloads × (count_p too_long payloads ≡ 0)

  in_order-cases :
      (previous : Option Bytes) (payload : Bytes)
      → (in_order comparator previous payload ≡ ok tt) × Follows previous (payload ∷ [])
        ⊎ (in_order comparator previous payload ≡ raise Exc.value_error)
          × ¬ Follows previous (payload ∷ [])
  unfolding in_order
  in_order-cases none payload = inl (refl, tt)
  in_order-cases (some previous) payload = elim (Bool-cases (after comparator previous payload)) [
    | inl t ↦ inr (rw t refl, λ all. absurd (omega (arith, ap one t)))
    | inr f ↦ inl (rw f refl, omega (arith, ap one f))
  ]

  Follows-head :
      (previous : Option Bytes) (payload : Bytes) (payloads : List Bytes)
      → Follows previous (payload ∷ payloads)
      → Follows previous (payload ∷ [])
  Follows-head none payload payloads h = tt
  Follows-head (some previous) payload payloads h = omega arith

  -- The records may be written after the one before.
  abbrev Writable : Option Bytes → List Bytes → Type 0
  Writable previous payloads = IsRun payloads × Follows previous payloads

module _ (comparator : Bytes → Bytes → ℤ) (laws : IsComparator comparator) where
  Follows-cons :
      (previous : Option Bytes) (payload : Bytes) (payloads : List Bytes)
      → Follows comparator previous (payload ∷ [])
      → count_p (after comparator payload) payloads ≡ 0
      → Follows comparator previous (payload ∷ payloads)
  Follows-cons none payload payloads h k = tt
  Follows-cons (some previous) payload payloads h k =
      let (first, _) = count_p_none (after comparator previous) payload [] h in
      omega (arith, ap one first, none_after comparator laws previous payload payloads first k)

  write_checked-cases :
      (previous : Option Bytes) (payloads : List Bytes)
      → (write_checked comparator previous payloads ≡ ok (frames payloads))
          × Writable comparator previous payloads
        ⊎ (write_checked comparator previous payloads ≡ raise Exc.value_error)
          × ¬ Writable comparator previous payloads
  unfolding write_checked frames
  write_checked-cases none [] = inl (refl, ((tt, refl), tt))
  write_checked-cases (some previous) [] = inl (refl, ((tt, refl), refl))
  write_checked-cases previous (payload ∷ payloads) =
      elim (in_order-cases comparator previous payload) [
        | inr (e, bad) ↦
            inr (rw e refl, λ w. bad (Follows-head comparator previous payload payloads w.1))
        | inl (e, ordered) ↦ elim (Bool-cases (too_long payload)) [
          | inl t ↦ inr (
            rw (e, write_record_long payload t) refl,
            λ w. absurd (omega (arith, w.0.1, ap one t)),
          )
          | inr f ↦ elim (write_checked-cases (some payload) payloads) [
            | inr (e', bad) ↦ inr (
              rw (e, write_record_lem payload f, e') refl,
              λ w. bad ((w.0.0.1, omega (arith, w.0.1)), w.0.0.0),
            )
            | inl (e', ((sorted, fits), low)) ↦ inl (
              rw (e, write_record_lem payload f, e') refl,
              (
                ((low, sorted), omega (arith, ap one f, fits)),
                Follows-cons previous payload payloads ordered low,
              ),
            )
          ]
        ]
      ]

  -- `write_sorted_run` on a new path: the file is written and is read back as the records, or
  -- ValueError is raised and nothing is at the path. The first is so exactly when the records are in
  -- order and none of them is too long. The comparator is that of a total preorder.
  pub write_sorted_run-IsRun :
      (payloads : List Bytes)
      → ((file : Bytes) × (write_sorted_run comparator none payloads ≡ (ok tt, some file))
          × (read_run file ≡ ok payloads)
          × IsRun comparator payloads)
        ⊎ (write_sorted_run comparator none payloads ≡ (raise Exc.value_error, none))
          × ¬ IsRun comparator payloads
  unfolding write_sorted_run written
  write_sorted_run-IsRun payloads = elim (write_checked-cases none payloads) [
    | inl (e, (fine, _)) ↦ inl (frames payloads, rw e refl, read_run-frames payloads fine.1, fine)
    | inr (e, bad) ↦ inr (rw e refl, λ fine. bad (fine, tt))
  ]
