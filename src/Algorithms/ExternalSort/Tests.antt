-- ===== src/Algorithms/ExternalSort/Tests.antt =====
-- Runs and sorts of a few short records, compared by their lengths and by their first bytes.
use soup_db.Common.Struct.{unpack_le}
use soup_db.Common.Struct.{pack_le}
use soup_db.Algorithms.Runs.{read_record}
use soup_db.Common.Struct.{pack_unsigned_le}
use soup_db.Algorithms.Runs.{write_record}
use soup_db.Common.{
  ℕ, ◌+◌, ◌≡◌, refl, ◌⊎◌, inl, inr, Bool, none, some, List, [], ◌∷◌, map, ltb, length, arith,
  if◌then◌else◌, ok, raise, Exc,
}
use soup_db.Common.Bytes.{Bytes}
use soup_db.Common.Int.{ℤ, pos, negsuc}
use soup_db.Common.Counts.{concat, count_p, SameItems}
use soup_db.Algorithms.Runs.{write_records, read_run, write_sorted_run, is_positive, is_negative}
use soup_db.Algorithms.Runs.RoundTrip.{frames, read_run-write_records}
use soup_db.Algorithms.ExternalSort.{external_sort, merge_sorted_runs, create_runs}
use soup_db.Algorithms.ExternalSort.Order.{IsComparator, IsSorted}
use soup_db.Algorithms.ExternalSort.Sorting.{external_sort-IsSorted, external_sort-eq-raise}
use soup_db.Algorithms.ExternalSort.Passes.{merge_sorted_runs-IsSorted}
use soup_db.Algorithms.ExternalSort.Initial.{create_runs_lem, AreRuns}
use soup_db.Algorithms.ExternalSort.Checked.{write_sorted_run-IsRun, IsRun}

-- a - b
abbrev difference : ℕ → ℕ → ℤ
difference a b = if ltb a b then negsuc 0 else if ltb b a then pos 1 else pos 0

abbrev by_length : Bytes → Bytes → ℤ
by_length a b = difference (length a) (length b)

by_length-IsComparator : IsComparator by_length
unfolding is_positive is_negative
by_length-IsComparator = record {
  opposite = λ a b. ground arith;
  transitive = λ a b c h k. ground arith;
}

abbrev records : List Bytes
records = (1 ∷ 2 ∷ 3 ∷ []) ∷ (4 ∷ []) ∷ (5 ∷ 6 ∷ []) ∷ (7 ∷ []) ∷ [] ∷ []

abbrev sorted_records : List Bytes
sorted_records = [] ∷ (4 ∷ []) ∷ (7 ∷ []) ∷ (5 ∷ 6 ∷ []) ∷ (1 ∷ 2 ∷ 3 ∷ []) ∷ []

sorted_records-IsSorted : IsSorted by_length sorted_records
unfolding is_positive
sorted_records-IsSorted = (refl, (refl, (refl, (refl, (refl, tt)))))

-- Runs of 9 bytes: five runs, three groups, two, one.
sorts : external_sort by_length records (pos 9) (pos 2) ≡ ok sorted_records
unfolding external_sort write_records write_record pack_unsigned_le is_negative read_record pack_le
    unpack_le is_positive read_run
sorts = refl

no_memory : external_sort by_length records (pos 0) (pos 2) ≡ raise Exc.value_error
unfolding external_sort
no_memory = refl

truncated : read_run (2 ∷ 0 ∷ 0 ∷ 0 ∷ 9 ∷ []) ≡ raise Exc.value_error
unfolding read_run unpack_le
truncated = refl

disordered : write_sorted_run by_length none ((1 ∷ []) ∷ [] ∷ []) ≡ (raise Exc.value_error, none)
unfolding write_sorted_run write_record pack_unsigned_le
disordered = refl

external_sort-IsSorted_example :
    (out : List Bytes) × (external_sort by_length records (pos 9) (pos 2) ≡ ok out)
    × IsSorted by_length out
    × SameItems out records
external_sort-IsSorted_example =
    external_sort-IsSorted by_length by_length-IsComparator records 9 2 (omega arith) (omega arith)
      refl

external_sort-eq-raise_example :
    external_sort by_length records (pos 9) (negsuc 0) ≡ raise Exc.value_error
external_sort-eq-raise_example =
    external_sort-eq-raise by_length by_length-IsComparator records (pos 9) (negsuc 0)
      (inr (inl refl))

merge_sorted_runs-IsSorted_example :
    (out : List Bytes) × (merge_sorted_runs by_length
        (map frames (sorted_records ∷ sorted_records ∷ []))
        (pos 2)
      ≡ ok out)
    × IsSorted by_length out
    × ((q : Bytes → Bool)
        → count_p q out ≡ count_p q (concat (sorted_records ∷ sorted_records ∷ [])))
merge_sorted_runs-IsSorted_example =
    merge_sorted_runs-IsSorted by_length by_length-IsComparator 2
      (sorted_records ∷ sorted_records ∷ []) (omega arith)
      (sorted_records-IsSorted, (sorted_records-IsSorted, tt)) refl

create_runs_lem_example :
    (ps : List (List Bytes)) × (create_runs by_length 9 records [] 0 ≡ ok (map frames ps))
    × AreRuns by_length by_length-IsComparator 9 ps
    × ((q : Bytes → Bool) → count_p q (concat ps) ≡ count_p q [] + count_p q records)
create_runs_lem_example =
    create_runs_lem by_length by_length-IsComparator 9 records [] 0 (omega arith) refl refl refl
      (omega arith)

read_run-write_records_example :
    read_run (0 ∷ 0 ∷ 0 ∷ 0 ∷ 1 ∷ 0 ∷ 0 ∷ 0 ∷ 4 ∷ []) ≡ ok ([] ∷ (4 ∷ []) ∷ [])
unfolding write_records write_record pack_unsigned_le pack_le
read_run-write_records_example = read_run-write_records ([] ∷ (4 ∷ []) ∷ []) both_written
  where
    both_written : write_records ([] ∷ (4 ∷ []) ∷ []) ≡ ok (0 ∷ 0 ∷ 0 ∷ 0 ∷ 1 ∷ 0 ∷ 0 ∷ 0 ∷ 4 ∷ [])
    both_written = refl

write_sorted_run-IsRun_example :
    ((file : Bytes) × (write_sorted_run by_length none sorted_records ≡ (ok tt, some file))
      × (read_run file ≡ ok sorted_records)
      × IsRun by_length sorted_records)
    ⊎ (write_sorted_run by_length none sorted_records ≡ (raise Exc.value_error, none))
      × ¬ IsRun by_length sorted_records
write_sorted_run-IsRun_example =
    write_sorted_run-IsRun by_length by_length-IsComparator sorted_records
