-- ===== src/Algorithms/ExternalSort/Sorting.antt =====
-- engine/algorithms/external_sort.py, `external_sort`, from its arguments to the records that it gives.
use soup_db.Common.{
  ℕ, ◌+◌, ◌≤◌, ◌≡◌, refl, ◌⊎◌, inl, inr, Bool, true, false, not, ◌&&◌, List, [], ◌∷◌, ◌++◌, leb,
  ltb, arith, Bool-cases, ok, raise, Exc,
}
use soup_db.Common.Bytes.{Bytes}
use soup_db.Common.Int.{ℤ, pos, negsuc}
use soup_db.Common.Counts.{count_p, count_p-append, SameItems}
use soup_db.Algorithms.Runs.RoundTrip.{too_long, frames, write_records_lem, write_records_long}
use soup_db.Algorithms.ExternalSort.{
  is_empty, serialized_size, at_least, sort, flush, create_runs, external_sort,
}
use soup_db.Algorithms.ExternalSort.Order.{IsComparator, IsSorted, sort_lem}
use soup_db.Algorithms.ExternalSort.Initial.{create_runs_lem}
use soup_db.Algorithms.ExternalSort.Passes.{merged_lem}

-- The integer is smaller.
abbrev pub below : ℕ → ℤ → Bool
below bound (pos n) = ltb n bound
below bound (negsuc n) = true

at_least-cases :
    (bound : ℕ) (n : ℤ)
    → (below bound n ≡ true) × (at_least bound n ≡ raise Exc.value_error)
      ⊎ ((k : ℕ) × (below bound n ≡ false) × (at_least bound n ≡ ok k))
unfolding at_least
at_least-cases bound (negsuc n) = inl (refl, refl)
at_least-cases bound (pos n) = elim (Bool-cases (leb bound n)) [
  | inl t ↦ inr (n, ground arith, rw t refl)
  | inr f ↦ inl (ground arith, rw f refl)
]

module _ (comparator : Bytes → Bytes → ℤ) (laws : IsComparator comparator) where
  -- A flush refuses a record that is too long, or leaves it in the chunk.
  flush_long :
      (b : Bool) (chunk : List Bytes) (used_bytes : ℕ)
      → (flush comparator b chunk used_bytes ≡ raise Exc.value_error)
        ⊎ ((r : List Bytes × List Bytes × ℕ) × (flush comparator b chunk used_bytes ≡ ok r)
            × (count_p too_long r.1 ≡ count_p too_long chunk))
  unfolding flush
  flush_long false chunk used_bytes = inr (([], chunk, used_bytes), refl, refl)
  flush_long true chunk used_bytes =
      let same = (sort_lem comparator laws chunk).1 too_long in
      elim (Bool-cases (ltb 0 (count_p too_long chunk))) [
        | inl t ↦ inl (rw (write_records_long (sort comparator chunk) (ground arith)) refl)
        | inr f ↦
            let none_long : count_p too_long (sort comparator chunk) ≡ 0 = ground arith in
            inr (
              (frames (sort comparator chunk) ∷ [], [], 0),
              rw (write_records_lem (sort comparator chunk) none_long) refl,
              ground arith,
            )
      ]

  last_long :
      (chunk : List Bytes) (used_bytes : ℕ)
      → 1 ≤ count_p too_long chunk
      → flush comparator (not (is_empty chunk)) chunk used_bytes ≡ raise Exc.value_error
  unfolding flush is_empty
  last_long [] used_bytes h = absurd (omega arith)
  last_long (x ∷ chunk) used_bytes h =
      let same = (sort_lem comparator laws (x ∷ chunk)).1 too_long in
      rw (write_records_long (sort comparator (x ∷ chunk)) (omega arith)) refl

  create_runs_long :
      (limit : ℕ) (payloads chunk : List Bytes) (used_bytes : ℕ)
      → 1 ≤ count_p too_long chunk + count_p too_long payloads
      → create_runs comparator limit payloads chunk used_bytes ≡ raise Exc.value_error
  unfolding create_runs
  create_runs_long limit [] chunk used_bytes h = rw (last_long chunk used_bytes (omega arith)) refl
  create_runs_long limit (payload ∷ payloads) chunk used_bytes h =
      let total = used_bytes + serialized_size payload in
      elim (flush_long (not (is_empty chunk) && ltb limit total) chunk used_bytes) [
        | inl e ↦ rw e refl
        | inr (first, e, same) ↦
            let chunk' = first.1 ++ payload ∷ [] in
            let total' : ℕ = first.2 + serialized_size payload in
            elim (flush_long (leb limit total') chunk' total') [
              | inl e' ↦ rw (e, e') refl
              | inr (second, e', same') ↦
                  rw
                    (
                      e,
                      e',
                      create_runs_long limit payloads second.1 second.2 (
                          omega
                            (arith, same, same', count_p-append too_long first.1 (payload ∷ []))),
                    )
                    refl
            ]
      ]

  -- `external_sort` ends and gives the records it was given in order: each of them as often, and
  -- none before one that has to come first. The memory limit is positive, the fan-in at least 2, no
  -- record is longer than its length field can say, and the comparator is that of a total preorder.
  pub external_sort-IsSorted :
      (payloads : List Bytes) (memory_limit_bytes fan_in : ℕ)
      → 1 ≤ memory_limit_bytes
      → 2 ≤ fan_in
      → count_p too_long payloads ≡ 0
      → (out : List Bytes) × (external_sort comparator payloads
            (pos memory_limit_bytes)
            (pos fan_in)
          ≡ ok out)
        × IsSorted comparator out
        × SameItems out payloads
  unfolding external_sort at_least
  external_sort-IsSorted payloads memory_limit_bytes fan_in one_byte two fits =
      let limit : leb 1 memory_limit_bytes ≡ true = ground arith in
      let wide : leb 2 fan_in ≡ true = ground arith in
      let (ps, written, (sorted, within), counts) =
        create_runs_lem comparator laws memory_limit_bytes payloads [] 0 one_byte refl fits refl
          (omega arith) in
      let (out, done, ordered, all) =
        merged_lem comparator laws fan_in ps two sorted (omega (arith, counts too_long)) in
      (out, rw (limit, wide, written) done, ordered, λ q. omega (arith, all q, counts q))

  -- Every other call of `external_sort` raises ValueError: a memory limit that is not positive, a
  -- fan-in below 2, or some record of more than 2 ** 32 - 1 bytes.
  pub external_sort-eq-raise :
      (payloads : List Bytes) (memory_limit_bytes fan_in : ℤ)
      → (below 1 memory_limit_bytes ≡ true)
        ⊎ (below 2 fan_in ≡ true)
        ⊎ (1 ≤ count_p too_long payloads)
      → external_sort comparator payloads memory_limit_bytes fan_in ≡ raise Exc.value_error
  unfolding external_sort
  external_sort-eq-raise payloads memory_limit_bytes fan_in h =
      elim (at_least-cases 1 memory_limit_bytes) [
        | inl (_, e) ↦ rw e refl
        | inr (limit, big, e) ↦ elim (at_least-cases 2 fan_in) [
          | inl (_, e') ↦ rw (e, e') refl
          | inr (width, wide, e') ↦
              let long : 1 ≤ count_p too_long payloads = elim h [
                | inl t ↦ cc
                | inr (inl t) ↦ cc
                | inr (inr n) ↦ n
              ] in
              rw (e, e', create_runs_long limit payloads [] 0 (omega arith)) refl
        ]
      ]
