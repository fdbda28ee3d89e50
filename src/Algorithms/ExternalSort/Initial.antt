-- ===== src/Algorithms/ExternalSort/Initial.antt =====
-- engine/algorithms/external_sort.py, `_create_initial_runs`: the runs hold all records, each of them
-- in order and inside the memory limit.
use mathlib.Core.List.{map-append}
use soup_db.Common.{
  ℕ, suc, ◌+◌, ◌≤◌, ◌<◌, ◌≡◌, refl, ap, subst, sym, ◌∙◌, ◌⊎◌, inl, inr, Bool, true, false, not,
  ◌&&◌, List, [], ◌∷◌, ◌++◌, map, ltb, leb, length, arith, All, Bool-cases, ok, ltb_false→le,
}
use soup_db.Common.Bytes.{Bytes}
use soup_db.Common.Int.{ℤ}
use soup_db.Common.Counts.{
  one, concat, count_p, count_p_none, count_p-append, count_p-concat-append,
}
use soup_db.Algorithms.Runs.RoundTrip.{frames, too_long, write_records_lem}
use soup_db.Algorithms.ExternalSort.{
  is_empty, serialized_size, lt_key, insort, sort, flush, create_runs,
}
use soup_db.Algorithms.ExternalSort.Order.{IsComparator, IsSorted, sort_lem}

concat_three :
    (q : Bytes → Bool) (xss yss zss : List (List Bytes))
    → count_p q (concat (xss ++ (yss ++ zss)))
      ≡ count_p q (concat xss) + count_p q (concat yss) + count_p q (concat zss)
concat_three q xss yss zss =
    omega (arith, count_p-concat-append q xss (yss ++ zss), count_p-concat-append q yss zss)

map-three :
    (xss yss zss : List (List Bytes))
    → map frames xss ++ (map frames yss ++ map frames zss) ≡ map frames (xss ++ (yss ++ zss))
map-three xss yss zss = simp map-append

leb_false→lt : (a b : ℕ) → leb a b ≡ false → b < a
leb_false→lt a b h = ground arith

-- The bytes that a chunk is counted for.
abbrev pub size : List Bytes → ℕ
size [] = 0
size (payload ∷ payloads) = serialized_size payload + size payloads

size-append : (xs ys : List Bytes) → size (xs ++ ys) ≡ size xs + size ys
size-append [] ys = omega arith
size-append (x ∷ xs) ys = omega (arith, size-append xs ys)

-- Inside the memory limit, or a single record.
abbrev pub Within : ℕ → List Bytes → Type 0
Within limit chunk = (size chunk ≤ limit) ⊎ (length chunk ≡ 1)

module _ (comparator : Bytes → Bytes → ℤ) where
  size-insort :
      (x : Bytes) (ys : List Bytes) → size (insort comparator x ys) ≡ serialized_size x + size ys
  unfolding insort
  size-insort x [] = refl
  size-insort x (y ∷ ys) = elim (Bool-cases (lt_key comparator y x)) [
    | inl t ↦ rw t (omega (arith, size-insort x ys))
    | inr f ↦ rw f refl
  ]

  size-sort : (xs : List Bytes) → size (sort comparator xs) ≡ size xs
  unfolding sort
  size-sort [] = refl
  size-sort (x ∷ xs) = omega (arith, size-insort x (sort comparator xs), size-sort xs)

  length-insort : (x : Bytes) (ys : List Bytes) → length (insort comparator x ys) ≡ suc (length ys)
  unfolding insort
  length-insort x [] = refl
  length-insort x (y ∷ ys) = elim (Bool-cases (lt_key comparator y x)) [
    | inl t ↦ rw t (ap suc (length-insort x ys))
    | inr f ↦ rw f refl
  ]

  length-sort : (xs : List Bytes) → length (sort comparator xs) ≡ length xs
  unfolding sort
  length-sort [] = refl
  length-sort (x ∷ xs) = omega (arith, length-insort x (sort comparator xs), length-sort xs)

  Within-sort :
      (limit : ℕ) (chunk : List Bytes) → Within limit chunk → Within limit (sort comparator chunk)
  Within-sort limit chunk (inl h) = inl (omega (arith, size-sort chunk))
  Within-sort limit chunk (inr h) = inr (omega (arith, length-sort chunk))

module _ (comparator : Bytes → Bytes → ℤ) (laws : IsComparator comparator) (limit : ℕ) where
  -- Runs in order and inside the limit.
  abbrev pub AreRuns : List (List Bytes) → Type 0
  AreRuns ps = All (IsSorted comparator) ps × All (Within limit) ps

  AreRuns-append : (ps qs : List (List Bytes)) → AreRuns ps → AreRuns qs → AreRuns (ps ++ qs)
  AreRuns-append [] qs h k = k
  AreRuns-append (p ∷ ps) qs (sorted, within) k =
      let (more, rest) = AreRuns-append ps qs (sorted.1, within.1) k in
      ((sorted.0, more), (within.0, rest))

  -- What a flush writes, and what it leaves in the chunk.
  record Flushed (b : Bool) (chunk : List Bytes) (used_bytes : ℕ) : Type 0 where
    runs : List (List Bytes)
    left : List Bytes
    used : ℕ
    done : flush comparator b chunk used_bytes ≡ ok (map frames runs, left, used)
    are : AreRuns runs
    sized : used ≡ size left
    counts : (q : Bytes → Bool) → count_p q (concat runs) + count_p q left ≡ count_p q chunk
    emptied : b ≡ true → left ≡ []
    kept : b ≡ false → left ≡ chunk

  flush-Flushed :
      (b : Bool) (chunk : List Bytes) (used_bytes : ℕ)
      → count_p too_long chunk ≡ 0
      → used_bytes ≡ size chunk
      → (b ≡ true → Within limit chunk)
      → Flushed b chunk used_bytes
  unfolding flush
  flush-Flushed false chunk used_bytes fits eq within = record {
    runs = [];
    left = chunk;
    used = used_bytes;
    done = refl;
    are = (tt, tt);
    sized = eq;
    counts = λ q. omega arith;
    emptied = λ h. cc;
    kept = λ h. refl;
  }
  flush-Flushed true chunk used_bytes fits eq within =
      let (sorted, same) = sort_lem comparator laws chunk in
      record {
        runs = sort comparator chunk ∷ [];
        left = [];
        used = 0;
        done = rw (write_records_lem (sort comparator chunk) (omega (arith, same too_long))) refl;
        are = ((sorted, tt), (Within-sort comparator limit chunk (within refl), tt));
        sized = refl;
        counts = λ q. omega (arith, same q, count_p-append q (sort comparator chunk) []);
        emptied = λ h. refl;
        kept = λ h. cc;
      }

  module _ (chunk : List Bytes) (payload : Bytes) (used_bytes : ℕ) where
    -- `chunk and used_bytes + record_size > memory_limit_bytes`
    abbrev overflows : Bool
    overflows = not (is_empty chunk) && ltb limit (used_bytes + serialized_size payload)

    -- The record fits beside what the first flush has left, or it is alone.
    added-Within :
        (left : List Bytes)
        → used_bytes ≡ size chunk
        → (overflows ≡ true → left ≡ [])
        → (overflows ≡ false → left ≡ chunk)
        → Within limit (left ++ payload ∷ [])
    added-Within left eq emptied kept = elim (Bool-cases overflows) [
      | inl t ↦ inr (ap (λ xs. length (xs ++ payload ∷ [])) (emptied t))
      | inr f ↦ subst (λ xs. Within limit (xs ++ payload ∷ [])) (sym (kept f)) (beside chunk eq f)
    ]
      where
        beside :
            (chunk : List Bytes)
            → used_bytes ≡ size chunk
            → (not (is_empty chunk) && ltb limit (used_bytes + serialized_size payload)) ≡ false
            → Within limit (chunk ++ payload ∷ [])
        beside [] eq f = inr refl
        beside (x ∷ chunk) eq f =
            let bound =
              ltb_false→le limit (used_bytes + serialized_size payload) (unfold is_empty in f) in
            inl (omega (arith, size-append (x ∷ chunk) (payload ∷ [])))

  last_kept :
      (q : Bytes → Bool) (chunk : List Bytes) → not (is_empty chunk) ≡ false → count_p q chunk ≡ 0
  unfolding is_empty
  last_kept q [] h = refl
  last_kept q (x ∷ chunk) h = cc

  -- The initial runs are written and hold the records of the chunk and of the input; each run is in
  -- order, and inside the memory limit unless it is a single record.
  pub create_runs_lem :
      (payloads chunk : List Bytes) (used_bytes : ℕ)
      → 1 ≤ limit
      → count_p too_long chunk ≡ 0
      → count_p too_long payloads ≡ 0
      → used_bytes ≡ size chunk
      → used_bytes < limit
      → (ps : List (List Bytes)) × (create_runs comparator limit payloads chunk used_bytes
          ≡ ok (map frames ps))
        × AreRuns ps
        × ((q : Bytes → Bool) → count_p q (concat ps) ≡ count_p q chunk + count_p q payloads)
  unfolding create_runs
  create_runs_lem [] chunk used_bytes pos fits all eq lt =
      let last =
        flush-Flushed (not (is_empty chunk)) chunk used_bytes fits eq (λ h. inl (omega arith)) in
      let nothing : (q : Bytes → Bool) → count_p q last.left ≡ 0 = λ q.
        elim (Bool-cases (not (is_empty chunk))) [
          | inl t ↦ ap (count_p q) (last.emptied t)
          | inr f ↦ ap (count_p q) (last.kept f) ∙ last_kept q chunk f
        ] in
      (last.runs, rw last.done refl, last.are, λ q. omega (arith, last.counts q, nothing q))
  create_runs_lem (payload ∷ payloads) chunk used_bytes pos fits all eq lt =
      let (short, others) = count_p_none too_long payload payloads all in
      let first =
        flush-Flushed (overflows chunk payload used_bytes) chunk used_bytes fits eq
          (λ h. inl (omega arith)) in
      let within = added-Within chunk payload used_bytes first.left eq first.emptied first.kept in
      let chunk' = first.left ++ payload ∷ [] in
      let total : ℕ = first.used + serialized_size payload in
      let more = λ (q : Bytes → Bool). count_p-append q first.left (payload ∷ []) in
      let second =
        flush-Flushed (leb limit total) chunk' total
          (omega (arith, more too_long, first.counts too_long, ap one short))
          (omega (arith, first.sized, size-append first.left (payload ∷ []))) (λ h. within) in
      let below : second.used < limit = elim (Bool-cases (leb limit total)) [
        | inl t ↦ omega (arith, second.sized, ap size (second.emptied t))
        | inr f ↦ omega (
          arith,
          second.sized,
          ap size (second.kept f),
          leb_false→lt limit total f,
          size-append first.left (payload ∷ []),
          first.sized,
        )
      ] in
      let (ps, done, are, counts) =
        create_runs_lem payloads second.left second.used pos
          (omega
            (arith, second.counts too_long, more too_long, first.counts too_long, ap one short))
          others second.sized below in
      (
        first.runs ++ (second.runs ++ ps),
        rw (first.done, second.done, done, map-three first.runs second.runs ps) refl,
        AreRuns-append first.runs (second.runs ++ ps) first.are
            (AreRuns-append second.runs ps second.are are),
        λ q. omega (
          arith,
          counts q,
          concat_three q first.runs second.runs ps,
          second.counts q,
          first.counts q,
          more q,
        ),
      )
