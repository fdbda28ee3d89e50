-- ===== src/Algorithms/ExternalSort.antt =====
-- engine/algorithms/external_sort.py: sorted runs that fit in memory, and their merge in passes. A
-- path stands for the bytes of its file: each file is written once and read afterwards, under a name
-- that no other file has. `heapq` is a list whose smallest entry is taken, `list.sort` a stable
-- insertion sort. The comparator is the caller's; it raises nothing, and its sign is what counts.
pub mod Order
pub mod Initial
pub mod Merge
pub mod Passes
pub mod Sorting
pub mod Checked
mod Tests
use soup_db.Common.{
  ℕ, zero, suc, ◌+◌, Bool, true, false, ◌&&◌, ◌||◌, not, Option, none, some, List, [], ◌∷◌, ◌++◌,
  Exc, Result, ok, raise, ◌>>=◌, ◌>>◌, require, or_raise, leb, ltb, ◌==◌, if◌then◌else◌, length,
  take, drop, get_elem?, set,
}
use soup_db.Common.Bytes.{Bytes}
use soup_db.Common.Int.{ℤ, pos, negsuc}
use soup_db.Algorithms.Runs.{
  length_size, is_positive, is_negative, write_record, write_records, read_record, read_run,
}

-- `_serialized_size`
unfoldable pub serialized_size : Bytes → ℕ
serialized_size payload = length_size + length payload

-- An entry of the heap: the record is its key too.
pub record Entry : Type 0 where
  pub payload : Bytes
  pub sequence : ℕ
  pub run_index : ℕ

unfoldable pub is_empty : {A : Type 0} → List A → Bool
is_empty [] = true
is_empty (x ∷ xs) = false

-- Where the merge stands: the files that are being read, the heap, and the next sequence number.
pub record Merging : Type 0 where
  pub files : List Bytes
  pub heap : List Entry
  pub sequence : ℕ

unfoldable pub push : Bytes → ℕ → Merging → Merging
push payload run_index s = record s {
  heap = record { payload = payload; sequence = s.sequence; run_index = run_index } ∷ s.heap;
  sequence = s.sequence + 1;
}

-- What `_read_record` gave for a run: the record goes to the heap, and the file is read further.
unfoldable pub pushed : ℕ → Option (Bytes × Bytes) → Merging → Merging
unfolding push
pushed run_index none s = s
pushed run_index (some (payload, file)) s =
    push payload run_index (record s { files = set s.files run_index file })

-- The loop that fills the heap, from the run of the given index on.
unfoldable pub fill : ℕ → List Bytes → Merging → Result Merging
unfolding pushed
fill run_index [] s = ok s
fill run_index (file ∷ files) s = do
  found ← read_record file
  fill (run_index + 1) files (pushed run_index found s)

-- `groups` of at most `fan_in` runs each.
unfoldable pub groups : {A : Type 0} → ℕ → ℕ → List A → List (List A)
unfolding is_empty
groups zero fan_in runs = []
groups (suc fuel) fan_in runs =
    let rest = groups fuel fan_in (drop fan_in runs) in
    if is_empty runs then [] else take fan_in runs ∷ rest

-- An integer that is not below the bound.
unfoldable pub at_least : ℕ → ℤ → Result ℕ
at_least bound (pos n) = if leb bound n then ok n else raise Exc.value_error
at_least bound (negsuc n) = raise Exc.value_error

-- `range(0, len(runs), fan_in)` has no more starts than there are runs.
abbrev pub in_groups : {A : Type 0} → ℕ → List A → List (List A)
in_groups fan_in runs = groups (length runs) fan_in runs

unfoldable pub first_run : List Bytes → Result (List Bytes)
first_run [] = ok []
first_run (run ∷ runs) = read_run run

-- No more records are read than the inputs have bytes.
unfoldable pub total_size : List Bytes → ℕ
total_size [] = 0
total_size (file ∷ files) = length file + total_size files

module _ (comparator : Bytes → Bytes → ℤ) where
  -- `order_key(a) < order_key(b)`
  unfoldable pub lt_key : Bytes → Bytes → Bool
  lt_key a b = is_negative (comparator a b)

  -- `order_key(a) == order_key(b)`
  unfoldable pub eq_key : Bytes → Bytes → Bool
  eq_key a b = not (is_positive (comparator a b) || is_negative (comparator a b))

  -- Tuples compare by the key, and by the sequence number where the keys are equal.
  unfoldable pub before : Entry → Entry → Bool
  unfolding lt_key eq_key
  before a b =
      if eq_key a.payload b.payload then ltb a.sequence b.sequence else lt_key a.payload b.payload

  unfoldable pub smaller : Entry → Option (Entry × List Entry) → Entry × List Entry
  unfolding before
  smaller x none = (x, [])
  smaller x (some (y, rest)) = if before y x then (y, x ∷ rest) else (x, y ∷ rest)

  -- `heapq.heappop`, and `none` for an empty heap.
  unfoldable pub heappop : List Entry → Option (Entry × List Entry)
  unfolding smaller
  heappop [] = none
  heappop (x ∷ heap) = some (smaller x (heappop heap))

  -- The second half of a round of the merge: the run of the smallest entry is read on.
  unfoldable pub refill : Entry → List Entry → Merging → Result Merging
  unfolding pushed
  refill entry heap s = do
    file ← or_raise Exc.index_error (get_elem? s.files entry.run_index)
    found ← read_record file
    ok (pushed entry.run_index found (record s { heap = heap }))

  -- One round of the merge, with the rest of the loop.
  unfoldable pub merge_round :
      Option (Entry × List Entry) → Merging → (Merging → Result Bytes) → Result Bytes
  unfolding refill
  merge_round none s rest = ok []
  merge_round (some (entry, heap)) s rest = do
    first ← write_record entry.payload
    next ← refill entry heap s
    later ← rest next
    ok (first ++ later)

  -- The loop, in at most the given number of rounds.
  unfoldable pub merge_rounds : ℕ → Merging → Result Bytes
  unfolding merge_round heappop
  merge_rounds zero s = raise Exc.runtime_error
  merge_rounds (suc fuel) s = merge_round (heappop s.heap) s (merge_rounds fuel)

  -- `_merge_runs`: the contents of the output.
  unfoldable pub merge_runs : List Bytes → Result Bytes
  unfolding fill merge_rounds total_size
  merge_runs inputs = do
    s ← fill 0 inputs (record { files = inputs; heap = []; sequence = 0 })
    merge_rounds (suc (total_size inputs)) s

  -- A group of one run is passed on as it is.
  unfoldable pub merge_group : List Bytes → Result Bytes
  unfolding merge_runs
  merge_group (run ∷ []) = ok run
  merge_group group = merge_runs group

  unfoldable pub merge_each : List (List Bytes) → Result (List Bytes)
  unfolding merge_group
  merge_each [] = ok []
  merge_each (group ∷ rest) = do run ← merge_group group; runs ← merge_each rest; ok (run ∷ runs)

  -- `while len(runs) > 1`, in at most the given number of passes.
  unfoldable pub passes : ℕ → ℕ → List Bytes → Result (List Bytes)
  unfolding merge_each groups
  passes zero fan_in runs = raise Exc.runtime_error
  passes (suc fuel) fan_in runs =
      let next = (do merged ← merge_each (in_groups fan_in runs); passes fuel fan_in merged) in
      if ltb 1 (length runs) then next else ok runs

  -- `merge_sorted_runs`
  unfoldable pub merge_sorted_runs : List Bytes → ℤ → Result (List Bytes)
  unfolding passes at_least first_run
  merge_sorted_runs paths fan_in = do
    width ← at_least 2 fan_in
    runs ← passes (suc (length paths)) width paths
    first_run runs

  -- `records.sort(key=order_key)`: a record goes before the first one that is not smaller.
  unfoldable pub insort : Bytes → List Bytes → List Bytes
  unfolding lt_key
  insort x [] = x ∷ []
  insort x (y ∷ ys) = if lt_key y x then y ∷ insort x ys else x ∷ y ∷ ys

  unfoldable pub sort : List Bytes → List Bytes
  unfolding insort
  sort [] = []
  sort (x ∷ xs) = insort x (sort xs)

  -- The runs that are written when the test holds, with the chunk and its size afterwards.
  unfoldable pub flush : Bool → List Bytes → ℕ → Result (List Bytes × List Bytes × ℕ)
  unfolding sort
  flush true chunk used_bytes = do run ← write_records (sort chunk); ok (run ∷ [], [], 0)
  flush false chunk used_bytes = ok ([], chunk, used_bytes)

  -- `_create_initial_runs`, with the chunk and its size so far.
  unfoldable pub create_runs : ℕ → List Bytes → List Bytes → ℕ → Result (List Bytes)
  unfolding flush serialized_size is_empty
  create_runs limit [] chunk used_bytes = do
    last ← flush (not (is_empty chunk)) chunk used_bytes
    ok last.0
  create_runs limit (payload ∷ payloads) chunk used_bytes = do
    let size = serialized_size payload
    before ← flush (not (is_empty chunk) && ltb limit (used_bytes + size)) chunk used_bytes
    let total = before.2 + size
    after ← flush (leb limit total) (before.1 ++ payload ∷ []) total
    rest ← create_runs limit payloads after.1 after.2
    ok (before.0 ++ (after.0 ++ rest))

  -- `external_sort`
  unfoldable pub external_sort : List Bytes → ℤ → ℤ → Result (List Bytes)
  unfolding at_least create_runs passes first_run
  external_sort payloads memory_limit_bytes fan_in = do
    limit ← at_least 1 memory_limit_bytes
    width ← at_least 2 fan_in
    runs ← create_runs limit payloads [] 0
    merged ← passes (suc (length runs)) width runs
    first_run merged
