-- ===== src/Algorithms/ExternalSort/Merge/Refill.antt =====
-- engine/algorithms/external_sort.py, `_merge_runs`: reading on in a run, and that a round of the
-- merge keeps the invariant.
use soup_db.Common.{
  ℕ, ◌+◌, ◌<◌, ◌≡◌, refl, ap, subst, sym, inl, inr, Bool, true, false, not, none, some, List, [],
  ◌∷◌, ◌++◌, map, Option, ltb, length, get_elem?, set, arith, Bool-cases, ok, length-set,
  set-get_elem?, get_elem?_total, get_elem?-map, set-map,
}
use soup_db.Common.Bytes.{Bytes}
use soup_db.Common.Int.{ℤ}
use soup_db.Common.Counts.{one, concat, count_p, count_p-append, count_p_none, count_p-concat-set}
use soup_db.Algorithms.Runs.{read_record}
use soup_db.Algorithms.Runs.RoundTrip.{frames, too_long, read_record_lem}
use soup_db.Algorithms.ExternalSort.{Entry, Merging, push, pushed, refill}
use soup_db.Algorithms.ExternalSort.Order.{IsComparator, IsSorted, Smallest}
use soup_db.Algorithms.ExternalSort.Merge.Pending.{
  leads, Ready, Covered, Invariant, Keeps, Covered-set, Covered-IsSorted,
}

-- The first record of a run, with what is left of its file.
unfoldable pub first_of : List Bytes → Option (Bytes × Bytes)
first_of [] = none
first_of (x ∷ p) = some (x, frames p)

abbrev pub rest_of : List Bytes → List Bytes
rest_of [] = []
rest_of (x ∷ p) = p

pub read_record-frames :
    (p : List Bytes) → count_p too_long p ≡ 0 → read_record (frames p) ≡ ok (first_of p)
unfolding frames first_of
read_record-frames [] h = unfold read_record in refl
read_record-frames (x ∷ p) h = read_record_lem x (frames p) (count_p_none too_long x p h).0

-- What reading on does to the heap.
abbrev pub entries : ℕ → ℕ → List Bytes → List Entry
entries sequence i [] = []
entries sequence i (x ∷ p) = record { payload = x; sequence = sequence; run_index = i } ∷ []

module _ (comparator : Bytes → Bytes → ℤ) where
  -- A heap that lost only an entry of one run, and to which some may have been added, keeps the
  -- leading entries of the other runs.
  pub push-Keeps :
      (heap rest : List Entry) (m : Entry) (new : List Entry)
      → ((q : Entry → Bool) → count_p q heap ≡ one (q m) + count_p q rest)
      → Keeps comparator heap (new ++ rest) m.run_index
  push-Keeps heap rest m new same j [] ne h = tt
  push-Keeps heap rest m new same j (x ∷ p) ne h =
      let q = leads comparator j (x ∷ p) in
      let off : q m ≡ false = ground arith in
      omega (arith, same q, ap one off, count_p-append q new rest, h)

  pub entries-Ready :
      (sequence i : ℕ) (p : List Bytes) (heap : List Entry)
      → IsSorted comparator p
      → Ready comparator (entries sequence i p ++ heap) i (rest_of p)
  entries-Ready sequence i [] heap h = tt
  entries-Ready sequence i (x ∷ []) heap h = tt
  entries-Ready sequence i (x ∷ y ∷ p) heap (least, h) =
      let first =
        leads comparator i (y ∷ p) (record { payload = x; sequence = sequence; run_index = i }) in
      let t : first ≡ true = ground arith in omega (arith, ap one t)

  pub rest-IsSorted : (p : List Bytes) → IsSorted comparator p → IsSorted comparator (rest_of p)
  rest-IsSorted [] h = tt
  rest-IsSorted (x ∷ p) h = h.1

pub count_p-entries :
    (q : Bytes → Bool) (sequence i : ℕ) (p : List Bytes) (heap : List Entry)
    → count_p (λ e. q e.payload) (entries sequence i p ++ heap) + count_p q (rest_of p)
      ≡ count_p (λ e. q e.payload) heap + count_p q p
count_p-entries q sequence i [] heap = omega arith
count_p-entries q sequence i (x ∷ p) heap = omega arith

abbrev pub beyond : ℕ → Entry → Bool
beyond n e = not (ltb e.run_index n)

pub beyond-entries :
    (n sequence i : ℕ) (p : List Bytes) (heap : List Entry)
    → i < n
    → count_p (beyond n) heap ≡ 0
    → count_p (beyond n) (entries sequence i p ++ heap) ≡ 0
beyond-entries n sequence i [] heap lt h = h
beyond-entries n sequence i (x ∷ p) heap lt h =
    let inside : not (ltb i n) ≡ false = ground arith in omega (arith, ap one inside)

-- All that the heap and the files hold together.
abbrev pub held : (Bytes → Bool) → List Entry → List (List Bytes) → ℕ
held q heap ps = count_p (λ e. q e.payload) heap + count_p q (concat ps)

pub heap-pushed :
    (i : ℕ) (s : Merging) (p : List Bytes)
    → (pushed i (first_of p) s).heap ≡ entries s.sequence i p ++ s.heap
unfolding pushed first_of push
heap-pushed i s [] = refl
heap-pushed i s (x ∷ p) = refl

pub files-pushed :
    (i : ℕ) (s : Merging) (ps : List (List Bytes)) (p : List Bytes)
    → s.files ≡ map frames ps
    → get_elem? ps i ≡ some p
    → (pushed i (first_of p) s).files ≡ map frames (set ps i (rest_of p))
unfolding pushed first_of push
files-pushed i s ps [] h g = rw (set-get_elem? ps i [] g) h
files-pushed i s ps (x ∷ p) h g = rw h (set-map frames ps i p)

-- The records of one run are some of all.
pub get-fits :
    (ps : List (List Bytes)) (i : ℕ) {p : List Bytes}
    → get_elem? ps i ≡ some p
    → count_p too_long (concat ps) ≡ 0
    → count_p too_long p ≡ 0
get-fits ps i {p} g h = omega (arith, count_p-concat-set too_long ps i p [] g)

module _ (comparator : Bytes → Bytes → ℤ) (laws : IsComparator comparator) where
  module _ (s : Merging) (ps : List (List Bytes)) (m : Entry) (rest : List Entry)
      (inv : Invariant comparator s ps) (least : Smallest comparator laws s.heap (m, rest)) where
    in_range : m.run_index < length ps
    in_range = elim (Bool-cases (ltb m.run_index (length ps))) [
      | inl t ↦ ground arith
      | inr f ↦
          let out : Entry → Bool = λ e. not (ltb e.run_index (length ps)) in
          let one_out : out m ≡ true = ap not f in
          absurd (omega (arith, inv.ranged, least.0 out, ap one one_out))
    ]

    pub refill_lem :
        (s' : Merging) × (ps' : List (List Bytes)) × (refill comparator m rest s ≡ ok s')
        × Invariant comparator s' ps'
        × ((q : Bytes → Bool) → held q s'.heap ps' ≡ held q rest ps)
    unfolding refill
    refill_lem =
        let i = m.run_index in
        let (p, g) = get_elem?_total ps i in_range in
        let start : Merging = record s { heap = rest } in
        let s' = pushed i (first_of p) start in
        let ps' = set ps i (rest_of p) in
        let heap_eq : s'.heap ≡ entries s.sequence i p ++ rest = heap-pushed i start p in
        let found : get_elem? s.files i ≡ some (frames p) =
          rw inv.opened (get_elem?-map frames ps i g) in
        let sorted = Covered-IsSorted comparator s.heap 0 i ps inv.covered g in
        let moved = λ (q : Bytes → Bool). count_p-entries q s.sequence i p rest in
        let taken = λ (q : Bytes → Bool). count_p-concat-set q ps i p (rest_of p) g in
        let same_length : length ps' ≡ length ps = length-set ps i (rest_of p) in
        let none_beyond : count_p (beyond (length ps)) rest ≡ 0 =
          omega (arith, least.0 (beyond (length ps)), inv.ranged) in
        let fits : count_p (λ (e : Entry). too_long e.payload) rest ≡ 0 =
          omega (arith, least.0 (λ e. too_long e.payload), inv.heap_fits) in
        let counts : (q : Bytes → Bool) → held q s'.heap ps' ≡ held q rest ps =
          λ q. omega (arith, ap (count_p (λ (e : Entry). q e.payload)) heap_eq, moved q, taken q) in
        (
          s',
          ps',
          rw (found, read_record-frames p (get-fits ps i g inv.pending_fits)) refl,
          record {
            opened = files-pushed i start ps p inv.opened g;
            ranged =
                subst (λ h. count_p (beyond (length ps')) h ≡ 0) (sym heap_eq)
                  (beyond-entries (length ps') s.sequence i p rest
                    (omega (arith, same_length, in_range))
                    (subst (λ n. count_p (beyond n) rest ≡ 0) (sym same_length) none_beyond));
            covered =
                subst (λ h. Covered comparator h 0 ps') (sym heap_eq)
                  (Covered-set comparator s.heap (entries s.sequence i p ++ rest) i 0 i ps
                    (rest_of p)
                    (push-Keeps comparator s.heap rest m (entries s.sequence i p) least.0)
                    (omega arith) (entries-Ready comparator s.sequence i p rest sorted)
                    (rest-IsSorted comparator p sorted) inv.covered);
            heap_fits = omega (arith, counts too_long, fits, inv.pending_fits);
            pending_fits = omega (arith, counts too_long, fits, inv.pending_fits);
          },
          counts,
        )
