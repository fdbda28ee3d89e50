-- ===== src/Storage/SlottedPage/Deletion.antt =====
-- engine/storage/_slotted_page.py: what deleting a record does to all records of a page.
use soup_db.Common.{
  ℕ, ◌≤◌, ◌<◌, ◌≡◌, refl, sym, subst, ◌∙◌, ◌≢◌, ◌⊎◌, inl, inr, Bool, true, false, Bool-cases, none,
  some, ok, length, ◌==◌, arith, ℕ_discrete, dec_lt,
}
use soup_db.Common.Bytes.{Bytes, slice, splice, length-splice, slice-splice_after}
use soup_db.Storage.SlottedPage.{
  pair, read_pair, slot_position, slot_count, entry_bytes, record_at, read_record, bury, delete_at,
  delete_record,
}
use soup_db.Storage.SlottedPage.Pairs.{
  length-pair, read_pair-splice_self, read_pair-splice, write_pair_lem,
}
use soup_db.Storage.SlottedPage.Records.{
  IsPage, EntryInside-le, entry_bytes-eq, read_record_inside, read_record_outside,
}

module _ (page : Bytes) (count free : ℕ) (v : IsPage page count free) (i : ℕ) (low : i < count)
    (size : ℕ) (narrow : size < 65536) where
  abbrev buried : Bytes
  buried = splice (slot_position i) (pair 0 size) page

  length-buried : length buried ≡ length page
  length-buried =
      length-splice (slot_position i) (pair 0 size) page
        (omega (arith, length-pair 0 size, v.directory, v.inside))

  buried-slot :
      (j : ℕ)
      → j ≢ i
      → j < count
      → read_pair buried (slot_position j) ≡ read_pair page (slot_position j)
  buried-slot j n h =
      read_pair-splice page (slot_position j) (slot_position i) (pair 0 size)
        (elim (dec_lt j i) [
          | yes p ↦ inl (omega arith)
          | no p ↦ inr (ground (arith, length-pair 0 size))
        ])
        (omega (arith, length-pair 0 size, v.directory, v.inside))

  buried-slot_self : read_pair buried (slot_position i) ≡ ok (0, size)
  buried-slot_self =
      read_pair-splice_self page (slot_position i) 0 size (omega arith) narrow
        (omega (arith, v.directory, v.inside))

  buried-agree : (o n : ℕ) → free ≤ o → slice o n buried ≡ slice o n page
  buried-agree o n h =
      slice-splice_after o n (slot_position i) (pair 0 size) page
        (omega (arith, length-pair 0 size, v.directory))

  buried-IsPage : IsPage buried count free
  buried-IsPage = record {
    small = omega (arith, length-buried, v.small);
    header =
        read_pair-splice page 0 (slot_position i) (pair 0 size) (inl (omega arith))
          (omega (arith, length-pair 0 size, v.directory, v.inside))
        ∙ v.header;
    directory = v.directory;
    inside = omega (arith, length-buried, v.inside);
    entries = λ j h. elim (ℕ_discrete j i) [
      | yes p ↦ (
        (0, size),
        subst (λ k. read_pair buried (slot_position k) ≡ ok (0, size)) (sym p) buried-slot_self,
        inl refl,
        narrow,
      )
      | no p ↦
          let (entry, e, inside, fine) = v.entries j h in
          (
            entry,
            buried-slot j p h ∙ e,
            EntryInside-le page buried free free entry (omega arith) length-buried inside,
            fine,
          )
    ];
  }

  buried-record_self : read_record buried i ≡ ok none
  unfolding record_at entry_bytes
  buried-record_self =
      read_record_inside buried count free i buried-IsPage low ∙ rw buried-slot_self refl

  buried-record_at : (j : ℕ) → j ≢ i → j < count → record_at buried j ≡ record_at page j
  unfolding record_at
  buried-record_at j n h =
      let (entry, e, inside, fine) = v.entries j h in
      rw (buried-slot j n h, e, entry_bytes-eq page buried free entry buried-agree inside) refl

  buried-record : (j : ℕ) → j ≢ i → read_record buried j ≡ read_record page j
  buried-record j n = elim (dec_lt j count) [
    | yes h ↦
        read_record_inside buried count free j buried-IsPage h
        ∙ buried-record_at j n h
        ∙ sym (read_record_inside page count free j v h)
    | no h ↦
        read_record_outside buried count free j buried-IsPage (ground arith)
        ∙ sym (read_record_outside page count free j v (ground arith))
  ]

-- What `delete_record` gives back: whether there was a record, and a page without it.
pub record Deleted (page : Bytes) (count free i : ℕ) (removed : Bool) (page' : Bytes) : Type 0 where
  pub valid : IsPage page' count free
  pub gone : read_record page' i ≡ ok none
  pub others : (j : ℕ) → j ≢ i → read_record page' j ≡ read_record page j
  pub told :
      ((removed ≡ true) × ((bytes : Bytes) × (read_record page i ≡ ok (some bytes))))
      ⊎ ((removed ≡ false) × (read_record page i ≡ ok none) × (page' ≡ page))

delete_record_inside :
    (page : Bytes) (count free i : ℕ)
    → IsPage page count free
    → i < count
    → delete_record page i ≡ delete_at page i
unfolding delete_record slot_count
delete_record_inside page count free i v h = rw v.header (ground arith)

delete_record_outside :
    (page : Bytes) (count free i : ℕ)
    → IsPage page count free
    → count ≤ i
    → delete_record page i ≡ ok (false, page)
unfolding delete_record slot_count
delete_record_outside page count free i v h = rw v.header (ground arith)

-- On a well-formed page `delete_record` of any slot returns; afterwards the slot reads nothing, every
-- other slot reads what it read, and the page is well formed. It returns True exactly where the slot
-- held a record; otherwise the page is as it was.
pub delete_record_lem :
    (page : Bytes) (count free i : ℕ)
    → IsPage page count free
    → (removed : Bool) × (page' : Bytes) × (delete_record page i ≡ ok (removed, page'))
      × Deleted page count free i removed page'
delete_record_lem page count free i v = elim (dec_lt i count) [
  | no h ↦
      let absent : read_record page i ≡ ok none =
        read_record_outside page count free i v (ground arith) in
      (
        false,
        page,
        delete_record_outside page count free i v (ground arith),
        record { valid = v; gone = absent; others = λ j n. refl; told = inr (refl, absent, refl) },
      )
  | yes h ↦
      let (entry, e, inside, fine) = v.entries i h in
      elim (Bool-cases (entry.0 == 0)) [
        | inl dead ↦
            let absent : read_record page i ≡ ok none =
              read_record_inside page count free i v h
              ∙ unfold record_at entry_bytes in rw (e, dead) refl in
            (
              false,
              page,
              delete_record_inside page count free i v h
                  ∙ unfold delete_at bury in rw (e, dead) refl,
              record {
                valid = v;
                gone = absent;
                others = λ j n. refl;
                told = inr (refl, absent, refl);
              },
            )
        | inr live ↦ (
          true,
          buried page count free v i h entry.1 fine,
          delete_record_inside page count free i v h
              ∙ unfold delete_at bury in
                rw
                  (
                    e,
                    live,
                    write_pair_lem page (slot_position i) 0 entry.1 (omega arith) fine
                        (omega (arith, v.directory, v.inside)),
                  )
                  refl,
          record {
            valid = buried-IsPage page count free v i h entry.1 fine;
            gone = buried-record_self page count free v i h entry.1 fine;
            others = buried-record page count free v i h entry.1 fine;
            told = inl (
              refl,
              (
                slice entry.0 entry.1 page,
                read_record_inside page count free i v h
                    ∙ unfold record_at entry_bytes in rw (e, live) refl,
              ),
            );
          },
        )
      ]
]
