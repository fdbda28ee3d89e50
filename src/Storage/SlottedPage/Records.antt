-- ===== src/Storage/SlottedPage/Records.antt =====
-- engine/storage/_slotted_page.py: what inserting and deleting a record does to all records of a page.
use soup_db.Common.{
  ℕ, replicate, length-replicate, ◌+◌, ◌-◌, ◌*◌, ◌≤◌, ◌<◌, ◌≡◌, refl, sym, subst, ◌∙◌, ◌≢◌, ◌⊎◌,
  inl, inr, true, false, none, some, ok, length, ltb, ◌==◌, arith, ℕ_discrete, dec_lt,
}
use soup_db.Common.Bytes.{
  Bytes, slice, splice, length-splice, slice-splice_self, slice-splice_after,
}
use soup_db.Storage.SlottedPage.{
  pair, read_pair, write_pair, slot_position, slot_count, free_space, place, new_page,
  insert_record, entry_bytes, record_at, read_record,
}
use soup_db.Storage.SlottedPage.Pairs.{
  length-pair, read_pair-splice_self, read_pair-splice, write_pair_lem,
}

-- The entry of a slot: a tombstone, or a record between the free space and the end of the page.
abbrev pub EntryInside : Bytes → ℕ → ℕ × ℕ → Type 0
EntryInside page free (offset, size) =
    (offset ≡ 0) ⊎ ((free ≤ offset) × (offset + size ≤ length page))

-- A well-formed page with `count` slots whose free space ends at `free`.
pub record IsPage (page : Bytes) (count free : ℕ) : Type 0 where
  pub small : length page < 65536
  pub header : read_pair page 0 ≡ ok (count, free)
  pub directory : 4 + count * 4 ≤ free
  pub inside : free ≤ length page
  pub entries :
      (i : ℕ)
      → i < count
      → (entry : ℕ × ℕ) × (read_pair page (slot_position i) ≡ ok entry)
        × EntryInside page free entry
        × (entry.1 < 65536)

pub read_record_inside :
    (page : Bytes) (count free i : ℕ)
    → IsPage page count free
    → i < count
    → read_record page i ≡ record_at page i
unfolding read_record slot_count
read_record_inside page count free i v h = rw v.header (ground arith)

pub read_record_outside :
    (page : Bytes) (count free i : ℕ)
    → IsPage page count free
    → count ≤ i
    → read_record page i ≡ ok none
unfolding read_record slot_count
read_record_outside page count free i v h = rw v.header (ground arith)

-- An entry reads the same bytes from two pages that agree where its record lies.
pub entry_bytes-eq :
    (page page' : Bytes) (free : ℕ) (entry : ℕ × ℕ)
    → ((o n : ℕ) → free ≤ o → slice o n page' ≡ slice o n page)
    → EntryInside page free entry
    → entry_bytes page' entry ≡ entry_bytes page entry
unfolding entry_bytes
entry_bytes-eq page page' free (offset, size) agree (inl dead) = rw dead refl
entry_bytes-eq page page' free (offset, size) agree (inr (above, below)) =
    rw (agree offset size above) refl

-- A well-formed page whose free space grows no further keeps its entries inside.
pub EntryInside-le :
    (page page' : Bytes) (free free' : ℕ) (entry : ℕ × ℕ)
    → free' ≤ free
    → length page' ≡ length page
    → EntryInside page free entry
    → EntryInside page' free' entry
EntryInside-le page page' free free' (offset, size) h l (inl dead) = inl dead
EntryInside-le page page' free free' (offset, size) h l (inr (above, below)) =
    inr (omega arith, omega arith)

module _ (page bytes : Bytes) (count free : ℕ) (v : IsPage page count free)
    (fits : 4 + count * 4 + 4 + length bytes ≤ free) where
  abbrev start : ℕ
  start = free - length bytes

  abbrev filled : Bytes
  filled = splice start bytes page

  abbrev slotted : Bytes
  slotted = splice (slot_position count) (pair start (length bytes)) filled

  abbrev inserted : Bytes
  inserted = splice 0 (pair (count + 1) start) slotted

  length-filled : length filled ≡ length page
  length-filled = length-splice start bytes page (omega (arith, v.inside, fits))

  length-slotted : length slotted ≡ length page
  length-slotted =
      length-splice (slot_position count) (pair start (length bytes)) filled
        (omega (arith, length-filled, length-pair start (length bytes), v.inside, fits))
      ∙ length-filled

  length-inserted : length inserted ≡ length page
  length-inserted =
      length-splice 0 (pair (count + 1) start) slotted
        (omega (arith, length-slotted, length-pair (count + 1) start, v.inside, fits))
      ∙ length-slotted

  insert_record-inserted : insert_record page bytes ≡ ok (some count, inserted)
  unfolding insert_record free_space place
  insert_record-inserted =
      let room : ltb (free - (4 + count * 4)) (length bytes + 4) ≡ false = ground arith in
      let w1 : write_pair filled (slot_position count) start (length bytes) ≡ ok slotted =
        write_pair_lem filled (slot_position count) start (length bytes)
          (omega (arith, v.small, v.inside)) (omega (arith, v.small, v.inside))
          (omega (arith, length-filled, v.inside)) in
      let w2 : write_pair slotted 0 (count + 1) start ≡ ok inserted =
        write_pair_lem slotted 0 (count + 1) start (omega (arith, v.small, v.inside, v.directory))
          (omega (arith, v.small, v.inside)) (omega (arith, length-slotted, v.inside)) in
      rw (v.header, room, w1, w2) refl

  -- Whatever lies above the new record is as it was.
  inserted-agree : (o n : ℕ) → free ≤ o → slice o n inserted ≡ slice o n page
  inserted-agree o n h =
      slice-splice_after o n 0 (pair (count + 1) start) slotted
        (omega (arith, length-pair (count + 1) start))
      ∙ slice-splice_after o n (slot_position count) (pair start (length bytes)) filled
          (omega (arith, length-pair start (length bytes)))
      ∙ slice-splice_after o n start bytes page (omega arith)

  inserted-slot :
      (i : ℕ) → i < count → read_pair inserted (slot_position i) ≡ read_pair page (slot_position i)
  inserted-slot i h =
      read_pair-splice slotted (slot_position i) 0 (pair (count + 1) start)
        (inr (omega (arith, length-pair (count + 1) start)))
        (omega (arith, length-slotted, length-pair (count + 1) start, v.inside))
      ∙ read_pair-splice filled (slot_position i) (slot_position count) (pair start (length bytes))
          (inl (omega arith))
          (omega (arith, length-filled, length-pair start (length bytes), v.inside))
      ∙ read_pair-splice page (slot_position i) start bytes (inl (omega arith))
          (omega (arith, v.inside))

  inserted-slot_new : read_pair inserted (slot_position count) ≡ ok (start, length bytes)
  inserted-slot_new =
      read_pair-splice slotted (slot_position count) 0 (pair (count + 1) start)
        (inr (omega (arith, length-pair (count + 1) start)))
        (omega (arith, length-slotted, length-pair (count + 1) start, v.inside))
      ∙ read_pair-splice_self filled (slot_position count) start (length bytes)
          (omega (arith, v.small, v.inside)) (omega (arith, v.small, v.inside))
          (omega (arith, length-filled, v.inside))

  inserted-bytes : slice start (length bytes) inserted ≡ bytes
  inserted-bytes =
      slice-splice_after start (length bytes) 0 (pair (count + 1) start) slotted
        (omega (arith, length-pair (count + 1) start))
      ∙ slice-splice_after start (length bytes) (slot_position count) (pair start (length bytes))
          filled (omega (arith, length-pair start (length bytes)))
      ∙ slice-splice_self start bytes page (omega (arith, v.inside))

  inserted-IsPage : IsPage inserted (count + 1) start
  inserted-IsPage = record {
    small = omega (arith, length-inserted, v.small);
    header =
        read_pair-splice_self slotted 0 (count + 1) start
          (omega (arith, v.small, v.inside, v.directory)) (omega (arith, v.small, v.inside))
          (omega (arith, length-slotted, v.inside));
    directory = omega arith;
    inside = omega (arith, length-inserted, v.inside);
    entries = λ i h. elim (ℕ_discrete i count) [
      | yes p ↦ (
        (start, length bytes),
        subst (λ k. read_pair inserted (slot_position k) ≡ ok (start, length bytes)) (sym p)
            inserted-slot_new,
        inr (omega arith, omega (arith, length-inserted, v.inside)),
        omega (arith, v.small, v.inside),
      )
      | no p ↦
          let (entry, e, inside, size) = v.entries i (ground arith) in
          (
            entry,
            inserted-slot i (ground arith) ∙ e,
            EntryInside-le page inserted free start entry (omega arith) length-inserted inside,
            size,
          )
    ];
  }

  inserted-record_new : read_record inserted count ≡ ok (some bytes)
  unfolding record_at entry_bytes
  inserted-record_new =
      let some_offset : (start == 0) ≡ false = ground arith in
      read_record_inside inserted (count + 1) start count inserted-IsPage (omega arith)
      ∙ rw (inserted-slot_new, some_offset, inserted-bytes) refl

  inserted-record_at : (i : ℕ) → i < count → record_at inserted i ≡ record_at page i
  unfolding record_at
  inserted-record_at i h =
      let (entry, e, inside, size) = v.entries i h in
      rw (inserted-slot i h, e, entry_bytes-eq page inserted free entry inserted-agree inside) refl

  inserted-record : (i : ℕ) → i ≢ count → read_record inserted i ≡ read_record page i
  inserted-record i n = elim (dec_lt i count) [
    | yes h ↦
        read_record_inside inserted (count + 1) start i inserted-IsPage (omega arith)
        ∙ inserted-record_at i h
        ∙ sym (read_record_inside page count free i v h)
    | no h ↦
        read_record_outside inserted (count + 1) start i inserted-IsPage (ground arith)
        ∙ sym (read_record_outside page count free i v (ground arith))
  ]

-- On a well-formed page a record that fits, with its slot entry, between the directory and the free
-- space's end is put in the next slot: the page stays well formed, the slot reads the record, and every
-- other slot reads what it read. A record that does not fit is refused and the page is as it was.
pub insert_record_lem :
    (page bytes : Bytes) (count free : ℕ)
    → IsPage page count free
    → (4 + count * 4 + 4 + length bytes ≤ free
        → (page' : Bytes) × (insert_record page bytes ≡ ok (some count, page'))
          × IsPage page' (count + 1) (free - length bytes)
          × (read_record page' count ≡ ok (some bytes))
          × ((i : ℕ) → i ≢ count → read_record page' i ≡ read_record page i))
      × (free < 4 + count * 4 + 4 + length bytes → insert_record page bytes ≡ ok (none, page))
unfolding insert_record free_space
insert_record_lem page bytes count free v = (
  λ fits. (
    inserted page bytes count free v fits,
    insert_record-inserted page bytes count free v fits,
    inserted-IsPage page bytes count free v fits,
    inserted-record_new page bytes count free v fits,
    inserted-record page bytes count free v fits,
  ),
  λ full.
      let room : ltb (free - (4 + count * 4)) (length bytes + 4) ≡ true =
        ground (arith, v.directory) in
      rw (v.header, room) refl,
)

-- A new page of between 4 and 65535 bytes is well formed, has no slot, and every byte behind the header is
-- free.
pub new_page-IsPage :
    (page_size : ℕ)
    → 4 ≤ page_size
    → page_size < 65536
    → (page : Bytes) × (new_page page_size ≡ ok page)
      × (length page ≡ page_size)
      × IsPage page 0 page_size
unfolding new_page
new_page-IsPage page_size low high =
    let zeros : Bytes = replicate page_size 0 in
    let size : length zeros ≡ page_size = length-replicate {0} {A = ℕ} page_size 0 in
    let page : Bytes = splice 0 (pair 0 page_size) zeros in
    let same : length page ≡ page_size =
      length-splice 0 (pair 0 page_size) zeros (omega (arith, size, length-pair 0 page_size))
      ∙ size in
    (
      page,
      write_pair_lem zeros 0 0 page_size (omega arith) high (omega (arith, size)),
      same,
      record {
        small = omega (arith, same);
        header = read_pair-splice_self zeros 0 0 page_size (omega arith) high (omega (arith, size));
        directory = omega arith;
        inside = omega (arith, same);
        entries = λ i h. absurd (omega arith);
      },
    )
