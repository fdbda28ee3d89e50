-- ===== src/Storage/Disk/Pages.antt =====
-- A disk file as pages: what is written is read back, and no other page changes.
use soup_db.Common.{
  ℕ, ◌+◌, ◌*◌, ◌/◌, ◌%◌, ◌≤◌, ◌<◌, ◌≡◌, ◌∙◌, ap, inl, inr, ◌++◌, ok, length, replicate, ◌==◌, arith,
  drop, length-take_of_le, length-drop, length-append, length-replicate, ite, ℕ_discrete, if_pos,
  if_neg, dec_lt, Bool-cases, sym,
}
use soup_db.Common.Bytes.{
  Bytes, slice, splice, length-splice, slice-splice_self, slice-splice_before, slice-splice_after,
  slice-append_before, slice-append_at,
}
use native.Mathlib.Nat.{div-add-mod}
use mathlib.Core.Path.{subst}
use soup_db.Storage.Disk.{Disk, open_disk, allocate_page, page, write_page, read_page}

-- The file holds whole pages, as many as were allocated.
pub record IsValid (d : Disk) : Type 0 where
  pub sized : 0 < d.page_size
  pub whole : length d.file ≡ d.next_page_id * d.page_size

-- Pages do not overlap.
page_end : (i n s : ℕ) → i < n → i * s + s ≤ n * s
page_end i n s h = grind arith

pub length-page :
    (d : Disk) (i : ℕ) → IsValid d → i < d.next_page_id → length (page d i) ≡ d.page_size
length-page d i v h = length-take_of_le d.page_size (drop (i * d.page_size) d.file) (
    omega (
      arith,
      length-drop (i * d.page_size) d.file,
      page_end i d.next_page_id d.page_size h,
      v.whole,
    ))

-- The state that the constructor builds when it does not raise.
abbrev d_of : Bytes → ℕ → Disk
d_of file n = record {
  page_size = n;
  file = file;
  next_page_id = length file / n;
  reads = 0;
  writes = 0;
}

pub open_disk-IsValid : (file : Bytes) (n : ℕ) {d : Disk} → open_disk file n ≡ ok d → IsValid d
unfolding open_disk
open_disk-IsValid file n {d} h = elim (Bool-cases (n == 0)) [
  | inl zero_size ↦ absurd (ground arith)
  | inr sized ↦ elim (Bool-cases (length file % n == 0)) [
    | inr ragged ↦ absurd (ground arith)
    | inl even ↦
        let same : d_of file n ≡ d = ground arith in
        rw (← same) (record {
          sized = ground arith;
          whole =
              let e : length file % n ≡ 0 = ground arith in
              omega (arith, div-add-mod (length file) n);
        })
  ]
]

pub read_page_lem :
    (d : Disk) (i : ℕ)
    → IsValid d
    → i < d.next_page_id
    → read_page i d ≡ (ok (page d i), record d { reads = d.reads + 1 })
unfolding read_page
read_page_lem d i v h = ground (arith, length-page d i v h)

pub write_page_lem :
    (d : Disk) (i : ℕ) (b : Bytes)
    → i < d.next_page_id
    → length b ≡ d.page_size
    → write_page i b d
      ≡ (ok tt, record d { file = splice (i * d.page_size) b d.file; writes = d.writes + 1 })
unfolding write_page
write_page_lem d i b h l = ground arith

pub write_page-IsValid : (d : Disk) (i : ℕ) (b : Bytes) → IsValid d → IsValid (write_page i b d).1
unfolding write_page
write_page-IsValid d i b v =
    let fits : i < d.next_page_id → i * d.page_size + d.page_size ≤ d.next_page_id * d.page_size =
      page_end i d.next_page_id d.page_size in
    record {
      sized = ground arith;
      whole = ground (arith, length-splice (i * d.page_size) b d.file, fits);
    }

-- On a valid disk, writing bytes of the page size to an allocated page gives that page the new
-- bytes, and every other page is as it was.
pub page-write_page :
    (d : Disk) (i j : ℕ) (b : Bytes)
    → IsValid d
    → i < d.next_page_id
    → length b ≡ d.page_size
    → page (write_page i b d).1 j ≡ ite (ℕ_discrete j i) b (page d j)
page-write_page d i j b v h l =
    let s = d.page_size in
    let fits = page_end i d.next_page_id s h in
    rw (write_page_lem d i b h l) (elim (ℕ_discrete j i) [
      | yes p ↦
          rw (if_pos (ℕ_discrete j i) p b (page d j), p, ← l)
            (slice-splice_self (i * length b) b d.file
              (omega (arith, v.whole, fits, l, ap (λ (t : ℕ). i * t) l)))
      | no p ↦ rw (if_neg (ℕ_discrete j i) p b (page d j)) (elim (dec_lt j i) [
        | yes q ↦ slice-splice_before (j * s) s (i * s) b d.file (page_end j i s q)
        | no q ↦
            slice-splice_after (j * s) s (i * s) b d.file
              (omega (arith, page_end i j s (omega arith)))
      ])
    ])

pub allocate_page-IsValid : (d : Disk) → IsValid d → IsValid (allocate_page d).1
unfolding allocate_page
allocate_page-IsValid d v = record {
  sized = v.sized;
  whole =
      length-append d.file (replicate d.page_size 0)
      ∙ omega (arith, length-replicate {0} {A = ℕ} d.page_size 0, v.whole);
}

-- On a valid disk a new page is zero-filled, and every old page is as it was.
pub page-allocate_page :
    (d : Disk) (j : ℕ)
    → IsValid d
    → j ≤ d.next_page_id
    → page (allocate_page d).1 j
      ≡ ite (ℕ_discrete j d.next_page_id) (replicate d.page_size 0) (page d j)
unfolding allocate_page
page-allocate_page d j v h =
    let s = d.page_size in
    let zeros : Bytes = replicate s 0 in
    elim (ℕ_discrete j d.next_page_id) [
      | yes p ↦ rw (if_pos (ℕ_discrete j d.next_page_id) p zeros (page d j)) (
          subst (λ n. slice (j * s) n (d.file ++ zeros) ≡ zeros) (length-replicate {0} {A = ℕ} s 0)
            (slice-append_at (j * s) d.file zeros (rw p (sym v.whole))))
      | no p ↦ rw (if_neg (ℕ_discrete j d.next_page_id) p zeros (page d j)) (
          slice-append_before (j * s) s d.file zeros
            (omega (arith, page_end j d.next_page_id s (omega arith))))
    ]
