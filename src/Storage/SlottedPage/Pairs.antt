-- ===== src/Storage/SlottedPage/Pairs.antt =====
-- engine/storage/_slotted_page.py: the two numbers of the header and of a slot, read behind writes.
use soup_db.Common.{
  ℕ, zero, suc, ◌+◌, ◌≤◌, ◌<◌, ◌≡◌, refl, ap, ◌∙◌, ◌⊎◌, inl, inr, true, [], ◌∷◌, ok, length, leb,
  arith,
}
use soup_db.Common.Bytes.{
  Bytes, slice, splice, length-splice, slice-splice_before, slice-splice_after,
}
use soup_db.Common.Struct.{pack_le, unpack_le-pack_le}
use soup_db.Storage.SlottedPage.{pair, read_pair, write_pair}

pub length-pair : (a b : ℕ) → length (pair a b) ≡ 4
unfolding pair pack_le
length-pair a b = refl

slice-splice-pair :
    (pos a b : ℕ) (page : Bytes)
    → pos + 4 ≤ length page
    → (slice pos 2 (splice pos (pair a b) page) ≡ pack_le 2 a)
      × (slice (pos + 2) 2 (splice pos (pair a b) page) ≡ pack_le 2 b)
unfolding pair pack_le
slice-splice-pair zero a b page h = (refl, refl)
slice-splice-pair (suc pos) a b [] h = absurd (omega arith)
slice-splice-pair (suc pos) a b (x ∷ page) h =
    let (p, q) = slice-splice-pair pos a b page (omega arith) in
    let shifted : suc pos + 2 ≡ suc (pos + 2) = omega arith in
    (p, ap (λ n. slice n 2 (x ∷ splice pos (pair a b) page)) shifted ∙ q)

-- What is written is read back.
pub read_pair-splice_self :
    (page : Bytes) (pos a b : ℕ)
    → a < 65536
    → b < 65536
    → pos + 4 ≤ length page
    → read_pair (splice pos (pair a b) page) pos ≡ ok (a, b)
unfolding read_pair
read_pair-splice_self page pos a b ha hb h =
    let same : length (splice pos (pair a b) page) ≡ length page =
      length-splice pos (pair a b) page (omega (arith, length-pair a b)) in
    let inside : leb (pos + 4) (length (splice pos (pair a b) page)) ≡ true =
      ground (arith, same) in
    let (p, q) = slice-splice-pair pos a b page h in
    rw (inside, p, q, unpack_le-pack_le 2 a ha, unpack_le-pack_le 2 b hb) refl

-- A write elsewhere is not seen.
pub read_pair-splice :
    (page : Bytes) (pos q : ℕ) (d : Bytes)
    → (pos + 4 ≤ q) ⊎ (q + length d ≤ pos)
    → q + length d ≤ length page
    → read_pair (splice q d page) pos ≡ read_pair page pos
unfolding read_pair
read_pair-splice page pos q d apart h =
    let same : length (splice q d page) ≡ length page = length-splice q d page h in
    elim apart [
      | inl before ↦
          rw
            (
              same,
              slice-splice_before pos 2 q d page (omega arith),
              slice-splice_before (pos + 2) 2 q d page (omega arith),
            )
            refl
      | inr after ↦
          rw
            (
              same,
              slice-splice_after pos 2 q d page after,
              slice-splice_after (pos + 2) 2 q d page (omega arith),
            )
            refl
    ]

pub write_pair_lem :
    (page : Bytes) (pos a b : ℕ)
    → a < 65536
    → b < 65536
    → pos + 4 ≤ length page
    → write_pair page pos a b ≡ ok (splice pos (pair a b) page)
unfolding write_pair
write_pair_lem page pos a b ha hb h = ground arith
