-- ===== src/Storage/Buffer/Unpin.antt =====
-- Writing into a pinned frame, `unpin`, and the way of a write to the disk.
use soup_db.Common.{
  ℕ, ◌-◌, ◌<◌, ◌≡◌, refl, ◌∙◌, ◌≢◌, ◌⊎◌, inl, inr, Bool, true, Exc, ok, raise, length,
  if◌then◌else◌, arith, ite, ℕ_discrete, Option-cases,
}
use soup_db.Common.Dict
use soup_db.Common.Dict.{Dict, Key, nat_key}
use soup_db.Common.Bytes.{Bytes}
use soup_db.Storage.Disk.{page}
use soup_db.Storage.Buffer.{Pool, pin_count, pin, unpin, drop_pin, write_frame, flush_all}
use soup_db.Storage.Buffer.Flush.{IsValid, content, flush_all_lem}
use soup_db.Storage.Buffer.Pin.{Pinned, pin-Pinned, content_present}

module _ (s : Pool) (v : IsValid s) (p : ℕ) where
  -- A caller that holds a pin may overwrite the frame with a page's worth of bytes.
  pub write_frame-IsValid :
      (b : Bytes)
      → 0 < pin_count s.pin_counts p
      → length b ≡ s.disk.page_size
      → IsValid (write_frame p b s)
  write_frame-IsValid b n l =
      unfold write_frame in
      record {
        disk_ok = v.disk_ok;
        room = v.room;
        bounded =
            omega (arith, Dict.length-put_present p b s.frames (v.pinned_framed p n), v.bounded);
        framed = λ q x h. elim (Option-cases (Dict.get p s.frames)) [
          | inl e ↦ absurd (v.pinned_framed p n e)
          | inr (f, e) ↦ ground (arith, Dict.get-put p q b s.frames, v.framed q x, v.framed p f)
        ];
        dirty_framed = λ q h. ground (arith, Dict.get-put p q b s.frames, v.dirty_framed q);
        pinned_framed = λ q h. ground (arith, Dict.get-put p q b s.frames, v.pinned_framed q);
        clean = λ q x h e m. ground (arith, Dict.get-put p q b s.frames, v.clean q x);
      }

  pub content-write_frame :
      (b : Bytes) (q : ℕ) → content (write_frame p b s) q ≡ ite (ℕ_discrete q p) b (content s q)
  unfolding content write_frame
  content-write_frame b q = ground (arith, Dict.get-put p q b s.frames)

  pins-write_frame : (b : Bytes) → (write_frame p b s).pin_counts ≡ s.pin_counts
  unfolding write_frame
  pins-write_frame b = refl

  -- The dirty set after `unpin`.
  abbrev marked : Bool → Pool
  marked is_dirty = record s { dirty = if is_dirty then Dict.put p tt s.dirty else s.dirty }

  pin_count-drop_pin :
      (is_dirty : Bool) (q : ℕ)
      → 0 < pin_count s.pin_counts p
      → pin_count (drop_pin p (marked is_dirty)).pin_counts q
        ≡ ite (ℕ_discrete q p) (pin_count s.pin_counts p - 1) (pin_count s.pin_counts q)
  unfolding pin_count drop_pin
  pin_count-drop_pin is_dirty q n = ground (
    arith,
    Dict.get-put p q (pin_count s.pin_counts p - 1) s.pin_counts,
    Dict.get-remove p q s.pin_counts,
  )

  unpin_pinned :
      (is_dirty : Bool)
      → 0 < pin_count s.pin_counts p
      → unpin p is_dirty s ≡ (ok tt, drop_pin p (marked is_dirty))
  unfolding unpin
  unpin_pinned is_dirty n = ground arith

  drop_pin-IsValid :
      (is_dirty : Bool)
      → 0 < pin_count s.pin_counts p
      → (is_dirty ≡ true) ⊎ (content s p ≡ page s.disk p)
      → IsValid (drop_pin p (marked is_dirty))
  drop_pin-IsValid is_dirty n told =
      unfold drop_pin in
      record {
        disk_ok = v.disk_ok;
        room = v.room;
        bounded = v.bounded;
        framed = v.framed;
        dirty_framed =
            λ q h. ground (arith, Dict.has-put p q tt s.dirty, v.dirty_framed q, v.pinned_framed p);
        pinned_framed = λ q h. ground (arith, pin_count-drop_pin is_dirty q n, v.pinned_framed q);
        clean = λ q x h e m. ground (
          arith,
          Dict.has-put p q tt s.dirty,
          pin_count-drop_pin is_dirty q n,
          v.clean q x,
          content_present s p {f = x},
        );
      }

  content-drop_pin :
      (is_dirty : Bool) (q : ℕ) → content (drop_pin p (marked is_dirty)) q ≡ content s q
  unfolding content drop_pin
  content-drop_pin is_dirty q = refl

  -- `unpin` of a page that is pinned succeeds, gives up one pin of that page alone and changes no
  -- page's contents; it keeps the pool valid if it marks the page or the frame is as on the disk.
  -- Of a page that is not pinned it raises ValueError and changes nothing.
  pub unpin_lem :
      (is_dirty : Bool)
      → (0 < pin_count s.pin_counts p
          → (s' : Pool) × (unpin p is_dirty s ≡ (ok tt, s'))
            × ((is_dirty ≡ true) ⊎ (content s p ≡ page s.disk p) → IsValid s')
            × ((q : ℕ) → content s' q ≡ content s q)
            × ((q : ℕ)
                → pin_count s'.pin_counts q
                  ≡ ite (ℕ_discrete q p) (pin_count s.pin_counts p - 1) (pin_count s.pin_counts q)))
        × (pin_count s.pin_counts p ≡ 0 → unpin p is_dirty s ≡ (raise Exc.value_error, s))
  unpin_lem is_dirty = (
    λ n. (
      drop_pin p (marked is_dirty),
      unpin_pinned is_dirty n,
      drop_pin-IsValid is_dirty n,
      content-drop_pin is_dirty,
      λ q. pin_count-drop_pin is_dirty q n,
    ),
    λ z. unfold unpin in ground arith,
  )

-- A page is pinned, overwritten, unpinned as dirty, and the pool flushed: nothing raises, and then
-- the disk holds the new bytes for that page, unless someone else has it pinned, and for every other
-- page that is not pinned the contents that it had.
pub write_reaches_disk :
    (s s1 : Pool) (p : ℕ) (f b : Bytes)
    → IsValid s
    → p < s.disk.next_page_id
    → pin p s ≡ (ok f, s1)
    → length b ≡ s1.disk.page_size
    → (s2 s3 : Pool) × (unpin p true (write_frame p b s1) ≡ (ok tt, s2))
      × (flush_all s2 ≡ (ok tt, s3))
      × IsValid s3
      × (pin_count s.pin_counts p ≡ 0 → page s3.disk p ≡ b)
      × ((q : ℕ) → q ≢ p → pin_count s.pin_counts q ≡ 0 → page s3.disk q ≡ content s q)
write_reaches_disk s s1 p f b v low h l = elim (pin-Pinned s v p low) [
  | inr (e, x) ↦ absurd (ground arith)
  | inl (t, e, k) ↦
      let same : t ≡ s1 = ground arith in
      let k1 : Pinned p s s1 = rw (← same) k in
      let one : 0 < pin_count s1.pin_counts p = ground (arith, k1.counted p) in
      let w = write_frame p b s1 in
      let wv = write_frame-IsValid s1 k1.valid p b one l in
      let pins = pins-write_frame s1 k1.valid p b in
      let (s2, u, uv, uc, un) = (unpin_lem w wv p true).0 (unfold write_frame in one) in
      let (s3, g, gv, gc, gd, gp) = flush_all_lem s2 (uv (inl refl)) in
      (
        s2,
        s3,
        u,
        g,
        gv,
        λ z.
            gp p (ground (arith, un p, pins, k1.counted p))
            ∙ uc p
            ∙ ground (arith, content-write_frame s1 k1.valid p b p),
        λ q n z.
            gp q (ground (arith, un q, pins, k1.counted q))
            ∙ uc q
            ∙ ground (arith, content-write_frame s1 k1.valid p b q, k1.contents q),
      )
]
