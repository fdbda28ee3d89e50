-- ===== src/Storage/Buffer/Flush.antt =====
-- The pool's invariant, and what writing a dirty page back does.
use soup_db.Common.{
  ℕ, ◌≤◌, ◌<◌, ◌≡◌, refl, ◌∙◌, ◌≢◌, inl, inr, true, false, none, some, [], ◌∷◌, map, ok, length,
  arith, ite, ℕ_discrete, Option-cases, Bool-cases,
}
use soup_db.Common.Dict
use soup_db.Common.Dict.{Dict, Key, nat_key}
use soup_db.Common.Bytes.{Bytes}
use soup_db.Storage.Disk.{page, write_page}
use soup_db.Storage.Disk.Pages
use soup_db.Storage.Disk.Pages.{page-write_page, write_page_lem, write_page-IsValid}
use soup_db.Storage.Buffer.{Pool, pin_count, flush_page, flush_each, flush_all}

pub record IsValid (s : Pool) : Type 0 where
  pub disk_ok : Pages.IsValid s.disk
  pub room : 0 < s.capacity
  pub bounded : length s.frames ≤ s.capacity
  pub framed :
      (p : ℕ) (f : Bytes)
      → Dict.get p s.frames ≡ some f
      → (p < s.disk.next_page_id) × (length f ≡ s.disk.page_size)
  pub dirty_framed : (p : ℕ) → Dict.has p s.dirty ≡ true → Dict.get p s.frames ≢ none
  pub pinned_framed : (p : ℕ) → 0 < pin_count s.pin_counts p → Dict.get p s.frames ≢ none
  -- A page that nobody uses and that is not marked has its disk contents.
  pub clean :
      (p : ℕ) (f : Bytes)
      → Dict.get p s.frames ≡ some f
      → Dict.has p s.dirty ≡ false
      → pin_count s.pin_counts p ≡ 0
      → f ≡ page s.disk p

-- What a client sees as the contents of a page, wherever it is kept.
unfoldable pub content : Pool → ℕ → Bytes
content s p = elim (Dict.get p s.frames) [ none ↦ page s.disk p | some f ↦ f ]

module _ (s : Pool) (v : IsValid s) (p : ℕ) where
  pub flush_page_clean : Dict.has p s.dirty ≡ false → flush_page p s ≡ (ok tt, s)
  unfolding flush_page
  flush_page_clean h = rw h

  -- The state after a dirty page has been written back.
  abbrev pub written : Bytes → Pool
  written f = record s { disk = (write_page p f s.disk).1; dirty = Dict.remove p s.dirty }

  pub flush_page_dirty :
      {f : Bytes}
      → Dict.has p s.dirty ≡ true
      → Dict.get p s.frames ≡ some f
      → flush_page p s ≡ (ok tt, written f)
  unfolding flush_page
  flush_page_dirty {f} h g =
      let (low, long) = v.framed p f g in rw (h, g, write_page_lem s.disk p f low long)

  page-written :
      {f : Bytes} (q : ℕ)
      → Dict.get p s.frames ≡ some f
      → page (written f).disk q ≡ ite (ℕ_discrete q p) f (page s.disk q)
  page-written {f} q g =
      let (low, long) = v.framed p f g in page-write_page s.disk p q f v.disk_ok low long

  next-written :
      {f : Bytes}
      → Dict.get p s.frames ≡ some f
      → ((written f).disk.next_page_id ≡ s.disk.next_page_id)
        × ((written f).disk.page_size ≡ s.disk.page_size)
  next-written {f} g =
      let (low, long) = v.framed p f g in rw (write_page_lem s.disk p f low long) (refl, refl)

  written-IsValid : {f : Bytes} → Dict.get p s.frames ≡ some f → IsValid (written f)
  written-IsValid {f} g = record {
    disk_ok = write_page-IsValid s.disk p f v.disk_ok;
    room = v.room;
    bounded = v.bounded;
    framed = λ q x h. ground (arith, next-written g, v.framed q x h);
    dirty_framed = λ q h. v.dirty_framed q (ground (arith, Dict.has-remove p q s.dirty));
    pinned_framed = λ q h. v.pinned_framed q h;
    clean = λ q x h d n. ground (arith, page-written q g, Dict.has-remove p q s.dirty, v.clean q x);
  }

  content-written :
      {f : Bytes} (q : ℕ) → Dict.get p s.frames ≡ some f → content (written f) q ≡ content s q
  unfolding content
  content-written q g = ground (arith, page-written q g)

-- What `flush_page` keeps and what it settles.
pub record Flushed (p : ℕ) (s s' : Pool) : Type 0 where
  pub valid : IsValid s'
  pub contents : (q : ℕ) → content s' q ≡ content s q
  pub frames_same : s'.frames ≡ s.frames
  pub pins_same : s'.pin_counts ≡ s.pin_counts
  pub capacity_same : s'.capacity ≡ s.capacity
  pub next_same : s'.disk.next_page_id ≡ s.disk.next_page_id
  pub size_same : s'.disk.page_size ≡ s.disk.page_size
  pub settled : Dict.has p s'.dirty ≡ false
  pub fewer : (q : ℕ) → Dict.has q s.dirty ≡ false → Dict.has q s'.dirty ≡ false
  pub pages_same : (q : ℕ) → Dict.get q s.frames ≡ none → page s'.disk q ≡ page s.disk q

pub flush_page-Flushed :
    (s : Pool) (p : ℕ) → IsValid s → (s' : Pool) × (flush_page p s ≡ (ok tt, s')) × Flushed p s s'
flush_page-Flushed s p v = elim (Bool-cases (Dict.has p s.dirty)) [
  | inr h ↦ (
    s,
    flush_page_clean s v p h,
    record {
      valid = v;
      contents = λ q. refl;
      frames_same = refl;
      pins_same = refl;
      capacity_same = refl;
      next_same = refl;
      size_same = refl;
      settled = h;
      fewer = λ q d. d;
      pages_same = λ q d. refl;
    },
  )
  | inl h ↦ elim (Option-cases (Dict.get p s.frames)) [
    | inl missing ↦ absurd (v.dirty_framed p h missing)
    | inr (f, g) ↦ (
      written s v p f,
      flush_page_dirty s v p h g,
      record {
        valid = written-IsValid s v p g;
        contents = λ q. content-written s v p q g;
        frames_same = refl;
        pins_same = refl;
        capacity_same = refl;
        next_same = (next-written s v p g).0;
        size_same = (next-written s v p g).1;
        settled = ground (arith, Dict.has-remove p p s.dirty);
        fewer = λ q d. ground (arith, Dict.has-remove p q s.dirty);
        pages_same = λ q d. ground (arith, page-written s v p q g);
      },
    )
  ]
]

-- What `flush_all` keeps.
pub record AllFlushed (s s' : Pool) : Type 0 where
  pub valid : IsValid s'
  pub contents : (q : ℕ) → content s' q ≡ content s q
  pub frames_same : s'.frames ≡ s.frames
  pub pins_same : s'.pin_counts ≡ s.pin_counts
  pub all_settled : (q : ℕ) → Dict.has q s'.dirty ≡ false

has-cons_ne :
    (q p : ℕ) (u : Unit {0}) (d : Dict ℕ (Unit {0}))
    → q ≢ p
    → Dict.has q d ≡ false
    → Dict.has q ((p, u) ∷ d) ≡ false
unfolding Dict.has
has-cons_ne q p u d n h = ground arith

flush_each-AllFlushed :
    (d : Dict ℕ (Unit {0})) (s : Pool)
    → IsValid s
    → ((q : ℕ) → Dict.has q d ≡ false → Dict.has q s.dirty ≡ false)
    → (s' : Pool) × (flush_each (map (λ x. x.0) d) s ≡ (ok tt, s')) × AllFlushed s s'
unfolding flush_each
flush_each-AllFlushed [] s v covered = (
  s,
  refl,
  record {
    valid = v;
    contents = λ q. refl;
    frames_same = refl;
    pins_same = refl;
    all_settled = λ q. covered q (unfold Dict.has in refl);
  },
)
flush_each-AllFlushed ((p, u) ∷ d) s v covered =
    let (s1, step, f) = flush_page-Flushed s p v in
    let still : (q : ℕ) → Dict.has q d ≡ false → Dict.has q s1.dirty ≡ false = λ q h.
      elim (ℕ_discrete q p) [
        | yes e ↦ rw e f.settled
        | no n ↦ f.fewer q (covered q (has-cons_ne q p u d n h))
      ] in
    let (s2, rest, a) = flush_each-AllFlushed d s1 f.valid still in
    (
      s2,
      rw step rest,
      record {
        valid = a.valid;
        contents = λ q. a.contents q ∙ f.contents q;
        frames_same = a.frames_same ∙ f.frames_same;
        pins_same = a.pins_same ∙ f.pins_same;
        all_settled = a.all_settled;
      },
    )

stored :
    (t : Pool) (q : ℕ)
    → IsValid t
    → pin_count t.pin_counts q ≡ 0
    → Dict.has q t.dirty ≡ false
    → page t.disk q ≡ content t q
unfolding content
stored t q w n d = elim (Option-cases (Dict.get q t.frames)) [
  | inl h ↦ ground arith
  | inr (f, h) ↦ ground (arith, w.clean q f)
]

-- On a valid pool `flush_all` succeeds, changes nothing that a client sees, leaves no page dirty,
-- and the disk then holds the contents of every page that is not pinned.
pub flush_all_lem :
    (s : Pool)
    → IsValid s
    → (s' : Pool) × (flush_all s ≡ (ok tt, s'))
      × IsValid s'
      × ((q : ℕ) → content s' q ≡ content s q)
      × ((q : ℕ) → Dict.has q s'.dirty ≡ false)
      × ((q : ℕ) → pin_count s.pin_counts q ≡ 0 → page s'.disk q ≡ content s q)
unfolding flush_all
flush_all_lem s v =
    let (s', done, a) = flush_each-AllFlushed s.dirty s v (λ q h. h) in
    (
      s',
      done,
      a.valid,
      a.contents,
      a.all_settled,
      λ q n. stored s' q a.valid (rw a.pins_same n) (a.all_settled q) ∙ a.contents q,
    )
