-- ===== src/Storage/Buffer/Pin.antt =====
-- `pin`: it returns the contents of the page, changes the contents of none, and refuses only when
-- every frame is pinned.
use soup_db.Common.{
  ℕ, ◌+◌, ◌≤◌, ◌<◌, ◌≡◌, refl, ◌∙◌, ◌≢◌, ◌⊎◌, inl, inr, false, Option, none, some, [], ◌∷◌, Exc, ok,
  raise, length, arith, ite, ℕ_discrete, Option-cases, dec_lt,
}
use soup_db.Common.Dict
use soup_db.Common.Dict.{Dict, Key, nat_key}
use soup_db.Common.Bytes.{Bytes}
use soup_db.Storage.Disk.{page}
use soup_db.Storage.Disk.Pages.{read_page_lem, length-page}
use soup_db.Storage.Buffer.{
  Pool, pin_count, select_from, move_to_end, add_pin, choose_victim, evict, load, fetch_frame, pin,
}
use soup_db.Storage.Buffer.Flush.{IsValid, content, flush_page-Flushed}

select_from-some :
    (s : Pool) (d : Dict ℕ Bytes) (c : ℕ)
    → select_from s d ≡ some c
    → (pin_count s.pin_counts c ≡ 0) × (Dict.get c d ≢ none)
unfolding select_from Dict.get
select_from-some s [] c h = absurd (ground arith)
select_from-some s ((j, f) ∷ d) c h = ground (arith, select_from-some s d c)

select_from-none :
    (s : Pool) (d : Dict ℕ Bytes) (q : ℕ)
    → select_from s d ≡ none
    → Dict.get q d ≢ none
    → 0 < pin_count s.pin_counts q
unfolding select_from Dict.get
select_from-none s [] q h n = absurd (n refl)
select_from-none s ((j, f) ∷ d) q h n = ground (arith, select_from-none s d q)

module _ (s : Pool) (v : IsValid s) (p : ℕ) where
  -- A page that nobody uses and that is not dirty can be dropped.
  drop_frame-IsValid :
      Dict.has p s.dirty ≡ false
      → pin_count s.pin_counts p ≡ 0
      → IsValid (record s { frames = Dict.remove p s.frames })
  drop_frame-IsValid d n = record {
    disk_ok = v.disk_ok;
    room = v.room;
    bounded = omega (arith, Dict.length-remove-le p s.frames, v.bounded);
    framed = λ q x h. ground (arith, Dict.get-remove p q s.frames, v.framed q x);
    dirty_framed = λ q h. ground (arith, Dict.get-remove p q s.frames, v.dirty_framed q);
    pinned_framed = λ q h. ground (arith, Dict.get-remove p q s.frames, v.pinned_framed q);
    clean = λ q x h e m. ground (arith, Dict.get-remove p q s.frames, v.clean q x);
  }

  content-drop_frame :
      (q : ℕ)
      → Dict.has p s.dirty ≡ false
      → pin_count s.pin_counts p ≡ 0
      → content (record s { frames = Dict.remove p s.frames }) q ≡ content s q
  unfolding content
  content-drop_frame q d n = elim (Option-cases (Dict.get p s.frames)) [
    | inl h ↦ ground (arith, Dict.get-remove p q s.frames)
    | inr (f, h) ↦ ground (arith, Dict.get-remove p q s.frames, v.clean p f)
  ]

  add_frame-IsValid :
      Dict.get p s.frames ≡ none
      → p < s.disk.next_page_id
      → length s.frames < s.capacity
      → IsValid (record s { frames = Dict.put p (page s.disk p) s.frames })
  add_frame-IsValid absent low space = record {
    disk_ok = v.disk_ok;
    room = v.room;
    bounded = omega (arith, Dict.length-put-le p (page s.disk p) s.frames);
    framed = λ q x h. ground (
      arith,
      Dict.get-put p q (page s.disk p) s.frames,
      v.framed q x,
      length-page s.disk p v.disk_ok low,
    );
    dirty_framed =
        λ q h. ground (arith, Dict.get-put p q (page s.disk p) s.frames, v.dirty_framed q);
    pinned_framed =
        λ q h. ground (arith, Dict.get-put p q (page s.disk p) s.frames, v.pinned_framed q);
    clean = λ q x h e m. ground (arith, Dict.get-put p q (page s.disk p) s.frames, v.clean q x);
  }

  content-add_frame :
      (q : ℕ)
      → Dict.get p s.frames ≡ none
      → content (record s { frames = Dict.put p (page s.disk p) s.frames }) q ≡ content s q
  unfolding content
  content-add_frame q absent = ground (arith, Dict.get-put p q (page s.disk p) s.frames)

  get-move_to_end :
      (f : Bytes) (q : ℕ)
      → Dict.get p s.frames ≡ some f
      → Dict.get q (move_to_end p f s).frames ≡ Dict.get q s.frames
  unfolding move_to_end
  get-move_to_end f q h =
      ground (arith, Dict.get-put p q f (Dict.remove p s.frames), Dict.get-remove p q s.frames)

  move_to_end-IsValid : (f : Bytes) → Dict.get p s.frames ≡ some f → IsValid (move_to_end p f s)
  move_to_end-IsValid f g =
      unfold move_to_end in
      record {
        disk_ok = v.disk_ok;
        room = v.room;
        bounded = omega (
          arith,
          Dict.length-put-le p f (Dict.remove p s.frames),
          Dict.length-remove_present p s.frames (λ e. ground arith),
        );
        framed = λ q x h. ground (arith, get-move_to_end f q g, v.framed q x);
        dirty_framed = λ q h. ground (arith, get-move_to_end f q g, v.dirty_framed q);
        pinned_framed = λ q h. ground (arith, get-move_to_end f q g, v.pinned_framed q);
        clean = λ q x h e m. ground (arith, get-move_to_end f q g, v.clean q x);
      }

  content-move_to_end :
      (f : Bytes) (q : ℕ)
      → Dict.get p s.frames ≡ some f
      → content (move_to_end p f s) q ≡ content s q
  unfolding content move_to_end
  content-move_to_end f q g =
      ground (arith, Dict.get-put p q f (Dict.remove p s.frames), Dict.get-remove p q s.frames)

  pin_count-add_pin :
      (q : ℕ)
      → pin_count (add_pin p s).pin_counts q
        ≡ ite (ℕ_discrete q p) (pin_count s.pin_counts p + 1) (pin_count s.pin_counts q)
  unfolding pin_count add_pin
  pin_count-add_pin q = ground (arith, Dict.get-put p q (pin_count s.pin_counts p + 1) s.pin_counts)

  add_pin-IsValid : Dict.get p s.frames ≢ none → IsValid (add_pin p s)
  add_pin-IsValid here =
      unfold add_pin in
      record {
        disk_ok = v.disk_ok;
        room = v.room;
        bounded = v.bounded;
        framed = v.framed;
        dirty_framed = v.dirty_framed;
        pinned_framed = λ q h. ground (arith, pin_count-add_pin q, v.pinned_framed q);
        clean = λ q x h e m. ground (arith, pin_count-add_pin q, v.clean q x);
      }

content_absent : (s : Pool) (p : ℕ) → Dict.get p s.frames ≡ none → content s p ≡ page s.disk p
unfolding content
content_absent s p h = ground arith

pub content_present :
    (s : Pool) (p : ℕ) {f : Bytes} → Dict.get p s.frames ≡ some f → content s p ≡ f
unfolding content
content_present s p h = ground arith

content-add_pin : (s : Pool) (p q : ℕ) → content (add_pin p s) q ≡ content s q
unfolding content add_pin
content-add_pin s p q = refl

-- What a successful `pin` keeps.
pub record Pinned (p : ℕ) (s s' : Pool) : Type 0 where
  pub valid : IsValid s'
  pub contents : (q : ℕ) → content s' q ≡ content s q
  pub counted :
      (q : ℕ)
      → pin_count s'.pin_counts q
        ≡ ite (ℕ_discrete q p) (pin_count s.pin_counts p + 1) (pin_count s.pin_counts q)
  pub framed : Dict.get p s'.frames ≢ none

-- The parts of `Pinned` that `fetch_frame` has to give.
record Fetched (p : ℕ) (s s' : Pool) : Type 0 where
  valid : IsValid s'
  contents : (q : ℕ) → content s' q ≡ content s q
  pins_same : s'.pin_counts ≡ s.pin_counts
  framed : Dict.get p s'.frames ≢ none

-- Every frame is in use, and there is none for the page.
pub record Exhausted (p : ℕ) (s : Pool) : Type 0 where
  pub absent : Dict.get p s.frames ≡ none
  pub full : s.capacity ≤ length s.frames
  pub all_pinned : (q : ℕ) → Dict.get q s.frames ≢ none → 0 < pin_count s.pin_counts q

-- What `evict` keeps; it makes room for one frame.
record Evicted (s s' : Pool) : Type 0 where
  valid : IsValid s'
  contents : (q : ℕ) → content s' q ≡ content s q
  pins_same : s'.pin_counts ≡ s.pin_counts
  next_same : s'.disk.next_page_id ≡ s.disk.next_page_id
  space : length s'.frames < s'.capacity
  absent_same : (q : ℕ) → Dict.get q s.frames ≡ none → Dict.get q s'.frames ≡ none
  pages_same : (q : ℕ) → Dict.get q s.frames ≡ none → page s'.disk q ≡ page s.disk q

evict-Evicted :
    (s : Pool) (c : ℕ)
    → IsValid s
    → pin_count s.pin_counts c ≡ 0
    → Dict.get c s.frames ≢ none
    → (s' : Pool) × (evict (some c) s ≡ (ok tt, s')) × Evicted s s'
unfolding evict
evict-Evicted s c v n here =
    let (t, step, f) = flush_page-Flushed s c v in
    let unused : pin_count t.pin_counts c ≡ 0 = rw f.pins_same n in
    let present : Dict.get c t.frames ≢ none = rw f.frames_same here in
    (
      record t { frames = Dict.remove c t.frames },
      rw step,
      record {
        valid = drop_frame-IsValid t f.valid c f.settled unused;
        contents = λ q. content-drop_frame t f.valid c q f.settled unused ∙ f.contents q;
        pins_same = f.pins_same;
        next_same = f.next_same;
        space = omega (arith, Dict.length-remove_present c t.frames present, f.valid.bounded);
        absent_same = λ q h. ground (arith, Dict.get-remove c q t.frames, f.frames_same);
        pages_same = f.pages_same;
      },
    )

-- Loading a page into a pool that has room, after its bytes were read.
inserted :
    (s t : Pool) (p : ℕ)
    → Evicted s t
    → Dict.get p s.frames ≡ none
    → p < s.disk.next_page_id
    → Fetched p s (record t { frames = Dict.put p (page s.disk p) t.frames })
inserted s t p k absent low =
    let same = k.pages_same p absent in
    let gone = k.absent_same p absent in
    rw (← same) (record {
      valid = add_frame-IsValid t k.valid p gone (omega (arith, k.next_same)) k.space;
      contents = λ q. content-add_frame t k.valid p q gone ∙ k.contents q;
      pins_same = k.pins_same;
      framed = λ e. ground (arith, Dict.get-put p p (page t.disk p) t.frames);
    })

-- The pool after a read, which only counts.
abbrev read_once : Pool → Pool
read_once s = record s { disk = record s.disk { reads = s.disk.reads + 1 } }

read_once-IsValid : (s : Pool) → IsValid s → IsValid (read_once s)
read_once-IsValid s v = record {
  disk_ok = record { sized = v.disk_ok.sized; whole = v.disk_ok.whole };
  room = v.room;
  bounded = v.bounded;
  framed = v.framed;
  dirty_framed = v.dirty_framed;
  pinned_framed = v.pinned_framed;
  clean = v.clean;
}

content-read_once : (s : Pool) (q : ℕ) → content (read_once s) q ≡ content s q
unfolding content
content-read_once s q = refl

-- A pool with room evicts nothing.
spacious : (s : Pool) → IsValid s → length s.frames < s.capacity → Evicted s s
spacious s v space = record {
  valid = v;
  contents = λ q. refl;
  pins_same = refl;
  next_same = refl;
  space = space;
  absent_same = λ q h. h;
  pages_same = λ q h. refl;
}

of_read_once : (s t : Pool) (p : ℕ) → Fetched p (read_once s) t → Fetched p s t
of_read_once s t p f = record {
  valid = f.valid;
  contents = λ q. f.contents q ∙ content-read_once s q;
  pins_same = f.pins_same;
  framed = f.framed;
}

module _ (s : Pool) (v : IsValid s) (p : ℕ) (low : p < s.disk.next_page_id) where
  choose_spacious : length s.frames < s.capacity → choose_victim s ≡ (ok none, s)
  unfolding choose_victim
  choose_spacious space = ground arith

  choose_full :
      (o : Option ℕ)
      → s.capacity ≤ length s.frames
      → select_from s s.frames ≡ o
      → choose_victim s ≡ (elim o [ none ↦ raise Exc.runtime_error | some c ↦ ok (some c) ], s)
  unfolding choose_victim
  choose_full none full h = ground arith
  choose_full (some c) full h = ground arith

  load_chosen :
      (victim : Option ℕ) (t : Pool)
      → choose_victim s ≡ (ok victim, s)
      → evict victim (read_once s) ≡ (ok tt, t)
      → load p s ≡ (ok (page s.disk p), record t { frames = Dict.put p (page s.disk p) t.frames })
  unfolding load
  load_chosen victim t h k = rw (h, read_page_lem s.disk p v.disk_ok low, k)

  load_refused :
      choose_victim s ≡ (raise Exc.runtime_error, s) → load p s ≡ (raise Exc.runtime_error, s)
  unfolding load
  load_refused h = rw h

  loaded :
      (victim : Option ℕ) (t : Pool)
      → choose_victim s ≡ (ok victim, s)
      → evict victim (read_once s) ≡ (ok tt, t)
      → Evicted (read_once s) t
      → Dict.get p s.frames ≡ none
      → (s' : Pool) × (load p s ≡ (ok (page s.disk p), s')) × Fetched p s s'
  loaded victim t h k e absent =
      let s' : Pool = record t { frames = Dict.put p (page s.disk p) t.frames } in
      (s', load_chosen victim t h k, of_read_once s s' p (inserted (read_once s) t p e absent low))

  load-Fetched :
      Dict.get p s.frames ≡ none
      → ((s' : Pool) × (load p s ≡ (ok (page s.disk p), s')) × Fetched p s s')
        ⊎ (load p s ≡ (raise Exc.runtime_error, s)) × Exhausted p s
  load-Fetched absent = elim (dec_lt (length s.frames) s.capacity) [
    | yes space ↦ inl (
        loaded none (read_once s) (choose_spacious space) (unfold evict in refl)
          (spacious (read_once s) (read_once-IsValid s v) space) absent)
    | no crowded ↦
        let full : s.capacity ≤ length s.frames = omega arith in
        elim (Option-cases (select_from s s.frames)) [
          | inl h ↦ inr (
            load_refused (choose_full none full h),
            record {
              absent = absent;
              full = full;
              all_pinned = λ q here. select_from-none s s.frames q h here;
            },
          )
          | inr (c, h) ↦
              let (free, here) = select_from-some s s.frames c h in
              let (t, gone, e) = evict-Evicted (read_once s) c (read_once-IsValid s v) free here in
              inl (loaded (some c) t (choose_full (some c) full h) gone e absent)
        ]
  ]

  -- What `pin` does before it counts.
  fetch_frame-Fetched :
      ((s' : Pool) × (fetch_frame p (Dict.get p s.frames) s ≡ (ok (content s p), s'))
        × Fetched p s s')
      ⊎ (fetch_frame p (Dict.get p s.frames) s ≡ (raise Exc.runtime_error, s)) × Exhausted p s
  unfolding fetch_frame
  fetch_frame-Fetched = elim (Option-cases (Dict.get p s.frames)) [
    | inl h ↦ rw (content_absent s p h, h) (load-Fetched h)
    | inr (f, h) ↦ inl (
      move_to_end p f s,
      rw (content_present s p h, h),
      record {
        valid = move_to_end-IsValid s v p f h;
        contents = λ q. content-move_to_end s v p f q h;
        pins_same = unfold move_to_end in refl;
        framed = λ e. ground (arith, get-move_to_end s v p f p h);
      },
    )
  ]

  -- On a valid pool `pin` of an allocated page either returns the page's contents, changes the
  -- contents of no page and adds one to the page's pins alone, or raises RuntimeError and changes
  -- nothing; it raises only if the page has no frame, the pool is full and every frame is pinned.
  pub pin-Pinned :
      ((s' : Pool) × (pin p s ≡ (ok (content s p), s')) × Pinned p s s')
      ⊎ (pin p s ≡ (raise Exc.runtime_error, s)) × Exhausted p s
  unfolding pin
  pin-Pinned = elim fetch_frame-Fetched [
    | inr (h, x) ↦ inr (rw h, x)
    | inl (t, h, f) ↦ inl (
      add_pin p t,
      rw h,
      record {
        valid = add_pin-IsValid t f.valid p f.framed;
        contents = λ q. content-add_pin t p q ∙ f.contents q;
        counted = λ q. pin_count-add_pin t f.valid p q ∙ rw f.pins_same;
        framed = f.framed;
      },
    )
  ]
