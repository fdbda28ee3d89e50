-- ===== src/Storage/SequentialPage/Links.antt =====
-- engine/storage/_sequential_page.py: the links of a page are set and read.
use soup_db.Common.{
  ℕ, zero, suc, ◌+◌, ◌^◌, ◌<◌, ◌≡◌, ◌≢◌, refl, sym, ap, subst, ◌∙◌, true, Option, none, some, ◌++◌,
  Exc, ok, >>=-eq-ok, require, require-eq-ok, leb, length, length-append, drop, drop-append_length,
  arith,
}
use soup_db.Common.Bytes.{Bytes, slice, At, At-start, At-slice, At-next, At-le, At-append}
use soup_db.Common.Int.{ℤ, pos, negsuc}
use soup_db.Common.Struct.{
  pack_le, unpack_le, unpack_le-pack_le, length-pack_le, to_word, of_word, fits_signed,
  of_word-to_word, to_word-lt,
}
use soup_db.Storage.SequentialPage.{
  Header, read_header, header_bytes, fits_header, write_header, page_id, or_no_page, next_page_id,
  set_next_page_id, first_overflow_page_id, set_first_overflow_page_id, kind, body,
}

length-header_bytes : (h : Header) → length (header_bytes h) ≡ 9
unfolding header_bytes
length-header_bytes h =
    let one = length-pack_le 1 h.kind in
    let next = length-pack_le 4 (to_word 4 h.next_id) in
    let last = length-pack_le 4 (to_word 4 h.first_overflow) in
    omega (
      arith,
      one,
      next,
      last,
      length-append (pack_le 1 h.kind)
          (pack_le 4 (to_word 4 h.next_id) ++ pack_le 4 (to_word 4 h.first_overflow)),
      length-append (pack_le 4 (to_word 4 h.next_id)) (pack_le 4 (to_word 4 h.first_overflow)),
    )

signed-slice :
    (v : ℤ) (page rest : Bytes) (off : ℕ)
    → fits_signed 4 v ≡ true
    → At page off (pack_le 4 (to_word 4 v) ++ rest)
    → (of_word 4 (unpack_le (slice off 4 page)) ≡ v) × At page (off + 4) rest
signed-slice v page rest off h k =
    let len = length-pack_le 4 (to_word 4 v) in
    let s =
      subst (λ n. slice off n page ≡ pack_le 4 (to_word 4 v)) len
        (At-slice (pack_le 4 (to_word 4 v)) rest k) in
    (
      rw (s, unpack_le-pack_le 4 (to_word 4 v) (to_word-lt 4 v h)) (of_word-to_word 4 v h),
      subst (λ n. At page (off + n) rest) len (At-next (pack_le 4 (to_word 4 v)) rest k),
    )

fits_header_parts :
    (h : Header)
    → fits_header h ≡ true
    → (h.kind < 256 ^ 1)
      × (fits_signed 4 h.next_id ≡ true)
      × (fits_signed 4 h.first_overflow ≡ true)
unfolding fits_header
fits_header_parts h e = ground (arith, e)

read_header-At :
    (h : Header) (page rest : Bytes)
    → fits_header h ≡ true
    → At page 0 (header_bytes h ++ rest)
    → read_header page ≡ ok h
unfolding read_header header_bytes
read_header-At h page rest e k =
    let (small, next_fits, last_fits) = fits_header_parts h e in
    let x = pack_le 1 h.kind in
    let y = pack_le 4 (to_word 4 h.next_id) in
    let z = pack_le 4 (to_word 4 h.first_overflow) in
    let len = length-pack_le 1 h.kind in
    let k0 : At page 0 (x ++ ((y ++ z) ++ rest)) = At-append x (y ++ z) rest k in
    let first = subst (λ n. slice 0 n page ≡ x) len (At-slice x ((y ++ z) ++ rest) k0) in
    let k1 : At page 1 ((y ++ z) ++ rest) =
      subst (λ n. At page n ((y ++ z) ++ rest)) (omega (arith, len))
        (At-next x ((y ++ z) ++ rest) k0) in
    let (next, k2) = signed-slice h.next_id page (z ++ rest) 1 next_fits (At-append y z rest k1) in
    let (last, _) = signed-slice h.first_overflow page rest 5 last_fits k2 in
    let room : leb 9 (length page) ≡ true =
      ground (arith, At-le z rest k2, length-pack_le 4 (to_word 4 h.first_overflow)) in
    rw (room, first, unpack_le-pack_le 1 h.kind small, next, last) refl

-- A page with the header, and the rest of the page before.
pub write_header_lem :
    (page : Bytes) (h : Header) (after : Bytes)
    → write_header page h ≡ ok after
    → (read_header after ≡ ok h) × (body after ≡ body page)
unfolding write_header pack_le
write_header_lem page h after e =
    let (_, fits, e1) = >>=-eq-ok (require (fits_header h) Exc.struct_error) _ e in
    let (_, room, e2) = >>=-eq-ok (require (leb 9 (length page)) Exc.struct_error) _ e1 in
    let same : header_bytes h ++ drop (length (header_bytes h)) page ≡ after = ground (arith, e2) in
    let len = length-header_bytes h in
    let rest = drop (length (header_bytes h)) page in
    (
      read_header-At h after rest (require-eq-ok (fits_header h) Exc.struct_error fits)
          (subst (λ w. At w 0 (header_bytes h ++ rest)) same (At-start (header_bytes h ++ rest))),
      ap (drop 9) (sym same)
          ∙ subst (λ n. drop n (header_bytes h ++ drop n page) ≡ drop n page) len
              (drop-append_length (header_bytes h) (drop (length (header_bytes h)) page)),
    )

page_id-or_no_page :
    (value : Option ℤ) → value ≢ some (negsuc 0) → page_id (or_no_page value) ≡ value
unfolding page_id or_no_page
page_id-or_no_page none h = refl
page_id-or_no_page (some (pos n)) h = refl
page_id-or_no_page (some (negsuc zero)) h = absurd (h refl)
page_id-or_no_page (some (negsuc (suc n))) h = refl

-- A link that is set is the one that is read, for either link and no page as well; the other link, the
-- kind of the page and its body stay. The condition excludes -1, which stands for no page.
pub links_are_read :
    (page after : Bytes) (value : Option ℤ)
    → value ≢ some (negsuc 0)
    → (set_next_page_id page value ≡ ok after
        → (next_page_id after ≡ ok value)
          × (first_overflow_page_id after ≡ first_overflow_page_id page)
          × (kind after ≡ kind page)
          × (body after ≡ body page))
      × (set_first_overflow_page_id page value ≡ ok after
          → (first_overflow_page_id after ≡ ok value)
            × (next_page_id after ≡ next_page_id page)
            × (kind after ≡ kind page)
            × (body after ≡ body page))
unfolding set_next_page_id set_first_overflow_page_id next_page_id first_overflow_page_id kind
links_are_read page after value v = (
  λ e.
      let (h, hh, e1) = >>=-eq-ok (read_header page) _ e in
      let (r, b) = write_header_lem page (record h { next_id = or_no_page value }) after e1 in
      (rw (r, page_id-or_no_page value v) refl, rw (r, hh) refl, rw (r, hh) refl, b),
  λ e.
      let (h, hh, e1) = >>=-eq-ok (read_header page) _ e in
      let (r, b) =
        write_header_lem page (record h { first_overflow = or_no_page value }) after e1 in
      (rw (r, page_id-or_no_page value v) refl, rw (r, hh) refl, rw (r, hh) refl, b),
)
