-- ===== src/Storage/SequentialPage.antt =====
-- engine/storage/_sequential_page.py: the header in front of a slotted page. Page ids are integers, as in the
-- code; none is written as -1.
pub mod Links
mod Tests
use soup_db.Common.{
  ℕ, zero, ◌+◌, ◌-◌, ◌^◌, Bool, true, false, ◌&&◌, Option, none, some, [], ◌++◌, Exc, Result, ok,
  raise, ◌>>=◌, ◌>>◌, require, ltb, leb, length, replicate, drop, ◌==◌, if◌then◌else◌,
}
use soup_db.Common.Bytes.{Bytes, slice, splice}
use soup_db.Common.Int.{ℤ, pos, negsuc}
use soup_db.Common.Struct.{pack_le, unpack_le, to_word, of_word, fits_signed}
use soup_db.Storage.SlottedPage

abbrev pub main_kind : ℕ
main_kind = 0

abbrev pub overflow_kind : ℕ
overflow_kind = 1

pub record Header : Type 0 where
  pub kind : ℕ
  pub next_id : ℤ
  pub first_overflow : ℤ

-- `_read_header`
unfoldable pub read_header : Bytes → Result Header
read_header page =
    require (leb 9 (length page)) Exc.struct_error
    >> ok record {
      kind = unpack_le (slice 0 1 page);
      next_id = of_word 4 (unpack_le (slice 1 4 page));
      first_overflow = of_word 4 (unpack_le (slice 5 4 page));
    }

unfoldable pub header_bytes : Header → Bytes
header_bytes h =
    pack_le 1 h.kind ++ (pack_le 4 (to_word 4 h.next_id) ++ pack_le 4 (to_word 4 h.first_overflow))

unfoldable pub fits_header : Header → Bool
fits_header h = ltb h.kind 256 && fits_signed 4 h.next_id && fits_signed 4 h.first_overflow

-- `_write_header`
unfoldable pub write_header : Bytes → Header → Result Bytes
unfolding fits_header header_bytes
write_header page h =
    require (fits_header h) Exc.struct_error
    >> (require (leb 9 (length page)) Exc.struct_error >> ok (splice 0 (header_bytes h) page))

unfoldable pub page_id : ℤ → Option ℤ
page_id (negsuc zero) = none
page_id n = some n

unfoldable pub or_no_page : Option ℤ → ℤ
or_no_page none = negsuc 0
or_no_page (some n) = n

abbrev pub body_size : ℕ → ℕ
body_size page_size = page_size - 9

unfoldable pub new_page : ℕ → ℕ → Result Bytes
unfolding write_header
new_page page_size kind = do
  page ←
      write_header (replicate page_size 0)
        record { kind = kind; next_id = negsuc 0; first_overflow = negsuc 0 }
  slots ← SlottedPage.new_page (body_size page_size)
  ok (splice 9 slots page)

unfoldable pub kind : Bytes → Result ℕ
unfolding read_header
kind page = do h ← read_header page; ok h.kind

unfoldable pub next_page_id : Bytes → Result (Option ℤ)
unfolding read_header page_id
next_page_id page = do h ← read_header page; ok (page_id h.next_id)

unfoldable pub set_next_page_id : Bytes → Option ℤ → Result Bytes
unfolding read_header write_header or_no_page
set_next_page_id page value = do
  h ← read_header page
  write_header page (record h { next_id = or_no_page value })

unfoldable pub first_overflow_page_id : Bytes → Result (Option ℤ)
unfolding read_header page_id
first_overflow_page_id page = do h ← read_header page; ok (page_id h.first_overflow)

unfoldable pub set_first_overflow_page_id : Bytes → Option ℤ → Result Bytes
unfolding read_header write_header or_no_page
set_first_overflow_page_id page value = do
  h ← read_header page
  write_header page (record h { first_overflow = or_no_page value })

abbrev pub body : Bytes → Bytes
body page = drop 9 page
