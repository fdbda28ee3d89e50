-- ===== src/Storage/SequentialPage/Tests.antt =====
-- A run of engine/storage/_sequential_page.py on a page of 13 bytes.
use soup_db.Storage.SlottedPage.{write_pair}
use soup_db.Storage.SlottedPage
use soup_db.Common.Struct.{of_word, unpack_le, to_word, pack_le, fits_signed}
use soup_db.Common.{◌≡◌, ◌≢◌, refl, some, [], ◌∷◌, ok}
use soup_db.Common.Bytes.{Bytes}
use soup_db.Common.Int.{pos, negsuc}
use soup_db.Storage.SequentialPage.{
  new_page, overflow_kind, kind, next_page_id, first_overflow_page_id, set_next_page_id,
  set_first_overflow_page_id, body,
}
use soup_db.Storage.SequentialPage.Links.{links_are_read}

abbrev empty : Bytes
empty = 1 ∷ 255 ∷ 255 ∷ 255 ∷ 255 ∷ 255 ∷ 255 ∷ 255 ∷ 255 ∷ 0 ∷ 0 ∷ 4 ∷ 0 ∷ []

empty_lem : new_page 13 overflow_kind ≡ ok empty
unfolding new_page fits_signed SlottedPage.new_page write_pair pack_le to_word
empty_lem = refl

abbrev linked : Bytes
linked = 1 ∷ 7 ∷ 0 ∷ 0 ∷ 0 ∷ 255 ∷ 255 ∷ 255 ∷ 255 ∷ 0 ∷ 0 ∷ 4 ∷ 0 ∷ []

linked_lem : set_next_page_id empty (some (pos 7)) ≡ ok linked
unfolding set_next_page_id unpack_le fits_signed of_word pack_le to_word
linked_lem = refl

seven_is_page : some (pos 7) ≢ some (negsuc 0)
seven_is_page h = absurd cc

links_are_read_example :
    (set_next_page_id empty (some (pos 7)) ≡ ok linked
      → (next_page_id linked ≡ ok (some (pos 7)))
        × (first_overflow_page_id linked ≡ first_overflow_page_id empty)
        × (kind linked ≡ kind empty)
        × (body linked ≡ body empty))
    × (set_first_overflow_page_id empty (some (pos 7)) ≡ ok linked
        → (first_overflow_page_id linked ≡ ok (some (pos 7)))
          × (next_page_id linked ≡ next_page_id empty)
          × (kind linked ≡ kind empty)
          × (body linked ≡ body empty))
links_are_read_example = links_are_read empty linked (some (pos 7)) seven_is_page
