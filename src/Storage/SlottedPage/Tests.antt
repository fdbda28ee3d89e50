-- ===== src/Storage/SlottedPage/Tests.antt =====
-- Runs of engine/storage/_slotted_page.py on pages of 32 bytes.
use soup_db.Common.{
  ℕ, ◌+◌, ◌-◌, ◌*◌, ◌≤◌, ◌<◌, ◌≡◌, ◌≢◌, refl, Bool, Option, none, some, [], ◌∷◌, Result, ok, ◌>>=◌,
  arith,
}
use soup_db.Common.Bytes.{Bytes}
use soup_db.Common.Struct.{unpack_le, pack_le}
use soup_db.Storage.SlottedPage.{
  entry_bytes, record_at, bury, delete_at, slot_count, place, free_space, new_page, read_pair,
  write_pair, insert_record, read_record, delete_record, compact,
}
use soup_db.Storage.SlottedPage.Records.{IsPage, new_page-IsPage, insert_record_lem}
use soup_db.Storage.SlottedPage.Deletion.{Deleted, delete_record_lem}

abbrev empty : Bytes
empty = (new_page-IsPage 32 (omega arith) (omega arith)).0

empty-IsPage : IsPage empty 0 32
empty-IsPage = (new_page-IsPage 32 (omega arith) (omega arith)).3

insert_record_lem_example :
    (4 + 0 * 4 + 4 + 3 ≤ 32
      → (page' : Bytes) × (insert_record empty (7 ∷ 8 ∷ 9 ∷ []) ≡ ok (some 0, page'))
        × IsPage page' (0 + 1) (32 - 3)
        × (read_record page' 0 ≡ ok (some (7 ∷ 8 ∷ 9 ∷ [])))
        × ((i : ℕ) → i ≢ 0 → read_record page' i ≡ read_record empty i))
    × (32 < 4 + 0 * 4 + 4 + 3 → insert_record empty (7 ∷ 8 ∷ 9 ∷ []) ≡ ok (none, empty))
insert_record_lem_example = insert_record_lem empty (7 ∷ 8 ∷ 9 ∷ []) 0 32 empty-IsPage

abbrev one_record : Bytes
one_record = ((insert_record_lem empty (7 ∷ 8 ∷ 9 ∷ []) 0 32 empty-IsPage).0 (omega arith)).0

one_record-IsPage : IsPage one_record 1 29
one_record-IsPage = ((insert_record_lem empty (7 ∷ 8 ∷ 9 ∷ []) 0 32 empty-IsPage).0 (omega arith)).2

delete_record_lem_example :
    (removed : Bool) × (page' : Bytes) × (delete_record one_record 0 ≡ ok (removed, page'))
    × Deleted one_record 1 29 0 removed page'
delete_record_lem_example = delete_record_lem one_record 1 29 0 one_record-IsPage

-- Two records, the first deleted, and the page compacted: the second record is kept in its slot.
abbrev script : Result (Option Bytes × Option Bytes)
script = do
  page ← new_page 32
  (_, one) ← insert_record page (1 ∷ 2 ∷ [])
  (_, two) ← insert_record one (3 ∷ 4 ∷ 5 ∷ [])
  (_, left) ← delete_record two 0
  packed ← compact left
  first ← read_record packed 0
  second ← read_record packed 1
  ok (first, second)

script_result : script ≡ ok (none, some (3 ∷ 4 ∷ 5 ∷ []))
unfolding new_page write_pair insert_record free_space read_pair pack_le unpack_le place
    delete_record slot_count delete_at bury compact read_record record_at entry_bytes
script_result = refl
