-- ===== src/Storage/SlottedPage.antt =====
-- engine/storage/_slotted_page.py, over the bytes of a page. A function that changes the page returns
-- the new one; what a raise leaves half written is not modelled. Sizes are natural numbers: where the
-- source's differences are negative, on a page that is not well formed, they are 0 here.
pub mod Pairs
pub mod Records
pub mod Deletion
mod Tests
use soup_db.Common.{
  ℕ, zero, suc, ◌+◌, ◌-◌, ◌*◌, Bool, true, false, ◌&&◌, Option, none, some, List, [], ◌∷◌, ◌++◌,
  Exc, Result, ok, raise, ◌>>=◌, length, replicate, ltb, leb, ◌==◌, if◌then◌else◌,
}
use soup_db.Common.Bytes.{Bytes, slice, splice}
use soup_db.Common.Struct.{pack_le, unpack_le}

-- `struct.pack("<HH", a, b)` of numbers in range.
unfoldable pub pair : ℕ → ℕ → Bytes
pair a b = pack_le 2 a ++ pack_le 2 b

-- `struct.unpack_from("<HH", page, pos)`
unfoldable pub read_pair : Bytes → ℕ → Result (ℕ × ℕ)
read_pair page pos =
    if leb (pos + 4) (length page)
    then ok (unpack_le (slice pos 2 page), unpack_le (slice (pos + 2) 2 page))
    else raise Exc.struct_error

-- `struct.pack_into("<HH", page, pos, a, b)`
unfoldable pub write_pair : Bytes → ℕ → ℕ → ℕ → Result Bytes
unfolding pair
write_pair page pos a b =
    if ltb a 65536 && (ltb b 65536 && leb (pos + 4) (length page))
    then ok (splice pos (pair a b) page)
    else raise Exc.struct_error

-- `_slot_position`
abbrev pub slot_position : ℕ → ℕ
slot_position slot = 4 + slot * 4

unfoldable pub max_record_size : ℕ → ℕ
max_record_size page_size = page_size - 4 - 4

unfoldable pub new_page : ℕ → Result Bytes
new_page page_size = write_pair (replicate page_size 0) 0 0 page_size

unfoldable pub slot_count : Bytes → Result ℕ
slot_count page = do (num_slots, _) ← read_pair page 0; ok num_slots

unfoldable pub free_space : Bytes → Result ℕ
free_space page = do
  (num_slots, free_space_offset) ← read_pair page 0
  ok (free_space_offset - (4 + num_slots * 4))

-- The part of `insert_record` after its test.
unfoldable pub place : Bytes → Bytes → ℕ × ℕ → Result (Option ℕ × Bytes)
place page bytes (num_slots, free_space_offset) = do
  let new_offset = free_space_offset - length bytes
  let written = splice new_offset bytes page
  with_slot ← write_pair written (slot_position num_slots) new_offset (length bytes)
  with_header ← write_pair with_slot 0 (num_slots + 1) new_offset
  ok (some num_slots, with_header)

unfoldable pub insert_record : Bytes → Bytes → Result (Option ℕ × Bytes)
insert_record page bytes = do
  space ← free_space page
  header ← read_pair page 0
  if ltb space (length bytes + 4) then ok (none, page) else place page bytes header

-- The bytes of a slot's entry; an offset of 0 marks a tombstone.
unfoldable pub entry_bytes : Bytes → ℕ × ℕ → Option Bytes
entry_bytes page (offset, size) = if offset == 0 then none else some (slice offset size page)

unfoldable pub record_at : Bytes → ℕ → Result (Option Bytes)
record_at page slot = do entry ← read_pair page (slot_position slot); ok (entry_bytes page entry)

unfoldable pub read_record : Bytes → ℕ → Result (Option Bytes)
read_record page slot = do
  count ← slot_count page
  if ltb slot count then record_at page slot else ok none

-- `delete_record` of an entry.
unfoldable pub bury : Bytes → ℕ → ℕ × ℕ → Result (Bool × Bytes)
bury page slot (offset, size) =
    if offset == 0
    then ok (false, page)
    else (do changed ← write_pair page (slot_position slot) 0 size; ok (true, changed))

unfoldable pub delete_at : Bytes → ℕ → Result (Bool × Bytes)
delete_at page slot = do entry ← read_pair page (slot_position slot); bury page slot entry

unfoldable pub delete_record : Bytes → ℕ → Result (Bool × Bytes)
delete_record page slot = do
  count ← slot_count page
  if ltb slot count then delete_at page slot else ok (false, page)

-- The loop over `range(num_slots)` of `_live_bytes` and of `compact`: slot, offset and length.
pub live_entries : Bytes → ℕ → ℕ → Result (List (ℕ × ℕ × ℕ))
live_entries page slot zero = ok []
live_entries page slot (suc rounds) = do
  (offset, size) ← read_pair page (slot_position slot)
  rest ← live_entries page (suc slot) rounds
  ok (if offset == 0 then rest else (slot, offset, size) ∷ rest)

pub total_size : List (ℕ × ℕ × ℕ) → ℕ
total_size [] = 0
total_size ((slot, offset, size) ∷ entries) = size + total_size entries

unfoldable pub live_bytes : Bytes → Result ℕ
unfolding live_entries total_size
live_bytes page = do
  count ← slot_count page
  entries ← live_entries page 0 count
  ok (total_size entries)

unfoldable pub reclaimable_space : Bytes → Result ℕ
reclaimable_space page = do
  (_, free_space_offset) ← read_pair page 0
  live ← live_bytes page
  ok (length page - free_space_offset - live)

-- `live_entries.sort(key=offset, reverse=True)`, which keeps entries of one offset in order.
pub insert_entry : ℕ × ℕ × ℕ → List (ℕ × ℕ × ℕ) → List (ℕ × ℕ × ℕ)
insert_entry entry [] = entry ∷ []
insert_entry entry (x ∷ entries) =
    if leb x.1 entry.1 then entry ∷ x ∷ entries else x ∷ insert_entry entry entries

pub sort_entries : List (ℕ × ℕ × ℕ) → List (ℕ × ℕ × ℕ)
unfolding insert_entry
sort_entries [] = []
sort_entries (entry ∷ entries) = insert_entry entry (sort_entries entries)

-- The second loop of `compact`: the new page and the cursor.
pub repack : List (ℕ × ℕ × ℕ) → Bytes → ℕ → Bytes → Result (Bytes × ℕ)
repack [] snapshot cursor page = ok (page, cursor)
repack ((slot, offset, size) ∷ entries) snapshot cursor page = do
  let moved = splice (cursor - size) (slice offset size snapshot) page
  with_slot ← write_pair moved (slot_position slot) (cursor - size) size
  repack entries snapshot (cursor - size) with_slot

unfoldable pub compact : Bytes → Result Bytes
unfolding live_entries sort_entries repack
compact page = do
  count ← slot_count page
  entries ← live_entries page 0 count
  (packed, cursor) ← repack (sort_entries entries) page (length page) page
  write_pair packed 0 count cursor
