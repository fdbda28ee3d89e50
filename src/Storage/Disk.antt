-- ===== src/Storage/Disk.antt =====
-- engine/storage/disk_manager.py. The state holds the file's bytes; page ids are natural numbers, so
-- the test `page_id < 0` has nothing to refuse here.
pub mod Pages
use soup_db.Common.{
  ℕ, ◌+◌, ◌*◌, ◌/◌, ◌%◌, Bool, true, false, [], ◌++◌, Exc, Result, ok, raise, length, replicate,
  ltb, ◌==◌, if◌then◌else◌,
}
use soup_db.Common.Bytes.{Bytes, slice, splice}
use soup_db.Common.Exec.{Exec}

pub record Disk : Type 0 where
  pub page_size : ℕ
  pub file : Bytes
  pub next_page_id : ℕ
  pub reads : ℕ
  pub writes : ℕ

-- `__init__`, over the bytes that the file holds.
unfoldable pub open_disk : Bytes → ℕ → Result Disk
open_disk file page_size =
    if page_size == 0
    then raise Exc.value_error
    else if length file % page_size == 0
    then ok (record {
      page_size = page_size;
      file = file;
      next_page_id = length file / page_size;
      reads = 0;
      writes = 0;
    })
    else raise Exc.value_error

unfoldable pub allocate_page : Exec Disk ℕ
allocate_page d = (
  ok d.next_page_id,
  record d {
    file = d.file ++ replicate d.page_size 0;
    writes = d.writes + 1;
    next_page_id = d.next_page_id + 1;
  },
)

-- The bytes at which a page begins to be read or written.
abbrev pub page : Disk → ℕ → Bytes
page d page_id = slice (page_id * d.page_size) d.page_size d.file

unfoldable pub write_page : ℕ → Bytes → Exec Disk (Unit {0})
write_page page_id bytes d =
    if ltb page_id d.next_page_id
    then (if length bytes == d.page_size
        then (
          ok tt,
          record d { file = splice (page_id * d.page_size) bytes d.file; writes = d.writes + 1 },
        )
        else (raise Exc.value_error, d))
    else (raise Exc.value_error, d)

unfoldable pub read_page : ℕ → Exec Disk Bytes
read_page page_id d =
    if ltb page_id d.next_page_id
    then (if length (page d page_id) == d.page_size
        then (ok (page d page_id), record d { reads = d.reads + 1 })
        else (raise Exc.value_error, d))
    else (raise Exc.value_error, d)
