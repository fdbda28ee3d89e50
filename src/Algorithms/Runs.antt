-- ===== src/Algorithms/Runs.antt =====
-- engine/algorithms/external_sort.py: the files of sorted runs, with one length before each record.
-- A file is its bytes, and a file that is being read is the bytes that are left. The generators
-- give their records in a list, and nothing when they raise.
pub mod RoundTrip
use soup_db.Common.{
  ℕ, zero, suc, Bool, true, false, Option, none, some, List, [], ◌∷◌, ◌++◌, Exc, Result, ok, raise,
  ◌>>=◌, ◌>>◌, require, leb, ◌==◌, if◌then◌else◌, length, take, drop,
}
use soup_db.Common.Bytes.{Bytes}
use soup_db.Common.Struct.{pack_unsigned_le, unpack_le}
use soup_db.Common.Int.{ℤ, pos, negsuc}

abbrev pub length_size : ℕ
length_size = 4

-- `_write_record`: the bytes that are appended to the file.
unfoldable pub write_record : Bytes → Result Bytes
write_record payload = do
  require (leb (length payload) 0xFFFFFFFF) Exc.value_error
  size ← pack_unsigned_le length_size (length payload)
  ok (size ++ payload)

unfoldable pub write_records : List Bytes → Result Bytes
write_records [] = ok []
write_records (payload ∷ payloads) = do
  first ← write_record payload
  rest ← write_records payloads
  ok (first ++ rest)

-- What follows a length.
unfoldable pub read_payload : ℕ → Bytes → Result (Option (Bytes × Bytes))
read_payload size file = do
  require (length (take size file) == size) Exc.value_error
  ok (some (take size file, drop size file))

-- `_read_record`: a record and what is left of the file, or `none` at its end.
unfoldable pub read_record : Bytes → Result (Option (Bytes × Bytes))
unfolding read_payload
read_record [] = ok none
read_record (b ∷ file) = do
  let length_data = take length_size (b ∷ file)
  require (length length_data == length_size) Exc.value_error
  read_payload (unpack_le length_data) (drop length_size (b ∷ file))

-- One round of the loop of `_read_run`.
unfoldable pub then_read :
    Option (Bytes × Bytes) → (Bytes → Result (List Bytes)) → Result (List Bytes)
then_read none rest = ok []
then_read (some (payload, file)) rest = do payloads ← rest file; ok (payload ∷ payloads)

-- The loop of `_read_run`, in at most the given number of rounds.
unfoldable pub read_rounds : ℕ → Bytes → Result (List Bytes)
unfolding read_record then_read
read_rounds zero file = raise Exc.runtime_error
read_rounds (suc fuel) file = do found ← read_record file; then_read found (read_rounds fuel)

-- `_read_run`, and `read_sorted_run`: every record takes four bytes at least.
unfoldable pub read_run : Bytes → Result (List Bytes)
unfolding read_rounds
read_run file = read_rounds (suc (length file)) file

-- `comparator(a, b) > 0`
unfoldable pub is_positive : ℤ → Bool
is_positive (pos zero) = false
is_positive (pos (suc n)) = true
is_positive (negsuc n) = false

unfoldable pub is_negative : ℤ → Bool
is_negative (pos n) = false
is_negative (negsuc n) = true

-- What is at the path after the loop: a failed write removes the new file.
unfoldable pub written : Result Bytes → Result (Unit {0}) × Option Bytes
written (ok file) = (ok tt, some file)
written (raise x) = (raise x, none)

module _ (comparator : Bytes → Bytes → ℤ) where
  unfoldable pub in_order : Option Bytes → Bytes → Result (Unit {0})
  unfolding is_positive
  in_order none payload = ok tt
  in_order (some previous) payload =
      if is_positive (comparator previous payload) then raise Exc.value_error else ok tt

  -- The loop of `write_sorted_run`.
  unfoldable pub write_checked : Option Bytes → List Bytes → Result Bytes
  unfolding in_order
  write_checked previous [] = ok []
  write_checked previous (payload ∷ payloads) = do
    in_order previous payload
    first ← write_record payload
    rest ← write_checked (some payload) payloads
    ok (first ++ rest)

  -- `write_sorted_run`, from what is at the path and to what is there afterwards. The mode "xb"
  -- refuses a path that exists.
  unfoldable pub write_sorted_run : Option Bytes → List Bytes → Result (Unit {0}) × Option Bytes
  unfolding written write_checked
  write_sorted_run (some file) payloads = (raise Exc.file_exists_error, some file)
  write_sorted_run none payloads = written (write_checked none payloads)
