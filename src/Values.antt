-- ===== src/Values.antt =====
-- The Python objects that a row may hold, and engine/common/schema.py: column types and columns.
use soup_db.Common.{ℕ, Option, Bool, Exc, Result, ok, raise}
use soup_db.Common.Bytes.{Bytes}
use soup_db.Common.Utf8.{Text}
use soup_db.Common.Int.{ℤ}
use soup_db.Common.Float

-- A coordinate of a pair: a double by its bits, an integer, or any other object.
pub data Coord : Type 0 where
  int : ℤ → Coord
  float : ℕ → Coord
  other : Coord

-- Objects by their class, `type(value)`: `pair` is a tuple of two, `other` any other object.
pub data Value : Type 0 where
  null : Value
  int : ℤ → Value
  float : ℕ → Value
  bool : Bool → Value
  text : Text → Value
  pair : Coord → Coord → Value
  bytes : Bytes → Value
  other : Value

pub data ColumnType : Type 0 where
  int float varchar text bool point : ColumnType

pub record ColumnDef : Type 0 where
  pub name : Text
  pub type_name : ColumnType
  pub length : Option ℕ

-- `float(coordinate)`
unfoldable pub as_float : Coord → Result ℕ
as_float (int n) = Float.of_int n
as_float (float w) = ok w
as_float other = raise Exc.type_error
