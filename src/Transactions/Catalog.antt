-- ===== src/Transactions/Catalog.antt =====
-- engine/common/catalog.py and engine/storage/base.py, as engine/transactions/session.py uses them:
-- the operations of a catalog, each of which may change it and may raise. `S` is what they act on, `T`
-- the names of tables, `P` the identifiers of records, `I` indexes.
use soup_db.Common.{ℕ, suc, [], ◌∷◌, Bool, true, false, Option, none, some, List}
use soup_db.Common.Bytes.{Bytes}
use soup_db.Common.Dict.{Key}
use soup_db.Common.Exec.{Exec}
use soup_db.Common.Texts.{same_text}
use soup_db.Common.Utf8.{Text}
use soup_db.Values.{Value, ColumnDef}

-- A ranked binding: the column and the index.
pub record Ranked (I : Type 0) : Type 0 where
  pub column : Text
  pub index : I

pub record Catalog (S T P I : Type 0) : Type 0 where
  pub schema : T → Exec S (List ColumnDef)
  -- `file_org(table)`
  pub insert : T → Bytes → Exec S P
  pub fetch : T → P → Exec S (Option Bytes)
  pub remove : T → P → Exec S Bool
  pub scan : T → Exec S (List (P × Bytes))
  -- `_indexes_for_column` and `is_spatial_index`
  pub indexes_for : T → Text → Exec S (List I)
  pub is_spatial : I → Bool
  pub index_insert : I → Value → P → Exec S (Unit {0})
  pub index_remove : I → Value → P → Exec S (Unit {0})
  -- `ranked_targets`
  pub ranked : T → Exec S (List (Ranked I))
  pub insert_document : I → P → Value → Exec S (Unit {0})
  pub remove_document : I → P → Value → Exec S (Unit {0})

-- `{column.name: i for i, column in enumerate(schema)}[name]`: the last column of that name.
unfoldable pub later : Option ℕ → Bool → Option ℕ
later (some position) here = some (suc position)
later none true = some 0
later none false = none

unfoldable pub position_of : Text → List ColumnDef → Option ℕ
unfolding later
position_of name [] = none
position_of name (column ∷ columns) = later (position_of name columns) (same_text column.name name)

module _ {T P : Type 0} ⦃t : Key T⦄ ⦃p : Key P⦄ where
  -- `(table, rid) == (table', rid')`
  unfoldable pub at : T → P → T → P → Bool
  at table rid table' rid' = elim (t.dec table table') [
    | yes _ ↦ elim (p.dec rid rid') [ yes _ ↦ true | no _ ↦ false ]
    | no _ ↦ false
  ]
