-- ===== src/Transactions/Session/Undo.antt =====
-- engine/transactions/session.py, `_apply_undo` with `_index_row` and `_unindex_row`, and
-- engine/query/index_maintenance.py, `maintain_ranked`.
use mathlib.Core.List.{reverse}
use soup_db.Common.{
  ℕ, ◌+◌, Bool, true, false, ◌&&◌, ◌||◌, Option, none, some, List, [], ◌∷◌, Exc, if◌then◌else◌,
  get_elem?,
}
use soup_db.Common.Bytes.{Bytes}
use soup_db.Common.Dict.{Key}
use soup_db.Common.Exec.{Exec, pure, throw, lift, ◌>>=◌, ◌>>◌}
use soup_db.Record.{decode_row}
use soup_db.Values.{Value, ColumnDef}
use soup_db.Transactions.Catalog.{Catalog, Ranked, at, position_of}

-- `_UndoInsert` and `_UndoRemove`
pub data Entry (T P : Type 0) : Type 0 where
  undo_insert : T → P → Entry T P
  undo_remove : T → P → Bytes → Entry T P

unfoldable pub is_null : Value → Bool
is_null Value.null = true
is_null value = false

module _ {T P : Type 0} ⦃t : Key T⦄ ⦃p : Key P⦄ where
  -- `(table, rid) in inserted`, of the journal's inserts.
  unfoldable pub inserted : List (Entry T P) → T → P → Bool
  inserted [] table rid = false
  inserted (undo_insert table' rid' ∷ journal) table rid =
      at table' rid' table rid || inserted journal table rid
  inserted (undo_remove table' rid' payload ∷ journal) table rid = inserted journal table rid

module _ {S T P I : Type 0} ⦃t : Key T⦄ ⦃p : Key P⦄ (c : Catalog S T P I) where
  -- `maintain_ranked`, for one binding whose column stands at the position.
  unfoldable pub maintain_at : Bool → I → P → Option Value → Exec S (Unit {0})
  maintain_at insert index rid none = throw Exc.index_error
  maintain_at true index rid (some value) =
      if is_null value then pure tt else c.insert_document index rid value
  maintain_at false index rid (some value) =
      if is_null value then pure tt else c.remove_document index rid value

  unfoldable pub maintain_binding : Bool → I → P → List Value → Option ℕ → Exec S (Unit {0})
  unfolding maintain_at
  maintain_binding insert index rid row none = throw Exc.query_execution_error
  maintain_binding insert index rid row (some position) =
      maintain_at insert index rid (get_elem? row position)

  unfoldable pub maintain_ranked :
      List (Ranked I) → List ColumnDef → List Value → P → Bool → Exec S (Unit {0})
  unfolding maintain_binding
  maintain_ranked [] columns row rid insert = pure tt
  maintain_ranked (binding ∷ targets) columns row rid insert = do
    maintain_binding insert binding.index rid row (position_of binding.column columns)
    maintain_ranked targets columns row rid insert

  -- `_skip_index_key`
  unfoldable pub skip_index_key : I → Value → Bool
  skip_index_key index value = is_null value && c.is_spatial index

  -- The inner loop of `_index_row` and `_unindex_row`, with `row[position]`.
  unfoldable pub each_index :
      (I → Value → P → Exec S (Unit {0})) → List I → Option Value → P → Exec S (Unit {0})
  unfolding skip_index_key
  each_index op [] value rid = pure tt
  each_index op (index ∷ indexes) none rid = throw Exc.index_error
  each_index op (index ∷ indexes) (some value) rid = do
    if skip_index_key index value then pure tt else op index value rid
    each_index op indexes (some value) rid

  -- The loop over the columns from a position on.
  unfoldable pub each_column :
      (I → Value → P → Exec S (Unit {0}))
      → T
      → ℕ
      → List ColumnDef
      → List Value
      → P
      → Exec S (Unit {0})
  unfolding each_index
  each_column op table position [] row rid = pure tt
  each_column op table position (column ∷ columns) row rid = do
    indexes ← c.indexes_for table column.name
    each_index op indexes (get_elem? row position) rid
    each_column op table (position + 1) columns row rid

  -- `_row_values`
  unfoldable pub row_values : T → Bytes → Exec S (List Value)
  row_values table payload = do columns ← c.schema table; lift (decode_row payload columns)

  unfoldable pub index_row : T → Bytes → P → Exec S (Unit {0})
  unfolding row_values each_column maintain_ranked
  index_row table payload rid = do
    row ← row_values table payload
    columns ← c.schema table
    each_column c.index_insert table 0 columns row rid
    targets ← c.ranked table
    columns' ← c.schema table
    maintain_ranked targets columns' row rid true

  unfoldable pub unindex_row : T → Bytes → P → Exec S (Unit {0})
  unfolding row_values each_column maintain_ranked
  unindex_row table payload rid = do
    row ← row_values table payload
    columns ← c.schema table
    each_column c.index_remove table 0 columns row rid
    targets ← c.ranked table
    columns' ← c.schema table
    maintain_ranked targets columns' row rid false

  unfoldable pub unindex_found : T → P → Option Bytes → Exec S (Unit {0})
  unfolding unindex_row
  unindex_found table rid none = pure tt
  unindex_found table rid (some payload) = unindex_row table payload rid

  -- A row that the transaction itself inserted is not put back.
  unfoldable pub restore : Bool → T → Bytes → Exec S (Unit {0})
  unfolding index_row
  restore true table payload = pure tt
  restore false table payload = do rid ← c.insert table payload; index_row table payload rid

  -- One round of the loop of `_apply_undo`, with the set of the journal's inserts.
  unfoldable pub undo_entry : (T → P → Bool) → Entry T P → Exec S (Unit {0})
  unfolding unindex_found restore
  undo_entry in_inserted (undo_insert table rid) = do
    found ← c.fetch table rid
    unindex_found table rid found
    c.remove table rid
    pure tt
  undo_entry in_inserted (undo_remove table rid payload) = do
    columns ← c.schema table
    row ← lift (decode_row payload columns)
    targets ← c.ranked table
    maintain_ranked targets columns row rid false
    restore (in_inserted table rid) table payload

  unfoldable pub undo_all : (T → P → Bool) → List (Entry T P) → Exec S (Unit {0})
  unfolding undo_entry
  undo_all in_inserted [] = pure tt
  undo_all in_inserted (entry ∷ journal) = do
    undo_entry in_inserted entry
    undo_all in_inserted journal

  -- `_apply_undo`
  unfoldable pub apply_undo : List (Entry T P) → Exec S (Unit {0})
  unfolding inserted undo_all
  apply_undo journal = undo_all (inserted journal) (reverse journal)
