-- ===== src/Transactions/Session/Locking/Tests.antt =====
-- Sessions over a catalog in memory, with one column of truth values in each table and no index.
use soup_db.Common.{
  ℕ, zero, suc, ◌+◌, ◌≡◌, refl, All, Bool, true, false, Option, none, some, List, [], ◌∷◌, ◌++◌,
  length, ok, raise, Exc, require, ◌>>◌, ◌==◌, if◌then◌else◌, ℕ_discrete, ◌⊎◌,
}
use soup_db.Common.Bytes.{Bytes}
use soup_db.Common.Dict
use soup_db.Common.Dict.{nat_key}
use soup_db.Values.{ColumnType}
use soup_db.Record.{
  decode_as, is_flag, decode_flagged, take_bytes, decode_value, decode_columns, decode_row,
}
use soup_db.Transactions.LockMode.{exclusive, shared}
use soup_db.Transactions.Strict2pl.{held, attempt, grant, try_grant, try_in}
use soup_db.Transactions.Strict2pl.Acquire.{attempting, acquire, poll}
use soup_db.Transactions.Manager.{init, state_of}
use soup_db.Transactions.Catalog.{Catalog, at}
use soup_db.Transactions.Session.Undo.{undo_insert, undo_remove, apply_undo}
use soup_db.Transactions.Session.Locking.{table_of, resource_key, Waiting, Session, begin, rollback}
use soup_db.Transactions.Session.Locking.Programs.{
  Call, insert, remove, fail, run_call, run_calls, other, begin_transaction, end_transaction,
  execute_statement,
}
use soup_db.Transactions.Session.Locking.Calls.{run_calls-Preserves}
use soup_db.Transactions.Session.Locking.Ending.{
  Running-IsKept, Running, Undone, Stuck, rollback_ends,
}
use soup_db.Transactions.Session.Locking.Statements.{Settled, execute_statement-Settled}
use soup_db.Transactions.Session.Locking.Strictness.{AtLeast, Spared}
use soup_db.Transactions.Session.Locking.TwoPhase.{Returns, locked_until_end}

-- The record of an identifier stands at its position; a removed record leaves a gap.
abbrev Memory : Type 0
Memory = List (Option (ℕ × Bytes))

-- The record of the table at the position.
abbrev find : ℕ → ℕ → Memory → Option Bytes
find table rid [] = none
find table zero (none ∷ s) = none
find table zero (some (table', payload) ∷ s) = if table == table' then some payload else none
find table (suc rid) (o ∷ s) = find table rid s

abbrev drop_at : ℕ → ℕ → Memory → Memory
drop_at table rid [] = []
drop_at table zero (none ∷ s) = none ∷ s
drop_at table zero (some (table', payload) ∷ s) =
    (if table == table' then none else some (table', payload)) ∷ s
drop_at table (suc rid) (o ∷ s) = o ∷ drop_at table rid s

abbrev entries : ℕ → ℕ → Memory → List (ℕ × Bytes)
entries table k [] = []
entries table k (none ∷ s) = entries table (k + 1) s
entries table k (some (table', payload) ∷ s) =
    let rest = entries table (k + 1) s in if table == table' then (k, payload) ∷ rest else rest

-- `ready` tells whether the ranked providers are available.
abbrev memory : Bool → Catalog Memory ℕ ℕ ℕ
memory ready = record {
  schema = λ table s.
      (ok (record { name = 97 ∷ []; type_name = ColumnType.bool; length = none } ∷ []), s);
  insert = λ table payload s. (ok (length s), s ++ some (table, payload) ∷ []);
  fetch = λ table rid s. (ok (find table rid s), s);
  remove = λ table rid s. (ok true, drop_at table rid s);
  scan = λ table s. (ok (entries table 0 s), s);
  indexes_for = λ table column s. (ok [], s);
  is_spatial = λ i. false;
  index_insert = λ i value rid s. (ok tt, s);
  index_remove = λ i value rid s. (ok tt, s);
  ranked = λ table s. (require ready Exc.query_execution_error >> ok [], s);
  insert_document = λ i rid value s. (ok tt, s);
  remove_document = λ i rid value s. (ok tt, s);
}

-- Two tables of one record each.
abbrev stored : Memory
stored = some (1, 1 ∷ []) ∷ some (2, 2 ∷ []) ∷ []

-- While the first lock is waited for, transaction 9 asks for table 2.
abbrev others : Waiting ℕ ℕ
others = record {
  rounds = [];
  last = record {
    before_attempt = attempting 9 (table_of 2) shared ∷ [];
    before_search = [];
    before_raise = [];
    expired = true;
  };
}

abbrev idle : Session Memory ℕ ℕ
idle = record { catalog = stored; manager = init; current = none; schedule = others ∷ [] }

abbrev calls : List (Call ℕ ℕ ℕ)
calls =
    insert 1 (2 ∷ []) ∷ remove 1 0 ∷ remove 1 2 ∷ remove 2 1 ∷ fail Exc.query_execution_error ∷ []

-- The removed record comes back under a new identifier, the inserted one goes.
undone :
    apply_undo
      (memory true)
      (undo_remove 1 0 (1 ∷ []) ∷ undo_insert 1 2 ∷ [])
      (none ∷ some (2, 2 ∷ []) ∷ some (1, 2 ∷ []) ∷ [])
    ≡ (ok tt, none ∷ some (2, 2 ∷ []) ∷ none ∷ some (1, 1 ∷ []) ∷ [])
unfolding apply_undo decode_row decode_columns decode_value take_bytes decode_flagged is_flag
    decode_as at ℕ_discrete
undone = refl

-- Without the providers the undo stops at the first row that it has to maintain.
undo_stops :
    apply_undo
      (memory false)
      (undo_remove 1 0 (1 ∷ []) ∷ undo_insert 1 2 ∷ [])
      (none ∷ some (2, 2 ∷ []) ∷ some (1, 2 ∷ []) ∷ [])
    ≡ (raise Exc.query_execution_error, none ∷ some (2, 2 ∷ []) ∷ some (1, 2 ∷ []) ∷ [])
unfolding apply_undo decode_row decode_columns decode_value take_bytes decode_flagged is_flag
    decode_as
undo_stops = refl

nested :
    (execute_statement
      (memory true)
      begin_transaction
      (execute_statement (memory true) begin_transaction idle).1).0
    ≡ raise Exc.transaction_error
unfolding execute_statement
nested = refl

none_open : (execute_statement (memory true) end_transaction idle).0 ≡ raise Exc.transaction_error
unfolding execute_statement
none_open = refl

abbrev begun : Session Memory ℕ ℕ
begun = (begin (memory true) idle).1

begun-Running : Running (memory true) 1 begun
unfolding begin state_of Dict.get Dict.put ℕ_discrete
begun-Running = record { running = refl; is_active = refl }

abbrev called : Session Memory ℕ ℕ
called = (run_calls (memory true) calls begun).1

called-Running : Running (memory true) 1 called
called-Running =
    run_calls-Preserves (memory true) (Running (memory true) 1) (Running-IsKept (memory true) 1)
      calls begun begun-Running

rollback_ends_example :
    Undone (memory true) 1 called (rollback (memory true) called)
    ⊎ Stuck (memory true) 1 called (rollback (memory true) called)
rollback_ends_example = rollback_ends (memory true) 1 called called-Running

execute_statement-Settled_example :
    Settled (memory false) 1 (execute_statement (memory false) (other calls) idle)
execute_statement-Settled_example = execute_statement-Settled (memory false) idle calls refl

begun-Spared : All (Spared 1) begun.schedule
unfolding begin
begun-Spared = ((tt, (((λ e. cc), tt), tt, tt)), tt)

inserted : Returns (run_call (memory true) (insert 1 (2 ∷ [])) begun).0
unfolding run_call begin acquire poll attempt grant try_grant try_in Dict.get Dict.put Dict.remove
    ℕ_discrete resource_key
inserted = tt

locked_until_end_example : AtLeast (some (exclusive, 1)) (
    held
      (run_calls
        (memory true)
        (remove 1 0 ∷ fail Exc.key_error ∷ [])
        (run_call (memory true) (insert 1 (2 ∷ [])) begun).1).1.manager.locks
      1
      (table_of 1))
locked_until_end_example =
    locked_until_end (memory true) 1 begun (insert 1 (2 ∷ []))
      (remove 1 0 ∷ fail Exc.key_error ∷ []) refl begun-Running.running begun-Spared inserted
