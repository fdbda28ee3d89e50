-- ===== src/Transactions/Session/Locking/Programs.antt =====
-- engine/transactions/session.py, `execute_statement` and `_run`. A statement that reaches the
-- executor is what it does to the catalog: any sequence of calls, until one of them raises.
use soup_db.Common.{
  ℕ, Bool, true, false, Option, none, some, List, [], ◌∷◌, Exc, Result, ok, raise, if◌then◌else◌,
}
use soup_db.Common.Bytes.{Bytes}
use soup_db.Common.Dict.{Key}
use soup_db.Common.Exec.{pure, throw, ◌>>◌}
use soup_db.Values.{Value}
use soup_db.Transactions.Catalog.{Catalog}
use soup_db.Transactions.Session.Locking.{
  Act, in_catalog, begin, commit, rollback, locked_insert, locked_fetch, locked_remove, locked_scan,
  lock_shared,
}

-- The calls of engine/query/executor.py and of the operators.
pub data Call (T P I : Type 0) : Type 0 where
  insert : T → Bytes → Call T P I
  fetch : T → P → Call T P I
  remove : T → P → Call T P I
  scan : T → Call T P I
  share : T → Call T P I
  index_insert : I → Value → P → Call T P I
  index_remove : I → Value → P → Call T P I
  insert_document : I → P → Value → Call T P I
  remove_document : I → P → Value → Call T P I
  fail : Exc → Call T P I

pub data Statement (T P I : Type 0) : Type 0 where
  begin_transaction end_transaction : Statement T P I
  other : List (Call T P I) → Statement T P I

-- `except (LockNotGranted, DeadlockDetected)`
unfoldable pub is_lock_error : Exc → Bool
is_lock_error Exc.lock_not_granted = true
is_lock_error Exc.deadlock_detected = true
is_lock_error e = false

module _ {S T P I : Type 0} ⦃t : Key T⦄ ⦃p : Key P⦄ (c : Catalog S T P I) where
  unfoldable pub run_call : Call T P I → Act c (Unit {0})
  unfolding locked_insert locked_fetch locked_remove locked_scan lock_shared in_catalog
  run_call (insert table payload) = locked_insert c table payload >> pure tt
  run_call (fetch table rid) = locked_fetch c table rid >> pure tt
  run_call (remove table rid) = locked_remove c table rid >> pure tt
  run_call (scan table) = locked_scan c table >> pure tt
  run_call (share table) = lock_shared c table
  run_call (index_insert i value rid) = in_catalog c (c.index_insert i value rid)
  run_call (index_remove i value rid) = in_catalog c (c.index_remove i value rid)
  run_call (insert_document i rid value) = in_catalog c (c.insert_document i rid value)
  run_call (remove_document i rid value) = in_catalog c (c.remove_document i rid value)
  run_call (fail e) = throw e

  unfoldable pub run_calls : List (Call T P I) → Act c (Unit {0})
  unfolding run_call
  run_calls [] = pure tt
  run_calls (call ∷ calls) = run_call call >> run_calls calls

  -- `if self.current_transaction() is not None: self.rollback()`
  unfoldable pub rollback_if : Option ℕ → Act c (Unit {0})
  unfolding rollback
  rollback_if none = pure tt
  rollback_if (some tx) = rollback c

  unfoldable pub rollback_current : Act c (Unit {0})
  unfolding rollback_if
  rollback_current s = rollback_if s.current s

  -- The handler of `_run`.
  unfoldable pub run_result : Result (Unit {0}) → Act c (Unit {0})
  unfolding is_lock_error rollback_current
  run_result (ok u) = pure tt
  run_result (raise e) =
      if is_lock_error e then rollback_current >> throw Exc.transaction_error else throw e

  -- `_run`
  unfoldable pub run : List (Call T P I) → Act c (Unit {0})
  unfolding run_calls run_result
  run calls s = let (result, s') = run_calls calls s in run_result result s'

  -- The handler of the auto-commit.
  unfoldable pub auto_result : Result (Unit {0}) → Act c (Unit {0})
  unfolding rollback_current commit
  auto_result (ok u) = commit c
  auto_result (raise e) = rollback_current >> throw e

  unfoldable pub run_auto : List (Call T P I) → Act c (Unit {0})
  unfolding run auto_result
  run_auto calls s = let (result, s') = run calls s in auto_result result s'

  unfoldable pub execute_in : Option ℕ → List (Call T P I) → Act c (Unit {0})
  unfolding begin run run_auto
  execute_in none calls = begin c >> run_auto calls
  execute_in (some tx) calls = run calls

  -- `execute_statement`; the result sets are left out.
  unfoldable pub execute_statement : Statement T P I → Act c (Unit {0})
  unfolding begin commit execute_in
  execute_statement begin_transaction s = (begin c >> pure tt) s
  execute_statement end_transaction s = commit c s
  execute_statement (other calls) s = execute_in s.current calls s
