-- ===== src/Transactions/Session/Locking.antt =====
-- engine/transactions/session.py: `TransactionalSession` on one thread, and the file organizations of
-- `_LockingCatalog`. What other threads do while a lock is being acquired is a schedule: the rounds
-- of each call of `acquire` in turn. They act on the lock table; their
-- writes to the catalog are not modelled.
pub mod Programs
pub mod Calls
pub mod Ending
pub mod Statements
pub mod Strictness
pub mod TwoPhase
mod Tests
use soup_db.Common.{
  ℕ, Bool, true, false, Option, none, some, List, [], ◌∷◌, ◌++◌, Exc, Result, ok, raise,
}
use soup_db.Common.Bytes.{Bytes}
use soup_db.Common.Dict
use soup_db.Common.Dict.{Dict, Key, nat_key}
use soup_db.Common.Exec.{Exec, pure, throw, gets, lift, modify, continue, ◌>>=◌, ◌>>◌}
use soup_db.Transactions.LockMode.{LockMode, shared, exclusive}
use soup_db.Transactions.Strict2pl.{LockState}
use soup_db.Transactions.Strict2pl.Acquire.{Round, acquire}
use soup_db.Transactions.Manager
use soup_db.Transactions.Manager.{Manager, Transaction}
use soup_db.Transactions.Catalog.{Catalog}
use soup_db.Transactions.Session.Undo.{Entry, undo_insert, undo_remove, apply_undo}

-- `("table", name)`, `("record", rid)` and `("catalog", "plugins")`
pub data Resource (T P : Type 0) : Type 0 where
  table_of : T → Resource T P
  record_of : P → Resource T P
  plugins : Resource T P

-- The rounds of one call, of which the last one ends after the deadline.
pub record Waiting (T P : Type 0) : Type 0 where
  pub rounds : List (Round (Resource T P))
  pub last : Round (Resource T P)

-- `self._local.tx` is the id of the thread's transaction.
pub record Session (S T P : Type 0) : Type 0 where
  pub catalog : S
  pub manager : Manager (Resource T P) (Entry T P)
  pub current : Option ℕ
  pub schedule : List (Waiting T P)

module _ {T P : Type 0} ⦃t : Key T⦄ ⦃p : Key P⦄ where
  Resource-discrete : Discrete (Resource T P)
  Resource-discrete = hlevel (t.dec, p.dec)

  instance abbrev pub resource_key : Key (Resource T P)
  unfolding Resource-discrete
  resource_key = record { dec = Resource-discrete }

  -- Nobody else does anything.
  abbrev pub quiet : Waiting T P
  quiet = record {
    rounds = [];
    last = record { before_attempt = []; before_search = []; before_raise = []; expired = true };
  }

  unfoldable pub ended :
      LockState (Resource T P)
      → Option (LockState (Resource T P) × Result (Unit {0}))
      → Result (Unit {0}) × LockState (Resource T P)
  ended s none = (raise Exc.runtime_error, s)
  ended s (some (s', result)) = (result, s')

  -- `lock_manager.acquire`
  unfoldable pub acquire_lock :
      Waiting T P
      → LockState (Resource T P)
      → ℕ
      → Resource T P
      → LockMode
      → Result (Unit {0}) × LockState (Resource T P)
  unfolding ended
  acquire_lock w s tx resource mode =
      ended s (acquire (w.rounds ++ record w.last { expired = true } ∷ []) s tx resource mode)

  unfoldable pub next_call : List (Waiting T P) → Waiting T P × List (Waiting T P)
  next_call [] = (quiet, [])
  next_call (w ∷ schedule) = (w, schedule)

  unfoldable pub journal_in : Option (Transaction (Entry T P)) → List (Entry T P)
  journal_in none = []
  journal_in (some tx) = tx.journal

  unfoldable pub with_entry : Entry T P → Option (Transaction (Entry T P)) → Transaction (Entry T P)
  with_entry entry none = record { state = Manager.active; journal = entry ∷ [] }
  with_entry entry (some tx) = record tx { journal = tx.journal ++ entry ∷ [] }

module _ {S T P I : Type 0} ⦃t : Key T⦄ ⦃p : Key P⦄ (c : Catalog S T P I) where
  abbrev pub Act : Type 0 → Type 0
  Act A = Exec (Session S T P) A

  unfoldable pub in_catalog : {A : Type 0} → Exec S A → Act A
  in_catalog m s = let (r, catalog) = m s.catalog in (r, record s { catalog = catalog })

  unfoldable pub in_manager : {A : Type 0} → Exec (Manager (Resource T P) (Entry T P)) A → Act A
  in_manager m s = let (r, manager) = m s.manager in (r, record s { manager = manager })

  -- `_current`
  unfoldable pub or_no_transaction : Option ℕ → Act ℕ
  or_no_transaction none s = (raise Exc.transaction_error, s)
  or_no_transaction (some tx) s = (ok tx, s)

  unfoldable pub current_id : Act ℕ
  unfolding or_no_transaction
  current_id s = or_no_transaction s.current s

  -- `begin`
  unfoldable pub begin_from : Option ℕ → Act ℕ
  unfolding in_manager Manager.begin
  begin_from (some tx) = throw Exc.transaction_error
  begin_from none = do
    tx ← in_manager Manager.begin
    modify (λ s. record s { current = some tx })
    pure tx

  unfoldable pub begin : Act ℕ
  unfolding begin_from
  begin s = begin_from s.current s

  unfoldable pub leave : Act (Unit {0})
  leave s = (ok tt, record s { current = none })

  unfoldable pub commit : Act (Unit {0})
  unfolding current_id in_manager leave Manager.commit
  commit = do tx ← current_id; in_manager (Manager.commit tx); leave

  unfoldable pub journal_of : ℕ → Session S T P → List (Entry T P)
  unfolding journal_in
  journal_of tx s = journal_in (Dict.get tx s.manager.objects)

  -- `rollback`, with `Transaction.rollback`: the undo first, and the end of the transaction after it.
  unfoldable pub rollback : Act (Unit {0})
  unfolding current_id in_catalog in_manager leave Manager.rollback journal_of
  rollback = do
    tx ← current_id
    journal ← gets (journal_of tx)
    in_catalog (apply_undo c journal)
    in_manager (Manager.rollback tx)
    leave

  unfoldable pub lock_as : ℕ → Resource T P → LockMode → Act (Unit {0})
  unfolding next_call acquire_lock
  lock_as tx resource mode s =
      let (w, schedule) = next_call s.schedule in
      let (r, locks) = acquire_lock w s.manager.locks tx resource mode in
      (r, record s { manager = record s.manager { locks = locks }; schedule = schedule })

  -- `_lock`
  unfoldable pub lock : Resource T P → LockMode → Act (Unit {0})
  unfolding current_id lock_as
  lock resource mode = do tx ← current_id; lock_as tx resource mode

  unfoldable pub append_to : ℕ → Entry T P → Act (Unit {0})
  unfolding with_entry
  append_to tx entry s = (
    ok tt,
    record s {
      manager = record s.manager {
        objects = Dict.put tx (with_entry entry (Dict.get tx s.manager.objects)) s.manager.objects;
      };
    },
  )

  -- `_journal_append`
  unfoldable pub journal_append : Entry T P → Act (Unit {0})
  unfolding current_id append_to
  journal_append entry = do tx ← current_id; append_to tx entry

  -- `_LockingFileOrganization.insert`
  unfoldable pub locked_insert : T → Bytes → Act P
  unfolding lock in_catalog journal_append
  locked_insert table payload = do
    lock (table_of table) exclusive
    rid ← in_catalog (c.insert table payload)
    journal_append (undo_insert table rid)
    pure rid

  unfoldable pub locked_fetch : T → P → Act (Option Bytes)
  unfolding lock in_catalog
  locked_fetch table rid = do lock (record_of rid) shared; in_catalog (c.fetch table rid)

  -- The rest of `remove`, once the record has been fetched.
  unfoldable pub remove_found : T → P → Option Bytes → Act Bool
  unfolding in_catalog journal_append
  remove_found table rid none = pure false
  remove_found table rid (some payload) = do
    in_catalog (c.remove table rid)
    journal_append (undo_remove table rid payload)
    pure true

  unfoldable pub locked_remove : T → P → Act Bool
  unfolding lock in_catalog remove_found
  locked_remove table rid = do
    lock (record_of rid) exclusive
    found ← in_catalog (c.fetch table rid)
    remove_found table rid found

  unfoldable pub locked_scan : T → Act (List (P × Bytes))
  unfolding lock in_catalog
  locked_scan table = do lock (table_of table) shared; in_catalog (c.scan table)

  unfoldable pub lock_shared : T → Act (Unit {0})
  unfolding lock
  lock_shared table = lock (table_of table) shared
