-- ===== src/Transactions/Session/Locking/TwoPhase.antt =====
-- engine/transactions/session.py: a call that returns has the lock that it needs, until its transaction
-- ends.
use soup_db.Common.{
  ℕ, ◌≡◌, refl, sym, subst, Option, none, some, List, [], ◌∷◌, ◌++◌, true, All, arith, Result, ok,
  raise,
}
use soup_db.Common.Dict.{Key, nat_key}
use soup_db.Common.Exec.{pure, continue, ◌>>=◌, ◌>>◌}
use soup_db.Transactions.LockMode.{LockMode, shared, exclusive, lock_priority-stronger}
use soup_db.Transactions.Strict2pl.{LockState, granted, held}
use soup_db.Transactions.Strict2pl.Acquire.{acquire}
use soup_db.Transactions.Strict2pl.Acquire.Effect.{held_after, held-acquire}
use soup_db.Transactions.Catalog.{Catalog}
use soup_db.Transactions.Session.Locking.{
  Resource, table_of, record_of, resource_key, Waiting, Session, Act, ended, acquire_lock,
  next_call, lock, lock_as, locked_insert, locked_fetch, locked_remove, locked_scan, lock_shared,
}
use soup_db.Transactions.Session.Locking.Programs.{
  Call, insert, fetch, remove, scan, share, run_call, run_calls,
}
use soup_db.Transactions.Session.Locking.Calls.{
  IsKept, Preserves, in_catalog-Preserves, insert_rest-Preserves, remove_rest-Preserves,
  run_call-Preserves,
}
use soup_db.Transactions.Session.Locking.Ending.{current_id_lem}
use soup_db.Transactions.Session.Locking.Strictness.{
  AtLeast, AtLeast-refl, AtLeast-trans, Spared, ForeignRounds-append, next_call-Spared, Keeping,
  Keeping-IsKept, run_calls-keeps_locks,
}

granted-AtLeast :
    (mode : LockMode) (o : Option (LockMode × ℕ)) → AtLeast (some (mode, 1)) (some (granted mode o))
unfolding granted
granted-AtLeast mode none = (omega arith, omega arith)
granted-AtLeast mode (some (m, n)) = (omega (arith, (lock_priority-stronger m mode).1), omega arith)

-- The result is no exception.
abbrev pub Returns : {A : Type 0} → Result A → Type 0
Returns (ok a) = Unit
Returns (raise e) = ⊥

-- The lock that a call asks for.
abbrev pub needs : {T P I : Type 0} → Call T P I → Option (Resource T P × LockMode)
needs (insert table payload) = some (table_of table, exclusive)
needs (fetch table rid) = some (record_of rid, shared)
needs (remove table rid) = some (record_of rid, exclusive)
needs (scan table) = some (table_of table, shared)
needs (share table) = some (table_of table, shared)
needs call = none

module _ {T P : Type 0} ⦃t : Key T⦄ ⦃p : Key P⦄ (tx : ℕ) where
  ended-locks :
      (s : LockState (Resource T P)) (q : Resource T P) (m : LockMode)
      (o : Option (LockState (Resource T P) × Result (Unit {0})))
      → ((s' : LockState (Resource T P)) (result : Result (Unit {0}))
          → o ≡ some (s', result)
          → held s' tx q ≡ held_after result s tx q m q)
      → Returns (ended s o).0
      → AtLeast (some (m, 1)) (held (ended s o).1 tx q)
  unfolding ended
  ended-locks s q m none h r = absurd r
  ended-locks s q m (some (s', raise x)) h r = absurd r
  ended-locks s q m (some (s', ok u)) h r =
      let now : held s' tx q ≡ some (granted m (held s tx q)) = ground (arith, h s' (ok u) refl) in
      subst (AtLeast (some (m, 1))) (sym now) (granted-AtLeast m (held s tx q))

  acquire_lock-locks :
      (w : Waiting T P) (s : LockState (Resource T P)) (q : Resource T P) (m : LockMode)
      → Spared tx w
      → Returns (acquire_lock w s tx q m).0
      → AtLeast (some (m, 1)) (held (acquire_lock w s tx q m).1 tx q)
  unfolding acquire_lock
  acquire_lock-locks w s q m (f, g) =
      let rounds = w.rounds ++ record w.last { expired = true } ∷ [] in
      ended-locks s q m (acquire rounds s tx q m) (λ s' result h.
        held-acquire rounds s tx q m s' result q (ForeignRounds-append tx w.rounds w.last f g) h)

module _ {S T P I : Type 0} ⦃t : Key T⦄ ⦃p : Key P⦄ (c : Catalog S T P I) (tx : ℕ) where
  -- Where the step returns, the transaction has the lock.
  abbrev Locks : {A : Type 0} → Act c A → Resource T P → LockMode → Type 0
  Locks m q mode =
      (s : Session S T P)
      → s.current ≡ some tx
      → All (Spared tx) s.schedule
      → Returns (m s).0
      → AtLeast (some (mode, 1)) (held (m s).1.manager.locks tx q)

  lock-Locks : (q : Resource T P) (mode : LockMode) → Locks (lock c q mode) q mode
  unfolding lock lock_as
  lock-Locks q mode s running spared = rw (current_id_lem c tx s running) (
      acquire_lock-locks tx (next_call s.schedule).0 s.manager.locks q mode
        (next_call-Spared tx s.schedule spared).0)

  -- What comes behind the lock keeps it.
  then-Locks :
      {A : Type 0} (q : Resource T P) (mode : LockMode) (f : Unit {0} → Act c A)
      → ((base : LockState (Resource T P)) → Preserves c (Keeping c tx base) (f tt))
      → Locks (lock c q mode >>= f) q mode
  then-Locks {A} q mode f keeps s running spared =
      go (lock c q mode s) (lock-Locks q mode s running spared) (
        (Keeping-IsKept c tx s.manager.locks).lock_keeps q mode s
          (record { running = running; spared = spared; kept = λ r. AtLeast-refl _ }))
    where
      go :
          (o : Result (Unit {0}) × Session S T P)
          → (Returns o.0 → AtLeast (some (mode, 1)) (held o.1.manager.locks tx q))
          → Keeping c tx s.manager.locks o.1
          → Returns (continue o.0 f o.1).0
          → AtLeast (some (mode, 1)) (held (continue o.0 f o.1).1.manager.locks tx q)
      go (raise e, s1) locks k r = absurd r
      go (ok u, s1) locks k r =
          let start : Keeping c tx s1.manager.locks s1 = record {
            running = k.running;
            spared = k.spared;
            kept = λ r'. AtLeast-refl _;
          } in
          AtLeast-trans (some (mode, 1)) (held s1.manager.locks tx q) _ (locks tt)
            ((keeps s1.manager.locks s1 start).kept q)

  drop-Locks :
      {A : Type 0} (m : Act c A) (q : Resource T P) (mode : LockMode)
      → Locks m q mode
      → Locks (m >> pure tt) q mode
  drop-Locks {A} m q mode h s running spared = go (m s) (h s running spared)
    where
      go :
          (o : Result A × Session S T P)
          → (Returns o.0 → AtLeast (some (mode, 1)) (held o.1.manager.locks tx q))
          → Returns (continue {B = Unit {0}} o.0 (λ _. pure tt) o.1).0
          → AtLeast
              (some (mode, 1))
              (held (continue {B = Unit {0}} o.0 (λ _. pure tt) o.1).1.manager.locks tx q)
      go (raise e, s1) locks r = absurd r
      go (ok a, s1) locks r = locks tt

  abbrev Meets : Call T P I → Option (Resource T P × LockMode) → Type 0
  Meets call none = Unit
  Meets call (some (q, mode)) = Locks (run_call c call) q mode

  keeps : (base : LockState (Resource T P)) → IsKept c (Keeping c tx base)
  keeps base = Keeping-IsKept c tx base

  run_call-Meets : (call : Call T P I) → Meets call (needs call)
  unfolding run_call locked_insert locked_fetch locked_remove locked_scan lock_shared
  run_call-Meets (insert table payload) =
      drop-Locks (locked_insert c table payload) (table_of table) exclusive (
        then-Locks (table_of table) exclusive _
          (λ base. insert_rest-Preserves c (Keeping c tx base) (keeps base) table payload))
  run_call-Meets (fetch table rid) = drop-Locks (locked_fetch c table rid) (record_of rid) shared (
      then-Locks (record_of rid) shared _
        (λ base. in_catalog-Preserves c (Keeping c tx base) (keeps base) (c.fetch table rid)))
  run_call-Meets (remove table rid) =
      drop-Locks (locked_remove c table rid) (record_of rid) exclusive (
        then-Locks (record_of rid) exclusive _
          (λ base. remove_rest-Preserves c (Keeping c tx base) (keeps base) table rid))
  run_call-Meets (scan table) = drop-Locks (locked_scan c table) (table_of table) shared (
      then-Locks (table_of table) shared _
        (λ base. in_catalog-Preserves c (Keeping c tx base) (keeps base) (c.scan table)))
  run_call-Meets (share table) = lock-Locks (table_of table) shared
  run_call-Meets call = tt

  Meets-needs :
      (call : Call T P I) (o : Option (Resource T P × LockMode)) {q : Resource T P}
      {mode : LockMode}
      → o ≡ some (q, mode)
      → Meets call o
      → Locks (run_call c call) q mode
  Meets-needs call none e h = absurd (cc)
  Meets-needs call (some (r, m)) {q} {mode} e h =
      let same : ◌≡◌ {A = Resource T P × LockMode} (r, m) (q, mode) = cc in
      subst (λ (x : Resource T P × LockMode). Locks (run_call c call) x.0 x.1) same h

  -- A call of the executor that reads or writes rows, and returns, has a lock of the mode that it asks
  -- for, exclusive to write and shared to read, and whatever calls come after it in the transaction and
  -- however they end, the transaction has a lock at least as strong. The other threads, while a call
  -- waits for a lock, neither act for the transaction nor close the lock manager.
  pub locked_until_end :
      (s : Session S T P) (call : Call T P I) (calls : List (Call T P I)) {q : Resource T P}
      {mode : LockMode}
      → needs call ≡ some (q, mode)
      → s.current ≡ some tx
      → All (Spared tx) s.schedule
      → Returns (run_call c call s).0
      → AtLeast
          (some (mode, 1))
          (held (run_calls c calls (run_call c call s).1).1.manager.locks tx q)
  locked_until_end s call calls {q} {mode} needed running spared returns =
      let base = s.manager.locks in
      let after =
        run_call-Preserves c (Keeping c tx base) (keeps base) call s
          (record { running = running; spared = spared; kept = λ r. AtLeast-refl _ }) in
      AtLeast-trans (some (mode, 1)) (held (run_call c call s).1.manager.locks tx q) _
        (Meets-needs call (needs call) needed (run_call-Meets call) s running spared returns)
        (run_calls-keeps_locks c tx (run_call c call s).1 calls q after.running after.spared)
