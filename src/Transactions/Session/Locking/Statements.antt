-- ===== src/Transactions/Session/Locking/Statements.antt =====
-- engine/transactions/session.py, `execute_statement` and `_run`: how a statement ends, whatever the
-- catalog does.
use soup_db.Common.{
  ℕ, ◌≡◌, refl, ap, ◌∙◌, sym, subst, ◌⊎◌, inl, inr, true, false, none, some, List, [], arith,
  Bool-cases, Exc, Result, ok, raise,
}
use soup_db.Common.Dict
use soup_db.Common.Dict.{Key, nat_key, get-put}
use soup_db.Common.Exec.{◌>>◌}
use soup_db.Transactions.Strict2pl.{held}
use soup_db.Transactions.Manager
use soup_db.Transactions.Manager.{
  TransactionState, active, committed, aborted, state_of, Transaction,
}
use soup_db.Transactions.Catalog.{Catalog}
use soup_db.Transactions.Session.Undo.{Entry, apply_undo}
use soup_db.Transactions.Session.Locking.{
  Resource, resource_key, Session, Act, begin, rollback, commit, journal_of,
}
use soup_db.Transactions.Session.Locking.Programs.{
  Call, run_calls, rollback_if, rollback_current, is_lock_error, run_result, run, auto_result,
  run_auto, execute_in, other, execute_statement,
}
use soup_db.Transactions.Session.Locking.Calls.{run_calls-Preserves}
use soup_db.Transactions.Session.Locking.Ending.{
  Running, Over, Running-IsKept, commit_ends, rollback_ends, Undone, Stuck,
}

module _ {S T P I : Type 0} ⦃t : Key T⦄ ⦃p : Key P⦄ (c : Catalog S T P I) where
  begin_then :
      (m : Act c (Unit {0})) (s : Session S T P) {tx : ℕ} {s' : Session S T P}
      → begin c s ≡ (ok tx, s')
      → (begin c >> m) s ≡ m s'
  begin_then m s h = rw h refl

  begin-Running :
      (s : Session S T P)
      → s.current ≡ none
      → (s' : Session S T P) × (begin c s ≡ (ok s.manager.next_id, s'))
        × Running c s.manager.next_id s'
  unfolding begin state_of
  begin-Running s idle =
      let tx = s.manager.next_id in
      let new : Transaction (Entry T P) = record { state = active; journal = [] } in
      let stored : Dict.get tx (Dict.put tx new s.manager.objects) ≡ some new =
        ground (arith, get-put tx tx new s.manager.objects) in
      (
        record s { manager = (Manager.begin s.manager).1; current = some tx },
        rw idle refl,
        record { running = refl; is_active = rw (stored, state_of) refl },
      )

  module _ (tx : ℕ) where
    -- The transaction is over and holds nothing.
    pub record Closed (final : TransactionState) (s : Session S T P) : Type 0 where
      pub idle : s.current ≡ none
      pub ended : state_of s.manager tx ≡ some final
      pub without_locks : (q : Resource T P) → held s.manager.locks tx q ≡ none

    -- The undo of the journal has raised, and the transaction is still open.
    pub record Open (e : Exc) (s : Session S T P) : Type 0 where
      pub still : Running c tx s
      pub before_undo : S
      pub undo_raised : apply_undo c (journal_of c tx s) before_undo ≡ (raise e, s.catalog)

    Over-Closed :
        (final : TransactionState) (s s' : Session S T P) → Over c tx final s s' → Closed final s'
    Over-Closed final s s' o = record {
      idle = o.idle;
      ended = ground (arith, o.states tx);
      without_locks = λ q. ground (arith, o.locks tx q);
    }

    -- How an attempt to roll back ends.
    abbrev RolledBack : Result (Unit {0}) × Session S T P → Type 0
    RolledBack (ok u, s) = Closed aborted s
    RolledBack (raise e, s) = Open e s

    Undone-RolledBack :
        (s : Session S T P)
        → Running c tx s
        → (o : Result (Unit {0}) × Session S T P) → Undone c tx s o ⊎ Stuck c tx s o
        → RolledBack o
    unfolding journal_of state_of
    Undone-RolledBack s r (ok u, s') (inl (undone, done, o)) = Over-Closed aborted s s' o
    Undone-RolledBack s r (ok u, s') (inr (e, raised, done, same)) = absurd (cc)
    Undone-RolledBack s r (raise e, s') (inl (undone, done, o)) = absurd (cc)
    Undone-RolledBack s r (raise e, s') (inr (e', raised, done, same)) =
        let first : e ≡ e' = ground (arith, done) in
        let journal : journal_of c tx s' ≡ journal_of c tx s = ap (journal_of c tx) same in
        let left : Session S T P = record s { catalog = s'.catalog } in
        record {
          still =
              subst (Running c tx) (sym same)
                (record { running = r.running; is_active = r.is_active });
          before_undo = s.catalog;
          undo_raised =
              ap (λ l. apply_undo c l s.catalog) journal
              ∙ raised
              ∙ ap (λ x. (raise x, s'.catalog)) (sym first);
        }

    rollback_current-eq : (s : Session S T P) → Running c tx s → rollback_current c s ≡ rollback c s
    unfolding rollback_current rollback_if
    rollback_current-eq s r = ap (λ o. rollback_if c o s) r.running

    rollback_current-RolledBack :
        (s : Session S T P) → Running c tx s → RolledBack (rollback_current c s)
    rollback_current-RolledBack s r =
        subst RolledBack (sym (rollback_current-eq s r))
          (Undone-RolledBack s r (rollback c s) (rollback_ends c tx s r))

    rollback_current_idle :
        (s : Session S T P) → s.current ≡ none → rollback_current c s ≡ (ok tt, s)
    unfolding rollback_current rollback_if
    rollback_current_idle s h = ap (λ o. rollback_if c o s) h

    -- How the calls of a statement inside a transaction end: an exception of a lock is a rollback and a
    -- TransactionError, any other one leaves the transaction open.
    abbrev pub Ran : Result (Unit {0}) → Result (Unit {0}) × Session S T P → Type 0
    Ran (ok u) (result, s) = (result ≡ ok tt) × Running c tx s
    Ran (raise e) (result, s) =
        (is_lock_error e ≡ false) × (result ≡ raise e) × Running c tx s
        ⊎ (is_lock_error e ≡ true) × (result ≡ raise Exc.transaction_error) × Closed aborted s
        ⊎ (is_lock_error e ≡ true) × ((x : Exc) × (result ≡ raise x) × Open x s)

    handled :
        (e : Exc) (s : Session S T P) (o : Result (Unit {0}) × Session S T P)
        → is_lock_error e ≡ true
        → rollback_current c s ≡ o
        → RolledBack o
        → Ran (raise e) (run_result c (raise e) s)
    unfolding run_result
    handled e s (ok u, s') h eq back = rw (h, eq) (inr (inl (refl, refl, back)))
    handled e s (raise x, s') h eq back = rw (h, eq) (inr (inr (refl, (x, refl, back))))

    run_result-Ran :
        (result : Result (Unit {0})) (s : Session S T P)
        → Running c tx s
        → Ran result (run_result c result s)
    unfolding run_result
    run_result-Ran (ok u) s r = (refl, r)
    run_result-Ran (raise e) s r = elim (Bool-cases (is_lock_error e)) [
      | inl h ↦ handled e s (rollback_current c s) h refl (rollback_current-RolledBack s r)
      | inr h ↦ rw h (inl (refl, refl, r))
    ]

    -- In an explicit transaction, whatever the catalog does: if the calls of a statement return, so does
    -- it, and if they raise anything but a lock's exception, so does it, and the transaction goes on. A
    -- refused lock or a deadlock becomes a TransactionError of a transaction that is aborted and without
    -- locks, unless the undo raises: then that exception comes out and the transaction is open.
    run-Ran :
        (s : Session S T P) (calls : List (Call T P I))
        → Running c tx s
        → Ran (run_calls c calls s).0 (run c calls s)
    unfolding run
    run-Ran s calls r =
        run_result-Ran (run_calls c calls s).0 (run_calls c calls s).1
          (run_calls-Preserves c (Running c tx) (Running-IsKept c tx) calls s r)

    -- How a statement on its own ends.
    abbrev pub Settled : Result (Unit {0}) × Session S T P → Type 0
    Settled (ok u, s) = Closed committed s
    Settled (raise e, s) = Closed aborted s ⊎ Open e s

    commit-Settled : (s : Session S T P) → Running c tx s → Settled (commit c s)
    commit-Settled s r =
        let (s', e, o) = commit_ends c tx s r in rw e (Over-Closed committed s s' o)

    again :
        (e : Exc) (s : Session S T P) (o : Result (Unit {0}) × Session S T P)
        → rollback_current c s ≡ o
        → RolledBack o
        → Settled (auto_result c (raise e) s)
    unfolding auto_result
    again e s (ok u, s') eq back = rw eq (inl back)
    again e s (raise x, s') eq back = rw eq (inr back)

    closed : (e : Exc) (s : Session S T P) → Closed aborted s → Settled (auto_result c (raise e) s)
    unfolding auto_result
    closed e s h = rw (rollback_current_idle s h.idle) (inl h)

    reopened : (e : Exc) (s : Session S T P) → Running c tx s → Settled (auto_result c (raise e) s)
    reopened e s r = again e s (rollback_current c s) refl (rollback_current-RolledBack s r)

    auto_result-Settled :
        (ran result : Result (Unit {0})) (s : Session S T P)
        → Ran ran (result, s)
        → Settled (auto_result c result s)
    unfolding auto_result
    auto_result-Settled (ok u) (ok v) s (e, r) = commit-Settled s r
    auto_result-Settled (ok u) (raise e) s (h, r) = absurd (cc)
    auto_result-Settled (raise e) (ok u) s (inl (h, k, r)) = absurd (cc)
    auto_result-Settled (raise e) (ok u) s (inr (inl (h, k, r))) = absurd (cc)
    auto_result-Settled (raise e) (ok u) s (inr (inr (h, (x, k, r)))) = absurd (cc)
    auto_result-Settled (raise e) (raise e') s (inl (h, k, r)) = reopened e' s r
    auto_result-Settled (raise e) (raise e') s (inr (inl (h, k, r))) = closed e' s r
    auto_result-Settled (raise e) (raise e') s (inr (inr (h, (x, k, r)))) = reopened e' s r.still

  -- A statement on its own, whatever the catalog does and wherever the calls stop: when it returns, its
  -- transaction is committed and has no locks, and when it raises, the transaction is aborted and has no
  -- locks, or the exception is that of an undo of its whole journal, and it is open still, with the
  -- journal. In the first two cases the thread has no transaction any more.
  pub execute_statement-Settled :
      (s : Session S T P) (calls : List (Call T P I))
      → s.current ≡ none
      → Settled s.manager.next_id (execute_statement c (other calls) s)
  unfolding execute_statement run_auto
  execute_statement-Settled s calls idle =
      let (s', e, r) = begin-Running s idle in
      let tx = s.manager.next_id in
      let runs : execute_statement c (other calls) s ≡ run_auto c calls s' =
        ap (λ o. execute_in c o calls s) idle ∙ begin_then (run_auto c calls) s e in
      subst (Settled tx) (sym runs) (
        auto_result-Settled tx (run_calls c calls s').0 (run c calls s').0 (run c calls s').1
          (run-Ran tx s' calls r))
