-- ===== src/Transactions/Session/Locking/Ending.antt =====
-- engine/transactions/session.py: a transaction that runs, and how `commit` and `rollback` end it.
use soup_db.Common.{
  ℕ, ◌≡◌, refl, ◌⊎◌, inl, inr, Option, none, some, ite, ℕ_discrete, arith, Exc, Result, ok, raise,
}
use soup_db.Common.Dict
use soup_db.Common.Dict.{Key, nat_key, get-put}
use soup_db.Transactions.Strict2pl.{held}
use soup_db.Transactions.Manager
use soup_db.Transactions.Manager.{
  TransactionState, active, aborted, committed, state_of, finish_active, Transaction,
}
use soup_db.Transactions.Manager.Lifecycle.{
  finish_active_lem, state_of-finish_active, held-finish_active,
}
use soup_db.Transactions.Catalog.{Catalog}
use soup_db.Transactions.Session.Undo.{Entry, apply_undo}
use soup_db.Transactions.Session.Locking.{
  Resource, resource_key, Session, in_manager, current_id, or_no_transaction, commit, rollback,
  journal_of, lock, lock_as, append_to, with_entry, journal_append,
}
use soup_db.Transactions.Session.Locking.Calls.{IsKept}

module _ {S T P I : Type 0} ⦃t : Key T⦄ ⦃p : Key P⦄ (c : Catalog S T P I) (tx : ℕ) where
  -- The thread runs the transaction, which is active.
  pub record Running (s : Session S T P) : Type 0 where
    pub running : s.current ≡ some tx
    pub is_active : state_of s.manager tx ≡ some active

  -- The thread has no transaction any more, the transaction is in its final state and has no locks;
  -- the states and the locks of the other transactions are as they were.
  pub record Over (final : TransactionState) (s s' : Session S T P) : Type 0 where
    pub idle : s'.current ≡ none
    pub states :
        (u : ℕ) → state_of s'.manager u ≡ ite (ℕ_discrete u tx) (some final) (state_of s.manager u)
    pub locks :
        (u : ℕ) (q : Resource T P)
        → held s'.manager.locks u q ≡ ite (ℕ_discrete u tx) none (held s.manager.locks u q)

  pub current_id_lem : (s : Session S T P) → s.current ≡ some tx → current_id c s ≡ (ok tx, s)
  unfolding current_id or_no_transaction
  current_id_lem s h = rw h refl

  abbrev over : TransactionState → S → Session S T P → Session S T P
  over final catalog s = record s {
    catalog = catalog;
    manager = finish_active tx final s.manager;
    current = none;
  }

  over-Over :
      (final : TransactionState) (catalog : S) (s : Session S T P)
      → Over final s (over final catalog s)
  over-Over final catalog s = record {
    idle = refl;
    states = λ u. state_of-finish_active s.manager tx u final;
    locks = λ u q. held-finish_active s.manager tx u q final;
  }

  pub commit_ends :
      (s : Session S T P)
      → Running s
      → (s' : Session S T P) × (commit c s ≡ (ok tt, s')) × Over committed s s'
  unfolding commit in_manager Manager.commit
  commit_ends s r = (
    over committed s.catalog s,
    rw (current_id_lem s r.running, finish_active_lem s.manager tx committed r.is_active) refl,
    over-Over committed s.catalog s,
  )

  -- The undo returns, and the transaction is over.
  abbrev pub Undone : Session S T P → Result (Unit {0}) × Session S T P → Type 0
  Undone s (result, s') =
      (apply_undo c (journal_of c tx s) s.catalog ≡ (ok tt, s'.catalog))
      × (result ≡ ok tt)
      × Over aborted s s'

  -- The undo raises, and so does the rollback: all but the catalog is as it was.
  abbrev pub Stuck : Session S T P → Result (Unit {0}) × Session S T P → Type 0
  Stuck s (result, s') =
      (e : Exc) × (apply_undo c (journal_of c tx s) s.catalog ≡ (raise e, s'.catalog))
      × (result ≡ raise e)
      × (s' ≡ record s { catalog = s'.catalog })

  -- Rolling back an active transaction, whatever the catalog does: either the undo of its journal
  -- returns, and the transaction is aborted, without locks, and no longer the thread's, while no other
  -- transaction's state or locks change; or the undo raises, and the rollback raises the same
  -- exception and leaves the transaction the thread's, active, with its locks and its journal.
  pub rollback_ends :
      (s : Session S T P) → Running s → Undone s (rollback c s) ⊎ Stuck s (rollback c s)
  unfolding rollback in_manager Manager.rollback
  rollback_ends s r = go (apply_undo c (journal_of c tx s) s.catalog) refl
    where
      go :
          (o : Result (Unit {0}) × S)
          → apply_undo c (journal_of c tx s) s.catalog ≡ o
          → Undone s (rollback c s) ⊎ Stuck s (rollback c s)
      go (ok u, catalog) e = inl (
          rw (current_id_lem s r.running, e, finish_active_lem s.manager tx aborted r.is_active)
            (refl, refl, over-Over aborted catalog s))
      go (raise x, catalog) e = rw (current_id_lem s r.running, e) (inr (x, refl, refl, refl))

  -- The calls of the executor leave the transaction running.
  append_active :
      (s : Session S T P) (entry : Entry T P)
      → state_of s.manager tx ≡ some active
      → state_of (append_to c tx entry s).1.manager tx ≡ some active
  unfolding append_to state_of with_entry
  append_active s entry h =
      let put =
        get-put tx tx (with_entry entry (Dict.get tx s.manager.objects)) s.manager.objects in
      go (Dict.get tx s.manager.objects) refl put
    where
      go :
          (o : Option (Transaction (Entry T P)))
          → Dict.get tx s.manager.objects ≡ o
          → Dict.get tx
              (Dict.put tx (with_entry entry (Dict.get tx s.manager.objects)) s.manager.objects)
            ≡ ite
                (ℕ_discrete tx tx)
                (some (with_entry entry (Dict.get tx s.manager.objects)))
                (Dict.get tx s.manager.objects)
          → state_of (append_to c tx entry s).1.manager tx ≡ some active
      go o e put = ground (arith, put, e, h)

  pub Running-IsKept : IsKept c Running
  unfolding lock lock_as journal_append append_to
  Running-IsKept = record {
    lock_keeps = λ q mode s r.
        rw (current_id_lem s r.running)
          (record { running = r.running; is_active = unfold state_of in r.is_active });
    catalog_keeps = λ s catalog r. record { running = r.running; is_active = r.is_active };
    append_keeps = λ entry s r.
        rw (current_id_lem s r.running)
          (record { running = r.running; is_active = append_active s entry r.is_active });
  }
