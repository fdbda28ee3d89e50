-- ===== src/Transactions/Session/Locking/Strictness.antt =====
-- engine/transactions/session.py: two-phase locking as the executor's calls see it. A lock is there when
-- the call that needs it returns, and it stays until the transaction ends.
use soup_db.Common.{
  ℕ, ◌≤◌, ◌≡◌, refl, sym, subst, true, Option, none, some, List, [], ◌∷◌, ◌++◌, All, arith, ite,
  Result, ok, raise,
}
use soup_db.Common.Dict.{Key, nat_key}
use soup_db.Transactions.LockMode.{LockMode, lock_priority, lock_priority-stronger}
use soup_db.Transactions.Strict2pl.{LockState, granted, held}
use soup_db.Transactions.Strict2pl.Acquire.{Round, acquire}
use soup_db.Transactions.Strict2pl.Acquire.Effect.{
  ForeignRound, ForeignRounds, held_after, held-acquire,
}
use soup_db.Transactions.Catalog.{Catalog}
use soup_db.Transactions.Session.Locking.{
  Resource, resource_key, Waiting, Session, ended, acquire_lock, next_call, lock, lock_as,
  append_to, journal_append,
}
use soup_db.Transactions.Session.Locking.Programs.{Call, run_calls}
use soup_db.Transactions.Session.Locking.Calls.{IsKept, run_calls-Preserves}
use soup_db.Transactions.Session.Locking.Ending.{current_id_lem}

-- The second lock is at least as strong as the first, and granted at least as often.
abbrev pub AtLeast : Option (LockMode × ℕ) → Option (LockMode × ℕ) → Type 0
AtLeast none o = Unit
AtLeast (some (m, n)) none = ⊥
AtLeast (some (m, n)) (some (m', n')) = (lock_priority m ≤ lock_priority m') × (n ≤ n')

pub AtLeast-refl : (o : Option (LockMode × ℕ)) → AtLeast o o
AtLeast-refl none = tt
AtLeast-refl (some (m, n)) = (omega arith, omega arith)

pub AtLeast-trans : (a b d : Option (LockMode × ℕ)) → AtLeast a b → AtLeast b d → AtLeast a d
AtLeast-trans none b d h k = tt
AtLeast-trans (some a) none d h k = absurd h
AtLeast-trans (some a) (some b) none h k = absurd k
AtLeast-trans (some (m, n)) (some (m', n')) (some (l, i)) (h, g) (k, j) =
    (omega (arith, h, k), omega (arith, g, j))

AtLeast-granted : (mode : LockMode) (o : Option (LockMode × ℕ)) → AtLeast o (some (granted mode o))
unfolding granted
AtLeast-granted mode none = tt
AtLeast-granted mode (some (m, n)) = (omega (arith, (lock_priority-stronger m mode).0), omega arith)

module _ {T P : Type 0} ⦃t : Key T⦄ ⦃p : Key P⦄ (tx : ℕ) where
  -- While the call waits, no other thread acts for the transaction or closes the lock manager.
  abbrev pub Spared : Waiting T P → Type 0
  Spared w = ForeignRounds tx w.rounds × ForeignRound tx w.last

  pub ForeignRounds-append :
      (rounds : List (Round (Resource T P))) (last : Round (Resource T P))
      → ForeignRounds tx rounds
      → ForeignRound tx last
      → ForeignRounds tx (rounds ++ record last { expired = true } ∷ [])
  ForeignRounds-append [] last f g = (g, tt)
  ForeignRounds-append (round ∷ rounds) last f g = (f.0, ForeignRounds-append rounds last f.1 g)

  held_after-AtLeast :
      (result : Result (Unit {0})) (s : LockState (Resource T P)) (r : Resource T P) (m : LockMode)
      (q : Resource T P)
      → AtLeast (held s tx q) (held_after result s tx r m q)
  held_after-AtLeast (raise x) s r m q = AtLeast-refl (held s tx q)
  held_after-AtLeast (ok u) s r m q =
      elim (resource_key.dec q r)
        as (λ d. AtLeast (held s tx q) (ite d (some (granted m (held s tx r))) (held s tx q))) [
          | yes e ↦ rw e (AtLeast-granted m (held s tx r))
          | no n ↦ AtLeast-refl (held s tx q)
        ]

  ended-AtLeast :
      (s : LockState (Resource T P)) (r : Resource T P) (m : LockMode) (q : Resource T P)
      (o : Option (LockState (Resource T P) × Result (Unit {0})))
      → ((s' : LockState (Resource T P)) (result : Result (Unit {0}))
          → o ≡ some (s', result)
          → held s' tx q ≡ held_after result s tx r m q)
      → AtLeast (held s tx q) (held (ended s o).1 tx q)
  unfolding ended
  ended-AtLeast s r m q none h = AtLeast-refl (held s tx q)
  ended-AtLeast s r m q (some (s', result)) h =
      subst (AtLeast (held s tx q)) (sym (h s' result refl)) (held_after-AtLeast result s r m q)

  acquire_lock-AtLeast :
      (w : Waiting T P) (s : LockState (Resource T P)) (r : Resource T P) (m : LockMode)
      (q : Resource T P)
      → Spared w
      → AtLeast (held s tx q) (held (acquire_lock w s tx r m).1 tx q)
  unfolding acquire_lock
  acquire_lock-AtLeast w s r m q (f, g) =
      let rounds = w.rounds ++ record w.last { expired = true } ∷ [] in
      ended-AtLeast s r m q (acquire rounds s tx r m) (λ s' result h.
        held-acquire rounds s tx r m s' result q (ForeignRounds-append w.rounds w.last f g) h)

  pub next_call-Spared :
      (schedule : List (Waiting T P))
      → All Spared schedule
      → Spared (next_call schedule).0 × All Spared (next_call schedule).1
  unfolding next_call
  next_call-Spared [] h = ((tt, (tt, tt, tt)), tt)
  next_call-Spared (w ∷ schedule) h = h

module _ {S T P I : Type 0} ⦃t : Key T⦄ ⦃p : Key P⦄ (c : Catalog S T P I) (tx : ℕ)
    (base : LockState (Resource T P)) where
  -- The transaction runs undisturbed and has at least the locks from before.
  pub record Keeping (s : Session S T P) : Type 0 where
    pub running : s.current ≡ some tx
    pub spared : All (Spared tx) s.schedule
    pub kept : (q : Resource T P) → AtLeast (held base tx q) (held s.manager.locks tx q)

  lock_as-Keeping :
      (q : Resource T P) (mode : LockMode) (s : Session S T P)
      → Keeping s
      → Keeping (lock_as c tx q mode s).1
  unfolding lock_as
  lock_as-Keeping q mode s r =
      let (now, later) = next_call-Spared tx s.schedule r.spared in
      record {
        running = r.running;
        spared = later;
        kept = λ r'.
            AtLeast-trans (held base tx r') (held s.manager.locks tx r') _ (r.kept r')
              (acquire_lock-AtLeast tx (next_call s.schedule).0 s.manager.locks q mode r' now);
      }

  pub Keeping-IsKept : IsKept c Keeping
  unfolding lock journal_append append_to
  Keeping-IsKept = record {
    lock_keeps = λ q mode s r. rw (current_id_lem c tx s r.running) (lock_as-Keeping q mode s r);
    catalog_keeps = λ s catalog r. record { running = r.running; spared = r.spared; kept = r.kept };
    append_keeps = λ entry s r.
        rw (current_id_lem c tx s r.running)
          (record { running = r.running; spared = r.spared; kept = r.kept });
  }

module _ {S T P I : Type 0} ⦃t : Key T⦄ ⦃p : Key P⦄ (c : Catalog S T P I) where
  -- Whatever calls a statement makes, and whether they return or raise, its transaction loses no lock and
  -- none becomes weaker, if the other threads, while it waits for a lock, neither act for the transaction
  -- nor close the lock manager.
  pub run_calls-keeps_locks :
      (tx : ℕ) (s : Session S T P) (calls : List (Call T P I)) (q : Resource T P)
      → s.current ≡ some tx
      → All (Spared tx) s.schedule
      → AtLeast (held s.manager.locks tx q) (held (run_calls c calls s).1.manager.locks tx q)
  run_calls-keeps_locks tx s calls q running spared =
      let start : Keeping c tx s.manager.locks s = record {
        running = running;
        spared = spared;
        kept = λ r. AtLeast-refl (held s.manager.locks tx r);
      } in
      let end =
        run_calls-Preserves c (Keeping c tx s.manager.locks) (Keeping-IsKept c tx s.manager.locks)
          calls s start in
      end.kept q
