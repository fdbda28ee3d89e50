-- ===== src/Transactions/Strict2pl/Acquire.antt =====
-- engine/transactions/strategies/strict_2pl.py, `acquire`: the polling loop, with the steps that
-- other threads take between its mutex blocks written out. A thread cannot be interrupted inside a
-- mutex block; the deadlock search runs outside of one, and reads the table of one moment here.
pub mod Safety
pub mod Effect
use soup_db.Common.{
  ℕ, ◌≤◌, ◌≡◌, refl, ◌∙◌, ◌≢◌, ◌⊎◌, inl, inr, Bool, true, false, ◌||◌, Option, none, some, List, [],
  ◌∷◌, ite, ℕ_discrete, arith, Option-cases, Bool-cases, if◌then◌else◌, Result, ok, raise, Exc,
}
use soup_db.Common.Dict
use soup_db.Common.Dict.{Dict, Key, nat_key}
use soup_db.Transactions.LockMode.{LockMode, lock_priority, lock_priority-stronger}
use soup_db.Transactions.Strict2pl.{
  LockState, granted, attempt, grant, try_grant, give_up, release, release_all, close, held,
}
use soup_db.Transactions.Strict2pl.Grants.{held-grant, held-release, held-release_all}
use soup_db.Transactions.Strict2pl.Compat.{
  IsCompatible, attempt-IsCompatible, give_up-IsCompatible, release-IsCompatible,
  release_all-IsCompatible,
}
use soup_db.Transactions.Strict2pl.Deadlock.{deadlock_detected, deadlock_detected_total}

-- A mutex block that some thread runs.
pub data Action (R : Type 0) : Type 0 where
  attempting : ℕ → R → LockMode → Action R
  giving_up : ℕ → Action R
  releasing : ℕ → R → Action R
  releasing_all : ℕ → Action R
  closing : Action R

-- One round of the loop: what other threads do before the attempt, before the deadlock search and
-- before an exception's mutex block, and whether the deadline has passed.
pub record Round (R : Type 0) : Type 0 where
  pub before_attempt : List (Action R)
  pub before_search : List (Action R)
  pub before_raise : List (Action R)
  pub expired : Bool

module _ {R : Type 0} ⦃e : Key R⦄ where
  abbrev pub act : Action R → LockState R → LockState R
  act (attempting t r m) s = (attempt s t r m).0
  act (giving_up t) s = give_up s t
  act (releasing t r) s = release s t r
  act (releasing_all t) s = release_all s t
  act closing s = close s

  abbrev pub run : List (Action R) → LockState R → LockState R
  run [] s = s
  run (a ∷ rest) s = run rest (act a s)

  unfoldable pub after_search :
      Round R → ℕ → LockState R → Option Bool → LockState R × Option (Result (Unit {0}))
  after_search round tx s (some true) =
      (give_up (run round.before_raise s) tx, some (raise Exc.deadlock_detected))
  after_search round tx s found =
      if round.expired
      then (give_up (run round.before_raise s) tx, some (raise Exc.lock_not_granted))
      else (s, none)

  unfoldable pub after_attempt :
      Round R → ℕ → LockState R × Bool → LockState R × Option (Result (Unit {0}))
  unfolding after_search
  after_attempt round tx (s, true) = (s, some (ok tt))
  after_attempt round tx (s, false) =
      let s' = run round.before_search s in after_search round tx s' (deadlock_detected s' tx)

  -- One round: the outcome is `none` when the thread goes to sleep and polls again.
  unfoldable pub poll :
      Round R → LockState R → ℕ → R → LockMode → LockState R × Option (Result (Unit {0}))
  unfolding after_attempt
  poll round s tx resource mode =
      after_attempt round tx (attempt (run round.before_attempt s) tx resource mode)

  unfoldable pub next_round :
      LockState R × Option (Result (Unit {0}))
      → (LockState R → Option (LockState R × Result (Unit {0})))
      → Option (LockState R × Result (Unit {0}))
  next_round (s, some result) rest = some (s, result)
  next_round (s, none) rest = rest s

  -- `none`: still waiting after the given rounds.
  unfoldable pub acquire :
      List (Round R) → LockState R → ℕ → R → LockMode → Option (LockState R × Result (Unit {0}))
  unfolding next_round
  acquire [] s tx resource mode = none
  acquire (round ∷ rest) s tx resource mode =
      next_round (poll round s tx resource mode) (λ s'. acquire rest s' tx resource mode)

  -- The state in which the lock is tested, and the one in which it has been refused.
  abbrev pub tested : Round R → LockState R → LockState R
  tested round s = run round.before_attempt s

  abbrev pub refused : Round R → LockState R → ℕ → R → LockMode → LockState R
  refused round s tx r m = run round.before_search (attempt (tested round s) tx r m).0

  -- A round ends in one of three ways, each with the state that it leaves.
  pub data Outcome (round : Round R) (s : LockState R) (tx : ℕ) (r : R) (m : LockMode)
      : LockState R × Option (Result (Unit {0})) → Type 0 where
    won :
        {o : LockState R × Option (Result (Unit {0}))}
        → try_grant (tested round s) tx r m ≡ true
        → o ≡ (grant (tested round s) tx r m, some (ok tt))
        → Outcome round s tx r m o
    lost :
        {o : LockState R × Option (Result (Unit {0}))} (x : Exc)
        → try_grant (tested round s) tx r m ≡ false
        → o ≡ (give_up (run round.before_raise (refused round s tx r m)) tx, some (raise x))
        → Outcome round s tx r m o
    asleep :
        {o : LockState R × Option (Result (Unit {0}))}
        → round.expired ≡ false
        → try_grant (tested round s) tx r m ≡ false
        → o ≡ (refused round s tx r m, none)
        → Outcome round s tx r m o

  searched :
      (round : Round R) (tx : ℕ) (s : LockState R) (found : Option Bool)
      → ((x : Exc) × (after_search round tx s found
            ≡ (give_up (run round.before_raise s) tx, some (raise x))))
        ⊎ (round.expired ≡ false) × (after_search round tx s found ≡ (s, none))
  unfolding after_search
  searched round tx s (some true) = inl (Exc.deadlock_detected, refl)
  searched round tx s found = elim (Bool-cases round.expired) [
    | inl h ↦ inl (Exc.lock_not_granted, ground arith)
    | inr h ↦ inr (h, ground arith)
  ]

  poll-refused :
      (round : Round R) (s : LockState R) (tx : ℕ) (r : R) (m : LockMode)
      → try_grant (tested round s) tx r m ≡ false
      → poll round s tx r m
        ≡ after_search round tx
            (refused round s tx r m)
            (deadlock_detected (refused round s tx r m) tx)
  unfolding poll attempt
  poll-refused round s tx r m h = rw h

  poll_won :
      (round : Round R) (s : LockState R) (tx : ℕ) (r : R) (m : LockMode)
      → try_grant (tested round s) tx r m ≡ true
      → poll round s tx r m ≡ (grant (tested round s) tx r m, some (ok tt))
  unfolding poll attempt
  poll_won round s tx r m h = rw h

  pub poll-Outcome :
      (round : Round R) (s : LockState R) (tx : ℕ) (r : R) (m : LockMode)
      → Outcome round s tx r m (poll round s tx r m)
  poll-Outcome round s tx r m = elim (Bool-cases (try_grant (tested round s) tx r m)) [
    | inl h ↦ won h (poll_won round s tx r m h)
    | inr h ↦
        let t = refused round s tx r m in
        elim (searched round tx t (deadlock_detected t tx)) [
          | inl (x, eq) ↦ lost x h (poll-refused round s tx r m h ∙ eq)
          | inr (late, eq) ↦ asleep late h (poll-refused round s tx r m h ∙ eq)
        ]
  ]
