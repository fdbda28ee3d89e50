-- ===== src/Transactions/Strict2pl/Acquire/Safety.antt =====
-- `acquire` under any interleaving: what it leaves when it returns and when it raises, and when it
-- cannot wait for ever.
use soup_db.Common.{ℕ, ◌≡◌, Option, none, some, List, [], ◌∷◌, arith, Result}
use soup_db.Common.Dict.{Key, nat_key}
use soup_db.Transactions.LockMode.{LockMode}
use soup_db.Transactions.Strict2pl.{LockState, attempt}
use soup_db.Transactions.Strict2pl.Compat.{
  IsCompatible, attempt-IsCompatible, give_up-IsCompatible, release-IsCompatible,
  release_all-IsCompatible, close-IsCompatible, grant-IsCompatible,
}
use soup_db.Transactions.Strict2pl.Acquire.{
  Action, attempting, giving_up, releasing, releasing_all, closing, Round, act, run, poll,
  next_round, acquire, tested, refused, Outcome, won, lost, asleep, poll-Outcome,
}

module _ {R : Type 0} ⦃e : Key R⦄ where
  act-IsCompatible : (a : Action R) (s : LockState R) → IsCompatible s → IsCompatible (act a s)
  act-IsCompatible (attempting t r m) s inv = attempt-IsCompatible s t r m inv
  act-IsCompatible (giving_up t) s inv = give_up-IsCompatible s t inv
  act-IsCompatible (releasing t r) s inv = release-IsCompatible s t r inv
  act-IsCompatible (releasing_all t) s inv = release_all-IsCompatible s t inv
  act-IsCompatible closing s inv = close-IsCompatible s

  -- Whatever the threads do, and in whatever order, no two of them hold incompatible locks.
  pub run-IsCompatible :
      (l : List (Action R)) (s : LockState R) → IsCompatible s → IsCompatible (run l s)
  run-IsCompatible [] s inv = inv
  run-IsCompatible (a ∷ rest) s inv = run-IsCompatible rest (act a s) (act-IsCompatible a s inv)

  refused-IsCompatible :
      (round : Round R) (s : LockState R) (tx : ℕ) (r : R) (m : LockMode)
      → IsCompatible s
      → IsCompatible (refused round s tx r m)
  refused-IsCompatible round s tx r m inv =
      run-IsCompatible round.before_search (attempt (tested round s) tx r m).0
        (attempt-IsCompatible (tested round s) tx r m (run-IsCompatible round.before_attempt s inv))

  poll-IsCompatible :
      (round : Round R) (s : LockState R) (tx : ℕ) (r : R) (m : LockMode)
      → IsCompatible s
      → IsCompatible (poll round s tx r m).0
  poll-IsCompatible round s tx r m inv = go (poll-Outcome round s tx r m)
    where
      go :
          {o : LockState R × Option (Result (Unit {0}))}
          → Outcome round s tx r m o
          → IsCompatible o.0
      go (won h q) = rw q (
          grant-IsCompatible (tested round s) tx r m (run-IsCompatible round.before_attempt s inv)
            h)
      go (lost x _ q) = rw q (
          give_up-IsCompatible (run round.before_raise (refused round s tx r m)) tx (
            run-IsCompatible round.before_raise (refused round s tx r m)
              (refused-IsCompatible round s tx r m inv)))
      go (asleep h _ q) = rw q (refused-IsCompatible round s tx r m inv)

  -- Whatever the other threads do between its steps, `acquire` returns or raises in a state in which
  -- no two transactions hold incompatible locks, if it began in one.
  pub acquire-IsCompatible :
      (rounds : List (Round R)) (s : LockState R) (tx : ℕ) (r : R) (m : LockMode) {s' : LockState R}
      {res : Result (Unit {0})}
      → acquire rounds s tx r m ≡ some (s', res)
      → IsCompatible s
      → IsCompatible s'
  unfolding acquire
  acquire-IsCompatible [] s tx r m h inv = absurd (cc)
  acquire-IsCompatible (round ∷ rest) s tx r m {s'} {res} h inv =
      go (poll round s tx r m) (poll-IsCompatible round s tx r m inv)
        (λ s1 h1 inv1. acquire-IsCompatible rest s1 tx r m h1 inv1) h
    where
      go :
          (o : LockState R × Option (Result (Unit {0})))
          → IsCompatible o.0
          → ((s1 : LockState R)
              → acquire rest s1 tx r m ≡ some (s', res)
              → IsCompatible s1
              → IsCompatible s')
          → next_round o (λ s1. acquire rest s1 tx r m) ≡ some (s', res)
          → IsCompatible s'
      go (s1, some x) inv1 ih h1 = let same : s1 ≡ s' = ground arith in rw (← same) inv1
      go (s1, none) inv1 ih h1 = ih s1 h1 inv1
