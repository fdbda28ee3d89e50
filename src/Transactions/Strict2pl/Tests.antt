-- ===== src/Transactions/Strict2pl/Tests.antt =====
-- Runs of the lock table on small tables, resources being numbers.
use soup_db.Common.{
  ℕ, ◌≡◌, refl, ◌↔◌, inl, inr, Bool, true, false, none, some, List, [], ◌∷◌, subst, Result, ok, ite,
  ℕ_discrete, arith,
}
use soup_db.Common.Dict
use soup_db.Common.Dict.{nat_key}
use soup_db.Transactions.LockMode.{shared, exclusive, compat}
use soup_db.Transactions.Strict2pl.{
  LockState, held, release_all, attempt, try_grant, grant, release, granted, or_empty, try_in,
  close,
}
use soup_db.Transactions.Strict2pl.Grants.{held-release_all}
use soup_db.Transactions.Strict2pl.Compat.{IsCompatible, close-IsCompatible, attempt-IsCompatible}
use soup_db.Transactions.Strict2pl.Deadlock.{
  deadlock_detected, deadlock_detected_total, deadlock_detected_iff, IsStuck,
}
use soup_db.Transactions.Strict2pl.Acquire.{releasing, Round, acquire, poll}
use soup_db.Transactions.Strict2pl.Acquire.Safety.{acquire-IsCompatible}
use soup_db.Transactions.Strict2pl.Acquire.Effect.{held_after, held-acquire, acquire_ends}

-- Transaction 1 holds an exclusive lock on resource 7.
abbrev one_exclusive : LockState ℕ
one_exclusive = record { grants = (7, (1, (exclusive, 1)) ∷ []) ∷ []; waiting = [] }

abbrev empty : LockState ℕ
empty = record { grants = []; waiting = [] }

one_exclusive_attempted : (attempt (close empty) 1 7 exclusive).0 ≡ one_exclusive
unfolding attempt close try_grant grant try_in granted or_empty Dict.get Dict.put Dict.remove
one_exclusive_attempted = refl

one_exclusive-IsCompatible : IsCompatible one_exclusive
one_exclusive-IsCompatible =
    subst (λ s. IsCompatible s) one_exclusive_attempted
      (attempt-IsCompatible (close empty) 1 7 exclusive (close-IsCompatible empty))

held_one : held one_exclusive 1 7 ≡ some (exclusive, 1)
unfolding held or_empty Dict.get ℕ_discrete
held_one = refl

held-release_all_example :
    held (release_all one_exclusive 1) 1 7 ≡ ite (ℕ_discrete 1 1) none (held one_exclusive 1 7)
held-release_all_example = held-release_all one_exclusive 1 1 7

-- Transaction 2 asks for resource 7, is refused, and gets it in the second round, after the first
-- transaction has released it.
abbrev rounds : List (Round ℕ)
rounds =
    record { before_attempt = []; before_search = []; before_raise = []; expired = false }
    ∷ record {
      before_attempt = releasing 1 7 ∷ [];
      before_search = [];
      before_raise = [];
      expired = true;
    }
    ∷ []

abbrev two_shared : LockState ℕ
two_shared = record { grants = (7, (2, (shared, 1)) ∷ []) ∷ []; waiting = [] }

two_acquires : acquire rounds one_exclusive 2 7 shared ≡ some (two_shared, ok tt)
unfolding acquire poll attempt try_grant Dict.get ℕ_discrete compat deadlock_detected Dict.has
    Dict.put release Dict.remove grant
two_acquires = refl

acquire-IsCompatible_example : IsCompatible two_shared
acquire-IsCompatible_example =
    acquire-IsCompatible rounds one_exclusive 2 7 shared two_acquires one_exclusive-IsCompatible

held-acquire_example : held two_shared 2 7 ≡ held_after (ok tt) one_exclusive 2 7 shared 7
held-acquire_example =
    held-acquire rounds one_exclusive 2 7 shared two_shared (ok tt) 7
      ((tt, tt, tt), ((((λ p. omega arith), tt), tt, tt), tt)) two_acquires

acquire_ends_example :
    (s' : LockState ℕ) × (res : Result (Unit {0})) × (acquire rounds one_exclusive 2 7 shared
      ≡ some (s', res))
acquire_ends_example = acquire_ends rounds one_exclusive 2 7 shared (inr (inl refl))

-- Transactions 1 and 2 wait for each other.
abbrev deadlocked : LockState ℕ
deadlocked = record {
  grants = (7, (1, (exclusive, 1)) ∷ []) ∷ (8, (2, (exclusive, 1)) ∷ []) ∷ [];
  waiting = (1, 8) ∷ (2, 7) ∷ [];
}

deadlock_detected_total_example : (b : Bool) × (deadlock_detected deadlocked 1 ≡ some b)
deadlock_detected_total_example = deadlock_detected_total deadlocked 1

deadlock_detected_iff_example : (deadlock_detected deadlocked 1 ≡ some true) ↔ IsStuck deadlocked 1
deadlock_detected_iff_example = deadlock_detected_iff deadlocked 1
