-- ===== src/Transactions/Session.antt =====
-- engine/transactions/session.py, `close`, which engine/transactions/connection_handler.py calls when
-- a connection ends (`_handle`), with the transaction manager that all connections share.
pub mod Undo
pub mod Locking
mod Tests
use soup_db.Common.{ℕ, ◌≡◌, true, none, some, arith}
use soup_db.Common.Dict
use soup_db.Common.Dict.{Dict, Key, nat_key}
use soup_db.Transactions.LockMode.{LockMode}
use soup_db.Transactions.Strict2pl.{Grants, held, try_grant, close}
use soup_db.Transactions.Manager
use soup_db.Transactions.Manager.{Manager, TransactionState, active, state_of}

module _ {R J : Type 0} ⦃e : Key R⦄ where
  -- `self._tm.close()`
  pub session_close : Manager R J → Manager R J
  unfolding Manager.close
  session_close m = Manager.close m

  -- Closing one session takes away the locks of every transaction of the shared manager: one that is
  -- active stays active, holds nothing, and any lock of any mode is granted to any transaction.
  pub session_close_drops :
      (m : Manager R J) (t u : ℕ) (q : R) (mode : LockMode)
      → state_of m t ≡ some active
      → (state_of (session_close m) t ≡ some active)
        × (held (session_close m).locks t q ≡ none)
        × (try_grant (session_close m).locks u q mode ≡ true)
  unfolding session_close state_of held close try_grant
  session_close_drops m t u q mode h = (
    h,
    ground (arith, Dict.get-nil {V = Grants} q, Dict.get-nil {V = LockMode × ℕ} t),
    ground (arith, Dict.get-nil {V = Grants} q),
  )
