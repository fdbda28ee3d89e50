-- ===== src/Transactions/Manager.antt =====
-- engine/transactions/transaction_manager.py, over the lock table of `Strict2pl` (the facade
-- engine/transactions/lock_manager.py passes each call on unchanged). The `Transaction` objects
-- outlive their registration, so the state keeps every object beside the registry of active ones.
pub mod Lifecycle
mod Tests
use soup_db.Common.{
  ℕ, ◌+◌, Bool, true, false, Option, none, some, List, [], ◌∷◌, map, Exc, Result, ok, raise,
}
use soup_db.Common.Dict
use soup_db.Common.Dict.{Dict, Key, nat_key}
use soup_db.Common.Exec.{Exec, pure, throw, gets, modify, ◌>>=◌, ◌>>◌}
use soup_db.Transactions.Strict2pl
use soup_db.Transactions.Strict2pl.{LockState}

pub data TransactionState : Type 0 where
  active partially_committed committed failed aborted : TransactionState

pub record Transaction (J : Type 0) : Type 0 where
  pub state : TransactionState
  pub journal : List J

pub record Manager (R J : Type 0) : Type 0 where
  pub locks : LockState R
  pub objects : Dict ℕ (Transaction J)
  pub registry : Dict ℕ (Unit {0})
  pub next_id : ℕ

-- `tx.state = state`
set_object : {J : Type 0} → TransactionState → Option (Transaction J) → Transaction J
set_object state none = record { state = state; journal = [] }
set_object state (some t) = record t { state = state }

passing : TransactionState → TransactionState
passing committed = partially_committed
passing _ = failed

module _ {R J : Type 0} ⦃e : Key R⦄ where
  abbrev pub init : Manager R J
  init = record {
    locks = record { grants = []; waiting = [] };
    objects = [];
    registry = [];
    next_id = 1;
  }

  -- The state of an object; an id that was never given out has none.
  unfoldable pub state_of : Manager R J → ℕ → Option TransactionState
  state_of m tx = elim (Dict.get tx m.objects) [ none ↦ none | some t ↦ some t.state ]

  pub set_state : ℕ → TransactionState → Manager R J → Manager R J
  unfolding set_object
  set_state tx state m = record m {
    objects = Dict.put tx (set_object state (Dict.get tx m.objects)) m.objects;
  }

  unfoldable pub begin : Exec (Manager R J) ℕ
  begin m = (
    ok m.next_id,
    record m {
      objects = Dict.put m.next_id (record { state = active; journal = [] }) m.objects;
      registry = Dict.put m.next_id tt m.registry;
      next_id = m.next_id + 1;
    },
  )

  -- `_finish` of a transaction whose state is active.
  unfoldable pub finish_active : ℕ → TransactionState → Manager R J → Manager R J
  unfolding passing
  finish_active tx final m =
      let m1 = set_state tx (passing final) m in
      let m2 = record m1 { locks = Strict2pl.release_all m1.locks tx } in
      let m3 = set_state tx final m2 in record m3 { registry = Dict.remove tx m3.registry }

  -- `_finish`: anything but an active transaction is refused.
  unfoldable pub finish_from :
      Option TransactionState → ℕ → TransactionState → Exec (Manager R J) (Unit {0})
  finish_from (some active) tx final m = (ok tt, finish_active tx final m)
  finish_from _ tx final m = (raise Exc.transaction_error, m)

  unfoldable pub finish : ℕ → TransactionState → Exec (Manager R J) (Unit {0})
  unfolding finish_from state_of
  finish tx final m = finish_from (state_of m tx) tx final m

  unfoldable pub commit : ℕ → Exec (Manager R J) (Unit {0})
  unfolding finish
  commit tx = finish tx committed

  unfoldable pub rollback : ℕ → Exec (Manager R J) (Unit {0})
  unfolding finish
  rollback tx = finish tx aborted

  unfoldable pub active_transactions : Manager R J → List ℕ
  active_transactions m = map (λ entry. entry.0) m.registry

  unfoldable pub close : Manager R J → Manager R J
  close m = record m { locks = Strict2pl.close m.locks }
