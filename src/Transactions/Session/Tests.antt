-- ===== src/Transactions/Session/Tests.antt =====
-- A run of a session's `close`, with a transaction of another session that is active.
use soup_db.Common.{ℕ, ◌≡◌, refl, true, none, some, [], ◌∷◌, ℕ_discrete}
use soup_db.Common.Dict
use soup_db.Common.Dict.{nat_key}
use soup_db.Transactions.LockMode.{exclusive}
use soup_db.Transactions.Strict2pl.{held, try_grant}
use soup_db.Transactions.Manager.{Manager, state_of, active}
use soup_db.Transactions.Session.{session_close, session_close_drops}

-- Transaction 1 is active and holds an exclusive lock on resource 7.
abbrev other_session : Manager ℕ ℕ
other_session = record {
  locks = record { grants = (7, (1, (exclusive, 1)) ∷ []) ∷ []; waiting = [] };
  objects = (1, record { state = active; journal = [] }) ∷ [];
  registry = (1, tt) ∷ [];
  next_id = 2;
}

other_is_active : state_of other_session 1 ≡ some active
unfolding state_of Dict.get ℕ_discrete
other_is_active = refl

session_close_drops_example :
    (state_of (session_close other_session) 1 ≡ some active)
    × (held (session_close other_session).locks 1 7 ≡ none)
    × (try_grant (session_close other_session).locks 2 7 exclusive ≡ true)
session_close_drops_example = session_close_drops other_session 1 2 7 exclusive other_is_active
