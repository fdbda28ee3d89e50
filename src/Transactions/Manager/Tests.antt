-- ===== src/Transactions/Manager/Tests.antt =====
-- Runs of the transaction manager; the resources and the journal's entries are numbers.
use soup_db.Common.{ℕ, ◌≡◌, refl, ◌≢◌, none, some, [], ◌∷◌, ok, ite, ℕ_discrete}
use soup_db.Common.Dict
use soup_db.Common.Dict.{nat_key}
use soup_db.Transactions.Strict2pl.{held}
use soup_db.Transactions.Manager.{
  Manager, init, begin, commit, rollback, state_of, active, committed, aborted,
}
use soup_db.Transactions.Manager.Lifecycle.{IsConsistent, methods-IsConsistent, end_active}

abbrev started : Manager ℕ ℕ
started = init

abbrev one_active : Manager ℕ ℕ
one_active = record {
  locks = record { grants = []; waiting = [] };
  objects = (1, record { state = active; journal = [] }) ∷ [];
  registry = (1, tt) ∷ [];
  next_id = 2;
}

init-IsConsistent : IsConsistent started
unfolding state_of Dict.get
init-IsConsistent = record {
  registered = λ tx. (λ h. absurd (cc), λ h. absurd (cc));
  issued = λ tx h. refl;
}

one_is_active : state_of one_active 1 ≡ some active
unfolding state_of Dict.get ℕ_discrete
one_is_active = refl

none_is_active : state_of started 1 ≢ some active
unfolding state_of Dict.get ℕ_discrete
none_is_active h = cc

methods-IsConsistent_example :
    IsConsistent (begin started).1
    × IsConsistent (commit 1 started).1
    × IsConsistent (rollback 1 started).1
methods-IsConsistent_example = methods-IsConsistent started 1 init-IsConsistent

end_active_example :
    ((commit 1 one_active).0 ≡ ok tt)
    × (state_of (commit 1 one_active).1 1
        ≡ ite (ℕ_discrete 1 1) (some committed) (state_of one_active 1))
    × (held (commit 1 one_active).1.locks 1 7
        ≡ ite (ℕ_discrete 1 1) none (held one_active.locks 1 7))
    × ((rollback 1 one_active).0 ≡ ok tt)
    × (state_of (rollback 1 one_active).1 1
        ≡ ite (ℕ_discrete 1 1) (some aborted) (state_of one_active 1))
    × (held (rollback 1 one_active).1.locks 1 7
        ≡ ite (ℕ_discrete 1 1) none (held one_active.locks 1 7))
end_active_example = end_active one_active 1 1 7 one_is_active
