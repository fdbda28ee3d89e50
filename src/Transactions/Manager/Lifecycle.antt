-- ===== src/Transactions/Manager/Lifecycle.antt =====
-- The life cycle of a transaction: what `begin`, `commit` and `rollback` do to states, registry and
-- locks.
use soup_db.Common.{
  ℕ, ◌≤◌, ◌≡◌, refl, ◌∙◌, ◌≢◌, ◌↔◌, Option, none, some, [], ite, ℕ_discrete, arith, Exc, ok, raise,
  Option-cases, inl, inr,
}
use soup_db.Common.Dict
use soup_db.Common.Dict.{Dict, Key, nat_key}
use soup_db.Transactions.Strict2pl.{held, release_all}
use soup_db.Transactions.Strict2pl.Grants.{held-release_all}
use soup_db.Transactions.Manager.{
  TransactionState, active, partially_committed, committed, failed, aborted, Transaction, Manager,
  state_of, set_object, passing, set_state, begin, finish_active, finish_from, finish, commit,
  rollback,
}

module _ {R J : Type 0} ⦃e : Key R⦄ where
  -- The registry lists the active transactions, and ids are given out once.
  pub record IsConsistent (m : Manager R J) : Type 0 where
    pub registered : (tx : ℕ) → (Dict.get tx m.registry ≡ some tt) ↔ (state_of m tx ≡ some active)
    pub issued : (tx : ℕ) → m.next_id ≤ tx → Dict.get tx m.objects ≡ none

  state_of-set_state :
      (m : Manager R J) (tx u : ℕ) (st : TransactionState)
      → state_of (set_state tx st m) u ≡ ite (ℕ_discrete u tx) (some st) (state_of m u)
  unfolding state_of set_state set_object
  state_of-set_state m tx u st = elim (Option-cases (Dict.get tx m.objects)) [
    | inl h ↦ ground (arith, Dict.get-put tx u (set_object st (Dict.get tx m.objects)) m.objects)
    | inr (t, h) ↦
        ground (arith, Dict.get-put tx u (set_object st (Dict.get tx m.objects)) m.objects)
  ]

  -- The final state is what remains, and no other transaction's state changes.
  pub state_of-finish_active :
      (m : Manager R J) (tx u : ℕ) (final : TransactionState)
      → state_of (finish_active tx final m) u ≡ ite (ℕ_discrete u tx) (some final) (state_of m u)
  unfolding finish_active
  state_of-finish_active m tx u final =
      let m1 = set_state tx (passing final) m in
      let m2 = record m1 { locks = release_all m1.locks tx } in
      let s1 : state_of m2 u ≡ state_of m1 u = unfold state_of in refl in
      let s2 : state_of (finish_active tx final m) u ≡ state_of (set_state tx final m2) u =
        unfold state_of in refl in
      s2
      ∙ state_of-set_state m2 tx u final
      ∙ ground (arith, s1, state_of-set_state m tx u (passing final))

  pub held-finish_active :
      (m : Manager R J) (tx u : ℕ) (q : R) (final : TransactionState)
      → held (finish_active tx final m).locks u q ≡ ite (ℕ_discrete u tx) none (held m.locks u q)
  unfolding finish_active set_state
  held-finish_active m tx u q final = held-release_all m.locks tx u q

  registry-finish_active :
      (m : Manager R J) (tx u : ℕ) (final : TransactionState)
      → Dict.get u (finish_active tx final m).registry
        ≡ ite (ℕ_discrete u tx) none (Dict.get u m.registry)
  unfolding finish_active set_state
  registry-finish_active m tx u final = Dict.get-remove tx u m.registry

  finish_active-IsConsistent :
      (m : Manager R J) (tx : ℕ) (final : TransactionState)
      → final ≢ active
      → state_of m tx ≡ some active
      → IsConsistent m
      → IsConsistent (finish_active tx final m)
  finish_active-IsConsistent m tx final n h inv = record {
    registered = λ u.
        let now = state_of-finish_active m tx u final in
        let kept = (inv.registered u) in
        (
          λ h1. ground (arith, now, registry-finish_active m tx u final, kept.0),
          λ h1. ground (arith, now, registry-finish_active m tx u final, kept.1),
        );
    issued = λ u above.
        unfold finish_active set_state state_of in
        ground (
          arith,
          h,
          inv.issued u,
          Dict.get-put tx u (set_object (passing final) (Dict.get tx m.objects)) m.objects,
          Dict.get-put tx u
              (set_object final (Dict.get tx (set_state tx (passing final) m).objects))
              (set_state tx (passing final) m).objects,
        );
  }

  begin-IsConsistent : (m : Manager R J) → IsConsistent m → IsConsistent (begin m).1
  unfolding begin state_of
  begin-IsConsistent m inv = record {
    registered = λ u.
        let kept = (inv.registered u) in
        let new = inv.issued m.next_id (omega arith) in
        let r = Dict.get-put m.next_id u tt m.registry in
        let o =
          Dict.get-put {V = Transaction J} m.next_id u (record { state = active; journal = [] })
            m.objects in
        (λ h1. ground (arith, new, r, o, kept.0), λ h1. ground (arith, new, r, o, kept.1));
    issued = λ u above. ground (
      arith,
      Dict.get-put {V = Transaction J} m.next_id u (record { state = active; journal = [] })
          m.objects,
      inv.issued u,
    );
  }

  pub finish_active_lem :
      (m : Manager R J) (tx : ℕ) (final : TransactionState)
      → state_of m tx ≡ some active
      → finish tx final m ≡ (ok tt, finish_active tx final m)
  unfolding finish
  finish_active_lem m tx final h = rw h

  finish_refused :
      (m : Manager R J) (tx : ℕ) (final : TransactionState) (o : Option TransactionState)
      → o ≢ some active
      → finish_from o tx final m ≡ (raise Exc.transaction_error, m)
  unfolding finish_from
  finish_refused m tx final (some active) n = absurd (n refl)
  finish_refused m tx final _ n = refl

  finish-IsConsistent :
      (m : Manager R J) (tx : ℕ) (final : TransactionState)
      → final ≢ active
      → IsConsistent m
      → IsConsistent (finish tx final m).1
  unfolding finish finish_from
  finish-IsConsistent m tx final n inv = elim (Option-cases (state_of m tx)) [
    | inl h ↦ rw h inv
    | inr (active, h) ↦ rw h (finish_active-IsConsistent m tx final n h inv)
    | inr (partially_committed, h) ↦ rw h inv
    | inr (committed, h) ↦ rw h inv
    | inr (failed, h) ↦ rw h inv
    | inr (aborted, h) ↦ rw h inv
  ]

  -- `begin`, `commit` and `rollback` keep the registry in step with the states: if it lists exactly
  -- the active transactions, and no id from the next one on is in use, both hold afterwards.
  pub methods-IsConsistent :
      (m : Manager R J) (tx : ℕ)
      → IsConsistent m
      → IsConsistent (begin m).1 × IsConsistent (commit tx m).1 × IsConsistent (rollback tx m).1
  unfolding commit rollback
  methods-IsConsistent m tx inv = (
    begin-IsConsistent m inv,
    finish-IsConsistent m tx committed (λ p. cc) inv,
    finish-IsConsistent m tx aborted (λ p. cc) inv,
  )

  -- Ending an active transaction succeeds, leaves it committed or aborted, takes away all of its
  -- locks, and changes neither the state nor the locks of any other transaction.
  pub end_active :
      (m : Manager R J) (tx u : ℕ) (q : R)
      → state_of m tx ≡ some active
      → ((commit tx m).0 ≡ ok tt)
        × (state_of (commit tx m).1 u ≡ ite (ℕ_discrete u tx) (some committed) (state_of m u))
        × (held (commit tx m).1.locks u q ≡ ite (ℕ_discrete u tx) none (held m.locks u q))
        × ((rollback tx m).0 ≡ ok tt)
        × (state_of (rollback tx m).1 u ≡ ite (ℕ_discrete u tx) (some aborted) (state_of m u))
        × (held (rollback tx m).1.locks u q ≡ ite (ℕ_discrete u tx) none (held m.locks u q))
  unfolding commit rollback
  end_active m tx u q h =
      rw (finish_active_lem m tx committed h, finish_active_lem m tx aborted h)
        (
          refl,
          state_of-finish_active m tx u committed,
          held-finish_active m tx u q committed,
          refl,
          state_of-finish_active m tx u aborted,
          held-finish_active m tx u q aborted,
        )

  -- A transaction that is not active can be neither committed nor rolled back: the call raises
  -- TransactionError and changes nothing.
  pub end_inactive :
      (m : Manager R J) (tx : ℕ)
      → state_of m tx ≢ some active
      → (commit tx m ≡ (raise Exc.transaction_error, m))
        × (rollback tx m ≡ (raise Exc.transaction_error, m))
  unfolding commit rollback finish
  end_inactive m tx n = (
    finish_refused m tx committed (state_of m tx) n,
    finish_refused m tx aborted (state_of m tx) n,
  )

  -- In a consistent manager `begin` returns an id that no transaction had before; the transaction
  -- is then active, and the locks are as they were.
  pub begin_fresh :
      (m : Manager R J)
      → IsConsistent m
      → ((begin m).0 ≡ ok m.next_id)
        × (state_of m m.next_id ≡ none)
        × (state_of (begin m).1 m.next_id ≡ some active)
        × ((begin m).1.locks ≡ m.locks)
  unfolding begin state_of
  begin_fresh m inv = (
    refl,
    ground (arith, inv.issued m.next_id),
    ground (
      arith,
      Dict.get-put {V = Transaction J} m.next_id m.next_id (record { state = active; journal = [] })
          m.objects,
    ),
    refl,
  )
