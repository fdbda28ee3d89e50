-- ===== src/Transactions/Strict2pl/Acquire/Effect.antt =====
-- What `acquire` does to the locks of its own transaction, and when it ends.
use soup_db.Common.{
  ℕ, ◌≡◌, refl, ◌∙◌, ◌≢◌, ◌⊎◌, inl, inr, true, false, Option, none, some, List, [], ◌∷◌, ite, arith,
  Bool-cases, Result, ok, raise,
}
use soup_db.Common.Dict.{Key, nat_key}
use soup_db.Transactions.LockMode.{LockMode}
use soup_db.Transactions.Strict2pl.{LockState, granted, attempt, grant, try_grant, give_up, held}
use soup_db.Transactions.Strict2pl.Grants.{held-grant, held-release, held-release_all}
use soup_db.Transactions.Strict2pl.Acquire.{
  Action, attempting, giving_up, releasing, releasing_all, closing, Round, act, run, poll,
  next_round, acquire, tested, refused, Outcome, won, lost, asleep, poll-Outcome,
}

module _ {R : Type 0} ⦃e : Key R⦄ where
  -- The action is another transaction's, and does not close the lock manager.
  abbrev pub Spares : ℕ → Action R → Type 0
  Spares tx (attempting t r m) = t ≢ tx
  Spares tx (giving_up t) = t ≢ tx
  Spares tx (releasing t r) = t ≢ tx
  Spares tx (releasing_all t) = t ≢ tx
  Spares tx closing = ⊥

  abbrev pub Foreign : ℕ → List (Action R) → Type 0
  Foreign tx [] = Unit
  Foreign tx (a ∷ rest) = Spares tx a × Foreign tx rest

  abbrev pub ForeignRound : ℕ → Round R → Type 0
  ForeignRound tx round =
      Foreign tx round.before_attempt
      × Foreign tx round.before_search
      × Foreign tx round.before_raise

  abbrev pub ForeignRounds : ℕ → List (Round R) → Type 0
  ForeignRounds tx [] = Unit
  ForeignRounds tx (round ∷ rest) = ForeignRound tx round × ForeignRounds tx rest

  -- A refused attempt, a resignation and other transactions' steps leave a transaction's locks alone.
  held-attempt_ne :
      (s : LockState R) (t u : ℕ) (r q : R) (m : LockMode)
      → t ≢ u
      → held (attempt s t r m).0 u q ≡ held s u q
  unfolding attempt
  held-attempt_ne s t u r q m n = elim (Bool-cases (try_grant s t r m)) [
    | inl h ↦ rw h (ground (arith, held-grant s t u r q m))
    | inr h ↦ rw h (unfold held in refl)
  ]

  held-attempt_refused :
      (s : LockState R) (t u : ℕ) (r q : R) (m : LockMode)
      → try_grant s t r m ≡ false
      → held (attempt s t r m).0 u q ≡ held s u q
  unfolding attempt held
  held-attempt_refused s t u r q m h = rw h

  held-give_up : (s : LockState R) (t u : ℕ) (q : R) → held (give_up s t) u q ≡ held s u q
  unfolding give_up held
  held-give_up s t u q = refl

  held-act :
      (a : Action R) (s : LockState R) (tx : ℕ) (q : R)
      → Spares tx a
      → held (act a s) tx q ≡ held s tx q
  held-act (attempting t r m) s tx q n = held-attempt_ne s t tx r q m n
  held-act (giving_up t) s tx q n = held-give_up s t tx q
  held-act (releasing t r) s tx q n = ground (arith, held-release s t tx r q)
  held-act (releasing_all t) s tx q n = ground (arith, held-release_all s t tx q)
  held-act closing s tx q n = absurd n

  held-run :
      (l : List (Action R)) (s : LockState R) (tx : ℕ) (q : R)
      → Foreign tx l
      → held (run l s) tx q ≡ held s tx q
  held-run [] s tx q f = refl
  held-run (a ∷ l) s tx q f = held-run l (act a s) tx q f.1 ∙ held-act a s tx q f.0

  -- What a transaction holds after `acquire`: one more lock of the stronger mode, or what it held.
  abbrev pub held_after :
      Result (Unit {0}) → LockState R → ℕ → R → LockMode → R → Option (LockMode × ℕ)
  held_after (ok _) s tx r m q = ite (e.dec q r) (some (granted m (held s tx r))) (held s tx q)
  held_after (raise _) s tx r m q = held s tx q

  abbrev PollHeld :
      LockState R → ℕ → R → LockMode → R → LockState R × Option (Result (Unit {0})) → Type 0
  PollHeld s tx r m q (s', some res) = held s' tx q ≡ held_after res s tx r m q
  PollHeld s tx r m q (s', none) = (p : R) → held s' tx p ≡ held s tx p

  held-refused :
      (round : Round R) (s : LockState R) (tx : ℕ) (r : R) (m : LockMode) (q : R)
      → ForeignRound tx round
      → try_grant (tested round s) tx r m ≡ false
      → held (refused round s tx r m) tx q ≡ held s tx q
  held-refused round s tx r m q f h =
      held-run round.before_search (attempt (tested round s) tx r m).0 tx q f.1
      ∙ held-attempt_refused (tested round s) tx tx r q m h
      ∙ held-run round.before_attempt s tx q f.0

  poll-held :
      (round : Round R) (s : LockState R) (tx : ℕ) (r : R) (m : LockMode) (q : R)
      → ForeignRound tx round
      → {o : LockState R × Option (Result (Unit {0}))} → Outcome round s tx r m o
      → PollHeld s tx r m q o
  poll-held round s tx r m q f (won h eq) = rw eq (
      held-grant (tested round s) tx tx r q m
      ∙ ground (
        arith,
        held-run round.before_attempt s tx r f.0,
        held-run round.before_attempt s tx q f.0,
      ))
  poll-held round s tx r m q f (lost x h eq) =
      let t = refused round s tx r m in
      rw eq (
        held-give_up (run round.before_raise t) tx tx q
        ∙ held-run round.before_raise t tx q f.2
        ∙ held-refused round s tx r m q f h)
  poll-held round s tx r m q f (asleep late h eq) = rw eq (λ p. held-refused round s tx r m p f h)

  -- When the mutex blocks between its own are other transactions', and none of them is that of
  -- `close`, an `acquire` that returns has added one lock of the stronger of the held and the
  -- requested mode, and one that raises has changed no lock of its transaction.
  pub held-acquire :
      (rounds : List (Round R)) (s : LockState R) (tx : ℕ) (r : R) (m : LockMode) (s' : LockState R)
      (res : Result (Unit {0})) (q : R)
      → ForeignRounds tx rounds
      → acquire rounds s tx r m ≡ some (s', res)
      → held s' tx q ≡ held_after res s tx r m q
  unfolding acquire
  held-acquire [] s tx r m s' res q f h = absurd (cc)
  held-acquire (round ∷ rest) s tx r m s' res q f h =
      go (poll round s tx r m) (poll-held round s tx r m q f.0 (poll-Outcome round s tx r m))
        (λ s1 h1. held-acquire rest s1 tx r m s' res q f.1 h1) h
    where
      settle :
          (x : Result (Unit {0})) (s1 : LockState R)
          → held s1 tx r ≡ held s tx r
          → held s1 tx q ≡ held s tx q
          → held s' tx q ≡ held_after x s1 tx r m q
          → held s' tx q ≡ held_after x s tx r m q
      settle (ok u) s1 a b c = ground arith
      settle (raise x) s1 a b c = ground arith

      go :
          (o : LockState R × Option (Result (Unit {0})))
          → PollHeld s tx r m q o
          → ((s1 : LockState R)
              → acquire rest s1 tx r m ≡ some (s', res)
              → held s' tx q ≡ held_after res s1 tx r m q)
          → next_round o (λ s1. acquire rest s1 tx r m) ≡ some (s', res)
          → held s' tx q ≡ held_after res s tx r m q
      go (s1, some x) p ih h1 =
          let same : s1 ≡ s' = ground arith in
          let same_res : x ≡ res = ground arith in rw (← same, ← same_res) p
      go (s1, none) p ih h1 = settle res s1 (p r) (p q) (ih s1 h1)

  -- Some round begins after the deadline.
  abbrev pub Expires : List (Round R) → Type 0
  Expires [] = ⊥
  Expires (round ∷ rest) = (round.expired ≡ true) ⊎ Expires rest

  -- With a deadline `acquire` ends: once a round comes after it, the call has returned or raised,
  -- whatever the other threads do.
  pub acquire_ends :
      (rounds : List (Round R)) (s : LockState R) (tx : ℕ) (r : R) (m : LockMode)
      → Expires rounds
      → (s' : LockState R) × (res : Result (Unit {0})) × (acquire rounds s tx r m ≡ some (s', res))
  unfolding acquire
  acquire_ends [] s tx r m late = absurd late
  acquire_ends (round ∷ rest) s tx r m late =
      go late (λ s1 l. acquire_ends rest s1 tx r m l) (poll-Outcome round s tx r m)
    where
      go :
          (round.expired ≡ true) ⊎ Expires rest
          → ((s1 : LockState R)
              → Expires rest
              → (s' : LockState R) × (res : Result (Unit {0})) × (acquire rest s1 tx r m
                  ≡ some (s', res)))
          → {o : LockState R × Option (Result (Unit {0}))} → Outcome round s tx r m o
          → (s' : LockState R) × (res : Result (Unit {0})) × (next_round o
                (λ s1. acquire rest s1 tx r m)
              ≡ some (s', res))
      go l ih (won h eq) = (grant (tested round s) tx r m, ok tt, rw eq)
      go l ih (lost x h eq) =
          (give_up (run round.before_raise (refused round s tx r m)) tx, raise x, rw eq)
      go (inl l) ih (asleep early h eq) = absurd (ground arith)
      go (inr l) ih (asleep early h eq) =
          let (s', res, found) = ih (refused round s tx r m) l in (s', res, rw eq found)
