-- ===== src/Transactions/Strict2pl/Compat.antt =====
-- The lock table's safety: two transactions never hold incompatible locks on one resource.
use soup_db.Common.{
  ℕ, ◌≡◌, ◌≢◌, true, Option, none, some, [], ◌∷◌, arith, Option-cases, Bool-cases, inl, inr,
}
use soup_db.Common.Dict
use soup_db.Common.Dict.{Dict, Key, nat_key}
use soup_db.Transactions.LockMode.{
  LockMode, exclusive, compat, compat_comm, compat-exclusive, stronger,
}
use soup_db.Transactions.Strict2pl.{
  Grants, LockState, granted, grant, attempt, give_up, release, release_all, close, held, try_grant,
  all_allow, others_allow, try_held, try_in,
}
use soup_db.Transactions.Strict2pl.Grants.{released, held-grant, held-release, held-release_all}

all_allow-get :
    (m : LockMode) (gs : Grants) (u : ℕ) (v : LockMode × ℕ)
    → all_allow m gs ≡ true
    → Dict.get u gs ≡ some v
    → compat v.0 m ≡ true
unfolding all_allow Dict.get
all_allow-get m [] u v h g = cc
all_allow-get m ((j, w) ∷ gs) u v h g = ground (arith, all_allow-get m gs u v)

others_allow-get :
    (t : ℕ) (m : LockMode) (gs : Grants) (u : ℕ) (v : LockMode × ℕ)
    → others_allow t m gs ≡ true
    → u ≢ t
    → Dict.get u gs ≡ some v
    → compat v.0 m ≡ true
unfolding others_allow Dict.get
others_allow-get t m [] u v h n g = cc
others_allow-get t m ((j, w) ∷ gs) u v h n g = ground (arith, others_allow-get t m gs u v)

try_held-get :
    (t : ℕ) (m : LockMode) (gs : Grants) (o : Option (LockMode × ℕ)) (u : ℕ) (v : LockMode × ℕ)
    → try_held t m gs o ≡ true
    → u ≢ t
    → Dict.get u gs ≡ some v
    → compat v.0 (granted m o).0 ≡ true
unfolding try_held granted
try_held-get t m gs none u v h n g = all_allow-get m gs u v h g
try_held-get t m gs (some (held_mode, c)) u v h n g =
    others_allow-get t (stronger held_mode m) gs u v h n g

abbrev pub mode_of : Option (LockMode × ℕ) → Option LockMode
mode_of none = none
mode_of (some (mode, _)) = some mode

released-mode :
    (o : Option (LockMode × ℕ)) (a : LockMode) → mode_of (released o) ≡ some a → mode_of o ≡ some a
unfolding released
released-mode none a h = h
released-mode (some (m, c)) a h = ground arith

module _ {R : Type 0} ⦃e : Key R⦄ where
  pub record IsCompatible (s : LockState R) : Type 0 where
    pub compatible :
        (r : R) (t u : ℕ) (a b : LockMode)
        → t ≢ u
        → mode_of (held s t r) ≡ some a
        → mode_of (held s u r) ≡ some b
        → compat a b ≡ true

  held-try_grant :
      (s : LockState R) (t : ℕ) (r : R) (m : LockMode) (u : ℕ) (v : LockMode × ℕ)
      → try_grant s t r m ≡ true
      → u ≢ t
      → held s u r ≡ some v
      → compat v.0 (granted m (held s t r)).0 ≡ true
  unfolding try_grant held try_in
  held-try_grant s t r m u v h n g = elim (Option-cases (Dict.get r s.grants)) [
    | inl missing ↦ ground (arith, Dict.get-nil {V = LockMode × ℕ} u)
    | inr ([], found) ↦ ground (arith, Dict.get-nil {V = LockMode × ℕ} u)
    | inr (x ∷ gs, found) ↦ ground (arith, try_held-get t m (x ∷ gs) (Dict.get t (x ∷ gs)) u v)
  ]

  -- What a successful test promises about the mode that is then stored.
  pub try_grant-compat :
      (s : LockState R) (t : ℕ) (r : R) (m : LockMode) (u : ℕ) (a : LockMode)
      → try_grant s t r m ≡ true
      → u ≢ t
      → mode_of (held s u r) ≡ some a
      → compat a (granted m (held s t r)).0 ≡ true
  try_grant-compat s t r m u a h n g = elim (Option-cases (held s u r)) [
    | inl free ↦ ground arith
    | inr (v, found) ↦ ground (arith, held-try_grant s t r m u v)
  ]

  pub grant-IsCompatible :
      (s : LockState R) (t : ℕ) (r : R) (m : LockMode)
      → IsCompatible s
      → try_grant s t r m ≡ true
      → IsCompatible (grant s t r m)
  grant-IsCompatible s t r m inv h = record {
    compatible = λ q x y a b n p p'. ground (
      arith,
      held-grant s t x r q m,
      held-grant s t y r q m,
      try_grant-compat s t r m x a,
      try_grant-compat s t r m y b,
      compat_comm a b,
      inv.compatible q x y a b,
    );
  }

  pub attempt-IsCompatible :
      (s : LockState R) (t : ℕ) (r : R) (m : LockMode)
      → IsCompatible s
      → IsCompatible (attempt s t r m).0
  unfolding attempt
  attempt-IsCompatible s t r m inv = elim (Bool-cases (try_grant s t r m)) [
    | inl h ↦ rw h (grant-IsCompatible s t r m inv h)
    | inr h ↦ rw h (record { compatible = unfold held in inv.compatible })
  ]

  pub give_up-IsCompatible : (s : LockState R) (t : ℕ) → IsCompatible s → IsCompatible (give_up s t)
  unfolding give_up held
  give_up-IsCompatible s t inv = record { compatible = inv.compatible }

  pub release-IsCompatible :
      (s : LockState R) (t : ℕ) (r : R) → IsCompatible s → IsCompatible (release s t r)
  release-IsCompatible s t r inv = record {
    compatible = λ q x y a b n p p'. ground (
      arith,
      held-release s t x r q,
      held-release s t y r q,
      released-mode (held s t r) a,
      released-mode (held s t r) b,
      inv.compatible q x y a b,
    );
  }

  pub release_all-IsCompatible :
      (s : LockState R) (t : ℕ) → IsCompatible s → IsCompatible (release_all s t)
  release_all-IsCompatible s t inv = record {
    compatible = λ q x y a b n p p'.
        ground
          (arith, held-release_all s t x q, held-release_all s t y q, inv.compatible q x y a b);
  }

  pub close-IsCompatible : (s : LockState R) → IsCompatible (close s)
  unfolding close held
  close-IsCompatible s = record {
    compatible = λ q x y a b n p p'.
        ground (arith, Dict.get-nil {V = LockMode × ℕ} x, Dict.get-nil {V = Grants} q);
  }

  -- Where no two transactions hold incompatible locks, an exclusive lock excludes every other
  -- transaction's lock on its resource.
  pub exclusive_alone :
      (s : LockState R) (r : R) (t u : ℕ) (c : ℕ)
      → IsCompatible s
      → held s t r ≡ some (exclusive, c)
      → u ≢ t
      → held s u r ≡ none
  exclusive_alone s r t u c inv h n = elim (Option-cases (held s u r)) [
    | inl free ↦ free
    | inr (v, found) ↦ ground (arith, inv.compatible r u t v.0 exclusive, compat-exclusive v.0)
  ]
