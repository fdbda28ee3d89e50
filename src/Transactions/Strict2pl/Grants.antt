-- ===== src/Transactions/Strict2pl/Grants.antt =====
-- What each operation of the lock table does to the locks that transactions hold.
use soup_db.Common.{
  ℕ, ◌-◌, ◌≡◌, refl, ◌∙◌, ◌≢◌, Option, none, some, List, [], ◌∷◌, map, ite, ℕ_discrete, ltb, arith,
  if◌then◌else◌, Option-cases, inl, inr, if_neg,
}
use soup_db.Common.Dict
use soup_db.Common.Dict.{Dict, Key, nat_key}
use soup_db.Transactions.LockMode.{LockMode}
use soup_db.Transactions.Strict2pl.{
  Grants, LockState, granted, or_empty, grant, release, release_all, held, set_grants, drop_one,
  release_resource, release_each,
}

-- What is left of a lock after one `release`.
unfoldable pub released : Option (LockMode × ℕ) → Option (LockMode × ℕ)
released none = none
released (some (mode, count)) = if ltb 1 count then some (mode, count - 1) else none

get-drop_one :
    (t u : ℕ) (gs : Grants) (o : Option (LockMode × ℕ))
    → Dict.get t gs ≡ o
    → Dict.get u (drop_one t gs o) ≡ ite (ℕ_discrete u t) (released o) (Dict.get u gs)
unfolding drop_one released
get-drop_one t u gs none h = ground arith
get-drop_one t u gs (some (m, c)) h =
    ground (arith, Dict.get-put t u (m, c - 1) gs, Dict.get-remove t u gs)

module _ {R : Type 0} ⦃e : Key R⦄ where
  get-set_grants :
      (k q : R) (gs : Grants) (table : Dict R Grants)
      → or_empty (Dict.get q (set_grants k gs table))
        ≡ ite (e.dec q k) gs (or_empty (Dict.get q table))
  unfolding set_grants or_empty
  get-set_grants k q [] table = ground (arith, Dict.get-remove k q table)
  get-set_grants k q (g ∷ gs) table = ground (arith, Dict.get-put k q (g ∷ gs) table)

  pub held-grant :
      (s : LockState R) (t u : ℕ) (r q : R) (m : LockMode)
      → held (grant s t r m) u q
        ≡ ite
            (e.dec q r)
            (ite (ℕ_discrete u t) (some (granted m (held s t r))) (held s u q))
            (held s u q)
  unfolding held grant
  held-grant s t u r q m =
      let gs = or_empty (Dict.get r s.grants) in
      let v = granted m (Dict.get t gs) in
      ground (arith, Dict.get-put r q (Dict.put t v gs) s.grants, Dict.get-put t u v gs)

  pub held-release :
      (s : LockState R) (t u : ℕ) (r q : R)
      → held (release s t r) u q
        ≡ ite (e.dec q r) (ite (ℕ_discrete u t) (released (held s t r)) (held s u q)) (held s u q)
  unfolding held release released
  held-release s t u r q = elim (Option-cases (Dict.get r s.grants)) [
    | inl h ↦ ground (arith, Dict.get-nil {V = LockMode × ℕ} t)
    | inr (gs, h) ↦ elim (Option-cases (Dict.get t gs)) [
      | inl h2 ↦ ground arith
      | inr (v, h2) ↦ ground (
        arith,
        get-set_grants r q (drop_one t gs (some v)) s.grants,
        get-drop_one t u gs (some v) h2,
      )
    ]
  ]

  held_in : Dict R Grants → ℕ → R → Option (LockMode × ℕ)
  held_in table u q = Dict.get u (or_empty (Dict.get q table))

  held_in-release_resource :
      (t u : ℕ) (k q : R) (table : Dict R Grants)
      → held_in (release_resource t k table) u q
        ≡ ite (e.dec q k) (ite (ℕ_discrete u t) none (held_in table u q)) (held_in table u q)
  unfolding held_in release_resource
  held_in-release_resource t u k q table =
      let gs = or_empty (Dict.get k table) in
      ground (arith, get-set_grants k q (Dict.remove t gs) table, Dict.get-remove t u gs)

  held_in-release_each_ne :
      (t u : ℕ) (q : R) (ks : List R) (table : Dict R Grants)
      → u ≢ t
      → held_in (release_each t ks table) u q ≡ held_in table u q
  unfolding release_each
  held_in-release_each_ne t u q [] table h = refl
  held_in-release_each_ne t u q (k ∷ ks) table h =
      held_in-release_each_ne t u q ks (release_resource t k table) h
      ∙ ground (arith, held_in-release_resource t u k q table)

  held_in-release_each_self :
      (t : ℕ) (q : R) (d table : Dict R Grants)
      → (Dict.get q d ≡ none → held_in table t q ≡ none)
      → held_in (release_each t (map (λ g. g.0) d) table) t q ≡ none
  unfolding release_each Dict.get
  held_in-release_each_self t q [] table h = h refl
  held_in-release_each_self t q ((k, gs) ∷ d) table h =
      held_in-release_each_self t q d (release_resource t k table) (λ p. ground (
        arith,
        held_in-release_resource t t k q table,
        λ (p : Dict.get q ((k, gs) ∷ d) ≡ none). h p,
      ))

  -- `release_all` takes away every lock of its transaction, and no other.
  pub held-release_all :
      (s : LockState R) (t u : ℕ) (q : R)
      → held (release_all s t) u q ≡ ite (ℕ_discrete u t) none (held s u q)
  unfolding held release_all held_in
  held-release_all s t u q = elim (ℕ_discrete u t) [
    | yes p ↦ ground (
      arith,
      held_in-release_each_self t q s.grants s.grants
          (λ none_there. ground (arith, Dict.get-nil {V = LockMode × ℕ} t)),
    )
    | no p ↦
        rw (if_neg (ℕ_discrete u t) p)
          (held_in-release_each_ne t u q (map (λ g. g.0) s.grants) s.grants p)
  ]
