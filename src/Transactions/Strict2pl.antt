-- ===== src/Transactions/Strict2pl.antt =====
-- engine/transactions/strategies/strict_2pl.py: the state of `StrictTwoPhaseLocking` and the parts of
-- its methods that run under the mutex. A resource is any hashable value. The polling loop of
-- `acquire` is in `Strict2pl/Acquire.antt`, the wait-for graph in `Strict2pl/Deadlock.antt`.
pub mod Grants
pub mod Compat
pub mod Cycle
pub mod Deadlock
pub mod Acquire
mod Tests
use soup_db.Common.{
  ℕ, ◌+◌, ◌-◌, Bool, true, false, Option, none, some, List, [], ◌∷◌, map, ite, ℕ_discrete, ltb,
  ◌&&◌, not, if◌then◌else◌,
}
use soup_db.Common.Dict
use soup_db.Common.Dict.{Dict, Key, nat_key}
use soup_db.Transactions.LockMode.{LockMode, compat, stronger}

-- tx_id -> (mode, count)
abbrev pub Grants : Type 0
Grants = Dict ℕ (LockMode × ℕ)

pub record LockState (R : Type 0) : Type 0 where
  pub grants : Dict R Grants
  pub waiting : Dict ℕ R

-- `all(_COMPAT[other_mode][mode] for other_mode, _ in grants.values())`
all_allow : LockMode → Grants → Bool
all_allow mode [] = true
all_allow mode ((_, (other_mode, _)) ∷ grants) = compat other_mode mode && all_allow mode grants

-- The loop of `_try_grant` for a transaction that holds the resource already.
others_allow : ℕ → LockMode → Grants → Bool
others_allow tx desired [] = true
others_allow tx desired ((other, (other_mode, _)) ∷ grants) =
    let rest = others_allow tx desired grants in
    ite (ℕ_discrete other tx) rest (if compat other_mode desired then rest else false)

try_held : ℕ → LockMode → Grants → Option (LockMode × ℕ) → Bool
unfolding all_allow others_allow
try_held tx mode grants (some (held, _)) = others_allow tx (stronger held mode) grants
try_held tx mode grants none = all_allow mode grants

-- An empty `grants` needs no clause of its own: every loop over it allows.
unfoldable pub try_in : ℕ → LockMode → Option Grants → Bool
unfolding try_held
try_in tx mode none = true
try_in tx mode (some []) = true
try_in tx mode (some (g ∷ grants)) = try_held tx mode (g ∷ grants) (Dict.get tx (g ∷ grants))

-- What `acquire` stores for the transaction when the lock is granted.
unfoldable pub granted : LockMode → Option (LockMode × ℕ) → LockMode × ℕ
granted mode none = (mode, 1)
granted mode (some (held, count)) = (stronger held mode, count + 1)

unfoldable pub or_empty : Option Grants → Grants
or_empty none = []
or_empty (some grants) = grants

-- One entry of a resource's grants after `release`.
drop_one : ℕ → Grants → Option (LockMode × ℕ) → Grants
drop_one tx grants none = grants
drop_one tx grants (some (mode, count)) =
    if ltb 1 count then Dict.put tx (mode, count - 1) grants else Dict.remove tx grants

module _ {R : Type 0} ⦃e : Key R⦄ where
  -- `_try_grant`
  unfoldable pub try_grant : LockState R → ℕ → R → LockMode → Bool
  unfolding try_in
  try_grant s tx resource mode = try_in tx mode (Dict.get resource s.grants)

  unfoldable pub grant : LockState R → ℕ → R → LockMode → LockState R
  unfolding granted or_empty
  grant s tx resource mode =
      let grants = or_empty (Dict.get resource s.grants) in
      record {
        grants =
            Dict.put resource (Dict.put tx (granted mode (Dict.get tx grants)) grants) s.grants;
        waiting = Dict.remove tx s.waiting;
      }

  -- The first `with self._mutex` block of `acquire`: whether the lock was granted.
  unfoldable pub attempt : LockState R → ℕ → R → LockMode → LockState R × Bool
  attempt s tx resource mode =
      if try_grant s tx resource mode
      then (grant s tx resource mode, true)
      else (record s { waiting = Dict.put tx resource s.waiting }, false)

  -- `self._waiting.pop(tx_id, None)`, before either exception of `acquire`.
  pub give_up : LockState R → ℕ → LockState R
  give_up s tx = record s { waiting = Dict.remove tx s.waiting }

  -- A resource is deleted with its last grant.
  set_grants : R → Grants → Dict R Grants → Dict R Grants
  set_grants resource [] table = Dict.remove resource table
  set_grants resource (g ∷ grants) table = Dict.put resource (g ∷ grants) table

  pub release : LockState R → ℕ → R → LockState R
  unfolding set_grants drop_one
  release s tx resource = elim (Dict.get resource s.grants) [
    | none ↦ s
    | some grants ↦ elim (Dict.get tx grants) [
      | none ↦ s
      | some held ↦ record s {
        grants = set_grants resource (drop_one tx grants (some held)) s.grants;
      }
    ]
  ]

  -- One round of the loop of `release_all`.
  release_resource : ℕ → R → Dict R Grants → Dict R Grants
  unfolding set_grants or_empty
  release_resource tx resource table =
      set_grants resource (Dict.remove tx (or_empty (Dict.get resource table))) table

  -- The loop of `release_all`, over a copy of the resources.
  release_each : ℕ → List R → Dict R Grants → Dict R Grants
  release_each tx [] table = table
  release_each tx (resource ∷ rest) table =
      release_each tx rest (release_resource tx resource table)

  pub release_all : LockState R → ℕ → LockState R
  unfolding release_each release_resource
  release_all s tx = record {
    grants = release_each tx (map (λ g. g.0) s.grants) s.grants;
    waiting = Dict.remove tx s.waiting;
  }

  locks_from : ℕ → Dict R Grants → List R
  locks_from tx [] = []
  locks_from tx ((resource, grants) ∷ table) =
      let rest = locks_from tx table in if Dict.has tx grants then resource ∷ rest else rest

  pub locks_held : LockState R → ℕ → List R
  unfolding locks_from
  locks_held s tx = locks_from tx s.grants

  pub is_locked : LockState R → R → Bool
  is_locked s resource = elim (Dict.get resource s.grants) [
    | none ↦ false
    | some [] ↦ false
    | some (g ∷ grants) ↦ true
  ]

  unfoldable pub close : LockState R → LockState R
  close s = record { grants = []; waiting = [] }

  -- What `tx` holds on `resource`: the mode and how often it was acquired.
  unfoldable pub held : LockState R → ℕ → R → Option (LockMode × ℕ)
  unfolding or_empty
  held s tx resource = Dict.get tx (or_empty (Dict.get resource s.grants))
