-- ===== src/Transactions/LockMode.antt =====
-- engine/transactions/base.py, `LockMode`, and the two tables of
-- engine/transactions/strategies/strict_2pl.py that are indexed by it.
use soup_db.Common.{ℕ, ◌≤◌, ◌≡◌, Bool, true, false, ltb, arith, if◌then◌else◌}

pub data LockMode : Type 0 where
  shared update exclusive : LockMode

unfoldable pub lock_priority : LockMode → ℕ
lock_priority shared = 0
lock_priority update = 1
lock_priority exclusive = 2

-- `_COMPAT[held][requested]`
unfoldable pub compat : LockMode → LockMode → Bool
compat shared shared = true
compat shared update = true
compat shared exclusive = false
compat update shared = true
compat update update = false
compat update exclusive = false
compat exclusive shared = false
compat exclusive update = false
compat exclusive exclusive = false

unfoldable pub stronger : LockMode → LockMode → LockMode
unfolding lock_priority
stronger held requested =
    if ltb (lock_priority held) (lock_priority requested) then requested else held

pub compat_comm : (a b : LockMode) → compat a b ≡ compat b a
unfolding compat
compat_comm a b = ground arith

-- An exclusive lock is compatible with nothing.
pub compat-exclusive : (a : LockMode) → compat a exclusive ≡ false
unfolding compat
compat-exclusive a = ground arith

-- The stronger mode is at least each of the two.
pub lock_priority-stronger :
    (held requested : LockMode)
    → (lock_priority held ≤ lock_priority (stronger held requested))
      × (lock_priority requested ≤ lock_priority (stronger held requested))
unfolding stronger
lock_priority-stronger held requested = ground arith
