-- ===== src/Common/Errors.antt =====
-- Results of code that may raise: the exception classes of engine/common/errors.py, and the Python
-- built-in ones that the engine raises or lets through. Messages are not modelled.
use mathlib.Core.Path.{◌≡◌, refl}
use mathlib.Core.Option.{Option, none, some}
use mathlib.Core.Bool.{Bool, true, false}

pub data Exc : Type 0 where
  value_error overflow_error type_error runtime_error struct_error key_error index_error : Exc
  unicode_error assertion_error connection_error : Exc
  query_parse_error query_execution_error protocol_error transaction_error : Exc
  lock_not_granted deadlock_detected record_not_found contract_violation : Exc
  unsupported_operation soup_db_error file_exists_error recursion_error : Exc

pub data Result {ℓ} (A : Type ℓ) : Type ℓ where
  ok : A → Result A
  raise : Exc → Result A

module _ {ℓ κ} {A : Type ℓ} {B : Type κ} where
  infixl 5 ◌>>=◌
  -- What comes after a step that may raise.
  abbrev pub ◌>>=◌ : Result A → (A → Result B) → Result B
  raise x >>= next = raise x
  ok a >>= next = next a

  pub >>=-eq-ok :
      (step : Result A) (next : A → Result B) {b : B}
      → (step >>= next) ≡ ok b
      → (a : A) × (step ≡ ok a) × (next a ≡ ok b)
  >>=-eq-ok (raise x) next h = cc
  >>=-eq-ok (ok a) next h = (a, refl, h)

infixl 5 ◌>>◌
abbrev pub ◌>>◌ {ℓ} : {B : Type ℓ} → Result (Unit {0}) → Result B → Result B
step >> next = step >>= (λ u. next)

-- `if not test: raise e`
abbrev pub require : Bool → Exc → Result (Unit {0})
require true e = ok tt
require false e = raise e

-- `try: …  except E: raise e`, of code that returns an option
abbrev pub or_raise {ℓ} : {A : Type ℓ} → Exc → Option A → Result A
or_raise e none = raise e
or_raise e (some a) = ok a

pub require-eq-ok : (b : Bool) (e : Exc) {u : Unit {0}} → require b e ≡ ok u → b ≡ true
require-eq-ok true e h = refl
require-eq-ok false e h = cc
