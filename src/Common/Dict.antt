-- ===== src/Common/Dict.antt =====
-- Python's `dict` as an association list in insertion order, over keys with decidable equality.
-- Assigning to a present key keeps its place; a new key goes to the end.
use Prim.Native.Nat.{ℕ, ◌+◌, ◌≤◌}
use mathlib.Core.Path.{◌≡◌, refl}
use mathlib.Core.Logic.{ite, if_pos, if_neg, ◌≢◌}
use mathlib.Core.Bool.{Bool, true, false}
use mathlib.Core.Option.{Option, none, some}
use mathlib.Core.List.{List, [], ◌∷◌}
use native.Mathlib.Omega.{arith}
use native.Mathlib.Decide.{ℕ_discrete}
use soup_db.Common.Lists.{length}

-- What a type needs to serve as keys.
pub record Key {ℓ} (K : Type ℓ) : Type ℓ where
  pub dec : Discrete K

instance abbrev pub nat_key : Key ℕ
nat_key = record { dec = ℕ_discrete }

abbrev pub Dict {ℓ} : Type ℓ → Type ℓ → Type ℓ
Dict K V = List (K × V)

module _ {ℓ} {K V : Type ℓ} ⦃e : Key K⦄ where
  unfoldable pub get : K → Dict K V → Option V
  get k [] = none
  get k ((j, v) ∷ d) = ite (e.dec k j) (some v) (get k d)

  unfoldable pub has : K → Dict K V → Bool
  has k [] = false
  has k ((j, v) ∷ d) = let rest = has k d in elim (e.dec k j) [ yes _ ↦ true | no _ ↦ rest ]

  unfoldable pub put : K → V → Dict K V → Dict K V
  put k v [] = (k, v) ∷ []
  put k v ((j, w) ∷ d) = ite (e.dec k j) ((j, v) ∷ d) ((j, w) ∷ put k v d)

  unfoldable pub remove : K → Dict K V → Dict K V
  remove k [] = []
  remove k ((j, v) ∷ d) = let rest = remove k d in ite (e.dec k j) rest ((j, v) ∷ rest)

  pub get-nil : (k : K) → ◌≡◌ {A = Option V} (get k []) none
  unfolding get
  get-nil k = refl

  pub get-put :
      (k j : K) (v : V) (d : Dict K V) → get j (put k v d) ≡ ite (e.dec j k) (some v) (get j d)
  unfolding get put
  get-put k j v [] = refl
  get-put k j v ((i, w) ∷ d) = ground (arith, get-put k j v d)

  pub get-remove : (k j : K) (d : Dict K V) → get j (remove k d) ≡ ite (e.dec j k) none (get j d)
  unfolding get remove
  get-remove k j [] = ground arith
  get-remove k j ((i, w) ∷ d) = ground (arith, get-remove k j d)

  pub has-put :
      (k j : K) (v : V) (d : Dict K V)
      → has j (put k v d) ≡ (elim (e.dec j k) [ yes _ ↦ true | no _ ↦ has j d ])
  unfolding has put
  has-put k j v [] = refl
  has-put k j v ((i, w) ∷ d) = ground (arith, has-put k j v d)

  pub has-remove :
      (k j : K) (d : Dict K V)
      → has j (remove k d) ≡ (elim (e.dec j k) [ yes _ ↦ false | no _ ↦ has j d ])
  unfolding has remove
  has-remove k j [] = ground arith
  has-remove k j ((i, w) ∷ d) = ground (arith, has-remove k j d)

  pub length-put-le : (k : K) (v : V) (d : Dict K V) → length (put k v d) ≤ length d + 1
  unfolding put
  length-put-le k v [] = omega arith
  length-put-le k v ((j, w) ∷ d) = ground (arith, length-put-le k v d)

  -- Assigning to a present key adds no entry.
  pub length-put_present :
      (k : K) (v : V) (d : Dict K V) → get k d ≢ none → length (put k v d) ≡ length d
  unfolding put get
  length-put_present k v [] h = absurd (h refl)
  length-put_present k v ((j, w) ∷ d) h = ground (arith, length-put_present k v d)

  pub length-remove-le : (k : K) (d : Dict K V) → length (remove k d) ≤ length d
  unfolding remove
  length-remove-le k [] = omega arith
  length-remove-le k ((j, w) ∷ d) = ground (arith, length-remove-le k d)

  pub length-remove_present :
      (k : K) (d : Dict K V) → get k d ≢ none → length (remove k d) + 1 ≤ length d
  unfolding remove get
  length-remove_present k [] h = absurd (h refl)
  length-remove_present k ((j, w) ∷ d) h =
      ground (arith, length-remove-le k d, length-remove_present k d)

  -- No key stands twice.
  abbrev pub Distinct : Dict K V → Type ℓ
  Distinct [] = Unit
  Distinct ((k, v) ∷ d) = (get k d ≡ none) × Distinct d

  pub put-Distinct : (k : K) (v : V) (d : Dict K V) → Distinct d → Distinct (put k v d)
  unfolding put
  put-Distinct k v [] h = (get-nil k, tt)
  put-Distinct k v ((j, w) ∷ d) h = elim (e.dec k j) [
    | yes p ↦ rw (if_pos (e.dec k j) p _ _) h
    | no p ↦ rw (if_neg (e.dec k j) p _ _) (ground (arith, get-put k j v d), put-Distinct k v d h.1)
  ]

  pub remove-Distinct : (k : K) (d : Dict K V) → Distinct d → Distinct (remove k d)
  unfolding remove
  remove-Distinct k [] h = tt
  remove-Distinct k ((j, w) ∷ d) h = elim (e.dec k j) [
    | yes p ↦ rw (if_pos (e.dec k j) p _ _) (remove-Distinct k d h.1)
    | no p ↦
        rw (if_neg (e.dec k j) p _ _) (ground (arith, get-remove k j d), remove-Distinct k d h.1)
  ]
