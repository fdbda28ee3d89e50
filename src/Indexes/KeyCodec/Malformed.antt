-- ===== src/Indexes/KeyCodec/Malformed.antt =====
-- engine/indexes/_key_codec.py: what decoding does with any bytes.
use soup_db.Common.{◌≡◌, ◌⊎◌, Exc, Result, ok, raise}
use soup_db.Common.Bytes.{Bytes}
use soup_db.Common.Utf8

module _ (deep : Type 0) where
  -- A result, a ValueError, or under a condition a RecursionError.
  Clean {ℓ} : {A : Type ℓ} → Result A → Type 0
  Clean (ok a) = Unit
  Clean (raise e) = (e ≡ Exc.value_error) ⊎ (deep × (e ≡ Exc.recursion_error))
