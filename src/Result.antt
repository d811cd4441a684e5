-- ===== src/Result.antt =====
-- proto/include/loom/proto/result.hpp: `Result<T, E>` holds an `Ok<T>` or an `Err<E>`.
use loom_client.Common.{Bool, true, false, Option, none, some}

pub data Result {ℓ κ} (T : Type ℓ) (E : Type κ) : Type (ℓ ⊔ κ) where
  ok : T → Result T E
  err : E → Result T E

module _ {ℓ κ} {T : Type ℓ} {E : Type κ} where
  abbrev pub has_value : Result T E → Bool
  has_value (ok t) = true
  has_value (err e) = false

  -- `none` is the throw of `std::get` on the other alternative.
  abbrev pub value : Result T E → Option T
  value (ok t) = some t
  value (err e) = none

  abbrev pub error : Result T E → Option E
  error (ok t) = none
  error (err e) = some e
