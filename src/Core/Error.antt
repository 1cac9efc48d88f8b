-- ===== src/Core/Error.antt =====
-- crates/rustium-core/src/error.rs. A message is a text; where the code formats values into it
-- the model keeps the fixed part.
pub mod Returns
use rustium.Common.{String}

pub data Error : Type 0 where
  configuration source retryable_source encoding sink retryable_sink state invariant :
      String → Error
  cancelled : Error
  json io : String → Error

-- `std::result::Result` with that error.
pub data Result {ℓ} (T : Type ℓ) : Type ℓ where
  err : Error → Result T
  ok : T → Result T

-- The `?` operator: an error ends the function.
infixl 5 ◌>>◌ ◌>>=◌
abbrev pub ◌>>=◌ {ℓ κ} : {T : Type ℓ} {U : Type κ} → Result T → (T → Result U) → Result U
err e >>= next = err e
ok value >>= next = next value

abbrev pub ◌>>◌ {ℓ} : {U : Type ℓ} → Result (Unit {0}) → Result U → Result U
err e >> rest = err e
ok _ >> rest = rest
