-- ===== src/Core/Error/Returns.antt =====
-- crates/rustium-core/src/error.rs: what holds of the value of a call that returns.
use rustium.Common.{◌≡◌, refl}
use rustium.Core.Error.{Result, ok, err, ◌>>=◌}

abbrev pub OnOk : {A : Type 0} → (A → Type 0) → Result A → Type 0
OnOk P (err e) = Unit
OnOk P (ok a) = P a

pub holds_any : {A : Type 0} (r : Result A) → OnOk (λ _. Unit) r
holds_any (err e) = tt
holds_any (ok a) = tt

-- `?` passes on what holds of a value.
pub OnOk-bind :
    {A B : Type 0} (P : A → Type 0) (Q : B → Type 0) (r : Result A) (f : A → Result B)
    → OnOk P r
    → ((a : A) → P a → OnOk Q (f a))
    → OnOk Q (r >>= f)
OnOk-bind P Q (err e) f h k = tt
OnOk-bind P Q (ok a) f h k = k a h

-- A chain that returns has returned at its first call.
pub bind-ok {ℓ κ} :
    {A : Type ℓ} {B : Type κ} (r : Result A) (f : A → Result B) (b : B)
    → (r >>= f) ≡ ok b
    → (a : A) × ((r ≡ ok a) × (f a ≡ ok b))
bind-ok (err e) f b h = cc
bind-ok (ok a) f b h = (a, (refl, h))

-- It holds whatever the first call returns.
pub OnOk-after :
    {A B : Type 0} (Q : B → Type 0) (r : Result A) (f : A → Result B)
    → ((a : A) → OnOk Q (f a))
    → OnOk Q (r >>= f)
OnOk-after Q (err e) f k = tt
OnOk-after Q (ok a) f k = k a
