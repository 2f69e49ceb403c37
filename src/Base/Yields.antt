-- ===== src/Base/Yields.antt =====
-- What every result of a partial operation has, if it has one.
use mathlib.Core.Path.{◌≡◌, subst, refl}
use mathlib.Core.Bool.{Bool, true, false}
use mathlib.Core.Option.{Option, none, some}
use pico_modbus_meter.Base.Tests.{if◌then◌else◌}
use pico_modbus_meter.Base.Memory.{◌>>=◌}

-- A result, if there is one, has the property.
pub data Yields {ℓ κ} {A : Type ℓ} (P : A → Type κ) : Option A → Type (ℓ ⊔ κ) where
  nothing : Yields P none
  result : {a : A} → P a → Yields P (some a)

pub Yields-bind {ℓ κ ρ} :
    {A : Type ℓ} {B : Type κ} {P : B → Type ρ} (m : Option A) (f : A → Option B)
    → ((a : A) → Yields P (f a))
    → Yields P (m >>= f)
Yields-bind none f h = nothing
Yields-bind (some a) f h = h a

pub Yields-at {ℓ κ} :
    {A : Type ℓ} {P : A → Type κ} (r : Option A) (a : A) → Yields P r → r ≡ some a → P a
Yields-at r a nothing e = cc
Yields-at {P} r a (result {a = b} p) e = let same : b ≡ a = cc in subst P same p

pub if_Yields {ℓ κ} :
    {A : Type ℓ} {P : A → Type κ} {x y : Option A} (b : Bool)
    → Yields P x
    → Yields P y
    → Yields P (if b then x else y)
if_Yields true p q = p
if_Yields false p q = q

pub >>=-Yields {ℓ κ ρ σ} :
    {A : Type ℓ} {B : Type κ} {P : A → Type ρ} {Q : B → Type σ} (m : Option A) (f : A → Option B)
    → Yields P m
    → ((a : A) → P a → Yields Q (f a))
    → Yields Q (m >>= f)
>>=-Yields none f nothing h = nothing
>>=-Yields (some a) f (result p) h = h a p

pub Yields-if {ℓ κ ρ} :
    {A : Type ℓ} {V : Type κ} {P : A → Type ρ} (r : Option A)
    → (V → Yields P r)
    → Yields (λ a. V → P a) r
Yields-if none h = nothing
Yields-if (some a) h = result (λ v. Yields-at (some a) a (h v) refl)
