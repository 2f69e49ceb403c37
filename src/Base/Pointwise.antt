-- ===== src/Base/Pointwise.antt =====
-- Lists compared element by element.
use Prim.Native.Nat.{ℕ, zero, suc, ◌<◌}
use native.Mathlib.Omega.{arith}
use mathlib.Core.Path.{◌≡◌, refl, ap, ap₂}
use mathlib.Core.List.{List, [], ◌∷◌}
use pico_modbus_meter.Base.Lists.{length, get_or, set, replicate}

pub set-set {ℓ} : {A : Type ℓ} (xs : List A) (i : ℕ) (x y : A) → set (set xs i x) i y ≡ set xs i y
set-set [] i x y = refl
set-set (z ∷ xs) zero x y = refl
set-set (z ∷ xs) (suc i) x y = ap (◌∷◌ z) (set-set xs i x y)

pub get_or-replicate {ℓ} :
    {A : Type ℓ} (n : ℕ) (x d : A) (i : ℕ) → i < n → get_or (replicate n x) i d ≡ x
get_or-replicate zero x d i h = absurd (omega arith)
get_or-replicate (suc n) x d zero h = refl
get_or-replicate (suc n) x d (suc i) h = get_or-replicate n x d i (omega arith)

-- Lists of equal length with equal elements are equal.
pub list_ext {ℓ} :
    {A : Type ℓ} (xs ys : List A) (d : A)
    → length xs ≡ length ys
    → ((k : ℕ) → k < length xs → get_or xs k d ≡ get_or ys k d)
    → xs ≡ ys
list_ext [] [] d e h = refl
list_ext [] (y ∷ ys) d e h = absurd (omega (arith, e))
list_ext (x ∷ xs) [] d e h = absurd (omega (arith, e))
list_ext (x ∷ xs) (y ∷ ys) d e h =
    ap₂ ◌∷◌ (h 0 (omega arith))
      (list_ext xs ys d (omega (arith, e)) (λ k l. h (suc k) (omega arith)))
