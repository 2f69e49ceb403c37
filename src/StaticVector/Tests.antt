-- ===== src/StaticVector/Tests.antt =====
-- Static vectors of four numbers, and the theorems on them applied there.
use pico_modbus_meter.Base.{ℕ, ◌≡◌, refl, Bool, not, ◌&&◌, some, [], ◌∷◌, arith, ltb}
use pico_modbus_meter.StaticVector.{StaticVector, contents, remove_if}
use pico_modbus_meter.StaticVector.Bounded.{IsValid}
use pico_modbus_meter.StaticVector.RemoveIf.{count, remove_if_lem}

abbrev three : StaticVector ℕ
three = record { storage = 10 ∷ 20 ∷ 30 ∷ 0 ∷ []; cur_size = 3 }

three-IsValid : IsValid 4 three
three-IsValid = record { capacity = refl; small = omega arith; within = omega arith }

remove_if_lem_example :
    (w : StaticVector ℕ) × (remove_if (ltb 15) three ≡ some w)
    × IsValid 4 w
    × ((p : ℕ → Bool) → count p (contents w) ≡ count (λ x. p x && not (ltb 15 x)) (contents three))
remove_if_lem_example = remove_if_lem 4 (ltb 15) three three-IsValid
