-- ===== src/Layouts/Tests.antt =====
-- The memory as the initialisers leave it, and a place that the source asserts.
use pico_modbus_meter.Base.{◌*◌, ◌≡◌, refl, some, [], ◌∷◌, length, take, codes}
use pico_modbus_meter.Layouts.{
  SunspecField, sunspec_fields, eastron_fields, sunspec_size, eastron_size, sunspec_default, image,
  place,
}
use pico_modbus_meter.Layouts.Chain.{blocks, blocks-image}

sunspec_default-size : (f : SunspecField) → length (sunspec_default f) ≡ sunspec_size f
unfolding sunspec_default
sunspec_default-size SunspecField.sid = refl
sunspec_default-size _ = refl

blocks-image_example :
    (take 4 (image sunspec_default sunspec_fields) ≡ codes "SunS")
    × (blocks 3 (image sunspec_default sunspec_fields) 4 ≡ some ((1, 65) ∷ (213, 124) ∷ []))
blocks-image_example = blocks-image sunspec_default sunspec_default-size (λ f h. refl)

-- `line_1_to_line_2_volts` is at register 200.
eastron_place : place eastron_size eastron_fields 39 ≡ 2 * 200
eastron_place = refl
