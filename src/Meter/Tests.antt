-- ===== src/Meter/Tests.antt =====
-- A round over registers that are kept as a function, and two rounds of the clock.
use pico_modbus_meter.Base.{
  ℕ, ◌+◌, ◌-◌, ◌^◌, ◌≤◌, ◌<◌, ◌≡◌, refl, true, none, some, arith, ◌==◌, if◌then◌else◌,
}
use pico_modbus_meter.Layouts.{SunspecField}
use pico_modbus_meter.Meter.{Readings, copy_values, wait_time}
use pico_modbus_meter.Meter.Copy.{index, copy_values-expected}
use pico_modbus_meter.Meter.Wait.{wait_time_lem}

abbrev Bank : Type 0
Bank = SunspecField → ℕ

abbrev read : Bank → SunspecField → ℕ
read s f = s f

abbrev write : Bank → SunspecField → ℕ → Bank
write s f v g = if index f == index g then v else s g

abbrev readings : Readings
readings = record { addr = 3; inverted = true; read = λ f. 5 }

abbrev zeroed : Bank
zeroed f = 0

copy_values-expected_example : copy_values ◌+◌ readings write zeroed SunspecField.w ≡ 5 + 0xbf800000
copy_values-expected_example =
    copy_values-expected ◌+◌ readings read write (λ s f g v. refl) zeroed SunspecField.w

wait_time_lem_example :
    (0 + 40 < 2 ^ 31 → wait_time 0 40_000 ≡ some (250 - 40))
    × (2 ^ 31 ≤ 0 + 40 → wait_time 0 40_000 ≡ none)
wait_time_lem_example = wait_time_lem 0 40_000 40 refl (omega arith) (omega arith)
