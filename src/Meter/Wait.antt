-- ===== src/Meter/Wait.antt =====
-- How long a round of the meter waits.
use pico_modbus_meter.Base.{ℕ, ◌+◌, ◌-◌, ◌/◌, ◌%◌, ◌^◌, ◌≤◌, ◌<◌, ◌≡◌, none, some, arith}
use pico_modbus_meter.Meter.{wait_time}

-- A round that starts and ends before the `int` of the milliseconds turns negative waits for the rest of 250 ms, and not at all if
-- it took longer; one that ends after that, within 2 ^ 31 ms, has undefined behaviour.
pub wait_time_lem :
    (start now passed : ℕ)
    → now / 1000 ≡ start / 1000 + passed
    → passed < 2 ^ 31
    → start / 1000 % 2 ^ 32 < 2 ^ 31
    → (start / 1000 % 2 ^ 32 + passed < 2 ^ 31 → wait_time start now ≡ some (250 - passed))
      × (2 ^ 31 ≤ start / 1000 % 2 ^ 32 + passed → wait_time start now ≡ none)
unfolding wait_time
wait_time_lem start now passed at few before =
    (λ h. ground (arith, at, few, before, h), λ h. ground (arith, at, few, before, h))
