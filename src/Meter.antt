-- ===== src/Meter.antt =====
-- src/main.cpp, `update_meter_task`: the values of the Eastron meter go to the registers of the SunSpec meter. A `float`
-- is its 32-bit pattern, and their product is a parameter. The Modbus library is a parameter too: what `write` and
-- `read` do with the registers, and the readings that `read_remote` leaves.
pub mod Copy
pub mod Wait
mod Tests
use pico_modbus_meter.Base.{
  ℕ, ◌+◌, ◌-◌, ◌/◌, ◌%◌, ◌^◌, Bool, ◌&&◌, ◌||◌, Option, none, some, List, [], ◌∷◌, leb,
  if◌then◌else◌,
}
use pico_modbus_meter.Base.Memory.{◌>>=◌}
use pico_modbus_meter.Layouts.{SunspecField, EastronField}

-- where the value of a register comes from: the own address, a reading, or a reading that is multiplied
pub data Source : Type 0 where
  own_addr : Source
  direct : EastronField → Source
  signed : EastronField → Source
  in_wh : EastronField → Source

-- the lines of the block in their order: the field that is written, and its value
abbrev pub transfers : List (SunspecField × Source)
transfers =
    (SunspecField.modbus_device_address, own_addr)
    ∷ (SunspecField.phvpha, direct EastronField.phase_1_neutral_volts)
    ∷ (SunspecField.phvphb, direct EastronField.phase_2_neutral_volts)
    ∷ (SunspecField.phvphc, direct EastronField.phase_3_neutral_volts)
    ∷ (SunspecField.apha, direct EastronField.phase_1_current)
    ∷ (SunspecField.aphb, direct EastronField.phase_2_current)
    ∷ (SunspecField.aphc, direct EastronField.phase_3_current)
    ∷ (SunspecField.wpha, direct EastronField.phase_1_active_power)
    ∷ (SunspecField.wphb, direct EastronField.phase_2_active_power)
    ∷ (SunspecField.wphc, direct EastronField.phase_3_active_power)
    ∷ (SunspecField.vapha, direct EastronField.phase_1_apparent_power)
    ∷ (SunspecField.vaphb, direct EastronField.phase_2_apparent_power)
    ∷ (SunspecField.vaphc, direct EastronField.phase_3_apparent_power)
    ∷ (SunspecField.varpha, direct EastronField.phase_1_reactive_power)
    ∷ (SunspecField.varphb, direct EastronField.phase_2_reactive_power)
    ∷ (SunspecField.varphc, direct EastronField.phase_3_reactive_power)
    ∷ (SunspecField.pfpha, direct EastronField.phase_1_power_factor)
    ∷ (SunspecField.pfphb, direct EastronField.phase_2_power_factor)
    ∷ (SunspecField.pfphc, direct EastronField.phase_3_power_factor)
    ∷ (SunspecField.ppvphab, direct EastronField.line_1_to_line_2_volts)
    ∷ (SunspecField.ppvphbc, direct EastronField.line_2_to_line_3_volts)
    ∷ (SunspecField.ppvphca, direct EastronField.line_3_to_line_1_volts)
    ∷ (SunspecField.phv, direct EastronField.average_line_to_neutral_volts)
    ∷ (SunspecField.a, direct EastronField.average_line_current)
    ∷ (SunspecField.w, signed EastronField.total_system_power)
    ∷ (SunspecField.va, direct EastronField.total_system_volt_amps)
    ∷ (SunspecField.var, direct EastronField.total_system_var)
    ∷ (SunspecField.pf, direct EastronField.total_system_power_factor)
    ∷ (SunspecField.hz, direct EastronField.frequency_of_supply_voltage)
    ∷ (SunspecField.ppv, direct EastronField.average_line_to_line_volts)
    ∷ (SunspecField.totwhimp, in_wh EastronField.import_active_energy)
    ∷ (SunspecField.totwhexp, in_wh EastronField.export_active_energy)
    ∷ []

-- `-1.f`, `1.f` and `1e3f`
abbrev pub minus_one : ℕ
minus_one = 0xbf800000

abbrev pub one : ℕ
one = 0x3f800000

abbrev pub thousand : ℕ
thousand = 0x447a0000

-- what a round works with: the address, the sign, and the readings
pub record Readings : Type 0 where
  pub addr : ℕ
  pub inverted : Bool
  pub read : EastronField → ℕ

abbrev pub f_watts : Bool → ℕ
f_watts inverted = if inverted then minus_one else one

module _ (times : ℕ → ℕ → ℕ) (r : Readings) where
  unfoldable pub value_of : Source → ℕ
  value_of own_addr = r.addr
  value_of (direct f) = r.read f
  value_of (signed f) = times (r.read f) (f_watts r.inverted)
  value_of (in_wh f) = times (r.read f) thousand

  module _ {ℓ} {State : Type ℓ} (write : State → SunspecField → ℕ → State) where
    unfoldable pub write_all : List (SunspecField × Source) → State → State
    unfolding value_of
    write_all [] s = s
    write_all ((f, v) ∷ ts) s = write_all ts (write s f (value_of v))

    -- the block under the lock
    unfoldable pub copy_values : State → State
    unfolding write_all
    copy_values s = write_all transfers s

-- the sign of an `int` pattern
abbrev pub is_negative : ℕ → Bool
is_negative a = leb (2 ^ 31) a

-- `a - b` of two `int` patterns; an overflow is undefined.
unfoldable pub int_sub : ℕ → ℕ → Option ℕ
int_sub a b =
    let d = (a + 2 ^ 32 - b) % 2 ^ 32 in
    if is_negative a
    then (if is_negative b || is_negative d then some d else none)
    else (if is_negative b && is_negative d then none else some d)

-- `int(time_us_64() / 1000)`
abbrev pub ms_of : ℕ → ℕ
ms_of us = us / 1000 % 2 ^ 32

-- `std::max(0, x)`
abbrev pub or_now : ℕ → ℕ
or_now x = if is_negative x then 0 else x

-- the milliseconds of `vTaskDelay` at the end of a round, from the two readings of the time
unfoldable pub wait_time : ℕ → ℕ → Option ℕ
unfolding int_sub
wait_time start now = int_sub (ms_of now) (ms_of start) >>= λ passed.
    int_sub 250 passed >>= λ rest. some (or_now rest)
