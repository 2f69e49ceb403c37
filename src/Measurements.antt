-- ===== src/Measurements.antt =====
-- include/measurements.h: the text of the measurements. The readings of the Eastron meter and the text of a `float` are arguments.
use pico_modbus_meter.Base.{ℕ, List, [], ◌∷◌, ◌++◌, codes}
use pico_modbus_meter.Layouts.{EastronField}

-- `operator<<`
abbrev pub measurements_text : (ℕ → List ℕ) → (EastronField → ℕ) → List ℕ
measurements_text text read =
    codes "Watt usage: "
    ++ text (read EastronField.total_system_power)
    ++ 10 ∷ codes "P1 V      : "
    ++ text (read EastronField.phase_1_neutral_volts)
    ++ 10 ∷ codes "Hz        : "
    ++ text (read EastronField.frequency_of_supply_voltage)
    ++ 10 ∷ []
