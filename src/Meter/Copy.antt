-- ===== src/Meter/Copy.antt =====
-- What a round of the meter leaves in the registers of the SunSpec meter.
use pico_modbus_meter.Base.{
  ℕ, ◌≡◌, refl, ap, ◌∙◌, Bool, true, false, Option, none, some, List, [], ◌∷◌, ◌==◌, if◌then◌else◌,
}
use pico_modbus_meter.Layouts.{SunspecField, EastronField}
use pico_modbus_meter.Meter.{
  Source, own_addr, direct, signed, in_wh, transfers, Readings, value_of, write_all, copy_values,
}

-- the number of a field
abbrev pub index : SunspecField → ℕ
index SunspecField.sid = 0
index SunspecField.id = 1
index SunspecField.l_header = 2
index SunspecField.manufacturer = 3
index SunspecField.device_model = 4
index SunspecField.options = 5
index SunspecField.sw_meter_version = 6
index SunspecField.sn = 7
index SunspecField.modbus_device_address = 8
index SunspecField.modbus_map = 9
index SunspecField.l_data = 10
index SunspecField.a = 11
index SunspecField.apha = 12
index SunspecField.aphb = 13
index SunspecField.aphc = 14
index SunspecField.phv = 15
index SunspecField.phvpha = 16
index SunspecField.phvphb = 17
index SunspecField.phvphc = 18
index SunspecField.ppv = 19
index SunspecField.ppvphab = 20
index SunspecField.ppvphbc = 21
index SunspecField.ppvphca = 22
index SunspecField.hz = 23
index SunspecField.w = 24
index SunspecField.wpha = 25
index SunspecField.wphb = 26
index SunspecField.wphc = 27
index SunspecField.va = 28
index SunspecField.vapha = 29
index SunspecField.vaphb = 30
index SunspecField.vaphc = 31
index SunspecField.var = 32
index SunspecField.varpha = 33
index SunspecField.varphb = 34
index SunspecField.varphc = 35
index SunspecField.pf = 36
index SunspecField.pfpha = 37
index SunspecField.pfphb = 38
index SunspecField.pfphc = 39
index SunspecField.totwhexp = 40
index SunspecField.totwhexppha = 41
index SunspecField.totwhexpphb = 42
index SunspecField.totwhexpphc = 43
index SunspecField.totwhimp = 44
index SunspecField.totwhimppha = 45
index SunspecField.totwhimpphb = 46
index SunspecField.totwhimpphc = 47
index SunspecField.totvahexp = 48
index SunspecField.totvahexppha = 49
index SunspecField.totvahexpphb = 50
index SunspecField.totvahexpphc = 51
index SunspecField.totvahimp = 52
index SunspecField.totvahimppha = 53
index SunspecField.totvahimpphb = 54
index SunspecField.totvahimpphc = 55
index SunspecField.totvarhimpq1 = 56
index SunspecField.totvarhimpq1pha = 57
index SunspecField.totvarhimpq1phb = 58
index SunspecField.totvarhimpq1phc = 59
index SunspecField.totvarhimpq2 = 60
index SunspecField.totvarhimpq2pha = 61
index SunspecField.totvarhimpq2phb = 62
index SunspecField.totvarhimpq2phc = 63
index SunspecField.totvarhimpq3 = 64
index SunspecField.totvarhimpq3pha = 65
index SunspecField.totvarhimpq3phb = 66
index SunspecField.totvarhimpq3phc = 67
index SunspecField.totvarhimpq4 = 68
index SunspecField.totvarhimpq4pha = 69
index SunspecField.totvarhimpq4phb = 70
index SunspecField.totvarhimpq4phc = 71
index SunspecField.events = 72
index SunspecField.end_id = 73
index SunspecField.l_end = 74

-- What each register is to hold, if the round writes it.
abbrev pub source_of : SunspecField → Option Source
source_of SunspecField.modbus_device_address = some own_addr
source_of SunspecField.a = some (direct EastronField.average_line_current)
source_of SunspecField.apha = some (direct EastronField.phase_1_current)
source_of SunspecField.aphb = some (direct EastronField.phase_2_current)
source_of SunspecField.aphc = some (direct EastronField.phase_3_current)
source_of SunspecField.phv = some (direct EastronField.average_line_to_neutral_volts)
source_of SunspecField.phvpha = some (direct EastronField.phase_1_neutral_volts)
source_of SunspecField.phvphb = some (direct EastronField.phase_2_neutral_volts)
source_of SunspecField.phvphc = some (direct EastronField.phase_3_neutral_volts)
source_of SunspecField.ppv = some (direct EastronField.average_line_to_line_volts)
source_of SunspecField.ppvphab = some (direct EastronField.line_1_to_line_2_volts)
source_of SunspecField.ppvphbc = some (direct EastronField.line_2_to_line_3_volts)
source_of SunspecField.ppvphca = some (direct EastronField.line_3_to_line_1_volts)
source_of SunspecField.hz = some (direct EastronField.frequency_of_supply_voltage)
source_of SunspecField.w = some (signed EastronField.total_system_power)
source_of SunspecField.wpha = some (direct EastronField.phase_1_active_power)
source_of SunspecField.wphb = some (direct EastronField.phase_2_active_power)
source_of SunspecField.wphc = some (direct EastronField.phase_3_active_power)
source_of SunspecField.va = some (direct EastronField.total_system_volt_amps)
source_of SunspecField.vapha = some (direct EastronField.phase_1_apparent_power)
source_of SunspecField.vaphb = some (direct EastronField.phase_2_apparent_power)
source_of SunspecField.vaphc = some (direct EastronField.phase_3_apparent_power)
source_of SunspecField.var = some (direct EastronField.total_system_var)
source_of SunspecField.varpha = some (direct EastronField.phase_1_reactive_power)
source_of SunspecField.varphb = some (direct EastronField.phase_2_reactive_power)
source_of SunspecField.varphc = some (direct EastronField.phase_3_reactive_power)
source_of SunspecField.pf = some (direct EastronField.total_system_power_factor)
source_of SunspecField.pfpha = some (direct EastronField.phase_1_power_factor)
source_of SunspecField.pfphb = some (direct EastronField.phase_2_power_factor)
source_of SunspecField.pfphc = some (direct EastronField.phase_3_power_factor)
source_of SunspecField.totwhexp = some (in_wh EastronField.export_active_energy)
source_of SunspecField.totwhimp = some (in_wh EastronField.import_active_energy)
source_of _ = none

-- the last value that goes to a field
abbrev last_source : SunspecField → List (SunspecField × Source) → Option Source
last_source g [] = none
last_source g ((f, v) ∷ ts) = elim (last_source g ts) [
  | some x ↦ some x
  | none ↦ if index f == index g then some v else none
]

transfers-source_of : (g : SunspecField) → last_source g transfers ≡ source_of g
transfers-source_of SunspecField.sid = refl
transfers-source_of _ = refl

module _ {ℓ} (times : ℕ → ℕ → ℕ) (r : Readings) {State : Type ℓ} (read : State → SunspecField → ℕ)
    (write : State → SunspecField → ℕ → State)
    (read-write : (s : State) (f g : SunspecField) (v : ℕ)
      → read (write s f v) g ≡ (if index f == index g then v else read s g)) where
  -- what a register holds after the writes, given the last source
  abbrev held : State → SunspecField → Option Source → ℕ
  held s g none = read s g
  held s g (some v) = value_of times r v

  read-write_all :
      (g : SunspecField) (ts : List (SunspecField × Source)) (s : State)
      → read (write_all times r write ts s) g ≡ held s g (last_source g ts)
  unfolding write_all
  read-write_all g [] s = refl
  read-write_all g ((f, v) ∷ ts) s =
      read-write_all g ts (write s f (value_of times r v)) ∙ held-cons (last_source g ts)
    where
      pick :
          (b : Bool)
          → (if b then value_of times r v else read s g) ≡ held s g (if b then some v else none)
      pick true = refl
      pick false = refl

      held-cons :
          (o : Option Source)
          → held (write s f (value_of times r v)) g o
            ≡ held s g
                (elim o [ some x ↦ some x | none ↦ if index f == index g then some v else none ])
      held-cons (some x) = refl
      held-cons none = read-write s f g (value_of times r v) ∙ pick (index f == index g)

  -- the value that a register is to have, from the one it had
  abbrev pub expected : SunspecField → ℕ → ℕ
  expected g old = elim (source_of g) [
    | none ↦ old
    | some own_addr ↦ r.addr
    | some (direct f) ↦ r.read f
    | some (signed f) ↦ times (r.read f) (if r.inverted then 0xbf800000 else 0x3f800000)
    | some (in_wh f) ↦ times (r.read f) 0x447a0000
  ]

  -- When a write is read back and leaves the other fields, a round leaves in every register the reading that belongs there, the energies
  -- times 1000 and the total power times the sign, and leaves the registers without a reading.
  pub copy_values-expected :
      (s : State) (g : SunspecField) → read (copy_values times r write s) g ≡ expected g (read s g)
  unfolding copy_values value_of
  copy_values-expected s g =
      read-write_all g transfers s ∙ ap (held s g) (transfers-source_of g) ∙ by_source (source_of g)
    where
      by_source :
          (o : Option Source)
          → held s g o ≡ (elim o [
            | none ↦ read s g
            | some own_addr ↦ r.addr
            | some (direct f) ↦ r.read f
            | some (signed f) ↦ times (r.read f) (if r.inverted then 0xbf800000 else 0x3f800000)
            | some (in_wh f) ↦ times (r.read f) 0x447a0000
          ])
      by_source none = refl
      by_source (some own_addr) = refl
      by_source (some (direct f)) = refl
      by_source (some (signed f)) = refl
      by_source (some (in_wh f)) = refl
