-- ===== src/Layouts.antt =====
-- modbus_layouts/modbus-layouts.h: the registers of the SunSpec meter that the device is and of the Eastron meter that
-- it reads. A pointer to a member is its name; a size and a place are in bytes, packed as the source asks for.
pub mod Chain
mod Tests
use pico_modbus_meter.Base.{
  ℕ, zero, suc, ◌+◌, ◌-◌, ◌*◌, ◌/◌, ◌%◌, ◌^◌, List, [], ◌∷◌, ◌++◌, length, replicate, codes,
}

unfoldable pub modbus_swap : ℕ → ℕ
modbus_swap v = v / 2 ^ 8 + v % 2 ^ 8 * 2 ^ 8

-- `halfs_sunspec`
pub data SunspecField : Type 0 where
  sid id l_header manufacturer device_model options sw_meter_version sn : SunspecField
  modbus_device_address modbus_map l_data a apha aphb aphc phv phvpha phvphb : SunspecField
  phvphc ppv ppvphab ppvphbc ppvphca hz w wpha wphb wphc va vapha vaphb vaphc var : SunspecField
  varpha varphb varphc pf pfpha pfphb pfphc totwhexp totwhexppha totwhexpphb : SunspecField
  totwhexpphc totwhimp totwhimppha totwhimpphb totwhimpphc totvahexp totvahexppha : SunspecField
  totvahexpphb totvahexpphc totvahimp totvahimppha totvahimpphb totvahimpphc : SunspecField
  totvarhimpq1 totvarhimpq1pha totvarhimpq1phb totvarhimpq1phc totvarhimpq2 : SunspecField
  totvarhimpq2pha totvarhimpq2phb totvarhimpq2phc totvarhimpq3 totvarhimpq3pha : SunspecField
  totvarhimpq3phb totvarhimpq3phc totvarhimpq4 totvarhimpq4pha totvarhimpq4phb : SunspecField
  totvarhimpq4phc events end_id l_end : SunspecField

-- `halfs_eastron`
pub data EastronField : Type 0 where
  phase_1_neutral_volts phase_2_neutral_volts phase_3_neutral_volts : EastronField
  phase_1_current phase_2_current phase_3_current phase_1_active_power : EastronField
  phase_2_active_power phase_3_active_power phase_1_apparent_power : EastronField
  phase_2_apparent_power phase_3_apparent_power phase_1_reactive_power : EastronField
  phase_2_reactive_power phase_3_reactive_power phase_1_power_factor : EastronField
  phase_2_power_factor phase_3_power_factor phase_1_filler phase_2_filler : EastronField
  phase_3_filler average_line_to_neutral_volts average_filler average_line_current : EastronField
  sum_of_line_currents sum_filler total_system_power total_system_filler : EastronField
  total_system_volt_amps total_system_f_iller total_system_var : EastronField
  total_system_power_factor fill0 fill1 filler2 frequency_of_supply_voltage : EastronField
  import_active_energy export_active_energy space0 line_1_to_line_2_volts : EastronField
  line_2_to_line_3_volts line_3_to_line_1_volts average_line_to_line_volts : EastronField

-- the fields in their order
abbrev pub sunspec_fields : List SunspecField
sunspec_fields =
    SunspecField.sid ∷ SunspecField.id ∷ SunspecField.l_header ∷ SunspecField.manufacturer
    ∷ SunspecField.device_model ∷ SunspecField.options ∷ SunspecField.sw_meter_version
    ∷ SunspecField.sn ∷ SunspecField.modbus_device_address ∷ SunspecField.modbus_map
    ∷ SunspecField.l_data ∷ SunspecField.a ∷ SunspecField.apha ∷ SunspecField.aphb
    ∷ SunspecField.aphc ∷ SunspecField.phv ∷ SunspecField.phvpha ∷ SunspecField.phvphb
    ∷ SunspecField.phvphc ∷ SunspecField.ppv ∷ SunspecField.ppvphab ∷ SunspecField.ppvphbc
    ∷ SunspecField.ppvphca ∷ SunspecField.hz ∷ SunspecField.w ∷ SunspecField.wpha
    ∷ SunspecField.wphb ∷ SunspecField.wphc ∷ SunspecField.va ∷ SunspecField.vapha
    ∷ SunspecField.vaphb ∷ SunspecField.vaphc ∷ SunspecField.var ∷ SunspecField.varpha
    ∷ SunspecField.varphb ∷ SunspecField.varphc ∷ SunspecField.pf ∷ SunspecField.pfpha
    ∷ SunspecField.pfphb ∷ SunspecField.pfphc ∷ SunspecField.totwhexp ∷ SunspecField.totwhexppha
    ∷ SunspecField.totwhexpphb ∷ SunspecField.totwhexpphc ∷ SunspecField.totwhimp
    ∷ SunspecField.totwhimppha ∷ SunspecField.totwhimpphb ∷ SunspecField.totwhimpphc
    ∷ SunspecField.totvahexp ∷ SunspecField.totvahexppha ∷ SunspecField.totvahexpphb
    ∷ SunspecField.totvahexpphc ∷ SunspecField.totvahimp ∷ SunspecField.totvahimppha
    ∷ SunspecField.totvahimpphb ∷ SunspecField.totvahimpphc ∷ SunspecField.totvarhimpq1
    ∷ SunspecField.totvarhimpq1pha ∷ SunspecField.totvarhimpq1phb ∷ SunspecField.totvarhimpq1phc
    ∷ SunspecField.totvarhimpq2 ∷ SunspecField.totvarhimpq2pha ∷ SunspecField.totvarhimpq2phb
    ∷ SunspecField.totvarhimpq2phc ∷ SunspecField.totvarhimpq3 ∷ SunspecField.totvarhimpq3pha
    ∷ SunspecField.totvarhimpq3phb ∷ SunspecField.totvarhimpq3phc ∷ SunspecField.totvarhimpq4
    ∷ SunspecField.totvarhimpq4pha ∷ SunspecField.totvarhimpq4phb ∷ SunspecField.totvarhimpq4phc
    ∷ SunspecField.events ∷ SunspecField.end_id ∷ SunspecField.l_end ∷ []

abbrev pub eastron_fields : List EastronField
eastron_fields =
    EastronField.phase_1_neutral_volts ∷ EastronField.phase_2_neutral_volts
    ∷ EastronField.phase_3_neutral_volts ∷ EastronField.phase_1_current
    ∷ EastronField.phase_2_current ∷ EastronField.phase_3_current
    ∷ EastronField.phase_1_active_power ∷ EastronField.phase_2_active_power
    ∷ EastronField.phase_3_active_power ∷ EastronField.phase_1_apparent_power
    ∷ EastronField.phase_2_apparent_power ∷ EastronField.phase_3_apparent_power
    ∷ EastronField.phase_1_reactive_power ∷ EastronField.phase_2_reactive_power
    ∷ EastronField.phase_3_reactive_power ∷ EastronField.phase_1_power_factor
    ∷ EastronField.phase_2_power_factor ∷ EastronField.phase_3_power_factor
    ∷ EastronField.phase_1_filler ∷ EastronField.phase_2_filler ∷ EastronField.phase_3_filler
    ∷ EastronField.average_line_to_neutral_volts ∷ EastronField.average_filler
    ∷ EastronField.average_line_current ∷ EastronField.sum_of_line_currents
    ∷ EastronField.sum_filler ∷ EastronField.total_system_power ∷ EastronField.total_system_filler
    ∷ EastronField.total_system_volt_amps ∷ EastronField.total_system_f_iller
    ∷ EastronField.total_system_var ∷ EastronField.total_system_power_factor ∷ EastronField.fill0
    ∷ EastronField.fill1 ∷ EastronField.filler2 ∷ EastronField.frequency_of_supply_voltage
    ∷ EastronField.import_active_energy ∷ EastronField.export_active_energy ∷ EastronField.space0
    ∷ EastronField.line_1_to_line_2_volts ∷ EastronField.line_2_to_line_3_volts
    ∷ EastronField.line_3_to_line_1_volts ∷ EastronField.average_line_to_line_volts ∷ []

abbrev pub sunspec_size : SunspecField → ℕ
sunspec_size SunspecField.id = 2
sunspec_size SunspecField.l_header = 2
sunspec_size SunspecField.manufacturer = 32
sunspec_size SunspecField.device_model = 32
sunspec_size SunspecField.options = 16
sunspec_size SunspecField.sw_meter_version = 16
sunspec_size SunspecField.sn = 32
sunspec_size SunspecField.modbus_device_address = 2
sunspec_size SunspecField.modbus_map = 2
sunspec_size SunspecField.l_data = 2
sunspec_size SunspecField.end_id = 2
sunspec_size SunspecField.l_end = 2
sunspec_size _ = 4

abbrev pub eastron_size : EastronField → ℕ
eastron_size EastronField.space0 = 248
eastron_size _ = 4

-- a `uint16_t` in the memory of the device
abbrev pub le16 : ℕ → List ℕ
le16 word = word % 2 ^ 8 ∷ word / 2 ^ 8 ∷ []

-- a text in an array of so many characters
abbrev pub padded : ℕ → List ℕ → List ℕ
padded n text = text ++ replicate (n - length text) 0

-- the bytes that the initialisers of `halfs_sunspec` give
unfoldable pub sunspec_default : SunspecField → List ℕ
unfolding modbus_swap
sunspec_default SunspecField.sid = codes "SunS"
sunspec_default SunspecField.id = le16 (modbus_swap 1)
sunspec_default SunspecField.l_header = le16 (modbus_swap 65)
sunspec_default SunspecField.manufacturer = padded 32 (codes "Lachei")
sunspec_default SunspecField.device_model = padded 32 (codes "1.1.1")
sunspec_default SunspecField.options = padded 16 (codes "iwos")
sunspec_default SunspecField.sw_meter_version = padded 16 (codes "1.0")
sunspec_default SunspecField.sn = padded 32 (codes "east2suns_1")
sunspec_default SunspecField.modbus_device_address = le16 (modbus_swap 1)
sunspec_default SunspecField.modbus_map = le16 (modbus_swap 213)
sunspec_default SunspecField.l_data = le16 (modbus_swap 124)
sunspec_default SunspecField.end_id = le16 0xffff
sunspec_default SunspecField.l_end = le16 0
sunspec_default f = replicate (sunspec_size f) 0

-- the memory of a structure with these fields
abbrev pub image {ℓ} : {F : Type ℓ} → (F → List ℕ) → List F → List ℕ
image v [] = []
image v (f ∷ fs) = v f ++ image v fs

-- `offsetof` of the field at an index: the sizes before it
abbrev pub place {ℓ} : {F : Type ℓ} → (F → ℕ) → List F → ℕ → ℕ
place size [] i = 0
place size (f ∷ fs) zero = 0
place size (f ∷ fs) (suc i) = size f + place size fs i
