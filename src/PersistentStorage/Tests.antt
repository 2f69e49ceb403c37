-- ===== src/PersistentStorage/Tests.antt =====
-- A flash of four sectors with a layout of 300 bytes, and the theorem on writing applied there.
use pico_modbus_meter.Base.{
  ℕ, ◌+◌, ◌≤◌, ◌≡◌, ◌⊎◌, refl, some, List, [], ◌∷◌, replicate, length-replicate, arith,
}
use pico_modbus_meter.PersistentStorage.{PersistentStorage, pico_ok, write, read}
use pico_modbus_meter.PersistentStorage.Flash.{simple_flash, simple_flash-Documented}
use pico_modbus_meter.PersistentStorage.Write.{both_run}
use pico_modbus_meter.PersistentStorage.ReadBack.{IsValid, read-write}

abbrev storage : PersistentStorage
storage = record { flash = replicate 16384 0xff; write_buffer = replicate 8192 0 }

storage-IsValid : IsValid 16384 300 storage
storage-IsValid = record {
  whole = length-replicate {A = ℕ} 16384 0xff;
  sized = length-replicate {A = ℕ} 8192 0;
  sectors = refl;
  addressable = omega arith;
  has_layout = omega arith;
}

abbrev hostname : List ℕ
hostname = 109 ∷ 101 ∷ 116 ∷ 101 ∷ 114 ∷ []

read-write_example :
    (s' : PersistentStorage) × (write simple_flash 16384 300 both_run storage hostname 70
      ≡ some (pico_ok, s'))
    × IsValid 16384 300 s'
    × (read simple_flash 16384 300 s' 70 5 ≡ some hostname)
    × ((m n : ℕ)
        → m + n ≤ 300
        → (m + n ≤ 70) ⊎ (70 + 5 ≤ m)
        → read simple_flash 16384 300 s' m n ≡ read simple_flash 16384 300 storage m n)
read-write_example =
    read-write simple_flash simple_flash-Documented 16384 300 storage storage-IsValid hostname
      (omega arith) 70 (omega arith)
