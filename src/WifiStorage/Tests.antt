-- ===== src/WifiStorage/Tests.antt =====
-- A second after a scan was started, a result of a scan for an empty storage, and an erased flash.
use pico_modbus_meter.Base.{
  ℕ, ◌+◌, ◌*◌, ◌/◌, ◌<◌, ◌≡◌, refl, true, false, some, arith, length, replicate, codes,
}
use pico_modbus_meter.WifiStorage.{
  WifiStorage, update_scanned, scan_result, load_from_persistent_storage,
}
use pico_modbus_meter.WifiStorage.Results.{Recorded, scan_result-Recorded}
use pico_modbus_meter.StaticString.{StaticString}
use pico_modbus_meter.StaticString.Bounds.{text}
use pico_modbus_meter.WifiStorage.Upkeep.{IsInOrder}
use pico_modbus_meter.WifiStorage.Loading.{load_from_persistent_storage-IsInOrder}
use pico_modbus_meter.WifiStorage.Samples.{fresh, fresh-IsSound}
use pico_modbus_meter.WifiStorage.Scanning.{update_scanned-early}

update_scanned-early_example :
    update_scanned fresh true true 6_500_000 0 ≡ update_scanned fresh false true 6_500_000 0
update_scanned-early_example =
    update_scanned-early fresh true 6_500_000 0 1 refl (omega arith) (omega arith)

abbrev mean : ℕ → ℕ → ℕ
mean a b = (4 * a + b) / 5

scan_result-Recorded_example :
    Recorded (codes "home") 17 fresh (scan_result mean fresh (codes "home") 40 17)
scan_result-Recorded_example =
    scan_result-Recorded mean fresh (codes "home") 40 17 fresh-IsSound (omega arith) (omega arith)

-- bytes that no program wrote
abbrev erased : StaticString
erased = record { storage = replicate 64 255; cur_size = 0xffff_ffff }

load_from_persistent_storage-IsInOrder_example :
    (t : WifiStorage) × (load_from_persistent_storage fresh erased erased erased ≡ some t)
    × IsInOrder t
    × (0 < length (text t.hostname))
    × (t.wifi_changed ≡ true)
    × (t.hostname_changed ≡ true)
load_from_persistent_storage-IsInOrder_example =
    load_from_persistent_storage-IsInOrder fresh erased erased erased fresh-IsSound refl refl refl
