-- ===== src/WifiStorage/Samples.antt =====
-- A WiFi storage as the program starts with, without networks.
use pico_modbus_meter.Base.{ℕ, zero, suc, refl, false, arith, replicate}
use pico_modbus_meter.WifiStorage.{WifiStorage, WifiInfo}
use pico_modbus_meter.WifiStorage.Results.{AllValid, IsSound}
use pico_modbus_meter.WifiStorage.Upkeep.{IsInOrder}
use pico_modbus_meter.StaticString.{empty_string}
use pico_modbus_meter.StaticString.Bounds.{IsValid, empty_string-IsValid}

abbrev pub unused : WifiInfo
unused = record { ssid = empty_string 256; rssi = 0; last_seen_us = 0 }

abbrev pub fresh : WifiStorage
fresh = record {
  wifis = record { storage = replicate 8 unused; cur_size = 0 };
  last_scanned = 5;
  wifi_changed = false;
  wifi_connected = false;
  ssid_wifi = empty_string 64;
  pwd_wifi = empty_string 64;
  hostname_inited = false;
  hostname_changed = false;
  hostname = empty_string 64;
}

unused-IsValid : IsValid 256 unused.ssid
unused-IsValid = empty_string-IsValid 256 (omega arith)

unused-AllValid : (n : ℕ) → AllValid (replicate n unused)
unused-AllValid zero = tt
unused-AllValid (suc n) = (unused-IsValid, unused-AllValid n)

pub fresh-IsSound : IsSound fresh
fresh-IsSound = record { slots = refl; within = omega arith; names = unused-AllValid 8 }

pub fresh-IsInOrder : IsInOrder fresh
fresh-IsInOrder = record {
  sound = fresh-IsSound;
  ssid = empty_string-IsValid 64 (omega arith);
  pwd = empty_string-IsValid 64 (omega arith);
  name = empty_string-IsValid 64 (omega arith);
}
