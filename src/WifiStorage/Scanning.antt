-- ===== src/WifiStorage/Scanning.antt =====
-- When `update_scanned` starts a scan.
use pico_modbus_meter.Base.{
  ℕ, ◌+◌, ◌-◌, ◌/◌, ◌%◌, ◌^◌, ◌<◌, ◌≡◌, refl, Bool, true, false, arith, ltb, le→ltb,
}
use pico_modbus_meter.WifiStorage.{WifiStorage, update_scanned}

-- From one to nine seconds after the last scan was started, a scan that is still active does not keep
-- `update_scanned` from starting another one: it does what it does when no scan is active.
pub update_scanned-early :
    (s : WifiStorage) (starts : Bool) (now later d : ℕ)
    → now / 1_000_000 % 2 ^ 32 ≡ s.last_scanned + d
    → 0 < d
    → d < 10
    → update_scanned s true starts now later ≡ update_scanned s false starts now later
unfolding update_scanned
update_scanned-early s starts now later d at some_time few =
    let past : ltb ((s.last_scanned + 2 ^ 32 - now / 1_000_000 % 2 ^ 32) % 2 ^ 32) 10 ≡ false =
      le→ltb _ 10 (omega (arith, at, some_time, few)) in
    rw past refl
