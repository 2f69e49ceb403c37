-- ===== src/Main.antt =====
-- src/main.cpp, `wifi_search_task`: the task that keeps the WiFi connection, the name of the device, the access point and the clock. What
-- the platform answers in a round is an argument; `get_netif` returns an address in both builds, never null.
pub mod Round
pub mod Retry
pub mod Samples
mod Tests
use pico_modbus_meter.Base.{
  ℕ, ◌+◌, ◌-◌, ◌/◌, ◌%◌, ◌^◌, ap, Bool, true, false, Option, some, List, [], ◌∷◌, ◌++◌, ltb, ◌==◌,
  if◌then◌else◌,
}
use pico_modbus_meter.Base.Memory.{◌>>=◌}
use pico_modbus_meter.AccessPoint
use pico_modbus_meter.AccessPoint.{Setup}
use pico_modbus_meter.NtpClient.{NtpClient, update_time}
use pico_modbus_meter.StaticString.{empty}
use pico_modbus_meter.WebServer.{App}
use pico_modbus_meter.WifiStorage.{
  WifiStorage, HostnameCall, update_hostname, update_wifi_connection, update_scanned,
}

-- `time_s`
abbrev pub time_s : ℕ → ℕ
time_s us = us / 1_000_000 % 2 ^ 32

abbrev pub ap_timeout : ℕ
ap_timeout = 10

-- the objects that the task works on, and its local variable
pub record SearchTask : Type 0 where
  pub app : App
  pub last_conn : ℕ

-- The answers of a round: the time at its start, whether the link is up, whether a connection is accepted, whether a scan runs and
-- whether one can be started, at which two times, and what lwIP gives to the clock.
pub record Answers : Type 0 where
  pub now : ℕ
  pub link_up : Bool
  pub accepted : Bool
  pub scanning : Bool
  pub scan_starts : Bool
  pub scan_now : ℕ
  pub scan_later : ℕ
  pub ntp_pcb : Option ℕ
  pub ntp_address : Option (List ℕ)

-- what a round does to the platform: whether it tries to connect, starts a scan and looks up the time server
pub record Actions : Type 0 where
  pub host : List HostnameCall
  pub connects : Bool
  pub led : Bool
  pub scans : Bool
  pub looks_up : Bool

-- the access point after `init`, in the objects
abbrev pub open_ap : Setup → Bool → App → App
open_ap setup wanted app =
    let (ap, calls) = (if wanted then AccessPoint.init setup app.ap else (app.ap, [])) in
    record app { ap = ap; ap_calls = app.ap_calls ++ calls }

abbrev pub update_clock : Answers → Bool → NtpClient → NtpClient × Bool
update_clock a connected c = if connected then update_time a.ntp_pcb a.ntp_address c else (c, false)

-- the seconds since the last connection
abbrev pub since : SearchTask → Answers → ℕ
since s a = (time_s a.now + 2 ^ 32 - s.last_conn) % 2 ^ 32

-- the lines before the loop
unfoldable pub search_start : Setup → ℕ → App → SearchTask
unfolding AccessPoint.init empty
search_start setup now app = record {
  app = open_ap setup (empty app.wifi.ssid_wifi) app;
  last_conn = time_s now;
}

-- `dt % 30 == 5`
abbrev pub enable_retry : ℕ → WifiStorage → WifiStorage
enable_retry dt w = if dt % 30 == 5 then record w { wifi_changed = true } else w

-- one round of the loop
unfoldable pub search_round : Setup → SearchTask → Answers → Option (SearchTask × Actions)
search_round setup s a =
    let dt = since s a in
    let (named, host) = update_hostname s.app.wifi true in
    update_wifi_connection named a.link_up a.accepted >>= λ (connects, linked).
    update_scanned (enable_retry dt linked) a.scanning a.scan_starts a.scan_now a.scan_later
    >>= λ (scans, scanned).
        let (ntp, looks_up) = update_clock a scanned.wifi_connected s.app.ntp in
        some (
          record {
            app = open_ap setup (ltb ap_timeout dt) (record s.app { wifi = scanned; ntp = ntp });
            last_conn = if linked.wifi_connected then time_s a.now else s.last_conn;
          },
          record {
            host = host;
            connects = connects;
            led = if ltb ap_timeout dt then time_s a.now % 2 == 1 else linked.wifi_connected;
            scans = scans;
            looks_up = looks_up;
          },
        )

-- so many rounds as there are answers
unfoldable pub search_rounds :
    Setup → SearchTask → List Answers → Option (SearchTask × List Actions)
unfolding search_round
search_rounds setup s [] = some (s, [])
search_rounds setup s (a ∷ answers) = search_round setup s a >>= λ (t, actions).
    search_rounds setup t answers >>= λ (u, rest). some (u, actions ∷ rest)
