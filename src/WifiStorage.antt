-- ===== src/WifiStorage.antt =====
-- include/wifi_storage.h: the credentials and the name of the device, and the networks in reach. The WiFi
-- driver is an argument where its answer matters, and so is the mean of two signal strengths, which the source
-- takes in floating point.
pub mod Scanning
pub mod Results
pub mod Upkeep
pub mod Loading
pub mod Samples
mod Tests
use pico_modbus_meter.Base.{
  ℕ, ◌+◌, ◌-◌, ◌/◌, ◌%◌, ◌^◌, Bool, true, false, not, ◌&&◌, ◌||◌, Option, none, some, List, [], ◌∷◌,
  bytes_eq, ltb, ◌==◌, if◌then◌else◌, length, get_elem?, set, codes,
}
use pico_modbus_meter.Base.Memory.{◌>>=◌}
use pico_modbus_meter.StaticString.{StaticString, fill, sanitize, make_c_str_safe, empty, sv}
use pico_modbus_meter.StaticVector.{StaticVector, int_lt, contents, push_slot, remove_if}

pub record WifiInfo : Type 0 where
  pub ssid : StaticString
  pub rssi : ℕ
  pub last_seen_us : ℕ

pub record WifiStorage : Type 0 where
  pub wifis : StaticVector WifiInfo
  pub last_scanned : ℕ
  pub wifi_changed : Bool
  pub wifi_connected : Bool
  pub ssid_wifi : StaticString
  pub pwd_wifi : StaticString
  pub hostname_inited : Bool
  pub hostname_changed : Bool
  pub hostname : StaticString

-- `static_string<64>`, `static_string<256>` and `static_vector<wifi_info, 8>`
abbrev pub text_size : ℕ
text_size = 64

abbrev pub ssid_size : ℕ
ssid_size = 256

abbrev pub max_wifis : ℕ
max_wifis = 8

abbrev pub discover_timeout_us : ℕ
discover_timeout_us = 6_000_000

-- `sanitize` and `make_c_str_safe`
abbrev pub safe : StaticString → Option StaticString
safe s = make_c_str_safe text_size (sanitize text_size s)

-- the name, or the default one
abbrev pub or_meter : StaticString → Option StaticString
or_meter s =
    if empty s
    then (fill text_size s (codes "meter") >>= λ m. make_c_str_safe text_size m)
    else some s

-- The arguments are the three strings that `read` gives from the flash.
unfoldable pub load_from_persistent_storage :
    WifiStorage → StaticString → StaticString → StaticString → Option WifiStorage
unfolding fill sanitize make_c_str_safe empty
load_from_persistent_storage w hostname ssid pwd = do
  safe_name ← safe hostname
  name ← or_meter safe_name
  safe_ssid ← safe ssid
  safe_pwd ← safe pwd
  some (record w {
    hostname = name;
    ssid_wifi = safe_ssid;
    pwd_wifi = safe_pwd;
    wifi_changed = true;
    hostname_changed = true;
  })

-- the index of the first network with the name, from an index on
unfoldable pub find_ssid : List ℕ → List WifiInfo → ℕ → Option (Option ℕ)
unfolding sv
find_ssid ssid [] i = some none
find_ssid ssid (w ∷ ws) i =
    sv w.ssid >>= λ name. if bytes_eq name ssid then some (some i) else find_ssid ssid ws (i + 1)

module _ (mix : ℕ → ℕ → ℕ) where
  -- the network at the index, seen again
  unfoldable pub seen_again : WifiStorage → ℕ → ℕ → ℕ → Option WifiStorage
  seen_again s i rssi now = get_elem? s.wifis.storage i >>= λ w. some (record s {
    wifis = record s.wifis {
      storage = set s.wifis.storage i (record w { rssi = mix w.rssi rssi; last_seen_us = now });
    };
  })

  -- a network that is not in the vector
  unfoldable pub add_wifi : WifiStorage → List ℕ → ℕ → ℕ → Option WifiStorage
  unfolding push_slot fill
  add_wifi s ssid rssi now =
      let (slot, wifis) = push_slot max_wifis s.wifis in
      elim slot [
        | none ↦ some s
        | some i ↦ get_elem? wifis.storage i >>= λ w. fill ssid_size w.ssid ssid >>= λ name.
            some (record s {
              wifis = record wifis {
                storage =
                    set wifis.storage i (record { ssid = name; rssi = rssi; last_seen_us = now });
              };
            })
      ]

  -- `_scan_result`: the name, the signal strength and the time
  unfoldable pub scan_result : WifiStorage → List ℕ → ℕ → ℕ → Option WifiStorage
  unfolding find_ssid seen_again add_wifi
  scan_result s ssid rssi now =
      if length ssid == 0
      then some s
      else (find_ssid ssid (contents s.wifis) 0 >>= λ found. elim found [
        | some i ↦ seen_again s i rssi now
        | none ↦ add_wifi s ssid rssi now
      ])

-- `cur_us - e.last_seen_us > DISCOVER_TIMEOUT_US`, in `uint64_t`
abbrev pub is_old : ℕ → WifiInfo → Bool
is_old now w = ltb discover_timeout_us ((now + 2 ^ 64 - w.last_seen_us) % 2 ^ 64)

-- `update_scanned`: whether it starts a scan, and the storage; given whether a scan is active, whether starting one
-- succeeds, and the two readings of the time.
unfoldable pub update_scanned : WifiStorage → Bool → Bool → ℕ → ℕ → Option (Bool × WifiStorage)
unfolding remove_if
update_scanned s active starts now later =
    let cur = now / 1_000_000 % 2 ^ 32 in
    if active && ltb ((s.last_scanned + 2 ^ 32 - cur) % 2 ^ 32) 10
    then some (false, s)
    else if starts
    then (remove_if (is_old later) s.wifis >>= λ wifis.
        some (true, record s { last_scanned = cur; wifis = wifis }))
    else some (true, record s { last_scanned = cur })

abbrev pub is_found : Option ℕ → Bool
is_found none = false
is_found (some i) = true

-- `update_wifi_connection`: whether it calls `cyw43_arch_wifi_connect_async`, and the storage; given whether
-- the link is up and whether that call succeeds.
unfoldable pub update_wifi_connection : WifiStorage → Bool → Bool → Option (Bool × WifiStorage)
unfolding find_ssid sv
update_wifi_connection s link_up accepted = sv s.ssid_wifi >>= λ ssid.
    find_ssid ssid (contents s.wifis) 0 >>= λ found.
    let linked = record s { wifi_connected = link_up } in
    if not s.wifi_changed
      || (s.ssid_wifi.cur_size == 0 || (int_lt s.pwd_wifi.cur_size 8 || not (is_found found)))
    then some (false, linked)
    else some (true, if accepted then record linked { wifi_changed = false } else linked)

-- the calls of `update_hostname`
pub data HostnameCall : Type 0 where
  lwip_lock : HostnameCall
  lwip_unlock : HostnameCall
  dhcp_stop : HostnameCall
  dhcp_start : HostnameCall
  netif_set_hostname : HostnameCall
  mdns_add : HostnameCall
  mdns_rename : HostnameCall

-- `update_hostname`, given whether there is a network interface
unfoldable pub update_hostname : WifiStorage → Bool → WifiStorage × List HostnameCall
update_hostname s nif =
    if not s.hostname_changed then (s, []) else if not nif then (s, lwip_lock ∷ []) else (
      record s { hostname_inited = true; hostname_changed = false },
      if s.hostname_inited
          then lwip_lock ∷ dhcp_stop ∷ netif_set_hostname ∷ dhcp_start ∷ lwip_unlock ∷ mdns_rename
            ∷ []
          else lwip_lock ∷ netif_set_hostname ∷ lwip_unlock ∷ mdns_add ∷ [],
    )
