-- ===== src/Device/Safety.antt =====
-- The tasks keep the objects of the program in order, and so none of them gets stuck.
use pico_modbus_meter.Base.{
  ℕ, ◌≤◌, ◌≡◌, refl, subst, true, Option, none, some, List, [], ◌∷◌, arith, ◌==◌, length, get_elem?,
  set,
}
use pico_modbus_meter.Base.Memory.{◌>>=◌}
use pico_modbus_meter.Base.Yields.{Yields, result, Yields-bind, Yields-at, if_Yields}
use pico_modbus_meter.AccessPoint.{Setup}
use pico_modbus_meter.StaticVector.{contents, push_slot, StaticVector}
use pico_modbus_meter.StaticString.{fill}
use pico_modbus_meter.Stream.{Stream, read_word}
use pico_modbus_meter.LogStorage.Push
use pico_modbus_meter.WifiStorage.{
  WifiStorage, WifiInfo, ssid_size, max_wifis, find_ssid, seen_again, add_wifi, scan_result,
  update_hostname, update_wifi_connection, update_scanned,
}
use pico_modbus_meter.WifiStorage.Results.{scan_result-Recorded}
use pico_modbus_meter.WifiStorage.Upkeep.{IsInOrder}
use pico_modbus_meter.Main.{SearchTask, Answers, Actions, enable_retry, since, search_round}
use pico_modbus_meter.Main.Round.{search_round-Rounded}
use pico_modbus_meter.UsbInterface.{Terminal, handle_usb_command, command_of}
use pico_modbus_meter.UsbInterface.Order.{
  Ordered, handle_usb_command-Ordered, handle_usb_command-keeps, reads_log,
}
use pico_modbus_meter.WebServer.{App}
use pico_modbus_meter.WebServer.Order.{IsOrdered, relogged-IsOrdered}
use pico_modbus_meter.WebServer.Order.Requests.{webserver-IsOrdered}
use pico_modbus_meter.Device.{
  Device, search_task, Step, types, searches, finds, requests, Reach, here, next, logs, logs_static,
}

-- the texts stay
abbrev SameTexts : WifiStorage → WifiStorage → Type 0
SameTexts s t = (t.ssid_wifi ≡ s.ssid_wifi) × (t.pwd_wifi ≡ s.pwd_wifi) × (t.hostname ≡ s.hostname)

add_wifi-SameTexts :
    (mix : ℕ → ℕ → ℕ) (s : WifiStorage) (ssid : List ℕ) (rssi now : ℕ)
    → Yields (SameTexts s) (add_wifi mix s ssid rssi now)
unfolding add_wifi
add_wifi-SameTexts mix s ssid rssi now = by_slot (push_slot max_wifis s.wifis).0
  where
    wifis : StaticVector WifiInfo
    wifis = (push_slot max_wifis s.wifis).1

    by_slot :
        (slot : Option ℕ)
        → Yields (SameTexts s) (elim slot [
          | none ↦ some s
          | some i ↦ get_elem? wifis.storage i >>= λ w. fill ssid_size w.ssid ssid >>= λ name.
              some (record s {
                wifis = record wifis {
                  storage =
                      set wifis.storage i (record { ssid = name; rssi = rssi; last_seen_us = now });
                };
              })
        ])
    by_slot none = result (refl, refl, refl)
    by_slot (some i) =
        Yields-bind (get_elem? wifis.storage i) _
          (λ w. Yields-bind (fill ssid_size w.ssid ssid) _ (λ name. result (refl, refl, refl)))

scan_result-SameTexts :
    (mix : ℕ → ℕ → ℕ) (s : WifiStorage) (ssid : List ℕ) (rssi now : ℕ)
    → Yields (SameTexts s) (scan_result mix s ssid rssi now)
unfolding scan_result seen_again
scan_result-SameTexts mix s ssid rssi now =
    if_Yields (length ssid == 0) (result (refl, refl, refl))
      (Yields-bind (find_ssid ssid (contents s.wifis) 0) _ by_place)
  where
    by_place :
        (found : Option ℕ)
        → Yields (SameTexts s) (elim found [
          | some i ↦ seen_again mix s i rssi now
          | none ↦ add_wifi mix s ssid rssi now
        ])
    by_place none = add_wifi-SameTexts mix s ssid rssi now
    by_place (some i) = Yields-bind (get_elem? s.wifis.storage i) _ (λ w. result (refl, refl, refl))

scan_result-IsInOrder :
    (mix : ℕ → ℕ → ℕ) (s : WifiStorage) (ssid : List ℕ) (rssi now : ℕ)
    → length ssid ≤ ssid_size
    → IsInOrder s
    → (w : WifiStorage) × (scan_result mix s ssid rssi now ≡ some w) × IsInOrder w
unfolding scan_result
scan_result-IsInOrder mix s [] rssi now short v = (s, refl, v)
scan_result-IsInOrder mix s (c ∷ cs) rssi now short v =
    let (w, done, sound, _) =
      scan_result-Recorded mix s (c ∷ cs) rssi now v.sound (omega arith) short in
    let (ssid, pwd, name) =
      Yields-at (scan_result mix s (c ∷ cs) rssi now) w
        (scan_result-SameTexts mix s (c ∷ cs) rssi now) done in
    (
      w,
      done,
      record { sound = sound; ssid = rw ssid v.ssid; pwd = rw pwd v.pwd; name = rw name v.name },
    )

-- what a round of the search task leaves alone
abbrev Spares : App → App → Type 0
Spares app app' = (app'.addr ≡ app.addr) × (app'.crypto ≡ app.crypto)

search_round-Spares :
    (setup : Setup) (s : SearchTask) (a : Answers)
    → Yields (λ r. Spares s.app r.0.app) (search_round setup s a)
unfolding search_round
search_round-Spares setup s a =
    Yields-bind (update_wifi_connection (update_hostname s.app.wifi true).0 a.link_up a.accepted) _
      (λ r.
        Yields-bind
          (update_scanned (enable_retry (since s a) r.1) a.scanning a.scan_starts a.scan_now
            a.scan_later)
          _ (λ q. result (refl, refl)))

-- the objects with another WiFi storage
rewired-IsOrdered :
    (app app' : App) → IsInOrder app'.wifi → Spares app app' → IsOrdered app → IsOrdered app'
rewired-IsOrdered app app' wifi (addr, crypto) v = record {
  wifi = wifi;
  positive = omega (arith, addr, v.positive);
  small = omega (arith, addr, v.small);
  password = rw crypto v.password;
}

Step-IsOrdered : {d e : Device} → Step d e → IsOrdered d.console.app → IsOrdered e.console.app
Step-IsOrdered {d} (types t input rest c out done) v =
    Yields-at (handle_usb_command t input d.console) (rest, c, out)
      (handle_usb_command-keeps t input d.console v) done
Step-IsOrdered {d} (searches setup a t actions done) v =
    let (t', actions', done', r) = search_round-Rounded setup (search_task d) a v.wifi in
    let same : t' ≡ t = cc in
    rewired-IsOrdered d.console.app t.app
      (subst (λ (x : SearchTask). IsInOrder x.app.wifi) same r.in_order)
      (Yields-at (search_round setup (search_task d) a) (t, actions)
        (search_round-Spares setup (search_task d) a) done)
      v
Step-IsOrdered {d} (finds mix ssid rssi now w short done) v =
    let (w', done', ordered) =
      scan_result-IsInOrder mix d.console.app.wifi ssid rssi now short v.wifi in
    let same : w' ≡ w = cc in
    rewired-IsOrdered d.console.app (record d.console.app { wifi = w })
      (subst IsInOrder same ordered) (refl, refl) v
Step-IsOrdered {d} (requests p t send recieve net0 app0 req res res' net net' app done) v =
    webserver-IsOrdered p t send recieve net0 app0 req res res' d.console.app app net net' v done
Step-IsOrdered {d} (logs severity message log shown done) v = relogged-IsOrdered d.console.app log v
Step-IsOrdered {d} (logs_static severity message log shown done) v =
    relogged-IsOrdered d.console.app log v

Reach-IsOrdered :
    {first d : Device} → IsOrdered first.console.app → Reach first d → IsOrdered d.console.app
Reach-IsOrdered v here = v
Reach-IsOrdered v (next r st) = Step-IsOrdered st (Reach-IsOrdered v r)

-- The objects are in order; every input to the console, every round of the search task and every result of a scan has a result,
-- but for a command that prints the log, which has one if the log is valid.
pub record IsSafe (d : Device) : Type 0 where
  pub ordered : IsOrdered d.console.app
  pub console :
      (t : Terminal) (input : Stream)
      → (reads_log (command_of (read_word input).0) ≡ true → Push.IsValid d.console.app.log)
      → Ordered (handle_usb_command t input d.console)
  pub search :
      (setup : Setup) (a : Answers)
      → (t : SearchTask) × (actions : Actions) × (search_round setup (search_task d) a
          ≡ some (t, actions))
  pub scan :
      (mix : ℕ → ℕ → ℕ) (ssid : List ℕ) (rssi now : ℕ)
      → length ssid ≤ ssid_size
      → (w : WifiStorage) × (scan_result mix d.console.app.wifi ssid rssi now ≡ some w)

pub Reach-IsSafe : {first d : Device} → IsOrdered first.console.app → Reach first d → IsSafe d
Reach-IsSafe {d = d} start r =
    let v = Reach-IsOrdered start r in
    record {
      ordered = v;
      console = λ t input logged. handle_usb_command-Ordered t input d.console logged v;
      search = λ setup a.
          let (t, actions, done, _) = search_round-Rounded setup (search_task d) a v.wifi in
          (t, actions, done);
      scan = λ mix ssid rssi now short.
          let (w, done, _) =
            scan_result-IsInOrder mix d.console.app.wifi ssid rssi now short v.wifi in
          (w, done);
    }
