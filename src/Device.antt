-- ===== src/Device.antt =====
-- src/main.cpp, `usb_comm_task` and `wifi_search_task`, with the requests to the web interface and the results of a scan, on the
-- objects that they share, and the log messages of every part. They take turns in any order, one command, round, result, request or
-- message after the other; what happens when two of them run at once is not modelled.
pub mod Safety
pub mod Samples
mod Tests
use pico_modbus_meter.Base.{ℕ, ◌≤◌, ◌≡◌, some, List, length}
use pico_modbus_meter.HttpServer.{MessageBuffer, Net}
use pico_modbus_meter.HttpServer.Serve.{select}
use pico_modbus_meter.LogStorage.{LogStorage, LogSeverity, log_formatted, log_static}
use pico_modbus_meter.Main.{SearchTask, Answers, Actions, search_round}
use pico_modbus_meter.AccessPoint.{Setup}
use pico_modbus_meter.Stream.{Stream}
use pico_modbus_meter.UsbInterface.{Console, Terminal, handle_usb_command}
use pico_modbus_meter.WebServer.{App, Platform}
use pico_modbus_meter.WebServer.Table.{Texts, webserver}
use pico_modbus_meter.WifiStorage.{WifiStorage, ssid_size, scan_result}

-- the objects, and the local variable of the search task
pub record Device : Type 0 where
  pub console : Console
  pub last_conn : ℕ

abbrev pub with_app : Device → App → Device
with_app d app = record d { console = record d.console { app = app } }

-- the search task on the objects, and the device after its round
abbrev pub search_task : Device → SearchTask
search_task d = record { app = d.console.app; last_conn = d.last_conn }

abbrev pub after_round : Device → SearchTask → Device
after_round d t = record { console = record d.console { app = t.app }; last_conn = t.last_conn }

pub data Step (d : Device) : Device → Type 0 where
  types :
      (t : Terminal) (input rest : Stream) (c : Console) (out : List ℕ)
      → handle_usb_command t input d.console ≡ some (rest, c, out)
      → Step d (record d { console = c })
  searches :
      (setup : Setup) (a : Answers) (t : SearchTask) (actions : Actions)
      → search_round setup (search_task d) a ≡ some (t, actions)
      → Step d (after_round d t)
  finds :
      (mix : ℕ → ℕ → ℕ) (ssid : List ℕ) (rssi now : ℕ) (w : WifiStorage)
      → length ssid ≤ ssid_size
      → scan_result mix d.console.app.wifi ssid rssi now ≡ some w
      → Step d (with_app d (record d.console.app { wifi = w }))
  requests :
      (p : Platform) (t : Texts) (send recieve : List MessageBuffer) (net0 : Net) (app0 : App)
      (req res res' : MessageBuffer) (net net' : Net) (app : App)
      → select (webserver p t send recieve net0 app0) req req res d.console.app net
        ≡ some (res', app, net')
      → Step d (with_app d app)
  logs :
      (severity : LogSeverity) (message : List ℕ) (log : LogStorage) (shown : List (List ℕ))
      → log_formatted d.console.app.log severity message ≡ some (log, shown)
      → Step d (with_app d (record d.console.app { log = log }))
  logs_static :
      (severity : LogSeverity) (message : List ℕ) (log : LogStorage) (shown : List (List ℕ))
      → log_static d.console.app.log severity message ≡ some (log, shown)
      → Step d (with_app d (record d.console.app { log = log }))

pub data Reach (first : Device) : Device → Type 0 where
  here : Reach first first
  next : {d e : Device} → Reach first d → Step d e → Reach first e
