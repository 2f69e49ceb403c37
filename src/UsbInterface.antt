-- ===== src/UsbInterface.antt =====
-- include/usb_interface.h: the commands of the console, in the build with WiFi. The texts of numbers, of an address and of the help are
-- arguments.
pub mod Commands
pub mod Credentials
pub mod Order
pub mod Samples
mod Tests
use pico_modbus_meter.Base.{
  ℕ, ap, Bool, not, ◌||◌, Option, none, some, List, [], ◌∷◌, ◌++◌, bytes_eq, ◌==◌, if◌then◌else◌,
  length, codes,
}
use Prim.Native.String.{String}
use pico_modbus_meter.Base.Memory.{◌>>=◌}
use pico_modbus_meter.Stream.{Stream, read_word, clear}
use pico_modbus_meter.Settings.{Settings, read_settings, settings_text}
use pico_modbus_meter.Measurements.{measurements_text}
use pico_modbus_meter.Layouts.{EastronField}
use pico_modbus_meter.StaticString.{fill, sv}
use pico_modbus_meter.RingBuffer.{for_each}
use pico_modbus_meter.LogStorage.{
  LogStorage, LogSeverity, LogEntry, info, warning, error, fatal, label, max_logs,
}
use pico_modbus_meter.WifiStorage.{WifiStorage, text_size}
use pico_modbus_meter.AccessPoint
use pico_modbus_meter.AccessPoint.{Setup}
use pico_modbus_meter.WebServer.{App}
use pico_modbus_meter.WebServer.Pages.{bool_text}
use pico_modbus_meter.WebServer.Settings.{credentials}

-- the calls that switch the station mode of the WiFi driver
pub data StationCall : Type 0 where
  enable_sta_mode : StationCall
  disable_sta_mode : StationCall

-- the objects that the commands change, and what they did to the driver
pub record Console : Type 0 where
  pub app : App
  pub settings : Settings
  pub station_calls : List StationCall

-- what the library and the platform give
pub record Terminal : Type 0 where
  pub help : List ℕ
  pub decimal : ℕ → List ℕ
  pub float_text : ℕ → List ℕ
  pub parse_float : List ℕ → ℕ × Bool × List ℕ
  pub measured : EastronField → ℕ
  pub ip_text : List ℕ
  pub setup : Setup

pub data Command : Type 0 where
  help : Command
  status : Command
  set_value : Command
  enable_wifi : Command
  disable_wifi : Command
  enable_ap : Command
  disable_ap : Command
  connect_wifi : Command
  set_log_level : Command
  show_log : Command
  show_logs : Command
  separator : Command
  follow : Command
  unknown : Command

abbrev pub is_word : List ℕ → String → Bool
is_word w text = bytes_eq w (codes text)

-- the conditions of the chain, in their order
unfoldable pub command_of : List ℕ → Command
command_of w =
    if length w == 0
      || (is_word w "h" || (is_word w "-h" || (is_word w "--help" || is_word w "help")))
    then help
    else if is_word w "status"
    then status
    else if is_word w "set"
    then set_value
    else if is_word w "enable_wifi" || is_word w "ew"
    then enable_wifi
    else if is_word w "disable_wifi" || is_word w "dw"
    then disable_wifi
    else if is_word w "enable_ap" || is_word w "ea"
    then enable_ap
    else if is_word w "disable_ap" || is_word w "da"
    then disable_ap
    else if is_word w "connect_wifi" || is_word w "cw"
    then connect_wifi
    else if is_word w "set_log_level" || is_word w "sll"
    then set_log_level
    else if is_word w "log" || is_word w "l"
    then show_log
    else if is_word w "logs" || is_word w "ls"
    then show_logs
    else if is_word w "s"
    then separator
    else if is_word w "follow" || is_word w "f"
    then follow
    else unknown

-- the severity of `set_log_level`
unfoldable pub level_of : List ℕ → Option LogSeverity
level_of w =
    if is_word w "info"
    then some info
    else if is_word w "warning"
    then some warning
    else if is_word w "error"
    then some error
    else if is_word w "fatal"
    then some fatal
    else none

abbrev pub dashes : List ℕ
dashes = codes "--------------------------------------\n"

-- `print_logs`
abbrev pub log_lines : List LogEntry → Option (List ℕ)
log_lines [] = some []
log_lines (e ∷ es) = sv e.message >>= λ message.
    log_lines es >>= λ rest. some (label e.severity ++ message ++ 10 ∷ rest)

unfoldable pub print_logs : LogStorage → Option (List ℕ)
unfolding sv
print_logs s = for_each max_logs s.logs >>= λ es. log_lines es

-- `operator<<` of the WiFi storage
unfoldable pub wifi_text : Terminal → WifiStorage → Option (List ℕ)
unfolding sv
wifi_text t w = sv w.ssid_wifi >>= λ ssid. sv w.hostname >>= λ hostname. some (
    codes "Wifi connected: "
    ++ bool_text w.wifi_connected
    ++ codes "\nIp: "
    ++ t.ip_text
    ++ codes "\nStored wifi ssid: "
    ++ ssid
    ++ codes "\nhostname: "
    ++ hostname
    ++ codes "\nmdns_service_name: lachei_tcp_server\nAmount of discovered wifis: "
    ++ t.decimal w.wifis.cur_size
    ++ 10 ∷ [])

-- what a command leaves: the stream, the objects, and what it prints
abbrev pub Outcome : Type 0
Outcome = Option (Stream × Console × List ℕ)

abbrev pub with_log : Console → LogStorage → Console
with_log c log = record c { app = record c.app { log = log } }

abbrev pub set_level : Stream → Console → List ℕ → Option LogSeverity → Outcome
set_level input c level none = some (
  input,
  c,
  codes "[ERROR] severity "
      ++ level
      ++ codes " not allowed. Allowed values are: info|warning|error|fatal\n",
)
set_level input c level (some severity) =
    some (input, with_log c (record c.app.log { cur_severity = severity }), [])

-- the access point after `init` or `deinit`, with the calls that it made
abbrev pub with_ap : Console → AccessPoint.AccessPoint × List AccessPoint.ApCall → Console
with_ap c (ap, calls) = record c {
  app = record c.app { ap = ap; ap_calls = c.app.ap_calls ++ calls };
}

abbrev pub call_station : StationCall → Console → Console
call_station call c = record c { station_calls = c.station_calls ++ (call ∷ []) }

-- The credentials from two words. `fill` leaves out the zero that ends a C string.
unfoldable pub connect_with : Console → List ℕ → List ℕ × Stream → Outcome
connect_with c ssid (pwd, last) = fill text_size c.app.wifi.ssid_wifi ssid >>= λ ssid'.
    fill text_size c.app.wifi.pwd_wifi pwd >>= λ pwd'.
    some (last, record c { app = credentials c.app ssid' pwd' }, [])

-- The command with the words behind it.
unfoldable pub run : Terminal → Command → List ℕ → Stream → Console → Outcome
unfolding read_settings print_logs wifi_text read_word level_of connect_with AccessPoint.init
    AccessPoint.deinit
run t help w input c = some (input, c, t.help)
run t status w input c = wifi_text t c.app.wifi >>= λ wifi. some (
  input,
  c,
  codes "measurements:\n-------------\n"
      ++ measurements_text t.float_text t.measured
      ++ codes "settings:\n-------------\n"
      ++ settings_text t.float_text c.settings
      ++ codes "wifi:\n-------------\n"
      ++ wifi
      ++ codes "Access point active: "
      ++ bool_text c.app.ap.active
      ++ 10 ∷ [],
)
run t set_value w input c =
    let (s, after) = read_settings t.parse_float input c.settings in
    some (
      clear after,
      record c { settings = s },
      if after.fail then codes "Error at setting the value\n" else [],
    )
run t enable_wifi w input c = some (input, call_station enable_sta_mode c, [])
run t disable_wifi w input c = some (input, call_station disable_sta_mode c, [])
run t enable_ap w input c = some (input, with_ap c (AccessPoint.init t.setup c.app.ap), [])
run t disable_ap w input c = some (input, with_ap c (AccessPoint.deinit c.app.ap), [])
run t connect_wifi w input c =
    let (ssid, after_ssid) = read_word input in connect_with c ssid (read_word after_ssid)
run t set_log_level w input c =
    let (level, after) = read_word input in set_level after c level (level_of level)
run t show_log w input c = print_logs c.app.log >>= λ text. some (input, c, text)
run t show_logs w input c = print_logs c.app.log >>= λ text. some (input, c, dashes ++ text)
run t separator w input c = some (input, c, dashes)
run t follow w input c =
    some (input, with_log c (record c.app.log { print_to_cout = not c.app.log.print_to_cout }), [])
run t unknown w input c = some (
  input,
  c,
  codes "[ERROR] Command "
      ++ w
      ++ codes " unknown. Run command 'help' for a list of all available commands\n",
)

-- `handle_usb_command`: one command
unfoldable pub handle_usb_command : Terminal → Stream → Console → Outcome
unfolding read_word command_of run
handle_usb_command t input c = let (w, after) = read_word input in run t (command_of w) w after c
