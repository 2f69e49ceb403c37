-- ===== src/UsbInterface/Commands.antt =====
-- Which objects a command of the console leaves alone.
use pico_modbus_meter.Base.{ℕ, ◌≡◌, refl, ◌≢◌, Option, none, some, List}
use pico_modbus_meter.Base.Yields.{Yields, result, Yields-bind, Yields-at}
use pico_modbus_meter.Stream.{Stream, read_word}
use pico_modbus_meter.StaticString.{fill}
use pico_modbus_meter.WifiStorage.{text_size}
use pico_modbus_meter.LogStorage.{LogSeverity}
use pico_modbus_meter.UsbInterface.{
  connect_with, Console, Terminal, Command, connect_wifi, set_log_level, Outcome, set_level,
  level_of, print_logs, wifi_text, command_of, run, handle_usb_command,
}

-- The password stays, and so do the WiFi storage and the flash if the command is another than `connect_wifi`.
abbrev pub Keeps : Command → Console → Console → Type 0
Keeps k c c' =
    (c'.app.crypto ≡ c.app.crypto)
    × (k ≢ connect_wifi → (c'.app.wifi ≡ c.app.wifi) × (c'.app.stored ≡ c.app.stored))

abbrev KeepsIn : Command → Console → Outcome → Type 0
KeepsIn k c r = Yields (λ o. Keeps k c o.1) r

set_level-Keeps :
    (input : Stream) (c : Console) (w : List ℕ) (s : Option LogSeverity)
    → KeepsIn set_log_level c (set_level input c w s)
set_level-Keeps input c w none = result (refl, λ h. (refl, refl))
set_level-Keeps input c w (some s) = result (refl, λ h. (refl, refl))

connect_with-Keeps :
    (c : Console) (ssid pwd : List ℕ) (last : Stream)
    → KeepsIn connect_wifi c (connect_with c ssid (pwd, last))
unfolding connect_with
connect_with-Keeps c ssid pwd last = Yields-bind (fill text_size c.app.wifi.ssid_wifi ssid) _ (λ s.
    Yields-bind (fill text_size c.app.wifi.pwd_wifi pwd) _
      (λ p. result (refl, λ h. absurd (h refl))))

run-Keeps :
    (t : Terminal) (k : Command) (w : List ℕ) (input : Stream) (c : Console)
    → KeepsIn k c (run t k w input c)
unfolding run
run-Keeps t Command.status w input c =
    Yields-bind (wifi_text t c.app.wifi) _ (λ wifi. result (refl, λ h. (refl, refl)))
run-Keeps t connect_wifi w input c =
    connect_with-Keeps c (read_word input).0 (read_word (read_word input).1).0
      (read_word (read_word input).1).1
run-Keeps t set_log_level w input c =
    set_level-Keeps (read_word input).1 c (read_word input).0 (level_of (read_word input).0)
run-Keeps t Command.show_log w input c =
    Yields-bind (print_logs c.app.log) _ (λ text. result (refl, λ h. (refl, refl)))
run-Keeps t Command.show_logs w input c =
    Yields-bind (print_logs c.app.log) _ (λ text. result (refl, λ h. (refl, refl)))
run-Keeps t _ w input c = result (refl, λ h. (refl, refl))

-- No command of the console changes the password, and none but `connect_wifi` and `cw` changes the WiFi storage or the flash.
pub handle_usb_command-Keeps :
    (t : Terminal) (input : Stream) (c : Console) {input' : Stream} {c' : Console} {out : List ℕ}
    → handle_usb_command t input c ≡ some (input', c', out)
    → Keeps (command_of (read_word input).0) c c'
unfolding handle_usb_command
handle_usb_command-Keeps t input c {input'} {c'} {out} h =
    Yields-at (handle_usb_command t input c) (input', c', out)
      (run-Keeps t (command_of (read_word input).0) (read_word input).0 (read_word input).1 c) h
